-- ===== src/Muf/Prims/Safe.antt =====
-- The primitives end without a panic and keep the stack within its ceiling, but for the arguments
-- that `IsSafe` leaves out.
use fuzzball_emerald.Prelude.{
  ℕ, zero, suc, ◌≤◌, ◌≡◌, refl, Bool, true, false, ◌||◌, List, [], ◌∷◌, Option, none, some, arith,
  ltb, leb, if◌then◌else◌, length, take, get_elem?, length-drop, Bool-cases, inl, inr,
}
use fuzzball_emerald.Prelude.Int.{ℤ, pos, negsuc, ltb_ℤ, ◌-ℤ◌}
use fuzzball_emerald.Muf.{
  Value, cleared, float, object, string, lock, address, array, mark, integer, var, lvar, svar,
  Frame, stack_size,
}
use fuzzball_emerald.Muf.Stack.{
  MufError, Outcome, done, failed, M, and_then, push, pop, pop_from, pop_n, peek, found, onto,
  push_all, pop_int, as_integer, return, set_at, index,
}
use fuzzball_emerald.Muf.Prims.{Prim, pick_at, pop_count, copy_top, dup_count, put_at}

abbrev pub Bounded : Frame → Type 0
Bounded f = length f.stack ≤ stack_size

-- An end or an error, with a stack within its ceiling.
pub data Fine {A : Type 0} : Outcome A → Type 0 where
  fine_done : (a : A) (f : Frame) → Bounded f → Fine (done a f)
  fine_failed : (e : MufError) (f : Frame) → Bounded f → Fine (failed e f)

abbrev pub IsFine : {A : Type 0} → M A → Type 0
IsFine m = (f : Frame) → Bounded f → Fine (m f)

pub Fine-bind :
    {A B : Type 0} {o : Outcome A} (k : A → M B)
    → Fine o
    → ((a : A) → IsFine (k a))
    → Fine (and_then o k)
Fine-bind k (fine_done a f h) l = l a f h
Fine-bind k (fine_failed e f h) l = fine_failed e f h

pub Fine-if :
    {A : Type 0} (t : Bool) {a b : Outcome A} → Fine a → Fine b → Fine (if t then a else b)
Fine-if true h k = h
Fine-if false h k = k

pub push-IsFine : (v : Value) → IsFine (push v)
unfolding push
push-IsFine v f h = elim (Bool-cases (leb stack_size (length f.stack))) [
  | inl e ↦ rw e (fine_failed _ f h)
  | inr e ↦ rw e (fine_done tt _ (ground arith))
]

pub push_all-IsFine : (vs : List Value) → IsFine (push_all vs)
unfolding push_all
push_all-IsFine [] f h = fine_done tt f h
push_all-IsFine (v ∷ vs) f h =
    Fine-bind (λ _. push_all vs) (push-IsFine v f h) (λ _. push_all-IsFine vs)

pop_from-Fine :
    (s : List Value) (f : Frame) → length s ≤ stack_size → Bounded f → Fine (pop_from s f)
pop_from-Fine [] f h k = fine_failed _ f k
pop_from-Fine (v ∷ s) f h k = fine_done v _ (omega arith)

pub pop-IsFine : IsFine pop
unfolding pop
pop-IsFine f h = pop_from-Fine f.stack f h h

pub as_integer-IsFine : (v : Value) → IsFine (as_integer v)
as_integer-IsFine (integer n) f h = fine_done n f h
as_integer-IsFine cleared f h = fine_failed _ f h
as_integer-IsFine (float n) f h = fine_failed _ f h
as_integer-IsFine (object n) f h = fine_failed _ f h
as_integer-IsFine (var n) f h = fine_failed _ f h
as_integer-IsFine (lvar n) f h = fine_failed _ f h
as_integer-IsFine (svar n) f h = fine_failed _ f h
as_integer-IsFine (string n) f h = fine_failed _ f h
as_integer-IsFine (lock n) f h = fine_failed _ f h
as_integer-IsFine (address n) f h = fine_failed _ f h
as_integer-IsFine (array n) f h = fine_failed _ f h
as_integer-IsFine mark f h = fine_failed _ f h

pub found-Fine : (o : Option Value) (f : Frame) → Bounded f → Fine (found o f)
found-Fine none f h = fine_failed _ f h
found-Fine (some v) f h = fine_done v f h

pub peek-IsFine : (n : ℤ) → IsFine (peek n)
unfolding peek
peek-IsFine (negsuc n) f h = fine_failed _ f h
peek-IsFine (pos n) f h = found-Fine (get_elem? f.stack n) f h

pub pop_n-IsFine : (n : ℕ) → IsFine (pop_n (pos n))
unfolding pop_n
pop_n-IsFine n f h = elim (Bool-cases (ltb (length f.stack) n)) [
  | inl e ↦ rw e (fine_failed _ f h)
  | inr e ↦ rw e (fine_done _ _ (omega (arith, length-drop n f.stack)))
]

pub pop_int-IsFine : IsFine pop_int
unfolding pop_int
pop_int-IsFine f h = Fine-bind as_integer (pop-IsFine f h) as_integer-IsFine

pub done-IsFine : {A : Type 0} (a : A) → IsFine (return a)
done-IsFine a f h = fine_done a f h

pub IsFine-if :
    {A : Type 0} (t : Bool) {m n : M A} → IsFine m → IsFine n → IsFine (if t then m else n)
IsFine-if true h k = h
IsFine-if false h k = k

pub pick_at-IsFine : (n : ℤ) → IsFine (pick_at n)
pick_at-IsFine n = IsFine-if (ltb_ℤ n (pos 1)) (λ f h. fine_failed _ f h) (peek-IsFine (n -ℤ pos 1))

pub pop_count-IsFine : (e : MufError) (n : ℤ) → IsFine (pop_count e n)
pop_count-IsFine e (pos n) =
    IsFine-if (ltb_ℤ (pos n) (pos 0)) (λ f h. fine_failed _ f h) (pop_n-IsFine n)
pop_count-IsFine e (negsuc n) =
    let low : ltb_ℤ (negsuc n) (pos 0) ≡ true = ground arith in rw low (λ f h. fine_failed e f h)

pub copy_top-IsFine : (n : ℕ) → IsFine (copy_top n)
copy_top-IsFine n f h = push_all-IsFine (onto (take n f.stack) []) f h

pub dup_count-IsFine : (n : ℤ) → IsFine (dup_count n)
dup_count-IsFine (negsuc n) f h = fine_failed _ f h
dup_count-IsFine (pos n) f h =
    Fine-if (ltb (length f.stack) n) (fine_failed _ f h) (copy_top-IsFine n f h)

pub length-set_at : (n : ℕ) (v : Value) (s : List Value) → length (set_at n v s) ≡ length s
unfolding set_at
length-set_at zero v [] = refl
length-set_at (suc n) v [] = refl
length-set_at zero v (x ∷ s) = refl
length-set_at (suc n) v (x ∷ s) = omega (arith, length-set_at n v s)

pub put_at-IsFine : (n : ℤ) (v : Value) → IsFine (put_at n v)
put_at-IsFine n v f h =
    Fine-if (ltb_ℤ n (pos 1) || ltb_ℤ (pos (length f.stack)) n) (fine_failed _ f h)
      (fine_done tt _ (omega (arith, length-set_at (index (n -ℤ pos 1)) v f.stack)))
