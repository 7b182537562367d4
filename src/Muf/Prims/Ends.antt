-- ===== src/Muf/Prims/Ends.antt =====
-- The primitives end without a panic and keep the stack within its ceiling, but for the arguments
-- that `IsSafe` leaves out.
use fuzzball_emerald.Prelude.{
  ℕ, suc, ◌+◌, ◌<◌, ◌^◌, List, [], ◌∷◌, Option, none, some, arith, ltb, length, get_elem?,
}
use fuzzball_emerald.Prelude.Int.{ℤ, pos, negsuc}
use fuzzball_emerald.Muf.{
  Value, cleared, integer, float, object, var, lvar, svar, string, lock, address, array, mark,
  Frame,
}
use fuzzball_emerald.Muf.Stack.{
  MufError, get_scoped, read_var, write_var, set_scoped, indexed, scoped_into,
}
use fuzzball_emerald.Muf.Prims.{Prim, fetch, store, rotate, ldup, find_mark, keep_above, marked}
use fuzzball_emerald.Muf.Prims.Safe.{
  Bounded, Fine, fine_done, fine_failed, IsFine, Fine-if, push-IsFine,
}

-- A reference that `@` may read: no variable's number is negative.
abbrev pub Readable : Value → Type 0
Readable (var (negsuc n)) = ⊥
Readable (lvar (negsuc n)) = ⊥
Readable _ = Unit

-- A reference that `!` may write.
abbrev pub Writable : Value → Type 0
Writable (var (negsuc n)) = ⊥
Writable (lvar (negsuc n)) = ⊥
Writable (svar (negsuc n)) = ⊥
Writable _ = Unit

-- An int64 whose negation is one.
abbrev pub Negatable : ℤ → Type 0
Negatable (pos n) = n < 2 ^ 63
Negatable (negsuc n) = n + 1 < 2 ^ 63

-- An int64 whose successor is one.
abbrev pub Countable : ℤ → Type 0
Countable (pos n) = n + 1 < 2 ^ 63
Countable (negsuc n) = Unit

abbrev pub RotateArg : Value → Type 0
RotateArg (integer n) = Negatable n
RotateArg _ = Unit

abbrev pub CountArg : Value → Type 0
CountArg (integer n) = Countable n
CountArg _ = Unit

abbrev pub IsSafe : Prim → List Value → Type 0
IsSafe fetch (v ∷ _) = Readable v
IsSafe store (v ∷ _) = Writable v
IsSafe rotate (v ∷ _) = RotateArg v
IsSafe ldup (v ∷ _) = CountArg v
IsSafe _ _ = Unit

abbrev pub Shorter : ℕ → Option (ℕ × List Value) → Type 0
Shorter m none = Unit
Shorter m (some (k, r)) = length r < m

keep_above-Shorter :
    (m : ℕ) (v : Value) (o : Option (ℕ × List Value))
    → Shorter m o
    → Shorter (suc m) (keep_above v o)
keep_above-Shorter m v none h = tt
keep_above-Shorter m v (some (k, r)) h = omega arith

pub find_mark-Shorter : (n : ℕ) (s : List Value) → Shorter (length s) (find_mark n s)
unfolding find_mark
find_mark-Shorter n [] = tt
find_mark-Shorter n (mark ∷ s) = omega arith
find_mark-Shorter n (cleared ∷ s) =
    keep_above-Shorter (length s) (cleared) (find_mark (suc n) s) (find_mark-Shorter (suc n) s)
find_mark-Shorter n (integer i ∷ s) =
    keep_above-Shorter (length s) (integer i) (find_mark (suc n) s) (find_mark-Shorter (suc n) s)
find_mark-Shorter n (float i ∷ s) =
    keep_above-Shorter (length s) (float i) (find_mark (suc n) s) (find_mark-Shorter (suc n) s)
find_mark-Shorter n (object i ∷ s) =
    keep_above-Shorter (length s) (object i) (find_mark (suc n) s) (find_mark-Shorter (suc n) s)
find_mark-Shorter n (var i ∷ s) =
    keep_above-Shorter (length s) (var i) (find_mark (suc n) s) (find_mark-Shorter (suc n) s)
find_mark-Shorter n (lvar i ∷ s) =
    keep_above-Shorter (length s) (lvar i) (find_mark (suc n) s) (find_mark-Shorter (suc n) s)
find_mark-Shorter n (svar i ∷ s) =
    keep_above-Shorter (length s) (svar i) (find_mark (suc n) s) (find_mark-Shorter (suc n) s)
find_mark-Shorter n (string i ∷ s) =
    keep_above-Shorter (length s) (string i) (find_mark (suc n) s) (find_mark-Shorter (suc n) s)
find_mark-Shorter n (lock i ∷ s) =
    keep_above-Shorter (length s) (lock i) (find_mark (suc n) s) (find_mark-Shorter (suc n) s)
find_mark-Shorter n (address i ∷ s) =
    keep_above-Shorter (length s) (address i) (find_mark (suc n) s) (find_mark-Shorter (suc n) s)
find_mark-Shorter n (array i ∷ s) =
    keep_above-Shorter (length s) (array i) (find_mark (suc n) s) (find_mark-Shorter (suc n) s)

pub marked-Fine :
    (o : Option (ℕ × List Value)) (f : Frame)
    → Bounded f
    → Shorter (length f.stack) o
    → Fine (marked o f)
marked-Fine none f h e = fine_failed _ f h
marked-Fine (some (n, r)) f h e = push-IsFine (integer (pos n)) _ (omega arith)

indexed-IsFine : (o : Option Value) (e : MufError) → IsFine (indexed o e)
indexed-IsFine none e f h = fine_failed e f h
indexed-IsFine (some v) e f h = fine_done v f h

pub read_var-Fine : (v : Value) → Readable v → IsFine (read_var v)
unfolding read_var get_scoped
read_var-Fine (var (pos n)) r f h = indexed-IsFine (get_elem? f.vars n) _ f h
read_var-Fine (var (negsuc n)) r f h = absurd r
read_var-Fine (lvar (pos n)) r f h = indexed-IsFine (get_elem? f.lvars n) _ f h
read_var-Fine (lvar (negsuc n)) r f h = absurd r
read_var-Fine (svar (pos n)) r f h = indexed-IsFine _ _ f h
read_var-Fine (svar (negsuc n)) r f h = fine_failed _ f h
read_var-Fine cleared r f h = fine_failed _ f h
read_var-Fine (integer n) r f h = fine_failed _ f h
read_var-Fine (float n) r f h = fine_failed _ f h
read_var-Fine (object n) r f h = fine_failed _ f h
read_var-Fine (string n) r f h = fine_failed _ f h
read_var-Fine (lock n) r f h = fine_failed _ f h
read_var-Fine (address n) r f h = fine_failed _ f h
read_var-Fine (array n) r f h = fine_failed _ f h
read_var-Fine mark r f h = fine_failed _ f h

scoped_into-Fine : (n : ℕ) (v : Value) (s : List (List Value)) → IsFine (scoped_into (pos n) v s)
scoped_into-Fine n v [] f h = fine_failed _ f h
scoped_into-Fine n v (s ∷ r) f h = fine_done tt _ h

pub write_var-Fine : (target v : Value) → Writable target → IsFine (write_var target v)
unfolding write_var set_scoped
write_var-Fine (var (pos n)) v w f h =
    Fine-if (ltb n (length f.vars)) (fine_done tt _ h) (fine_failed _ f h)
write_var-Fine (var (negsuc n)) v w f h = absurd w
write_var-Fine (lvar (pos n)) v w f h =
    Fine-if (ltb n (length f.lvars)) (fine_done tt _ h) (fine_failed _ f h)
write_var-Fine (lvar (negsuc n)) v w f h = absurd w
write_var-Fine (svar (pos n)) v w f h = scoped_into-Fine n v f.scopes f h
write_var-Fine (svar (negsuc n)) v w f h = absurd w
write_var-Fine cleared v w f h = fine_failed _ f h
write_var-Fine (integer n) v w f h = fine_failed _ f h
write_var-Fine (float n) v w f h = fine_failed _ f h
write_var-Fine (object n) v w f h = fine_failed _ f h
write_var-Fine (string n) v w f h = fine_failed _ f h
write_var-Fine (lock n) v w f h = fine_failed _ f h
write_var-Fine (address n) v w f h = fine_failed _ f h
write_var-Fine (array n) v w f h = fine_failed _ f h
write_var-Fine mark v w f h = fine_failed _ f h
