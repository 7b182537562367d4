-- ===== src/Muf/Prims/Depths.antt =====
-- The primitives that read the top of the stack before they decide.
use fuzzball_emerald.Prelude.Int.{to_int64}
use fuzzball_emerald.Prelude.{
  ℕ, zero, suc, ◌+◌, ◌≤◌, ◌<◌, ◌^◌, ◌≡◌, Bool, true, false, ◌||◌, List, [], ◌∷◌, ◌++◌, arith, ltb,
  length, take, length-drop, length-take, Bool-cases, inl, inr,
}
use fuzzball_emerald.Prelude.Int.{ℤ, pos, negsuc, ltb_ℤ, eqb_ℤ, ◌-ℤ◌}
use fuzzball_emerald.Muf.{
  Value, cleared, integer, float, object, var, lvar, svar, string, lock, address, array, mark,
  Frame, stack_size,
}
use fuzzball_emerald.Muf.Stack.{push, pop, pop_n, peek, onto, pop_int}
use fuzzball_emerald.Muf.Prims.{
  Prim, run, fetch, store, rotate, ldup, rotate_by, rotate_counted, count_of, copy_counted, rotated,
  last_first,
}
use fuzzball_emerald.Muf.Prims.Safe.{
  Fine, fine_done, fine_failed, IsFine, Fine-bind, Fine-if, push-IsFine, push_all-IsFine,
  copy_top-IsFine,
}
use fuzzball_emerald.Muf.Prims.Takes.{enough}
use fuzzball_emerald.Muf.Prims.Ends.{Negatable, CountArg, IsSafe, read_var-Fine, write_var-Fine}

-- Where a primitive reads the top of the stack before it decides.
pub store-Fine :
    (s : List Value) (f : Frame)
    → f.stack ≡ s
    → length s ≤ stack_size
    → IsSafe store s
    → Fine (run store f)
unfolding run pop_n
store-Fine [] f e h k = rw e (fine_failed _ _ (omega arith))
store-Fine (a ∷ []) f e h k = rw e (fine_failed _ _ (omega arith))
store-Fine (a ∷ b ∷ s) f e h k =
    rw e (rw (enough (length (a ∷ b ∷ s)) 2 (omega arith)) (write_var-Fine a b k _ (omega arith)))

pub fetch-Fine :
    (s : List Value) (f : Frame)
    → f.stack ≡ s
    → length s ≤ stack_size
    → IsSafe fetch s
    → Fine (run fetch f)
unfolding run pop
fetch-Fine [] f e h k = rw e (fine_failed _ _ (omega arith))
fetch-Fine (a ∷ s) f e h k = rw e (Fine-bind push (read_var-Fine a k _ (omega arith)) push-IsFine)

rotated-IsFine : (up : Bool) (vs : List Value) → 0 < length vs → IsFine (rotated up vs)
rotated-IsFine up [] k f h = absurd (omega arith)
rotated-IsFine true (v ∷ vs) k f h = push_all-IsFine (vs ++ v ∷ []) f h
rotated-IsFine false (v ∷ vs) k f h = push_all-IsFine (last_first (v ∷ vs)) f h

pub length-onto : (vs acc : List Value) → length (onto vs acc) ≡ length vs + length acc
length-onto [] acc = omega arith
length-onto (v ∷ vs) acc = omega (arith, length-onto vs (v ∷ acc))

pub pos_lt : (a b : ℕ) → ltb_ℤ (pos a) (pos b) ≡ ltb a b
pos_lt a b = ground arith

not_short : (a b : ℕ) → ltb a b ≡ false → b ≤ a
not_short a b h = ground arith

group-Fine : (up : Bool) (c : ℕ) → IsFine (rotate_counted up (pos (suc c)))
unfolding pop_n
group-Fine up c f h = elim (Bool-cases (ltb (length f.stack) (suc c))) [
  | inl e ↦ rw (pos_lt (length f.stack) (suc c)) (rw e (fine_failed _ f h))
  | inr e ↦ rw (pos_lt (length f.stack) (suc c)) (
      rw e (
        rotated-IsFine up (onto (take (suc c) f.stack) [])
          (omega (
            arith,
            not_short (length f.stack) (suc c) e,
            length-onto (take (suc c) f.stack) [],
            length-take (suc c) f.stack,
          ))
          _ (omega (arith, length-drop (suc c) f.stack))))
]

pub count_of-pos : (n : ℕ) → count_of (pos n) ≡ pos n
unfolding count_of
count_of-pos n = ground arith

pub count_of-negsuc : (n : ℕ) → n + 1 < 2 ^ 63 → count_of (negsuc n) ≡ pos (suc n)
unfolding count_of to_int64 ◌-ℤ◌
count_of-negsuc n h = ground arith

counted-Fine :
    (n : ℤ) (c : ℕ)
    → count_of n ≡ pos (suc c)
    → IsFine (rotate_counted (ltb_ℤ (pos 0) n) (count_of n))
counted-Fine n c e f h = rw e (group-Fine (ltb_ℤ (pos 0) n) c f h)

rotate_by-Fine : (n : ℤ) → Negatable n → IsFine (rotate_by n)
unfolding rotate_by
rotate_by-Fine (pos zero) k f h = fine_done tt f h
rotate_by-Fine (pos (suc n)) k f h =
    Fine-if
      (eqb_ℤ (pos (suc n)) (pos 0) || eqb_ℤ (pos (suc n)) (pos 1) || eqb_ℤ (pos (suc n)) (negsuc 0))
      (fine_done tt f h) (counted-Fine (pos (suc n)) n (count_of-pos (suc n)) f h)
rotate_by-Fine (negsuc n) k f h =
    Fine-if (eqb_ℤ (negsuc n) (pos 0) || eqb_ℤ (negsuc n) (pos 1) || eqb_ℤ (negsuc n) (negsuc 0))
      (fine_done tt f h) (counted-Fine (negsuc n) n (count_of-negsuc n k) f h)

-- `as_integer` passes on the integer that is on top, and nothing else.
pub rotate-Fine :
    (s : List Value) (f : Frame)
    → f.stack ≡ s
    → length s ≤ stack_size
    → IsSafe rotate s
    → Fine (run rotate f)
unfolding run pop_int pop
rotate-Fine [] f e h k = rw e (fine_failed _ _ (omega arith))
rotate-Fine (integer n ∷ s) f e h k = rw e (rotate_by-Fine n k _ (omega arith))
rotate-Fine (cleared ∷ s) f e h k = rw e (fine_failed _ _ (omega arith))
rotate-Fine (float n ∷ s) f e h k = rw e (fine_failed _ _ (omega arith))
rotate-Fine (object n ∷ s) f e h k = rw e (fine_failed _ _ (omega arith))
rotate-Fine (var n ∷ s) f e h k = rw e (fine_failed _ _ (omega arith))
rotate-Fine (lvar n ∷ s) f e h k = rw e (fine_failed _ _ (omega arith))
rotate-Fine (svar n ∷ s) f e h k = rw e (fine_failed _ _ (omega arith))
rotate-Fine (string n ∷ s) f e h k = rw e (fine_failed _ _ (omega arith))
rotate-Fine (lock n ∷ s) f e h k = rw e (fine_failed _ _ (omega arith))
rotate-Fine (address n ∷ s) f e h k = rw e (fine_failed _ _ (omega arith))
rotate-Fine (array n ∷ s) f e h k = rw e (fine_failed _ _ (omega arith))
rotate-Fine (mark ∷ s) f e h k = rw e (fine_failed _ _ (omega arith))

small : (n m : ℕ) → n + 1 < 2 ^ 63 → ltb_ℤ (pos m) (to_int64 (pos (suc n))) ≡ ltb m (suc n)
unfolding to_int64
small n m h = ground arith

counted_copy-Fine : (n : ℕ) → n + 1 < 2 ^ 63 → IsFine (copy_counted (integer (pos n)))
counted_copy-Fine n k f h = elim (Bool-cases (ltb (length f.stack) (suc n))) [
  | inl e ↦ rw (small n (length f.stack) k) (rw e (fine_failed _ f h))
  | inr e ↦ rw (small n (length f.stack) k) (rw e (copy_top-IsFine (suc n) f h))
]

copy_counted-Fine : (v : Value) → CountArg v → IsFine (copy_counted v)
copy_counted-Fine (integer (pos n)) k f h = counted_copy-Fine n k f h
copy_counted-Fine (integer (negsuc n)) k f h = fine_failed _ f h
copy_counted-Fine cleared k f h = fine_failed _ f h
copy_counted-Fine (float n) k f h = fine_failed _ f h
copy_counted-Fine (object n) k f h = fine_failed _ f h
copy_counted-Fine (var n) k f h = fine_failed _ f h
copy_counted-Fine (lvar n) k f h = fine_failed _ f h
copy_counted-Fine (svar n) k f h = fine_failed _ f h
copy_counted-Fine (string n) k f h = fine_failed _ f h
copy_counted-Fine (lock n) k f h = fine_failed _ f h
copy_counted-Fine (address n) k f h = fine_failed _ f h
copy_counted-Fine (array n) k f h = fine_failed _ f h
copy_counted-Fine mark k f h = fine_failed _ f h

pub ldup-Fine :
    (s : List Value) (f : Frame)
    → f.stack ≡ s
    → length s ≤ stack_size
    → IsSafe ldup s
    → Fine (run ldup f)
unfolding run peek
ldup-Fine [] f e h k = rw e (fine_failed _ _ (omega arith))
ldup-Fine (v ∷ s) f e h k = rw e (copy_counted-Fine v k _ h)
