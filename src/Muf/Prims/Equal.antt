-- ===== src/Muf/Prims/Equal.antt =====
-- Primitives that are others under another name, on every frame, their errors included, and primitives
-- that undo one another.
use fuzzball_emerald.Prelude.{ℕ, ◌+◌, ◌≤◌, ◌≡◌, refl, sym, false, List, [], ◌∷◌, arith, ltb, length}
use fuzzball_emerald.Prelude.Int.{pos, negsuc}
use fuzzball_emerald.Muf.{Value, Frame}
use fuzzball_emerald.Muf.Stack.{
  return, Outcome, done, failed, panic, M, and_then, Unit0, push, pop_n, push_all,
}
use fuzzball_emerald.Muf.Prims.{
  count_of, last_first, Prim, run, swap, rot, unrot, rotate_by, count_of, last_first, last_first,
}
use fuzzball_emerald.Muf.Prims.Takes.{enough}

then_return : (o : Outcome Unit0) → and_then o (λ _. return tt) ≡ o
then_return (done u f) = refl
then_return (failed e f) = refl
then_return panic = refl

then_same :
    (o : Outcome Unit0) (k l : M Unit0)
    → ((g : Frame) → k g ≡ l g)
    → and_then o (λ _. k) ≡ and_then o (λ _. l)
then_same (done u f) k l h = h f
then_same (failed e f) k l h = refl
then_same panic k l h = refl

-- The two tests of the depth, on a stack that is high enough.
deep : (n k : ℕ) → k ≤ n → ltb (n + 0) k ≡ false
deep n k h = ground arith

swap_on : (s : List Value) (f : Frame) → f.stack ≡ s → run swap f ≡ rotate_by (pos 2) f
unfolding run rotate_by pop_n push_all count_of
swap_on [] f e = rw e
swap_on (a ∷ []) f e = rw e
swap_on (a ∷ b ∷ s) f e = rw e (
    rw (enough (length (a ∷ b ∷ s)) 2 (omega arith)) (
      rw (deep (length (a ∷ b ∷ s)) 2 (omega arith)) (
        then_same (push a (record f { stack = s })) (push b) (push_all (b ∷ []))
          (λ g. sym (then_return (push b g))))))

rot_on : (s : List Value) (f : Frame) → f.stack ≡ s → run rot f ≡ rotate_by (pos 3) f
unfolding run rotate_by pop_n push_all count_of
rot_on [] f e = rw e
rot_on (a ∷ []) f e = rw e
rot_on (a ∷ b ∷ []) f e = rw e
rot_on (a ∷ b ∷ c ∷ s) f e = rw e (
    rw (enough (length (a ∷ b ∷ c ∷ s)) 3 (omega arith))
      (rw (deep (length (a ∷ b ∷ c ∷ s)) 3 (omega arith))))

unrot_on : (s : List Value) (f : Frame) → f.stack ≡ s → run unrot f ≡ rotate_by (negsuc 2) f
unfolding run rotate_by pop_n push_all count_of last_first
unrot_on [] f e = rw e
unrot_on (a ∷ []) f e = rw e
unrot_on (a ∷ b ∷ []) f e = rw e
unrot_on (a ∷ b ∷ c ∷ s) f e = rw e (
    rw (enough (length (a ∷ b ∷ c ∷ s)) 3 (omega arith))
      (rw (deep (length (a ∷ b ∷ c ∷ s)) 3 (omega arith))))

-- SWAP is ROTATE by 2, ROT by 3 and -ROT by -3, on every frame: the same stack, or the same error.
pub run-rotate_by :
    (f : Frame)
    → (run swap f ≡ rotate_by (pos 2) f)
      × (run rot f ≡ rotate_by (pos 3) f)
      × (run unrot f ≡ rotate_by (negsuc 2) f)
run-rotate_by f = (swap_on f.stack f refl, rot_on f.stack f refl, unrot_on f.stack f refl)
