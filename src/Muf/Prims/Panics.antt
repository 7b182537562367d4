-- ===== src/Muf/Prims/Panics.antt =====
-- The arguments that `IsSafe` leaves out do make Go panic.
use fuzzball_emerald.Prelude.Int.{to_int64}
use fuzzball_emerald.Prelude.{
  ℕ, suc, ◌-◌, ◌<◌, ◌^◌, ◌≡◌, Bool, true, false, List, [], ◌∷◌, arith, ltb, leb, length,
}
use fuzzball_emerald.Prelude.Int.{pos, negsuc, ltb_ℤ, ◌-ℤ◌}
use fuzzball_emerald.Muf.{Value, integer, Frame, stack_size}
use fuzzball_emerald.Muf.Stack.{panic, push, pop, pop_n, peek, pop_int, read_var}
use fuzzball_emerald.Muf.Prims.{
  rotate_counted, run_all, Prim, run, fetch, rotate, ldup, variable, rotate_by, rotate_counted,
  count_of,
}

has_room : (n : ℕ) → n < stack_size → leb stack_size n ≡ false
has_room n h = ground arith

fetch-negative :
    (f : Frame) (n : ℕ) (s : List Value)
    → f.stack ≡ integer (negsuc n) ∷ s
    → length s < stack_size
    → run_all (variable ∷ fetch ∷ []) f ≡ panic
unfolding run_all pop_int pop push read_var
fetch-negative f n s e h = rw e (rw (has_room (length s) h))

above : (m n : ℕ) → ltb_ℤ (pos m) (negsuc n) ≡ false
above m n = ground arith

rotate_negative : (up : Bool) (n : ℕ) (f : Frame) → rotate_counted up (negsuc n) f ≡ panic
unfolding pop_n
rotate_negative up n f = rw (above (length f.stack) n)

wraps : (m : ℕ) → ltb_ℤ (pos m) (to_int64 (pos (2 ^ 63))) ≡ false
unfolding to_int64
wraps m = ground arith

lacks : (m : ℕ) → m < 2 ^ 63 → ltb m (2 ^ 63) ≡ true
lacks m h = ground arith

run-extreme :
    (f g : Frame) (s : List Value)
    → f.stack ≡ integer (negsuc (2 ^ 63 - 1)) ∷ s
    → g.stack ≡ integer (pos (2 ^ 63 - 1)) ∷ s
    → length s < stack_size
    → (run rotate f ≡ panic) × (run ldup g ≡ panic)
unfolding run pop_int pop rotate_by count_of to_int64 ◌-ℤ◌ pop_n peek
run-extreme f g s e e' h = (
  rw e (rotate_negative false (2 ^ 63 - 1) (record f { stack = s })),
  rw e' (rw (wraps (suc (length s))) (rw (lacks (suc (length s)) (omega arith)))),
)

-- On a stack within its ceiling: VARIABLE takes any integer, and the @ behind it panics where the
-- integer is negative; ROTATE by the least int64, whose negation is itself, and LDUP of the
-- greatest, whose successor is negative, panic, whatever lies below them.
pub run-panics :
    (e f g : Frame) (n : ℕ) (s : List Value)
    → e.stack ≡ integer (negsuc n) ∷ s
    → f.stack ≡ integer (negsuc (2 ^ 63 - 1)) ∷ s
    → g.stack ≡ integer (pos (2 ^ 63 - 1)) ∷ s
    → length s < stack_size
    → (run_all (variable ∷ fetch ∷ []) e ≡ panic) × (run rotate f ≡ panic) × (run ldup g ≡ panic)
run-panics e f g n s he hf hg h =
    let (a, b) = run-extreme f g s hf hg h in (fetch-negative e n s he h, a, b)
