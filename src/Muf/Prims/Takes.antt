-- ===== src/Muf/Prims/Takes.antt =====
-- What `PopN` of two and of three values gives.
use fuzzball_emerald.Prelude.{ℕ, ◌≤◌, ◌<◌, ◌≡◌, true, false, List, [], ◌∷◌, arith, ltb, length}
use fuzzball_emerald.Prelude.Int.{pos}
use fuzzball_emerald.Muf.{Value, Frame}
use fuzzball_emerald.Muf.Stack.{stack_underflow, Outcome, done, failed, M, and_then, Unit0, pop_n}
use fuzzball_emerald.Muf.Prims.{Prim, pair, triple}
use fuzzball_emerald.Muf.Prims.Safe.{Bounded, Fine, fine_failed, IsFine}

-- Two and three values taken from the stack are as many as the code reads.
pub data TakesTwo (f : Frame) : Outcome (List Value) → Type 0 where
  lacks_two : TakesTwo f (failed stack_underflow f)
  takes_two :
      (a b : Value) (r : List Value)
      → length r ≤ length f.stack
      → TakesTwo f (done (a ∷ b ∷ []) (record f { stack = r }))

pub data TakesThree (f : Frame) : Outcome (List Value) → Type 0 where
  lacks_three : TakesThree f (failed stack_underflow f)
  takes_three :
      (a b c : Value) (r : List Value)
      → length r ≤ length f.stack
      → TakesThree f (done (a ∷ b ∷ c ∷ []) (record f { stack = r }))

pub short : (n k : ℕ) → n < k → ltb n k ≡ true
short n k h = ground arith

pub enough : (n k : ℕ) → k ≤ n → ltb n k ≡ false
enough n k h = ground arith

pub two-TakesTwo : (s : List Value) (f : Frame) → f.stack ≡ s → TakesTwo f (pop_n (pos 2) f)
unfolding pop_n
two-TakesTwo [] f e = rw e lacks_two
two-TakesTwo (a ∷ []) f e = rw e lacks_two
two-TakesTwo (a ∷ b ∷ s) f e =
    rw e (rw (enough (length (a ∷ b ∷ s)) 2 (omega arith)) (takes_two b a s (omega arith)))

pub three-TakesThree : (s : List Value) (f : Frame) → f.stack ≡ s → TakesThree f (pop_n (pos 3) f)
unfolding pop_n
three-TakesThree [] f e = rw e lacks_three
three-TakesThree (a ∷ []) f e = rw e lacks_three
three-TakesThree (a ∷ b ∷ []) f e = rw e lacks_three
three-TakesThree (a ∷ b ∷ c ∷ s) f e =
    rw e (rw (enough (length (a ∷ b ∷ c ∷ s)) 3 (omega arith)) (takes_three c b a s (omega arith)))

pub pair-Fine :
    (k : Value → Value → M Unit0) {f : Frame} {o : Outcome (List Value)}
    → TakesTwo f o
    → Bounded f
    → ((a b : Value) → IsFine (k a b))
    → Fine (and_then o (pair k))
pair-Fine k {f = f} lacks_two h l = fine_failed _ f h
pair-Fine k (takes_two a b r g) h l = l a b _ (omega arith)

pub triple-Fine :
    (k : Value → Value → Value → M Unit0) {f : Frame} {o : Outcome (List Value)}
    → TakesThree f o
    → Bounded f
    → ((a b c : Value) → IsFine (k a b c))
    → Fine (and_then o (triple k))
triple-Fine k {f = f} lacks_three h l = fine_failed _ f h
triple-Fine k (takes_three a b c r g) h l = l a b c _ (omega arith)
