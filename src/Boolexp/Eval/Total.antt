-- ===== src/Boolexp/Eval/Total.antt =====
-- Evaluation ends, in a world where containment and the environment have no cycles: the searches need
-- no more fuel than a player's contents are deep and an environment is high.
use fuzzball_emerald.Prelude.{
  ℕ, zero, suc, ◌≤◌, ◌<◌, ◌≡◌, Bool, true, false, not, List, [], ◌∷◌, Option, none, some, arith,
  Bytes, Bool-cases, inl, inr,
}
use fuzzball_emerald.Prelude.Int.{ℤ, eqb_ℤ}
use fuzzball_emerald.Ref.{Ref, nothing}
use fuzzball_emerald.Ascii.SMatch.{smatch}
use fuzzball_emerald.Ascii.SMatch.Total.{
  Answers, answer, or_else-Answers, if-Answers, Answers-inv, smatch-total,
}
use fuzzball_emerald.Props.Value.{Value, Content, string, int, float, dir, lock, ref}
use fuzzball_emerald.Boolexp.{Expr, true_boolexp, both, either, negated, const, prop, Host}
use fuzzball_emerald.Boolexp.Eval.{
  and_then, negate, any_of, content_matches, value_matches, has_property_strict, environment, holds,
  has_property, eval_prop, eval,
}
use fuzzball_emerald.Boolexp.Eval.Search.{IsIn, is_first, is_later}

and_then-Answers : {a b : Option Bool} → Answers a → Answers b → Answers (and_then a b)
and_then-Answers (answer true) k = k
and_then-Answers (answer false) k = answer false

negate-Answers : {a : Option Bool} → Answers a → Answers (negate a)
negate-Answers (answer b) = answer (not b)

any_of-Answers :
    (test : Ref → Option Bool) (xs : List Ref)
    → ((c : Ref) → IsIn c xs → Answers (test c))
    → Answers (any_of test xs)
any_of-Answers test [] h = answer false
any_of-Answers test (x ∷ xs) h =
    or_else-Answers (h x (is_first xs)) (any_of-Answers test xs (λ c i. h c (is_later x xs i)))

smatch-Answers : (s p : Bytes) → Answers (smatch s p)
smatch-Answers s p = let (b, e) = smatch-total s p in rw e (answer b)

module _ (host : Host) (descr : ℤ) (player : Ref) (depth height : Ref → ℕ) (top : ℕ)
    (deeper : (r c : Ref) → IsIn c (host.contents r) → depth c < depth r)
    (higher : (r : Ref) → eqb_ℤ r nothing ≡ false → height (host.parent r) < height r)
    (low : (r : Ref) → height r ≤ top) where
  module _ (test : Ref → Option Bool) (tests : (r : Ref) → Answers (test r)) where
    environment-Answers :
        (fuel : ℕ) (r : Ref) → height r < fuel → Answers (environment host descr player test fuel r)
    unfolding environment
    environment-Answers zero r h = absurd (omega arith)
    environment-Answers (suc fuel) r h = elim (Bool-cases (eqb_ℤ r nothing)) [
      | inl e ↦ rw e (answer false)
      | inr e ↦ rw e (
          or_else-Answers (tests r)
            (environment-Answers fuel (host.parent r) (omega (arith, higher r e))))
    ]

    holds-Answers :
        (walk fuel : ℕ) (what : Ref)
        → top < walk
        → depth what < fuel
        → Answers (holds host descr player test walk fuel what)
    unfolding holds
    holds-Answers walk zero what h k = absurd (omega arith)
    holds-Answers walk (suc fuel) what h k = or_else-Answers (tests what) (
        or_else-Answers
          (any_of-Answers (holds host descr player test walk fuel) (host.contents what)
            (λ c i. holds-Answers walk fuel c h (omega (arith, deeper what c i))))
          (if-Answers host.lock_env_check
            (environment-Answers walk (host.parent what) (omega (arith, low (host.parent what))))
            (answer false)))

  content-Answers :
      (what : Ref) (blessed : Bool) (c : Content) (value : Bytes)
      → Answers (content_matches host descr player what blessed c value)
  content-Answers what blessed (string s) value = smatch-Answers _ value
  content-Answers what blessed (int n) value = answer _
  content-Answers what blessed (float bits) value = answer _
  content-Answers what blessed dir value = answer _
  content-Answers what blessed (lock s) value = answer _
  content-Answers what blessed (ref r) value = answer _

  strict-Answers :
      (what : Ref) (name value : Bytes)
      → Answers (has_property_strict host descr player what name value)
  unfolding has_property_strict
  strict-Answers what name value = from (host.prop_of what name)
    where
      from : (v : Option Value) → Answers (value_matches host descr player what v value)
      from none = answer false
      from (some v) = content-Answers what v.blessed v.content value

  eval-Answers :
      (fuel : ℕ) (e : Expr) (thing : Ref)
      → top < fuel
      → depth player < fuel
      → Answers (eval host descr player fuel e thing)
  unfolding eval eval_prop has_property
  eval-Answers fuel true_boolexp thing h k = answer true
  eval-Answers fuel (both a b) thing h k =
      and_then-Answers (eval-Answers fuel a thing h k) (eval-Answers fuel b thing h k)
  eval-Answers fuel (either a b) thing h k =
      or_else-Answers (eval-Answers fuel a thing h k) (eval-Answers fuel b thing h k)
  eval-Answers fuel (negated a) thing h k = negate-Answers (eval-Answers fuel a thing h k)
  eval-Answers fuel (const r) thing h k = answer _
  eval-Answers fuel (prop n v) thing h k =
      or_else-Answers (if-Answers (host.valid thing) (strict-Answers thing n v) (answer false)) (
        holds-Answers (λ at. has_property_strict host descr player at n v)
          (λ r. strict-Answers r n v) fuel fuel player h k)

  -- A lock is evaluated to an answer, when what an object holds is less deep than the object, what is
  -- above an object is less high than it, no height is more than `top`, and the fuel is more than
  -- `top` and than the depth of the player.
  pub eval-total :
      (fuel : ℕ) (e : Expr) (thing : Ref)
      → top < fuel
      → depth player < fuel
      → (b : Bool) × (eval host descr player fuel e thing ≡ some b)
  eval-total fuel e thing h k = Answers-inv (eval-Answers fuel e thing h k)
