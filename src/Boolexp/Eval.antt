-- ===== src/Boolexp/Eval.antt =====
-- internal/boolexp/eval.go. The search of a player's contents and the walk of an environment go on
-- for as long as the host has more of them, so both take fuel, and `none` means that it ran out.
use Prim.Native.Nat.{ℕ, zero, suc, ◌*◌, ◌/◌, ◌%◌, ◌^◌}
use mathlib.Core.Bool.{Bool, true, false, not, ◌||◌}
use mathlib.Core.List.{List, [], ◌∷◌}
use mathlib.Core.Option.{Option, none, some}
use fuzzball_emerald.Prelude.{◌==◌, ltb, if◌then◌else◌, Bytes}
use fuzzball_emerald.Prelude.Int.{ℤ, pos, eqb_ℤ}
use fuzzball_emerald.Ref.{Ref, nothing}
use fuzzball_emerald.Ref.Flags.{type_program}
use fuzzball_emerald.Ascii.SMatch.{or_else, smatch}
use fuzzball_emerald.Props.Value.{Value, Content, string, int, float}
use fuzzball_emerald.Boolexp.{Expr, true_boolexp, both, either, negated, const, prop, Host}
pub mod Search
pub mod Tells
pub mod Meaning
pub mod Total

-- `&&`, `||` (which is `or_else`) and `!` on answers: the second operand counts only where the first
-- one does not decide.
abbrev pub and_then : Option Bool → Option Bool → Option Bool
and_then none r = none
and_then (some true) r = r
and_then (some false) r = some false

abbrev pub negate : Option Bool → Option Bool
negate none = none
negate (some b) = some (not b)

-- `int64(f) == 0`: the magnitude is below one, so the exponent field is below that of 1.0.
unfoldable pub truncates_to_zero : ℕ → Bool
truncates_to_zero bits = ltb ((bits / 2 ^ 52) % 2 ^ 11) 1023

unfoldable pub member : Ref → List Ref → Bool
member target [] = false
member target (c ∷ cs) = let rest = member target cs in if eqb_ℤ c target then true else rest

-- `any test xs` in order, ending at the first that passes.
abbrev pub any_of : (Ref → Option Bool) → List Ref → Option Bool
any_of test [] = some false
any_of test (c ∷ cs) = or_else (test c) (any_of test cs)

module _ (host : Host) (descr : ℤ) (player : Ref) where
  abbrev content_matches : Ref → Bool → Content → Bytes → Option Bool
  content_matches what blessed (string s) value =
      smatch (host.eval_lock_prop descr player what s blessed) value
  content_matches what blessed (int n) value = some (eqb_ℤ n (pos 0))
  content_matches what blessed (float bits) value = some (truncates_to_zero bits)
  content_matches what blessed _ value = some false

  abbrev value_matches : Ref → Option Value → Bytes → Option Bool
  value_matches what none value = some false
  value_matches what (some v) value = content_matches what v.blessed v.content value

  unfoldable pub has_property_strict : Ref → Bytes → Bytes → Option Bool
  unfolding smatch truncates_to_zero
  has_property_strict what name value = value_matches what (host.prop_of what name) value

  -- The loop over `host.Parent`, from `at`.
  unfoldable pub environment : (Ref → Option Bool) → ℕ → Ref → Option Bool
  environment test zero at = none
  environment test (suc fuel) at =
      let rest = environment test fuel (host.parent at) in
      if eqb_ℤ at nothing then some false else or_else (test at) rest

  -- `hasProperty`, with what it tests an object by as a parameter; `walk` is the fuel of each walk.
  unfoldable pub holds : (Ref → Option Bool) → ℕ → ℕ → Ref → Option Bool
  unfolding environment
  holds test walk zero what = none
  holds test walk (suc fuel) what = or_else (test what) (
      or_else (any_of (holds test walk fuel) (host.contents what))
        (if host.lock_env_check then environment test walk (host.parent what) else some false))

  unfoldable pub has_property : ℕ → Ref → Bytes → Bytes → Option Bool
  unfolding holds has_property_strict
  has_property fuel what name value = holds (λ at. has_property_strict at name value) fuel fuel what

  unfoldable pub eval_const : Ref → Ref → Bool
  unfolding member
  eval_const target thing =
      if eqb_ℤ target nothing
      then false
      else if host.type_of target == type_program
      then host.run_lock descr player target thing
      else if eqb_ℤ target player
          || eqb_ℤ target (host.owner player)
          || eqb_ℤ target (host.location player)
      then true
      else member target (host.contents player)

  unfoldable pub eval_prop : ℕ → Bytes → Bytes → Ref → Option Bool
  unfolding has_property has_property_strict
  eval_prop fuel name value thing =
      or_else (if host.valid thing then has_property_strict thing name value else some false)
        (has_property fuel player name value)

  -- `Eval` of a lock on `thing`.
  unfoldable pub eval : ℕ → Expr → Ref → Option Bool
  unfolding eval_const eval_prop
  eval fuel true_boolexp thing = some true
  eval fuel (both a b) thing = and_then (eval fuel a thing) (eval fuel b thing)
  eval fuel (either a b) thing = or_else (eval fuel a thing) (eval fuel b thing)
  eval fuel (negated a) thing = negate (eval fuel a thing)
  eval fuel (const target) thing = some (eval_const target thing)
  eval fuel (prop name value) thing = eval_prop fuel name value thing
