-- ===== src/Props/Value.antt =====
-- internal/props/props.go: what a property carries. The field that Go selects by `Type` is the
-- argument of the constructor here. A float64 is its 64 bits, read as a number.
use Prim.Native.Nat.{ℕ, ◌^◌}
use mathlib.Core.Bool.{Bool, true, false, ◌||◌}
use mathlib.Core.List.{[], ◌∷◌}
use fuzzball_emerald.Prelude.{◌==◌, Bytes}
use fuzzball_emerald.Prelude.Int.{ℤ, pos, eqb_ℤ}
use fuzzball_emerald.Ref.{Ref, nothing}

pub data Content : Type 0 where
  dir : Content
  string : Bytes → Content
  int : ℤ → Content
  lock : Bytes → Content
  ref : Ref → Content
  float : ℕ → Content

pub record Value : Type 0 where
  pub content : Content
  pub blessed : Bool

empty_text : Bytes → Bool
empty_text [] = true
empty_text (_ ∷ _) = false

-- Both zeros of a float64 compare equal to 0.
is_zero_float : ℕ → Bool
is_zero_float bits = bits == 0 || bits == 2 ^ 63

unfoldable pub is_empty : Content → Bool
unfolding empty_text is_zero_float
is_empty dir = true
is_empty (string s) = empty_text s
is_empty (int n) = eqb_ℤ n (pos 0)
is_empty (lock s) = empty_text s
is_empty (ref r) = eqb_ℤ r nothing
is_empty (float bits) = is_zero_float bits
