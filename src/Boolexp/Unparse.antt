-- ===== src/Boolexp/Unparse.antt =====
-- internal/boolexp/unparse.go. The builder's text is what the function returns.
use mathlib.Core.Bool.{Bool, true, false, ◌||◌}
use mathlib.Core.List.{[], ◌∷◌, ◌++◌}
use fuzzball_emerald.Prelude.{if◌then◌else◌, Bytes, codes}
use fuzzball_emerald.Prelude.Decimal.{itoa}
use fuzzball_emerald.Ref.{Ref}
use fuzzball_emerald.Boolexp.{
  Expr, true_boolexp, both, either, negated, const, prop, Kind, k_and, k_or, k_not, k_const, Host,
}

abbrev pub unlocked : Bytes
unlocked = codes "*UNLOCKED*"

abbrev is_not : Kind → Bool
is_not k_not = true
is_not _ = false

abbrev is_and : Kind → Bool
is_and k_and = true
is_and _ = false

abbrev parens : Bool → Bytes → Bytes
parens on s = if on then b'(' ∷ s ++ b')' ∷ [] else s

module _ (host : Host) (viewer : Ref) (fullname : Bool) where
  unfoldable pub unparse1 : Expr → Kind → Bytes
  unparse1 true_boolexp outer = unlocked
  unparse1 (both a b) outer = parens (is_not outer) (unparse1 a k_and ++ b'&' ∷ unparse1 b k_and)
  unparse1 (either a b) outer =
      parens (is_not outer || is_and outer) (unparse1 a k_or ++ b'|' ∷ unparse1 b k_or)
  unparse1 (negated a) outer = b'!' ∷ unparse1 a k_not
  unparse1 (const thing) outer = if fullname then host.name viewer thing else b'#' ∷ itoa thing
  unparse1 (prop name value) outer = name ++ b':' ∷ value

  unfoldable pub unparse : Expr → Bytes
  unfolding unparse1
  unparse b = unparse1 b k_const
