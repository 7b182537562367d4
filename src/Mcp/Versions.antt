-- ===== src/Mcp/Versions.antt =====
-- The versions of mcp.go: reading one, and choosing one that both sides have.
use Prim.Native.Nat.{ℕ, ◌^◌, ◌<◌}
use mathlib.Core.Path.{◌≡◌, refl, ap, ◌∙◌}
use mathlib.Core.Bool.{Bool, true, false, ◌||◌}
use mathlib.Core.List.{[], ◌∷◌, ◌++◌, append_assoc}
use mathlib.Core.Option.{Option, none, some}
use fuzzball_emerald.Prelude.{
  ◌==◌, ltb, if◌then◌else◌, Bytes, length, arith, Bool-cases, ◌⊎◌, inl, inr,
}
use fuzzball_emerald.Prelude.Int.{ℤ, pos, negsuc}
use fuzzball_emerald.Prelude.Decimal.{
  parse_int, print_nat, itoa, is_digit, parse_int-itoa, print_nat-IsDigits, length-print_nat,
}
use fuzzball_emerald.Mcp.{Version}
use fuzzball_emerald.Mcp.Lex.{◌>>=◌, after, span, span-append, Ends}

abbrev pub null_version : Version
null_version = record { major = 0; minor = 0 }

unfoldable pub less : Version → Version → Bool
less v w = if v.major == w.major then ltb v.minor w.minor else ltb v.major w.major

unfoldable pub select_version : Version → Version → Version → Version → Version
unfolding less
select_version min_a max_a min_b max_b =
    if less max_a min_b || less max_b min_a
    then null_version
    else if less max_a max_b
    then max_a
    else max_b

unfoldable pub print_version : Version → Bytes
print_version v = print_nat v.major ++ b'.' ∷ print_nat v.minor

abbrev pub with_rest : Bytes → Option ℤ → Option (ℕ × Bytes)
with_rest rest (some (pos n)) = some (n, rest)
with_rest rest (some (negsuc n)) = none
with_rest rest none = none

abbrev pub digits_read : Bytes × Bytes → Option (ℕ × Bytes)
digits_read ([], rest) = none
digits_read (c ∷ s, rest) = with_rest rest (parse_int 64 (c ∷ s))

unfoldable pub leading_digits : Bytes → Option (ℕ × Bytes)
unfolding span
leading_digits s = digits_read (span is_digit s)

unfoldable pub parse_version : Bytes → Option Version
parse_version s = do
  major ← leading_digits s
  minor ← after b'.' major.1 >>= leading_digits
  some (record { major = major.0; minor = minor.0 })

-- The version lies between the two.
abbrev pub InRange : Version → Version → Version → Type 0
InRange v low high = (less v low ≡ false) × (less high v ≡ false)

-- A version that both sides have, and the highest such.
abbrev pub IsHighest : Version → (Version → Type 0) → Type 0
IsHighest v P = P v × ((w : Version) → P w → less v w ≡ false)

abbrev pub Both : Version → Version → Version → Version → Version → Type 0
Both min_a max_a min_b max_b v = InRange v min_a max_a × InRange v min_b max_b

apart :
    (min_a max_a min_b max_b v : Version)
    → (less max_a min_b || less max_b min_a) ≡ true
    → Both min_a max_a min_b max_b v
    → ⊥
unfolding less
apart a b c d v h k = ground arith

together :
    (min_a max_a min_b max_b : Version)
    → less max_a min_a ≡ false
    → less max_b min_b ≡ false
    → (less max_a min_b || less max_b min_a) ≡ false
    → IsHighest (if less max_a max_b then max_a else max_b) (Both min_a max_a min_b max_b)
unfolding less
together a b c d h k e = elim (Bool-cases (less b d)) [
  | inl t ↦ rw t (ground arith, λ w q. ground arith)
  | inr t ↦ rw t (ground arith, λ w q. ground arith)
]

-- Of two ranges of versions, the one chosen is the highest that lies in both of them; where none
-- does, it is the null version.
pub select_version-IsHighest :
    (min_a max_a min_b max_b : Version)
    → less max_a min_a ≡ false
    → less max_b min_b ≡ false
    → IsHighest (select_version min_a max_a min_b max_b) (Both min_a max_a min_b max_b)
      ⊎ ((select_version min_a max_a min_b max_b ≡ null_version)
          × ((v : Version) → Both min_a max_a min_b max_b v → ⊥))
unfolding select_version less
select_version-IsHighest a b c d h k = elim (Bool-cases (less b c || less d a)) [
  | inl e ↦ inr (rw e refl, λ v. apart a b c d v e)
  | inr e ↦ inl (rw e (together a b c d h k e))
]

digits_read_lem :
    (s rest : Bytes) (n : ℕ)
    → 0 < length s
    → parse_int 64 s ≡ some (pos n)
    → digits_read (s, rest) ≡ some (n, rest)
digits_read_lem [] rest n h e = absurd (omega arith)
digits_read_lem (c ∷ s) rest n h e = rw e refl

leading_digits-print_nat :
    (n : ℕ) (rest : Bytes)
    → n < 2 ^ 63
    → Ends is_digit rest
    → leading_digits (print_nat n ++ rest) ≡ some (n, rest)
unfolding leading_digits print_nat itoa
leading_digits-print_nat n rest h e =
    rw (span-append is_digit (print_nat n) rest (print_nat-IsDigits n) e)
      (digits_read_lem (print_nat n) rest n (length-print_nat n) (parse_int-itoa 64 (pos n) h))

-- A version whose parts fit the machine's integers is read back from what is printed of it,
-- whatever stands behind that, if it is not a digit.
pub parse_version-print_version :
    (v : Version) (rest : Bytes)
    → v.major < 2 ^ 63
    → v.minor < 2 ^ 63
    → Ends is_digit rest
    → parse_version (print_version v ++ rest) ≡ some v
unfolding parse_version print_version
parse_version-print_version v rest h k e =
    ap parse_version (append_assoc (print_nat v.major) (b'.' ∷ print_nat v.minor) rest)
    ∙ rw
        (
          leading_digits-print_nat v.major (b'.' ∷ print_nat v.minor ++ rest) h refl,
          leading_digits-print_nat v.minor rest k e,
        )
        refl
