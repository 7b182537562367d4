-- ===== src/Ascii.antt =====
-- internal/ascii: case folding in the C locale (ascii.go). The children hold the laws of folding
-- and order, and the MUCK pattern matcher (smatch.go).
use Prim.Native.Nat.{ℕ, ◌+◌}
use mathlib.Core.Bool.{Bool, true, false, ◌&&◌}
use mathlib.Core.List.{[], ◌∷◌, map}
use fuzzball_emerald.Prelude.{◌==◌, leb, if◌then◌else◌, Bytes, length, take}
use fuzzball_emerald.Prelude.Int.{ℤ, pos, sub_ℕ}
pub mod Fold
pub mod SMatch
pub mod Alphanum
mod Tests

unfoldable pub lower : ℕ → ℕ
lower c = if leb b'A' c && leb c b'Z' then c + 32 else c

-- `Fold` copies the string on its first capital; what it returns is this.
unfoldable pub fold : Bytes → Bytes
unfolding lower
fold s = map lower s

-- The loop of `EqualFold`, over strings of one length.
unfoldable pub equal_loop : Bytes → Bytes → Bool
unfolding lower
equal_loop [] t = true
equal_loop (a ∷ s) [] = true
equal_loop (a ∷ s) (b ∷ t) = if lower a == lower b then equal_loop s t else false

unfoldable pub equal_fold : Bytes → Bytes → Bool
unfolding equal_loop
equal_fold a b = if length a == length b then equal_loop a b else false

-- The loop runs to the shorter length; then the lengths decide.
unfoldable pub compare_fold : Bytes → Bytes → ℤ
unfolding lower
compare_fold [] [] = pos 0
compare_fold [] (b ∷ t) = sub_ℕ 0 (length (b ∷ t))
compare_fold (a ∷ s) [] = pos (length (a ∷ s))
compare_fold (a ∷ s) (b ∷ t) =
    if lower a == lower b then compare_fold s t else sub_ℕ (lower a) (lower b)

unfoldable pub has_prefix : Bytes → Bytes → Bool
unfolding equal_fold
has_prefix s prefix = leb (length prefix) (length s) && equal_fold (take (length prefix) s) prefix
