-- ===== src/Ascii/Alphanum.antt =====
-- internal/ascii/alphanum.go. Both positions move together until the numbers are read: they are a
-- list of the pairs of bytes that stand before them, the last first, and what is left of each text.
-- The value of a number of more than eight digits is not looked at, so that it need not wrap.
use Prim.Native.Nat.{ℕ, suc, ◌+◌, ◌-◌, ◌*◌}
use mathlib.Core.Bool.{Bool, true, false, not, ◌&&◌, ◌||◌}
use mathlib.Core.List.{List, [], ◌∷◌}
use fuzzball_emerald.Prelude.{◌==◌, leb, ltb, if◌then◌else◌, Bytes}
use fuzzball_emerald.Prelude.Int.{ℤ, sub_ℕ}
use fuzzball_emerald.Ascii.{lower}
pub mod Opposite

abbrev pub Pairs : Type 0
Pairs = List (ℕ × ℕ)

-- The byte at the position, and 0 at the end.
abbrev pub byte_at : Bytes → ℕ
byte_at [] = 0
byte_at (c ∷ s) = c

abbrev pub is_digit : ℕ → Bool
is_digit c = leb b'0' c && leb c b'9'

-- Over the zeros before the position, in the first text.
unfoldable pub back_over : Pairs → Bytes → Bytes → Bytes × Bytes
back_over [] a b = (a, b)
back_over ((x, y) ∷ back) a b =
    let more = back_over back (x ∷ a) (y ∷ b) in if byte_at a == b'0' then more else (a, b)

abbrev pub tail : Bytes → Bytes
tail [] = []
tail (c ∷ s) = s

abbrev pub forward : Bytes × Bytes → Bytes × Bytes
forward (a, b) = if is_digit (byte_at a) then (a, b) else (tail a, tail b)

-- The first step back, where the second text has a zero.
abbrev pub back_first : Pairs → Bytes → Bytes → Bytes × Bytes
back_first [] a b = (a, b)
back_first ((x, y) ∷ back) a b =
    if byte_at b == b'0' then back_over back (x ∷ a) (y ∷ b) else back_over ((x, y) ∷ back) a b

-- How many digits there are, and the number that they spell.
unfoldable pub digits : ℕ → ℕ → Bytes → ℕ × ℕ
digits count value [] = (count, value)
digits count value (c ∷ s) =
    let more = digits (suc count) (value * 10 + (c - b'0')) s in
    if is_digit c then more else (count, value)

abbrev pub by_numbers : ℕ × ℕ → ℕ × ℕ → ℤ → ℤ
by_numbers (count1, n1) (count2, n2) chars =
    if ltb 8 count1 || ltb 8 count2
    then (if count1 == count2 then chars else sub_ℕ count1 count2)
    else if not (n1 == 0) && not (n2 == 0) && not (n1 == n2)
    then sub_ℕ n1 n2
    else chars

abbrev pub numbers_at : Bytes × Bytes → ℤ → ℤ
numbers_at (a, b) chars = by_numbers (digits 0 0 a) (digits 0 0 b) chars

-- Where the texts no longer agree.
unfoldable pub compare_from : Pairs → Bytes → Bytes → ℤ
unfolding back_over digits lower
compare_from back a b =
    if not (is_digit (byte_at a) && is_digit (byte_at b))
    then sub_ℕ (lower (byte_at a)) (lower (byte_at b))
    else numbers_at (forward (back_first back a b)) (sub_ℕ (byte_at a) (byte_at b))

unfoldable pub walk : Pairs → Bytes → Bytes → ℤ
unfolding lower
walk back [] b = compare_from back [] b
walk back (x ∷ a) [] = compare_from back (x ∷ a) []
walk back (x ∷ a) (y ∷ b) =
    let more = walk ((x, y) ∷ back) a b in
    if lower x == lower y then more else compare_from back (x ∷ a) (y ∷ b)

unfoldable pub alphanum_compare : Bytes → Bytes → ℤ
unfolding walk
alphanum_compare a b = walk [] a b
