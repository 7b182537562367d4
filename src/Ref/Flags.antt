-- ===== src/Ref/Flags.antt =====
-- internal/ref/flags.go: the flag word, a number below 2^32, with the object's type in its low three
-- bits and the mucker level in bits 18 and 20. Bit `k` is `word / 2 ^ k % 2`.
use Prim.Native.Nat.{ℕ, zero, suc, ◌+◌, ◌-◌, ◌*◌, ◌/◌, ◌%◌, ◌^◌}
use mathlib.Core.Bool.{Bool, true, false, not, ◌&&◌, ◌||◌}
use mathlib.Core.List.{List, [], ◌∷◌, ◌++◌}
use fuzzball_emerald.Prelude.{◌==◌, ltb, leb, if◌then◌else◌, Bytes}
use fuzzball_emerald.Prelude.Int.{ℤ, pos, negsuc}
pub mod Mucker

abbrev pub Flags : Type 0
Flags = ℕ

-- The numbers of the object types.
abbrev pub type_room : ℕ
type_room = 0

abbrev pub type_thing : ℕ
type_thing = 1

abbrev pub type_exit : ℕ
type_exit = 2

abbrev pub type_player : ℕ
type_player = 3

abbrev pub type_program : ℕ
type_program = 4

abbrev pub type_garbage : ℕ
type_garbage = 6

-- The positions of the flags' bits.
abbrev pub wizard : ℕ
wizard = 4

abbrev pub builder : ℕ
builder = 9

abbrev pub mucker : ℕ
mucker = 18

abbrev pub quell : ℕ
quell = 19

abbrev pub smucker : ℕ
smucker = 20

abbrev pub vehicle : ℕ
vehicle = 24

abbrev pub listener : ℕ
listener = 26

-- `f & (1 << k) != 0`, `f &^ (1 << k)` and `f | (1 << k)`.
abbrev pub has_bit : Flags → ℕ → Bool
has_bit f k = f / 2 ^ k % 2 == 1

abbrev pub clear_bit : Flags → ℕ → Flags
clear_bit f k = f - f / 2 ^ k % 2 * 2 ^ k

abbrev pub set_bit : Flags → ℕ → Flags
set_bit f k = clear_bit f k + 2 ^ k

unfoldable pub type_of : Flags → ℕ
type_of f = f % 8

unfoldable pub with_type : Flags → ℕ → Flags
with_type f t = f - f % 8 + t % 8

unfoldable pub raw_m_level : Flags → ℕ
raw_m_level f = (if has_bit f mucker then 2 else 0) + (if has_bit f smucker then 1 else 0)

unfoldable pub m_level : Flags → ℕ
unfolding raw_m_level
m_level f = if has_bit f wizard && (has_bit f mucker || has_bit f smucker) then 4 else raw_m_level f

-- Go's `%` has the sign of its left side, so that no negative level is odd for it.
is_odd : ℤ → Bool
is_odd (pos n) = n % 2 == 1
is_odd (negsuc _) = false

at_least_two : ℤ → Bool
at_least_two (pos n) = leb 2 n
at_least_two (negsuc _) = false

unfoldable pub set_m_level : Flags → ℤ → Flags
unfolding is_odd at_least_two
set_m_level f level =
    let cleared = clear_bit (clear_bit f mucker) smucker in
    let high = if at_least_two level then set_bit cleared mucker else cleared in
    if is_odd level then set_bit high smucker else high

unfoldable pub is_wizard : Flags → Bool
is_wizard f = has_bit f wizard && not (has_bit f quell)

unfoldable pub is_true_wizard : Flags → Bool
is_true_wizard f = has_bit f wizard

unfoldable pub can_build : Flags → Bool
can_build f = has_bit f wizard || has_bit f builder

type_code : ℕ → Bytes
type_code t =
    if t == type_room
    then b'R' ∷ []
    else if t == type_exit
    then b'E' ∷ []
    else if t == type_player
    then b'P' ∷ []
    else if t == type_program
    then b'F' ∷ []
    else if t == type_garbage
    then b'G' ∷ []
    else []

-- Each flag's bit with its letter, in the order in which they are printed.
abbrev flag_letters : List (ℕ × ℕ)
flag_letters =
    (4, b'W')
    ∷ (5, b'L')
    ∷ (14, b'K')
    ∷ (6, b'D')
    ∷ (8, b'S')
    ∷ (19, b'Q')
    ∷ (9, b'B')
    ∷ (10, b'C')
    ∷ (11, b'J')
    ∷ (15, b'G')
    ∷ (16, b'H')
    ∷ (17, b'A')
    ∷ (24, b'V')
    ∷ (27, b'X')
    ∷ (25, b'Z')
    ∷ (30, b'Y')
    ∷ (31, b'O')
    ∷ []

letters : Flags → List (ℕ × ℕ) → Bytes
letters f [] = []
letters f ((k, letter) ∷ rest) =
    let more = letters f rest in if has_bit f k then letter ∷ more else more

level_suffix : ℕ → Bytes
level_suffix zero = []
level_suffix (suc n) = b'M' ∷ (48 + suc n) ∷ []

unfoldable pub unparse : Flags → Bytes
unfolding type_code letters type_of raw_m_level level_suffix
unparse f = type_code (type_of f) ++ letters f flag_letters ++ level_suffix (raw_m_level f)
