-- ===== src/Boolexp/Runes.antt =====
-- What internal/boolexp/parse.go uses of strings.TrimLeftFunc, TrimRightFunc and IndexFunc: they go over
-- the runes of a text, its UTF-8 sequences, where a byte that begins or ends none counts as U+FFFD. The
-- test is `isSpace(byte(r))`, of a rune's lowest byte.
use Prim.Native.Nat.{ℕ, zero, suc, ◌+◌, ◌*◌, ◌%◌, ◌-◌}
use mathlib.Core.Bool.{Bool, true, false, ◌&&◌}
use mathlib.Core.List.{[], ◌∷◌, ◌++◌}
use mathlib.Core.Option.{Option, none, some}
use fuzzball_emerald.Prelude.{◌==◌, leb, ltb, if◌then◌else◌, Bytes}
use fuzzball_emerald.Prelude.Space.{is_space}
pub mod Ascii

-- A rune and how many bytes it has.
abbrev pub Rune : Type 0
Rune = ℕ × ℕ

abbrev pub is_continuation : ℕ → Bool
is_continuation c = leb 128 c && leb c 191

-- What the second byte may be, by the first one.
abbrev pub is_second : ℕ → ℕ → Bool
is_second a b =
    leb (if a == 224 then 160 else if a == 240 then 144 else 128) b
    && leb b (if a == 237 then 159 else if a == 244 then 143 else 191)

abbrev pub decode2 : ℕ → ℕ → Option Rune
decode2 a b =
    if leb 194 a && leb a 223 && is_continuation b then some (a % 32 * 64 + b % 64, 2) else none

abbrev pub decode3 : ℕ → ℕ → ℕ → Option Rune
decode3 a b c =
    if leb 224 a && leb a 239 && is_second a b && is_continuation c
    then some ((a % 16 * 64 + b % 64) * 64 + c % 64, 3)
    else none

abbrev pub decode4 : ℕ → ℕ → ℕ → ℕ → Option Rune
decode4 a b c d =
    if leb 240 a && leb a 244 && is_second a b && is_continuation c && is_continuation d
    then some (((a % 8 * 64 + b % 64) * 64 + c % 64) * 64 + d % 64, 4)
    else none

abbrev pub or_rune : Option Rune → Option Rune → Option Rune
or_rune none r = r
or_rune (some r) s = some r

-- `RuneError`, of one byte.
abbrev pub or_error : Option Rune → Rune
or_error none = (65533, 1)
or_error (some r) = r

-- The sequences that begin with these bytes.
abbrev pub front4 : ℕ → ℕ → ℕ → Bytes → Option Rune
front4 a b c [] = none
front4 a b c (d ∷ s) = decode4 a b c d

abbrev pub front3 : ℕ → ℕ → Bytes → Option Rune
front3 a b [] = none
front3 a b (c ∷ s) = or_rune (decode3 a b c) (front4 a b c s)

abbrev pub front2 : ℕ → Bytes → Option Rune
front2 a [] = none
front2 a (b ∷ s) = or_rune (decode2 a b) (front3 a b s)

-- The first rune of a text that begins with this byte.
unfoldable pub first_rune : ℕ → Bytes → Rune
first_rune a s = if ltb a 128 then (a, 1) else or_error (front2 a s)

-- The same from the end: the text is turned round, its last byte is `d`.
abbrev pub back4 : ℕ → ℕ → ℕ → Bytes → Option Rune
back4 d c b [] = none
back4 d c b (a ∷ s) = decode4 a b c d

abbrev pub back3 : ℕ → ℕ → Bytes → Option Rune
back3 d c [] = none
back3 d c (b ∷ s) = or_rune (decode3 b c d) (back4 d c b s)

abbrev pub back2 : ℕ → Bytes → Option Rune
back2 d [] = none
back2 d (c ∷ s) = or_rune (decode2 c d) (back3 d c s)

unfoldable pub last_rune : ℕ → Bytes → Rune
last_rune d s = if ltb d 128 then (d, 1) else or_error (back2 d s)

abbrev pub is_space_rune : Rune → Bool
is_space_rune r = is_space (r.0 % 256)

abbrev pub width_left : Rune → ℕ
width_left r = r.1 - 1

-- `skip` is how many bytes of a rune that goes are still to go.
unfoldable pub drop_front : ℕ → Bytes → Bytes
unfolding first_rune
drop_front skip [] = []
drop_front (suc skip) (c ∷ s) = drop_front skip s
drop_front zero (c ∷ s) =
    let r = first_rune c s in
    let rest = drop_front (width_left r) s in if is_space_rune r then rest else c ∷ s

unfoldable pub drop_back : ℕ → Bytes → Bytes
unfolding last_rune
drop_back skip [] = []
drop_back (suc skip) (c ∷ s) = drop_back skip s
drop_back zero (c ∷ s) =
    let r = last_rune c s in
    let rest = drop_back (width_left r) s in if is_space_rune r then rest else c ∷ s

unfoldable pub reverse : Bytes → Bytes
reverse [] = []
reverse (c ∷ s) = reverse s ++ c ∷ []

unfoldable pub trim_left_runes : Bytes → Bytes
unfolding drop_front
trim_left_runes s = drop_front 0 s

unfoldable pub trim_right_runes : Bytes → Bytes
unfolding drop_back reverse
trim_right_runes s = reverse (drop_back 0 (reverse s))

-- `keep` is how many bytes of a rune that stays are still to come.
unfoldable pub take_front : ℕ → Bytes → Bytes
unfolding first_rune
take_front keep [] = []
take_front (suc keep) (c ∷ s) = c ∷ take_front keep s
take_front zero (c ∷ s) =
    let r = first_rune c s in
    let rest = c ∷ take_front (width_left r) s in if is_space_rune r then [] else rest

-- What stands before the first rune that is a space.
unfoldable pub until_space : Bytes → Bytes
unfolding take_front
until_space s = take_front 0 s
