-- ===== src/Ref.antt =====
-- internal/ref: database references (ref.go) and the flag word (flags.go, below in Flags). A Ref is
-- an int32, read here as the integer that it stands for. Text is ASCII.
pub mod Flags
pub mod Laws
mod Tests
use Prim.Native.Nat.{ℕ, ◌-◌, ◌%◌, ◌^◌}
use mathlib.Core.Bool.{Bool, true, false}
use mathlib.Core.List.{[], ◌∷◌}
use mathlib.Core.Option.{Option}
use fuzzball_emerald.Prelude.{◌==◌, ltb, if◌then◌else◌, Bytes}
use fuzzball_emerald.Prelude.Int.{ℤ, pos, negsuc}
use fuzzball_emerald.Prelude.Decimal.{itoa, parse_int}
use fuzzball_emerald.Prelude.Space.{trim_left, trim_right}

abbrev pub Ref : Type 0
Ref = ℤ

abbrev pub nothing : Ref
nothing = negsuc 0

abbrev pub ambiguous : Ref
ambiguous = negsuc 1

abbrev pub home : Ref
home = negsuc 2

abbrev pub nil : Ref
nil = negsuc 3

abbrev pub global_environment : Ref
global_environment = pos 0

abbrev pub god : Ref
god = pos 1

unfoldable pub is_ok : Ref → Bool
is_ok (pos _) = true
is_ok (negsuc _) = false

-- Go's conversion of a wider integer to int32.
unfoldable pub to_int32 : ℤ → Ref
to_int32 (pos n) = let m = n % 2 ^ 32 in if ltb m (2 ^ 31) then pos m else negsuc (2 ^ 32 - 1 - m)
to_int32 (negsuc n) =
    let m = n % 2 ^ 32 in if ltb m (2 ^ 31) then negsuc m else pos (2 ^ 32 - 1 - m)

-- The four special references are spelled out in the code as the numbers that they are.
unfoldable pub string : Ref → Bytes
string r = b'#' ∷ itoa r

trim_hash : Bytes → Bytes
trim_hash [] = []
trim_hash (c ∷ s) = if c == b'#' then s else c ∷ s

unfoldable pub parse : Bytes → Option Ref
unfolding trim_hash
parse s = parse_int 32 (trim_hash (trim_left (trim_right s)))
