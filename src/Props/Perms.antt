-- ===== src/Props/Perms.antt =====
-- internal/props/perms.go: the predicates on property paths. A sigil is tested at the first byte of
-- each segment of the path.
pub mod Segments
use Prim.Native.Nat.{ℕ}
use mathlib.Core.Bool.{Bool, true, false, ◌||◌}
use mathlib.Core.List.{[], ◌∷◌}
use mathlib.Core.Option.{Option, none, some}
use fuzzball_emerald.Prelude.{◌==◌, if◌then◌else◌, Bytes, codes}

unfoldable pub starts_with_byte : Bytes → ℕ → Bool
starts_with_byte [] c = false
starts_with_byte (a ∷ s) c = a == c

-- The loop of `Check` over the bytes that follow a '/'.
check_loop : Bytes → ℕ → Bool
check_loop [] c = false
check_loop (a ∷ []) c = false
check_loop (a ∷ b ∷ s) c =
    let rest = check_loop (b ∷ s) c in if a == b'/' then (if b == c then true else rest) else rest

unfoldable pub check : Bytes → ℕ → Bool
unfolding starts_with_byte check_loop
check path c = if starts_with_byte path c then true else check_loop path c

unfoldable pub is_read_only : Bytes → Bool
unfolding check
is_read_only path = check path b'_' || check path b'%'

unfoldable pub is_private : Bytes → Bool
unfolding check
is_private path = check path b'.'

unfoldable pub is_hidden : Bytes → Bool
unfolding check
is_hidden path = check path b'@'

unfoldable pub is_see_only : Bytes → Bool
unfolding check
is_see_only path = check path b'~'

trim_slashes : Bytes → Bytes
trim_slashes [] = []
trim_slashes (a ∷ s) = if a == b'/' then trim_slashes s else a ∷ s

-- What follows a prefix, where the string has it.
after_prefix : Bytes → Bytes → Option Bytes
after_prefix s [] = some s
after_prefix [] (b ∷ prefix) = none
after_prefix (a ∷ s) (b ∷ prefix) = if a == b then after_prefix s prefix else none

ends_segment : Option Bytes → Bool
ends_segment none = false
ends_segment (some []) = true
ends_segment (some (a ∷ _)) = a == b'/'

unfoldable pub has_prop_prefix : Bytes → Bytes → Bool
unfolding trim_slashes after_prefix ends_segment
has_prop_prefix path prefix = ends_segment (after_prefix (trim_slashes path) (trim_slashes prefix))

abbrev pub system_prop_prefix : Bytes
system_prop_prefix = codes "@__sys__"

unfoldable pub is_system : Bytes → Bool
unfolding has_prop_prefix
is_system path = has_prop_prefix path system_prop_prefix
