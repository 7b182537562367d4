-- ===== src/Prelude/Space.antt =====
-- White space in the C locale (`isSpace` of internal/boolexp/parse.go), which is also what Go's
-- strings.TrimSpace trims of ASCII text, and the trimming of it.
use Prim.Native.Nat.{ℕ, suc, ◌≤◌}
use mathlib.Core.Path.{◌≡◌, refl}
use mathlib.Core.Bool.{Bool, false, ◌||◌}
use mathlib.Core.List.{[], ◌∷◌}
use native.Mathlib.Omega.{arith}
use fuzzball_emerald.Prelude.Tests.{◌==◌, if◌then◌else◌}
use fuzzball_emerald.Prelude.Lists.{All, length}
use fuzzball_emerald.Prelude.Text.{Bytes}

unfoldable pub is_space : ℕ → Bool
is_space b = b == 32 || b == 9 || b == 10 || b == 11 || b == 12 || b == 13

unfoldable pub trim_left : Bytes → Bytes
trim_left [] = []
trim_left (c ∷ s) = if is_space c then trim_left s else c ∷ s

-- A byte in front of what is left behind it: a space goes where nothing is left.
abbrev pub keep : ℕ → Bytes → Bytes
keep c [] = if is_space c then [] else c ∷ []
keep c (x ∷ r) = c ∷ x ∷ r

unfoldable pub trim_right : Bytes → Bytes
trim_right [] = []
trim_right (c ∷ s) = keep c (trim_right s)

abbrev pub NoSpace : Bytes → Type 0
NoSpace = All (λ c. is_space c ≡ false)

pub trim_left-NoSpace : (s : Bytes) → NoSpace s → trim_left s ≡ s
unfolding trim_left
trim_left-NoSpace [] h = refl
trim_left-NoSpace (c ∷ s) h = rw (h.0)

keep-visible : (c : ℕ) (s : Bytes) → is_space c ≡ false → keep c s ≡ c ∷ s
keep-visible c [] h = rw h
keep-visible c (x ∷ s) h = refl

pub trim_right-NoSpace : (s : Bytes) → NoSpace s → trim_right s ≡ s
unfolding trim_right
trim_right-NoSpace [] h = refl
trim_right-NoSpace (c ∷ s) h = rw (trim_right-NoSpace s h.1) (keep-visible c s h.0)

length-keep : (c : ℕ) (s : Bytes) → length (keep c s) ≤ suc (length s)
length-keep c [] = ground arith
length-keep c (x ∷ s) = omega arith

pub length-trim_left : (s : Bytes) → length (trim_left s) ≤ length s
unfolding trim_left
length-trim_left [] = omega arith
length-trim_left (c ∷ s) = ground (arith, length-trim_left s)

pub length-trim_right : (s : Bytes) → length (trim_right s) ≤ length s
unfolding trim_right
length-trim_right [] = omega arith
length-trim_right (c ∷ s) = omega (arith, length-keep c (trim_right s), length-trim_right s)
