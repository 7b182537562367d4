-- ===== src/Prelude/Decimal.antt =====
-- Go's strconv on decimal integers: FormatInt and Itoa as `itoa`, ParseInt and Atoi as `parse_int` at
-- a number of bits. Errors of syntax and of range are one `none`.
use Prim.Native.Nat.{ℕ, zero, suc, ◌+◌, ◌-◌, ◌*◌, ◌/◌, ◌%◌, ◌^◌, ◌≤◌, ◌<◌}
use mathlib.Core.Path.{◌≡◌, refl, ◌∙◌}
use mathlib.Core.Bool.{Bool, true, false, ◌&&◌}
use mathlib.Core.List.{[], ◌∷◌}
use mathlib.Core.Option.{Option, none, some}
use native.Mathlib.Omega.{arith}
use fuzzball_emerald.Prelude.Tests.{ltb, leb, ◌==◌, if◌then◌else◌, Bool-cases, lt→ltb}
use mathlib.Core.Logic.{inl, inr}
use native.Mathlib.Nat.{zero-add, zero-mul}
use fuzzball_emerald.Prelude.Lists.{All, length}
use fuzzball_emerald.Prelude.Text.{Bytes}
use fuzzball_emerald.Prelude.Int.{ℤ, pos, negsuc}

print_loop : ℕ → ℕ → Bytes → Bytes
print_loop zero n acc = acc
print_loop (suc fuel) n acc =
    let more = print_loop fuel (n / 10) ((48 + n % 10) ∷ acc) in
    if ltb n 10 then (48 + n) ∷ acc else more

unfoldable pub print_nat : ℕ → Bytes
unfolding print_loop
print_nat n = print_loop (suc n) n []

unfoldable pub itoa : ℤ → Bytes
unfolding print_nat
itoa (pos n) = print_nat n
itoa (negsuc n) = b'-' ∷ print_nat (suc n)

abbrev pub is_digit : ℕ → Bool
is_digit c = leb b'0' c && leb c b'9'

unfoldable pub digits_value : ℕ → Bytes → Option ℕ
digits_value acc [] = some acc
digits_value acc (c ∷ s) =
    let rest = digits_value (acc * 10 + (c - 48)) s in if is_digit c then rest else none

unfoldable pub parse_uint : Bytes → Option ℕ
unfolding digits_value
parse_uint [] = none
parse_uint (c ∷ s) = digits_value 0 (c ∷ s)

-- A magnitude with its sign, if it fits the width whose positive values stop below `bound`.
abbrev pub signed : Bool → ℕ → Option ℕ → Option ℤ
signed neg bound none = none
signed false bound (some n) = if ltb n bound then some (pos n) else none
signed true bound (some zero) = some (pos 0)
signed true bound (some (suc n)) = if ltb n bound then some (negsuc n) else none

unfoldable pub parse_int : ℕ → Bytes → Option ℤ
unfolding parse_uint
parse_int bits [] = none
parse_int bits (c ∷ s) =
    let bound = 2 ^ (bits - 1) in
    if c == b'-'
    then signed true bound (parse_uint s)
    else if c == b'+'
    then signed false bound (parse_uint s)
    else signed false bound (parse_uint (c ∷ s))

-- What fits a signed width of which `bound` is the first positive value outside.
abbrev pub Fits : ℕ → ℤ → Type 0
Fits bound (pos n) = n < bound
Fits bound (negsuc n) = n < bound

last_digit :
    (n : ℕ) (acc : Bytes) → ltb n 10 ≡ true → digits_value 0 ((48 + n) ∷ acc) ≡ digits_value n acc
last_digit n acc h =
    let e : 48 + n - 48 ≡ n = omega arith in
    let digit : is_digit (48 + n) ≡ true = ground arith in
    unfold digits_value in rw (digit, e) (rw zero-mul (rw zero-add refl))

next_digit :
    (n : ℕ) (acc : Bytes) → digits_value (n / 10) ((48 + n % 10) ∷ acc) ≡ digits_value n acc
next_digit n acc =
    let e : n / 10 * 10 + (48 + n % 10 - 48) ≡ n = omega arith in
    let digit : is_digit (48 + n % 10) ≡ true = ground arith in unfold digits_value in rw (digit, e)

digits_value-print_loop :
    (fuel n : ℕ) (acc : Bytes)
    → n < fuel
    → digits_value 0 (print_loop fuel n acc) ≡ digits_value n acc
unfolding print_loop
digits_value-print_loop zero n acc h = absurd (omega arith)
digits_value-print_loop (suc fuel) n acc h = elim (Bool-cases (ltb n 10)) [
  | inl small ↦ rw small (last_digit n acc small)
  | inr large ↦ rw large (
      digits_value-print_loop fuel (n / 10) ((48 + n % 10) ∷ acc) (ground arith) ∙ next_digit n acc)
]

abbrev pub IsDigits : Bytes → Type 0
IsDigits = All (λ c. is_digit c ≡ true)

print_loop-IsDigits : (fuel n : ℕ) (acc : Bytes) → IsDigits acc → IsDigits (print_loop fuel n acc)
unfolding print_loop
print_loop-IsDigits zero n acc h = h
print_loop-IsDigits (suc fuel) n acc h = elim (Bool-cases (ltb n 10)) [
  | inl small ↦ rw small (ground arith, h)
  | inr large ↦ rw large (print_loop-IsDigits fuel (n / 10) ((48 + n % 10) ∷ acc) (ground arith, h))
]

-- What is printed is digits.
pub print_nat-IsDigits : (n : ℕ) → IsDigits (print_nat n)
unfolding print_nat
print_nat-IsDigits n = print_loop-IsDigits (suc n) n [] tt

length-print_loop : (fuel n : ℕ) (acc : Bytes) → length acc ≤ length (print_loop fuel n acc)
unfolding print_loop
length-print_loop zero n acc = omega arith
length-print_loop (suc fuel) n acc =
    ground (arith, length-print_loop fuel (n / 10) ((48 + n % 10) ∷ acc))

pub length-print_nat : (n : ℕ) → 0 < length (print_nat n)
unfolding print_nat print_loop
length-print_nat n = ground (arith, length-print_loop n (n / 10) ((48 + n % 10) ∷ []))

parse_uint-value : (s : Bytes) → 0 < length s → parse_uint s ≡ digits_value 0 s
unfolding parse_uint
parse_uint-value [] h = absurd (omega arith)
parse_uint-value (c ∷ s) h = refl

pub parse_uint-print_nat : (n : ℕ) → parse_uint (print_nat n) ≡ some n
parse_uint-print_nat n =
    parse_uint-value (print_nat n) (length-print_nat n)
    ∙ (unfold print_nat digits_value in digits_value-print_loop (suc n) n [] (omega arith))

unsigned :
    (bits : ℕ) (s : Bytes)
    → IsDigits s
    → parse_int bits s ≡ signed false (2 ^ (bits - 1)) (parse_uint s)
unfolding parse_int
unsigned bits [] h = unfold parse_uint in refl
unsigned bits (c ∷ s) h =
    let minus : (c == b'-') ≡ false = ground arith in
    let plus : (c == b'+') ≡ false = ground arith in rw (minus, plus)

-- An integer that fits the width is read back from what is printed of it.
pub parse_int-itoa : (bits : ℕ) (z : ℤ) → Fits (2 ^ (bits - 1)) z → parse_int bits (itoa z) ≡ some z
unfolding itoa
parse_int-itoa bits (pos n) h =
    unsigned bits (print_nat n) (print_nat-IsDigits n)
    ∙ rw (parse_uint-print_nat n, lt→ltb n (2 ^ (bits - 1)) h)
parse_int-itoa bits (negsuc n) h =
    unfold parse_int in rw (parse_uint-print_nat (suc n), lt→ltb n (2 ^ (bits - 1)) h)

signed-Fits :
    (neg : Bool) (bound : ℕ) (m : Option ℕ) (z : ℤ)
    → signed neg bound m ≡ some z
    → 0 < bound
    → Fits bound z
signed-Fits neg bound none z h k = cc
signed-Fits false bound (some n) (pos x) h k = ground arith
signed-Fits false bound (some n) (negsuc x) h k = ground arith
signed-Fits true bound (some zero) (pos x) h k = ground arith
signed-Fits true bound (some zero) (negsuc x) h k = ground arith
signed-Fits true bound (some (suc n)) (pos x) h k = ground arith
signed-Fits true bound (some (suc n)) (negsuc x) h k = ground arith

-- What is read is in the range of the width.
pub parse_int-Fits :
    (bits : ℕ) (s : Bytes) (z : ℤ)
    → parse_int bits s ≡ some z
    → 0 < 2 ^ (bits - 1)
    → Fits (2 ^ (bits - 1)) z
unfolding parse_int
parse_int-Fits bits [] z h k = cc
parse_int-Fits bits (c ∷ s) z h k = elim (Bool-cases (c == b'-')) [
  | inl minus ↦ signed-Fits true _ (parse_uint s) z (rw minus at h) k
  | inr other ↦ elim (Bool-cases (c == b'+')) [
    | inl plus ↦ signed-Fits false _ (parse_uint s) z (rw (other, plus) at h) k
    | inr bare ↦ signed-Fits false _ (parse_uint (c ∷ s)) z (rw (other, bare) at h) k
  ]
]
