-- ===== src/Ascii/SMatch/Class.antt =====
-- smatch.go: the scan for an unescaped byte (estrchr) and the test of one byte against a class
-- (cmatch).
use Prim.Native.Nat.{ℕ, zero, suc, ◌+◌, ◌%◌}
use mathlib.Core.Bool.{Bool, true, false, not, ◌&&◌}
use mathlib.Core.List.{[], ◌∷◌}
use mathlib.Core.Option.{Option, none, some}
use fuzzball_emerald.Prelude.{◌==◌, leb, ltb, if◌then◌else◌, Bytes}
use fuzzball_emerald.Ascii.{lower}

abbrev pub backslash : ℕ
backslash = 92

abbrev pub put_before : ℕ → Option (Bytes × Bytes) → Option (Bytes × Bytes)
put_before x none = none
put_before x (some (body, after)) = some (x ∷ body, after)

-- `estrchr`, with a backslash as the escape: what stands before the first unescaped `c`, and what
-- follows it.
unfoldable pub estrchr : Bytes → ℕ → Option (Bytes × Bytes)
estrchr [] c = none
estrchr (x ∷ []) c = if x == c then some ([], []) else none
estrchr (x ∷ y ∷ s) c =
    let skipped = put_before x (put_before y (estrchr s c)) in
    let stepped = put_before x (estrchr (y ∷ s) c) in
    if x == c then some ([], y ∷ s) else if x == backslash then skipped else stepped

-- `for b := from; b <= to; b++`, where `b` is a byte and wraps. 512 rounds go past every byte twice.
unfoldable pub range_hit : ℕ → ℕ → ℕ → ℕ → Bool
unfolding lower
range_hit zero b to c = false
range_hit (suc rounds) b to c =
    let rest = range_hit rounds ((b + 1) % 256) to c in
    if leb b to then (if lower b == c then true else rest) else false

-- The loop of `cmatch`. `prev` is the byte before the cursor, or NUL; `escaped` tells that a
-- backslash has just been stepped over.
unfoldable pub class_loop : ℕ → Bool → ℕ → Bool → Bytes → Bool
unfolding lower
class_loop c hit prev escaped [] = not hit
class_loop c hit prev escaped (x ∷ []) =
    if not (x == b'-')
    then (if lower x == c then hit else not hit)
    else if ltb 0 prev
    then (if lower x == c then hit else not hit)
    else (if range_hit 512 prev 0 c then hit else not hit)
class_loop c hit prev escaped (x ∷ y ∷ s) =
    let unescaped = class_loop c hit x true (y ∷ s) in
    let onward = class_loop c hit x false (y ∷ s) in
    let past_range = class_loop c hit y false s in
    if x == backslash && not escaped
    then unescaped
    else if not (x == b'-')
    then (if lower x == c then hit else onward)
    else if ltb y prev
    then (if lower x == c then hit else onward)
    else (if range_hit 512 prev y c then hit else past_range)

abbrev leading_dash : ℕ → Bool → Bytes → Bool
leading_dash c hit [] = not hit
leading_dash c hit (x ∷ body) =
    if x == b'-'
    then (if lower x == c then hit else class_loop c hit x false body)
    else class_loop c hit 0 false (x ∷ body)

unfoldable pub cmatch : Bytes → ℕ → Bool
unfolding class_loop lower
cmatch [] c = leading_dash (lower c) true []
cmatch (x ∷ body) c =
    if x == b'^' then leading_dash (lower c) false body else leading_dash (lower c) true (x ∷ body)
