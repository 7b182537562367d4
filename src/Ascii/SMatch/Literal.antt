-- ===== src/Ascii/SMatch/Literal.antt =====
-- What the matcher does with patterns that hold no class and no set: smatch.go's plain bytes, the
-- escape and a trailing star, against the comparisons of ascii.go.
use fuzzball_emerald.Prelude.{
  ℕ, zero, suc, ◌+◌, ◌≤◌, ◌<◌, ◌≡◌, refl, Bool, true, false, not, ◌&&◌, [], ◌∷◌, ◌++◌, Option, none,
  some, arith, ◌==◌, if◌then◌else◌, Bytes, length, take, All, length-append,
}
use fuzzball_emerald.Ascii.{lower, equal_loop, equal_fold, has_prefix}
use fuzzball_emerald.Ascii.SMatch.Class.{backslash}
use fuzzball_emerald.Ascii.SMatch.{
  Cursor, Again, literal, escape, star_run, after_star, smatch_step, smatch_at, smatch,
}

-- The bytes that a pattern matches as themselves.
abbrev pub is_plain : ℕ → Bool
is_plain x =
    not (x == backslash) && not (x == b'?') && not (x == b'*') && not (x == b'[') && not (x == b'{')

abbrev pub IsPlain : Bytes → Type 0
IsPlain = All (λ x. is_plain x ≡ true)

plain_step :
    (again : Again) (alts : Bytes → Bytes → Option Bool) (x : ℕ) (p : Bytes) (cur : Cursor)
    (s : Bytes)
    → is_plain x ≡ true
    → smatch_step again alts x p cur s ≡ literal again x p s
plain_step again alts x p cur s h = unfold smatch_step in ground arith

equal_fold-cons :
    (c x : ℕ) (s p : Bytes)
    → equal_fold (c ∷ s) (x ∷ p) ≡ (if lower x == lower c then equal_fold s p else false)
unfolding equal_fold equal_loop
equal_fold-cons c x s p = ground arith

plain_loop :
    (fuel : ℕ) (p : Bytes) (cur : Cursor) (s : Bytes)
    → length p < fuel
    → IsPlain p
    → smatch_at fuel p cur s ≡ some (equal_fold s p)
unfolding smatch_at
plain_loop zero p cur s h k = absurd (omega arith)
plain_loop (suc fuel) [] cur [] h k = unfold equal_fold equal_loop in refl
plain_loop (suc fuel) [] cur (c ∷ s) h k = unfold equal_fold equal_loop in ground arith
plain_loop (suc fuel) (x ∷ p) cur [] h k =
    rw (plain_step _ _ x p cur [] k.0) (unfold equal_fold literal in ground arith)
plain_loop (suc fuel) (x ∷ p) cur (c ∷ s) h k = rw (plain_step _ _ x p cur (c ∷ s) k.0) (
    unfold literal in
    ground (arith, equal_fold-cons c x s p, plain_loop fuel p (some c) s (omega arith) k.1))

-- A pattern of plain bytes, none of which is '?', '*', '[', '{' or a backslash, matches exactly the
-- strings that it equals up to case.
pub smatch-plain :
    (s pattern : Bytes) → IsPlain pattern → smatch s pattern ≡ some (equal_fold s pattern)
unfolding smatch
smatch-plain s pattern h = plain_loop (length pattern + 1) pattern none s (omega arith) h

has_prefix-cons :
    (c x : ℕ) (s p : Bytes)
    → has_prefix (c ∷ s) (x ∷ p) ≡ (if lower x == lower c then has_prefix s p else false)
unfolding has_prefix
has_prefix-cons c x s p = rw (equal_fold-cons c x (take (length p) s) p) (ground arith)

prefix_loop :
    (fuel : ℕ) (p : Bytes) (cur : Cursor) (s : Bytes)
    → length p + 1 < fuel
    → IsPlain p
    → smatch_at fuel (p ++ b'*' ∷ []) cur s ≡ some (has_prefix s p)
unfolding smatch_at
prefix_loop zero p cur s h k = absurd (omega arith)
prefix_loop (suc fuel) [] cur s h k =
    unfold smatch_step star_run after_star has_prefix equal_fold equal_loop in ground arith
prefix_loop (suc fuel) (x ∷ p) cur [] h k =
    rw (plain_step _ _ x (p ++ b'*' ∷ []) cur [] k.0) (unfold has_prefix literal in ground arith)
prefix_loop (suc fuel) (x ∷ p) cur (c ∷ s) h k =
    rw (plain_step _ _ x (p ++ b'*' ∷ []) cur (c ∷ s) k.0) (
      unfold literal in
      ground (arith, has_prefix-cons c x s p, prefix_loop fuel p (some c) s (omega arith) k.1))

-- Bytes none of which is '?', '*', '[', '{' or a backslash, with a star behind them, match exactly
-- the strings that begin, up to case, with those bytes.
pub smatch-star :
    (s prefix : Bytes)
    → IsPlain prefix
    → smatch s (prefix ++ b'*' ∷ []) ≡ some (has_prefix s prefix)
unfolding smatch
smatch-star s prefix h =
    prefix_loop (length (prefix ++ b'*' ∷ []) + 1) prefix none s
      (omega (arith, length-append prefix (b'*' ∷ []))) h

-- A backslash in front of every byte.
abbrev pub escaped : Bytes → Bytes
escaped [] = []
escaped (x ∷ s) = backslash ∷ x ∷ escaped s

escaped_loop :
    (fuel : ℕ) (p : Bytes) (cur : Cursor) (s : Bytes)
    → length p < fuel
    → smatch_at fuel (escaped p) cur s ≡ some (equal_fold s p)
unfolding smatch_at
escaped_loop zero p cur s h = absurd (omega arith)
escaped_loop (suc fuel) [] cur [] h = unfold equal_fold equal_loop in refl
escaped_loop (suc fuel) [] cur (c ∷ s) h = unfold equal_fold equal_loop in ground arith
escaped_loop (suc fuel) (x ∷ p) cur [] h =
    unfold smatch_step escape literal equal_fold in ground arith
escaped_loop (suc fuel) (x ∷ p) cur (c ∷ s) h =
    unfold smatch_step escape literal in
    ground (arith, equal_fold-cons c x s p, escaped_loop fuel p (some c) s (omega arith))

length-escaped : (p : Bytes) → length p ≤ length (escaped p)
length-escaped [] = omega arith
length-escaped (x ∷ p) = omega (arith, length-escaped p)

-- Escaping every byte of a string gives a pattern that matches, up to case, that string alone,
-- whatever bytes it holds.
pub smatch-escaped : (s t : Bytes) → smatch s (escaped t) ≡ some (equal_fold s t)
unfolding smatch
smatch-escaped s t =
    escaped_loop (length (escaped t) + 1) t none s (omega (arith, length-escaped t))
