-- ===== src/Ascii/SMatch/Ranges.antt =====
-- The byte ranges of a character class (cmatch of smatch.go): what a range accepts, and what one that
-- ends in the last byte accepts.
use fuzzball_emerald.Prelude.{
  ℕ, zero, suc, ◌+◌, ◌%◌, ◌≤◌, ◌<◌, ◌≡◌, ◌∙◌, ◌↔◌, true, [], ◌∷◌, arith, ◌==◌, leb, Bool-cases, inl,
  inr,
}
use fuzzball_emerald.Ascii.{lower}
use fuzzball_emerald.Ascii.SMatch.Class.{backslash, range_hit, class_loop, cmatch}

-- A byte of the range that folds to `c`.
abbrev pub InRange : ℕ → ℕ → ℕ → Type 0
InRange from to c = (b : ℕ) × (from ≤ b) × (b ≤ to) × (lower b ≡ c)

range_hit_sound : (rounds b to c : ℕ) → to < 255 → range_hit rounds b to c ≡ true → InRange b to c
unfolding range_hit
range_hit_sound zero b to c h k = ground arith
range_hit_sound (suc rounds) b to c h k = elim (Bool-cases (leb b to)) [
  | inl le ↦ elim (Bool-cases (lower b == c)) [
    | inl eq ↦ (b, omega arith, ground arith, ground arith)
    | inr ne ↦
        let step : (b + 1) % 256 ≡ b + 1 = ground arith in
        let (x, p, q, r) = range_hit_sound rounds (b + 1) to c h (rw (step, le, ne) at k) in
        (x, omega arith, q, r)
  ]
  | inr gt ↦ ground arith
]

range_hit_complete :
    (rounds from to c b : ℕ)
    → to < 255
    → b < from + rounds
    → from ≤ b
    → b ≤ to
    → lower b ≡ c
    → range_hit rounds from to c ≡ true
unfolding range_hit
range_hit_complete zero from to c b h r k l e = absurd (omega arith)
range_hit_complete (suc rounds) from to c b h r k l e = elim (Bool-cases (lower from == c)) [
  | inl eq ↦ ground arith
  | inr ne ↦
      let step : (from + 1) % 256 ≡ from + 1 = ground arith in
      let more : from + 1 ≤ b = ground arith in
      let rest : range_hit rounds (from + 1) to c ≡ true =
        range_hit_complete rounds (from + 1) to c b h (omega arith) more l e in
      rw (step, ne, rest) (ground arith)
]

-- The loop over a range below the last byte accepts exactly the bytes that a member folds to.
pub range_hit_iff :
    (from to c : ℕ) → to < 255 → (range_hit 512 from to c ≡ true) ↔ InRange from to c
range_hit_iff from to c h = (
  range_hit_sound 512 from to c h,
  λ (b, k, l, e). range_hit_complete 512 from to c b h (omega arith) k l e,
)

-- With 255 as its last byte the loop's byte wraps to 0 instead of passing the end.
wraps_up :
    (rounds b c : ℕ)
    → b ≤ c
    → c < 256
    → lower c ≡ c
    → c < b + rounds
    → range_hit rounds b 255 c ≡ true
unfolding range_hit
wraps_up zero b c h k e r = absurd (omega arith)
wraps_up (suc rounds) b c h k e r = elim (Bool-cases (lower b == c)) [
  | inl eq ↦ ground arith
  | inr ne ↦
      let more : b + 1 ≤ c = ground arith in
      let step : (b + 1) % 256 ≡ b + 1 = omega arith in
      let rest : range_hit rounds (b + 1) 255 c ≡ true =
        wraps_up rounds (b + 1) c more k e (omega arith) in
      rw (step, ne, rest) (ground arith)
]

wraps_round :
    (rounds b c : ℕ)
    → b < 256
    → c < 256
    → lower c ≡ c
    → 256 + c < b + rounds
    → range_hit rounds b 255 c ≡ true
unfolding range_hit
wraps_round zero b c h k e r = absurd (omega arith)
wraps_round (suc rounds) b c h k e r = elim (Bool-cases (lower b == c)) [
  | inl eq ↦ ground arith
  | inr ne ↦ elim (Bool-cases (b == 255)) [
    | inl last ↦
        let step : (b + 1) % 256 ≡ 0 = ground arith in
        let rest : range_hit rounds 0 255 c ≡ true =
          wraps_up rounds 0 c (omega arith) k e (ground arith) in
        rw (step, ne, rest) (ground arith)
    | inr other ↦
        let step : (b + 1) % 256 ≡ b + 1 = ground arith in
        let rest : range_hit rounds (b + 1) 255 c ≡ true =
          wraps_round rounds (b + 1) c (ground arith) k e (omega arith) in
        rw (step, ne, rest) (ground arith)
  ]
]

lower-lt : (c : ℕ) → c < 256 → lower c < 256
unfolding lower
lower-lt c h = ground arith

lower_again : (c : ℕ) → lower (lower c) ≡ lower c
unfolding lower
lower_again c = ground arith

hits_first :
    (rounds from to c : ℕ) → from ≤ to → lower from ≡ c → range_hit (suc rounds) from to c ≡ true
unfolding range_hit
hits_first rounds from to c h e = ground arith

-- A class that is one range is decided by the loop over its bytes.
cmatch-range :
    (from to c : ℕ)
    → from ≤ to
    → (from ≡ b'^' → ⊥)
    → (from ≡ b'-' → ⊥)
    → (from ≡ backslash → ⊥)
    → cmatch (from ∷ b'-' ∷ to ∷ []) c ≡ range_hit 512 from to (lower c)
cmatch-range from to c h n1 n2 n3 =
    let first = hits_first 511 from to (lower c) h in
    unfold cmatch class_loop in ground (arith, first)

-- A class that is one range, from a byte other than '^', '-' and the backslash up to the byte 255,
-- accepts every byte, also those below the range: the loop over the range never sees its end
-- passed.
pub cmatch-range_to_last :
    (from c : ℕ)
    → from < 256
    → c < 256
    → (from ≡ b'^' → ⊥)
    → (from ≡ b'-' → ⊥)
    → (from ≡ backslash → ⊥)
    → cmatch (from ∷ b'-' ∷ 255 ∷ []) c ≡ true
cmatch-range_to_last from c h k n1 n2 n3 =
    cmatch-range from 255 c (omega arith) n1 n2 n3
    ∙ wraps_round 512 from (lower c) h (lower-lt c k) (lower_again c) (omega (arith, lower-lt c k))

-- A class that is one range, from a byte other than '^', '-' and the backslash up to one that is no
-- less and below 255, accepts exactly the bytes that fold as a member of the range does.
pub cmatch-range_iff :
    (from to c : ℕ)
    → from ≤ to
    → to < 255
    → (from ≡ b'^' → ⊥)
    → (from ≡ b'-' → ⊥)
    → (from ≡ backslash → ⊥)
    → (cmatch (from ∷ b'-' ∷ to ∷ []) c ≡ true) ↔ InRange from to (lower c)
cmatch-range_iff from to c h k n1 n2 n3 =
    rw (cmatch-range from to c h n1 n2 n3) (range_hit_iff from to (lower c) k)
