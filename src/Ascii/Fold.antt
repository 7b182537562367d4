-- ===== src/Ascii/Fold.antt =====
-- The laws of internal/ascii/ascii.go: folding is a projection, and the three comparisons agree
-- with it.
use fuzzball_emerald.Prelude.{
  ℕ, suc, ◌≤◌, ◌<◌, ◌≡◌, refl, ap, true, ◌↔◌, ◌⊎◌, ◌∙◌, [], ◌∷◌, arith, Bytes, length, take, inl,
  inr,
}
use fuzzball_emerald.Prelude.Int.{pos, ◌≤ℤ◌, ◌-ℤ◌}
use fuzzball_emerald.Ascii.{lower, fold, equal_loop, equal_fold, compare_fold, has_prefix}

pub lower-lower : (c : ℕ) → lower (lower c) ≡ lower c
unfolding lower
lower-lower c = ground arith

pub length-fold : (s : Bytes) → length (fold s) ≡ length s
unfolding fold
length-fold [] = refl
length-fold (c ∷ s) = ap suc (length-fold s)

-- Folding twice is folding once.
pub fold-fold : (s : Bytes) → fold (fold s) ≡ fold s
unfolding fold
fold-fold [] = refl
fold-fold (c ∷ s) = ground (arith, lower-lower c, fold-fold s)

equal_loop_iff : (a b : Bytes) → length a ≡ length b → (equal_loop a b ≡ true) ↔ (fold a ≡ fold b)
unfolding equal_loop fold
equal_loop_iff [] [] h = ground arith
equal_loop_iff [] (y ∷ b) h = absurd (omega arith)
equal_loop_iff (x ∷ a) [] h = absurd (omega arith)
equal_loop_iff (x ∷ a) (y ∷ b) h = ground (arith, equal_loop_iff a b)

length_of_fold_eq : (a b : Bytes) → fold a ≡ fold b → length a ≡ length b
length_of_fold_eq a b h = omega (arith, ap (length {A = ℕ}) h, length-fold a, length-fold b)

-- `EqualFold` holds exactly of strings that fold to one string.
pub equal_fold_iff : (a b : Bytes) → (equal_fold a b ≡ true) ↔ (fold a ≡ fold b)
unfolding equal_fold
equal_fold_iff a b = ground (arith, equal_loop_iff a b, length_of_fold_eq a b)

-- `Compare` answers zero exactly of strings that fold to one string.
pub compare_fold-zero_iff : (a b : Bytes) → (compare_fold a b ≡ pos 0) ↔ (fold a ≡ fold b)
unfolding compare_fold fold
compare_fold-zero_iff [] [] = ground arith
compare_fold-zero_iff [] (y ∷ b) = ground arith
compare_fold-zero_iff (x ∷ a) [] = ground arith
compare_fold-zero_iff (x ∷ a) (y ∷ b) = ground (arith, compare_fold-zero_iff a b)

-- `Compare` the other way round is its negation.
pub compare_fold_antisym : (a b : Bytes) → compare_fold b a ≡ pos 0 -ℤ compare_fold a b
unfolding compare_fold ◌-ℤ◌
compare_fold_antisym [] [] = ground arith
compare_fold_antisym [] (y ∷ b) = ground arith
compare_fold_antisym (x ∷ a) [] = ground arith
compare_fold_antisym (x ∷ a) (y ∷ b) = ground (arith, compare_fold_antisym a b)

-- How `Compare` decides on two heads.
le_zero_cons :
    (x y : ℕ) (a b : Bytes)
    → compare_fold (x ∷ a) (y ∷ b) ≤ℤ pos 0
    → (lower x < lower y) ⊎ ((lower x ≡ lower y) × (compare_fold a b ≤ℤ pos 0))
unfolding compare_fold
le_zero_cons x y a b h = ground arith

le_zero_lt : (x y : ℕ) (a b : Bytes) → lower x < lower y → compare_fold (x ∷ a) (y ∷ b) ≤ℤ pos 0
unfolding compare_fold
le_zero_lt x y a b h = ground arith

le_zero_eq :
    (x y : ℕ) (a b : Bytes)
    → lower x ≡ lower y
    → compare_fold a b ≤ℤ pos 0
    → compare_fold (x ∷ a) (y ∷ b) ≤ℤ pos 0
unfolding compare_fold
le_zero_eq x y a b e h = ground arith

not_le_zero_nil : (x : ℕ) (a : Bytes) → ¬ (compare_fold (x ∷ a) [] ≤ℤ pos 0)
unfolding compare_fold
not_le_zero_nil x a h = omega arith

nil_le_zero : (a : Bytes) → compare_fold [] a ≤ℤ pos 0
unfolding compare_fold
nil_le_zero [] = omega arith
nil_le_zero (x ∷ a) = ground arith

-- If one string does not come behind a second in `Compare`, nor the second behind a third, then the
-- first does not come behind the third.
pub compare_fold_trans :
    (a b c : Bytes)
    → compare_fold a b ≤ℤ pos 0
    → compare_fold b c ≤ℤ pos 0
    → compare_fold a c ≤ℤ pos 0
compare_fold_trans [] b c h k = nil_le_zero c
compare_fold_trans (x ∷ a) [] c h k = absurd (not_le_zero_nil x a h)
compare_fold_trans (x ∷ a) (y ∷ b) [] h k = absurd (not_le_zero_nil y b k)
compare_fold_trans (x ∷ a) (y ∷ b) (z ∷ c) h k = elim (le_zero_cons x y a b h) [
  | inl lt ↦ elim (le_zero_cons y z b c k) [
    | inl lt' ↦ le_zero_lt x z a c (omega arith)
    | inr eq' ↦ le_zero_lt x z a c (omega arith)
  ]
  | inr eq ↦ elim (le_zero_cons y z b c k) [
    | inl lt' ↦ le_zero_lt x z a c (omega arith)
    | inr eq' ↦ le_zero_eq x z a c (eq.0 ∙ eq'.0) (compare_fold_trans a b c eq.1 eq'.1)
  ]
]

-- `HasPrefix` holds exactly where the string begins, up to case, with the prefix.
pub has_prefix_iff :
    (s prefix : Bytes)
    → (has_prefix s prefix ≡ true)
      ↔ ((length prefix ≤ length s) × (fold (take (length prefix) s) ≡ fold prefix))
unfolding has_prefix
has_prefix_iff s prefix = ground (arith, equal_fold_iff (take (length prefix) s) prefix)
