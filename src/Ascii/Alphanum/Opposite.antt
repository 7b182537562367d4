-- ===== src/Ascii/Alphanum/Opposite.antt =====
-- The alphanumeric comparison of two texts, one way and the other.
use Prim.Native.Nat.{ℕ}
use mathlib.Core.Path.{◌≡◌, refl, sym, ap, ◌∙◌}
use mathlib.Core.Bool.{Bool, true, false, not, ◌&&◌, ◌||◌}
use mathlib.Core.List.{[], ◌∷◌, map}
use fuzzball_emerald.Prelude.{◌==◌, ltb, Bytes, arith, Bool-cases, inl, inr, All, ==_iff}
use fuzzball_emerald.Prelude.Int.{ℤ, pos, sub_ℕ, ◌-ℤ◌}
use fuzzball_emerald.Ascii.{lower}
use fuzzball_emerald.Ascii.Alphanum.{
  Pairs, byte_at, is_digit, back_over, forward, back_first, digits, by_numbers, numbers_at,
  compare_from, walk, alphanum_compare,
}

abbrev pub opposite : ℤ → ℤ
opposite z = pos 0 -ℤ z

sub_ℕ-opposite : (a b : ℕ) → sub_ℕ b a ≡ opposite (sub_ℕ a b)
unfolding ◌-ℤ◌
sub_ℕ-opposite a b = ground arith

either_long : (c d : ℕ) → (ltb 8 d || ltb 8 c) ≡ (ltb 8 c || ltb 8 d)
either_long c d = ground arith

same_count : (c d : ℕ) → (d == c) ≡ (c == d)
same_count c d = ground arith

both_numbers :
    (n m : ℕ)
    → (not (m == 0) && not (n == 0) && not (m == n))
      ≡ (not (n == 0) && not (m == 0) && not (n == m))
both_numbers n m = ground arith

by_numbers-opposite :
    (r s : ℕ × ℕ) (x y : ℕ) → by_numbers s r (sub_ℕ y x) ≡ opposite (by_numbers r s (sub_ℕ x y))
by_numbers-opposite (c, n) (d, m) x y =
    rw (either_long c d, same_count c d, both_numbers n m)
      (elim (Bool-cases (ltb 8 c || ltb 8 d)) [
        | inl e ↦ rw e (elim (Bool-cases (c == d)) [
          | inl k ↦ rw k (sub_ℕ-opposite x y)
          | inr k ↦ rw k (sub_ℕ-opposite c d)
        ])
        | inr e ↦ rw e (elim (Bool-cases (not (n == 0) && not (m == 0) && not (n == m))) [
          | inl k ↦ rw k (sub_ℕ-opposite n m)
          | inr k ↦ rw k (sub_ℕ-opposite x y)
        ])
      ])

abbrev swap {ℓ} : {A : Type ℓ} → A × A → A × A
swap (a, b) = (b, a)

abbrev Agrees : ℕ × ℕ → Type 0
Agrees (x, y) = lower x ≡ lower y

-- The two texts stand at a zero together, and at a digit.
abbrev Level : Bytes × Bytes → Type 0
Level r =
    ((byte_at r.0 == b'0') ≡ (byte_at r.1 == b'0'))
    × (is_digit (byte_at r.0) ≡ is_digit (byte_at r.1))

zeros : (x y : ℕ) → lower x ≡ lower y → (x == b'0') ≡ (y == b'0')
unfolding lower
zeros x y h = ground arith

both-digits : (x y : ℕ) → lower x ≡ lower y → is_digit x ≡ is_digit y
unfolding lower
both-digits x y h = ground arith

back_over-swap :
    (back : Pairs) (a b : Bytes)
    → All Agrees back
    → Level (a, b)
    → (back_over (map swap back) b a ≡ swap (back_over back a b)) × Level (back_over back a b)
unfolding back_over
back_over-swap [] a b h l = (refl, l)
back_over-swap ((x, y) ∷ back) a b h l = elim (Bool-cases (byte_at a == b'0')) [
  | inl e ↦
      rw (sym l.0, e) (back_over-swap back (x ∷ a) (y ∷ b) h.1 (zeros x y h.0, both-digits x y h.0))
  | inr e ↦ rw (sym l.0, e) (refl, l)
]

forward-swap :
    (r : Bytes × Bytes)
    → is_digit (byte_at r.0) ≡ is_digit (byte_at r.1)
    → forward (swap r) ≡ swap (forward r)
forward-swap (a, b) l = elim (Bool-cases (is_digit (byte_at a))) [
  | inl e ↦ rw (sym l, e) refl
  | inr e ↦ rw (sym l, e) refl
]

numbers_at-swap :
    (r : Bytes × Bytes) (x y : ℕ)
    → numbers_at (swap r) (sub_ℕ y x) ≡ opposite (numbers_at r (sub_ℕ x y))
numbers_at-swap (a, b) x y = by_numbers-opposite (digits 0 0 a) (digits 0 0 b) x y

-- Of two texts that differ, not both stand at a zero.
not_both : (p q : Bool) → (p && q) ≡ false → q ≡ true → p ≡ false
not_both p q h e = ground arith

back_first-swap :
    (back : Pairs) (a b : Bytes)
    → All Agrees back
    → is_digit (byte_at a) ≡ is_digit (byte_at b)
    → ((byte_at a == b'0') && (byte_at b == b'0')) ≡ false
    → (back_first (map swap back) b a ≡ swap (back_first back a b))
      × (is_digit (byte_at (back_first back a b).0) ≡ is_digit (byte_at (back_first back a b).1))
unfolding back_over
back_first-swap [] a b h d n = (refl, d)
back_first-swap ((x, y) ∷ back) a b h d n =
    let over = back_over-swap back (x ∷ a) (y ∷ b) h.1 (zeros x y h.0, both-digits x y h.0) in
    elim (Bool-cases (byte_at b == b'0')) [
      | inl k ↦ rw (k, not_both (byte_at a == b'0') (byte_at b == b'0') n k) (over.0, over.1.1)
      | inr k ↦ elim (Bool-cases (byte_at a == b'0')) [
        | inl j ↦ rw (k, j) (over.0, over.1.1)
        | inr j ↦ rw (k, j) (refl, d)
      ]
    ]

and_left : (p q : Bool) → (p && q) ≡ true → p ≡ true
and_left p q h = ground arith

and_comm : (p q : Bool) → (q && p) ≡ (p && q)
and_comm p q = ground arith

compare_from-opposite :
    (back : Pairs) (a b : Bytes)
    → All Agrees back
    → ((byte_at a == b'0') && (byte_at b == b'0')) ≡ false
    → compare_from (map swap back) b a ≡ opposite (compare_from back a b)
unfolding compare_from
compare_from-opposite back a b h n =
    let p = is_digit (byte_at a) in
    let q = is_digit (byte_at b) in
    let x = byte_at a in
    let y = byte_at b in
    elim (Bool-cases (p && q)) [
      | inl e ↦
          let left = and_left p q e in
          let right = and_left q p (and_comm p q ∙ e) in
          let (same, level) = back_first-swap back a b h (left ∙ sym right) n in
          rw (left, right)
            (ap (λ r. numbers_at (forward r) (sub_ℕ y x)) same
              ∙ ap (λ r. numbers_at r (sub_ℕ y x)) (forward-swap (back_first back a b) level)
              ∙ numbers_at-swap (forward (back_first back a b)) x y)
      | inr e ↦ rw (and_comm p q, e) (sub_ℕ-opposite (lower x) (lower y))
    ]

differ : (x y : ℕ) → (lower x == lower y) ≡ false → ((x == b'0') && (y == b'0')) ≡ false
unfolding lower
differ x y h = elim (Bool-cases (x == b'0')) [
  | inl e ↦ elim (Bool-cases (y == b'0')) [ inl k ↦ ground arith | inr k ↦ rw (e, k) refl ]
  | inr e ↦ rw e refl
]

and_false : (p : Bool) → (p && false) ≡ false
and_false p = ground arith

walk-opposite :
    (back : Pairs) (a b : Bytes)
    → All Agrees back
    → walk (map swap back) b a ≡ opposite (walk back a b)
unfolding walk
walk-opposite back [] [] h = compare_from-opposite back [] [] h refl
walk-opposite back [] (y ∷ b) h = compare_from-opposite back [] (y ∷ b) h refl
walk-opposite back (x ∷ a) [] h = compare_from-opposite back (x ∷ a) [] h (and_false (x == b'0'))
walk-opposite back (x ∷ a) (y ∷ b) h = elim (Bool-cases (lower x == lower y)) [
  | inl e ↦
      rw (same_count (lower x) (lower y), e)
        (walk-opposite ((x, y) ∷ back) a b ((==_iff (lower x) (lower y)).0 e, h))
  | inr e ↦
      rw (same_count (lower x) (lower y), e)
        (compare_from-opposite back (x ∷ a) (y ∷ b) h (differ x y e))
]

-- Two texts compare one way as they do the other way, with the sign changed, also where they have
-- numbers with zeros in front, or numbers of more than eight digits.
pub alphanum_compare-opposite :
    (a b : Bytes) → alphanum_compare b a ≡ opposite (alphanum_compare a b)
unfolding alphanum_compare
alphanum_compare-opposite a b = walk-opposite [] a b tt
