-- ===== src/Props/Order.antt =====
-- Go's order on strings, which is that of their bytes: the order of the keys of a property directory.
use fuzzball_emerald.Prelude.{
  ◌≡◌, refl, Bool, true, false, [], ◌∷◌, arith, ◌==◌, ltb, if◌then◌else◌, Bytes, bytes_eq,
  bytes_eq_iff,
}

unfoldable pub bytes_lt : Bytes → Bytes → Bool
bytes_lt [] [] = false
bytes_lt [] (b ∷ t) = true
bytes_lt (a ∷ s) [] = false
bytes_lt (a ∷ s) (b ∷ t) = if a == b then bytes_lt s t else ltb a b

pub bytes_lt_irrefl : (s : Bytes) → bytes_lt s s ≡ false
unfolding bytes_lt
bytes_lt_irrefl [] = refl
bytes_lt_irrefl (a ∷ s) = ground (arith, bytes_lt_irrefl s)

pub bytes_lt_trans :
    (s t u : Bytes) → bytes_lt s t ≡ true → bytes_lt t u ≡ true → bytes_lt s u ≡ true
unfolding bytes_lt
bytes_lt_trans [] [] u h k = cc
bytes_lt_trans [] (b ∷ t) [] h k = cc
bytes_lt_trans [] (b ∷ t) (c ∷ u) h k = refl
bytes_lt_trans (a ∷ s) [] u h k = cc
bytes_lt_trans (a ∷ s) (b ∷ t) [] h k = cc
bytes_lt_trans (a ∷ s) (b ∷ t) (c ∷ u) h k = ground (arith, bytes_lt_trans s t u)

-- Two strings that are not one are ordered one way or the other.
pub bytes_lt_total :
    (s t : Bytes) → bytes_lt s t ≡ false → bytes_eq s t ≡ false → bytes_lt t s ≡ true
unfolding bytes_lt
bytes_lt_total [] [] h k = cc
bytes_lt_total [] (b ∷ t) h k = cc
bytes_lt_total (a ∷ s) [] h k = refl
bytes_lt_total (a ∷ s) (b ∷ t) h k = ground (arith, bytes_lt_total s t)

pub bytes_lt_asym : (s t : Bytes) → bytes_lt s t ≡ true → bytes_lt t s ≡ false
unfolding bytes_lt
bytes_lt_asym [] [] h = cc
bytes_lt_asym [] (b ∷ t) h = refl
bytes_lt_asym (a ∷ s) [] h = cc
bytes_lt_asym (a ∷ s) (b ∷ t) h = ground (arith, bytes_lt_asym s t)

pub bytes_lt-ne : (s t : Bytes) → bytes_lt s t ≡ true → bytes_eq s t ≡ false
unfolding bytes_lt
bytes_lt-ne [] [] h = cc
bytes_lt-ne [] (b ∷ t) h = refl
bytes_lt-ne (a ∷ s) [] h = cc
bytes_lt-ne (a ∷ s) (b ∷ t) h = ground (arith, bytes_lt-ne s t)

pub bytes_eq_refl : (s : Bytes) → bytes_eq s s ≡ true
bytes_eq_refl s = (bytes_eq_iff s s).1 refl

pub bytes_eq_comm : (s t : Bytes) → bytes_eq s t ≡ bytes_eq t s
bytes_eq_comm [] [] = refl
bytes_eq_comm [] (b ∷ t) = refl
bytes_eq_comm (a ∷ s) [] = refl
bytes_eq_comm (a ∷ s) (b ∷ t) = ground (arith, bytes_eq_comm s t)
