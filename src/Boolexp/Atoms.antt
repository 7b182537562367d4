-- ===== src/Boolexp/Atoms.antt =====
-- The texts of the two kinds of atom, read back.
use fuzzball_emerald.Prelude.{
  ℕ, suc, ◌-◌, ◌^◌, ◌<◌, ◌≡◌, refl, true, false, [], ◌∷◌, ◌++◌, none, some, arith, ◌==◌, Bytes, All,
  All-append, length, IsAscii,
}
use fuzzball_emerald.Prelude.Int.{ℤ, pos, negsuc}
use fuzzball_emerald.Prelude.Decimal.{
  itoa, print_nat, parse_int, IsDigits, print_nat-IsDigits, length-print_nat, parse_int-itoa, Fits,
}
use fuzzball_emerald.Prelude.Space.{is_space}
use fuzzball_emerald.Boolexp.Runes.Ascii.{
  trim_left_runes-ascii, until_space-ascii, trim_right_runes-append,
}
use fuzzball_emerald.Ref.{Ref}
use fuzzball_emerald.Ref.Laws.{IsRef, itoa-NoSpace, to_int32-IsRef}
use fuzzball_emerald.Boolexp.{const, prop, Host}
use fuzzball_emerald.Boolexp.Parse.{
  ok, ends_atom, split_colon, parse_prop, make_prop, parse_dbref, parse_atom, forbidden,
}
use fuzzball_emerald.Boolexp.Grammar.{IsFactor, IsFactor_atom}
use fuzzball_emerald.Boolexp.Nest.{IsInside, IsName, IsLockValue}

split_colon-name :
    (n v : Bytes) → All (λ d. (d == b':') ≡ false) n → split_colon (n ++ b':' ∷ v) ≡ some (n, v)
unfolding split_colon
split_colon-name [] v h = refl
split_colon-name (c ∷ n) v h = rw (split_colon-name n v h.1) (rw (h.0) refl)

split_colon-none : (s : Bytes) → All (λ d. (d == b':') ≡ false) s → split_colon s ≡ none
unfolding split_colon
split_colon-none [] h = refl
split_colon-none (c ∷ s) h = rw (split_colon-none s h.1) (rw (h.0) refl)

name_text : (n v : Bytes) → IsInside n → IsInside v → IsInside (n ++ b':' ∷ v)
unfolding ends_atom
name_text n v h k = All-append (λ c. ends_atom c ≡ false) n (b':' ∷ v) h (refl, k)

make_prop-ok : (c : ℕ) (n v : Bytes) → 0 < length v → make_prop (c ∷ n) v ≡ ok (prop (c ∷ n) v)
make_prop-ok c n [] h = absurd (omega arith)
make_prop-ok c n (d ∷ v) h = refl

is_digit-text : (s : Bytes) → IsDigits s → IsInside s × All (λ d. (d == b':') ≡ false) s
unfolding ends_atom
is_digit-text [] h = (tt, tt)
is_digit-text (c ∷ s) h =
    let rest = is_digit-text s h.1 in ((ground arith, rest.0), (ground arith, rest.1))

itoa-text : (r : ℤ) → IsInside (itoa r) × All (λ d. (d == b':') ≡ false) (itoa r)
unfolding itoa ends_atom
itoa-text (pos n) = is_digit-text (print_nat n) (print_nat-IsDigits n)
itoa-text (negsuc n) =
    let rest = is_digit-text (print_nat (suc n)) (print_nat-IsDigits (suc n)) in
    ((refl, rest.0), (refl, rest.1))

digits-IsAscii : (s : Bytes) → IsDigits s → IsAscii s
digits-IsAscii [] h = tt
digits-IsAscii (c ∷ s) h = (ground arith, digits-IsAscii s h.1)

itoa-IsAscii : (r : ℤ) → IsAscii (itoa r)
unfolding itoa
itoa-IsAscii (pos n) = digits-IsAscii (print_nat n) (print_nat-IsDigits n)
itoa-IsAscii (negsuc n) =
    (omega arith, digits-IsAscii (print_nat (suc n)) (print_nat-IsDigits (suc n)))

length-itoa : (r : ℤ) → 0 < length (itoa r)
unfolding itoa
length-itoa (pos n) = length-print_nat n
length-itoa (negsuc n) = omega arith

parse_dbref-digits :
    (s : Bytes) (r : ℤ)
    → 0 < length s
    → parse_int 64 s ≡ some r
    → IsRef r
    → parse_dbref (b'#' ∷ s) ≡ ok (const r)
unfolding parse_dbref
parse_dbref-digits [] r h k l = absurd (omega arith)
parse_dbref-digits (c ∷ s) r h k l = rw k (rw (to_int32-IsRef r l))

IsRef-wide : (r : ℤ) → IsRef r → Fits (2 ^ (64 - 1)) r
IsRef-wide (pos n) h = omega arith
IsRef-wide (negsuc n) h = omega arith

module _ (host : Host) (player : Ref) where
  prop_atom :
      (c : ℕ) (n v : Bytes)
      → IsName (c ∷ n)
      → IsLockValue v
      → parse_atom host player true (c ∷ n ++ b':' ∷ v) ≡ ok (prop (c ∷ n) v)
  unfolding parse_atom
  prop_atom c n v (hs, hp, hn, hi, hc, ht) (kl, ki, ks, ka) = rw (split_colon-name (c ∷ n) v hc) (
      unfold forbidden parse_prop in
      rw ht (
        rw (trim_left_runes-ascii v ka ks)
          (rw (until_space-ascii v ka ks) (make_prop-ok c n v kl))))

  pub IsFactor_prop :
      (n v : Bytes) → IsName n → IsLockValue v → IsFactor host player (n ++ b':' ∷ v) (prop n v)
  unfolding is_space
  IsFactor_prop [] v h k = absurd h
  IsFactor_prop (c ∷ n) v (hs, hp, hn, hi, hc, ht) (kl, ki, ks, ka) =
      IsFactor_atom host player c (n ++ b':' ∷ v) (prop (c ∷ n) v) hs hp hn
        (name_text (c ∷ n) v hi ki)
        (trim_right_runes-append (c ∷ n) (b':' ∷ v) (omega arith) (omega arith, ka) (refl, ks))
        (prop_atom c n v (hs, hp, hn, hi, hc, ht) (kl, ki, ks, ka))

  pub IsFactor_const : (r : Ref) → IsRef r → IsFactor host player (b'#' ∷ itoa r) (const r)
  unfolding is_space ends_atom parse_atom
  IsFactor_const r h =
      IsFactor_atom host player b'#' (itoa r) (const r) refl refl refl (refl, (itoa-text r).0)
        (trim_right_runes-append [] (b'#' ∷ itoa r) (omega arith) (omega arith, itoa-IsAscii r)
          (refl, itoa-NoSpace r))
        (rw (split_colon-none (b'#' ∷ itoa r) (refl, (itoa-text r).1))
          (parse_dbref-digits (itoa r) r (length-itoa r) (parse_int-itoa 64 r (IsRef-wide r h)) h))
