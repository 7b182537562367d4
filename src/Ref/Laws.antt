-- ===== src/Ref/Laws.antt =====
-- References: what is printed is read back, and a reference survives the conversion from a wider
-- integer.
use fuzzball_emerald.Prelude.{suc, ◌%◌, ◌^◌, ◌≡◌, refl, [], ◌∷◌, some, arith, Bytes}
use fuzzball_emerald.Prelude.Int.{ℤ, pos, negsuc}
use fuzzball_emerald.Prelude.Decimal.{
  itoa, print_nat, Fits, IsDigits, print_nat-IsDigits, parse_int-itoa,
}
use fuzzball_emerald.Prelude.Space.{is_space, NoSpace, trim_left-NoSpace, trim_right-NoSpace}
use fuzzball_emerald.Ref.{Ref, to_int32, string, parse, trim_hash}

-- The range of an int32.
abbrev pub IsRef : ℤ → Type 0
IsRef = Fits (2 ^ 31)

pub digits-NoSpace : (s : Bytes) → IsDigits s → NoSpace s
digits-NoSpace [] h = tt
digits-NoSpace (c ∷ s) h = (unfold is_space in ground arith, digits-NoSpace s h.1)

pub itoa-NoSpace : (z : ℤ) → NoSpace (itoa z)
unfolding itoa is_space
itoa-NoSpace (pos n) = digits-NoSpace (print_nat n) (print_nat-IsDigits n)
itoa-NoSpace (negsuc n) = (refl, digits-NoSpace (print_nat (suc n)) (print_nat-IsDigits (suc n)))

string-NoSpace : (r : Ref) → NoSpace (string r)
unfolding string is_space
string-NoSpace r = (refl, itoa-NoSpace r)

-- Every reference, an int32, is read back from the text that is printed of it.
pub parse-string : (r : Ref) → IsRef r → parse (string r) ≡ some r
unfolding parse
parse-string r h = rw (trim_right-NoSpace (string r) (string-NoSpace r)) (
    rw (trim_left-NoSpace (string r) (string-NoSpace r))
      (unfold string trim_hash in parse_int-itoa 32 r h))

-- Converting a reference from a wider integer gives it back.
pub to_int32-IsRef : (r : ℤ) → IsRef r → to_int32 r ≡ r
unfolding to_int32
to_int32-IsRef (pos n) h = let e : n % 2 ^ 32 ≡ n = omega arith in rw e (ground arith)
to_int32-IsRef (negsuc n) h = let e : n % 2 ^ 32 ≡ n = omega arith in rw e (ground arith)

pub to_int32-range : (z : ℤ) → IsRef (to_int32 z)
unfolding to_int32
to_int32-range (pos n) = ground arith
to_int32-range (negsuc n) = ground arith
