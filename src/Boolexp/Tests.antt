-- ===== src/Boolexp/Tests.antt =====
-- A small world, a lock in it, and the theorems on locks at these.
use fuzzball_emerald.Prelude.{
  Bool-cases, inl, inr, ◌≡◌, ◌<◌, ◌≤◌, refl, Bool, true, false, none, some, List, [], ◌∷◌, arith,
  codes, if◌then◌else◌, ℕ, ◌==◌,
}
use fuzzball_emerald.Prelude.Int.{pos, negsuc, eqb_ℤ}
use fuzzball_emerald.Prelude.Space.{is_space}
use fuzzball_emerald.Boolexp.Runes.{trim_right_runes, drop_back, last_rune, reverse}
use fuzzball_emerald.Ref.{Ref, nothing}
use fuzzball_emerald.Boolexp.{Expr, both, either, negated, const, prop, Host}
use fuzzball_emerald.Prelude.Space.{trim_left}
use fuzzball_emerald.Boolexp.Runes.{
  trim_left_runes, drop_front, until_space, take_front, first_rune,
}
use fuzzball_emerald.Boolexp.Parse.{
  ok, err, empty_value, parse, parse_e, parse_t, parse_f, take_atom, parse_atom, split_colon,
  forbidden, parse_prop, ends_atom,
}
use fuzzball_emerald.Boolexp.Parse.Total.{parse-total, Answers}
use fuzzball_emerald.Boolexp.Unparse.{unparse}
use fuzzball_emerald.Boolexp.Nest.{nest, IsLock}
use fuzzball_emerald.Boolexp.RoundTrip.{parse-unparse}
use fuzzball_emerald.Boolexp.Eval.{eval}
use fuzzball_emerald.Boolexp.Eval.Search.{IsIn, is_first, is_later}
use fuzzball_emerald.Boolexp.Eval.Total.{eval-total}

-- Player 5 holds thing 6, which holds nothing.
abbrev held_by : Ref → List Ref
held_by (pos n) = if n == 5 then pos 6 ∷ [] else []
held_by (negsuc n) = []

abbrev world : Host
world = record {
  match_name = λ p s. nothing;
  wizard = λ r. false;
  name = λ v r. codes "thing";
  valid = λ r. true;
  type_of = λ r. 1;
  owner = λ r. pos 1;
  location = λ r. pos 0;
  contents = held_by;
  parent = λ r. nothing;
  lock_env_check = true;
  prop_of = λ r s. none;
  eval_lock_prop = λ d p w s b. s;
  run_lock = λ d p q t. false;
}

abbrev sample : Expr
sample =
    either
      (both (both (const (pos 5)) (prop (codes "sex") (codes "m*"))) (negated (const (negsuc 0))))
      (const (pos 7))

sample-IsLock : IsLock sample
unfolding is_space ends_atom trim_right_runes drop_back last_rune reverse
sample-IsLock = ground arith

parse-total_example : Answers (parse world (pos 5) false (codes "me&(!a:b|"))
parse-total_example = parse-total world (pos 5) false (codes "me&(!a:b|")

parse-unparse_example :
    parse world (pos 5) true (unparse world (pos 5) false sample) ≡ ok (nest sample)
parse-unparse_example = parse-unparse world (pos 5) (pos 5) sample sample-IsLock

abbrev depth : Ref → ℕ
depth (pos n) = if n == 5 then 1 else 0
depth (negsuc n) = 0

none_in : (c : Ref) (xs : List Ref) → IsIn c xs → xs ≡ [] → ⊥
none_in c xs (is_first ys) e = ground (arith, e)
none_in c xs (is_later y ys i) e = ground (arith, e)

only_in : (c x : Ref) (xs : List Ref) → IsIn c xs → xs ≡ x ∷ [] → c ≡ x
only_in c x xs (is_first ys) e = ground (arith, e)
only_in c x xs (is_later y ys i) e = absurd (none_in c ys i (ground (arith, e)))

held_below : (r c : Ref) → IsIn c (held_by r) → depth c < depth r
held_below (pos n) c i = elim (Bool-cases (n == 5)) [
  | inl e ↦ rw (only_in c (pos 6) (held_by (pos n)) i (rw e refl)) (rw e (omega arith))
  | inr e ↦ absurd (none_in c (held_by (pos n)) i (rw e refl))
]
held_below (negsuc n) c i = absurd (none_in c [] i refl)

abbrev height : Ref → ℕ
height (pos n) = 1
height (negsuc n) = if n == 0 then 0 else 1

climbs : (r : Ref) → eqb_ℤ r nothing ≡ false → height nothing < height r
climbs (pos n) h = omega arith
climbs (negsuc n) h = ground arith

low : (r : Ref) → height r ≤ 1
low (pos n) = omega arith
low (negsuc n) = ground arith

eval-total_example : (b : Bool) × (eval world (pos 0) (pos 5) 2 sample (pos 6) ≡ some b)
eval-total_example =
    eval-total world (pos 0) (pos 5) depth height 1 held_below climbs low 2 sample (pos 6)
      (omega arith) (omega arith)

-- The lowest byte of U+4E0D is a carriage return, so that the rune goes where white space does; that
-- of U+00E9 is none.
trims_by_lowest_byte :
    parse world (pos 5) true (b'a' ∷ b':' ∷ 228 ∷ 184 ∷ 141 ∷ []) ≡ err empty_value
unfolding parse parse_e parse_t parse_f take_atom ends_atom trim_left is_space trim_right_runes
    drop_back last_rune reverse parse_atom split_colon forbidden parse_prop trim_left_runes
    until_space take_front first_rune
trims_by_lowest_byte = refl

keeps_letter :
    parse world (pos 5) true (b'a' ∷ b':' ∷ 195 ∷ 169 ∷ []) ≡ ok (prop (codes "a") (195 ∷ 169 ∷ []))
unfolding parse parse_e parse_t parse_f take_atom ends_atom trim_left is_space trim_right_runes
    drop_back last_rune reverse parse_atom split_colon forbidden parse_prop trim_left_runes
    drop_front until_space take_front first_rune
keeps_letter = refl
