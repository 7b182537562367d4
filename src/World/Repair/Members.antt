-- ===== src/World/Repair/Members.antt =====
-- internal/world/repair.go: sameMembers tells whether two lists have the same references, the first
-- none twice.
use Prim.Native.Nat.{suc}
use mathlib.Core.Path.{◌≡◌, refl}
use mathlib.Core.Bool.{true}
use mathlib.Core.List.{List, [], ◌∷◌}
use fuzzball_emerald.Prelude.{arith, sym, ◌∙◌, length}
use fuzzball_emerald.Prelude.RefList.{has, remove, Distinct, Distinct-remove, has-remove}
use fuzzball_emerald.Ref.{Ref}
use fuzzball_emerald.World.Repair.{seen_of, strike, same_members}

has-seen_of : (x : Ref) (rs : List Ref) → has x (seen_of rs) ≡ has x rs
unfolding seen_of
has-seen_of x [] = refl
has-seen_of x (r ∷ rs) = ground (arith, has-seen_of x rs)

Distinct-seen_of : (rs : List Ref) → Distinct (seen_of rs)
unfolding seen_of
Distinct-seen_of [] = tt
Distinct-seen_of (r ∷ rs) = ground (arith, Distinct-seen_of rs)

strike-same :
    (rs seen : List Ref)
    → Distinct seen
    → strike rs seen ≡ true
    → Distinct rs × ((x : Ref) → has x rs ≡ has x seen)
unfolding strike
strike-same [] [] d h = (tt, λ x. refl)
strike-same [] (s ∷ seen) d h = ground arith
strike-same (r ∷ rs) seen d h =
    let i : has r seen ≡ true = ground arith in
    let (e, same) = strike-same rs (remove r seen) (Distinct-remove r seen d) (ground arith) in
    (
      (ground (arith, same r, has-remove r r seen d), e),
      λ x. ground (arith, same x, has-remove r x seen d),
    )

strike_complete :
    (rs seen : List Ref)
    → Distinct seen
    → Distinct rs
    → ((x : Ref) → has x rs ≡ has x seen)
    → strike rs seen ≡ true
unfolding strike
strike_complete [] [] d e same = refl
strike_complete [] (s ∷ seen) d e same = ground (arith, same s)
strike_complete (r ∷ rs) seen d e same = ground (
  arith,
  same r,
  strike_complete rs (remove r seen) (Distinct-remove r seen d) e.1
      (λ x. ground (arith, same x, has-remove r x seen d)),
)

length-remove_in :
    (x : Ref) (xs : List Ref) → has x xs ≡ true → length xs ≡ suc (length (remove x xs))
length-remove_in x [] i = ground arith
length-remove_in x (y ∷ ys) i = ground (arith, length-remove_in x ys)

-- Distinct lists of the same references are equally long.
length_of_same :
    (xs ys : List Ref)
    → Distinct xs
    → Distinct ys
    → ((x : Ref) → has x xs ≡ has x ys)
    → length xs ≡ length ys
length_of_same [] [] d e same = refl
length_of_same [] (y ∷ ys) d e same = ground (arith, same y)
length_of_same (x ∷ xs) ys d e same = omega (
  arith,
  length-remove_in x ys (ground (arith, same x)),
  length_of_same xs (remove x ys) d.1 (Distinct-remove x ys e)
      (λ z. ground (arith, same z, has-remove x z ys e)),
)

pub same_members-same :
    (a b : List Ref) → same_members a b ≡ true → Distinct a × ((x : Ref) → has x a ≡ has x b)
unfolding same_members
same_members-same a b h =
    let (d, same) = strike-same a (seen_of b) (Distinct-seen_of b) (ground arith) in
    (d, λ x. same x ∙ has-seen_of x b)

pub same_members_complete :
    (a b : List Ref)
    → Distinct a
    → Distinct b
    → ((x : Ref) → has x a ≡ has x b)
    → same_members a b ≡ true
unfolding same_members
same_members_complete a b d e same = ground (
  arith,
  length_of_same a b d e same,
  strike_complete a (seen_of b) (Distinct-seen_of b) d (λ x. same x ∙ sym (has-seen_of x b)),
)
