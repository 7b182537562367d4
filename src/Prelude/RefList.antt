-- ===== src/Prelude/RefList.antt =====
-- Lists of references without repetition: membership, removal, and how many there can be.
use Prim.Native.Nat.{suc, ◌≤◌}
use mathlib.Core.Path.{◌≡◌, refl}
use mathlib.Core.Logic.{◌≢◌}
use mathlib.Core.Bool.{Bool, true, false, not, ◌&&◌, ◌||◌}
use mathlib.Core.List.{List, [], ◌∷◌, ◌++◌}
use mathlib.Core.Option.{none}
use native.Mathlib.Omega.{arith}
use fuzzball_emerald.Prelude.Tests.{if◌then◌else◌}
use fuzzball_emerald.Prelude.Lists.{length}
use fuzzball_emerald.Prelude.Int.{ℤ}
use fuzzball_emerald.Prelude.RefMap.{◌=?◌, lookup}

abbrev pub has : ℤ → List ℤ → Bool
has x [] = false
has x (y ∷ ys) = x =? y || has x ys

abbrev pub Distinct : List ℤ → Type 0
Distinct [] = Unit
Distinct (x ∷ xs) = (has x xs ≡ false) × Distinct xs

-- The list without the first occurrence of `x`.
abbrev pub remove : ℤ → List ℤ → List ℤ
remove x [] = []
remove x (y ∷ ys) = if y =? x then ys else y ∷ remove x ys

pub has-append : (x : ℤ) (xs ys : List ℤ) → has x (xs ++ ys) ≡ (has x xs || has x ys)
has-append x [] ys = refl
has-append x (y ∷ xs) ys = ground (arith, has-append x xs ys)

pub has-remove :
    (x y : ℤ) (xs : List ℤ) → Distinct xs → has y (remove x xs) ≡ (has y xs && not (y =? x))
has-remove x y [] d = refl
has-remove x y (z ∷ zs) d = ground (arith, has-remove x y zs d.1)

pub remove-of_out : (x : ℤ) (xs : List ℤ) → has x xs ≡ false → remove x xs ≡ xs
remove-of_out x [] h = refl
remove-of_out x (y ∷ ys) h = ground (arith, remove-of_out x ys)

pub Distinct-remove : (x : ℤ) (xs : List ℤ) → Distinct xs → Distinct (remove x xs)
Distinct-remove x [] d = tt
Distinct-remove x (y ∷ ys) d = ground (arith, has-remove x y ys d.1, Distinct-remove x ys d.1)

pub length-remove : (x : ℤ) (xs : List ℤ) → length xs ≤ suc (length (remove x xs))
length-remove x [] = omega arith
length-remove x (y ∷ ys) = ground (arith, length-remove x ys)

-- References that are none twice and all keys of a map are no more than its entries.
pub length-le_of_keys :
    {V : Type 0} (m : List (ℤ × V)) (xs : List ℤ)
    → Distinct xs
    → ((x : ℤ) → has x xs ≡ true → lookup x m ≢ none)
    → length xs ≤ length m
unfolding lookup
length-le_of_keys [] [] d h = omega arith
length-le_of_keys [] (x ∷ xs) d h = ground (arith, h x)
length-le_of_keys ((j, v) ∷ m) xs d h = omega (
  arith,
  length-remove j xs,
  length-le_of_keys m (remove j xs) (Distinct-remove j xs d)
      λ x i. ground (arith, has-remove j x xs d, h x),
)
