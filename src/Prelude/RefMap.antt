-- ===== src/Prelude/RefMap.antt =====
-- A map whose keys are integers, as the list of its entries: what the code keeps in a Go map, with
-- each entry behind a pointer that `adjust` writes through.
use mathlib.Core.Path.{◌≡◌, refl, ◌∙◌}
use mathlib.Core.Bool.{Bool, true, false}
use mathlib.Core.List.{List, [], ◌∷◌}
use mathlib.Core.Option.{Option, none, some}
use native.Mathlib.Omega.{arith}
use native.Mathlib.Decide.{ℕ_discrete}
use fuzzball_emerald.Prelude.Tests.{if◌then◌else◌}
use fuzzball_emerald.Prelude.Lists.{length}
use fuzzball_emerald.Prelude.Int.{ℤ}

unfoldable pub ℤ-discrete : Discrete ℤ
unfolding ℕ_discrete
ℤ-discrete = hlevel ℕ_discrete

-- Equality of references, on the decision, so that its two cases carry their proofs.
infix 50 ◌=?◌
abbrev pub ◌=?◌ : ℤ → ℤ → Bool
a =? b = elim (ℤ-discrete a b) [ yes _ ↦ true | no _ ↦ false ]

pub =?-refl : (a : ℤ) → (a =? a) ≡ true
=?-refl a = ground arith

pub eq_of_=? : (a b : ℤ) → (a =? b) ≡ true → a ≡ b
eq_of_=? a b h = ground arith

pub =?-comm : (a b : ℤ) → (a =? b) ≡ (b =? a)
=?-comm a b = ground arith

module _ {V : Type 0} where
  unfoldable pub lookup : ℤ → List (ℤ × V) → Option V
  lookup k [] = none
  lookup k ((j, v) ∷ m) = if j =? k then some v else lookup k m

  unfoldable pub insert : ℤ → V → List (ℤ × V) → List (ℤ × V)
  insert k v [] = (k, v) ∷ []
  insert k v ((j, w) ∷ m) = if j =? k then (k, v) ∷ m else (j, w) ∷ insert k v m

  unfoldable pub adjust : ℤ → (V → V) → List (ℤ × V) → List (ℤ × V)
  adjust k f [] = []
  adjust k f ((j, v) ∷ m) = if j =? k then (j, f v) ∷ m else (j, v) ∷ adjust k f m

  abbrev pub map_some : (V → V) → Option V → Option V
  map_some f none = none
  map_some f (some v) = some (f v)

  pub lookup-insert :
      (k j : ℤ) (v : V) (m : List (ℤ × V))
      → lookup j (insert k v m) ≡ (if k =? j then some v else lookup j m)
  unfolding lookup insert
  lookup-insert k j v [] = refl
  lookup-insert k j v ((i, w) ∷ m) = ground (arith, lookup-insert k j v m)

  pub lookup-adjust :
      (k j : ℤ) (f : V → V) (m : List (ℤ × V))
      → lookup j (adjust k f m) ≡ (if k =? j then map_some f (lookup j m) else lookup j m)
  unfolding lookup adjust
  lookup-adjust k j f [] = ground arith
  lookup-adjust k j f ((i, w) ∷ m) = ground (arith, lookup-adjust k j f m)

  pub length-adjust : (k : ℤ) (f : V → V) (m : List (ℤ × V)) → length (adjust k f m) ≡ length m
  unfolding adjust
  length-adjust k f [] = refl
  length-adjust k f ((i, w) ∷ m) = ground (arith, length-adjust k f m)

  -- What stands at other keys does not matter to a write.
  pub adjust-same :
      (k : ℤ) (f g : V → V) (m : List (ℤ × V))
      → ((v : V) → lookup k m ≡ some v → f v ≡ g v)
      → adjust k f m ≡ adjust k g m
  unfolding adjust lookup
  adjust-same k f g [] same = refl
  adjust-same k f g ((j, v) ∷ m) same = elim (ℤ-discrete j k) [
    | yes p ↦ ground (arith, same v)
    | no p ↦
        let skip : (if j =? k then some v else lookup k m) ≡ lookup k m = ground arith in
        ground (arith, adjust-same k f g m (λ u e. same u (skip ∙ e)))
  ]

  pub live-adjust :
      (k j : ℤ) (f : V → V) (v : V) (m : List (ℤ × V))
      → lookup j m ≡ some v
      → (u : V) × (lookup j (adjust k f m) ≡ some u)
  live-adjust k j f v m e = elim (ℤ-discrete k j) [
    | yes p ↦ (f v, ground (arith, lookup-adjust k j f m))
    | no p ↦ (v, ground (arith, lookup-adjust k j f m))
  ]

  pub dead-adjust :
      (k j : ℤ) (f : V → V) (m : List (ℤ × V)) → lookup j m ≡ none → lookup j (adjust k f m) ≡ none
  dead-adjust k j f m e = ground (arith, lookup-adjust k j f m)
