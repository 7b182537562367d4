-- ===== src/World/Env/First.antt =====
-- internal/world/env.go: what Parent finds where the links lead out of the world.
use Prim.Native.Nat.{ℕ, zero, suc, ◌+◌, ◌-◌, ◌*◌, ◌≤◌, ◌<◌}
use mathlib.Core.Path.{◌≡◌, refl}
use mathlib.Core.Logic.{◌⊎◌, inl, inr}
use mathlib.Core.Bool.{true, false, ◌||◌}
use mathlib.Core.Option.{Option, none, some}
use fuzzball_emerald.Prelude.{arith, sym, ap, ◌∙◌, length, Bool-cases}
use fuzzball_emerald.Prelude.RefMap.{◌=?◌, lookup, ℤ-discrete}
use fuzzball_emerald.Ref.{Ref, nothing}
use fuzzball_emerald.World.{Objects, World}
use fuzzball_emerald.World.Env.{at_thing, parent_link, parent_loop, parent}
use fuzzball_emerald.World.Env.Orbit.{iter, iter-suc, iter_at, iter-nothing, iter_period}
use fuzzball_emerald.World.Env.Total.{walk_step, parent-total}

-- The first object on the way out, or nothing, that is not a thing.
pub data FirstOut (m : Objects) (p : Ref) : Ref → Type 0 where
  stops : (r : Ref) → parent_link m r ≡ p → at_thing m p ≡ false → FirstOut m p r
  passes :
      (r : Ref)
      → at_thing m (parent_link m r) ≡ true
      → FirstOut m p (parent_link m r)
      → FirstOut m p r

-- Enough links lead out of the world.
pub data Leaves (m : Objects) : Ref → Type 0 where
  out : Leaves m nothing
  onward : (r : Ref) → Leaves m (parent_link m r) → Leaves m r

le_mul : (d p : ℕ) → 0 < p → d ≤ d * p
le_mul zero p h = omega arith
le_mul (suc d) p h = omega (arith, le_mul d p h)

FirstOut-cases :
    {m : Objects} {p s : Ref}
    → FirstOut m p s
    → ((parent_link m s ≡ p) × (at_thing m p ≡ false))
      ⊎ ((at_thing m (parent_link m s) ≡ true) × FirstOut m p (parent_link m s))
FirstOut-cases (stops r e f) = inl (e, f)
FirstOut-cases (passes r t h) = inr (t, h)

module _ (m : Objects) (dead : lookup nothing m ≡ none) where
  nothing_link : parent_link m nothing ≡ nothing
  unfolding parent_link
  nothing_link = rw dead

  iter_front : (k : ℕ) (r : Ref) → iter m (suc k) r ≡ iter m k (parent_link m r)
  unfolding iter
  iter_front zero r = refl
  iter_front (suc k) r = ap (parent_link m) (iter_front k r)

  steps_of_Leaves : (r : Ref) → Leaves m r → (d : ℕ) × (iter m d r ≡ nothing)
  unfolding iter
  steps_of_Leaves r out = (0, refl)
  steps_of_Leaves r (onward _ h) =
      let (d, e) = steps_of_Leaves (parent_link m r) h in (suc d, iter_front d r ∙ e)

  -- Two walks that lead out meet in nothing only.
  meet_outside :
      (r : Ref) (a b : ℕ) → Leaves m r → a < b → iter m a r ≡ iter m b r → iter m a r ≡ nothing
  meet_outside r a b h lt e =
      let (d, f) = steps_of_Leaves r h in
      let t : ℕ = a + d * (b - a) in
      iter_period m r a (b - a) d a (e ∙ iter_at m r b (a + (b - a)) (omega arith)) (omega arith)
      ∙ iter_at m r t ((t - d) + d) (omega (arith, le_mul d (b - a) (omega arith)))
      ∙ iter-nothing m r d (t - d) dead f

  first_nothing : (p s : Ref) → FirstOut m p s → parent_link m s ≡ nothing → p ≡ nothing
  first_nothing p s first e = elim (FirstOut-cases first) [
    | inl (f, _) ↦ sym f ∙ e
    | inr (t, _) ↦ ground arith
  ]

  meets_outside :
      (r : Ref) (j i : ℕ)
      → Leaves m r
      → j < i
      → (iter m (suc j) r =? iter m (suc i) r || iter m (suc j) r =? iter m (suc (suc i)) r) ≡ true
      → iter m (suc j) r ≡ nothing
  meets_outside r j i h lt met = elim (ℤ-discrete (iter m (suc j) r) (iter m (suc i) r)) [
    | yes e ↦ meet_outside r (suc j) (suc i) h (omega arith) e
    | no ne ↦ meet_outside r (suc j) (suc (suc i)) h (omega arith) (ground arith)
  ]

  loop_first :
      (r p q : Ref) (n j i : ℕ)
      → Leaves m r
      → j < i
      → FirstOut m p (iter m j r)
      → parent_loop n m (iter m j r) (iter m i r) ≡ some q
      → q ≡ p
  loop_first r p q zero j i h lt first e = unfold parent_loop in ground arith
  loop_first r p q (suc n) j i h lt first e =
      let ran = sym (walk_step m r n j i) ∙ e in
      let slow : Ref = iter m (suc j) r in
      elim (Bool-cases (slow =? iter m (suc i) r || slow =? iter m (suc (suc i)) r)) [
        | inl met ↦
            let gone : slow ≡ nothing = meets_outside r j i h lt met in
            let last : p ≡ nothing =
              first_nothing p (iter m j r) first (sym (iter-suc m j r) ∙ gone) in
            ground arith
        | inr apart ↦ elim (ℤ-discrete slow nothing) [
          | yes gone ↦
              let last : p ≡ nothing =
                first_nothing p (iter m j r) first (sym (iter-suc m j r) ∙ gone) in
              ground arith
          | no there ↦ elim (FirstOut-cases first) [
            | inl (f, s) ↦
                let found : slow ≡ p = iter-suc m j r ∙ f in
                let still : at_thing m slow ≡ false = rw found s in ground arith
            | inr (t, on) ↦
                let thing : at_thing m slow ≡ true = rw (iter-suc m j r) t in
                loop_first r p q n (suc j) (suc (suc i)) h (omega arith) (rw (iter-suc m j r) on)
                  (ground arith)
          ]
        ]
      ]

parent_unsecured :
    (w : World) (r : Ref) (rounds : ℕ) {o : Option Ref}
    → w.secure ≡ false
    → parent rounds w r ≡ o
    → parent_loop rounds w.objs (iter w.objs 0 r) (iter w.objs 1 r) ≡ o
unfolding parent iter
parent_unsecured w r rounds off e = ground arith

-- Where thing movement is not secured and the links lead out of the world, Parent answers the
-- first of them that is not a thing, or nothing where all are, in one round more than there are
-- objects.
pub parent-first :
    (w : World) (r p : Ref) (rounds : ℕ)
    → w.secure ≡ false
    → lookup nothing w.objs ≡ none
    → Leaves w.objs r
    → FirstOut w.objs p r
    → suc (length w.objs) ≤ rounds
    → parent rounds w r ≡ some p
unfolding iter
parent-first w r p rounds off dead leaves first enough =
    let (q, e) = parent-total w r rounds dead enough in
    rw e (
      ap some (
        loop_first w.objs dead r p q rounds 0 1 leaves (omega arith) first
          (parent_unsecured w r rounds off e)))
