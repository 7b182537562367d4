-- ===== src/World/Env/Total.antt =====
-- internal/world/env.go: Parent ends in every world.
use Prim.Native.Nat.{ℕ, zero, suc, ◌+◌, ◌*◌, ◌≤◌, ◌<◌}
use mathlib.Core.Path.{◌≡◌, refl}
use mathlib.Core.Logic.{inl, inr}
use mathlib.Core.Bool.{Bool, true, false, ◌||◌}
use mathlib.Core.Option.{Option, none, some}
use fuzzball_emerald.Prelude.{arith, ◌==◌, ==_iff, if◌then◌else◌, ap, ◌∙◌, length, Bool-cases}
use fuzzball_emerald.Prelude.RefMap.{◌=?◌, lookup}
use fuzzball_emerald.Ref.{Ref, nothing, global_environment}
use fuzzball_emerald.World.{Objects, World}
use fuzzball_emerald.World.Env.{at_thing, parent_link, parent_loop, parent}
use fuzzball_emerald.World.Env.Orbit.{iter, Meets, walks_meet}

abbrev Answers : Option Ref → Type 0
Answers o = (p : Ref) × (o ≡ some p)

Answers-if :
    (b : Bool) (x y : Option Ref)
    → Answers x
    → (b ≡ false → Answers y)
    → Answers (if b then x else y)
Answers-if true x y h k = h
Answers-if false x y h k = k refl

module _ (m : Objects) (r : Ref) where
  -- The walks in the loop after `j` rounds: `j` links and `2 * j + 1`.
  pub walk_step :
      (n j i : ℕ)
      → parent_loop (suc n) m (iter m j r) (iter m i r) ≡ (
          if iter m (suc j) r =? iter m (suc i) r || iter m (suc j) r =? iter m (suc (suc i)) r
          then some (if iter m (suc j) r =? nothing then nothing else global_environment)
          else if iter m (suc j) r =? nothing
          then some nothing
          else if at_thing m (iter m (suc j) r)
          then parent_loop n m (iter m (suc j) r) (iter m (suc (suc i)) r)
          else some (iter m (suc j) r))
  unfolding parent_loop iter
  walk_step n j i = refl

  loop_ends :
      (n j i k : ℕ)
      → i ≡ 2 * j + 1
      → j < k
      → k ≤ j + n
      → iter m k r ≡ iter m (2 * k) r
      → (p : Ref) × (parent_loop n m (iter m j r) (iter m i r) ≡ some p)
  loop_ends zero j i k odd lt le meet = absurd (omega arith)
  loop_ends (suc n) j i k odd lt le meet = rw (walk_step n j i) (
      Answers-if
        (iter m (suc j) r =? iter m (suc i) r || iter m (suc j) r =? iter m (suc (suc i)) r) _ _
        (_, refl)
        λ apart.
          Answers-if (iter m (suc j) r =? nothing) (some nothing) _ (nothing, refl)
            λ _.
              Answers-if (at_thing m (iter m (suc j) r)) _ (some (iter m (suc j) r))
                (loop_ends n (suc j) (suc (suc i)) k (omega arith) (later apart) (omega arith) meet)
                (λ _. (iter m (suc j) r, refl)))
    where
      later :
          (iter m (suc j) r =? iter m (suc i) r || iter m (suc j) r =? iter m (suc (suc i)) r)
            ≡ false
          → suc j < k
      later apart = elim (Bool-cases (suc j == k)) [
        | inl now ↦
            let same : suc j ≡ k = (==_iff (suc j) k).0 now in
            let here : iter m (suc j) r ≡ iter m (suc i) r =
              ap (λ a. iter m a r) same ∙ meet ∙ ap (λ (a : ℕ). iter m a r) (omega (arith, same)) in
            ground arith
        | inr more ↦ ground arith
      ]

-- Parent ends in every world in which nothing stands at #-1, in one round more than there are
-- objects, also where the links of vehicles lead in a circle.
pub parent-total :
    (w : World) (r : Ref) (rounds : ℕ)
    → lookup nothing w.objs ≡ none
    → suc (length w.objs) ≤ rounds
    → (p : Ref) × (parent rounds w r ≡ some p)
unfolding parent iter parent_link
parent-total w r rounds dead enough =
    let meet : Meets w.objs r = walks_meet w.objs r dead in
    Answers-if w.secure _ _ (_, refl)
      λ _.
        loop_ends w.objs r rounds 0 1 (suc meet.after) (omega arith) (omega arith)
          (omega (arith, meet.early)) meet.meet
