-- ===== src/World/Move/Effect.antt =====
-- internal/world, MoveTo: the invariant is kept, and the order of every list is known.
use Prim.Native.Nat.{ℕ, ◌≤◌}
use mathlib.Core.Path.{◌≡◌, refl}
use mathlib.Core.Logic.{◌≢◌, ◌⊎◌, inl, inr}
use mathlib.Core.Bool.{false}
use mathlib.Core.Option.{none, some}
use fuzzball_emerald.Prelude.{arith, length, Option-cases}
use fuzzball_emerald.Prelude.RefMap.{lookup, ℤ-discrete}
use fuzzball_emerald.Ref.{Ref, nothing}
use fuzzball_emerald.World.{
  Object, World, Failure, Outcome, contains, place, modified, move_failure, move_to, done, failed,
  no_object,
}
use fuzzball_emerald.World.Linked.{IsSound, IsBelow, dead_of_below, nothing_dead, Threads-chain}
use fuzzball_emerald.World.Move.{place_of, Detached, detach-Detached}
use fuzzball_emerald.World.Move.Sound.{MovedTo, live_of_place, place_there, place_nowhere}

-- What a move that is not refused has checked.
pub record IsMove (w : World) (x dest : Ref) : Type 0 where
  pub inside :
      (dest ≡ nothing)
      ⊎ ((c : Object) × (lookup dest w.objs ≡ some c)
          × (dest ≢ nothing)
          × (x ≢ dest)
          × (contains w x dest ≡ false))

pub move_failure-IsMove :
    (w : World) (x dest : Ref) → move_failure w x dest ≡ none → IsMove w x dest
unfolding move_failure
move_failure-IsMove w x dest h = elim (ℤ-discrete dest nothing) [
  | yes p ↦ record { inside = inl p }
  | no p ↦ elim (Option-cases (lookup dest w.objs)) [
    | inl e ↦ ground arith
    | inr (c, e) ↦ record { inside = inr (c, e, p, ground arith, ground arith) }
  ]
]

module _ (w : World) (s : IsSound w) (x dest : Ref) (o : Object) (e : lookup x w.objs ≡ some o)
    (rounds : ℕ) (enough : length w.objs ≤ rounds) where
  placed :
      (v : World)
      → Detached w v x
      → IsMove w x dest
      → MovedTo w x dest o (modified x (place x dest v))
  placed v d may =
      let (b, eb, _, same) = live_of_place w.objs v.objs x o e (d.places x) in
      elim may.inside [
        | inl p ↦ rw p (place_nowhere w v x o b d eb same (nothing_dead s))
        | inr (c, ec, ok, other, _) ↦
            let (c', ec', _, _) = live_of_place w.objs v.objs dest c ec (d.places dest) in
            place_there w v x o b d eb same dest c' ec' ok other
      ]

  pub move_to-MovedTo :
      move_failure w x dest ≡ none
      → (v : World) × (move_to rounds x dest w ≡ done v) × MovedTo w x dest o v
  unfolding move_to
  move_to-MovedTo free =
      let (v, f, d) = detach-Detached w x o s e rounds enough in
      (
        modified x (place x dest v),
        rw (e, free, f) refl,
        placed v d (move_failure-IsMove w x dest free),
      )

  live_before :
      (v : World)
      → MovedTo w x dest o v
      → (r : Ref) (b : Object) → lookup r v.objs ≡ some b
      → (a : Object) × (lookup r w.objs ≡ some a)
  live_before v h r b eb = elim (ℤ-discrete r x) [
    | yes p ↦ (o, rw p e)
    | no p ↦
        let same : place_of w.objs r ≡ place_of v.objs r = ground (arith, h.places r) in
        let (a, ea, _, _) = live_of_place v.objs w.objs r b eb same in (a, ea)
  ]

  pub MovedTo-IsSound : (v : World) → MovedTo w x dest o v → IsSound v
  MovedTo-IsSound v h =
      let below : IsBelow v =
        λ r b eb. let (a, ea) = live_before v h r b eb in rw h.top (s.below r a ea) in
      record { below = below; linked = Threads-chain v (dead_of_below v below) h.threads }

  pub live_after :
      (v : World)
      → MovedTo w x dest o v
      → (r : Ref) (a : Object) → lookup r w.objs ≡ some a
      → (b : Object) × (lookup r v.objs ≡ some b)
  live_after v h r a ea = elim (Option-cases (lookup r v.objs)) [
    | inl dead ↦ ground (arith, h.places r)
    | inr (b, eb) ↦ (b, eb)
  ]

-- A move that is done leaves a world of which `P` holds; one that is refused leaves the world alone.
pub data Lands (P : World → Type 0) : Outcome → Type 0 where
  lands : {v : World} → P v → Lands P (done v)
  refused : (why : Failure) → Lands P (failed why)

pub move_to-Lands :
    (w : World) (what dest : Ref) (rounds : ℕ) (P : World → Type 0)
    → IsSound w
    → length w.objs ≤ rounds
    → ((o : Object) (v : World)
        → lookup what w.objs ≡ some o
        → IsMove w what dest
        → MovedTo w what dest o v
        → P v)
    → Lands P (move_to rounds what dest w)
move_to-Lands w what dest rounds P s enough keep = elim (Option-cases (lookup what w.objs)) [
  | inl e ↦ unfold move_to in rw e (refused no_object)
  | inr (o, e) ↦ elim (Option-cases (move_failure w what dest)) [
    | inl free ↦
        let (v, f, h) = move_to-MovedTo w s what dest o e rounds enough free in
        rw f (lands (keep o v e (move_failure-IsMove w what dest free) h))
    | inr (why, f) ↦ unfold move_to in rw (e, f) (refused why)
  ]
]

-- Where objects stand below the top, and each list of each object ends in nothing and holds
-- exactly the objects that say that they are there, none twice, a move ends, in as many rounds as
-- there are objects, and keeps all of this, or is refused.
pub move_to-IsSound :
    (w : World) (what dest : Ref) (rounds : ℕ)
    → IsSound w
    → length w.objs ≤ rounds
    → Lands IsSound (move_to rounds what dest w)
move_to-IsSound w what dest rounds s enough =
    move_to-Lands w what dest rounds IsSound s enough
      (λ o v e may h. MovedTo-IsSound w s what dest o e rounds enough v h)
