-- ===== src/World/Inside/Moves.antt =====
-- internal/world, MoveTo: a move that the world allows is done, and what it does.
use Prim.Native.Nat.{ℕ, ◌≤◌}
use mathlib.Core.Path.{◌≡◌}
use mathlib.Core.Logic.{◌≢◌, ◌⊎◌, inl, inr}
use mathlib.Core.Bool.{Bool, true, false, ◌&&◌}
use mathlib.Core.List.{◌∷◌}
use mathlib.Core.Option.{none, some}
use fuzzball_emerald.Prelude.{arith, if◌then◌else◌, length, Bool-cases}
use fuzzball_emerald.Prelude.RefMap.{◌=?◌, lookup}
use fuzzball_emerald.Prelude.RefList.{remove}
use fuzzball_emerald.Ref.{Ref, nothing}
use fuzzball_emerald.World.{
  Object, World, is_live, is_exit, chain, contains, move_failure, move_to, done,
}
use fuzzball_emerald.World.Linked.{agrees, IsSound, nothing_dead, chain-Threads}
use fuzzball_emerald.World.Inside.{Inside, at_self, contains_iff}
use fuzzball_emerald.World.Move.{place_of}
use fuzzball_emerald.World.Move.Effect.{move_to-MovedTo, MovedTo-IsSound, live_after}

-- A place to move to: nowhere, or an object that is not inside what moves.
abbrev pub MayHold : World → (what dest : Ref) → Type 0
MayHold w what dest =
    (dest ≡ nothing) ⊎ ((is_live (lookup dest w.objs) ≡ true) × ¬ Inside w.objs what dest)

allowed :
    (w : World) (what dest : Ref)
    → what ≢ nothing
    → MayHold w what dest
    → move_failure w what dest ≡ none
unfolding move_failure
allowed w what dest ok (inl p) = ground arith
allowed w what dest ok (inr (live, free)) =
    let other : what ≢ dest = λ p. free (rw (← p) (at_self ok)) in
    let out : contains w what dest ≡ false = elim (Bool-cases (contains w what dest)) [
      | inl c ↦ absurd (free ((contains_iff w what dest).0 c))
      | inr c ↦ c
    ] in
    ground arith

-- In such a world a move to nowhere, or to an object that is not inside what moves, is done. Then
-- the object is where it was sent, and every other where it was; it is the first on the list of
-- its kind of the new container, off every list besides, and the order of every list is otherwise
-- what it was.
pub chain-move_to :
    (w : World) (what dest : Ref) (o : Object) (rounds : ℕ)
    → IsSound w
    → length w.objs ≤ rounds
    → lookup what w.objs ≡ some o
    → MayHold w what dest
    → (v : World) × (move_to rounds what dest w ≡ done v)
      × ((r : Ref)
          → place_of v.objs r ≡ (if r =? what then some (dest, o.flags) else place_of w.objs r))
      × ((c : Ref) (k : Bool) (co : Object)
          → lookup c w.objs ≡ some co
          → chain v c k ≡ (
              if (c =? dest) && agrees (is_exit o) k
              then what ∷ remove what (chain w c k)
              else remove what (chain w c k)))
chain-move_to w what dest o rounds s enough e may =
    let ok : what ≢ nothing = λ p. ground (arith, nothing_dead s) in
    let (v, f, h) = move_to-MovedTo w s what dest o e rounds enough (allowed w what dest ok may) in
    (
      v,
      f,
      h.places,
      λ c k co ec.
          let (b, eb) = live_after w s what dest o e rounds enough v h c co ec in
          chain-Threads v (nothing_dead (MovedTo-IsSound w s what dest o e rounds enough v h))
            h.threads c k b eb,
    )
