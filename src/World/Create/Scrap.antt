-- ===== src/World/Create/Scrap.antt =====
-- internal/world, Recycle: a recycled object is on no list, and its reference is the next one used.
use Prim.Native.Nat.{ℕ, ◌≤◌}
use mathlib.Core.Path.{◌≡◌, refl}
use mathlib.Core.Logic.{inl, inr}
use mathlib.Core.Bool.{Bool, true, false}
use mathlib.Core.List.{[]}
use mathlib.Core.Option.{none, some}
use fuzzball_emerald.Prelude.{arith, sym, ◌∙◌, ◌==◌, Bytes, length, Option-cases}
use fuzzball_emerald.Prelude.Int.{ℤ}
use fuzzball_emerald.Prelude.RefMap.{
  ◌=?◌, =?-refl, lookup, adjust, lookup-adjust, adjust-same, live-adjust, dead-adjust,
}
use fuzzball_emerald.Prelude.RefList.{remove}
use fuzzball_emerald.Ref.{Ref, nothing}
use fuzzball_emerald.Ref.Flags.{type_player, type_of, with_type}
use fuzzball_emerald.World.{Object, Objects, World, is_garbage, head_of, chain, done, valid, get}
use fuzzball_emerald.World.Linked.{
  Threads, belongs, IsBelow, IsSound, nothing_dead, dead_of_below, chain-Threads, Threads-chain,
  chain_dead,
}
use fuzzball_emerald.World.Detach.{Without, but, lookup_after}
use fuzzball_emerald.World.Place.{KeepsHeads, Threads-aside, With}
use fuzzball_emerald.World.Move.{Detached, detach-Detached}
use fuzzball_emerald.World.Move.Sound.{live_of_place, dead_of_place, Threads-nowhere, but_self}
use fuzzball_emerald.World.Create.{
  scrap, scrapped, recycle, create, next_ref, first_free, unindex_player, Players,
}

-- What a scrapped object is but for its two lists, which were empty.
held_scrap : ℤ → Object → Object
held_scrap now o = record (scrap now o) { contents = o.contents; exits = o.exits }

held_scrap-KeepsHeads : (now : ℤ) → KeepsHeads (held_scrap now)
unfolding held_scrap
held_scrap-KeepsHeads now = record { contents = λ o. refl; exits = λ o. refl }

scrap-held_scrap :
    (now : ℤ) (o : Object)
    → o.contents ≡ nothing
    → o.exits ≡ nothing
    → scrap now o ≡ held_scrap now o
unfolding scrap held_scrap
scrap-held_scrap now o p q = rw (p, q) refl

scrap_place : (now : ℤ) (o : Object) → (scrap now o).location ≡ nothing
unfolding scrap
scrap_place now o = refl

held_scrap_place : (now : ℤ) (o : Object) → (held_scrap now o).location ≡ nothing
unfolding held_scrap scrap
held_scrap_place now o = refl

scrap_garbage : (now : ℤ) (o : Object) → is_garbage (scrap now o) ≡ true
unfolding scrap with_type type_of
scrap_garbage now o = refl

-- The index of players has no part in the lists.
IsSound-players : (w : World) (ps : Players) → IsSound w → IsSound (record w { players = ps })
unfolding chain
IsSound-players w ps s = record { below = s.below; linked = s.linked }

chain-players : (w : World) (ps : Players) → chain (record w { players = ps }) ≡ chain w
unfolding chain
chain-players w ps = refl

module _ (w v : World) (s : IsSound w) (r : Ref) (o : Object) (e : lookup r w.objs ≡ some o)
    (d : Detached w v r) (empty : (k : Bool) → chain w r k ≡ []) where
  no_heads : (b : Object) (k : Bool) → lookup r v.objs ≡ some b → head_of k b ≡ nothing
  no_heads b k eb =
      let none_left : remove r (chain w r k) ≡ [] = rw (empty k) refl in
      rw none_left at (d.threads.chained r k b eb)

  scrapped_objs : (scrapped r v).objs ≡ adjust r (held_scrap v.clock) v.objs
  unfolding scrapped
  scrapped_objs =
      adjust-same r (scrap v.clock) (held_scrap v.clock) v.objs
        λ b eb. scrap-held_scrap v.clock b (no_heads b false eb) (no_heads b true eb)

  scrapped-Threads :
      Threads
        (scrapped r v).objs
        (With r nothing false (Without r (chain w)))
        (belongs (scrapped r v).objs)
  scrapped-Threads =
      let g : Objects = adjust r (held_scrap v.clock) v.objs in
      let (b, eb, _, _) = live_of_place w.objs v.objs r o e (d.places r) in
      let now : lookup r g ≡ some (held_scrap v.clock b) =
        rw (lookup-adjust r r (held_scrap v.clock) v.objs, =?-refl r, eb) refl in
      let gone : lookup nothing v.objs ≡ none =
        dead_of_place w.objs v.objs nothing (nothing_dead s) (d.places nothing) in
      let gone_too : lookup nothing g ≡ none =
        rw (lookup-adjust r nothing (held_scrap v.clock) v.objs, gone) (ground arith) in
      rw scrapped_objs (
        Threads-nowhere g (Without r (chain w)) r (held_scrap v.clock b) false gone_too now
          (held_scrap_place v.clock b)
          (Threads-aside v.objs (Without r (chain w)) (but r (belongs v.objs)) (but r (belongs g)) r
            (held_scrap v.clock) d.threads (held_scrap-KeepsHeads v.clock)
            (but_self (belongs v.objs) r)
            (λ c k y. ground (arith, lookup-adjust r y (held_scrap v.clock) v.objs))))

  scrapped-IsBelow : IsBelow (scrapped r v)
  unfolding scrapped
  scrapped-IsBelow q b eb =
      let (a, (ea, _)) = lookup_after v.objs r (scrap v.clock) q b eb in
      let (c, ec, _, _) = live_of_place v.objs w.objs q a ea (sym (d.places q)) in
      rw d.top (s.below q c ec)

  scrapped-IsSound : IsSound (scrapped r v)
  scrapped-IsSound =
      let dead = dead_of_below (scrapped r v) scrapped-IsBelow in
      record {
        below = scrapped-IsBelow;
        linked = Threads-chain (scrapped r v) dead scrapped-Threads;
      }

  scrapped_chain :
      (c : Ref) (k : Bool) (co : Object)
      → lookup c w.objs ≡ some co
      → chain (scrapped r v) c k ≡ remove r (chain w c k)
  unfolding scrapped
  scrapped_chain c k co ec =
      let (a, ea, _, _) = live_of_place w.objs v.objs c co ec (d.places c) in
      let ne : (c =? nothing) ≡ false = ground (arith, nothing_dead s) in
      let (u, eu) = live-adjust r c (scrap v.clock) a v.objs ea in
      chain-Threads (scrapped r v) (dead_of_below (scrapped r v) scrapped-IsBelow) scrapped-Threads
        c k u eu
      ∙ rw ne refl

  scrapped_chains : (c : Ref) (k : Bool) → chain (scrapped r v) c k ≡ remove r (chain w c k)
  unfolding scrapped
  scrapped_chains c k = elim (Option-cases (lookup c w.objs)) [
    | inl none_there ↦
        let gone =
          dead-adjust r c (scrap v.clock) v.objs
            (dead_of_place w.objs v.objs c none_there (d.places c)) in
        chain_dead (scrapped r v) c k gone ∙ rw (chain_dead w c k none_there) refl
    | inr (co, ec) ↦ scrapped_chain c k co ec
  ]

valid_object :
    (w : World) (r : Ref)
    → valid w r ≡ true
    → (o : Object) × (lookup r w.objs ≡ some o) × (is_garbage o ≡ false)
unfolding valid get
valid_object w r h = elim (Option-cases (lookup r w.objs)) [
  | inl e ↦ ground arith
  | inr (o, e) ↦ (o, e, ground arith)
]

scrapped_gone :
    (u : World) (r : Ref) (b : Object) → lookup r u.objs ≡ some b → valid (scrapped r u) r ≡ false
unfolding valid get scrapped
scrapped_gone u r b e =
    rw (lookup-adjust r r (scrap u.clock) u.objs, =?-refl r, e, scrap_garbage u.clock b) refl

next_scrapped :
    (u : World) (r : Ref) (name : Bytes) (type : ℕ) (owner : Ref) (b : Object)
    → lookup r u.objs ≡ some b
    → (type == type_player) ≡ false
    → (create name type owner (scrapped r u)).0 ≡ r
unfolding create next_ref first_free scrapped
next_scrapped u r name type owner b e other =
    rw (other, lookup-adjust r r (scrap u.clock) u.objs, =?-refl r, e, scrap_garbage u.clock b) refl

recycle_runs :
    (w : World) (r : Ref) (rounds : ℕ)
    → IsSound w
    → length w.objs ≤ rounds
    → valid w r ≡ true
    → (ps : Players) × (o : Object) × (u : World) × (lookup r w.objs ≡ some o)
      × Detached (record w { players = ps }) u r
      × (recycle rounds r w ≡ done (scrapped r u))
unfolding recycle
recycle_runs w r rounds s enough ok =
    let (o, e, kind) = valid_object w r ok in
    let ps : Players = unindex_player o w.players in
    let w0 : World = record w { players = ps } in
    let (u, f, d) = detach-Detached w0 r o (IsSound-players w ps s) e rounds enough in
    (ps, o, u, e, d, rw (e, kind, f) refl)

-- In a world whose lists agree with its locations, an object that holds nothing is recycled, in as
-- many rounds as there are objects; the lists agree again, and differ by this object only.
pub recycle-IsSound :
    (w : World) (r : Ref) (rounds : ℕ)
    → IsSound w
    → length w.objs ≤ rounds
    → valid w r ≡ true
    → ((k : Bool) → chain w r k ≡ [])
    → (v : World) × (recycle rounds r w ≡ done v)
      × IsSound v
      × ((c : Ref) (k : Bool) → chain v c k ≡ remove r (chain w c k))
recycle-IsSound w r rounds s enough ok empty =
    let (ps, o, u, e, d, ran) = recycle_runs w r rounds s enough ok in
    let w0 : World = record w { players = ps } in
    let s0 : IsSound w0 = IsSound-players w ps s in
    let bare : (k : Bool) → chain w0 r k ≡ [] = λ k. rw (chain-players w ps) (empty k) in
    (
      scrapped r u,
      ran,
      scrapped-IsSound w0 u s0 r o e d bare,
      λ c k. scrapped_chains w0 u s0 r o e d bare c k ∙ rw (chain-players w ps) refl,
    )

-- In a world whose lists agree with its locations, an object that is recycled is no longer valid,
-- and what is made next takes its reference, unless it is a player.
pub create-recycle :
    (w : World) (r : Ref) (rounds : ℕ)
    → IsSound w
    → length w.objs ≤ rounds
    → valid w r ≡ true
    → (v : World) × (recycle rounds r w ≡ done v)
      × (valid v r ≡ false)
      × ((name : Bytes) (type : ℕ) (owner : Ref)
          → (type == type_player) ≡ false
          → (create name type owner v).0 ≡ r)
create-recycle w r rounds s enough ok =
    let (ps, o, u, e, d, ran) = recycle_runs w r rounds s enough ok in
    let (b, eb, _, _) = live_of_place w.objs u.objs r o e (d.places r) in
    (
      scrapped r u,
      ran,
      scrapped_gone u r b eb,
      λ name type owner other. next_scrapped u r name type owner b eb other,
    )
