-- ===== src/World/Move/Sound.antt =====
-- internal/world, MoveTo: the lists after a move, and the invariant.
use mathlib.Core.Path.{◌≡◌, refl}
use mathlib.Core.Logic.{◌≢◌, inl, inr}
use mathlib.Core.Bool.{Bool, false}
use mathlib.Core.Option.{none, some}
use fuzzball_emerald.Prelude.{arith, ◌∙◌, if◌then◌else◌, Option-cases}
use fuzzball_emerald.Prelude.RefMap.{◌=?◌, =?-refl, lookup, adjust, ℤ-discrete, lookup-adjust}
use fuzzball_emerald.Prelude.Int.{ℤ}
use fuzzball_emerald.Ref.{Ref, nothing}
use fuzzball_emerald.World.{
  Object, Objects, World, is_exit, head_of, set_head, set_next, relocate, stamp, chain, push, place,
  modified,
}
use fuzzball_emerald.World.Linked.{Threads, Lists, belongs}
use fuzzball_emerald.World.Detach.{Without, but}
use fuzzball_emerald.World.Place.{
  KeepsHeads, Threads-aside, Threads-beside, Threads-push, With, belongs-adjust, location-set_head,
  flags-set_head,
}
use fuzzball_emerald.World.Move.{place_of, place_of-adjust, Detached}

-- The lists and places after `x` has gone to `dest`.
pub record MovedTo (w : World) (x dest : Ref) (o : Object) (v : World) : Type 0 where
  pub threads : Threads v.objs (With x dest (is_exit o) (Without x (chain w))) (belongs v.objs)
  pub places :
      (r : Ref) → place_of v.objs r ≡ (if r =? x then some (dest, o.flags) else place_of w.objs r)
  pub top : v.top ≡ w.top

relocate-KeepsHeads : (dest : Ref) → KeepsHeads (relocate dest)
relocate-KeepsHeads dest = record { contents = λ o. refl; exits = λ o. refl }

set_next-KeepsHeads : (n : Ref) → KeepsHeads (set_next n)
set_next-KeepsHeads n = record { contents = λ o. refl; exits = λ o. refl }

stamp-KeepsHeads : (t : ℤ) → KeepsHeads (stamp t)
stamp-KeepsHeads t = record { contents = λ o. refl; exits = λ o. refl }

pub but_self : (test : Ref → Bool → Ref → Bool) (x c : Ref) (k : Bool) → but x test c k x ≡ false
but_self test x c k = ground arith

module _ (m : Objects) (lists : Lists) (x : Ref) (th : Threads m lists (but x (belongs m))) where
  Threads-relocate :
      (dest : Ref)
      → Threads (adjust x (relocate dest) m) lists (but x (belongs (adjust x (relocate dest) m)))
  Threads-relocate dest =
      Threads-aside m lists (but x (belongs m)) _ x (relocate dest) th (relocate-KeepsHeads dest)
        (but_self (belongs m) x) (λ c k y. ground (arith, lookup-adjust x y (relocate dest) m))

  Threads-set_next :
      (n : Ref)
      → Threads (adjust x (set_next n) m) lists (but x (belongs (adjust x (set_next n) m)))
  Threads-set_next n =
      Threads-aside m lists (but x (belongs m)) _ x (set_next n) th (set_next-KeepsHeads n)
        (but_self (belongs m) x) (λ c k y. ground (arith, lookup-adjust x y (set_next n) m))

Threads-stamp :
    (m : Objects) (lists : Lists) (x : Ref) (t : ℤ)
    → Threads m lists (belongs m)
    → Threads (adjust x (stamp t) m) lists (belongs (adjust x (stamp t) m))
Threads-stamp m lists x t th =
    Threads-beside m lists (belongs m) _ x (stamp t) th (stamp-KeepsHeads t) (λ o. refl)
      (λ c k o e y. belongs-adjust m x (stamp t) (λ v. refl) (λ v. refl) c k y)

-- The world is put where no list has the object.
pub Threads-nowhere :
    (m : Objects) (lists : Lists) (x : Ref) (o : Object) (k : Bool)
    → lookup nothing m ≡ none
    → lookup x m ≡ some o
    → o.location ≡ nothing
    → Threads m lists (but x (belongs m))
    → Threads m (With x nothing k lists) (belongs m)
Threads-nowhere m lists x o k dead e there th = record {
  chained =
      λ c k' v ec. let ne : (c =? nothing) ≡ false = ground arith in rw ne (th.chained c k' v ec);
  distinct =
      λ c k' v ec. let ne : (c =? nothing) ≡ false = ground arith in rw ne (th.distinct c k' v ec);
  exact = λ c k' v ec y.
      let ne : (c =? nothing) ≡ false = ground arith in
      rw ne (ground (arith, th.exact c k' v ec y));
}

pub live_of_place :
    (m g : Objects) (r : Ref) (o : Object)
    → lookup r m ≡ some o
    → place_of g r ≡ place_of m r
    → (v : Object) × (lookup r g ≡ some v) × (v.location ≡ o.location) × (v.flags ≡ o.flags)
live_of_place m g r o e same = elim (Option-cases (lookup r g)) [
  | inl h ↦ ground arith
  | inr (v, h) ↦ (v, h, ground arith, ground arith)
]

pub dead_of_place :
    (m g : Objects) (r : Ref) → lookup r m ≡ none → place_of g r ≡ place_of m r → lookup r g ≡ none
dead_of_place m g r e same = elim (Option-cases (lookup r g)) [
  | inl h ↦ h
  | inr (v, h) ↦ ground arith
]

-- What the lists and places are before the time is stamped is what they are after.
stamped :
    (w : World) (x dest : Ref) (o : Object) (u : World) (b : Object)
    → lookup x u.objs ≡ some b
    → MovedTo w x dest o u
    → MovedTo w x dest o (modified x u)
unfolding modified
stamped w x dest o u b eb h = rw eb (record {
  threads = Threads-stamp u.objs _ x u.clock h.threads;
  places = λ r. place_of-adjust u.objs x (stamp u.clock) (λ a. refl) (λ a. refl) r ∙ h.places r;
  top = h.top;
})

module _ (w v : World) (x : Ref) (o b : Object) (d : Detached w v x) (eb : lookup x v.objs ≡ some b)
    (same : b.flags ≡ o.flags) where
  relocated : (dest : Ref) → lookup x (adjust x (relocate dest) v.objs) ≡ some (relocate dest b)
  relocated dest = ground (arith, lookup-adjust x x (relocate dest) v.objs)

  places_relocated :
      (dest r : Ref)
      → place_of (adjust x (relocate dest) v.objs) r
        ≡ (if r =? x then some (dest, o.flags) else place_of w.objs r)
  places_relocated dest r = elim (ℤ-discrete x r) [
    | yes p ↦ rw (← p, relocated dest) (ground arith)
    | no p ↦
        let kept : place_of (adjust x (relocate dest) v.objs) r ≡ place_of v.objs r =
          ground (arith, lookup-adjust x r (relocate dest) v.objs) in
        rw (kept, d.places r) (ground arith)
  ]

  pub place_nowhere :
      lookup nothing w.objs ≡ none → MovedTo w x nothing o (modified x (place x nothing v))
  unfolding place
  place_nowhere dead =
      let m1 : Objects = adjust x (relocate nothing) v.objs in
      let gone : lookup nothing m1 ≡ none =
        let gone_v = dead_of_place w.objs v.objs nothing dead (d.places nothing) in
        ground (arith, lookup-adjust x nothing (relocate nothing) v.objs) in
      rw (=?-refl nothing) (
        stamped w x nothing o _ (relocate nothing b) (relocated nothing) (record {
          threads =
              Threads-nowhere m1 (Without x (chain w)) x (relocate nothing b) (is_exit o) gone
                (relocated nothing) refl
                (Threads-relocate v.objs (Without x (chain w)) x d.threads nothing);
          places = places_relocated nothing;
          top = d.top;
        }))

  module _ (dest : Ref) (c : Object) (ec : lookup dest v.objs ≡ some c) (ok : dest ≢ nothing)
      (other : x ≢ dest) where
    pub place_there : MovedTo w x dest o (modified x (place x dest v))
    unfolding place push
    place_there =
        let k : Bool = is_exit o in
        let m1 : Objects = adjust x (relocate dest) v.objs in
        let b1 : Object = relocate dest b in
        let e1 : lookup dest m1 ≡ some c =
          ground (arith, lookup-adjust x dest (relocate dest) v.objs) in
        let kind : is_exit b1 ≡ k = rw same in
        let off : (dest =? nothing) ≡ false = ground arith in
        let n : Ref = head_of k c in
        let m2 : Objects = adjust x (set_next n) m1 in
        let b2 : Object = set_next n b1 in
        let e2 : lookup x m2 ≡ some b2 =
          ground (arith, relocated dest, lookup-adjust x x (set_next n) m1) in
        let c2 : lookup dest m2 ≡ some c = ground (arith, lookup-adjust x dest (set_next n) m1) in
        let m3 : Objects = adjust dest (set_head k x) m2 in
        let e3 : lookup x m3 ≡ some b2 = ground (arith, lookup-adjust dest x (set_head k x) m2) in
        rw (off, e1, relocated dest, kind)
          (stamped w x dest o _ b2 e3 (record {
            threads =
                Threads-push m2 (Without x (chain w)) x dest k c b2
                  (Threads-set_next m1 (Without x (chain w)) x
                    (Threads-relocate v.objs (Without x (chain w)) x d.threads dest) n)
                  c2 e2 kind refl refl;
            places = λ r.
                place_of-adjust m2 dest (set_head k x) (location-set_head k x) (flags-set_head k x)
                  r
                ∙ place_of-adjust m1 x (set_next n) (λ a. refl) (λ a. refl) r
                ∙ places_relocated dest r;
            top = d.top;
          }))
