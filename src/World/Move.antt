-- ===== src/World/Move.antt =====
-- internal/world, MoveTo: what a move does to the lists of a world whose lists agree with its locations.
pub mod Sound
pub mod Effect
use Prim.Native.Nat.{ℕ, zero, suc, ◌≤◌}
use mathlib.Core.Path.{◌≡◌, refl}
use mathlib.Core.Logic.{◌≢◌, inl, inr}
use mathlib.Core.Bool.{Bool, true, false, not, ◌&&◌}
use mathlib.Core.List.{List, [], ◌∷◌}
use mathlib.Core.Option.{Option, none, some}
use fuzzball_emerald.Prelude.{arith, sym, ◌∙◌, length, if◌then◌else◌, Bool-cases, Option-cases}
use fuzzball_emerald.Prelude.RefMap.{◌=?◌, lookup, adjust, ℤ-discrete, lookup-adjust}
use fuzzball_emerald.Prelude.RefList.{has, remove, Distinct, remove-of_out}
use fuzzball_emerald.Ref.{Ref, nothing}
use fuzzball_emerald.Ref.Flags.{Flags}
use fuzzball_emerald.World.{
  Object, Objects, World, on_some, is_exit, head_of, set_head, set_next, mark, update, chain,
  unlink, unlink_loop, remove_from_chain, detach,
}
use fuzzball_emerald.World.Linked.{
  next_of, IsChain, Threads, Lists, belongs, agrees, IsSound, nothing_dead, length-IsChain,
}
use fuzzball_emerald.World.Unlink.{Unlinked, unlink_loop-Unlinked}
use fuzzball_emerald.World.Detach.{Without, but, Threads-head, Threads-before}
use fuzzball_emerald.World.Place.{agrees_refl, belongs-adjust, location-set_head, flags-set_head}

-- Where an object is and what it is.
abbrev pub place_of : Objects → Ref → Option (Ref × Flags)
place_of m r = on_some (lookup r m) none λ o. some (o.location, o.flags)

module _ (m : Objects) (x : Ref) (f : Object → Object)
    (location : (o : Object) → (f o).location ≡ o.location)
    (flags : (o : Object) → (f o).flags ≡ o.flags) where
  pub place_of-adjust : (r : Ref) → place_of (adjust x f m) r ≡ place_of m r
  place_of-adjust r = elim (Option-cases (lookup r m)) [
    | inl e ↦ ground (arith, lookup-adjust x r f m)
    | inr (v, e) ↦ ground (arith, lookup-adjust x r f m, location v, flags v)
  ]

-- The world once `x` is off its list: nothing but links has changed.
pub record Detached (w v : World) (x : Ref) : Type 0 where
  pub threads : Threads v.objs (Without x (chain w)) (but x (belongs v.objs))
  pub places : (r : Ref) → place_of v.objs r ≡ place_of w.objs r
  pub top : v.top ≡ w.top
  pub clock : v.clock ≡ w.clock

module _ (w : World) (x : Ref) (o : Object) (s : IsSound w) (e : lookup x w.objs ≡ some o) where
  x_ok : x ≢ nothing
  x_ok p = ground (arith, nothing_dead s)

  on_own_list : belongs w.objs o.location (is_exit o) x ≡ true
  on_own_list = rw e (ground (arith, agrees_refl (is_exit o)))

  -- The object is on no list.
  absent :
      ((c : Ref) (k : Bool) (co : Object)
        → lookup c w.objs ≡ some co
        → belongs w.objs c k x ≡ false)
      → Detached w w x
  absent out = record {
    threads = record {
      chained = λ c k co ec.
          rw (remove-of_out x (chain w c k) (s.linked.exact c k co ec x ∙ out c k co ec))
            (s.linked.chained c k co ec);
      distinct = λ c k co ec.
          rw (remove-of_out x (chain w c k) (s.linked.exact c k co ec x ∙ out c k co ec))
            (s.linked.distinct c k co ec);
      exact = λ c k co ec y.
          rw (remove-of_out x (chain w c k) (s.linked.exact c k co ec x ∙ out c k co ec))
            (ground (arith, s.linked.exact c k co ec y, out c k co ec));
    };
    places = λ r. refl;
    top = refl;
    clock = refl;
  }

  -- A change of links at `q` that leaves the lists without `x`.
  relinked :
      (q : Ref) (f : Object → Object) (d : List Ref)
      → ((v : Object) → (f v).location ≡ v.location)
      → ((v : Object) → (f v).flags ≡ v.flags)
      → Threads (adjust q f w.objs) (Without x (chain w)) (but x (belongs w.objs))
      → Detached w (record w { objs = adjust q f w.objs; dirty = d }) x
  relinked q f d location flags th = record {
    threads = record {
      chained = th.chained;
      distinct = th.distinct;
      exact =
          λ c k co ec y. rw (belongs-adjust w.objs q f location flags c k y) (th.exact c k co ec y);
    };
    places = place_of-adjust w.objs q f location flags;
    top = refl;
    clock = refl;
  }

  module _ (co : Object) (ec : lookup o.location w.objs ≡ some co) (rounds : ℕ)
      (enough : length w.objs ≤ rounds) where
    unlink-Detached : (v : World) × (unlink rounds w o.location x co o ≡ some v) × Detached w v x
    unfolding unlink
    unlink-Detached =
        let k : Bool = is_exit o in
        let xs : List Ref = chain w o.location k in
        let h : IsChain w.objs (head_of k co) xs = s.linked.chained o.location k co ec in
        elim (ℤ-discrete (head_of k co) x) [
          | yes p ↦ (
            mark o.location (update o.location (set_head k o.next) w),
            ground arith,
            relinked o.location (set_head k o.next) _ (location-set_head k o.next)
                (flags-set_head k o.next)
                (Threads-head w.objs (chain w) x o.location k s.linked on_own_list x_ok co o ec e
                  p),
          )
          | no p ↦
              let u : Unlinked w o.location x o.next (head_of k co) xs
                  (unlink_loop rounds w o.location x o.next (head_of k co)) =
                unlink_loop-Unlinked w o.location x o.next (nothing_dead s) (rw e) rounds
                  (head_of k co) xs h (s.linked.distinct o.location k co ec)
                  (rw (s.linked.exact o.location k co ec x) on_own_list) p
                  (omega (
                    arith,
                    length-IsChain w.objs (head_of k co) xs h
                        (s.linked.distinct o.location k co ec),
                  )) in
              (
                mark o.location (mark u.before (update u.before (set_next o.next) w)),
                ground (arith, u.ends),
                relinked u.before (set_next o.next) _ (λ v. refl) (λ v. refl)
                    (Threads-before w.objs (chain w) x o.location k s.linked on_own_list x_ok co o
                      u.before ec u.on_list u.relinked),
              )
        ]

  pub detach-Detached :
      (rounds : ℕ)
      → length w.objs ≤ rounds
      → (v : World) × (detach rounds w x o.location ≡ some v) × Detached w v x
  unfolding detach remove_from_chain
  detach-Detached rounds enough = elim (ℤ-discrete o.location nothing) [
    | yes p ↦ (w, ground arith, absent λ c k co ec. rw e (ground (arith, nothing_dead s)))
    | no p ↦ elim (Option-cases (lookup o.location w.objs)) [
      | inl dead ↦ (w, ground arith, absent λ c k co ec. rw e (ground arith))
      | inr (co, ec) ↦
          let (v, f, d) = unlink-Detached co ec rounds enough in (v, rw (ec, e) (ground arith), d)
    ]
  ]
