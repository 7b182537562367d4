-- ===== src/World/Repair/OneList.antt =====
-- internal/world/repair.go: one list of one container, compared and rebuilt where it is wrong.
use Prim.Native.Nat.{ℕ, zero, suc, ◌≤◌, ◌<◌}
use mathlib.Core.Path.{◌≡◌, refl}
use mathlib.Core.Logic.{inl, inr}
use mathlib.Core.Bool.{Bool, true, false, ◌&&◌}
use mathlib.Core.List.{[], ◌∷◌}
use mathlib.Core.Option.{some}
use fuzzball_emerald.Prelude.{arith, sym, ◌∙◌, length, Bool-cases, Option-cases}
use fuzzball_emerald.Prelude.RefMap.{◌=?◌, lookup, ℤ-discrete}
use fuzzball_emerald.Prelude.RefList.{has, Distinct, length-le_of_keys}
use fuzzball_emerald.Ref.{Ref, nothing}
use fuzzball_emerald.World.{Object, Objects, World, is_live, head_of, chain, chain_loop}
use fuzzball_emerald.World.Linked.{agrees, IsChain, belongs, IsBelow}
use fuzzball_emerald.World.Detach.{belongs_once}
use fuzzball_emerald.World.Move.{place_of}
use fuzzball_emerald.World.Move.Sound.{live_of_place, dead_of_place}
use fuzzball_emerald.World.Place.{agrees_refl}
use fuzzball_emerald.World.Repair.{WantedLists, same_members, relink, repair_list}
use fuzzball_emerald.World.Repair.Wanted.{Wants}
use fuzzball_emerald.World.Repair.Members.{same_members-same}
use fuzzball_emerald.World.Repair.Relink.{
  IsGood, relink-places, relink-top, relink-IsGood, relink-others,
}

-- A chain that the bounded walk reads whole is one that ends in nothing.
chain_loop-ends :
    (m : Objects) (n : ℕ) (r : Ref)
    → ((x : Ref) → has x (chain_loop n m r) ≡ true → is_live (lookup x m) ≡ true)
    → length (chain_loop n m r) < n
    → IsChain m r (chain_loop n m r)
unfolding chain_loop
chain_loop-ends m zero r live lt = absurd (omega arith)
chain_loop-ends m (suc n) r live lt = elim (ℤ-discrete r nothing) [
  | yes p ↦ let read : chain_loop (suc n) m r ≡ [] = ground arith in rw read p
  | no p ↦ elim (Option-cases (lookup r m)) [
    | inl e ↦ let read : chain_loop (suc n) m r ≡ r ∷ [] = ground arith in ground (arith, live r)
    | inr (o, e) ↦
        let read : chain_loop (suc n) m r ≡ r ∷ chain_loop n m o.next = ground arith in
        rw read (
          refl,
          (
            o.next,
            rw e refl,
            chain_loop-ends m n o.next (λ x i. live x (rw read (ground arith))) (ground arith),
          ),
        )
  ]
]

pub chain_read :
    (v : World) (c : Ref) (k : Bool) (a : Object)
    → lookup c v.objs ≡ some a
    → chain v c k ≡ chain_loop (suc (length v.objs)) v.objs (head_of k a)
unfolding chain
chain_read v c k a e = rw e refl

chain-ends :
    (v : World) (c : Ref) (k : Bool) (a : Object)
    → lookup c v.objs ≡ some a
    → Distinct (chain v c k)
    → ((x : Ref) → has x (chain v c k) ≡ true → is_live (lookup x v.objs) ≡ true)
    → IsChain v.objs (head_of k a) (chain v c k)
chain-ends v c k a e d live =
    let read = chain_read v c k a e in
    let short : length (chain v c k) ≤ length v.objs =
      length-le_of_keys v.objs (chain v c k) d (λ x i. ground (arith, live x)) in
    let fits : length (chain v c k) < suc (length v.objs) = omega (arith, short) in
    rw read (
      chain_loop-ends v.objs (suc (length v.objs)) (head_of k a) (rw read at live)
        (rw read at fits))

pub belongs_of_places :
    (m g : Objects) (c : Ref) (k : Bool) (x : Ref)
    → place_of g x ≡ place_of m x
    → belongs g c k x ≡ belongs m c k x
belongs_of_places m g c k x same = elim (Option-cases (lookup x m)) [
  | inl e ↦ rw (e, dead_of_place m g x e same) refl
  | inr (o, e) ↦ let (v, f, p, q) = live_of_place m g x o e same in rw (e, f, p, q) refl
]

pub IsGood-test :
    (m : Objects) (c : Ref) (k : Bool) (test test' : Ref → Bool)
    → ((x : Ref) → test x ≡ test' x)
    → IsGood m c k test
    → IsGood m c k test'
IsGood-test m c k test test' same h = record {
  members = h.members;
  chained = h.chained;
  distinct = h.distinct;
  exact = λ x. h.exact x ∙ same x;
}

live_of_belongs :
    (m : Objects) (c : Ref) (k : Bool) (x : Ref)
    → belongs m c k x ≡ true
    → is_live (lookup x m) ≡ true
live_of_belongs m c k x h = ground arith

-- The world that is being repaired, beside the one it was: places and top are the same.
pub record IsUnder (w v : World) : Type 0 where
  pub places : (r : Ref) → place_of v.objs r ≡ place_of w.objs r
  pub top : v.top ≡ w.top

module _ (w : World) (below : IsBelow w) (wanted : WantedLists) (wants : Wants w.objs wanted) where
  -- A list that is as wanted is right.
  same-IsGood :
      (v : World) (c : Ref) (k : Bool) (o : Object)
      → IsUnder w v
      → lookup c w.objs ≡ some o
      → same_members (chain v c k) (wanted k c) ≡ true
      → IsGood v.objs c k (belongs w.objs c k)
  same-IsGood v c k o u e h =
      let (a, ea, _, _) = live_of_place w.objs v.objs c o e (u.places c) in
      let (d, same) = same_members-same (chain v c k) (wanted k c) h in
      record {
        members = chain v c k;
        chained = λ r f.
            let first : head_of k a ≡ r = ground arith in
            rw (← first) (
              chain-ends v c k a ea d λ x i. live_of_belongs v.objs c k x (
                belongs_of_places w.objs v.objs c k x (u.places x)
                ∙ sym (wants.exact c k o e x)
                ∙ sym (same x)
                ∙ i));
        distinct = d;
        exact = λ x. same x ∙ wants.exact c k o e x;
      }

  module _ (v : World) (c : Ref) (k : Bool) (o : Object) (u : IsUnder w v)
      (e : lookup c w.objs ≡ some o) where
    wanted_live : (x : Ref) → has x (wanted k c) ≡ true → is_live (lookup x v.objs) ≡ true
    wanted_live x i =
        live_of_belongs v.objs c k x
          (belongs_of_places w.objs v.objs c k x (u.places x) ∙ sym (wants.exact c k o e x) ∙ i)

    -- One list is made right, and the others stay right.
    pub record Step (s : World × Bool) : Type 0 where
      pub under : IsUnder w s.0
      pub good : IsGood s.0.objs c k (belongs w.objs c k)
      pub others :
          (c' : Ref) (k' : Bool)
          → ((c =? c') && agrees k k') ≡ false
          → IsGood v.objs c' k' (belongs w.objs c' k')
          → IsGood s.0.objs c' k' (belongs w.objs c' k')

    wanted_apart :
        (c' : Ref) (k' : Bool)
        → ((c =? c') && agrees k k') ≡ false
        → (x : Ref) → belongs w.objs c' k' x ≡ true
        → has x (wanted k c) ≡ false
    wanted_apart c' k' other x b = elim (Bool-cases (has x (wanted k c))) [
      | inl i ↦
          let (p, q) = belongs_once w.objs c c' k k' x (sym (wants.exact c k o e x) ∙ i) b in
          ground (arith, agrees_refl k)
      | inr out ↦ out
    ]

    pub repair_list-Step : Step (repair_list k wanted c v)
    unfolding repair_list
    repair_list-Step = elim (Bool-cases (same_members (chain v c k) (wanted k c))) [
      | inl h ↦
          rw h (record { under = u; good = same-IsGood v c k o u e h; others = λ c' k' other g. g })
      | inr h ↦
          let d : Distinct (wanted k c) = wants.distinct c k o e in
          rw h (record {
            under = record {
              places = λ r. relink-places k c (wanted k c) v d wanted_live r ∙ u.places r;
              top = relink-top k c (wanted k c) v d wanted_live ∙ u.top;
            };
            good =
                IsGood-test (relink k c (wanted k c) v).objs c k (λ x. has x (wanted k c))
                  (belongs w.objs c k) (wants.exact c k o e)
                  (relink-IsGood k c (wanted k c) v d wanted_live);
            others = λ c' k' other g.
                relink-others k c (wanted k c) v d wanted_live c' k' (belongs w.objs c' k') other
                  (wanted_apart c' k' other) g;
          })
    ]
