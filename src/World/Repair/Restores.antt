-- ===== src/World/Repair/Restores.antt =====
-- internal/world/repair.go: after RepairChains every list of every object is right, whatever it was.
use Prim.Native.Nat.{ℕ, ◌+◌}
use mathlib.Core.Path.{◌≡◌, refl}
use mathlib.Core.Logic.{inl, inr}
use mathlib.Core.Bool.{Bool, true, false, ◌&&◌, ◌||◌}
use mathlib.Core.List.{List, [], ◌∷◌}
use mathlib.Core.Option.{none, some}
use fuzzball_emerald.Prelude.{arith, if◌then◌else◌, sym, ◌∙◌, length, Bool-cases, Option-cases}
use fuzzball_emerald.Prelude.RefMap.{◌=?◌, lookup}
use fuzzball_emerald.Prelude.RefList.{has}
use fuzzball_emerald.Ref.{Ref, nothing}
use fuzzball_emerald.World.{Object, World, is_live, head_of, mark, chain}
use fuzzball_emerald.World.Linked.{
  agrees, IsChain, Threads, belongs, IsBelow, IsSound, dead_of_below, chain_loop-IsChain,
  length-IsChain,
}
use fuzzball_emerald.World.Move.{place_of}
use fuzzball_emerald.World.Move.Sound.{live_of_place, dead_of_place}
use fuzzball_emerald.World.Place.{eq_of_agrees}
use fuzzball_emerald.World.Repair.{
  WantedLists, repair_list, repair_object, repair_objects, repair_chains, want_all, refs_from,
}
use fuzzball_emerald.World.Repair.Wanted.{Wants, Wants-want_all, has-refs}
use fuzzball_emerald.World.Repair.Members.{same_members_complete}
use fuzzball_emerald.World.Repair.Relink.{IsGood}
use fuzzball_emerald.World.Repair.OneList.{
  IsUnder, Step, repair_list-Step, belongs_of_places, IsGood-test, chain_read,
}

module _ (w : World) (below : IsBelow w) (wanted : WantedLists) (wants : Wants w.objs wanted) where
  abbrev GoodAt : World → Ref → Bool → Type 0
  GoodAt v c k = IsGood v.objs c k (belongs w.objs c k)

  -- Some containers are right, and what was right before is.
  record Pass (v : World) (mended : Ref → Bool) (u : World) : Type 0 where
    under : IsUnder w u
    good : (c : Ref) (k : Bool) → mended c ≡ true → is_live (lookup c w.objs) ≡ true → GoodAt u c k
    kept : (c : Ref) (k : Bool) → is_live (lookup c w.objs) ≡ true → GoodAt v c k → GoodAt u c k

  Step-kept :
      (v : World) (c : Ref) (k : Bool) (o : Object) (u : IsUnder w v) (e : lookup c w.objs ≡ some o)
      (s : World × Bool)
      → Step w below wanted wants v c k o u e s
      → (c' : Ref) (k' : Bool) → GoodAt v c' k'
      → GoodAt s.0 c' k'
  Step-kept v c k o u e s h c' k' g = elim (Bool-cases ((c =? c') && agrees k k')) [
    | inl same ↦
        let p : c ≡ c' = ground arith in
        let q : k ≡ k' = eq_of_agrees k k' (ground arith) in rw (← p, ← q) h.good
    | inr other ↦ h.others c' k' other g
  ]

  Pass-mark :
      (v u : World) (mended : Ref → Bool) (c : Ref) (t : Bool) (n : ℕ)
      → Pass v mended u
      → Pass v mended (if◌then◌else◌ {A = World × ℕ} t (mark c u, n + 1) (u, n)).0
  Pass-mark v u mended c true n h = record {
    under = record { places = h.under.places; top = h.under.top };
    good = h.good;
    kept = h.kept;
  }
  Pass-mark v u mended c false n h = h

  repair_live-Pass :
      (v : World) (c : Ref) (o : Object) (u : IsUnder w v) (e : lookup c w.objs ≡ some o)
      → Pass v (λ r. r =? c) (repair_list true wanted c (repair_list false wanted c v).0).0
  repair_live-Pass v c o u e =
      let first = repair_list-Step w below wanted wants v c false o u e in
      let v1 : World = (repair_list false wanted c v).0 in
      let second = repair_list-Step w below wanted wants v1 c true o first.under e in
      let keep = Step-kept v1 c true o first.under e (repair_list true wanted c v1) second in
      record {
        under = second.under;
        good = λ c' k m live.
            let p : c' ≡ c = ground arith in
            rw p (
              both (λ k. GoodAt (repair_list true wanted c v1).0 c k) (keep c false first.good)
                second.good k);
        kept = λ c' k live g.
            keep c' k (Step-kept v c false o u e (repair_list false wanted c v) first c' k g);
      }
    where
      both : (P : Bool → Type 0) → P false → P true → (k : Bool) → P k
      both P f t true = t
      both P f t false = f

  repair_object-Pass :
      (v : World) (n : ℕ) (c : Ref)
      → IsUnder w v
      → Pass v (λ r. r =? c) (repair_object wanted c (v, n)).0
  unfolding repair_object
  repair_object-Pass v n c u = elim (Option-cases (lookup c w.objs)) [
    | inl e ↦
        let gone : lookup c v.objs ≡ none = dead_of_place w.objs v.objs c e (u.places c) in
        rw gone (record { under = u; good = λ c' k m live. ground arith; kept = λ c' k live g. g })
    | inr (o, e) ↦
        let (a, ea, _, _) = live_of_place w.objs v.objs c o e (u.places c) in
        let live : is_live (lookup c v.objs) ≡ true = rw ea refl in
        rw live (
          Pass-mark v (repair_list true wanted c (repair_list false wanted c v).0).0 (λ r. r =? c) c
            ((repair_list false wanted c v).1
              || (repair_list true wanted c (repair_list false wanted c v).0).1)
            n (repair_live-Pass v c o u e))
  ]

  repair_objects-Pass :
      (cs : List Ref) (v : World) (n : ℕ)
      → IsUnder w v
      → Pass v (λ r. has r cs) (repair_objects wanted cs (v, n)).0
  unfolding repair_objects
  repair_objects-Pass [] v n u = record {
    under = u;
    good = λ c k m live. ground arith;
    kept = λ c k live g. g;
  }
  repair_objects-Pass (c ∷ cs) v n u =
      let first = repair_object-Pass v n c u in
      let v1 : World = (repair_object wanted c (v, n)).0 in
      let rest = repair_objects-Pass cs v1 (repair_object wanted c (v, n)).1 first.under in
      record {
        under = rest.under;
        good = λ r k m live. elim (Bool-cases (r =? c)) [
          | inl here ↦ rest.kept r k live (first.good r k here live)
          | inr later ↦ rest.good r k (ground arith) live
        ];
        kept = λ r k live g. rest.kept r k live (first.kept r k live g);
      }

-- The list that is right is what the code reads.
good_chain :
    (m : World) (c : Ref) (k : Bool) (test : Ref → Bool) (o : Object)
    → lookup nothing m.objs ≡ none
    → lookup c m.objs ≡ some o
    → (g : IsGood m.objs c k test) → chain m c k ≡ g.members
good_chain m c k test o dead e g =
    let h : IsChain m.objs (head_of k o) g.members = g.chained (head_of k o) (rw e refl) in
    chain_read m c k o e
    ∙ chain_loop-IsChain m.objs (length m.objs) (head_of k o) g.members dead h
        (length-IsChain m.objs (head_of k o) g.members h g.distinct)

good-Threads :
    (m : World)
    → lookup nothing m.objs ≡ none
    → ((c : Ref) (k : Bool) (o : Object)
        → lookup c m.objs ≡ some o
        → IsGood m.objs c k (belongs m.objs c k))
    → Threads m.objs (chain m) (belongs m.objs)
good-Threads m dead good = record {
  chained = λ c k o e.
      rw (good_chain m c k (belongs m.objs c k) o dead e (good c k o e))
        ((good c k o e).chained (head_of k o) (rw e refl));
  distinct = λ c k o e.
      rw (good_chain m c k (belongs m.objs c k) o dead e (good c k o e)) (good c k o e).distinct;
  exact = λ c k o e x.
      rw (good_chain m c k (belongs m.objs c k) o dead e (good c k o e)) ((good c k o e).exact x);
}

-- Whatever the heads and links of a world are, as long as its objects stand below the top,
-- RepairChains leaves each list ending in nothing and holding exactly the objects that say that
-- they are there, none twice, and moves no object.
pub repair_chains-IsSound :
    (w : World)
    → IsBelow w
    → IsSound (repair_chains w).0
      × ((r : Ref) → place_of (repair_chains w).0.objs r ≡ place_of w.objs r)
unfolding repair_chains
repair_chains-IsSound w below =
    let wanted : WantedLists = want_all w.objs (refs_from 0 w.top) (λ k c. []) in
    let wants : Wants w.objs wanted = Wants-want_all w below (dead_of_below w below) in
    let v : World = (repair_objects wanted (refs_from 0 w.top) (w, 0)).0 in
    let pass : Pass w below wanted wants w (λ r. has r (refs_from 0 w.top)) v =
      repair_objects-Pass w below wanted wants (refs_from 0 w.top) w 0
        (record { places = λ r. refl; top = refl }) in
    let before : (r : Ref) (b : Object)
        → lookup r v.objs ≡ some b
        → (a : Object) × (lookup r w.objs ≡ some a) =
      λ r b eb.
        let (a, ea, _, _) = live_of_place v.objs w.objs r b eb (sym (pass.under.places r)) in
        (a, ea) in
    let held : IsBelow v =
      λ r b eb. let (a, ea) = before r b eb in rw pass.under.top (below r a ea) in
    let sound : IsSound v = record {
      below = held;
      linked = good-Threads v (dead_of_below v held) λ c k o e.
          let (a, ea) = before c o e in
          IsGood-test v.objs c k (belongs w.objs c k) (belongs v.objs c k)
            (λ x. sym (belongs_of_places w.objs v.objs c k x (pass.under.places x)))
            (pass.good c k (has-refs w below c a ea) (rw ea refl));
    } in
    (sound, pass.under.places)

-- A world that is sound is as it should be already.
sound_list :
    (w : World) (wanted : WantedLists) (c : Ref) (k : Bool) (o : Object)
    → IsSound w
    → Wants w.objs wanted
    → lookup c w.objs ≡ some o
    → repair_list k wanted c w ≡ (w, false)
unfolding repair_list
sound_list w wanted c k o s wants e =
    rw
      (same_members_complete (chain w c k) (wanted k c) (s.linked.distinct c k o e)
        (wants.distinct c k o e) (λ x. s.linked.exact c k o e x ∙ sym (wants.exact c k o e x)))
      refl

sound_object :
    (w : World) (wanted : WantedLists) (c : Ref) (n : ℕ)
    → IsSound w
    → Wants w.objs wanted
    → repair_object wanted c (w, n) ≡ (w, n)
unfolding repair_object
sound_object w wanted c n s wants = elim (Option-cases (lookup c w.objs)) [
  | inl e ↦ rw e refl
  | inr (o, e) ↦
      rw (e, sound_list w wanted c false o s wants e, sound_list w wanted c true o s wants e) refl
]

sound_objects :
    (w : World) (wanted : WantedLists) (cs : List Ref) (n : ℕ)
    → IsSound w
    → Wants w.objs wanted
    → repair_objects wanted cs (w, n) ≡ (w, n)
unfolding repair_objects
sound_objects w wanted [] n s wants = refl
sound_objects w wanted (c ∷ cs) n s wants =
    rw (sound_object w wanted c n s wants) (sound_objects w wanted cs n s wants)

-- A world whose lists agree with its locations is left as it is by RepairChains, in the order of
-- every list too, and 0 containers are reported.
pub repair_chains_sound : (w : World) → IsSound w → repair_chains w ≡ (w, 0)
unfolding repair_chains
repair_chains_sound w s =
    sound_objects w (want_all w.objs (refs_from 0 w.top) (λ k c. [])) (refs_from 0 w.top) 0 s
      (Wants-want_all w s.below (dead_of_below w s.below))
