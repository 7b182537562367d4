-- ===== src/World/Repair/Relink.antt =====
-- internal/world/repair.go: relink makes one list of the members that it is given, and leaves every
-- list that has none of them.
use mathlib.Core.Path.{◌≡◌, refl}
use mathlib.Core.Bool.{Bool, true, false, ◌&&◌}
use mathlib.Core.List.{List, [], ◌∷◌}
use mathlib.Core.Option.{none, some}
use fuzzball_emerald.Prelude.{arith, if◌then◌else◌, sym, ◌∙◌}
use fuzzball_emerald.Prelude.RefMap.{◌=?◌, lookup, adjust, lookup-adjust}
use fuzzball_emerald.Prelude.RefList.{has, Distinct}
use fuzzball_emerald.Ref.{Ref}
use fuzzball_emerald.World.{Objects, World, on_some, is_live, set_head, set_next}
use fuzzball_emerald.World.Linked.{agrees, next_of, IsChain, IsChain-frame}
use fuzzball_emerald.World.Move.{place_of, place_of-adjust}
use fuzzball_emerald.World.Unlink.{next_of-set_next}
use fuzzball_emerald.World.Detach.{head_at, next_of-set_head}
use fuzzball_emerald.World.Place.{agrees_refl, location-set_head, flags-set_head}
use fuzzball_emerald.World.Repair.{relink_members, relink}

-- What relinking the members of a list has done.
pub record Relinked (xs : List Ref) (w v : World) (head : Ref) : Type 0 where
  pub chain : IsChain v.objs head xs
  pub elsewhere : (y : Ref) → has y xs ≡ false → next_of v.objs y ≡ next_of w.objs y
  pub heads : (r : Ref) (k : Bool) → head_at v.objs k r ≡ head_at w.objs k r
  pub places : (r : Ref) → place_of v.objs r ≡ place_of w.objs r
  pub top : v.top ≡ w.top

head_at-set_next :
    (m : Objects) (q n : Ref) (k : Bool) (r : Ref)
    → head_at (adjust q (set_next n) m) k r ≡ head_at m k r
head_at-set_next m q n true r = ground (arith, lookup-adjust q r (set_next n) m)
head_at-set_next m q n false r = ground (arith, lookup-adjust q r (set_next n) m)

relink_members-Relinked :
    (xs : List Ref) (w : World)
    → Distinct xs
    → ((x : Ref) → has x xs ≡ true → is_live (lookup x w.objs) ≡ true)
    → Relinked xs w (relink_members xs w).0 (relink_members xs w).1
unfolding relink_members
relink_members-Relinked [] w d live = record {
  chain = refl;
  elsewhere = λ y i. refl;
  heads = λ r k. refl;
  places = λ r. refl;
  top = refl;
}
relink_members-Relinked (x ∷ xs) w d live =
    let v : World = (relink_members xs w).0 in
    let head : Ref = (relink_members xs w).1 in
    let h : Relinked xs w v head =
      relink_members-Relinked xs w d.1 (λ y i. live y (ground arith)) in
    let here : is_live (lookup x v.objs) ≡ true = ground (arith, h.places x, live x) in
    rw here (record {
      chain = (
        refl,
        (
          head,
          ground (arith, next_of-set_next v.objs x head x),
          IsChain-frame v.objs _ head xs (λ y i. ground (arith, next_of-set_next v.objs x head y))
              h.chain,
        ),
      );
      elsewhere = λ y i. ground (arith, next_of-set_next v.objs x head y, h.elsewhere y);
      heads = λ r k. head_at-set_next v.objs x head k r ∙ h.heads r k;
      places = λ r. place_of-adjust v.objs x (set_next head) (λ o. refl) (λ o. refl) r ∙ h.places r;
      top = h.top;
    })

-- The list of `c` of the kind `k` is a list of what the test accepts, none twice.
pub record IsGood (m : Objects) (c : Ref) (k : Bool) (test : Ref → Bool) : Type 0 where
  pub members : List Ref
  pub chained : (h : Ref) → head_at m k c ≡ some h → IsChain m h members
  pub distinct : Distinct members
  pub exact : (x : Ref) → has x members ≡ test x

pub IsGood-frame :
    (m g : Objects) (c : Ref) (k : Bool) (test : Ref → Bool)
    → IsGood m c k test
    → head_at g k c ≡ head_at m k c
    → ((x : Ref) → test x ≡ true → next_of g x ≡ next_of m x)
    → IsGood g c k test
IsGood-frame m g c k test h heads same = record {
  members = h.members;
  chained = λ r e.
      IsChain-frame m g r h.members (λ x i. same x (sym (h.exact x) ∙ i))
        (h.chained r (sym heads ∙ e));
  distinct = h.distinct;
  exact = h.exact;
}

head_at-set_head :
    (m : Objects) (c n r : Ref) (k k' : Bool)
    → head_at (adjust c (set_head k n) m) k' r ≡ (
        if (c =? r) && agrees k k'
        then on_some (head_at m k' r) none (λ _. some n)
        else head_at m k' r)
head_at-set_head m c n r true true = ground (arith, lookup-adjust c r (set_head true n) m)
head_at-set_head m c n r true false = ground (arith, lookup-adjust c r (set_head true n) m)
head_at-set_head m c n r false true = ground (arith, lookup-adjust c r (set_head false n) m)
head_at-set_head m c n r false false = ground (arith, lookup-adjust c r (set_head false n) m)

-- After relinking, the list is the members; a list without them is what it was.
module _ (k : Bool) (c : Ref) (xs : List Ref) (w : World) (d : Distinct xs)
    (live : (x : Ref) → has x xs ≡ true → is_live (lookup x w.objs) ≡ true) where
  pub relink-places : (r : Ref) → place_of (relink k c xs w).objs r ≡ place_of w.objs r
  unfolding relink
  relink-places r =
      let h = relink_members-Relinked xs w d live in
      place_of-adjust (relink_members xs w).0.objs c (set_head k (relink_members xs w).1)
        (location-set_head k (relink_members xs w).1) (flags-set_head k (relink_members xs w).1) r
      ∙ h.places r

  pub relink-top : (relink k c xs w).top ≡ w.top
  unfolding relink
  relink-top = (relink_members-Relinked xs w d live).top

  pub relink-IsGood : IsGood (relink k c xs w).objs c k (λ x. has x xs)
  unfolding relink
  relink-IsGood =
      let h = relink_members-Relinked xs w d live in
      let v : World = (relink_members xs w).0 in
      let head : Ref = (relink_members xs w).1 in
      record {
        members = xs;
        chained = λ r e.
            let first : r ≡ head =
              ground (arith, head_at-set_head v.objs c head c k k, agrees_refl k) in
            rw first (
              IsChain-frame v.objs (adjust c (set_head k head) v.objs) head xs
                (λ y i. next_of-set_head v.objs c head k y) h.chain);
        distinct = d;
        exact = λ x. refl;
      }

  pub relink-others :
      (c' : Ref) (k' : Bool) (test : Ref → Bool)
      → ((c =? c') && agrees k k') ≡ false
      → ((x : Ref) → test x ≡ true → has x xs ≡ false)
      → IsGood w.objs c' k' test
      → IsGood (relink k c xs w).objs c' k' test
  unfolding relink
  relink-others c' k' test other apart good =
      let h = relink_members-Relinked xs w d live in
      let v : World = (relink_members xs w).0 in
      let head : Ref = (relink_members xs w).1 in
      IsGood-frame w.objs (adjust c (set_head k head) v.objs) c' k' test good
        (ground (arith, head_at-set_head v.objs c head c' k k', h.heads c' k'))
        (λ x t. next_of-set_head v.objs c head k x ∙ h.elsewhere x (apart x t))
