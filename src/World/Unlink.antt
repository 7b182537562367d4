-- ===== src/World/Unlink.antt =====
-- internal/world, removeFromChain: in a world whose lists agree with the locations it ends, and takes
-- the object off its list and nothing else.
use Prim.Native.Nat.{ℕ, zero, suc, ◌≤◌}
use mathlib.Core.Path.{◌≡◌}
use mathlib.Core.Logic.{◌≢◌}
use mathlib.Core.Bool.{true}
use mathlib.Core.List.{List, [], ◌∷◌}
use mathlib.Core.Option.{Option, none, some}
use fuzzball_emerald.Prelude.{arith, length, if◌then◌else◌}
use fuzzball_emerald.Prelude.RefMap.{◌=?◌, lookup, adjust, ℤ-discrete, lookup-adjust}
use fuzzball_emerald.Prelude.RefList.{has, remove, Distinct}
use fuzzball_emerald.Ref.{Ref, nothing}
use fuzzball_emerald.World.{Objects, World, on_some, set_next, mark, update, unlink_loop}
use fuzzball_emerald.World.Linked.{next_of, IsChain, IsChain-frame}

-- A write to one object's link, seen at any.
pub next_of-set_next :
    (m : Objects) (q n x : Ref)
    → next_of (adjust q (set_next n) m) x
      ≡ (if q =? x then on_some (next_of m x) none (λ _. some n) else next_of m x)
next_of-set_next m q n x = ground (arith, lookup-adjust q x (set_next n) m)

-- What stands before `x` on a list, and the list once its link is `x`'s.
pub record Unlinked (w : World) (c x n r : Ref) (xs : List Ref) (v : Option World) : Type 0 where
  pub before : Ref
  pub on_list : has before xs ≡ true
  pub other : before ≢ x
  pub ends : v ≡ some (mark c (mark before (update before (set_next n) w)))
  pub relinked : IsChain (adjust before (set_next n) w.objs) r (remove x xs)

module _ (w : World) (c x n : Ref) where
  unlink_loop_step :
      (rounds : ℕ) (r k : Ref)
      → r ≢ nothing
      → next_of w.objs r ≡ some k
      → unlink_loop (suc rounds) w c x n r ≡ (
          if k =? x
          then some (mark c (mark r (update r (set_next n) w)))
          else unlink_loop rounds w c x n k)
  unfolding unlink_loop
  unlink_loop_step rounds r k ok f = ground arith

  module _ (dead : lookup nothing w.objs ≡ none) (after : next_of w.objs x ≡ some n) where
    IsChain-drop : (k : Ref) (ys : List Ref) → IsChain w.objs x (k ∷ ys) → IsChain w.objs n ys
    IsChain-drop k ys (e, (j, f, h)) = let same : j ≡ n = ground arith in rw (← same) h

    relinked_here :
        (r y z : Ref) (zs : List Ref)
        → r ≡ y
        → next_of w.objs y ≡ some z
        → IsChain w.objs n zs
        → Distinct (y ∷ z ∷ zs)
        → r ≢ x
        → z ≡ x
        → IsChain (adjust r (set_next n) w.objs) r (remove x (y ∷ z ∷ zs))
    relinked_here r y z zs e f h d ne p =
        let kept : remove x (y ∷ z ∷ zs) ≡ y ∷ zs = ground arith in
        rw kept (
          e,
          (
            n,
            ground (arith, next_of-set_next w.objs r n y),
            IsChain-frame w.objs (adjust r (set_next n) w.objs) n zs
                (λ u i. ground (arith, next_of-set_next w.objs r n u)) h,
          ),
        )

    relinked_later :
        (r y k : Ref) (ys : List Ref) {v : Option World}
        → r ≡ y
        → next_of w.objs y ≡ some k
        → Distinct (y ∷ ys)
        → y ≢ x
        → k ≢ x
        → Unlinked w c x n k ys v
        → Unlinked w c x n r
            (y ∷ ys)
            (if k =? x then some (mark c (mark r (update r (set_next n) w))) else v)
    relinked_later r y k ys e f d ne p u =
        let kept : remove x (y ∷ ys) ≡ y ∷ remove x ys = ground arith in
        record {
          before = u.before;
          on_list = ground (arith, u.on_list);
          other = u.other;
          ends = ground (arith, u.ends);
          relinked =
              rw kept (
                e,
                (k, ground (arith, next_of-set_next w.objs u.before n y, u.on_list), u.relinked),
              );
        }

    pub unlink_loop-Unlinked :
        (rounds : ℕ) (r : Ref) (xs : List Ref)
        → IsChain w.objs r xs
        → Distinct xs
        → has x xs ≡ true
        → r ≢ x
        → length xs ≤ rounds
        → Unlinked w c x n r xs (unlink_loop rounds w c x n r)
    unlink_loop-Unlinked rounds r [] h d i ne le = ground arith
    unlink_loop-Unlinked zero r (y ∷ ys) h d i ne le = absurd (omega arith)
    unlink_loop-Unlinked (suc rounds) r (y ∷ []) (e, (k, f, h)) d i ne le = ground arith
    unlink_loop-Unlinked (suc rounds) r (y ∷ z ∷ zs) (e, (k, f, h)) d i ne le =
        let live : next_of w.objs r ≡ some k = rw e f in
        let ok : r ≢ nothing = ground arith in
        rw (unlink_loop_step rounds r k ok live) (elim (ℤ-discrete k x) [
          | yes p ↦ record {
            before = r;
            on_list = ground arith;
            other = ne;
            ends = ground arith;
            relinked =
                relinked_here r y z zs e (ground arith) (IsChain-drop z zs (rw (← p) h)) d ne
                  (ground arith);
          }
          | no p ↦
              relinked_later r y k (z ∷ zs) e f d (ground arith) p
                (unlink_loop-Unlinked rounds k (z ∷ zs) h d.1 (ground arith) p (omega arith))
        ])
