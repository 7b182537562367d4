-- ===== src/World/Repair/Wanted.antt =====
-- internal/world/repair.go: the lists that RepairChains gathers hold what says that it is there.
use Prim.Native.Nat.{ℕ, zero, suc, ◌+◌, ◌≤◌, ◌<◌}
use mathlib.Core.Path.{◌≡◌, refl}
use mathlib.Core.Logic.{inl, inr}
use mathlib.Core.Bool.{Bool, true, false, not, ◌&&◌, ◌||◌}
use mathlib.Core.List.{List, [], ◌∷◌, ◌++◌}
use mathlib.Core.Option.{none, some}
use fuzzball_emerald.Prelude.{arith, if◌then◌else◌, Bool-cases, Option-cases}
use fuzzball_emerald.Prelude.Int.{pos}
use fuzzball_emerald.Prelude.RefMap.{◌=?◌, lookup}
use fuzzball_emerald.Prelude.RefList.{has, Distinct, has-append}
use fuzzball_emerald.Ref.{Ref, nothing}
use fuzzball_emerald.World.{Object, Objects, World, is_live, is_exit}
use fuzzball_emerald.World.Linked.{belongs, agrees, IsBelow}
use fuzzball_emerald.World.Repair.{WantedLists, append_at, want, want_all, refs_from}

has-refs_from : (n count i : ℕ) → n ≤ i → i < n + count → has (pos i) (refs_from n count) ≡ true
unfolding refs_from
has-refs_from n zero i le lt = absurd (omega arith)
has-refs_from n (suc count) i le lt = ground (arith, has-refs_from (n + 1) count i)

refs_from-below : (n count i : ℕ) → i < n → has (pos i) (refs_from n count) ≡ false
unfolding refs_from
refs_from-below n zero i lt = refl
refs_from-below n (suc count) i lt = ground (arith, refs_from-below (n + 1) count i)

Distinct-refs_from : (n count : ℕ) → Distinct (refs_from n count)
unfolding refs_from
Distinct-refs_from n zero = tt
Distinct-refs_from n (suc count) =
    (refs_from-below (n + 1) count n (omega arith), Distinct-refs_from (n + 1) count)

module _ (m : Objects) (c : Ref) (k : Bool) (co : Object) (ec : lookup c m ≡ some co)
    (dead : lookup nothing m ≡ none) where
  -- One more object is wanted where it says that it is.
  want_lem :
      (r : Ref) (wanted : WantedLists)
      → want m r wanted k c ≡ (if belongs m c k r then wanted k c ++ r ∷ [] else wanted k c)
  unfolding want append_at
  want_lem r wanted = elim (Option-cases (lookup r m)) [
    | inl e ↦ rw e
    | inr (o, e) ↦ rw e (want_kind o)
  ]
    where
      want_kind :
          (o : Object)
          → (if o.location =? nothing
                then wanted
                else if not (is_live (lookup o.location m))
                then wanted
                else append_at (is_exit o) o.location r wanted)
              k c
            ≡ (if (o.location =? c) && agrees (is_exit o) k
                then wanted k c ++ r ∷ []
                else wanted k c)
      want_kind o = elim (Bool-cases (is_exit o)) [
        | inl x ↦ rw x (ground arith)
        | inr x ↦ rw x (ground arith)
      ]

  has-want :
      (r x : Ref) (wanted : WantedLists)
      → has x (want m r wanted k c) ≡ (has x (wanted k c) || ((x =? r) && belongs m c k r))
  has-want r x wanted = rw (want_lem r wanted) (ground (arith, has-append x (wanted k c) (r ∷ [])))

  Distinct-snoc :
      (r : Ref) (xs : List Ref) → Distinct xs → has r xs ≡ false → Distinct (xs ++ r ∷ [])
  Distinct-snoc r [] d out = (refl, tt)
  Distinct-snoc r (x ∷ xs) d out =
      (ground (arith, has-append x xs (r ∷ [])), Distinct-snoc r xs d.1 (ground arith))

  Distinct-want :
      (r : Ref) (wanted : WantedLists)
      → Distinct (wanted k c)
      → has r (wanted k c) ≡ false
      → Distinct (want m r wanted k c)
  Distinct-want r wanted d out =
      rw (want_lem r wanted) (ground (arith, Distinct-snoc r (wanted k c) d out))

  has-want_all :
      (rs : List Ref) (x : Ref) (wanted : WantedLists)
      → has x (want_all m rs wanted k c) ≡ (has x (wanted k c) || (has x rs && belongs m c k x))
  unfolding want_all
  has-want_all [] x wanted = ground arith
  has-want_all (r ∷ rs) x wanted =
      ground (arith, has-want_all rs x (want m r wanted), has-want r x wanted)

  Distinct-want_all :
      (rs : List Ref) (wanted : WantedLists)
      → Distinct rs
      → Distinct (wanted k c)
      → ((x : Ref) → has x rs ≡ true → has x (wanted k c) ≡ false)
      → Distinct (want_all m rs wanted k c)
  unfolding want_all
  Distinct-want_all [] wanted d e apart = e
  Distinct-want_all (r ∷ rs) wanted d e apart =
      Distinct-want_all rs (want m r wanted) d.1 (Distinct-want r wanted e (apart r (ground arith)))
        (λ x i. ground (arith, has-want r x wanted, apart x))

-- What is gathered for a list of an object has none twice and what belongs there.
pub record Wants (m : Objects) (wanted : WantedLists) : Type 0 where
  pub distinct : (c : Ref) (k : Bool) (co : Object) → lookup c m ≡ some co → Distinct (wanted k c)
  pub exact :
      (c : Ref) (k : Bool) (co : Object)
      → lookup c m ≡ some co
      → (x : Ref) → has x (wanted k c) ≡ belongs m c k x

module _ (w : World) (below : IsBelow w) where
  pub has-refs :
      (r : Ref) (o : Object) → lookup r w.objs ≡ some o → has r (refs_from 0 w.top) ≡ true
  has-refs r o e =
      let (n, (p, lt)) = below r o e in rw p (has-refs_from 0 w.top n (omega arith) (omega arith))

  in_range : (c x : Ref) (k : Bool) → belongs w.objs c k x ≡ true → has x (refs_from 0 w.top) ≡ true
  in_range c x k h = elim (Option-cases (lookup x w.objs)) [
    | inl e ↦ ground arith
    | inr (o, e) ↦ has-refs x o e
  ]

  pub Wants-want_all :
      lookup nothing w.objs ≡ none → Wants w.objs (want_all w.objs (refs_from 0 w.top) (λ k c. []))
  Wants-want_all dead = record {
    distinct = λ c k co ec.
        Distinct-want_all w.objs c k co ec dead (refs_from 0 w.top) (λ k c. [])
          (Distinct-refs_from 0 w.top) tt (λ x i. refl);
    exact = λ c k co ec x. ground (
      arith,
      has-want_all w.objs c k co ec dead (refs_from 0 w.top) x (λ k c. []),
      in_range c x k,
    );
  }
