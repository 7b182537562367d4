-- ===== src/World/Linked.antt =====
-- internal/world: what it is for the lists of contents and exits to agree with the objects' locations.
-- A list is the references that its links lead through, from its head to nothing.
use Prim.Native.Nat.{ℕ, zero, suc, ◌≤◌, ◌<◌}
use mathlib.Core.Path.{◌≡◌, refl}
use mathlib.Core.Logic.{◌≢◌, inl, inr}
use mathlib.Core.Bool.{Bool, true, false, not, ◌&&◌}
use mathlib.Core.List.{List, [], ◌∷◌}
use mathlib.Core.Option.{Option, none, some}
use fuzzball_emerald.Prelude.{arith, length, Option-cases}
use fuzzball_emerald.Prelude.RefMap.{◌=?◌, lookup}
use fuzzball_emerald.Prelude.RefList.{has, Distinct, length-le_of_keys}
use fuzzball_emerald.Ref.{Ref, nothing}
use fuzzball_emerald.Prelude.Int.{pos}
use fuzzball_emerald.World.{Object, Objects, World, on_some, is_exit, head_of, chain_loop, chain}

abbrev pub next_of : Objects → Ref → Option Ref
next_of m x = on_some (lookup x m) none λ o. some o.next

abbrev pub IsChain : Objects → Ref → List Ref → Type 0
IsChain m r [] = r ≡ nothing
IsChain m r (x ∷ xs) = (r ≡ x) × ((n : Ref) × (next_of m x ≡ some n) × IsChain m n xs)

abbrev pub agrees : Bool → Bool → Bool
agrees true b = b
agrees false b = not b

-- The object says that it is in `c`, and is of the kind that one of its two lists has.
abbrev pub belongs : Objects → (c : Ref) → (exits : Bool) → Ref → Bool
belongs m c k x = on_some (lookup x m) false λ o. (o.location =? c) && agrees (is_exit o) k

abbrev pub Lists : Type 0
Lists = Ref → Bool → List Ref

-- From the head of each list of each object the links lead through `lists`, which has none twice and
-- exactly the references that the test accepts.
pub record Threads (m : Objects) (lists : Lists) (test : Ref → Bool → Ref → Bool) : Type 0 where
  pub chained :
      (c : Ref) (k : Bool) (o : Object) → lookup c m ≡ some o → IsChain m (head_of k o) (lists c k)
  pub distinct : (c : Ref) (k : Bool) (o : Object) → lookup c m ≡ some o → Distinct (lists c k)
  pub exact :
      (c : Ref) (k : Bool) (o : Object)
      → lookup c m ≡ some o
      → (x : Ref) → has x (lists c k) ≡ test c k x

abbrev pub IsBelow : World → Type 0
IsBelow w =
    (r : Ref) (o : Object) → lookup r w.objs ≡ some o → (n : ℕ) × ((r ≡ pos n) × (n < w.top))

pub dead_of_below : (w : World) → IsBelow w → lookup nothing w.objs ≡ none
dead_of_below w below = elim (Option-cases (lookup nothing w.objs)) [
  | inl e ↦ e
  | inr (o, e) ↦ ground (arith, below nothing o)
]

-- Objects stand at references below the top, and their lists agree with their locations.
pub record IsSound (w : World) : Type 0 where
  pub below : IsBelow w
  pub linked : Threads w.objs (chain w) (belongs w.objs)

pub nothing_dead : {w : World} → IsSound w → lookup nothing w.objs ≡ none
nothing_dead {w} s = dead_of_below w s.below

module _ (m g : Objects) where
  pub IsChain-frame :
      (r : Ref) (xs : List Ref)
      → ((x : Ref) → has x xs ≡ true → next_of g x ≡ next_of m x)
      → IsChain m r xs
      → IsChain g r xs
  IsChain-frame r [] same h = h
  IsChain-frame r (x ∷ xs) same (e, (n, f, h)) =
      (e, (n, ground (arith, same x), IsChain-frame n xs (λ y i. ground (arith, same y)) h))

module _ (m : Objects) where
  IsChain-live :
      (r : Ref) (xs : List Ref) → IsChain m r xs → (x : Ref) → has x xs ≡ true → lookup x m ≢ none
  IsChain-live r [] h x i = ground arith
  IsChain-live r (y ∷ ys) (e, (n, f, h)) x i = ground (arith, IsChain-live n ys h x)

  pub length-IsChain :
      (r : Ref) (xs : List Ref) → IsChain m r xs → Distinct xs → length xs ≤ length m
  length-IsChain r xs h d = length-le_of_keys m xs d (IsChain-live r xs h)

  pub chain_loop-IsChain :
      (rounds : ℕ) (r : Ref) (xs : List Ref)
      → lookup nothing m ≡ none
      → IsChain m r xs
      → length xs ≤ rounds
      → chain_loop (suc rounds) m r ≡ xs
  unfolding chain_loop
  chain_loop-IsChain rounds r [] dead h le = ground arith
  chain_loop-IsChain zero r (x ∷ xs) dead h le = absurd (omega arith)
  chain_loop-IsChain (suc rounds) r (x ∷ xs) dead (e, (n, f, h)) le =
      ground (arith, chain_loop-IsChain rounds n xs dead h)

-- The lists of a world are what the code reads of them.
pub chain-Threads :
    (w : World) {lists : Lists} {test : Ref → Bool → Ref → Bool}
    → lookup nothing w.objs ≡ none
    → Threads w.objs lists test
    → (c : Ref) (k : Bool) (o : Object) → lookup c w.objs ≡ some o
    → chain w c k ≡ lists c k
unfolding chain
chain-Threads w {lists} dead t c k o e = rw e (
    chain_loop-IsChain w.objs (length w.objs) (head_of k o) (lists c k) dead (t.chained c k o e)
      (length-IsChain w.objs (head_of k o) (lists c k) (t.chained c k o e) (t.distinct c k o e)))

pub Threads-chain :
    (w : World) {lists : Lists} {test : Ref → Bool → Ref → Bool}
    → lookup nothing w.objs ≡ none
    → Threads w.objs lists test
    → Threads w.objs (chain w) test
Threads-chain w {lists} dead t =
    let same = chain-Threads w dead t in
    record {
      chained = λ c k o e. rw (same c k o e) (t.chained c k o e);
      distinct = λ c k o e. rw (same c k o e) (t.distinct c k o e);
      exact = λ c k o e x. rw (same c k o e) (t.exact c k o e x);
    }

pub chain_dead : (w : World) (c : Ref) (k : Bool) → lookup c w.objs ≡ none → chain w c k ≡ []
unfolding chain
chain_dead w c k e = rw e refl
