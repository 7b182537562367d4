-- ===== src/World/Detach.antt =====
-- internal/world, removeFromChain: an object that is on the list where its location says comes off it,
-- and every other list stays as it was.
use mathlib.Core.Path.{◌≡◌, refl}
use mathlib.Core.Logic.{◌≢◌, inl, inr}
use mathlib.Core.Bool.{Bool, true, false, not, ◌&&◌}
use mathlib.Core.List.{List, [], ◌∷◌}
use mathlib.Core.Option.{Option, none, some}
use fuzzball_emerald.Prelude.{arith, if◌then◌else◌, Bool-cases, Option-cases}
use fuzzball_emerald.Prelude.RefMap.{◌=?◌, lookup, adjust, ℤ-discrete, lookup-adjust}
use fuzzball_emerald.Prelude.RefList.{has, remove, Distinct-remove, has-remove, remove-of_out}
use fuzzball_emerald.Ref.{Ref, nothing}
use fuzzball_emerald.World.{Object, Objects, on_some, head_of, set_head, set_next}
use fuzzball_emerald.World.Linked.{next_of, IsChain, Threads, Lists, belongs, IsChain-frame}
use fuzzball_emerald.World.Unlink.{next_of-set_next}

-- An object belongs on one list at most.
pub belongs_once :
    (m : Objects) (c c' : Ref) (k k' : Bool) (x : Ref)
    → belongs m c k x ≡ true
    → belongs m c' k' x ≡ true
    → (c ≡ c') × (k ≡ k')
belongs_once m c c' true true x h h' = ground arith
belongs_once m c c' true false x h h' = ground arith
belongs_once m c c' false true x h h' = ground arith
belongs_once m c c' false false x h h' = ground arith

abbrev pub Without : Ref → Lists → Lists
Without x lists = λ c k. remove x (lists c k)

abbrev pub but : Ref → (Ref → Bool → Ref → Bool) → Ref → Bool → Ref → Bool
but x test = λ c k y. test c k y && not (y =? x)

-- A change of one list, the one that `x` belongs on, takes `x` off.
module _ (m g : Objects) (lists : Lists) (x c : Ref) (k : Bool) (th : Threads m lists (belongs m))
    (on : belongs m c k x ≡ true)
    (live : (r : Ref) (o' : Object) → lookup r g ≡ some o' → (o : Object) × (lookup r m ≡ some o))
    (here : (o' : Object) → lookup c g ≡ some o' → IsChain g (head_of k o') (remove x (lists c k)))
    (there : (c' : Ref) (k' : Bool) (o' o : Object)
      → lookup c' g ≡ some o'
      → lookup c' m ≡ some o
      → belongs m c' k' x ≡ false
      → IsChain g (head_of k' o') (lists c' k')) where
  chained_without :
      (c' : Ref) (k' : Bool) (o' : Object)
      → lookup c' g ≡ some o'
      → IsChain g (head_of k' o') (remove x (lists c' k'))
  chained_without c' k' o' e = elim (Bool-cases (belongs m c' k' x)) [
    | inl b ↦ let (p, q) = belongs_once m c' c k' k x b on in rw (p, q) (here o' (rw (← p) e))
    | inr b ↦
        let (o, f) = live c' o' e in
        rw (remove-of_out x (lists c' k') (ground (arith, th.exact c' k' o f x)))
          (there c' k' o' o e f b)
  ]

  pub Threads-remove : Threads g (Without x lists) (but x (belongs m))
  Threads-remove = record {
    chained = chained_without;
    distinct = λ c' k' o' e.
        let (o, f) = live c' o' e in Distinct-remove x (lists c' k') (th.distinct c' k' o f);
    exact = λ c' k' o' e y.
        let (o, f) = live c' o' e in
        ground (arith, has-remove x y (lists c' k') (th.distinct c' k' o f), th.exact c' k' o f y);
  }

abbrev pub head_at : Objects → Bool → Ref → Option Ref
head_at m k c = on_some (lookup c m) none λ o. some (head_of k o)

pub next_of-set_head :
    (m : Objects) (c n : Ref) (k : Bool) (y : Ref)
    → next_of (adjust c (set_head k n) m) y ≡ next_of m y
next_of-set_head m c n true y = ground (arith, lookup-adjust c y (set_head true n) m)
next_of-set_head m c n false y = ground (arith, lookup-adjust c y (set_head false n) m)

IsChain-rest :
    (m : Objects) (x : Ref) (o : Object) (xs : List Ref)
    → lookup x m ≡ some o
    → x ≢ nothing
    → IsChain m x xs
    → IsChain m o.next (remove x xs)
IsChain-rest m x o [] e ne h = absurd (ne h)
IsChain-rest m x o (y ∷ ys) e ne (p, (n, f, h)) =
    let same : o.next ≡ n = ground arith in
    let kept : remove x (y ∷ ys) ≡ ys = ground arith in rw (same, kept) h

pub lookup_after :
    (m : Objects) (q : Ref) (f : Object → Object) (r : Ref) (o' : Object)
    → lookup r (adjust q f m) ≡ some o'
    → (o : Object) × ((lookup r m ≡ some o) × (o' ≡ (if q =? r then f o else o)))
lookup_after m q f r o' e = elim (Option-cases (lookup r m)) [
  | inl h ↦ ground (arith, lookup-adjust q r f m)
  | inr (o, h) ↦ (o, (h, ground (arith, lookup-adjust q r f m)))
]

pub head_of-set_head : (k : Bool) (n : Ref) (o : Object) → head_of k (set_head k n o) ≡ n
head_of-set_head true n o = refl
head_of-set_head false n o = refl

head_of-set_head_other :
    (k k' : Bool) (n : Ref) (o : Object) → k ≢ k' → head_of k' (set_head k n o) ≡ head_of k' o
head_of-set_head_other true true n o ne = ground arith
head_of-set_head_other true false n o ne = refl
head_of-set_head_other false true n o ne = refl
head_of-set_head_other false false n o ne = ground arith

head_of_linked :
    (k t : Bool) (n : Ref) (o' o : Object)
    → o' ≡ (if t then set_next n o else o)
    → head_of k o' ≡ head_of k o
head_of_linked true t n o' o q = ground arith
head_of_linked false t n o' o q = ground arith

-- Two lists share nothing where one has an object and the other does not.
apart :
    (m : Objects) (c c' x y z : Ref) (k k' : Bool)
    → belongs m c k x ≡ true
    → belongs m c' k' x ≡ false
    → belongs m c k y ≡ true
    → belongs m c' k' z ≡ true
    → y ≢ z
apart m c c' x y z k k' on away h j same =
    let (p, q) = belongs_once m c c' k k' z (rw (← same) h) j in
    let moved : belongs m c' k' x ≡ true = rw (← p, ← q) on in cc

-- A write to the head of one list leaves the heads of the others.
head_of_there :
    (m : Objects) (c c' x n : Ref) (k k' : Bool) (o' v : Object)
    → belongs m c k x ≡ true
    → belongs m c' k' x ≡ false
    → o' ≡ (if c =? c' then set_head k n v else v)
    → head_of k' o' ≡ head_of k' v
head_of_there m c c' x n k k' o' v on away q = elim (ℤ-discrete c c') [
  | yes p ↦
      let split : k ≢ k' = λ same. cc in
      let here : o' ≡ set_head k n v = ground arith in
      rw here (head_of-set_head_other k k' n v split)
  | no p ↦ let there : o' ≡ v = ground arith in rw there
]

module _ (m : Objects) (lists : Lists) (x c : Ref) (k : Bool) (th : Threads m lists (belongs m))
    (on : belongs m c k x ≡ true) (ne : x ≢ nothing) where
  pub Threads-head :
      (co o : Object)
      → lookup c m ≡ some co
      → lookup x m ≡ some o
      → head_of k co ≡ x
      → Threads (adjust c (set_head k o.next) m) (Without x lists) (but x (belongs m))
  Threads-head co o ec ex first =
      let g : Objects = adjust c (set_head k o.next) m in
      let same = next_of-set_head m c o.next k in
      Threads-remove m g lists x c k th on
        (λ r o' e. let (v, (f, _)) = lookup_after m c (set_head k o.next) r o' e in (v, f))
        (λ o' e.
          let (v, (f, q)) = lookup_after m c (set_head k o.next) c o' e in
          let here : head_of k o' ≡ o.next = ground (arith, head_of-set_head k o.next v) in
          rw here (
            IsChain-frame m g o.next (remove x (lists c k)) (λ y i. same y)
              (IsChain-rest m x o (lists c k) ex ne (rw (← first) (th.chained c k co ec)))))
        (λ c' k' o' v e f away.
          let (u, (h, q)) = lookup_after m c (set_head k o.next) c' o' e in
          let kept : head_of k' o' ≡ head_of k' v =
            head_of_there m c c' x o.next k k' o' v on away (ground arith) in
          rw kept
            (IsChain-frame m g (head_of k' v) (lists c' k') (λ y i. same y) (th.chained c' k' v f)))

  -- What stands before `x` is given its link.
  pub Threads-before :
      (co o : Object) (before : Ref)
      → lookup c m ≡ some co
      → has before (lists c k) ≡ true
      → IsChain (adjust before (set_next o.next) m) (head_of k co) (remove x (lists c k))
      → Threads (adjust before (set_next o.next) m) (Without x lists) (but x (belongs m))
  Threads-before co o before ec i h =
      let g : Objects = adjust before (set_next o.next) m in
      Threads-remove m g lists x c k th on
        (λ r o' e. let (v, (f, _)) = lookup_after m before (set_next o.next) r o' e in (v, f))
        (λ o' e.
          let (v, (f, q)) = lookup_after m before (set_next o.next) c o' e in
          let here : head_of k o' ≡ head_of k co =
            head_of_linked k (before =? c) o.next o' co (ground arith) in
          rw here h)
        (λ c' k' o' v e f away.
          let (u, (p, q)) = lookup_after m before (set_next o.next) c' o' e in
          let kept : head_of k' o' ≡ head_of k' v =
            head_of_linked k' (before =? c') o.next o' v (ground arith) in
          rw kept (
            IsChain-frame m g (head_of k' v) (lists c' k')
              (λ y j.
                let other : before ≢ y =
                  apart m c c' x before y k k' on away (rw (← th.exact c k co ec before) i)
                    (rw (← th.exact c' k' v f y) j) in
                ground (arith, next_of-set_next m before o.next y))
              (th.chained c' k' v f)))
