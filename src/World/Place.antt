-- ===== src/World/Place.antt =====
-- internal/world, MoveTo: an object on no list is written to freely, and becomes the first of one.
use mathlib.Core.Path.{◌≡◌, refl}
use mathlib.Core.Logic.{◌≢◌, inl, inr}
use mathlib.Core.Bool.{Bool, true, false, ◌&&◌}
use mathlib.Core.List.{◌∷◌}
use mathlib.Core.Option.{some}
use fuzzball_emerald.Prelude.{arith, sym, if◌then◌else◌, Bool-cases, Option-cases}
use fuzzball_emerald.Prelude.RefMap.{◌=?◌, lookup, adjust, lookup-adjust}
use fuzzball_emerald.Ref.{Ref}
use fuzzball_emerald.World.{Object, Objects, is_exit, head_of, set_head}
use fuzzball_emerald.World.Linked.{next_of, IsChain, Threads, Lists, belongs, agrees, IsChain-frame}
use fuzzball_emerald.World.Detach.{but, lookup_after, next_of-set_head, head_of-set_head}

-- Functions that leave an object's two lists to it.
pub record KeepsHeads (f : Object → Object) : Type 0 where
  pub contents : (o : Object) → (f o).contents ≡ o.contents
  pub exits : (o : Object) → (f o).exits ≡ o.exits

pub head_kept :
    (f : Object → Object) (t k : Bool) (o' o : Object)
    → KeepsHeads f
    → o' ≡ (if t then f o else o)
    → head_of k o' ≡ head_of k o
head_kept f true true o' o keep q = rw q (keep.exits o)
head_kept f true false o' o keep q = rw q (keep.contents o)
head_kept f false true o' o keep q = rw q
head_kept f false false o' o keep q = rw q

-- What is written to an object that is on no list leaves every list.
pub Threads-aside :
    (m : Objects) (lists : Lists) (test test' : Ref → Bool → Ref → Bool) (x : Ref)
    (f : Object → Object)
    → Threads m lists test
    → KeepsHeads f
    → ((c : Ref) (k : Bool) → test c k x ≡ false)
    → ((c : Ref) (k : Bool) (y : Ref) → test' c k y ≡ test c k y)
    → Threads (adjust x f m) lists test'
Threads-aside m lists test test' x f th keep out same =
    let g : Objects = adjust x f m in
    record {
      chained = λ c k o' e.
          let (o, (h, q)) = lookup_after m x f c o' e in
          rw (head_kept f (x =? c) k o' o keep q) (
            IsChain-frame m g (head_of k o) (lists c k)
              (λ y i.
                let away : x ≢ y = λ p. ground (arith, out c k, th.exact c k o h y) in
                ground (arith, lookup-adjust x y f m))
              (th.chained c k o h));
      distinct = λ c k o' e. let (o, (h, q)) = lookup_after m x f c o' e in th.distinct c k o h;
      exact = λ c k o' e y.
          let (o, (h, q)) = lookup_after m x f c o' e in
          ground (arith, th.exact c k o h y, same c k y);
    }

pub next_of-adjust :
    (m : Objects) (x : Ref) (f : Object → Object)
    → ((o : Object) → (f o).next ≡ o.next)
    → (y : Ref) → next_of (adjust x f m) y ≡ next_of m y
next_of-adjust m x f next y = elim (Option-cases (lookup y m)) [
  | inl e ↦ ground (arith, lookup-adjust x y f m)
  | inr (v, e) ↦ ground (arith, lookup-adjust x y f m, next v)
]

-- What is written beside the links leaves every list.
pub Threads-beside :
    (m : Objects) (lists : Lists) (test test' : Ref → Bool → Ref → Bool) (x : Ref)
    (f : Object → Object)
    → Threads m lists test
    → KeepsHeads f
    → ((o : Object) → (f o).next ≡ o.next)
    → ((c : Ref) (k : Bool) (o : Object)
        → lookup c m ≡ some o
        → (y : Ref) → test' c k y ≡ test c k y)
    → Threads (adjust x f m) lists test'
Threads-beside m lists test test' x f th keep next same =
    let g : Objects = adjust x f m in
    record {
      chained = λ c k o' e.
          let (o, (h, q)) = lookup_after m x f c o' e in
          rw (head_kept f (x =? c) k o' o keep q) (
            IsChain-frame m g (head_of k o) (lists c k) (λ y i. next_of-adjust m x f next y)
              (th.chained c k o h));
      distinct = λ c k o' e. let (o, (h, q)) = lookup_after m x f c o' e in th.distinct c k o h;
      exact = λ c k o' e y.
          let (o, (h, q)) = lookup_after m x f c o' e in
          ground (arith, th.exact c k o h y, same c k o h y);
    }

-- A new head whose link is the old one puts its object first on that list.
abbrev pub With : (x c : Ref) → Bool → Lists → Lists
With x dest k lists = λ c k'. if (c =? dest) && agrees k k' then x ∷ lists c k' else lists c k'

pub agrees_refl : (k : Bool) → agrees k k ≡ true
agrees_refl true = refl
agrees_refl false = refl

pub eq_of_agrees : (k k' : Bool) → agrees k k' ≡ true → k ≡ k'
eq_of_agrees true k' h = sym h
eq_of_agrees false true h = ground arith
eq_of_agrees false false h = refl

module _ (m : Objects) (x : Ref) (f : Object → Object)
    (location : (o : Object) → (f o).location ≡ o.location)
    (flags : (o : Object) → (f o).flags ≡ o.flags) where
  pub belongs-adjust :
      (c : Ref) (k : Bool) (y : Ref) → belongs (adjust x f m) c k y ≡ belongs m c k y
  belongs-adjust c k y = elim (Option-cases (lookup y m)) [
    | inl e ↦ ground (arith, lookup-adjust x y f m)
    | inr (v, e) ↦ ground (arith, lookup-adjust x y f m, location v, flags v)
  ]

pub location-set_head : (k : Bool) (n : Ref) (o : Object) → (set_head k n o).location ≡ o.location
location-set_head true n o = refl
location-set_head false n o = refl

pub flags-set_head : (k : Bool) (n : Ref) (o : Object) → (set_head k n o).flags ≡ o.flags
flags-set_head true n o = refl
flags-set_head false n o = refl

head_unchanged :
    (c dest x : Ref) (k0 k : Bool) (o' v : Object)
    → ((c =? dest) && agrees k0 k) ≡ false
    → o' ≡ (if dest =? c then set_head k0 x v else v)
    → head_of k o' ≡ head_of k v
head_unchanged c dest x true true o' v t q = ground arith
head_unchanged c dest x true false o' v t q = ground arith
head_unchanged c dest x false true o' v t q = ground arith
head_unchanged c dest x false false o' v t q = ground arith

module _ (m : Objects) (lists : Lists) (x dest : Ref) (k0 : Bool) (cd o : Object)
    (th : Threads m lists (but x (belongs m))) (ed : lookup dest m ≡ some cd)
    (ex : lookup x m ≡ some o) (kind : is_exit o ≡ k0) (there : o.location ≡ dest)
    (next : o.next ≡ head_of k0 cd) where
  belongs_self : (c : Ref) (k : Bool) → belongs m c k x ≡ ((c =? dest) && agrees k0 k)
  belongs_self c k = rw (ex, there, kind) (ground arith)

  pushed_chain :
      (c : Ref) (k : Bool) (o' : Object)
      → lookup c (adjust dest (set_head k0 x) m) ≡ some o'
      → IsChain (adjust dest (set_head k0 x) m) (head_of k o') (With x dest k0 lists c k)
  pushed_chain c k o' e =
      let g : Objects = adjust dest (set_head k0 x) m in
      let (v, (h, q)) = lookup_after m dest (set_head k0 x) c o' e in
      let rest : IsChain g (head_of k v) (lists c k) =
        IsChain-frame m g (head_of k v) (lists c k) (λ y i. next_of-set_head m dest x k0 y)
          (th.chained c k v h) in
      elim (Bool-cases ((c =? dest) && agrees k0 k)) [
        | inl t ↦
            let same : k0 ≡ k = eq_of_agrees k0 k (ground arith) in
            let first : head_of k o' ≡ x = rw (← same) (ground (arith, head_of-set_head k0 x v)) in
            let link : next_of g x ≡ some (head_of k v) =
              ground (arith, next_of-set_head m dest x k0 x) in
            rw (t, first) (refl, (head_of k v, link, rest))
        | inr t ↦ let kept = head_unchanged c dest x k0 k o' v t q in rw (t, kept) rest
      ]

  pub Threads-push :
      Threads
        (adjust dest (set_head k0 x) m)
        (With x dest k0 lists)
        (belongs (adjust dest (set_head k0 x) m))
  Threads-push = record {
    chained = pushed_chain;
    distinct = λ c k o' e.
        let (v, (h, q)) = lookup_after m dest (set_head k0 x) c o' e in
        ground (arith, th.distinct c k v h, th.exact c k v h x);
    exact = λ c k o' e y.
        let (v, (h, q)) = lookup_after m dest (set_head k0 x) c o' e in
        rw
          (belongs-adjust m dest (set_head k0 x) (location-set_head k0 x) (flags-set_head k0 x) c k
            y)
          (ground (arith, th.exact c k v h y, belongs_self c k));
  }
