-- ===== src/Props/Tree/Sorted.antt =====
-- Every directory of a tree is sorted strictly by its folded names, and stays so under every write:
-- what `find`'s binary search relies on.
use fuzzball_emerald.Prelude.{
  ◌≡◌, refl, sym, Bool, true, List, [], ◌∷◌, Option, Bytes, bytes_eq, Bool-cases, inl, inr,
}
use mathlib.Core.Path.{subst}
use fuzzball_emerald.Ascii.{fold}
use fuzzball_emerald.Props.Value.{Content}
use fuzzball_emerald.Props.Order.{bytes_lt, bytes_lt_trans, bytes_lt_total}
use fuzzball_emerald.Props.Tree.{
  Node, node, Kids, nil, cons, key_of, kids_of, fresh, make_child, with_kids, set_node, write_value,
  clear_value, prune_child, delete_node, is_bare,
}

-- Every key of a directory lies above `f`.
abbrev pub AllAbove : Bytes → Kids → Type 0
AllAbove f nil = Unit
AllAbove f (cons k ks) = (bytes_lt f (key_of k) ≡ true) × AllAbove f ks

mutual
  pub data IsSorted : Node → Type 0 where
    sorted_node :
        {name key : Bytes} {val : Option Content} {blessed : Bool} {kids : Kids}
        → key ≡ fold name
        → IsSortedKids kids
        → IsSorted (node name key val blessed kids)

  pub data IsSortedKids : Kids → Type 0 where
    sorted_nil : IsSortedKids nil
    sorted_cons :
        {k : Node} {ks : Kids}
        → IsSorted k
        → AllAbove (key_of k) ks
        → IsSortedKids ks
        → IsSortedKids (cons k ks)

-- What is written through a child's pointer leaves its key, and keeps what is below it sorted.
pub record IsTame (write : Node → Node) : Type 0 where
  pub keeps_key : (k : Node) → key_of (write k) ≡ key_of k
  pub keeps_sorted : (k : Node) → IsSorted k → IsSorted (write k)

pub AllAbove-trans : (f g : Bytes) (ks : Kids) → bytes_lt f g ≡ true → AllAbove g ks → AllAbove f ks
AllAbove-trans f g nil h a = tt
AllAbove-trans f g (cons k ks) h a =
    (bytes_lt_trans f g (key_of k) h a.0, AllAbove-trans f g ks h a.1)

pub AllAbove-eq : {f g : Bytes} (ks : Kids) → f ≡ g → AllAbove f ks → AllAbove g ks
AllAbove-eq ks e a = subst (λ h. AllAbove h ks) e a

pub key_of-with_kids : (n : Node) (ks : Kids) → key_of (with_kids n ks) ≡ key_of n
key_of-with_kids (node name key val blessed kids) ks = refl

pub kids_sorted : {n : Node} → IsSorted n → IsSortedKids (kids_of n)
kids_sorted (sorted_node e h) = h

pub with_kids-IsSorted :
    (n : Node) (ks : Kids) → IsSorted n → IsSortedKids ks → IsSorted (with_kids n ks)
with_kids-IsSorted (node name key val blessed kids) ks (sorted_node e h) k = sorted_node e k

module _ (name : Bytes) (write : Node → Node) (tame : IsTame write) where
  fresh_key : key_of (write (fresh name)) ≡ fold name
  fresh_key = tame.keeps_key (fresh name)

  fresh-IsSorted : IsSorted (write (fresh name))
  fresh-IsSorted = tame.keeps_sorted (fresh name) (sorted_node refl sorted_nil)

  AllAbove-make_child :
      (f : Bytes) (ks : Kids)
      → bytes_lt f (fold name) ≡ true
      → AllAbove f ks
      → AllAbove f (make_child name write ks)
  unfolding make_child
  AllAbove-make_child f nil h a = (rw fresh_key h, tt)
  AllAbove-make_child f (cons k ks) h a = elim (Bool-cases (bytes_lt (key_of k) (fold name))) [
    | inl lt ↦ rw lt (a.0, AllAbove-make_child f ks h a.1)
    | inr ge ↦ elim (Bool-cases (bytes_eq (key_of k) (fold name))) [
      | inl eq ↦ rw (ge, eq) (rw (tame.keeps_key k) (a.0), a.1)
      | inr ne ↦ rw (ge, ne) (rw fresh_key h, a)
    ]
  ]

  make_child-IsSortedKids : (ks : Kids) → IsSortedKids ks → IsSortedKids (make_child name write ks)
  unfolding make_child
  make_child-IsSortedKids nil h = sorted_cons fresh-IsSorted tt sorted_nil
  make_child-IsSortedKids (cons k ks) (sorted_cons s a h) =
      elim (Bool-cases (bytes_lt (key_of k) (fold name))) [
        | inl lt ↦
            rw lt (
              sorted_cons s (AllAbove-make_child (key_of k) ks lt a) (make_child-IsSortedKids ks h))
        | inr ge ↦ elim (Bool-cases (bytes_eq (key_of k) (fold name))) [
          | inl eq ↦
              rw (ge, eq)
                (sorted_cons (tame.keeps_sorted k s) (AllAbove-eq ks (sym (tame.keeps_key k)) a) h)
          | inr ne ↦
              let above : bytes_lt (fold name) (key_of k) ≡ true =
                bytes_lt_total (key_of k) (fold name) ge ne in
              rw (ge, ne)
                (sorted_cons fresh-IsSorted
                  (AllAbove-eq (cons k ks) (sym fresh_key)
                    (above, AllAbove-trans (fold name) (key_of k) ks above a))
                  (sorted_cons s a h))
        ]
      ]

pub set_node-IsTame :
    (segs : List Bytes) (write : Node → Node) → IsTame write → IsTame (set_node segs write)
unfolding set_node
set_node-IsTame [] write t = t
set_node-IsTame (seg ∷ segs) write t = record {
  keeps_key = λ n. key_of-with_kids n _;
  keeps_sorted = λ n h. with_kids-IsSorted n _ h (
      make_child-IsSortedKids seg (set_node segs write) (set_node-IsTame segs write t) (kids_of n)
        (kids_sorted h));
}

pub write_value-IsTame : (v : Content) (b : Bool) → IsTame (write_value v b)
write_value-IsTame v b = record { keeps_key = key_same; keeps_sorted = sorted_same }
  where
    key_same : (k : Node) → key_of (write_value v b k) ≡ key_of k
    key_same (node name key val blessed kids) = refl

    sorted_same : (k : Node) → IsSorted k → IsSorted (write_value v b k)
    sorted_same (node name key val blessed kids) (sorted_node e h) = sorted_node e h

clear_value-IsTame : IsTame clear_value
clear_value-IsTame = record { keeps_key = key_same; keeps_sorted = sorted_same }
  where
    key_same : (k : Node) → key_of (clear_value k) ≡ key_of k
    key_same (node name key val blessed kids) = refl

    sorted_same : (k : Node) → IsSorted k → IsSorted (clear_value k)
    sorted_same (node name key val blessed kids) (sorted_node e h) = sorted_node e h

module _ (f : Bytes) (write : Node → Node) (tame : IsTame write) where
  AllAbove-prune_child :
      (g : Bytes) (ks : Kids) → AllAbove g ks → AllAbove g (prune_child f write ks)
  unfolding prune_child
  AllAbove-prune_child g nil a = tt
  AllAbove-prune_child g (cons k ks) a = elim (Bool-cases (bytes_lt (key_of k) f)) [
    | inl lt ↦ rw lt (a.0, AllAbove-prune_child g ks a.1)
    | inr ge ↦ elim (Bool-cases (bytes_eq (key_of k) f)) [
      | inr ne ↦ rw (ge, ne) a
      | inl eq ↦ elim (Bool-cases (is_bare (write k))) [
        | inl bare ↦ rw (ge, eq, bare) (a.1)
        | inr kept ↦ rw (ge, eq, kept) (rw (tame.keeps_key k) (a.0), a.1)
      ]
    ]
  ]

  prune_child-IsSortedKids : (ks : Kids) → IsSortedKids ks → IsSortedKids (prune_child f write ks)
  unfolding prune_child
  prune_child-IsSortedKids nil h = sorted_nil
  prune_child-IsSortedKids (cons k ks) (sorted_cons s a h) =
      elim (Bool-cases (bytes_lt (key_of k) f)) [
        | inl lt ↦
            rw lt
              (sorted_cons s (AllAbove-prune_child (key_of k) ks a) (prune_child-IsSortedKids ks h))
        | inr ge ↦ elim (Bool-cases (bytes_eq (key_of k) f)) [
          | inr ne ↦ rw (ge, ne) (sorted_cons s a h)
          | inl eq ↦ elim (Bool-cases (is_bare (write k))) [
            | inl bare ↦ rw (ge, eq, bare) h
            | inr kept ↦
                rw (ge, eq, kept)
                  (sorted_cons (tame.keeps_sorted k s) (AllAbove-eq ks (sym (tame.keeps_key k)) a)
                    h)
          ]
        ]
      ]

pub delete_node-IsTame : (segs : List Bytes) → IsTame (delete_node segs)
unfolding delete_node
delete_node-IsTame [] = clear_value-IsTame
delete_node-IsTame (seg ∷ segs) = record {
  keeps_key = λ n. key_of-with_kids n _;
  keeps_sorted = λ n h. with_kids-IsSorted n _ h (
      prune_child-IsSortedKids (fold seg) (delete_node segs) (delete_node-IsTame segs) (kids_of n)
        (kids_sorted h));
}
