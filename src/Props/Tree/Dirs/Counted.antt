-- ===== src/Props/Tree/Dirs/Counted.antt =====
-- `DeleteDir` keeps a tree in order and its count right.
use fuzzball_emerald.Prelude.{
  ℕ, ◌+◌, ◌≡◌, refl, sym, ap, ◌∙◌, List, [], ◌∷◌, Option, none, some, arith, Bytes, bytes_eq,
  Bool-cases, inl, inr,
}
use fuzzball_emerald.Ascii.{fold}
use fuzzball_emerald.Props.Order.{bytes_lt}
use fuzzball_emerald.Props.Tree.{
  Node, Kids, nil, cons, Tree, key_of, kids_of, child, descend, lookup_node, count_values,
  count_kids, split, value_of,
}
use fuzzball_emerald.Props.Tree.Sorted.{
  IsSorted, IsSortedKids, sorted_nil, sorted_cons, AllAbove, AllAbove-eq, IsTame, key_of-with_kids,
  with_kids-IsSorted, kids_sorted,
}
use fuzzball_emerald.Props.Tree.Count.{IsCounted, count-with_kids, bare_root-with_kids}
use fuzzball_emerald.Props.Tree.Dirs.{
  edit_child, put_child, remove_at, remove_found, delete_dir_segs, delete_dir,
}

-- How many properties lie at or below what was found.
abbrev pub size : Option Node → ℕ
size none = 0
size (some n) = count_values n

module _ (f : Bytes) (down : Node → Option Node) (edit : Node → Option Node)
    (drops : (k : Node) → size (edit k) + size (down k) ≡ count_values k) where
  count-put_child :
      (o : Option Node) (ks : Kids) → count_kids (put_child o ks) ≡ size o + count_kids ks
  unfolding count_kids
  count-put_child none ks = omega arith
  count-put_child (some k) ks = refl

  count-edit_child :
      (ks : Kids)
      → count_kids (edit_child f edit ks) + size (descend down (child f ks)) ≡ count_kids ks
  unfolding edit_child child count_kids
  count-edit_child nil = omega arith
  count-edit_child (cons k ks) = elim (Bool-cases (bytes_lt (key_of k) f)) [
    | inl lt ↦ rw lt (omega (arith, count-edit_child ks))
    | inr ge ↦ elim (Bool-cases (bytes_eq (key_of k) f)) [
      | inr ne ↦ rw (ge, ne) (omega arith)
      | inl eq ↦ rw (ge, eq) (omega (arith, drops k, count-put_child (edit k) ks))
    ]
  ]

count-remove_at :
    (seg : Bytes) (segs : List Bytes) (n : Node)
    → count_values (remove_at seg segs n) + size (lookup_node (seg ∷ segs) n) ≡ count_values n
unfolding remove_at lookup_node
count-remove_at seg [] n = omega (
  arith,
  count-with_kids n (edit_child (fold seg) (λ k. none) (kids_of n)),
  count-edit_child (fold seg) (lookup_node []) (λ k. none) (λ k. omega arith) (kids_of n),
)
count-remove_at seg (s ∷ segs) n = omega (
  arith,
  count-with_kids n (edit_child (fold seg) (λ k. some (remove_at s segs k)) (kids_of n)),
  count-edit_child (fold seg) (lookup_node (s ∷ segs)) (λ k. some (remove_at s segs k))
      (count-remove_at s segs) (kids_of n),
)

-- An edit that keeps what it keeps under its key, and in order.
abbrev pub Keeps : Node → Option Node → Type 0
Keeps k none = Unit
Keeps k (some k') = (key_of k' ≡ key_of k) × (IsSorted k → IsSorted k')

module _ (f : Bytes) (edit : Node → Option Node) (tame : (k : Node) → Keeps k (edit k)) where
  AllAbove-put_child :
      (g : Bytes) (k : Node) (o : Option Node) (ks : Kids)
      → Keeps k o
      → AllAbove g (cons k ks)
      → AllAbove g (put_child o ks)
  AllAbove-put_child g k none ks t a = a.1
  AllAbove-put_child g k (some k') ks t a = (rw (t.0) (a.0), a.1)

  AllAbove-edit_child : (g : Bytes) (ks : Kids) → AllAbove g ks → AllAbove g (edit_child f edit ks)
  unfolding edit_child
  AllAbove-edit_child g nil a = tt
  AllAbove-edit_child g (cons k ks) a = elim (Bool-cases (bytes_lt (key_of k) f)) [
    | inl lt ↦ rw lt (a.0, AllAbove-edit_child g ks a.1)
    | inr ge ↦ elim (Bool-cases (bytes_eq (key_of k) f)) [
      | inr ne ↦ rw (ge, ne) a
      | inl eq ↦ rw (ge, eq) (AllAbove-put_child g k (edit k) ks (tame k) a)
    ]
  ]

  put_child-IsSortedKids :
      (k : Node) (o : Option Node) (ks : Kids)
      → Keeps k o
      → IsSorted k
      → AllAbove (key_of k) ks
      → IsSortedKids ks
      → IsSortedKids (put_child o ks)
  put_child-IsSortedKids k none ks t s a h = h
  put_child-IsSortedKids k (some k') ks t s a h = sorted_cons (t.1 s) (AllAbove-eq ks (sym t.0) a) h

  edit_child-IsSortedKids : (ks : Kids) → IsSortedKids ks → IsSortedKids (edit_child f edit ks)
  unfolding edit_child
  edit_child-IsSortedKids nil h = sorted_nil
  edit_child-IsSortedKids (cons k ks) (sorted_cons s a h) =
      elim (Bool-cases (bytes_lt (key_of k) f)) [
        | inl lt ↦
            rw lt
              (sorted_cons s (AllAbove-edit_child (key_of k) ks a) (edit_child-IsSortedKids ks h))
        | inr ge ↦ elim (Bool-cases (bytes_eq (key_of k) f)) [
          | inr ne ↦ rw (ge, ne) (sorted_cons s a h)
          | inl eq ↦ rw (ge, eq) (put_child-IsSortedKids k (edit k) ks (tame k) s a h)
        ]
      ]

pub remove_at-IsTame : (seg : Bytes) (segs : List Bytes) → IsTame (remove_at seg segs)
unfolding remove_at
remove_at-IsTame seg [] = record {
  keeps_key = λ n. key_of-with_kids n _;
  keeps_sorted = λ n h.
      with_kids-IsSorted n _ h
        (edit_child-IsSortedKids (fold seg) (λ k. none) (λ k. tt) (kids_of n) (kids_sorted h));
}
remove_at-IsTame seg (s ∷ segs) =
    let below = remove_at-IsTame s segs in
    record {
      keeps_key = λ n. key_of-with_kids n _;
      keeps_sorted = λ n h. with_kids-IsSorted n _ h (
          edit_child-IsSortedKids (fold seg) (λ k. some (remove_at s segs k))
            (λ k. (below.keeps_key k, below.keeps_sorted k)) (kids_of n) (kids_sorted h));
    }

bare_root-remove_at :
    (seg : Bytes) (segs : List Bytes) (n : Node)
    → value_of (some (remove_at seg segs n)) ≡ value_of (some n)
unfolding remove_at
bare_root-remove_at seg [] n = bare_root-with_kids n _
bare_root-remove_at seg (s ∷ segs) n = bare_root-with_kids n _

remove_found-IsCounted :
    (seg : Bytes) (segs : List Bytes) (o : Option Node) (t : Tree)
    → lookup_node (seg ∷ segs) t.root ≡ o
    → IsCounted t
    → IsCounted (remove_found seg segs o t).0
      × ((remove_found seg segs o t).0.n + (remove_found seg segs o t).1 ≡ t.n)
remove_found-IsCounted seg segs none t e h = (h, omega arith)
remove_found-IsCounted seg segs (some k) t e h =
    let count : count_values (remove_at seg segs t.root) + count_values k ≡ count_values t.root =
      ap (λ o. count_values (remove_at seg segs t.root) + size o) (sym e)
      ∙ count-remove_at seg segs t.root in
    (
      record {
        tree = record {
          sorted = (remove_at-IsTame seg segs).keeps_sorted t.root h.tree.sorted;
          bare_root = bare_root-remove_at seg segs t.root ∙ h.tree.bare_root;
        };
        counted = omega (arith, count, h.counted);
      },
      omega (arith, count, h.counted),
    )

-- Where every directory is sorted, the root carries no value and the count is the number of
-- properties, `DeleteDir` keeps all three so, and what it answers is by how many the count went
-- down.
pub delete_dir-IsCounted :
    (t : Tree) (path : Bytes)
    → IsCounted t
    → IsCounted (delete_dir t path).0 × ((delete_dir t path).0.n + (delete_dir t path).1 ≡ t.n)
unfolding delete_dir delete_dir_segs
delete_dir-IsCounted t path h = from (split path)
  where
    from :
        (p : List Bytes)
        → IsCounted (delete_dir_segs p t).0
          × ((delete_dir_segs p t).0.n + (delete_dir_segs p t).1 ≡ t.n)
    from [] = (h, omega arith)
    from (seg ∷ segs) = remove_found-IsCounted seg segs (lookup_node (seg ∷ segs) t.root) t refl h
