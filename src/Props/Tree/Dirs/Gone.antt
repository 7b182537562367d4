-- ===== src/Props/Tree/Dirs/Gone.antt =====
-- What `DeleteDir` removes is no longer found.
use fuzzball_emerald.Prelude.{
  ◌≡◌, ◌≢◌, refl, ◌∙◌, List, [], ◌∷◌, Option, none, some, Bytes, bytes_eq, bytes_eq_iff, Bool-cases,
  inl, inr,
}
use mathlib.Core.Path.{subst}
use fuzzball_emerald.Ascii.{fold}
use fuzzball_emerald.Props.Order.{bytes_lt, bytes_lt_total}
use fuzzball_emerald.Props.Tree.{
  Node, node, Kids, nil, cons, Tree, key_of, kids_of, child, descend, with_kids, lookup_node,
  lookup, split,
}
use fuzzball_emerald.Props.Tree.Sorted.{IsSorted, IsSortedKids, sorted_cons, AllAbove, kids_sorted}
use fuzzball_emerald.Props.Tree.Lookup.{
  child_past, child_short, child-nil, child_hit, child-AllAbove,
}
use fuzzball_emerald.Props.Tree.Refines.{IsTree}
use fuzzball_emerald.Props.Tree.Dirs.{
  edit_child, put_child, remove_at, remove_found, delete_dir_segs, delete_dir,
}
use fuzzball_emerald.Props.Tree.Dirs.Counted.{Keeps, remove_at-IsTame}

abbrev edited : (Node → Option Node) → Option Node → Option Node
edited edit none = none
edited edit (some k) = edit k

module _ (f : Bytes) (edit : Node → Option Node) (tame : (k : Node) → Keeps k (edit k)) where
  child-put_child :
      (k : Node) (o : Option Node) (ks : Kids)
      → Keeps k o
      → key_of k ≡ f
      → AllAbove (key_of k) ks
      → child f (put_child o ks) ≡ o
  child-put_child k none ks t e a = child-AllAbove f ks (subst (λ g. AllAbove g ks) e a)
  child-put_child k (some k') ks t e a = child_hit f k' ks (t.0 ∙ e)

  child-edit_child :
      (ks : Kids) → IsSortedKids ks → child f (edit_child f edit ks) ≡ edited edit (child f ks)
  unfolding edit_child
  child-edit_child nil h = rw (child-nil f)
  child-edit_child (cons k ks) (sorted_cons s a h) = elim (Bool-cases (bytes_lt (key_of k) f)) [
    | inl lt ↦ rw lt (
        rw (child_past f k ks lt, child_past f k (edit_child f edit ks) lt) (child-edit_child ks h))
    | inr ge ↦ elim (Bool-cases (bytes_eq (key_of k) f)) [
      | inr ne ↦ let above = bytes_lt_total _ _ ge ne in rw (ge, ne) (rw (child_short f k ks above))
      | inl eq ↦
          let e : key_of k ≡ f = (bytes_eq_iff _ _).0 eq in
          rw (ge, eq) (rw (child_hit f k ks e) (child-put_child k (edit k) ks (tame k) e a))
    ]
  ]

kids_of-with_kids : (n : Node) (ks : Kids) → kids_of (with_kids n ks) ≡ ks
kids_of-with_kids (node name key val blessed kids) ks = refl

abbrev OptSorted : Option Node → Type 0
OptSorted none = Unit
OptSorted (some k) = IsSorted k

child-OptSorted : (f : Bytes) (ks : Kids) → IsSortedKids ks → OptSorted (child f ks)
unfolding child
child-OptSorted f nil h = tt
child-OptSorted f (cons k ks) (sorted_cons s a h) = elim (Bool-cases (bytes_lt (key_of k) f)) [
  | inl lt ↦ rw lt (child-OptSorted f ks h)
  | inr ge ↦ elim (Bool-cases (bytes_eq (key_of k) f)) [
    | inr ne ↦ rw (ge, ne) tt
    | inl eq ↦ rw (ge, eq) s
  ]
]

nothing_left :
    (down : Node → Option Node) (o : Option Node) → descend down (edited (λ k. none) o) ≡ none
nothing_left down none = refl
nothing_left down (some k) = refl

gone_below :
    (down : Node → Option Node) (change : Node → Node) (o : Option Node)
    → ((k : Node) → IsSorted k → down (change k) ≡ none)
    → OptSorted o
    → descend down (edited (λ k. some (change k)) o) ≡ none
gone_below down change none g h = refl
gone_below down change (some k) g h = g k h

lookup_node-remove_at :
    (seg : Bytes) (segs : List Bytes) (n : Node)
    → IsSorted n
    → lookup_node (seg ∷ segs) (remove_at seg segs n) ≡ none
unfolding lookup_node remove_at
lookup_node-remove_at seg [] n h =
    rw (kids_of-with_kids n (edit_child (fold seg) (λ k. none) (kids_of n))) (
      rw (child-edit_child (fold seg) (λ k. none) (λ k. tt) (kids_of n) (kids_sorted h))
        (nothing_left (lookup_node []) (child (fold seg) (kids_of n))))
lookup_node-remove_at seg (s ∷ segs) n h =
    let below = remove_at-IsTame s segs in
    rw (kids_of-with_kids n (edit_child (fold seg) (λ k. some (remove_at s segs k)) (kids_of n))) (
      rw
        (child-edit_child (fold seg) (λ k. some (remove_at s segs k))
          (λ k. (below.keeps_key k, below.keeps_sorted k)) (kids_of n) (kids_sorted h))
        (gone_below (lookup_node (s ∷ segs)) (remove_at s segs) (child (fold seg) (kids_of n))
          (lookup_node-remove_at s segs) (child-OptSorted (fold seg) (kids_of n) (kids_sorted h))))

remove_found-gone :
    (seg : Bytes) (segs : List Bytes) (o : Option Node) (t : Tree)
    → lookup_node (seg ∷ segs) t.root ≡ o
    → IsTree t
    → lookup_node (seg ∷ segs) (remove_found seg segs o t).0.root ≡ none
remove_found-gone seg segs none t e h = e
remove_found-gone seg segs (some k) t e h = lookup_node-remove_at seg segs t.root h.sorted

-- After `DeleteDir` of a path that names something, in a tree whose directories are sorted and
-- whose root carries no value, nothing is found at that path: no value and no directory.
pub delete_dir-lookup :
    (t : Tree) (path : Bytes)
    → IsTree t
    → split path ≢ []
    → lookup (delete_dir t path).0 path ≡ none
unfolding delete_dir delete_dir_segs lookup
delete_dir-lookup t path h named = from (split path) named
  where
    from : (p : List Bytes) → p ≢ [] → lookup_node p (delete_dir_segs p t).0.root ≡ none
    from [] ne = absurd (ne refl)
    from (seg ∷ segs) ne = remove_found-gone seg segs (lookup_node (seg ∷ segs) t.root) t refl h
