-- ===== src/Props/Tree/Count.antt =====
-- The count that a tree keeps is the number of its properties, and every write keeps the tree in order.
use fuzzball_emerald.Prelude.{
  ℕ, ◌+◌, ◌≡◌, refl, ap, ◌∙◌, Bool, true, List, [], ◌∷◌, Option, none, some, arith, if◌then◌else◌,
  Bytes, bytes_eq, Bool-cases, inl, inr,
}
use fuzzball_emerald.Ascii.{fold}
use fuzzball_emerald.Props.Value.{Content, Value, is_empty}
use fuzzball_emerald.Props.Order.{bytes_lt}
use fuzzball_emerald.Props.Tree.{
  new, Node, node, Kids, nil, cons, Tree, key_of, kids_of, child, descend, fresh, make_child,
  with_kids, set_node, write_value, clear_value, prune_child, delete_node, is_bare, lookup_node,
  value_of, set, delete, split, has_value, delete_segs, delete_found, set_segs, count_values,
  count_kids,
}
use fuzzball_emerald.Props.Tree.Sorted.{
  sorted_node, sorted_nil, write_value-IsTame, set_node-IsTame, delete_node-IsTame,
}
use fuzzball_emerald.Props.Tree.Refines.{IsTree}

-- One for a node that carries a value.
abbrev carries : Option Node → ℕ
carries o = if has_value o then 1 else 0

module _ (down : Node → Option Node) (name : Bytes) (write : Node → Node)
    (adds : (k : Node) → count_values (write k) + carries (down k) ≡ count_values k + 1)
    (starts_empty : carries (down (fresh name)) ≡ 0) where
  fresh_counts : count_values (write (fresh name)) ≡ 1
  fresh_counts = unfold count_values in omega (arith, adds (fresh name), starts_empty)

  count_kids-make_child :
      (ks : Kids)
      → count_kids (make_child name write ks) + carries (descend down (child (fold name) ks))
        ≡ count_kids ks + 1
  unfolding make_child child count_kids
  count_kids-make_child nil = omega (arith, fresh_counts)
  count_kids-make_child (cons k ks) = elim (Bool-cases (bytes_lt (key_of k) (fold name))) [
    | inl lt ↦ rw lt (omega (arith, count_kids-make_child ks))
    | inr ge ↦ elim (Bool-cases (bytes_eq (key_of k) (fold name))) [
      | inl eq ↦ rw (ge, eq) (omega (arith, adds k))
      | inr ne ↦ rw (ge, ne) (omega (arith, fresh_counts))
    ]
  ]

pub count-with_kids :
    (n : Node) (ks : Kids)
    → count_values (with_kids n ks) + count_kids (kids_of n) ≡ count_values n + count_kids ks
unfolding count_values
count-with_kids (node name key none blessed kids) ks = omega arith
count-with_kids (node name key (some v) blessed kids) ks = omega arith

fresh_is_empty : (segs : List Bytes) (name : Bytes) → carries (lookup_node segs (fresh name)) ≡ 0
unfolding lookup_node child
fresh_is_empty [] name = refl
fresh_is_empty (seg ∷ segs) name = refl

write_value_adds :
    (v : Content) (b : Bool) (n : Node)
    → count_values (write_value v b n) + carries (some n) ≡ count_values n + 1
unfolding count_values
write_value_adds v b (node name key none blessed kids) = omega arith
write_value_adds v b (node name key (some _) blessed kids) = omega arith

module _ (v : Content) (b : Bool) where
  count-set_node :
      (p : List Bytes) (n : Node)
      → count_values (set_node p (write_value v b) n) + carries (lookup_node p n)
        ≡ count_values n + 1
  unfolding set_node lookup_node
  count-set_node [] n = write_value_adds v b n
  count-set_node (a ∷ p) n =
      let w = set_node p (write_value v b) in
      omega (
        arith,
        count-with_kids n (make_child a w (kids_of n)),
        count_kids-make_child (lookup_node p) a w (count-set_node p) (fresh_is_empty p a)
            (kids_of n),
      )

count-bare : (k : Node) → is_bare k ≡ true → count_values k ≡ 0
unfolding count_values
count-bare (node name key none blessed nil) h = refl
count-bare (node name key none blessed (cons k ks)) h = cc
count-bare (node name key (some v) blessed kids) h = cc

module _ (down : Node → Option Node) (f : Bytes) (write : Node → Node)
    (drops : (k : Node) → count_values (write k) + carries (down k) ≡ count_values k) where
  count_kids-prune_child :
      (ks : Kids)
      → count_kids (prune_child f write ks) + carries (descend down (child f ks)) ≡ count_kids ks
  unfolding prune_child child count_kids
  count_kids-prune_child nil = refl
  count_kids-prune_child (cons k ks) = elim (Bool-cases (bytes_lt (key_of k) f)) [
    | inl lt ↦ rw lt (omega (arith, count_kids-prune_child ks))
    | inr ge ↦ elim (Bool-cases (bytes_eq (key_of k) f)) [
      | inr ne ↦ rw (ge, ne) (omega arith)
      | inl eq ↦ elim (Bool-cases (is_bare (write k))) [
        | inl bare ↦ rw (ge, eq, bare) (omega (arith, drops k, count-bare (write k) bare))
        | inr kept ↦ rw (ge, eq, kept) (omega (arith, drops k))
      ]
    ]
  ]

clear_value_drops : (n : Node) → count_values (clear_value n) + carries (some n) ≡ count_values n
unfolding count_values
clear_value_drops (node name key none blessed kids) = omega arith
clear_value_drops (node name key (some v) blessed kids) = omega arith

count-delete_node :
    (p : List Bytes) (n : Node)
    → count_values (delete_node p n) + carries (lookup_node p n) ≡ count_values n
unfolding delete_node lookup_node
count-delete_node [] n = clear_value_drops n
count-delete_node (a ∷ p) n = omega (
  arith,
  count-with_kids n (prune_child (fold a) (delete_node p) (kids_of n)),
  count_kids-prune_child (lookup_node p) (fold a) (delete_node p) (count-delete_node p) (kids_of n),
)

-- A tree in order, whose count is the number of its properties.
pub record IsCounted (t : Tree) : Type 0 where
  pub tree : IsTree t
  pub counted : t.n ≡ count_values t.root

pub new-IsCounted : IsCounted new
unfolding new count_values
new-IsCounted = record {
  tree = record {
    sorted = sorted_node {name = []} {key = []} (unfold fold in refl) sorted_nil;
    bare_root = refl;
  };
  counted = refl;
}

pub bare_root-with_kids :
    (n : Node) (ks : Kids) → value_of (some (with_kids n ks)) ≡ value_of (some n)
bare_root-with_kids (node name key none blessed kids) ks = refl
bare_root-with_kids (node name key (some v) blessed kids) ks = refl

delete_found-IsCounted :
    (a : Bytes) (p : List Bytes) (o : Option Node) (t : Tree)
    → lookup_node (a ∷ p) t.root ≡ o
    → IsCounted t
    → IsCounted (delete_found (a ∷ p) o t).0
unfolding delete_found
delete_found-IsCounted a p none t e h = h
delete_found-IsCounted a p (some n) t e h =
    let e' : has_value (lookup_node (a ∷ p) t.root) ≡ has_value (some n) = ap has_value e in
    record {
      tree = record {
        sorted = (delete_node-IsTame (a ∷ p)).keeps_sorted t.root h.tree.sorted;
        bare_root = unfold delete_node in bare_root-with_kids t.root _ ∙ h.tree.bare_root;
      };
      counted = ground (arith, count-delete_node (a ∷ p) t.root, h.counted, e');
    }

delete_segs-IsCounted : (p : List Bytes) (t : Tree) → IsCounted t → IsCounted (delete_segs p t).0
unfolding delete_segs
delete_segs-IsCounted [] t h = h
delete_segs-IsCounted (a ∷ p) t h = delete_found-IsCounted a p (lookup_node (a ∷ p) t.root) t refl h

pub delete-IsCounted : (t : Tree) (path : Bytes) → IsCounted t → IsCounted (delete t path).0
unfolding delete
delete-IsCounted t path h = delete_segs-IsCounted (split path) t h

set_segs-IsCounted :
    (p : List Bytes) (v : Value) (t : Tree) → IsCounted t → IsCounted (set_segs p v t)
unfolding set_segs
set_segs-IsCounted [] v t h = h
set_segs-IsCounted (a ∷ p) v t h = elim (Bool-cases (is_empty v.content)) [
  | inl e ↦ rw e (delete_segs-IsCounted (a ∷ p) t h)
  | inr e ↦
      let w = write_value v.content v.blessed in
      rw e (record {
        tree = record {
          sorted =
              (set_node-IsTame (a ∷ p) w (write_value-IsTame v.content v.blessed)).keeps_sorted
                t.root h.tree.sorted;
          bare_root = unfold set_node in bare_root-with_kids t.root _ ∙ h.tree.bare_root;
        };
        counted = ground (arith, count-set_node v.content v.blessed (a ∷ p) t.root, h.counted);
      })
]

pub set-IsCounted : (t : Tree) (path : Bytes) (v : Value) → IsCounted t → IsCounted (set t path v)
unfolding set
set-IsCounted t path v h = set_segs-IsCounted (split path) v t h

-- Where every directory is sorted, the root carries no value and the count is the number of
-- properties, `Set` keeps all three so, whether it stores, overwrites or unsets, and so does
-- `Delete`, on every path.
pub set-delete-IsCounted :
    (t : Tree) (path : Bytes) (v : Value)
    → IsCounted t
    → IsCounted (set t path v) × IsCounted (delete t path).0
set-delete-IsCounted t path v h = (set-IsCounted t path v h, delete-IsCounted t path h)
