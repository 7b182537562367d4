-- ===== src/Props/Tree/Walk/Entries.antt =====
-- What the walks visit.
use fuzzball_emerald.Prelude.{
  ◌≡◌, refl, sym, ap, ◌∙◌, Bool, true, false, List, [], ◌∷◌, ◌++◌, none, some, arith, Bytes, length,
  length-append,
}
use fuzzball_emerald.Props.Tree.{
  Node, node, Kids, nil, cons, Tree, kids_of, count_values, count_kids, value_of,
}
use fuzzball_emerald.Props.Tree.Count.{IsCounted}
use fuzzball_emerald.Props.Tree.Walk.{
  Entry, join_path, entry_of, walk, walk_child, walk_all, walk_all_child, all,
}

mutual
  unfolding walk count_kids count_values

  length-walk : (ks : Kids) (prefix : Bytes) → length (walk ks prefix) ≡ count_kids ks
  length-walk nil prefix = refl
  length-walk (cons k ks) prefix = omega (
    arith,
    length-append (walk_child k prefix) (walk ks prefix),
    length-walk_child k prefix,
    length-walk ks prefix,
  )

  length-walk_child : (k : Node) (prefix : Bytes) → length (walk_child k prefix) ≡ count_values k
  length-walk_child (node name key none blessed kids) prefix =
      length-walk kids (join_path prefix name)
  length-walk_child (node name key (some v) blessed kids) prefix =
      omega (arith, length-walk kids (join_path prefix name))

count-bare : (n : Node) → value_of (some n) ≡ none → count_values n ≡ count_kids (kids_of n)
unfolding count_values
count-bare (node name key none blessed kids) h = refl
count-bare (node name key (some v) blessed kids) h = ground arith

abbrev keep_unless : Bool → Entry → List Entry → List Entry
keep_unless true e es = es
keep_unless false e es = e ∷ es

-- The entries that are not directories.
abbrev pub without_dirs : List Entry → List Entry
without_dirs [] = []
without_dirs (e ∷ es) = keep_unless e.dir e (without_dirs es)

keep_unless-append :
    (t : Bool) (e : Entry) (xs ys : List Entry)
    → keep_unless t e (xs ++ ys) ≡ keep_unless t e xs ++ ys
keep_unless-append true e xs ys = refl
keep_unless-append false e xs ys = refl

without_dirs-append :
    (xs ys : List Entry) → without_dirs (xs ++ ys) ≡ without_dirs xs ++ without_dirs ys
without_dirs-append [] ys = refl
without_dirs-append (e ∷ xs) ys =
    ap (keep_unless e.dir e) (without_dirs-append xs ys)
    ∙ keep_unless-append e.dir e (without_dirs xs) (without_dirs ys)

mutual
  unfolding walk walk_all

  without_dirs-walk_all :
      (ks : Kids) (prefix : Bytes) → without_dirs (walk_all ks prefix) ≡ walk ks prefix
  without_dirs-walk_all nil prefix = refl
  without_dirs-walk_all (cons k ks) prefix =
      rw (without_dirs-append (walk_all_child k prefix) (walk_all ks prefix))
        (rw (without_dirs-walk_all_child k prefix) (rw (without_dirs-walk_all ks prefix)))

  without_dirs-walk_all_child :
      (k : Node) (prefix : Bytes) → without_dirs (walk_all_child k prefix) ≡ walk_child k prefix
  without_dirs-walk_all_child (node name key none blessed kids) prefix =
      without_dirs-walk_all kids (join_path prefix name)
  without_dirs-walk_all_child (node name key (some v) blessed kids) prefix =
      ap (λ es. entry_of (join_path prefix name) (some v) blessed ∷ es)
        (without_dirs-walk_all kids (join_path prefix name))

-- In a tree whose count is right and whose root carries no value, `All` lists as many entries as
-- `Len` says that there are properties, and they are those of `WalkAll`, in its order, without the
-- directories.
pub all-walk_all :
    (t : Tree)
    → IsCounted t
    → (length (all t) ≡ t.n) × (all t ≡ without_dirs (walk_all (kids_of t.root) []))
unfolding all
all-walk_all t h =
    let walked = length-walk (kids_of t.root) [] in
    let bare = count-bare t.root h.tree.bare_root in
    (omega (arith, walked, bare, h.counted), sym (without_dirs-walk_all (kids_of t.root) []))
