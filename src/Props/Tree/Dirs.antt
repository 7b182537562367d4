-- ===== src/Props/Tree/Dirs.antt =====
-- internal/props/props.go: the operations on directories and on blessings. What is written through a
-- pointer found by `lookup` is a function on the node there.
use Prim.Native.Nat.{ℕ, ◌-◌}
use mathlib.Core.Bool.{Bool, true, false}
use mathlib.Core.List.{List, [], ◌∷◌}
use mathlib.Core.Option.{Option, none, some}
use fuzzball_emerald.Prelude.{if◌then◌else◌, Bytes, bytes_eq}
use fuzzball_emerald.Ascii.{fold}
use fuzzball_emerald.Props.Order.{bytes_lt}
use fuzzball_emerald.Props.Tree.{
  Node, node, Kids, nil, cons, Tree, name_of, key_of, kids_of, blessed_of, with_kids, split, lookup,
  lookup_node, set_node, count_values,
}
pub mod Counted
pub mod Gone

abbrev pub put_child : Option Node → Kids → Kids
put_child none ks = ks
put_child (some k) ks = cons k ks

-- The child that `find` finds, spliced out or replaced.
unfoldable pub edit_child : Bytes → (Node → Option Node) → Kids → Kids
edit_child f edit nil = nil
edit_child f edit (cons k ks) =
    let later = cons k (edit_child f edit ks) in
    if bytes_lt (key_of k) f
    then later
    else if bytes_eq (key_of k) f
    then put_child (edit k) ks
    else cons k ks

-- The parent of the last segment loses the child of that name.
unfoldable pub remove_at : Bytes → List Bytes → Node → Node
unfolding edit_child
remove_at seg [] n = with_kids n (edit_child (fold seg) (λ k. none) (kids_of n))
remove_at seg (s ∷ segs) n =
    with_kids n (edit_child (fold seg) (λ k. some (remove_at s segs k)) (kids_of n))

abbrev pub remove_found : Bytes → List Bytes → Option Node → Tree → Tree × ℕ
remove_found seg segs none t = (t, 0)
remove_found seg segs (some k) t =
    (record { root = remove_at seg segs t.root; n = t.n - count_values k }, count_values k)

pub delete_dir_segs : List Bytes → Tree → Tree × ℕ
unfolding remove_at lookup_node count_values
delete_dir_segs [] t = (t, 0)
delete_dir_segs (seg ∷ segs) t = remove_found seg segs (lookup_node (seg ∷ segs) t.root) t

unfoldable pub delete_dir : Tree → Bytes → Tree × ℕ
unfolding delete_dir_segs split
delete_dir t path = delete_dir_segs (split path) t

unfoldable pub make_dir : Tree → Bytes → Tree
unfolding set_node split
make_dir t path = record t { root = set_node (split path) (λ n. n) t.root }

abbrev pub bless : Bool → Node → Node
bless b (node name key val blessed kids) = node name key val b kids

unfoldable pub update_node : List Bytes → (Node → Node) → Node → Node
unfolding edit_child
update_node [] write n = write n
update_node (seg ∷ segs) write n =
    with_kids n (edit_child (fold seg) (λ k. some (update_node segs write k)) (kids_of n))

unfoldable pub set_blessed : Tree → Bytes → Bool → Tree × Bool
unfolding lookup update_node split
set_blessed t path b = elim (lookup t path) [
  | none ↦ (t, false)
  | some _ ↦ (record t { root = update_node (split path) (bless b) t.root }, true)
]

unfoldable pub blessed : Tree → Bytes → Bool
unfolding lookup
blessed t path = elim (lookup t path) [ none ↦ false | some n ↦ blessed_of n ]

names : Kids → List Bytes
names nil = []
names (cons k ks) = name_of k ∷ names ks

unfoldable pub children : Tree → Bytes → List Bytes
unfolding lookup names
children t path = elim (lookup t path) [ none ↦ [] | some n ↦ names (kids_of n) ]
