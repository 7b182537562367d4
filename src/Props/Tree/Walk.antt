-- ===== src/Props/Tree/Walk.antt =====
-- internal/props/props.go: the walks over a tree. A callback that goes on to the end is the list of
-- what it is called with, in order.
use Prim.Native.Nat.{ℕ}
use mathlib.Core.Bool.{Bool, true, false, not}
use mathlib.Core.List.{List, [], ◌∷◌, ◌++◌}
use mathlib.Core.Option.{Option, none, some}
use fuzzball_emerald.Prelude.{if◌then◌else◌, Bytes}
use fuzzball_emerald.Props.Value.{Content, Value}
use fuzzball_emerald.Props.Tree.{Node, node, Kids, nil, cons, Tree, kids_of}
pub mod Entries

pub record Entry : Type 0 where
  pub path : Bytes
  pub value : Option Value
  pub dir : Bool
  pub blessed : Bool

-- `prefix + "/" + name`, or the name alone at the root.
abbrev pub join_path : Bytes → Bytes → Bytes
join_path [] name = name
join_path (c ∷ prefix) name = c ∷ prefix ++ b'/' ∷ name

-- An entry of `walkAll`; a directory's `Value` is that of a node without one.
abbrev pub entry_of : Bytes → Option Content → Bool → Entry
entry_of path none blessed = record { path = path; value = none; dir = true; blessed = blessed }
entry_of path (some v) blessed = record {
  path = path;
  value = some (record { content = v; blessed = blessed });
  dir = false;
  blessed = blessed;
}

-- What `walk` calls `fn` with for one node.
abbrev pub own_entry : Bytes → Option Content → Bool → List Entry
own_entry path none blessed = []
own_entry path (some v) blessed = entry_of path (some v) blessed ∷ []

unfoldable mutual
  pub walk : Kids → Bytes → List Entry
  walk nil prefix = []
  walk (cons k ks) prefix = walk_child k prefix ++ walk ks prefix

  pub walk_child : Node → Bytes → List Entry
  walk_child (node name key val blessed kids) prefix =
      own_entry (join_path prefix name) val blessed ++ walk kids (join_path prefix name)

unfoldable mutual
  pub walk_all : Kids → Bytes → List Entry
  walk_all nil prefix = []
  walk_all (cons k ks) prefix = walk_all_child k prefix ++ walk_all ks prefix

  pub walk_all_child : Node → Bytes → List Entry
  walk_all_child (node name key val blessed kids) prefix =
      entry_of (join_path prefix name) val blessed ∷ walk_all kids (join_path prefix name)

unfoldable pub all : Tree → List Entry
unfolding walk
all t = walk (kids_of t.root) []

unfoldable mutual
  pub clone_node : Node → Node
  clone_node (node name key val blessed kids) = node name key val blessed (clone_kids kids)

  pub clone_kids : Kids → Kids
  clone_kids nil = nil
  clone_kids (cons k ks) = cons (clone_node k) (clone_kids ks)

unfoldable pub clone : Tree → Tree
unfolding clone_node
clone t = record { root = clone_node t.root; n = t.n }
