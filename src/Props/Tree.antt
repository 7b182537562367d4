-- ===== src/Props/Tree.antt =====
-- internal/props/props.go: the tree. A node's `val` and `has` are one option here. `sort.Search` finds
-- the first child whose key is not below the one that is looked for, as it does on a sorted slice,
-- which Sorted proves a directory to be. A callback of Walk that goes on to the end is the list of
-- what it is called with.
pub mod Sorted
pub mod Lookup
pub mod Map
pub mod Refines
pub mod Count
pub mod Dirs
pub mod Walk
use Prim.Native.Nat.{ℕ, zero, suc, ◌+◌, ◌-◌}
use mathlib.Core.Bool.{Bool, true, false, not, ◌&&◌, ◌||◌}
use mathlib.Core.List.{List, [], ◌∷◌, ◌++◌, map}
use mathlib.Core.Option.{Option, none, some}
use fuzzball_emerald.Prelude.{◌==◌, if◌then◌else◌, Bytes, bytes_eq}
use fuzzball_emerald.Ascii.{fold}
use fuzzball_emerald.Props.Value.{Content, Value, is_empty}
use fuzzball_emerald.Props.Order.{bytes_lt}

mutual
  -- name, fold, value, blessed, kids
  pub data Node : Type 0 where
    node : Bytes → Bytes → Option Content → Bool → Kids → Node

  pub data Kids : Type 0 where
    nil : Kids
    cons : Node → Kids → Kids

abbrev pub name_of : Node → Bytes
name_of (node name key val blessed kids) = name

abbrev pub key_of : Node → Bytes
key_of (node name key val blessed kids) = key

abbrev pub val_of : Node → Option Content
val_of (node name key val blessed kids) = val

abbrev pub blessed_of : Node → Bool
blessed_of (node name key val blessed kids) = blessed

abbrev pub kids_of : Node → Kids
kids_of (node name key val blessed kids) = kids

pub record Tree : Type 0 where
  pub root : Node
  pub n : ℕ

abbrev pub empty_node : Node
empty_node = node [] [] none false nil

unfoldable pub new : Tree
new = record { root = empty_node; n = 0 }

unfoldable mutual
  pub count_values : Node → ℕ
  count_values (node name key none blessed kids) = count_kids kids
  count_values (node name key (some v) blessed kids) = 1 + count_kids kids

  pub count_kids : Kids → ℕ
  count_kids nil = 0
  count_kids (cons k ks) = count_values k + count_kids ks

-- What stands before the first ':' of a path.
before_colon : Bytes → Bytes
before_colon [] = []
before_colon (c ∷ s) = let rest = c ∷ before_colon s in if c == b':' then [] else rest

-- `strings.Split(path, "/")`: there is always a first segment.
abbrev pub Segments : Type 0
Segments = Bytes × List Bytes

abbrev pub extend : ℕ → Segments → Segments
extend c (seg, segs) = if c == b'/' then ([], seg ∷ segs) else (c ∷ seg, segs)

unfoldable pub split_slash : Bytes → Segments
split_slash [] = ([], [])
split_slash (c ∷ s) = extend c (split_slash s)

drop_empty : List Bytes → List Bytes
drop_empty [] = []
drop_empty ([] ∷ segs) = drop_empty segs
drop_empty ((c ∷ seg) ∷ segs) = (c ∷ seg) ∷ drop_empty segs

unfoldable pub split : Bytes → List Bytes
unfolding before_colon split_slash drop_empty
split path = let (seg, segs) = split_slash (before_colon path) in drop_empty (seg ∷ segs)

-- `find` and `child`.
unfoldable pub child : Bytes → Kids → Option Node
child f nil = none
child f (cons k ks) =
    if bytes_lt (key_of k) f then child f ks else if bytes_eq (key_of k) f then some k else none

abbrev pub fresh : Bytes → Node
fresh name = node name (fold name) none false nil

-- `makeChild`, and what is then written through the pointer that it returns.
unfoldable pub make_child : Bytes → (Node → Node) → Kids → Kids
make_child name write nil = cons (write (fresh name)) nil
make_child name write (cons k ks) =
    let later = cons k (make_child name write ks) in
    if bytes_lt (key_of k) (fold name)
    then later
    else if bytes_eq (key_of k) (fold name)
    then cons (write k) ks
    else cons (write (fresh name)) (cons k ks)

abbrev pub with_kids : Node → Kids → Node
with_kids (node name key val blessed kids) ks = node name key val blessed ks

abbrev pub descend : (Node → Option Node) → Option Node → Option Node
descend down none = none
descend down (some k) = down k

unfoldable pub lookup_node : List Bytes → Node → Option Node
unfolding child
lookup_node [] n = some n
lookup_node (seg ∷ segs) n = descend (lookup_node segs) (child (fold seg) (kids_of n))

unfoldable pub lookup : Tree → Bytes → Option Node
unfolding lookup_node split
lookup t path = lookup_node (split path) t.root

abbrev pub value_of : Option Node → Option Value
value_of none = none
value_of (some (node name key none blessed kids)) = none
value_of (some (node name key (some v) blessed kids)) =
    some (record { content = v; blessed = blessed })

unfoldable pub get : Tree → Bytes → Option Value
unfolding lookup
get t path = value_of (lookup t path)

unfoldable pub exists : Tree → Bytes → Bool
unfolding lookup
exists t path = elim (lookup t path) [ none ↦ false | some _ ↦ true ]

is_dir_node : Option Node → Bool
is_dir_node none = false
is_dir_node (some (node name key val blessed nil)) = false
is_dir_node (some (node name key val blessed (cons _ _))) = true

unfoldable pub is_dir : Tree → Bytes → Bool
unfolding lookup is_dir_node
is_dir t path = is_dir_node (lookup t path)

abbrev pub write_value : Content → Bool → Node → Node
write_value v b (node name key val blessed kids) = node name key (some v) b kids

unfoldable pub set_node : List Bytes → (Node → Node) → Node → Node
unfolding make_child
set_node [] write n = write n
set_node (seg ∷ segs) write n = with_kids n (make_child seg (set_node segs write) (kids_of n))

abbrev pub has_value : Option Node → Bool
has_value none = false
has_value (some (node name key none blessed kids)) = false
has_value (some (node name key (some v) blessed kids)) = true

abbrev pub is_bare : Node → Bool
is_bare (node name key none blessed nil) = true
is_bare _ = false

abbrev pub clear_value : Node → Node
clear_value (node name key val blessed kids) = node name key none blessed kids

-- A child that is found is replaced, or spliced out where it is left with nothing.
unfoldable pub prune_child : Bytes → (Node → Node) → Kids → Kids
prune_child f write nil = nil
prune_child f write (cons k ks) =
    let later = cons k (prune_child f write ks) in
    if bytes_lt (key_of k) f
    then later
    else if bytes_eq (key_of k) f
    then (if is_bare (write k) then ks else cons (write k) ks)
    else cons k ks

unfoldable pub delete_node : List Bytes → Node → Node
unfolding prune_child
delete_node [] n = clear_value n
delete_node (seg ∷ segs) n = with_kids n (prune_child (fold seg) (delete_node segs) (kids_of n))

delete_found : List Bytes → Option Node → Tree → Tree × Bool
unfolding delete_node
delete_found segs none t = (t, false)
delete_found segs (some n) t =
    let removed = has_value (some n) in
    (record { root = delete_node segs t.root; n = (if removed then t.n - 1 else t.n) }, removed)

pub delete_segs : List Bytes → Tree → Tree × Bool
unfolding delete_found lookup_node
delete_segs [] t = (t, false)
delete_segs (seg ∷ segs) t = delete_found (seg ∷ segs) (lookup_node (seg ∷ segs) t.root) t

unfoldable pub delete : Tree → Bytes → Tree × Bool
unfolding delete_segs split
delete t path = delete_segs (split path) t

pub set_segs : List Bytes → Value → Tree → Tree
unfolding set_node lookup_node delete_segs
set_segs [] v t = t
set_segs (seg ∷ segs) v t = if is_empty v.content then (delete_segs (seg ∷ segs) t).0 else record {
  root = set_node (seg ∷ segs) (write_value v.content v.blessed) t.root;
  n = (if has_value (lookup_node (seg ∷ segs) t.root) then t.n else t.n + 1);
}

unfoldable pub set : Tree → Bytes → Value → Tree
unfolding set_segs split
set t path v = set_segs (split path) v t
