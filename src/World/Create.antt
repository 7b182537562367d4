-- ===== src/World/Create.antt =====
-- internal/world: objects made, added and recycled (world.go, with newObject of object.go). Create
-- answers the new object's reference. An object that is added has its property tree.
pub mod Fresh
pub mod Scrap
use Prim.Native.Nat.{ℕ, zero, suc, ◌+◌}
use mathlib.Core.Bool.{Bool, true, false, not, ◌&&◌, ◌||◌}
use mathlib.Core.List.{List, [], ◌∷◌}
use mathlib.Core.Option.{Option, none, some}
use fuzzball_emerald.Prelude.{◌==◌, leb, if◌then◌else◌, Bytes, bytes_eq, codes, length}
use fuzzball_emerald.Prelude.Int.{ℤ, pos, negsuc}
use fuzzball_emerald.Prelude.RefMap.{◌=?◌, lookup, insert}
use fuzzball_emerald.Ref.{Ref, nothing}
use fuzzball_emerald.Ref.Flags.{type_of, type_player, type_garbage, with_type}
use fuzzball_emerald.Ascii.{fold}
use fuzzball_emerald.Props.Value.{Content}
use fuzzball_emerald.Props.Tree
use fuzzball_emerald.Props.Tree.{Tree}
use fuzzball_emerald.World.{
  Object, Objects, World, Outcome, on_some, is_live, is_garbage, mark, update, detach, done, failed,
  endless, no_object,
}
use fuzzball_emerald.World.Repair.{refs_from}

unfoldable pub new_object : Bytes → (type : ℕ) → (owner : Ref) → ℤ → Object
new_object name type owner now = record {
  name = name;
  flags = with_type 0 type;
  owner = owner;
  location = nothing;
  contents = nothing;
  exits = nothing;
  next = nothing;
  props = Tree.new;
  created = now;
  modified = now;
  last_used = now;
  use_count = pos 0;
  home = nothing;
  dropto = nothing;
  dest = [];
  password_hash = [];
}

-- A reference on the free list whose object is garbage still.
abbrev pub is_free : Objects → Ref → Bool
is_free m r = on_some (lookup r m) true is_garbage

unfoldable pub first_free : Objects → List Ref → Option (Ref × List Ref)
first_free m [] = none
first_free m (r ∷ rs) = if is_free m r then some (r, rs) else first_free m rs

abbrev pub fresh : World → Ref × World
fresh w = (pos w.top, record w { top = w.top + 1 })

unfoldable pub next_ref : (type : ℕ) → World → Ref × World
next_ref type w =
    if type == type_player
    then fresh w
    else on_some (first_free w.objs w.recyclable) (fresh (record w { recyclable = [] }))
        λ found. (found.0, record w { recyclable = found.1 })

abbrev pub Players : Type 0
Players = List (Bytes × Ref)

unfoldable pub put_player : Bytes → Ref → Players → Players
put_player k r [] = (k, r) ∷ []
put_player k r ((j, q) ∷ ps) = if bytes_eq j k then (k, r) ∷ ps else (j, q) ∷ put_player k r ps

unfoldable pub drop_player : Bytes → Players → Players
drop_player k [] = []
drop_player k ((j, q) ∷ ps) = if bytes_eq j k then ps else (j, q) ∷ drop_player k ps

unfoldable pub find_player : Bytes → Players → Option Ref
find_player k [] = none
find_player k ((j, q) ∷ ps) = if bytes_eq j k then some q else find_player k ps

unfoldable pub player_named : World → Bytes → Option Ref
player_named w name = find_player (fold name) w.players

abbrev pub index_player : (type : ℕ) → Bytes → Ref → Players → Players
index_player type name r ps = if type == type_player then put_player (fold name) r ps else ps

unfoldable pub create : Bytes → (type : ℕ) → (owner : Ref) → World → Ref × World
create name type owner w =
    let (r, v) = next_ref type w in
    (
      r,
      mark r (record v {
        objs = insert r (new_object name type owner v.clock) v.objs;
        players = index_player type name r v.players;
      }),
    )

-- The garbage among the references, the last of them first.
garbage_of : Objects → List Ref → List Ref → List Ref
garbage_of m [] found = found
garbage_of m (r ∷ rs) found =
    garbage_of m rs (if on_some (lookup r m) false is_garbage then r ∷ found else found)

unfoldable pub rebuild_recyclable : World → World
unfolding garbage_of
rebuild_recyclable w = record w { recyclable = garbage_of w.objs (refs_from 0 w.top) [] }

unfoldable pub recyclable_count : World → ℕ
recyclable_count w = length w.recyclable

unfoldable pub set_top : ℕ → World → World
set_top top w = if leb top w.top then w else record w { top = top }

-- An object as the importer and the loader bring it, at its own reference.
insert_at : ℕ → Object → World → World
insert_at n o w = record w {
  objs = insert (pos n) o w.objs;
  top = if leb w.top n then n + 1 else w.top;
  players = index_player (type_of o.flags) o.name (pos n) w.players;
}

unfoldable pub add : Ref → Object → World → Option World
unfolding insert_at
add (negsuc _) o w = none
add (pos n) o w = if is_live (lookup (pos n) w.objs) then none else some (insert_at n o w)

-- What a recycled object is.
unfoldable pub scrap : ℤ → Object → Object
scrap now o = record o {
  flags = with_type 0 type_garbage;
  name = codes "<garbage>";
  props =
      Tree.set Tree.new (codes "_/de")
        (record { content = Content.string (codes "<recyclable>"); blessed = false });
  dest = [];
  location = nothing;
  contents = nothing;
  exits = nothing;
  next = nothing;
  owner = nothing;
  password_hash = [];
  modified = now;
}

abbrev pub unindex_player : Object → Players → Players
unindex_player o ps = if type_of o.flags == type_player then drop_player (fold o.name) ps else ps

unfoldable pub scrapped : Ref → World → World
scrapped r w = mark r (update r (scrap w.clock) (record w { recyclable = r ∷ w.recyclable }))

unfoldable pub recycle : ℕ → Ref → World → Outcome
recycle rounds r w = on_some (lookup r w.objs) (failed no_object) λ o.
    if is_garbage o
    then done w
    else on_some (detach rounds (record w { players = unindex_player o w.players }) r o.location)
        endless λ v. done (scrapped r v)
