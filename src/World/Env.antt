-- ===== src/World/Env.antt =====
-- internal/world/env.go and parent.go: the walk out through the environment. A search for a property
-- and the distance between two objects take the rounds of Parent's loop, which the code leaves
-- unbounded; `none` is that they ran out.
pub mod Orbit
pub mod Total
pub mod First
use Prim.Native.Nat.{ℕ, zero, suc, ◌+◌}
use mathlib.Core.Bool.{Bool, true, false, not, ◌&&◌, ◌||◌}
use mathlib.Core.Option.{Option, none, some}
use fuzzball_emerald.Prelude.{◌==◌, if◌then◌else◌, Bytes}
use fuzzball_emerald.Prelude.RefMap.{◌=?◌, lookup}
use fuzzball_emerald.Ref.{Ref, nothing, global_environment}
use fuzzball_emerald.Ref.Flags.{type_of, type_thing, type_player, vehicle, has_bit}
use fuzzball_emerald.Props.Value.{Value}
use fuzzball_emerald.Props.Tree
use fuzzball_emerald.World.{Object, Objects, World, on_some}

abbrev pub is_thing : Object → Bool
is_thing o = type_of o.flags == type_thing

abbrev pub is_player : Object → Bool
is_player o = type_of o.flags == type_player

-- A vehicle's home, or its home's home where that is a player.
vehicle_home : Objects → Object → Ref
vehicle_home m o = on_some (lookup o.home m) o.home λ h. if is_player h then h.home else o.home

unfoldable pub parent_link : Objects → Ref → Ref
unfolding vehicle_home
parent_link m r =
    on_some (lookup r m) nothing
      λ o. if is_thing o && has_bit o.flags vehicle then vehicle_home m o else o.location

abbrev pub at_thing : Objects → Ref → Bool
at_thing m r = on_some (lookup r m) false is_thing

-- The second walk takes two links where the first takes one.
pub parent_loop : ℕ → Objects → (obj fast : Ref) → Option Ref
parent_loop zero m obj fast = none
parent_loop (suc rounds) m obj fast =
    let slow = parent_link m obj in
    let mid = parent_link m fast in
    let quick = parent_link m mid in
    let rest = parent_loop rounds m slow quick in
    if slow =? mid || slow =? quick
    then some (if slow =? nothing then nothing else global_environment)
    else if slow =? nothing
    then some nothing
    else if at_thing m slow
    then rest
    else some slow

unfoldable pub parent : ℕ → World → Ref → Option Ref
parent rounds w r =
    if w.secure
    then some (on_some (lookup r w.objs) nothing λ o. o.location)
    else parent_loop rounds w.objs r (parent_link w.objs r)

max_parent_depth : ℕ
max_parent_depth = 256

distance_loop : (depth : ℕ) → (rounds : ℕ) → World → (from dest : Ref) → ℕ → Option ℕ
distance_loop zero rounds w from dest distance = some distance
distance_loop (suc depth) rounds w from dest distance = on_some (parent rounds w from) none λ up.
    if up =? dest || up =? nothing
    then some (distance + 1)
    else distance_loop depth rounds w up dest (distance + 1)

unfoldable pub env_distance : ℕ → World → (from to : Ref) → Option ℕ
unfolding distance_loop max_parent_depth
env_distance rounds w from to =
    on_some (parent rounds w to) none
      λ dest. if from =? dest then some 0 else distance_loop max_parent_depth rounds w from dest 0

unfoldable pub get_prop : World → Ref → Bytes → Option Value
get_prop w r path = on_some (lookup r w.objs) none λ o. Tree.get o.props path

env_depth : ℕ
env_depth = 128

env_loop : (depth : ℕ) → (rounds : ℕ) → World → Ref → Bytes → Option (Option (Value × Ref))
env_loop zero rounds w at path = some none
env_loop (suc depth) rounds w at path =
    if at =? nothing
    then some none
    else on_some (get_prop w at path)
        (on_some (parent rounds w at) none λ up. env_loop depth rounds w up path)
        λ v. some (some (v, at))

unfoldable pub env_prop : ℕ → World → Ref → Bytes → Option (Option (Value × Ref))
unfolding env_loop env_depth
env_prop rounds w start path = env_loop env_depth rounds w start path
