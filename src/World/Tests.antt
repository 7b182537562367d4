-- ===== src/World/Tests.antt =====
-- Tests of internal/world, and the properties at concrete inputs.
use mathlib.Core.Path.{◌≡◌, refl}
use mathlib.Core.Logic.{◌↔◌, inr}
use mathlib.Core.Bool.{Bool, true, false, ◌&&◌}
use mathlib.Core.List.{List, [], ◌∷◌}
use mathlib.Core.Option.{none, some}
use fuzzball_emerald.Prelude.{ℕ, ◌<◌, arith, sym, ◌==◌, if◌then◌else◌, Bytes}
use fuzzball_emerald.Prelude.Int.{pos}
use fuzzball_emerald.Prelude.RefMap.{◌=?◌, ℤ-discrete, lookup, adjust}
use fuzzball_emerald.Prelude.RefList.{remove}
use fuzzball_emerald.Ref.{Ref, nothing}
use fuzzball_emerald.Ref.Flags.{type_of, type_player}
use fuzzball_emerald.Props.Tree
use fuzzball_emerald.World.{
  Object, World, done, failed, already_inside, chain, chain_loop, contents, exits, contains,
  contains_loop, move_to, move_failure, valid,
}
use fuzzball_emerald.World.Linked.{IsBelow, IsSound, agrees}
use fuzzball_emerald.World.Inside.{Inside, contains_iff, IsNested, move_to-IsNested}
use fuzzball_emerald.World.Inside.Moves.{chain-move_to}
use fuzzball_emerald.World.Move.{place_of}
use fuzzball_emerald.World.Move.Effect.{Lands, move_to-IsSound}
use fuzzball_emerald.World.Env.{parent, parent_link}
use fuzzball_emerald.World.Env.Total.{parent-total}
use fuzzball_emerald.World.Env.First.{stops, passes, out, onward, parent-first}
use fuzzball_emerald.World.Repair.{
  repair_chains, repair_objects, repair_object, repair_list, want_all, refs_from, same_members,
  seen_of, strike, relink, relink_members,
}
use fuzzball_emerald.World.Repair.Restores.{repair_chains-IsSound, repair_chains_sound}
use fuzzball_emerald.World.Create.{create, new_object, recycle}
use fuzzball_emerald.World.Create.Fresh.{IsTracked, create-fresh}
use fuzzball_emerald.World.Create.Scrap.{recycle-IsSound, create-recycle}

abbrev object : (type : ℕ) → (location contents exits next : Ref) → Object
object type location contents exits next = record {
  name = [];
  flags = type;
  owner = pos 1;
  location = location;
  contents = contents;
  exits = exits;
  next = next;
  props = Tree.new;
  created = pos 0;
  modified = pos 0;
  last_used = pos 0;
  use_count = pos 0;
  home = pos 0;
  dropto = nothing;
  dest = [];
  password_hash = [];
}

abbrev world_of : List (Ref × Object) → World
world_of objs = record {
  objs = objs;
  top = 6;
  players = [];
  dirty = [];
  recyclable = [];
  clock = pos 9;
  secure = false;
}

-- A room with a player, a box and an exit; a coin in the box. The room's contents start at `head`.
abbrev town_from : (head : Ref) → World
town_from head = world_of (
    (pos 0, object 0 nothing head (pos 4) nothing)
    ∷ (pos 1, object 3 (pos 0) nothing nothing nothing)
    ∷ (pos 2, object 1 (pos 0) (pos 3) nothing (pos 1))
    ∷ (pos 3, object 1 (pos 2) nothing nothing nothing)
    ∷ (pos 4, object 2 (pos 0) nothing nothing nothing)
    ∷ [])

abbrev town : World
town = town_from (pos 2)

-- A list that has lost its head.
abbrev broken : World
broken = town_from nothing

below_six : (w : World) → (n : ℕ) (r : Ref) → r ≡ pos n → n < 6 → (m : ℕ) × ((r ≡ pos m) × (m < 6))
below_six w n r p lt = (n, (p, lt))

town-IsBelow : (head : Ref) → IsBelow (town_from head)
unfolding lookup
town-IsBelow head r o e = elim (ℤ-discrete (pos 0) r) [
  | yes p ↦ (0, (sym p, omega arith))
  | no _ ↦ elim (ℤ-discrete (pos 1) r) [
    | yes p ↦ (1, (sym p, omega arith))
    | no _ ↦ elim (ℤ-discrete (pos 2) r) [
      | yes p ↦ (2, (sym p, omega arith))
      | no _ ↦ elim (ℤ-discrete (pos 3) r) [
        | yes p ↦ (3, (sym p, omega arith))
        | no _ ↦ elim (ℤ-discrete (pos 4) r) [
          | yes p ↦ (4, (sym p, omega arith))
          | no _ ↦ ground arith
        ]
      ]
    ]
  ]
]

town_repaired : repair_chains town ≡ (town, 0)
unfolding repair_chains repair_objects repair_object repair_list want_all refs_from same_members
    seen_of strike chain chain_loop lookup ℤ-discrete type_of
town_repaired = refl

town-IsSound : IsSound town
town-IsSound = rw town_repaired at (repair_chains-IsSound town (town-IsBelow (pos 2))).0

broken_repaired : (repair_chains broken).1 ≡ 1
unfolding repair_chains repair_objects repair_object repair_list want_all refs_from same_members
    seen_of strike chain chain_loop relink relink_members lookup adjust ℤ-discrete type_of
broken_repaired = refl

repair_chains-IsSound_example :
    IsSound (repair_chains broken).0
    × ((r : Ref) → place_of (repair_chains broken).0.objs r ≡ place_of broken.objs r)
repair_chains-IsSound_example = repair_chains-IsSound broken (town-IsBelow nothing)

repair_chains_sound_example : repair_chains town ≡ (town, 0)
repair_chains_sound_example = repair_chains_sound town town-IsSound

town_contents : contents town (pos 0) ≡ pos 2 ∷ pos 1 ∷ []
unfolding contents chain chain_loop lookup ℤ-discrete
town_contents = refl

-- The box would be inside itself by way of the coin.
coin_refused : move_to 5 (pos 2) (pos 3) town ≡ failed already_inside
unfolding move_to move_failure contains contains_loop lookup ℤ-discrete
coin_refused = refl

move_to-IsSound_example : Lands IsSound (move_to 5 (pos 3) (pos 1) town)
move_to-IsSound_example = move_to-IsSound town (pos 3) (pos 1) 5 town-IsSound (omega arith)

player_not_in_coin : ¬ Inside town.objs (pos 3) (pos 1)
unfolding contains contains_loop lookup ℤ-discrete
player_not_in_coin h =
    let refused : contains town (pos 3) (pos 1) ≡ false = refl in
    let found = (contains_iff town (pos 3) (pos 1)).1 h in cc

chain-move_to_example :
    (v : World) × (move_to 5 (pos 3) (pos 1) town ≡ done v)
    × ((r : Ref)
        → place_of v.objs r ≡ (if r =? pos 3 then some (pos 1, 1) else place_of town.objs r))
    × ((c : Ref) (k : Bool) (co : Object)
        → lookup c town.objs ≡ some co
        → chain v c k ≡ (
            if (c =? pos 1) && agrees false k
            then pos 3 ∷ remove (pos 3) (chain town c k)
            else remove (pos 3) (chain town c k)))
unfolding lookup ℤ-discrete type_of
chain-move_to_example =
    chain-move_to town (pos 3) (pos 1) (object 1 (pos 2) nothing nothing nothing) 5 town-IsSound
      (omega arith) refl (inr (refl, player_not_in_coin))

contains_iff_example : (contains town (pos 0) (pos 3) ≡ true) ↔ Inside town.objs (pos 0) (pos 3)
contains_iff_example = contains_iff town (pos 0) (pos 3)

nested_at :
    (q r : Ref) (c o : Object)
    → lookup q town.objs ≡ some c
    → contains town q c.location ≡ false
    → q ≡ r
    → lookup r town.objs ≡ some o
    → ¬ Inside town.objs r o.location
nested_at q r c o ec free p e h =
    let same : c ≡ o = ground arith in
    let found : contains town q c.location ≡ true =
      rw (p, same) ((contains_iff town r o.location).1 h) in
    cc

town-IsNested : IsNested town
unfolding lookup
town-IsNested r o e = elim (ℤ-discrete (pos 0) r) [
  | yes p ↦
      nested_at (pos 0) r (object 0 nothing (pos 2) (pos 4) nothing) o (unfold ℤ-discrete in refl)
        (unfold contains contains_loop ℤ-discrete in refl) p e
  | no n1 ↦ elim (ℤ-discrete (pos 1) r) [
    | yes p ↦
        nested_at (pos 1) r (object 3 (pos 0) nothing nothing nothing) o (unfold ℤ-discrete in refl)
          (unfold contains contains_loop ℤ-discrete in refl) p e
    | no n2 ↦ elim (ℤ-discrete (pos 2) r) [
      | yes p ↦
          nested_at (pos 2) r (object 1 (pos 0) (pos 3) nothing (pos 1)) o
            (unfold ℤ-discrete in refl) (unfold contains contains_loop ℤ-discrete in refl) p e
      | no n3 ↦ elim (ℤ-discrete (pos 3) r) [
        | yes p ↦
            nested_at (pos 3) r (object 1 (pos 2) nothing nothing nothing) o
              (unfold ℤ-discrete in refl) (unfold contains contains_loop ℤ-discrete in refl) p e
        | no n4 ↦ elim (ℤ-discrete (pos 4) r) [
          | yes p ↦
              nested_at (pos 4) r (object 2 (pos 0) nothing nothing nothing) o
                (unfold ℤ-discrete in refl) (unfold contains contains_loop ℤ-discrete in refl) p e
          | no n5 ↦ λ h. ground arith
        ]
      ]
    ]
  ]
]

move_to-IsNested_example : Lands IsNested (move_to 5 (pos 3) (pos 1) town)
move_to-IsNested_example =
    move_to-IsNested town (pos 3) (pos 1) 5 town-IsSound town-IsNested (omega arith)

nothing_in_town : lookup nothing town.objs ≡ none
unfolding lookup ℤ-discrete
nothing_in_town = refl

parent-total_example : (p : Ref) × (parent 6 town (pos 3) ≡ some p)
parent-total_example = parent-total town (pos 3) 6 nothing_in_town (omega arith)

parent-first_example : parent 6 town (pos 3) ≡ some (pos 0)
unfolding parent_link lookup ℤ-discrete type_of
parent-first_example =
    parent-first town (pos 3) (pos 0) 6 refl nothing_in_town
      (onward (pos 3) (onward (pos 2) (onward (pos 0) out)))
      (passes (pos 3) refl (stops (pos 2) refl refl)) (omega arith)

town-IsTracked : IsTracked town
town-IsTracked = record { objects = town-IsBelow (pos 2); listed = λ r i. ground arith }

create-fresh_example :
    (valid town (create [] 1 (pos 1) town).0 ≡ false)
    × ((j : Ref)
        → lookup j (create [] 1 (pos 1) town).1.objs ≡ (
            if (create [] 1 (pos 1) town).0 =? j
            then some (new_object [] 1 (pos 1) town.clock)
            else lookup j town.objs))
    × IsTracked (create [] 1 (pos 1) town).1
create-fresh_example = create-fresh [] 1 (pos 1) town town-IsTracked

coin_valid : valid town (pos 3) ≡ true
unfolding valid lookup ℤ-discrete type_of
coin_valid = refl

coin_empty : (k : Bool) → chain town (pos 3) k ≡ []
unfolding chain chain_loop lookup ℤ-discrete
coin_empty true = refl
coin_empty false = refl

recycle-IsSound_example :
    (v : World) × (recycle 5 (pos 3) town ≡ done v)
    × IsSound v
    × ((c : Ref) (k : Bool) → chain v c k ≡ remove (pos 3) (chain town c k))
recycle-IsSound_example =
    recycle-IsSound town (pos 3) 5 town-IsSound (omega arith) coin_valid coin_empty

create-recycle_example :
    (v : World) × (recycle 5 (pos 3) town ≡ done v)
    × (valid v (pos 3) ≡ false)
    × ((name : Bytes) (type : ℕ) (owner : Ref)
        → (type == type_player) ≡ false
        → (create name type owner v).0 ≡ pos 3)
create-recycle_example = create-recycle town (pos 3) 5 town-IsSound (omega arith) coin_valid
