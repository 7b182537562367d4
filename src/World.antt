-- ===== src/World.antt =====
-- internal/world: objects (object.go) and the world that holds them, their lists of contents and exits
-- and the moves between them (world.go). A Go map from references to objects is a list of entries; a
-- write through a pointer to an object is `adjust` at its reference. A set is the list of what was put
-- in. `clock` is what the world's clock answers, `secure` the parameter secure_thing_movement, and
-- `top` stays below the greatest int32.
pub mod Linked
pub mod Unlink
pub mod Detach
pub mod Place
pub mod Move
pub mod Inside
pub mod Env
pub mod Create
pub mod Repair
mod Tests
use Prim.Native.Nat.{ℕ, zero, suc, ◌+◌}
use mathlib.Core.Bool.{Bool, true, false, not, ◌&&◌, ◌||◌}
use mathlib.Core.List.{List, [], ◌∷◌}
use mathlib.Core.Option.{Option, none, some}
use fuzzball_emerald.Prelude.{◌==◌, if◌then◌else◌, Bytes, length}
use fuzzball_emerald.Prelude.Int.{ℤ}
use fuzzball_emerald.Prelude.RefMap.{◌=?◌, lookup, adjust}
use fuzzball_emerald.Ref.{Ref, nothing}
use fuzzball_emerald.Ref.Flags.{Flags, type_of, type_exit, type_garbage}
use fuzzball_emerald.Props.Tree.{Tree}

pub record Object : Type 0 where
  pub name : Bytes
  pub flags : Flags
  pub owner : Ref
  pub location : Ref
  pub contents : Ref
  pub exits : Ref
  pub next : Ref
  pub props : Tree
  pub created : ℤ
  pub modified : ℤ
  pub last_used : ℤ
  pub use_count : ℤ
  pub home : Ref
  pub dropto : Ref
  pub dest : List Ref
  pub password_hash : Bytes

abbrev pub Objects : Type 0
Objects = List (Ref × Object)

pub record World : Type 0 where
  pub objs : Objects
  pub top : ℕ
  pub players : List (Bytes × Ref)
  pub dirty : List Ref
  -- the last one recycled comes first
  pub recyclable : List Ref
  pub clock : ℤ
  pub secure : Bool

abbrev pub on_some {ℓ κ} : {A : Type ℓ} {B : Type κ} → Option A → B → (A → B) → B
on_some none b f = b
on_some (some a) b f = f a

abbrev pub is_live : Option Object → Bool
is_live none = false
is_live (some _) = true

abbrev pub is_exit : Object → Bool
is_exit o = type_of o.flags == type_exit

abbrev pub is_garbage : Object → Bool
is_garbage o = type_of o.flags == type_garbage

unfoldable pub get : World → Ref → Option Object
get w r = lookup r w.objs

unfoldable pub valid : World → Ref → Bool
unfolding get
valid w r = on_some (get w r) false λ o. not (is_garbage o)

abbrev pub mark : Ref → World → World
mark r w = record w { dirty = r ∷ w.dirty }

abbrev pub update : Ref → (Object → Object) → World → World
update r f w = record w { objs = adjust r f w.objs }

unfoldable pub touch : Ref → World → World
touch r w = if is_live (lookup r w.objs) then mark r w else w

abbrev pub stamp : ℤ → Object → Object
stamp t o = record o { modified = t }

unfoldable pub modified : Ref → World → World
modified r w = if is_live (lookup r w.objs) then mark r (update r (stamp w.clock) w) else w

-- The two lists that a container has: its exits, and everything else that it holds.
abbrev pub head_of : (exits : Bool) → Object → Ref
head_of true o = o.exits
head_of false o = o.contents

abbrev pub set_head : (exits : Bool) → Ref → Object → Object
set_head true r o = record o { exits = r }
set_head false r o = record o { contents = r }

abbrev pub set_next : Ref → Object → Object
set_next r o = record o { next = r }

pub chain_loop : ℕ → Objects → Ref → List Ref
chain_loop zero m r = []
chain_loop (suc rounds) m r =
    if r =? nothing then [] else on_some (lookup r m) (r ∷ []) λ o. r ∷ chain_loop rounds m o.next

unfoldable pub chain : World → Ref → Bool → List Ref
unfolding chain_loop
chain w r exits =
    on_some (lookup r w.objs) [] λ o. chain_loop (suc (length w.objs)) w.objs (head_of exits o)

unfoldable pub contents : World → Ref → List Ref
unfolding chain
contents w r = chain w r false

unfoldable pub exits : World → Ref → List Ref
unfolding chain
exits w r = chain w r true

-- The walk along a list to what stands before `member`; `none` when the rounds run out.
pub unlink_loop : ℕ → World → (container member after : Ref) → Ref → Option World
unlink_loop zero w container member after r = none
unlink_loop (suc rounds) w container member after r =
    if r =? nothing
    then some w
    else on_some (lookup r w.objs) (some w) λ o.
      if o.next =? member
      then some (mark container (mark r (update r (set_next after) w)))
      else unlink_loop rounds w container member after o.next

unlink : ℕ → World → (container member : Ref) → (c m : Object) → Option World
unfolding unlink_loop
unlink rounds w container member c m =
    let head = head_of (is_exit m) c in
    if head =? member
    then some (mark container (update container (set_head (is_exit m) m.next) w))
    else unlink_loop rounds w container member m.next head

unfoldable pub remove_from_chain : ℕ → World → (container member : Ref) → Option World
unfolding unlink
remove_from_chain rounds w container member =
    on_some (lookup container w.objs) (some w)
      λ c. on_some (lookup member w.objs) (some w) λ m. unlink rounds w container member c m

pub contains_loop : ℕ → Objects → (outer r : Ref) → Bool
contains_loop zero m outer r = false
contains_loop (suc rounds) m outer r =
    if r =? nothing
    then false
    else if r =? outer
    then true
    else on_some (lookup r m) false λ o. contains_loop rounds m outer o.location

unfoldable pub contains : World → (outer inner : Ref) → Bool
unfolding contains_loop
contains w outer inner = contains_loop (suc (length w.objs)) w.objs outer inner

pub data Failure : Type 0 where
  no_object no_destination contains_itself already_inside name_taken not_a_place : Failure

pub data Outcome : Type 0 where
  done : World → Outcome
  failed : Failure → Outcome
  -- the rounds of a loop that the code leaves unbounded ran out
  endless : Outcome

pub move_failure : World → (what dest : Ref) → Option Failure
unfolding contains
move_failure w what dest =
    if dest =? nothing
    then none
    else if not (is_live (lookup dest w.objs))
    then some no_destination
    else if what =? dest
    then some contains_itself
    else if contains w what dest
    then some already_inside
    else none

abbrev pub relocate : Ref → Object → Object
relocate dest o = record o { location = dest; next = nothing }

-- The object becomes the first of its new container's list.
pub push : (what dest : Ref) → World → World
push what dest w = on_some (lookup dest w.objs) w λ c. on_some (lookup what w.objs) w λ o.
    mark dest
      (update dest (set_head (is_exit o) what) (update what (set_next (head_of (is_exit o) c)) w))

pub place : (what dest : Ref) → World → World
unfolding push
place what dest w =
    let moved = update what (relocate dest) w in
    if dest =? nothing then moved else push what dest moved

pub detach : ℕ → World → (what from : Ref) → Option World
unfolding remove_from_chain
detach rounds w what from = if from =? nothing then some w else remove_from_chain rounds w from what

unfoldable pub move_to : ℕ → (what dest : Ref) → World → Outcome
move_to rounds what dest w = on_some (lookup what w.objs) (failed no_object) λ o.
    on_some (move_failure w what dest)
      (on_some (detach rounds w what o.location) endless
        λ v. done (modified what (place what dest v)))
      failed
