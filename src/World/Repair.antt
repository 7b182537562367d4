-- ===== src/World/Repair.antt =====
-- internal/world/repair.go: the lists rebuilt from what the objects say of their places. The head that
-- relink writes as it goes is passed along and written at the end, which no step of it reads.
pub mod Wanted
pub mod Members
pub mod Relink
pub mod OneList
pub mod Restores
use Prim.Native.Nat.{ℕ, zero, suc, ◌+◌}
use mathlib.Core.Bool.{Bool, true, false, not, ◌&&◌, ◌||◌}
use mathlib.Core.List.{List, [], ◌∷◌, ◌++◌}
use mathlib.Core.Option.{Option, none, some}
use fuzzball_emerald.Prelude.{◌==◌, if◌then◌else◌, length}
use fuzzball_emerald.Prelude.Int.{pos}
use fuzzball_emerald.Prelude.RefMap.{◌=?◌, lookup}
use fuzzball_emerald.Prelude.RefList.{has, remove}
use fuzzball_emerald.Ref.{Ref, nothing}
use fuzzball_emerald.World.{
  Object, Objects, World, on_some, is_live, is_exit, set_head, set_next, mark, update, chain,
}

-- The references from `n` on, `count` of them.
unfoldable pub refs_from : (n count : ℕ) → List Ref
refs_from n zero = []
refs_from n (suc count) = pos n ∷ refs_from (n + 1) count

-- What each container should hold, by whether it is an exit.
abbrev pub WantedLists : Type 0
WantedLists = Bool → Ref → List Ref

abbrev same_kind : Bool → Bool → Bool
same_kind true b = b
same_kind false b = not b

append_at : (exits : Bool) → (c r : Ref) → WantedLists → WantedLists
append_at exits c r wanted =
    λ k d. if same_kind exits k && (d =? c) then wanted k d ++ r ∷ [] else wanted k d

want : Objects → Ref → WantedLists → WantedLists
unfolding append_at
want m r wanted = on_some (lookup r m) wanted λ o.
    if o.location =? nothing
    then wanted
    else if not (is_live (lookup o.location m))
    then wanted
    else append_at (is_exit o) o.location r wanted

unfoldable pub want_all : Objects → List Ref → WantedLists → WantedLists
unfolding want
want_all m [] wanted = wanted
want_all m (r ∷ rs) wanted = want_all m rs (want m r wanted)

-- The set of the members of a list.
unfoldable pub seen_of : List Ref → List Ref
seen_of [] = []
seen_of (r ∷ rs) = let rest = seen_of rs in if has r rest then rest else r ∷ rest

unfoldable pub strike : List Ref → (seen : List Ref) → Bool
strike [] [] = true
strike [] (_ ∷ _) = false
strike (r ∷ rs) seen = let rest = strike rs (remove r seen) in if has r seen then rest else false

unfoldable pub same_members : List Ref → List Ref → Bool
unfolding seen_of strike
same_members a b = if length a == length b then strike a (seen_of b) else false

-- The members are given their links from the last to the first; the first is the new head.
unfoldable pub relink_members : List Ref → World → World × Ref
relink_members [] w = (w, nothing)
relink_members (x ∷ xs) w =
    let (v, head) = relink_members xs w in
    if is_live (lookup x v.objs) then (mark x (update x (set_next head) v), x) else (v, head)

unfoldable pub relink : (exits : Bool) → (c : Ref) → List Ref → World → World
unfolding relink_members
relink exits c members w =
    let (v, head) = relink_members members w in update c (set_head exits head) v

-- One of a container's two lists, and whether it had to be rebuilt.
unfoldable pub repair_list : (exits : Bool) → WantedLists → Ref → World → World × Bool
unfolding relink
repair_list exits wanted c w =
    if same_members (chain w c exits) (wanted exits c)
    then (w, false)
    else (relink exits c (wanted exits c) w, true)

unfoldable pub repair_object : WantedLists → Ref → World × ℕ → World × ℕ
repair_object wanted c (w, repaired) =
    if is_live (lookup c w.objs)
    then (let (v, held) = repair_list false wanted c w in
        let (u, led) = repair_list true wanted c v in
        if held || led then (mark c u, repaired + 1) else (u, repaired))
    else (w, repaired)

unfoldable pub repair_objects : WantedLists → List Ref → World × ℕ → World × ℕ
repair_objects wanted [] s = s
repair_objects wanted (c ∷ cs) s = repair_objects wanted cs (repair_object wanted c s)

unfoldable pub repair_chains : World → World × ℕ
repair_chains w =
    let wanted = want_all w.objs (refs_from 0 w.top) (λ k c. []) in
    repair_objects wanted (refs_from 0 w.top) (w, 0)
