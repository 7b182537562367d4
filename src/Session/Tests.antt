-- ===== src/Session/Tests.antt =====
-- The allowance of commands at a run: a call waits, the allowance is added to, and it goes through.
use mathlib.Core.Path.{◌≡◌, refl}
use fuzzball_emerald.Prelude.Int.{pos, ◌+ℤ◌, to_int64}
use fuzzball_emerald.Session.Quota.{
  Quota, gone, ready, passed, Takers, put, turn, add, turns, arrives, adds, start, later, Reachable,
  new_quota,
}
use fuzzball_emerald.Session.Quota.Wakes.{spent, Reachable-two_turns}

abbrev empty : Quota
empty = new_quota (pos 0)

abbrev nobody : Takers
nobody i = gone

abbrev came : Takers
came = put 3 ready nobody

abbrev stopped : Takers
stopped = put 3 (turn empty (came 3)).1 came

abbrev granted : Quota
granted = add (pos 1) (pos 100) empty

stopped-Reachable : Reachable (pos 0) granted stopped
unfolding turn add ◌+ℤ◌ to_int64
stopped-Reachable =
    later empty stopped granted stopped
      (later empty came empty stopped (later empty nobody empty came start (arrives empty nobody 3))
        (turns empty came 3))
      (adds empty stopped (pos 1) (pos 100))

Reachable-two_turns_example : turn granted (turn granted (stopped 3)).1 ≡ (spent granted, passed)
unfolding turn add ◌+ℤ◌ to_int64
Reachable-two_turns_example =
    Reachable-two_turns (pos 0) granted stopped 3 0 stopped-Reachable refl refl
