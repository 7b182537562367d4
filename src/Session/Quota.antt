-- ===== src/Session/Quota.antt =====
-- internal/session/quota.go: a connection's allowance of commands, and those who wait for one. What
-- happens under the lock is one step; a channel that has been closed and replaced is a number, of
-- how many were before it. An int has 64 bits.
use Prim.Native.Nat.{ℕ, suc, ◌<◌}
use mathlib.Core.Bool.{Bool, true, false}
use fuzzball_emerald.Prelude.{◌==◌, ltb, if◌then◌else◌, arith, Bool-cases}
use fuzzball_emerald.Prelude.Int.{ℤ, pos, ◌+ℤ◌, ◌-ℤ◌, ltb_ℤ, to_int64}
pub mod Wakes

pub record Quota : Type 0 where
  pub tokens : ℤ
  pub refill : ℕ

-- One call of Take: about to look, waiting on a channel, let through, or given up.
pub data Taker : Type 0 where
  ready passed gone : Taker
  waiting : ℕ → Taker

abbrev pub new_quota : ℤ → Quota
new_quota initial = record { tokens = initial; refill = 0 }

abbrev pub has_token : Quota → Bool
has_token q = ltb_ℤ (pos 0) q.tokens

-- Where there is a token now, the channel is closed and replaced.
abbrev pub announce : Quota → Quota
announce q = if has_token q then record q { refill = suc q.refill } else q

unfoldable pub add : ℤ → ℤ → Quota → Quota
unfolding ◌+ℤ◌ to_int64
add n max q =
    let sum = to_int64 (q.tokens +ℤ n) in
    announce (record q { tokens = if ltb_ℤ max sum then max else sum })

unfoldable pub set : ℤ → Quota → Quota
set n q = announce (record q { tokens = n })

-- One turn of the loop in Take: a look under the lock, or the wake-up from a closed channel.
unfoldable pub turn : Quota → Taker → Quota × Taker
unfolding ◌-ℤ◌
turn q ready =
    if has_token q then (record q { tokens = q.tokens -ℤ pos 1 }, passed) else (q, waiting q.refill)
turn q (waiting g) = (q, if ltb g q.refill then ready else waiting g)
turn q passed = (q, passed)
turn q gone = (q, gone)

-- The takers by number.
abbrev pub Takers : Type 0
Takers = ℕ → Taker

abbrev pub put : ℕ → Taker → Takers → Takers
put i t ts j = if j == i then t else ts j

-- What can happen next.
pub data Step : Quota → Takers → Quota → Takers → Type 0 where
  turns :
      (q : Quota) (ts : Takers) (i : ℕ) → Step q ts (turn q (ts i)).0 (put i (turn q (ts i)).1 ts)
  leaves : (q : Quota) (ts : Takers) (i : ℕ) → Step q ts q (put i gone ts)
  arrives : (q : Quota) (ts : Takers) (i : ℕ) → Step q ts q (put i ready ts)
  adds : (q : Quota) (ts : Takers) (n max : ℤ) → Step q ts (add n max q) ts
  sets : (q : Quota) (ts : Takers) (n : ℤ) → Step q ts (set n q) ts

pub data Reachable (initial : ℤ) : Quota → Takers → Type 0 where
  start : Reachable initial (new_quota initial) (λ i. gone)
  later :
      (q : Quota) (ts : Takers) (p : Quota) (us : Takers)
      → Reachable initial q ts
      → Step q ts p us
      → Reachable initial p us
