-- ===== src/Session/Quota/Wakes.antt =====
-- Those who wait for the allowance of a connection, and the channel that wakes them.
use Prim.Native.Nat.{ℕ, ◌<◌, ◌≤◌}
use mathlib.Core.Path.{◌≡◌, refl, subst}
use mathlib.Core.Bool.{true, false}
use mathlib.Core.Logic.{◌⊎◌, inl, inr}
use fuzzball_emerald.Prelude.{◌==◌, ltb, arith, Bool-cases, lt→ltb}
use fuzzball_emerald.Prelude.Int.{ℤ, pos, ◌-ℤ◌, ltb_ℤ}
use fuzzball_emerald.Session.Quota.{
  Quota, Taker, ready, passed, gone, waiting, Takers, has_token, announce, add, set, turn, put,
  Step, turns, leaves, arrives, adds, sets, Reachable, start, later,
}

-- A taker waits on a channel that there was, and that one is closed or there is no token.
abbrev pub Heard : Quota → Taker → Type 0
Heard q (waiting g) = (g ≤ q.refill) × ((g < q.refill) ⊎ (has_token q ≡ false))
Heard q passed = Unit
Heard q gone = Unit
Heard q ready = Unit

announce-Heard :
    (q : Quota) (n : ℤ) (t : Taker) → Heard q t → Heard (announce (record q { tokens = n })) t
announce-Heard q n (waiting g) h = elim (Bool-cases (ltb_ℤ (pos 0) n)) [
  | inl e ↦ rw e (omega arith, inl (omega arith))
  | inr e ↦ rw e (h.0, inr e)
]
announce-Heard q n ready h = tt
announce-Heard q n passed h = tt
announce-Heard q n gone h = tt

-- A taker whom another one's turn has not touched.
spend-Heard :
    (q : Quota) (n : ℤ) (t : Taker)
    → has_token q ≡ true
    → Heard q t
    → Heard (record q { tokens = n }) t
spend-Heard q n (waiting g) e (h, inl k) = (h, inl k)
spend-Heard q n (waiting g) e (h, inr k) = ground arith
spend-Heard q n ready e h = tt
spend-Heard q n passed e h = tt
spend-Heard q n gone e h = tt

turn-Heard-other : (q : Quota) (u t : Taker) → Heard q t → Heard (turn q u).0 t
unfolding turn
turn-Heard-other q ready t h = elim (Bool-cases (has_token q)) [
  | inl e ↦ rw e (spend-Heard q (q.tokens -ℤ pos 1) t e h)
  | inr e ↦ rw e h
]
turn-Heard-other q (waiting g) t h = h
turn-Heard-other q passed t h = h
turn-Heard-other q gone t h = h

turn-Heard : (q : Quota) (t : Taker) → Heard q t → Heard (turn q t).0 (turn q t).1
unfolding turn
turn-Heard q ready h = elim (Bool-cases (has_token q)) [
  | inl e ↦ rw e tt
  | inr e ↦ rw e (omega arith, inr e)
]
turn-Heard q (waiting g) h = elim (Bool-cases (ltb g q.refill)) [ inl e ↦ rw e tt | inr e ↦ rw e h ]
turn-Heard q passed h = h
turn-Heard q gone h = h

put-Heard :
    (q : Quota) (i : ℕ) (t : Taker) (ts : Takers)
    → Heard q t
    → ((j : ℕ) → Heard q (ts j))
    → (j : ℕ) → Heard q (put i t ts j)
put-Heard q i t ts h k j = elim (Bool-cases (j == i)) [ inl e ↦ rw e h | inr e ↦ rw e (k j) ]

Step-Heard :
    (q : Quota) (ts : Takers) (p : Quota) (us : Takers)
    → Step q ts p us
    → ((j : ℕ) → Heard q (ts j))
    → (j : ℕ) → Heard p (us j)
unfolding add set
Step-Heard q ts p us (turns x vs i) h =
    put-Heard (turn x (vs i)).0 i (turn x (vs i)).1 vs (turn-Heard x (vs i) (h i))
      (λ j. turn-Heard-other x (vs i) (vs j) (h j))
Step-Heard q ts p us (leaves x vs i) h = put-Heard x i gone vs tt h
Step-Heard q ts p us (arrives x vs i) h = put-Heard x i ready vs tt h
Step-Heard q ts p us (adds x vs n max) h = λ j. announce-Heard x _ (vs j) (h j)
Step-Heard q ts p us (sets x vs n) h = λ j. announce-Heard x n (vs j) (h j)

Reachable-Heard :
    (initial : ℤ) (q : Quota) (ts : Takers) → Reachable initial q ts → (j : ℕ) → Heard q (ts j)
Reachable-Heard initial q ts start j = tt
Reachable-Heard initial p us (later x vs y ws r s) j =
    Step-Heard x vs y ws s (Reachable-Heard initial x vs r) j

abbrev pub spent : Quota → Quota
spent q = record q { tokens = q.tokens -ℤ pos 1 }

two_turns :
    (q : Quota) (g : ℕ)
    → Heard q (waiting g)
    → has_token q ≡ true
    → turn q (turn q (waiting g)).1 ≡ (spent q, passed)
unfolding turn
two_turns q g (h, inl k) e = rw (lt→ltb g q.refill k, e) refl
two_turns q g (h, inr k) e = ground arith

-- No wake-up is lost: in whatever order calls look, wait, leave and come back, and whenever the
-- allowance is added to or set, a call of Take that waits while there is a command in hand finds its
-- channel closed, and is let through by its next look, which takes one from the allowance.
pub Reachable-two_turns :
    (initial : ℤ) (q : Quota) (ts : Takers) (i g : ℕ)
    → Reachable initial q ts
    → ts i ≡ waiting g
    → has_token q ≡ true
    → turn q (turn q (ts i)).1 ≡ (spent q, passed)
Reachable-two_turns initial q ts i g r e h =
    let heard : Heard q (waiting g) = subst (λ t. Heard q t) e (Reachable-Heard initial q ts r i) in
    rw e (two_turns q g heard h)
