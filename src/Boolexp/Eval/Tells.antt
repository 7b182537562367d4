-- ===== src/Boolexp/Eval/Tells.antt =====
-- Answers that are right about a statement, and the operators on them.
use fuzzball_emerald.Prelude.{
  ℕ, ◌≡◌, refl, ◌↔◌, ◌⊎◌, inl, inr, Bool, true, false, ◌||◌, Option, some, arith, if◌then◌else◌,
  ◌==◌, ==_iff,
}
use fuzzball_emerald.Prelude.Int.{eqb_ℤ, eqb_ℤ_iff}
use fuzzball_emerald.Ref.{Ref}
use fuzzball_emerald.Ascii.SMatch.{or_else}
use fuzzball_emerald.Boolexp.Eval.{and_then, negate}

-- The answer is right about a statement.
abbrev pub Tells : Bool → Type 0 → Type 0
Tells true P = P
Tells false P = P → ⊥

pub Tells-iff : (b : Bool) (P : Type 0) → Tells b P → (b ≡ true) ↔ P
Tells-iff true P h = ((λ e. h), (λ p. refl))
Tells-iff false P h = ((λ e. ground arith), (λ p. absurd (h p)))

abbrev pub Decides : Option Bool → Type 0 → Type 0
Decides o P = (b : Bool) × (o ≡ some b) × Tells b P

pub and_then-Decides :
    (x y : Option Bool) (P Q : Type 0) → Decides x P → Decides y Q → Decides (and_then x y) (P × Q)
and_then-Decides x y P Q (true, e, p) (c, k, q) = rw (e, k) (both_tell c p q)
  where
    both_tell : (c : Bool) → P → Tells c Q → Decides (some c) (P × Q)
    both_tell true p q = (true, refl, (p, q))
    both_tell false p q = (false, refl, λ r. q r.1)
and_then-Decides x y P Q (false, e, p) k = rw e (false, refl, λ r. p r.0)

pub or_else-Decides :
    (x y : Option Bool) (P Q : Type 0) → Decides x P → Decides y Q → Decides (or_else x y) (P ⊎ Q)
or_else-Decides x y P Q (true, e, p) k = rw e (true, refl, inl p)
or_else-Decides x y P Q (false, e, p) (c, k, q) = rw (e, k) (one_tells c p q)
  where
    one_tells : (c : Bool) → (P → ⊥) → Tells c Q → Decides (some c) (P ⊎ Q)
    one_tells true p q = (true, refl, inr q)
    one_tells false p q = (false, refl, λ r. elim r [ inl a ↦ p a | inr b ↦ q b ])

pub negate-Decides : (x : Option Bool) (P : Type 0) → Decides x P → Decides (negate x) (P → ⊥)
negate-Decides x P (true, e, p) = rw e (false, refl, λ f. f p)
negate-Decides x P (false, e, p) = rw e (true, refl, p)

-- Of tests in turn, each of which tells its statement.
pub first_tells :
    (b c : Bool) (P Q : Type 0) → Tells b P → Tells c Q → Tells (if b then true else c) (P ⊎ Q)
first_tells true c P Q p q = inl p
first_tells false true P Q p q = inr q
first_tells false false P Q p q = λ r. elim r [ inl a ↦ p a | inr b ↦ q b ]

pub Tells-or : (b c : Bool) (P Q : Type 0) → Tells b P → Tells c Q → Tells (b || c) (P ⊎ Q)
Tells-or true c P Q p q = inl p
Tells-or false true P Q p q = inr q
Tells-or false false P Q p q = λ r. elim r [ inl a ↦ p a | inr b ↦ q b ]

-- A test that sends to one side or to the other.
pub Tells-if :
    (t b c : Bool) (T P Q : Type 0)
    → Tells t T
    → Tells b P
    → Tells c Q
    → Tells (if t then b else c) ((T × P) ⊎ ((T → ⊥) × Q))
Tells-if true true c T P Q t p q = inl (t, p)
Tells-if true false c T P Q t p q = λ r. elim r [ inl a ↦ p a.1 | inr b ↦ b.0 t ]
Tells-if false b true T P Q t p q = inr (t, q)
Tells-if false b false T P Q t p q = λ r. elim r [ inl a ↦ t a.0 | inr b ↦ q b.1 ]

pub Tells-unless :
    (t c : Bool) (T Q : Type 0)
    → Tells t T
    → Tells c Q
    → Tells (if t then false else c) ((T → ⊥) × Q)
Tells-unless true c T Q t q = λ r. r.0 t
Tells-unless false true T Q t q = (t, q)
Tells-unless false false T Q t q = λ r. q r.1

pub told : (b : Bool) (P : Type 0) → (b ≡ true → P) → (P → b ≡ true) → Tells b P
told true P f g = f refl
told false P f g = λ p. ground (arith, g p)

pub equal_refs : (a b : Ref) → Tells (eqb_ℤ a b) (a ≡ b)
equal_refs a b = told (eqb_ℤ a b) (a ≡ b) (eqb_ℤ_iff a b).0 (eqb_ℤ_iff a b).1

pub equal_numbers : (a b : ℕ) → Tells (a == b) (a ≡ b)
equal_numbers a b = told (a == b) (a ≡ b) (==_iff a b).0 (==_iff a b).1
