-- ===== src/Boolexp/Eval/Search.antt =====
-- `hasProperty` against an independent description: the objects that it looks at.
use fuzzball_emerald.Prelude.{
  ℕ, zero, suc, ◌≡◌, refl, Bool, true, false, List, [], ◌∷◌, Option, none, some, if◌then◌else◌, ◌⊎◌,
  inl, inr, arith,
}
use fuzzball_emerald.Prelude.Int.{ℤ, eqb_ℤ}
use fuzzball_emerald.Ref.{Ref, nothing}
use fuzzball_emerald.Ascii.SMatch.{or_else}
use fuzzball_emerald.Boolexp.{Host}
use fuzzball_emerald.Boolexp.Eval.{any_of, environment, holds}

pub data IsIn {A : Type 0} (x : A) : List A → Type 0 where
  is_first : (xs : List A) → IsIn x (x ∷ xs)
  is_later : (y : A) (xs : List A) → IsIn x xs → IsIn x (y ∷ xs)

-- `at` is on the walk that starts at the object given.
pub data Above (host : Host) (at : Ref) : Ref → Type 0 where
  above_here : eqb_ℤ at nothing ≡ false → Above host at at
  above_next : (r : Ref) → eqb_ℤ r nothing ≡ false → Above host at (host.parent r) → Above host at r

-- The object itself, what it holds at any depth, and, where the environment is searched, what is
-- above any of these.
pub data Reaches (host : Host) (at : Ref) : Ref → Type 0 where
  reaches_self : Reaches host at at
  reaches_held :
      (what c : Ref) → IsIn c (host.contents what) → Reaches host at c → Reaches host at what
  reaches_above :
      (what : Ref)
      → host.lock_env_check ≡ true
      → Above host at (host.parent what)
      → Reaches host at what

pub or_else-true : (a b : Option Bool) → or_else a b ≡ some true → (a ≡ some true) ⊎ (b ≡ some true)
or_else-true none b h = ground arith
or_else-true (some true) b h = inl refl
or_else-true (some false) b h = inr h

pub or_else-false :
    (a b : Option Bool) → or_else a b ≡ some false → (a ≡ some false) × (b ≡ some false)
or_else-false none b h = ground arith
or_else-false (some true) b h = ground arith
or_else-false (some false) b h = (refl, h)

any_of-true :
    (test : Ref → Option Bool) (xs : List Ref)
    → any_of test xs ≡ some true
    → (c : Ref) × IsIn c xs × (test c ≡ some true)
any_of-true test [] h = ground arith
any_of-true test (x ∷ xs) h = elim (or_else-true (test x) (any_of test xs) h) [
  | inl e ↦ (x, is_first xs, e)
  | inr e ↦ let (c, i, t) = any_of-true test xs e in (c, is_later x xs i, t)
]

any_of-false :
    (test : Ref → Option Bool) (c : Ref) {xs : List Ref}
    → IsIn c xs
    → any_of test xs ≡ some false
    → test c ≡ some false
any_of-false test c (is_first xs) h = (or_else-false (test c) (any_of test xs) h).0
any_of-false test c (is_later y xs i) h =
    any_of-false test c i (or_else-false (test y) (any_of test xs) h).1

guarded-true :
    (t : Bool) (x : Option Bool)
    → (if t then some false else x) ≡ some true
    → (t ≡ false) × (x ≡ some true)
guarded-true true x h = ground arith
guarded-true false x h = (refl, h)

guarded-false :
    (t : Bool) (x : Option Bool)
    → (if t then some false else x) ≡ some false
    → t ≡ false
    → x ≡ some false
guarded-false true x h e = ground arith
guarded-false false x h e = h

enabled-true :
    (t : Bool) (x : Option Bool)
    → (if t then x else some false) ≡ some true
    → (t ≡ true) × (x ≡ some true)
enabled-true true x h = (refl, h)
enabled-true false x h = ground arith

enabled-false :
    (t : Bool) (x : Option Bool)
    → (if t then x else some false) ≡ some false
    → t ≡ true
    → x ≡ some false
enabled-false true x h e = h
enabled-false false x h e = ground arith

module _ (host : Host) (descr : ℤ) (player : Ref) (test : Ref → Option Bool) where
  environment-true :
      (fuel : ℕ) (r : Ref)
      → environment host descr player test fuel r ≡ some true
      → (at : Ref) × Above host at r × (test at ≡ some true)
  unfolding environment
  environment-true zero r h = ground arith
  environment-true (suc fuel) r h =
      let rest = environment host descr player test fuel (host.parent r) in
      let (n, k) = guarded-true (eqb_ℤ r nothing) (or_else (test r) rest) h in
      elim (or_else-true (test r) rest k) [
        | inl t ↦ (r, above_here n, t)
        | inr t ↦
            let (at, a, u) = environment-true fuel (host.parent r) t in (at, above_next r n a, u)
      ]

  environment-false :
      (at : Ref) (fuel : ℕ) {r : Ref}
      → Above host at r
      → environment host descr player test fuel r ≡ some false
      → test at ≡ some false
  unfolding environment
  environment-false at zero a h = ground arith
  environment-false at (suc fuel) (above_here n) h =
      let rest = environment host descr player test fuel (host.parent at) in
      (or_else-false (test at) rest
        (guarded-false (eqb_ℤ at nothing) (or_else (test at) rest) h n)).0
  environment-false at (suc fuel) (above_next r n a) h =
      let rest = environment host descr player test fuel (host.parent r) in
      environment-false at fuel a
        (or_else-false (test r) rest
          (guarded-false (eqb_ℤ r nothing) (or_else (test r) rest) h n)).1

  -- A search for a property that passes has found an object that passes the test, among the
  -- object it starts at, what this holds at any depth and, where the environment is searched,
  -- what is above any of these.
  pub holds-true :
      (walk fuel : ℕ) (what : Ref)
      → holds host descr player test walk fuel what ≡ some true
      → (at : Ref) × Reaches host at what × (test at ≡ some true)
  unfolding holds
  holds-true walk zero what h = ground arith
  holds-true walk (suc fuel) what h =
      let inside = any_of (holds host descr player test walk fuel) (host.contents what) in
      let above =
        if host.lock_env_check
        then environment host descr player test walk (host.parent what)
        else some false in
      elim (or_else-true (test what) (or_else inside above) h) [
        | inl t ↦ (what, reaches_self, t)
        | inr k ↦ elim (or_else-true inside above k) [
          | inl i ↦
              let (c, m, t) =
                any_of-true (holds host descr player test walk fuel) (host.contents what) i in
              let (at, r, u) = holds-true walk fuel c t in (at, reaches_held what c m r, u)
          | inr e ↦
              let (on, t) =
                enabled-true host.lock_env_check
                  (environment host descr player test walk (host.parent what)) e in
              let (at, a, u) = environment-true walk (host.parent what) t in
              (at, reaches_above what on a, u)
        ]
      ]

  -- A search for a property that fails has looked at the object it starts at, at what this holds
  -- at any depth and, where the environment is searched, at what is above any of these, and none
  -- passes the test.
  pub holds-false :
      (walk : ℕ) (at : Ref) {what : Ref}
      → Reaches host at what
      → (fuel : ℕ) → holds host descr player test walk fuel what ≡ some false
      → test at ≡ some false
  unfolding holds
  holds-false walk at r zero h = ground arith
  holds-false walk at reaches_self (suc fuel) h = (or_else-false (test at) _ h).0
  holds-false walk at (reaches_held what c m r) (suc fuel) h = holds-false walk at r fuel (
      any_of-false (holds host descr player test walk fuel) c m
        (or_else-false _ _ (or_else-false (test what) _ h).1).0)
  holds-false walk at (reaches_above what on a) (suc fuel) h = environment-false at walk a (
      enabled-false host.lock_env_check _ (or_else-false _ _ (or_else-false (test what) _ h).1).1
        on)
