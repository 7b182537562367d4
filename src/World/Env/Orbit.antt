-- ===== src/World/Env/Orbit.antt =====
-- internal/world/env.go: where the links of an environment lead. Among finitely many objects the links
-- come round or lead out, so that the two walks of Parent meet.
use Prim.Native.Nat.{ℕ, zero, suc, ◌+◌, ◌-◌, ◌*◌, ◌≤◌, ◌<◌}
use mathlib.Core.Path.{◌≡◌, refl}
use mathlib.Core.Logic.{◌≢◌, inl, inr}
use mathlib.Core.Bool.{true, false}
use mathlib.Core.List.{List, [], ◌∷◌}
use mathlib.Core.Option.{none, some}
use fuzzball_emerald.Prelude.{arith, ltb, sym, ap, ◌∙◌, length, Bool-cases, Option-cases}
use fuzzball_emerald.Prelude.RefMap.{lookup, ℤ-discrete}
use fuzzball_emerald.Prelude.RefList.{has, Distinct, length-le_of_keys}
use fuzzball_emerald.Ref.{Ref, nothing}
use fuzzball_emerald.World.{Object, Objects}
use fuzzball_emerald.World.Env.{parent_link}

-- Where `k` links lead.
unfoldable pub iter : Objects → ℕ → Ref → Ref
iter m zero r = r
iter m (suc k) r = parent_link m (iter m k r)

pub iter-suc : (m : Objects) (k : ℕ) (r : Ref) → iter m (suc k) r ≡ parent_link m (iter m k r)
unfolding iter
iter-suc m k r = refl

pub iter_zero : (m : Objects) (r : Ref) → iter m 0 r ≡ r
unfolding iter
iter_zero m r = refl

-- A multiple of a period beyond a place.
multiple : (i p : ℕ) → 0 < p → (q : ℕ) × (i < q * p) × (q * p ≤ i + p)
multiple zero p pos = (1, omega arith, omega arith)
multiple (suc i) p pos =
    let (q, above, below) = multiple i p pos in
    elim (Bool-cases (ltb (suc i) (q * p))) [
      | inl more ↦ (q, ground arith, omega arith)
      | inr equal ↦ (suc q, grind arith, grind arith)
    ]

module _ (m : Objects) (r : Ref) where
  pub iter_at : (a b : ℕ) → a ≡ b → iter m a r ≡ iter m b r
  iter_at a b e = ap (λ n. iter m n r) e

  -- Two places on the way that are one stay one.
  iter_shift : (a b t : ℕ) → iter m a r ≡ iter m b r → iter m (t + a) r ≡ iter m (t + b) r
  iter_shift a b zero h = iter_at (0 + a) a (omega arith) ∙ h ∙ iter_at b (0 + b) (omega arith)
  iter_shift a b (suc t) h =
      iter_at (suc t + a) (suc (t + a)) (omega arith)
      ∙ iter-suc m (t + a) r
      ∙ ap (parent_link m) (iter_shift a b t h)
      ∙ sym (iter-suc m (t + b) r)
      ∙ iter_at (suc (t + b)) (suc t + b) (omega arith)

  pub iter_period :
      (a p q t : ℕ) → iter m a r ≡ iter m (a + p) r → a ≤ t → iter m t r ≡ iter m (t + q * p) r
  iter_period a p zero t h le = iter_at t (t + 0 * p) (omega arith)
  iter_period a p (suc q) t h le =
      let u : ℕ = t + q * p in
      iter_period a p q t h le
      ∙ iter_at u ((u - a) + a) (omega arith)
      ∙ iter_shift a (a + p) (u - a) h
      ∙ iter_at ((u - a) + (a + p)) (t + suc q * p) (grind arith)

  pub record Meets : Type 0 where
    pub after : ℕ
    pub early : after ≤ length m
    pub meet : iter m (suc after) r ≡ iter m (2 * suc after) r

  -- A place that comes round gives a place where both walks are.
  meets_of_round : (i k : ℕ) → i < k → k ≤ suc (length m) → iter m i r ≡ iter m k r → Meets
  meets_of_round i k lt le h =
      let (q, above, below) = multiple i (k - i) (omega arith) in
      let t : ℕ = q * (k - i) in
      record {
        after = t - 1;
        early = omega arith;
        meet =
            iter_at (suc (t - 1)) t (omega arith)
            ∙ iter_period i (k - i) q t (h ∙ iter_at k (i + (k - i)) (omega arith)) (omega arith)
            ∙ iter_at (t + t) (2 * suc (t - 1)) (omega arith);
      }

  -- Beyond nothing is nothing.
  pub iter-nothing :
      (a t : ℕ) → lookup nothing m ≡ none → iter m a r ≡ nothing → iter m (t + a) r ≡ nothing
  unfolding parent_link
  iter-nothing a zero dead h = iter_at (0 + a) a (omega arith) ∙ h
  iter-nothing a (suc t) dead h =
      iter_at (suc t + a) (suc (t + a)) (omega arith)
      ∙ iter-suc m (t + a) r
      ∙ rw (iter-nothing a t dead h, dead)

  -- The objects on the way so far.
  record Visited (k : ℕ) (xs : List Ref) : Type 0 where
    count : length xs ≡ k
    distinct : Distinct xs
    live : (x : Ref) → has x xs ≡ true → lookup x m ≢ none
    place : (x : Ref) → has x xs ≡ true → (i : ℕ) × (i < k) × (iter m i r ≡ x)

  Visited-more :
      (k : ℕ) (xs : List Ref) (o : Object)
      → Visited k xs
      → lookup (iter m k r) m ≡ some o
      → has (iter m k r) xs ≡ false
      → Visited (suc k) (iter m k r ∷ xs)
  Visited-more k xs o v e out = record {
    count = omega (arith, v.count);
    distinct = (out, v.distinct);
    live = λ x i. ground (arith, v.live x);
    place = λ x i. elim (ℤ-discrete x (iter m k r)) [
      | yes p ↦ (k, omega arith, sym p)
      | no p ↦ let (j, lt, f) = v.place x (ground arith) in (j, omega arith, f)
    ];
  }

  dead_link : (x : Ref) → lookup x m ≡ none → parent_link m x ≡ nothing
  unfolding parent_link
  dead_link x e = rw e

  search_round :
      (n k : ℕ) (xs : List Ref)
      → lookup nothing m ≡ none
      → n + k ≡ suc (length m)
      → Visited k xs
      → Meets
  search_round zero k xs dead sum v =
      absurd (omega (arith, v.count, length-le_of_keys m xs v.distinct v.live))
  search_round (suc n) k xs dead sum v = elim (Option-cases (lookup (iter m k r) m)) [
    | inl e ↦
        let out : iter m (suc k) r ≡ nothing = iter-suc m k r ∙ dead_link (iter m k r) e in
        record {
          after = k;
          early = omega arith;
          meet =
              out
              ∙ sym (
                  iter_at (2 * suc k) (suc k + suc k) (omega arith)
                  ∙ iter-nothing (suc k) (suc k) dead out);
        }
    | inr (o, e) ↦ elim (Bool-cases (has (iter m k r) xs)) [
      | inl i ↦ let (j, lt, f) = v.place (iter m k r) i in meets_of_round j k lt (omega arith) f
      | inr out ↦
          search_round n (suc k) (iter m k r ∷ xs) dead (omega arith) (Visited-more k xs o v e out)
    ]
  ]

  pub walks_meet : lookup nothing m ≡ none → Meets
  walks_meet dead = search_round (suc (length m)) 0 [] dead (omega arith) (record {
    count = refl;
    distinct = tt;
    live = λ x i. ground arith;
    place = λ x i. ground arith;
  })
