-- ===== src/Boolexp/Nest.antt =====
-- Locks that the parser can give, and the nesting of a chain of '&' or of '|' that it gives them.
use fuzzball_emerald.Prelude.{◌<◌, ◌≡◌, refl, false, [], ◌∷◌, ◌==◌, Bytes, All, length, IsAscii}
use fuzzball_emerald.Prelude.Space.{is_space, NoSpace}
use fuzzball_emerald.Boolexp.Runes.{trim_right_runes}
use fuzzball_emerald.Ref.Laws.{IsRef}
use fuzzball_emerald.Boolexp.{Expr, true_boolexp, both, either, negated, const, prop}
use fuzzball_emerald.Boolexp.Parse.{ends_atom, is_nil}

unfoldable mutual
  -- The tree that a lock's text stands for: chains nested to the right.
  pub nest : Expr → Expr
  nest true_boolexp = true_boolexp
  nest (both a b) = and_onto a (nest b)
  nest (either a b) = or_onto a (nest b)
  nest (negated a) = negated (nest a)
  nest (const r) = const r
  nest (prop n v) = prop n v

  pub and_onto : Expr → Expr → Expr
  and_onto (both a b) t = and_onto a (and_onto b t)
  and_onto true_boolexp t = both true_boolexp t
  and_onto (either a b) t = both (or_onto a (nest b)) t
  and_onto (negated a) t = both (negated (nest a)) t
  and_onto (const r) t = both (const r) t
  and_onto (prop n v) t = both (prop n v) t

  pub or_onto : Expr → Expr → Expr
  or_onto (either a b) t = or_onto a (or_onto b t)
  or_onto true_boolexp t = either true_boolexp t
  or_onto (both a b) t = either (and_onto a (nest b)) t
  or_onto (negated a) t = either (negated (nest a)) t
  or_onto (const r) t = either (const r) t
  or_onto (prop n v) t = either (prop n v) t

-- A byte that a name or a value may have.
abbrev pub IsInside : Bytes → Type 0
IsInside = All (λ c. ends_atom c ≡ false)

-- A property name that the parser can give: neither empty nor ended by a space, it does not start
-- like another atom, and has no colon and no byte that ends an atom.
abbrev pub IsName : Bytes → Type 0
IsName [] = ⊥
IsName (c ∷ s) =
    (is_space c ≡ false)
    × ((c == b'(') ≡ false)
    × ((c == b'!') ≡ false)
    × IsInside (c ∷ s)
    × All (λ d. (d == b':') ≡ false) (c ∷ s)
    × (trim_right_runes (c ∷ s) ≡ c ∷ s)

-- A value that the parser can give, of ASCII bytes.
abbrev pub IsLockValue : Bytes → Type 0
IsLockValue s = (0 < length s) × IsInside s × NoSpace s × IsAscii s

abbrev pub IsLock : Expr → Type 0
IsLock true_boolexp = ⊥
IsLock (both a b) = IsLock a × IsLock b
IsLock (either a b) = IsLock a × IsLock b
IsLock (negated a) = IsLock a
IsLock (const r) = IsRef r
IsLock (prop n v) = IsName n × IsLockValue v

mutual
  unfolding nest

  pub nest-is_nil : (e : Expr) → IsLock e → is_nil (nest e) ≡ false
  nest-is_nil true_boolexp h = absurd h
  nest-is_nil (both a b) h = and_onto-is_nil a (nest b)
  nest-is_nil (either a b) h = or_onto-is_nil a (nest b)
  nest-is_nil (negated a) h = refl
  nest-is_nil (const r) h = refl
  nest-is_nil (prop n v) h = refl

  and_onto-is_nil : (e t : Expr) → is_nil (and_onto e t) ≡ false
  and_onto-is_nil true_boolexp t = refl
  and_onto-is_nil (both a b) t = and_onto-is_nil a (and_onto b t)
  and_onto-is_nil (either a b) t = refl
  and_onto-is_nil (negated a) t = refl
  and_onto-is_nil (const r) t = refl
  and_onto-is_nil (prop n v) t = refl

  or_onto-is_nil : (e t : Expr) → is_nil (or_onto e t) ≡ false
  or_onto-is_nil true_boolexp t = refl
  or_onto-is_nil (either a b) t = or_onto-is_nil a (or_onto b t)
  or_onto-is_nil (both a b) t = refl
  or_onto-is_nil (negated a) t = refl
  or_onto-is_nil (const r) t = refl
  or_onto-is_nil (prop n v) t = refl
