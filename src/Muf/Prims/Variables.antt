-- ===== src/Muf/Prims/Variables.antt =====
-- What `@` reads after a `!`.
use fuzzball_emerald.Prelude.{
  ℕ, zero, suc, ◌≡◌, refl, Bool, true, false, List, [], ◌∷◌, Option, none, some, arith, ◌==◌, ltb,
  if◌then◌else◌, length, get_elem?, Bool-cases, inl, inr,
}
use fuzzball_emerald.Prelude.Int.{pos}
use fuzzball_emerald.Ref.{nothing}
use fuzzball_emerald.Muf.{Value, var, lvar, svar, object, Frame}
use fuzzball_emerald.Muf.Stack.{
  and_then, done, failed, MufError, scoped_range, variable_range, indexed, read_var, write_var,
  set_at, set_grown, get_scoped, set_scoped, slot_of,
}

get_elem?-set_at :
    (n m : ℕ) (v : Value) (xs : List Value)
    → ltb n (length xs) ≡ true
    → get_elem? (set_at n v xs) m ≡ (if m == n then some v else get_elem? xs m)
unfolding set_at
get_elem?-set_at n m v [] h = ground arith
get_elem?-set_at zero zero v (x ∷ xs) h = ground arith
get_elem?-set_at zero (suc m) v (x ∷ xs) h = ground arith
get_elem?-set_at (suc n) zero v (x ∷ xs) h = ground arith
get_elem?-set_at (suc n) (suc m) v (x ∷ xs) h = ground (arith, get_elem?-set_at n m v xs)

get_elem?-none : (m : ℕ) (xs : List Value) → ltb m (length xs) ≡ false → get_elem? xs m ≡ none
get_elem?-none m [] h = refl
get_elem?-none zero (x ∷ xs) h = ground arith
get_elem?-none (suc m) (x ∷ xs) h = ground (arith, get_elem?-none m xs)

-- What a scope holds at a place once it is grown and written.
abbrev pub grown : ℕ → ℕ → Value → List Value → Option Value
grown n m v xs =
    if m == n
    then some v
    else if ltb m (length xs)
    then get_elem? xs m
    else if ltb m n
    then some (object nothing)
    else none

get_elem?-set_grown :
    (n m : ℕ) (v : Value) (xs : List Value) → get_elem? (set_grown n v xs) m ≡ grown n m v xs
unfolding set_grown
get_elem?-set_grown zero zero v [] = ground arith
get_elem?-set_grown zero (suc m) v [] = ground arith
get_elem?-set_grown zero zero v (x ∷ xs) = ground arith
get_elem?-set_grown zero (suc m) v (x ∷ xs) = ground (arith, get_elem?-none m xs)
get_elem?-set_grown (suc n) zero v [] = ground arith
get_elem?-set_grown (suc n) (suc m) v [] = ground (arith, get_elem?-set_grown n m v [])
get_elem?-set_grown (suc n) zero v (x ∷ xs) = ground arith
get_elem?-set_grown (suc n) (suc m) v (x ∷ xs) = ground (arith, get_elem?-set_grown n m v xs)

indexed_if :
    (t : Bool) (v : Value) (o : Option Value) (e : MufError) (f : Frame)
    → indexed (if t then some v else o) e f ≡ (if t then done v f else indexed o e f)
indexed_if true v o e f = refl
indexed_if false v o e f = refl

pub var_lem :
    (f : Frame) (n m : ℕ) (v : Value)
    → and_then (write_var (var (pos n)) v f) (λ _. read_var (var (pos m))) ≡ (
        let g = record f { vars = set_at n v f.vars } in
        if ltb n (length f.vars)
        then (if m == n then done v g else slot_of f.vars (pos m) g)
        else failed variable_range f)
unfolding read_var write_var
var_lem f n m v = elim (Bool-cases (ltb n (length f.vars))) [
  | inl e ↦ rw e (
      rw (get_elem?-set_at n m v f.vars e)
        (indexed_if (m == n) v (get_elem? f.vars m) variable_range _))
  | inr e ↦ rw e
]

lvar_lem :
    (f : Frame) (n m : ℕ) (v : Value)
    → and_then (write_var (lvar (pos n)) v f) (λ _. read_var (lvar (pos m))) ≡ (
        let g = record f { lvars = set_at n v f.lvars } in
        if ltb n (length f.lvars)
        then (if m == n then done v g else slot_of f.lvars (pos m) g)
        else failed variable_range f)
unfolding read_var write_var
lvar_lem f n m v = elim (Bool-cases (ltb n (length f.lvars))) [
  | inl e ↦ rw e (
      rw (get_elem?-set_at n m v f.lvars e)
        (indexed_if (m == n) v (get_elem? f.lvars m) variable_range _))
  | inr e ↦ rw e
]

svar_lem :
    (f : Frame) (s : List Value) (rest : List (List Value)) (n m : ℕ) (v : Value)
    → f.scopes ≡ s ∷ rest
    → and_then (write_var (svar (pos n)) v f) (λ _. read_var (svar (pos m)))
      ≡ indexed (grown n m v s) scoped_range (record f { scopes = set_grown n v s ∷ rest })
unfolding read_var write_var get_scoped set_scoped
svar_lem f s rest n m v e = rw e (rw (get_elem?-set_grown n m v s))

-- A `!` to a variable and a `@` of one of the same kind after it, in a frame that has a scope, at
-- numbers that are not negative. For a program's variables and for its local ones: where the number
-- that is written is one of the frame's, what is read at it is the value, and at every other number
-- what was there; elsewhere the write fails. For scoped variables, within a procedure: what is read
-- is what the scope holds once it is grown with #-1s up to the slot.
pub read_var-write_var :
    (f : Frame) (s : List Value) (rest : List (List Value)) (n m : ℕ) (v : Value)
    → f.scopes ≡ s ∷ rest
    → (and_then (write_var (var (pos n)) v f) (λ _. read_var (var (pos m))) ≡ (
        let g = record f { vars = set_at n v f.vars } in
        if ltb n (length f.vars)
        then (if m == n then done v g else slot_of f.vars (pos m) g)
        else failed variable_range f))
      × (and_then (write_var (lvar (pos n)) v f) (λ _. read_var (lvar (pos m))) ≡ (
          let g = record f { lvars = set_at n v f.lvars } in
          if ltb n (length f.lvars)
          then (if m == n then done v g else slot_of f.lvars (pos m) g)
          else failed variable_range f))
      × (and_then (write_var (svar (pos n)) v f) (λ _. read_var (svar (pos m)))
          ≡ indexed (grown n m v s) scoped_range (record f { scopes = set_grown n v s ∷ rest }))
read_var-write_var f s rest n m v e = (var_lem f n m v, lvar_lem f n m v, svar_lem f s rest n m v e)
