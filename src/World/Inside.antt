-- ===== src/World/Inside.antt =====
-- internal/world, contains: containment at any depth, as a relation of its own, and that a move makes
-- no object contain itself.
pub mod Moves
use Prim.Native.Nat.{ℕ, zero, suc, ◌≤◌}
use mathlib.Core.Path.{◌≡◌, refl}
use mathlib.Core.Logic.{◌≢◌, ◌⊎◌, ◌↔◌, inl, inr}
use mathlib.Core.Bool.{Bool, true, false, ◌||◌}
use mathlib.Core.List.{List, [], ◌∷◌}
use mathlib.Core.Option.{Option, none, some}
use fuzzball_emerald.Prelude.{arith, ◌∙◌, length, if◌then◌else◌, Bool-cases, Option-cases}
use fuzzball_emerald.Prelude.RefMap.{◌=?◌, lookup, ℤ-discrete}
use fuzzball_emerald.Prelude.RefList.{has, Distinct, length-le_of_keys}
use fuzzball_emerald.Ref.{Ref, nothing}
use fuzzball_emerald.World.{
  Object, Objects, World, Outcome, on_some, contains_loop, contains, move_to, done,
}
use fuzzball_emerald.World.Linked.{IsSound}
use fuzzball_emerald.World.Move.{place_of}
use fuzzball_emerald.World.Move.Effect.{Lands, move_to-Lands}
use fuzzball_emerald.World.Move.Sound.{MovedTo, live_of_place}

-- `outer` is the object, or its location, or the location of that, and so on.
pub data Inside (m : Objects) (outer : Ref) : Ref → Type 0 where
  at_self : outer ≢ nothing → Inside m outer outer
  at_location :
      (r : Ref) (o : Object)
      → r ≢ nothing
      → lookup r m ≡ some o
      → Inside m outer o.location
      → Inside m outer r

-- The objects on the way out, each before its location.
abbrev IsWay : Objects → (outer r : Ref) → List Ref → Type 0
IsWay m outer r [] = r ≡ outer
IsWay m outer r (x ∷ xs) =
    (r ≡ x) × ((o : Object) × (lookup x m ≡ some o) × (x ≢ nothing) × IsWay m outer o.location xs)

record Way (m : Objects) (outer r : Ref) : Type 0 where
  over : List Ref
  way : IsWay m outer r over
  distinct : Distinct over

module _ (m : Objects) (outer : Ref) where
  -- A way through `x` is cut short at it.
  Way-from :
      (x r : Ref) (xs : List Ref)
      → IsWay m outer r xs
      → Distinct xs
      → has x xs ≡ true
      → Way m outer x
  Way-from x r [] h d i = ground arith
  Way-from x r (y ∷ ys) (p, (o, e, ne, h)) d i = elim (ℤ-discrete x y) [
    | yes q ↦ record { over = y ∷ ys; way = (q, (o, e, ne, h)); distinct = d }
    | no q ↦ Way-from x o.location ys h d.1 (ground arith)
  ]

  Way-of_Inside : (r : Ref) → Inside m outer r → Way m outer r
  Way-of_Inside r (at_self ok) = record { over = []; way = refl; distinct = tt }
  Way-of_Inside r (at_location _ o ne e h) =
      let k = Way-of_Inside o.location h in
      elim (Bool-cases (has r k.over)) [
        | inl i ↦ Way-from r o.location k.over k.way k.distinct i
        | inr out ↦ record {
          over = r ∷ k.over;
          way = (refl, (o, e, ne, k.way));
          distinct = (out, k.distinct);
        }
      ]

  pub outer_ok : (r : Ref) → Inside m outer r → outer ≢ nothing
  outer_ok r (at_self ok) = ok
  outer_ok r (at_location _ o ne e h) = outer_ok o.location h

  way_live :
      (r : Ref) (xs : List Ref)
      → IsWay m outer r xs
      → (x : Ref) → has x xs ≡ true
      → lookup x m ≢ none
  way_live r [] h x i = ground arith
  way_live r (y ∷ ys) (p, (o, e, ne, h)) x i = ground (arith, way_live o.location ys h x)

  loop_of_way :
      (n : ℕ) (r : Ref) (xs : List Ref)
      → outer ≢ nothing
      → IsWay m outer r xs
      → length xs ≤ n
      → contains_loop (suc n) m outer r ≡ true
  unfolding contains_loop
  loop_of_way n r [] ok h le = ground arith
  loop_of_way zero r (x ∷ xs) ok h le = absurd (omega arith)
  loop_of_way (suc n) r (x ∷ xs) ok (p, (o, e, ne, h)) le =
      ground (arith, loop_of_way n o.location xs ok h)

  Inside-of_loop : (n : ℕ) (r : Ref) → contains_loop n m outer r ≡ true → Inside m outer r
  unfolding contains_loop
  Inside-of_loop zero r h = ground arith
  Inside-of_loop (suc n) r h = elim (ℤ-discrete r nothing) [
    | yes p ↦ ground arith
    | no p ↦ elim (ℤ-discrete r outer) [
      | yes q ↦ rw q (at_self (λ z. p (q ∙ z)))
      | no q ↦ elim (Option-cases (lookup r m)) [
        | inl e ↦ ground arith
        | inr (o, e) ↦ at_location r o p e (Inside-of_loop n o.location (ground arith))
      ]
    ]
  ]

-- In every world, also one whose locations lead in a circle, `contains` answers that one object is
-- inside another just where locations lead from the second to the first.
pub contains_iff :
    (w : World) (outer inner : Ref) → (contains w outer inner ≡ true) ↔ Inside w.objs outer inner
unfolding contains
contains_iff w outer inner = (
  Inside-of_loop w.objs outer (suc (length w.objs)) inner,
  λ h.
      let k = Way-of_Inside w.objs outer inner h in
      loop_of_way w.objs outer (length w.objs) inner k.over (outer_ok w.objs outer inner h) k.way
        (length-le_of_keys w.objs k.over k.distinct (way_live w.objs outer inner k.over k.way)),
)

-- No object is inside itself.
abbrev pub IsNested : World → Type 0
IsNested w = (r : Ref) (o : Object) → lookup r w.objs ≡ some o → ¬ Inside w.objs r o.location

Inside-trans : (m : Objects) (a b c : Ref) → Inside m a b → Inside m b c → Inside m a c
Inside-trans m a b c h (at_self ok) = h
Inside-trans m a b c h (at_location _ o ne e k) =
    at_location c o ne e (Inside-trans m a b o.location h k)

module _ (w v : World) (x dest : Ref) (o : Object) (e : lookup x w.objs ≡ some o)
    (h : MovedTo w x dest o v) where
  location_after :
      (r : Ref) (b : Object)
      → lookup r v.objs ≡ some b
      → r ≢ x
      → (a : Object) × (lookup r w.objs ≡ some a) × (a.location ≡ b.location)
  location_after r b eb ne =
      let same : place_of w.objs r ≡ place_of v.objs r = ground (arith, h.places r) in
      let (a, ea, p, _) = live_of_place v.objs w.objs r b eb same in (a, ea, p)

  location_moved : (b : Object) → lookup x v.objs ≡ some b → b.location ≡ dest
  location_moved b eb = ground (arith, h.places x)

  -- A way out after the move is one from before, or goes through what has moved.
  Inside-before :
      (outer i : Ref)
      → Inside v.objs outer i
      → Inside w.objs outer i ⊎ (Inside w.objs x i × Inside v.objs outer dest)
  Inside-before outer i (at_self ok) = inl (at_self ok)
  Inside-before outer i (at_location _ b ne eb k) = elim (ℤ-discrete i x) [
    | yes p ↦ inr (rw p (at_self (λ z. ne (p ∙ z))), rw (← location_moved b (rw (← p) eb)) k)
    | no p ↦
        let (a, ea, q) = location_after i b eb p in
        elim (Inside-before outer b.location k) [
          | inl j ↦ inl (at_location i a ne ea (rw q j))
          | inr (j, l) ↦ inr (at_location i a ne ea (rw q j), l)
        ]
  ]

  module _ (free : ¬ Inside w.objs x dest) where
    Inside-dest : (outer : Ref) → Inside v.objs outer dest → Inside w.objs outer dest
    Inside-dest outer k = elim (Inside-before outer dest k) [
      | inl j ↦ j
      | inr (j, _) ↦ absurd (free j)
    ]

    MovedTo-IsNested : IsNested w → IsNested v
    MovedTo-IsNested nested r b eb k = elim (ℤ-discrete r x) [
      | yes p ↦ free (Inside-dest x (rw (← location_moved b (rw (← p) eb), ← p) k))
      | no p ↦
          let (a, ea, q) = location_after r b eb p in
          elim (Inside-before r b.location k) [
            | inl j ↦ nested r a ea (rw q j)
            | inr (j, l) ↦ free (
                Inside-trans w.objs x r dest
                  (at_location r a (outer_ok v.objs r b.location k) ea (rw q j)) (Inside-dest r l))
          ]
    ]

nothing_outside : (m : Objects) (outer r : Ref) → Inside m outer r → r ≢ nothing
nothing_outside m outer r (at_self ok) = ok
nothing_outside m outer r (at_location _ o ne e h) = ne

-- In a world whose lists agree with its locations, where no object is inside itself, a move ends,
-- in as many rounds as there are objects, and leaves none inside itself, or is refused.
pub move_to-IsNested :
    (w : World) (what dest : Ref) (rounds : ℕ)
    → IsSound w
    → IsNested w
    → length w.objs ≤ rounds
    → Lands IsNested (move_to rounds what dest w)
move_to-IsNested w what dest rounds s nested enough =
    move_to-Lands w what dest rounds IsNested s enough λ o v e may h.
      let free : ¬ Inside w.objs what dest = λ j. elim may.inside [
        | inl p ↦ nothing_outside w.objs what dest j p
        | inr (_, _, _, _, out) ↦ let found = (contains_iff w what dest).1 j in cc
      ] in
      MovedTo-IsNested w v what dest o e h free nested
