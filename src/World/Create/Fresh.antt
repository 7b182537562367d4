-- ===== src/World/Create/Fresh.antt =====
-- internal/world, Create: a new object never takes the reference of a live one.
use Prim.Native.Nat.{ℕ, ◌≤◌, ◌<◌}
use mathlib.Core.Path.{◌≡◌, refl}
use mathlib.Core.Logic.{inl, inr}
use mathlib.Core.Bool.{true, false}
use mathlib.Core.List.{List, [], ◌∷◌}
use mathlib.Core.Option.{some}
use fuzzball_emerald.Prelude.{arith, ◌==◌, if◌then◌else◌, Bytes, Bool-cases, Option-cases}
use fuzzball_emerald.Prelude.Int.{pos}
use fuzzball_emerald.Prelude.RefMap.{◌=?◌, lookup, insert, lookup-insert, ℤ-discrete}
use fuzzball_emerald.Prelude.RefList.{has}
use fuzzball_emerald.Ref.{Ref}
use fuzzball_emerald.Ref.Flags.{type_player}
use fuzzball_emerald.World.{Object, Objects, World, get, valid}
use fuzzball_emerald.World.Create.{new_object, is_free, first_free, fresh, next_ref, create}

-- Below the top, counted from 0.
abbrev pub IsRefBelow : ℕ → Ref → Type 0
IsRefBelow top r = (n : ℕ) × ((r ≡ pos n) × (n < top))

-- Objects and the free list are below the top.
pub record IsTracked (w : World) : Type 0 where
  pub objects : (r : Ref) (o : Object) → lookup r w.objs ≡ some o → IsRefBelow w.top r
  pub listed : (r : Ref) → has r w.recyclable ≡ true → IsRefBelow w.top r

-- A reference that may be handed out, and what else has changed.
record IsNext (w : World) (s : Ref × World) : Type 0 where
  free : is_free w.objs s.0 ≡ true
  in_range : IsRefBelow s.1.top s.0
  objs : s.1.objs ≡ w.objs
  top : w.top ≤ s.1.top
  listed : (r : Ref) → has r s.1.recyclable ≡ true → has r w.recyclable ≡ true
  clock : s.1.clock ≡ w.clock

fresh_free : (w : World) → IsTracked w → is_free w.objs (pos w.top) ≡ true
fresh_free w t = elim (Option-cases (lookup (pos w.top) w.objs)) [
  | inl e ↦ rw e refl
  | inr (o, e) ↦ let (n, (p, lt)) = t.objects (pos w.top) o e in ground arith
]

fresh-IsNext :
    (w : World) (rs : List Ref)
    → IsTracked w
    → ((r : Ref) → has r rs ≡ true → has r w.recyclable ≡ true)
    → IsNext w (fresh (record w { recyclable = rs }))
fresh-IsNext w rs t sub = record {
  free = fresh_free w t;
  in_range = (w.top, (refl, omega arith));
  objs = refl;
  top = omega arith;
  listed = sub;
  clock = refl;
}

first_free_lem :
    (m : Objects) (rs : List Ref) (s : Ref × List Ref)
    → first_free m rs ≡ some s
    → (is_free m s.0 ≡ true)
      × (has s.0 rs ≡ true)
      × ((r : Ref) → has r s.1 ≡ true → has r rs ≡ true)
unfolding first_free
first_free_lem m [] s h = ground arith
first_free_lem m (q ∷ rs) s h = elim (Bool-cases (is_free m q)) [
  | inl free ↦
      let same : (q, rs) ≡ s = ground arith in rw (← same) (free, ground arith, λ r i. ground arith)
  | inr taken ↦
      let (a, b, c) = first_free_lem m rs s (ground arith) in
      (a, ground arith, λ r i. ground (arith, c r))
]

next_ref-IsNext : (type : ℕ) (w : World) → IsTracked w → IsNext w (next_ref type w)
unfolding next_ref
next_ref-IsNext type w t = elim (Bool-cases (type == type_player)) [
  | inl player ↦ rw player (fresh-IsNext w w.recyclable t (λ r i. i))
  | inr other ↦ elim (Option-cases (first_free w.objs w.recyclable)) [
    | inl e ↦ rw (other, e) (fresh-IsNext w [] t (λ r i. ground arith))
    | inr (s, e) ↦
        let (free, i, sub) = first_free_lem w.objs w.recyclable s e in
        rw (other, e)
          (record {
            free = free;
            in_range = t.listed s.0 i;
            objs = refl;
            top = omega arith;
            listed = sub;
            clock = refl;
          })
  ]
]

IsRefBelow-mono : (a b : ℕ) (r : Ref) → a ≤ b → IsRefBelow a r → IsRefBelow b r
IsRefBelow-mono a b r le (n, (p, lt)) = (n, (p, omega arith))

not_valid : (w : World) (r : Ref) → is_free w.objs r ≡ true → valid w r ≡ false
unfolding valid get
not_valid w r h = elim (Option-cases (lookup r w.objs)) [
  | inl e ↦ rw e refl
  | inr (o, e) ↦ ground arith
]

-- Where objects and the free list stand below the top, a new object takes a reference at which
-- there is no object but garbage, is made there as a new one, leaves every other object, and keeps
-- objects and free list below the top.
pub create-fresh :
    (name : Bytes) (type : ℕ) (owner : Ref) (w : World)
    → IsTracked w
    → (valid w (create name type owner w).0 ≡ false)
      × ((j : Ref)
          → lookup j (create name type owner w).1.objs ≡ (
              if (create name type owner w).0 =? j
              then some (new_object name type owner w.clock)
              else lookup j w.objs))
      × IsTracked (create name type owner w).1
unfolding create
create-fresh name type owner w t =
    let (r, v) = next_ref type w in
    let n : IsNext w (next_ref type w) = next_ref-IsNext type w t in
    let made : (j : Ref)
        → lookup j (insert r (new_object name type owner v.clock) v.objs)
          ≡ (if r =? j then some (new_object name type owner w.clock) else lookup j w.objs) =
      λ j. rw (n.clock, n.objs) (lookup-insert r j (new_object name type owner w.clock) w.objs) in
    (
      not_valid w r n.free,
      made,
      record {
        objects = λ j o e. elim (ℤ-discrete r j) [
          | yes p ↦ rw (← p) n.in_range
          | no p ↦ IsRefBelow-mono w.top v.top j n.top (t.objects j o (ground (arith, made j)))
        ];
        listed = λ j i. IsRefBelow-mono w.top v.top j n.top (t.listed j (n.listed j i));
      },
    )
