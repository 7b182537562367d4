-- ===== src/Muf/Prims/Undo.antt =====
-- ROTATE, undone by ROTATE the other way, and REVERSE by itself.
use fuzzball_emerald.Prelude.{
  ℕ, suc, ◌+◌, ◌≤◌, ◌<◌, ◌^◌, ◌≡◌, refl, sym, ap, ◌∙◌, length-append, take-length-append,
  drop-length-append, Bool, true, false, ◌||◌, List, [], ◌∷◌, ◌++◌, arith, ltb, leb, length, take,
  drop,
}
use fuzzball_emerald.Prelude.Int.{pos, negsuc, ltb_ℤ, eqb_ℤ}
use fuzzball_emerald.Muf.{Value, Frame, stack_size}
use fuzzball_emerald.Muf.Stack.{done, and_then, push, pop_n, onto, push_all}
use fuzzball_emerald.Muf.Prims.{
  rotate_counted, last_first, Prim, rotate_by, rotate_counted, last_first, rotated, last_first,
}
use fuzzball_emerald.Muf.Prims.Takes.{enough}
use mathlib.Core.List.{append_assoc, append-nil}
use mathlib.Core.Path.{subst}
use fuzzball_emerald.Muf.Prims.Depths.{pos_lt, length-onto, count_of-pos, count_of-negsuc}

onto-append : (xs ys acc : List Value) → onto (xs ++ ys) acc ≡ onto ys (onto xs acc)
onto-append [] ys acc = refl
onto-append (x ∷ xs) ys acc = onto-append xs ys (x ∷ acc)

onto-onto : (xs ys acc : List Value) → onto (onto xs ys) acc ≡ onto ys (xs ++ acc)
onto-onto [] ys acc = refl
onto-onto (x ∷ xs) ys acc = rw (onto-onto xs (x ∷ ys) acc)

-- Values pushed one by one, where there is room for them.
push_all-onto :
    (vs : List Value) (f : Frame)
    → length vs + length f.stack ≤ stack_size
    → push_all vs f ≡ done tt (record f { stack = onto vs f.stack })
unfolding push_all push
push_all-onto [] f h = refl
push_all-onto (v ∷ vs) f h =
    let room : leb stack_size (length f.stack) ≡ false = ground arith in
    rw room (push_all-onto vs (record f { stack = v ∷ f.stack }) (omega arith))

last_first-append : (vs : List Value) (v : Value) → last_first (vs ++ v ∷ []) ≡ v ∷ vs
unfolding last_first
last_first-append [] v = refl
last_first-append (x ∷ vs) v = rw (last_first-append vs v)

onto-split : (xs acc : List Value) → onto xs acc ≡ onto xs [] ++ acc
onto-split [] acc = refl
onto-split (x ∷ xs) acc =
    rw (onto-split xs (x ∷ acc))
      (rw (onto-split xs (x ∷ [])) (sym (append_assoc (onto xs []) (x ∷ []) acc)))

reversed : (xs : List Value) → onto (onto xs []) [] ≡ xs
reversed xs = onto-onto xs [] [] ∙ append-nil xs

take-onto : (xs acc : List Value) → take (length xs) (onto xs acc) ≡ onto xs []
take-onto xs acc = rw (onto-split xs acc) (
    ap (λ n. take n (onto xs [] ++ acc)) (sym (length-onto xs [] ∙ omega arith))
    ∙ take-length-append (onto xs []) acc)

drop-onto : (xs acc : List Value) → drop (length xs) (onto xs acc) ≡ acc
drop-onto xs acc = rw (onto-split xs acc) (
    ap (λ n. drop n (onto xs [] ++ acc)) (sym (length-onto xs [] ∙ omega arith))
    ∙ drop-length-append (onto xs []) acc)

-- A group that lies on a stack, popped: it comes deepest first.
pop_n-onto :
    (f : Frame) (g below : List Value)
    → f.stack ≡ onto g below
    → pop_n (pos (length g)) f ≡ done g (record f { stack = below })
unfolding pop_n
pop_n-onto f g below e =
    let fits : ltb (length (onto g below)) (length g) ≡ false =
      enough _ _ (omega (arith, length-onto g below)) in
    rw e (rw fits (rw (take-onto g below) (rw (drop-onto g below) (rw (reversed g)))))

counted-onto :
    (up : Bool) (f : Frame) (g below : List Value)
    → f.stack ≡ onto g below
    → rotate_counted up (pos (length g)) f ≡ rotated up g (record f { stack = below })
counted-onto up f g below e =
    let fits : ltb_ℤ (pos (length f.stack)) (pos (length g)) ≡ false =
      pos_lt _ _ ∙ enough _ _ (rw e (omega (arith, length-onto g below))) in
    rw fits (rw (pop_n-onto f g below e))

up_step :
    (f : Frame) (v : Value) (vs below : List Value)
    → f.stack ≡ onto (v ∷ vs) below
    → suc (length vs) + length below ≤ stack_size
    → rotate_counted true (pos (suc (length vs))) f
      ≡ done tt (record f { stack = onto (vs ++ v ∷ []) below })
up_step f v vs below e h =
    counted-onto true f (v ∷ vs) below e
    ∙ push_all-onto (vs ++ v ∷ []) (record f { stack = below })
        (omega (arith, length-append vs (v ∷ [])))

rotated-down :
    (v : Value) (vs : List Value) (f : Frame) → rotated false (vs ++ v ∷ []) f ≡ push_all (v ∷ vs) f
rotated-down v [] f = rw (last_first-append [] v)
rotated-down v (x ∷ vs) f = rw (last_first-append (x ∷ vs) v)

down_step :
    (f : Frame) (v : Value) (vs below : List Value)
    → f.stack ≡ onto (vs ++ v ∷ []) below
    → suc (length vs) + length below ≤ stack_size
    → rotate_counted false (pos (suc (length vs))) f
      ≡ done tt (record f { stack = onto (v ∷ vs) below })
down_step f v vs below e h =
    let size : length (vs ++ v ∷ []) ≡ suc (length vs) = omega (arith, length-append vs (v ∷ [])) in
    ap (λ n. rotate_counted false (pos n) f) (sym size)
    ∙ counted-onto false f (vs ++ v ∷ []) below e
    ∙ rotated-down v vs (record f { stack = below })
    ∙ push_all-onto (v ∷ vs) (record f { stack = below }) (omega arith)

rotate_by-up :
    (k : ℕ) (f : Frame) → 1 ≤ k → rotate_by (pos (suc k)) f ≡ rotate_counted true (pos (suc k)) f
unfolding rotate_by
rotate_by-up k f h =
    let not_small : (eqb_ℤ (pos (suc k)) (pos 0)
          || eqb_ℤ (pos (suc k)) (pos 1)
          || eqb_ℤ (pos (suc k)) (negsuc 0))
        ≡ false =
      ground arith in
    let up : ltb_ℤ (pos 0) (pos (suc k)) ≡ true = ground arith in
    rw not_small (rw up (rw (count_of-pos (suc k))))

rotate_by-down :
    (k : ℕ) (f : Frame)
    → 1 ≤ k
    → k + 1 < 2 ^ 63
    → rotate_by (negsuc k) f ≡ rotate_counted false (pos (suc k)) f
unfolding rotate_by
rotate_by-down k f h l =
    let not_small : (eqb_ℤ (negsuc k) (pos 0)
          || eqb_ℤ (negsuc k) (pos 1)
          || eqb_ℤ (negsuc k) (negsuc 0))
        ≡ false =
      ground arith in
    let down : ltb_ℤ (pos 0) (negsuc k) ≡ false = ground arith in
    rw not_small (rw down (rw (count_of-negsuc k l)))

-- A group of two values or more, as the code takes it from the stack.
up_down :
    (f : Frame) (v : Value) (vs below : List Value)
    → f.stack ≡ onto (v ∷ vs) below
    → 1 ≤ length vs
    → suc (length vs) + length below ≤ stack_size
    → and_then (rotate_by (pos (suc (length vs))) f) (λ _. rotate_by (negsuc (length vs)))
      ≡ done tt f
up_down f v vs below e h l = rw (rotate_by-up (length vs) f h) (
    rw (up_step f v vs below e l) (
      rotate_by-down (length vs) (record f { stack = onto (vs ++ v ∷ []) below }) h (omega arith)
      ∙ down_step (record f { stack = onto (vs ++ v ∷ []) below }) v vs below refl l
      ∙ ap (λ s. done tt (record f { stack = s })) (sym e)))

down_up :
    (f : Frame) (v : Value) (vs below : List Value)
    → f.stack ≡ onto (vs ++ v ∷ []) below
    → 1 ≤ length vs
    → suc (length vs) + length below ≤ stack_size
    → and_then (rotate_by (negsuc (length vs)) f) (λ _. rotate_by (pos (suc (length vs))))
      ≡ done tt f
down_up f v vs below e h l = rw (rotate_by-down (length vs) f h (omega arith)) (
    rw (down_step f v vs below e l) (
      rotate_by-up (length vs) (record f { stack = onto (v ∷ vs) below }) h
      ∙ up_step (record f { stack = onto (v ∷ vs) below }) v vs below refl l
      ∙ ap (λ s. done tt (record f { stack = s })) (sym e)))

up_down_of :
    (f : Frame) (g below : List Value) (k : ℕ)
    → f.stack ≡ onto g below
    → length g ≡ suc k
    → 1 ≤ k
    → suc k + length below ≤ stack_size
    → and_then (rotate_by (pos (suc k)) f) (λ _. rotate_by (negsuc k)) ≡ done tt f
up_down_of f [] below k e n h l = absurd (omega arith)
up_down_of f (v ∷ vs) below k e n h l =
    let same : length vs ≡ k = omega arith in
    subst (λ j. and_then (rotate_by (pos (suc j)) f) (λ _. rotate_by (negsuc j)) ≡ done tt f) same
      (up_down f v vs below e (omega arith) (omega arith))

down_up_of :
    (f : Frame) (v : Value) (vs below : List Value) (k : ℕ)
    → f.stack ≡ onto (vs ++ v ∷ []) below
    → length vs ≡ k
    → 1 ≤ k
    → suc k + length below ≤ stack_size
    → and_then (rotate_by (negsuc k) f) (λ _. rotate_by (pos (suc k))) ≡ done tt f
down_up_of f v vs below k e same h l =
    subst (λ j. and_then (rotate_by (negsuc j) f) (λ _. rotate_by (pos (suc j))) ≡ done tt f) same
      (down_up f v vs below e (omega arith) (omega arith))

-- ROTATE by the number of a group of two or more values, whatever lies below them on a stack within
-- its ceiling, is undone by ROTATE by its negation, and the other way round.
pub rotate_by-undo :
    (f : Frame) (v : Value) (vs below : List Value)
    → f.stack ≡ v ∷ vs ++ below
    → 1 ≤ length vs
    → length f.stack ≤ stack_size
    → (and_then (rotate_by (pos (suc (length vs))) f) (λ _. rotate_by (negsuc (length vs)))
        ≡ done tt f)
      × (and_then (rotate_by (negsuc (length vs)) f) (λ _. rotate_by (pos (suc (length vs))))
          ≡ done tt f)
rotate_by-undo f v vs below e h l =
    let size : length f.stack ≡ suc (length vs + length below) =
      ap length e ∙ ap suc (length-append vs below) in
    (
      up_down_of f (onto (v ∷ vs) []) below (length vs) (e ∙ sym (onto-onto (v ∷ vs) [] below))
          (length-onto (v ∷ vs) [] ∙ omega arith) h (omega arith),
      down_up_of f v (onto vs []) below (length vs)
          (e
            ∙ ap (λ s. v ∷ s) (sym (onto-onto vs [] below))
            ∙ sym (onto-append (onto vs []) (v ∷ []) below))
          (length-onto vs [] ∙ omega arith) h (omega arith),
    )
