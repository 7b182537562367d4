-- ===== src/Mcp/Args.antt =====
-- The arguments of a message (mcp.go), of which no two have one name: what the first line of a
-- message announces, and how the lines behind it fill that in.
use mathlib.Core.Path.{◌≡◌, refl, ap, ◌∙◌}
use mathlib.Core.Bool.{true, false}
use mathlib.Core.List.{List, [], ◌∷◌, ◌++◌, map, append_assoc, append-nil}
use mathlib.Core.Option.{some}
use fuzzball_emerald.Prelude.{if◌then◌else◌, Bytes, All, Bool-cases, inl, inr}
use fuzzball_emerald.Ascii.{equal_fold}
use fuzzball_emerald.Ascii.Fold.{equal_fold_iff}
use fuzzball_emerald.Mcp.{Arg, arg_value, add_line, drop_arg}
use fuzzball_emerald.Mcp.Send.{is_deferred, deferred}

abbrev pub Other : Bytes → List Arg → Type 0
Other name = All (λ b. equal_fold b.name name ≡ false)

-- The names are pairwise different.
abbrev pub Distinct : List Arg → Type 0
Distinct [] = Unit
Distinct (a ∷ l) = All (λ b. equal_fold a.name b.name ≡ false) l × Distinct l

-- What the first line gives: an argument that is deferred has no lines yet.
unfoldable pub head_arg : Arg → Arg
head_arg a = if is_deferred a.name a.lines then record a { lines = [] } else a

unfoldable pub add_lines : Bytes → List Bytes → List Arg → List Arg
add_lines name [] l = l
add_lines name (v ∷ vs) l = add_lines name vs (add_line name v l)

unfoldable pub fill : List Arg → List Arg → List Arg
unfolding add_lines
fill [] l = l
fill (a ∷ d) l = fill d (add_lines a.name a.lines l)

pub add_line-new :
    (n v : Bytes) (l : List Arg)
    → Other n l
    → add_line n v l ≡ l ++ (record { name = n; lines = v ∷ [] }) ∷ []
unfolding add_line
add_line-new n v [] h = refl
add_line-new n v (a ∷ l) h = rw (h.0, add_line-new n v l h.1) refl

add_line-skip :
    (n v : Bytes) (a : Arg) (l : List Arg)
    → equal_fold a.name n ≡ false
    → add_line n v (a ∷ l) ≡ a ∷ add_line n v l
unfolding add_line
add_line-skip n v a l h = rw h refl

add_lines-skip :
    (n : Bytes) (vs : List Bytes) (a : Arg) (l : List Arg)
    → equal_fold a.name n ≡ false
    → add_lines n vs (a ∷ l) ≡ a ∷ add_lines n vs l
unfolding add_lines
add_lines-skip n [] a l h = refl
add_lines-skip n (v ∷ vs) a l h =
    rw (add_line-skip n v a l h) (add_lines-skip n vs a (add_line n v l) h)

fill-skip :
    (d : List Arg) (a : Arg) (l : List Arg)
    → All (λ b. equal_fold a.name b.name ≡ false) d
    → fill d (a ∷ l) ≡ a ∷ fill d l
unfolding fill
fill-skip [] a l h = refl
fill-skip (b ∷ d) a l h =
    rw (add_lines-skip b.name b.lines a l h.0) (fill-skip d a (add_lines b.name b.lines l) h.1)

name_refl : (n : Bytes) → equal_fold n n ≡ true
name_refl n = (equal_fold_iff n n).1 refl

add_line-first :
    (n v : Bytes) (ls : List Bytes) (l : List Arg)
    → add_line n v ((record { name = n; lines = ls }) ∷ l)
      ≡ (record { name = n; lines = ls ++ v ∷ [] }) ∷ l
unfolding add_line
add_line-first n v ls l = rw (name_refl n) refl

add_lines-first :
    (n : Bytes) (vs ls : List Bytes) (l : List Arg)
    → add_lines n vs ((record { name = n; lines = ls }) ∷ l)
      ≡ (record { name = n; lines = ls ++ vs }) ∷ l
unfolding add_lines
add_lines-first n [] ls l = rw (append-nil ls) refl
add_lines-first n (v ∷ vs) ls l =
    rw (add_line-first n v ls l, add_lines-first n vs (ls ++ v ∷ []) l, append_assoc ls (v ∷ []) vs)
      refl

pub All-deferred : (P : Arg → Type 0) (l : List Arg) → All P l → All P (deferred l)
unfolding deferred
All-deferred P [] h = h
All-deferred P (a ∷ l) h = elim (Bool-cases (is_deferred a.name a.lines)) [
  | inl e ↦ rw e (h.0, All-deferred P l h.1)
  | inr e ↦ rw e (All-deferred P l h.1)
]

-- The deferred lines fill in what the first line announced.
pub fill-heads : (l : List Arg) → Distinct l → fill (deferred l) (map head_arg l) ≡ l
unfolding fill deferred head_arg
fill-heads [] h = refl
fill-heads (a ∷ l) h =
    let kept =
      fill-skip (deferred l) a (map head_arg l) (All-deferred _ l h.0)
      ∙ ap (λ x. a ∷ x) (fill-heads l h.1) in
    let first = ap (fill (deferred l)) (add_lines-first a.name a.lines [] (map head_arg l)) in
    elim (Bool-cases (is_deferred a.name a.lines)) [
      | inl e ↦ rw e (first ∙ kept)
      | inr e ↦ rw e kept
    ]

pub arg_value-last :
    (n v : Bytes) (l : List Arg)
    → Other n l
    → arg_value n (l ++ (record { name = n; lines = v ∷ [] }) ∷ []) ≡ some v
unfolding arg_value
arg_value-last n v [] h = rw (name_refl n) refl
arg_value-last n v (a ∷ l) h = rw (h.0, arg_value-last n v l h.1) refl

pub drop_arg-last :
    (n v : Bytes) (l : List Arg)
    → Other n l
    → drop_arg n (l ++ (record { name = n; lines = v ∷ [] }) ∷ []) ≡ l
unfolding drop_arg
drop_arg-last n v [] h = rw (name_refl n) refl
drop_arg-last n v (a ∷ l) h = rw (h.0, drop_arg-last n v l h.1) refl
