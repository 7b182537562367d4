-- ===== src/Mcp/Lines.antt =====
-- The arguments of a message with the values broken at their line endings (splitLines), as they are
-- sent.
use Prim.Native.Nat.{ℕ}
use mathlib.Core.Bool.{◌||◌}
use mathlib.Core.List.{List, [], ◌∷◌, ◌++◌, map}
use fuzzball_emerald.Prelude.{Bytes, All, Bool-cases, inl, inr, ◌==◌}
use fuzzball_emerald.Mcp.{Arg, tag_name}
use fuzzball_emerald.Mcp.Send.{split_text, unix_ends, split_lines, split_arg, more_line}
use fuzzball_emerald.Mcp.Args.{Other, Distinct}
use fuzzball_emerald.Mcp.Reads.{IsArg, HasLine}

-- What the arguments of a message need, to be read back.
abbrev pub AreArgs : List Arg → Type 0
AreArgs l = All IsArg l × Distinct l × Other tag_name l

split-HasLine : (s : Bytes) (ls : List Bytes) → HasLine (split_text s ++ ls)
unfolding split_text
split-HasLine [] ls = tt
split-HasLine (c ∷ s) ls = elim (Bool-cases (c == 10 || c == 13)) [
  | inl e ↦ rw e tt
  | inr e ↦ rw e (more c (split_text s) ls)
]
  where
    more : (c : ℕ) (ks ls : List Bytes) → HasLine (more_line c ks ++ ls)
    more c [] ls = tt
    more c (k ∷ ks) ls = tt

split_arg-IsArg : (a : Arg) → IsArg a → IsArg (split_arg a)
unfolding split_lines
split_arg-IsArg a h = (h.0, lines (a.lines) h.1)
  where
    lines : (ls : List Bytes) → HasLine ls → HasLine (split_lines ls)
    lines [] k = k
    lines (s ∷ ls) k = split-HasLine (unix_ends s) (split_lines ls)

All-split_arg :
    (P Q : Arg → Type 0)
    → ((a : Arg) → P a → Q (split_arg a))
    → (l : List Arg) → All P l
    → All Q (map split_arg l)
All-split_arg P Q f [] h = h
All-split_arg P Q f (a ∷ l) h = (f a h.0, All-split_arg P Q f l h.1)

split_arg-Distinct : (l : List Arg) → Distinct l → Distinct (map split_arg l)
split_arg-Distinct [] h = h
split_arg-Distinct (a ∷ l) h = (All-split_arg _ _ (λ b e. e) l h.0, split_arg-Distinct l h.1)

pub split_arg-AreArgs : (l : List Arg) → AreArgs l → AreArgs (map split_arg l)
split_arg-AreArgs l h = (
  All-split_arg IsArg IsArg split_arg-IsArg l h.0,
  split_arg-Distinct l h.1,
  All-split_arg _ _ (λ b e. e) l h.2,
)
