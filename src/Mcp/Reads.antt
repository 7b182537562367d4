-- ===== src/Mcp/Reads.antt =====
-- What a frame reads of the arguments that a frame has written, one by one and all of a message.
use Prim.Native.Nat.{ℕ}
use mathlib.Core.Path.{◌≡◌, refl, sym, ap, ◌∙◌}
use mathlib.Core.Bool.{Bool, true, false, ◌||◌}
use mathlib.Core.List.{List, [], ◌∷◌, ◌++◌, append_assoc, append-nil}
use mathlib.Core.Option.{some}
use fuzzball_emerald.Prelude.{Bytes, arith, Bool-cases, inl, inr}
use fuzzball_emerald.Prelude.Space.{is_space, trim_left}
use fuzzball_emerald.Mcp.{Arg, Message, append_line}
use fuzzball_emerald.Mcp.Lex.{
  is_ident_start, is_simple_char, is_ident_char, escape_arg, read_unquoted, skip_space, IsIdent,
  ident, IsSimple, simple, read_ident-append, read_unquoted-append, read_quoted-escape_arg,
  read_unquoted-escape_arg,
}
use fuzzball_emerald.Mcp.Frames.{read_keyval}
use fuzzball_emerald.Mcp.Send.{is_deferred, write_arg, first_value, empty_arg}
use fuzzball_emerald.Mcp.Args.{Other, head_arg, add_line-new}

ident-visible : (c : ℕ) → is_ident_start c ≡ true → is_space c ≡ false
unfolding is_ident_start is_space
ident-visible c h = ground arith

simple-visible : (c : ℕ) → is_simple_char c ≡ true → is_space c ≡ false
unfolding is_simple_char is_space
simple-visible c h = ground arith

pub skip_space-ident : (t rest : Bytes) → IsIdent t → skip_space (32 ∷ t ++ rest) ≡ some (t ++ rest)
unfolding skip_space trim_left is_space
skip_space-ident t rest (ident c s h k) = rw (ident-visible c h) refl

pub skip_space-simple :
    (t rest : Bytes) → IsSimple t → skip_space (32 ∷ t ++ rest) ≡ some (t ++ rest)
unfolding skip_space trim_left is_space
skip_space-simple t rest (simple c s h) = rw (simple-visible c h.0) refl

pub skip_space-value : (t : Bytes) → IsSimple t → skip_space (32 ∷ t) ≡ some t
unfolding skip_space trim_left is_space
skip_space-value t (simple c s h) = rw (simple-visible c h.0) refl

skip_space-quoted :
    (v rest : Bytes) → skip_space (b' ' ∷ (escape_arg v ++ rest)) ≡ some (escape_arg v ++ rest)
unfolding skip_space trim_left is_space escape_arg
skip_space-quoted v rest = refl

pub colon-ends : is_ident_char b':' ≡ false
unfolding is_ident_char is_ident_start
colon-ends = refl

star-ends : is_ident_char b'*' ≡ false
unfolding is_ident_char is_ident_start
star-ends = refl

-- An argument with its value, quoted.
keyval-inline :
    (m : Message) (n v rest : Bytes)
    → IsIdent n
    → read_keyval m (b' ' ∷ n ++ (b':' ∷ b' ' ∷ (escape_arg v ++ rest)))
      ≡ some (append_line n v m, rest)
unfolding read_keyval
keyval-inline m n v rest h =
    rw
      (
        skip_space-ident n (b':' ∷ b' ' ∷ (escape_arg v ++ rest)) h,
        read_ident-append n (b':' ∷ b' ' ∷ (escape_arg v ++ rest)) h colon-ends,
        skip_space-quoted v rest,
        read_unquoted-escape_arg v rest,
        read_quoted-escape_arg v rest,
      )
      refl

-- An argument whose lines come later.
keyval-star :
    (m : Message) (n rest : Bytes)
    → IsIdent n
    → read_keyval m (b' ' ∷ n ++ (b'*' ∷ b':' ∷ b' ' ∷ (escape_arg [] ++ rest)))
      ≡ some (
        record m { args = m.args ++ (record { name = n; lines = [] }) ∷ []; incomplete = true },
        rest,
      )
unfolding read_keyval
keyval-star m n rest h =
    rw
      (
        skip_space-ident n (b'*' ∷ b':' ∷ b' ' ∷ (escape_arg [] ++ rest)) h,
        read_ident-append n (b'*' ∷ b':' ∷ b' ' ∷ (escape_arg [] ++ rest)) h star-ends,
        skip_space-quoted [] rest,
        read_unquoted-escape_arg [] rest,
        read_quoted-escape_arg [] rest,
      )
      refl

-- A value without quotes at the end of the line.
pub keyval-tag :
    (m : Message) (n v : Bytes)
    → IsIdent n
    → IsSimple v
    → read_keyval m (b' ' ∷ n ++ (b':' ∷ b' ' ∷ v)) ≡ some (append_line n v m, [])
unfolding read_keyval
keyval-tag m n v h k =
    rw
      (
        skip_space-ident n (b':' ∷ b' ' ∷ v) h,
        read_ident-append n (b':' ∷ b' ' ∷ v) h colon-ends,
        skip_space-value v k,
        ap read_unquoted (sym (append-nil v)) ∙ read_unquoted-append v [] k tt,
      )
      refl

abbrev pub HasLine : List Bytes → Type 0
HasLine [] = ⊥
HasLine (v ∷ vs) = Unit

-- What an argument needs to be read back: a name that is one, and a line.
abbrev pub IsArg : Arg → Type 0
IsArg a = IsIdent a.name × HasLine a.lines

-- The message after one argument of its first line.
abbrev pub with_head : Arg → Message → Message
with_head a m = record m {
  args = m.args ++ head_arg a ∷ [];
  incomplete = m.incomplete || is_deferred a.name a.lines;
}

write_arg-deferred :
    (a : Arg) (rest : Bytes)
    → is_deferred a.name a.lines ≡ true
    → write_arg a ++ rest ≡ b' ' ∷ a.name ++ (b'*' ∷ b':' ∷ b' ' ∷ (escape_arg [] ++ rest))
unfolding write_arg escape_arg
write_arg-deferred a rest e =
    rw e (append_assoc (b' ' ∷ a.name) (b'*' ∷ b':' ∷ b' ' ∷ empty_arg) rest)

write_arg-inline :
    (a : Arg) (rest : Bytes)
    → is_deferred a.name a.lines ≡ false
    → write_arg a ++ rest
      ≡ b' ' ∷ a.name ++ (b':' ∷ b' ' ∷ (escape_arg (first_value a.lines) ++ rest))
unfolding write_arg
write_arg-inline a rest e =
    rw e (append_assoc (b' ' ∷ a.name) (b':' ∷ b' ' ∷ escape_arg (first_value a.lines)) rest)

one_line :
    (n : Bytes) (ls : List Bytes) → HasLine ls → is_deferred n ls ≡ false → first_value ls ∷ [] ≡ ls
unfolding is_deferred
one_line n [] h e = absurd h
one_line n (v ∷ []) h e = refl
one_line n (v ∷ w ∷ ls) h e = ground arith

pub or_false : (b : Bool) → (b || false) ≡ b
or_false b = ground arith

or_true : (b : Bool) → (b || true) ≡ true
or_true b = ground arith

pub read_keyval-write_arg :
    (a : Arg) (m : Message) (rest : Bytes)
    → IsArg a
    → Other a.name m.args
    → read_keyval m (write_arg a ++ rest) ≡ some (with_head a m, rest)
unfolding head_arg
read_keyval-write_arg a m rest h o = elim (Bool-cases (is_deferred a.name a.lines)) [
  | inl e ↦
      ap (read_keyval m) (write_arg-deferred a rest e)
      ∙ rw (e, or_true m.incomplete) (keyval-star m a.name rest h.0)
  | inr e ↦
      ap (read_keyval m) (write_arg-inline a rest e)
      ∙ keyval-inline m a.name (first_value a.lines) rest h.0
      ∙ rw
          (
            e,
            or_false m.incomplete,
            add_line-new a.name (first_value a.lines) m.args o,
            one_line a.name a.lines h.1 e,
          )
          refl
]
