-- ===== src/Mcp/Heads.antt =====
-- What a frame reads of the whole list of arguments that a frame has written on a message's first
-- line (the loop of parseStart).
use Prim.Native.Nat.{ℕ, zero, suc, ◌≤◌}
use mathlib.Core.Path.{◌≡◌, refl, ap, ◌∙◌}
use mathlib.Core.Bool.{false}
use mathlib.Core.List.{List, [], ◌∷◌, ◌++◌, append_assoc}
use mathlib.Core.Option.{some}
use fuzzball_emerald.Prelude.{
  Bytes, arith, All, All-append, Bool-cases, inl, inr, length, length-append,
}
use fuzzball_emerald.Ascii.{equal_fold}
use fuzzball_emerald.Mcp.{Arg, Message}
use fuzzball_emerald.Mcp.Lex.{skip_space}
use fuzzball_emerald.Mcp.Frames.{read_keyval, read_keyvals, all_read}
use fuzzball_emerald.Mcp.Send.{is_deferred, write_arg, write_args}
use fuzzball_emerald.Mcp.Args.{Other, Distinct, head_arg}
use fuzzball_emerald.Mcp.Reads.{IsArg, with_head, read_keyval-write_arg}

pub keyvals_step :
    (n : ℕ) (m w : Message) (s r : Bytes)
    → read_keyval m s ≡ some (w, r)
    → read_keyvals (suc n) m s ≡ read_keyvals n w r
unfolding read_keyvals read_keyval skip_space
keyvals_step n m w [] r e = ground arith
keyvals_step n m w (c ∷ s) r e = rw e refl

pub read_keyvals-nil : (n : ℕ) (m : Message) → read_keyvals n m [] ≡ all_read m
unfolding read_keyvals
read_keyvals-nil zero m = refl
read_keyvals-nil (suc n) m = refl

length-front : (c : ℕ) (x s : Bytes) → suc (length s) ≤ length ((c ∷ x) ++ s)
length-front c x s = omega (arith, length-append x s)

length-write_arg : (a : Arg) (s : Bytes) → suc (length s) ≤ length (write_arg a ++ s)
unfolding write_arg
length-write_arg a s = elim (Bool-cases (is_deferred a.name a.lines)) [
  | inl e ↦ rw e (length-front b' ' _ s)
  | inr e ↦ rw e (length-front b' ' _ s)
]

abbrev pub with_heads : List Arg → Message → Message
with_heads [] m = m
with_heads (a ∷ l) m = with_heads l (with_head a m)

Other-head_arg : (a b : Arg) → equal_fold a.name b.name ≡ false → Other b.name (head_arg a ∷ [])
unfolding head_arg
Other-head_arg a b h = elim (Bool-cases (is_deferred a.name a.lines)) [
  | inl e ↦ rw e (h, tt)
  | inr e ↦ rw e (h, tt)
]

pub others-with_head :
    (a : Arg) (m : Message) (l : List Arg)
    → All (λ b. equal_fold a.name b.name ≡ false) l
    → All (λ b. Other b.name m.args) l
    → All (λ b. Other b.name (with_head a m).args) l
others-with_head a m [] h o = h
others-with_head a m (b ∷ l) h o = (
  All-append _ m.args (head_arg a ∷ []) o.0 (Other-head_arg a b h.0),
  others-with_head a m l h.1 o.1,
)

-- The loop reads the arguments and goes on with what is behind them; the fuel that it has left is
-- still enough for that.
pub read_keyvals-write_args :
    (n : ℕ) (l : List Arg) (m : Message) (rest : Bytes)
    → All IsArg l
    → Distinct l
    → All (λ a. Other a.name m.args) l
    → length (write_args l ++ rest) ≤ n
    → (k : ℕ) × (length rest ≤ k)
      × (read_keyvals n m (write_args l ++ rest) ≡ read_keyvals k (with_heads l m) rest)
unfolding write_args
read_keyvals-write_args n [] m rest h d o e = (n, e, refl)
read_keyvals-write_args zero (a ∷ l) m rest h d o e =
    let s = write_args l ++ rest in
    let split = append_assoc (write_arg a) (write_args l) rest in
    absurd (omega (arith, length-write_arg a s, ap length split))
read_keyvals-write_args (suc n) (a ∷ l) m rest h d o e =
    let s = write_args l ++ rest in
    let split = append_assoc (write_arg a) (write_args l) rest in
    let shorter : length s ≤ n = omega (arith, length-write_arg a s, ap length split) in
    let (k, enough, same) =
      read_keyvals-write_args n l (with_head a m) rest h.1 d.1 (others-with_head a m l d.0 o.1)
        shorter in
    let step =
      keyvals_step n m (with_head a m) (write_arg a ++ s) s (read_keyval-write_arg a m s h.0 o.0) in
    (k, enough, ap (read_keyvals (suc n) m) split ∙ step ∙ same)
