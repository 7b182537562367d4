-- ===== src/Mcp/Whole.antt =====
-- What the first line of a message says, as a whole: the message that it starts.
use Prim.Native.Nat.{ℕ, zero, suc, ◌≤◌}
use mathlib.Core.Path.{◌≡◌, refl, sym, ap, ◌∙◌}
use mathlib.Core.Bool.{Bool, true, false, ◌||◌}
use mathlib.Core.List.{List, [], ◌∷◌, ◌++◌, map, append_assoc, append-nil}
use fuzzball_emerald.Prelude.{Bytes, arith, All, Bool-cases, inl, inr, length}
use fuzzball_emerald.Mcp.{Arg, Message, new_message, tag_name, append_line}
use fuzzball_emerald.Mcp.Lex.{is_ident_start, is_ident_char, IsIdent, ident, IsSimple}
use fuzzball_emerald.Mcp.Frames.{read_keyvals, all_read}
use fuzzball_emerald.Mcp.Send.{is_deferred, deferred, write_args, tag_arg}
use fuzzball_emerald.Mcp.Args.{Other, Distinct, head_arg, fill, fill-heads, add_line-new}
use fuzzball_emerald.Mcp.Reads.{IsArg, keyval-tag, or_false}
use fuzzball_emerald.Mcp.Heads.{keyvals_step, read_keyvals-nil, with_heads, read_keyvals-write_args}

abbrev pub has_any : List Arg → Bool
has_any [] = false
has_any (a ∷ l) = true

-- The message of a first line whose arguments are these.
abbrev pub begun : Bytes → Bytes → List Arg → Bool → Message
begun pkg sub l b = record { pkg = pkg; name = sub; args = l; data_tag = []; incomplete = b }

or_assoc : (a b c : Bool) → ((a || b) || c) ≡ (a || (b || c))
or_assoc a b c = ground arith

has_any-deferred :
    (a : Arg) (l : List Arg)
    → (is_deferred a.name a.lines || has_any (deferred l)) ≡ has_any (deferred (a ∷ l))
unfolding deferred
has_any-deferred a l = elim (Bool-cases (is_deferred a.name a.lines)) [
  | inl e ↦ rw e refl
  | inr e ↦ rw e refl
]

with_heads_lem :
    (l : List Arg) (pkg sub : Bytes) (as' : List Arg) (b : Bool)
    → with_heads l (begun pkg sub as' b)
      ≡ begun pkg sub (as' ++ map head_arg l) (b || has_any (deferred l))
unfolding deferred
with_heads_lem [] pkg sub k b = rw (append-nil k, or_false b) refl
with_heads_lem (a ∷ l) pkg sub k b =
    with_heads_lem l pkg sub (k ++ head_arg a ∷ []) (b || is_deferred a.name a.lines)
    ∙ rw
        (
          append_assoc k (head_arg a ∷ []) (map head_arg l),
          or_assoc b (is_deferred a.name a.lines) (has_any (deferred l)),
          has_any-deferred a l,
        )
        refl

Empty-others : (l : List Arg) → All (λ a. Other a.name []) l
Empty-others [] = tt
Empty-others (a ∷ l) = (tt, Empty-others l)

heads-inline : (l : List Arg) → Distinct l → deferred l ≡ [] → map head_arg l ≡ l
unfolding fill
heads-inline l d e = ap (λ x. fill x (map head_arg l)) (sym e) ∙ fill-heads l d

pub read_keyvals-inline :
    (l : List Arg) (pkg sub : Bytes)
    → All IsArg l
    → Distinct l
    → deferred l ≡ []
    → read_keyvals (length (write_args l)) (new_message pkg sub) (write_args l)
      ≡ all_read (begun pkg sub l false)
read_keyvals-inline l pkg sub h d e =
    let s = write_args l in
    let short : length (s ++ []) ≤ length s = omega (arith, ap length (append-nil s)) in
    let m = new_message pkg sub in
    let (k, enough, same) = read_keyvals-write_args (length s) l m [] h d (Empty-others l) short in
    ap (read_keyvals (length s) m) (sym (append-nil s))
    ∙ same
    ∙ read_keyvals-nil k (with_heads l m)
    ∙ ap all_read (with_heads_lem l pkg sub [] false ∙ rw (e, heads-inline l d e) refl)

tag_name-IsIdent : IsIdent tag_name
unfolding is_ident_start is_ident_char
tag_name-IsIdent = ident _ _ refl (refl, (refl, (refl, (refl, (refl, (refl, (refl, (refl, tt))))))))

read_keyvals-tag :
    (k : ℕ) (m : Message) (tag : Bytes)
    → IsSimple tag
    → length (tag_arg tag) ≤ k
    → read_keyvals k m (tag_arg tag) ≡ all_read (append_line tag_name tag m)
unfolding tag_arg
read_keyvals-tag zero m tag s h = absurd (omega arith)
read_keyvals-tag (suc k) m tag s h =
    keyvals_step k m (append_line tag_name tag m) _ []
      (keyval-tag m tag_name tag tag_name-IsIdent s)
    ∙ read_keyvals-nil k (append_line tag_name tag m)

pub Other-heads : (n : Bytes) (l : List Arg) → Other n l → Other n (map head_arg l)
unfolding head_arg
Other-heads n [] h = h
Other-heads n (a ∷ l) h = elim (Bool-cases (is_deferred a.name a.lines)) [
  | inl e ↦ rw e (h.0, Other-heads n l h.1)
  | inr e ↦ rw e (h.0, Other-heads n l h.1)
]

pub read_keyvals-tagged :
    (l : List Arg) (pkg sub tag : Bytes)
    → All IsArg l
    → Distinct l
    → Other tag_name l
    → has_any (deferred l) ≡ true
    → IsSimple tag
    → read_keyvals
        (length (write_args l ++ tag_arg tag))
        (new_message pkg sub)
        (write_args l ++ tag_arg tag)
      ≡ all_read (
          begun pkg sub
            (map head_arg l ++ (record { name = tag_name; lines = tag ∷ [] }) ∷ [])
            true)
read_keyvals-tagged l pkg sub tag h d o e s =
    let t = write_args l ++ tag_arg tag in
    let m = new_message pkg sub in
    let all : length t ≤ length t = omega arith in
    let (k, enough, same) =
      read_keyvals-write_args (length t) l m (tag_arg tag) h d (Empty-others l) all in
    same
    ∙ read_keyvals-tag k (with_heads l m) tag s enough
    ∙ ap (λ w. all_read (append_line tag_name tag w)) (with_heads_lem l pkg sub [] false)
    ∙ rw (e, add_line-new tag_name tag (map head_arg l) (Other-heads tag_name l o)) refl
