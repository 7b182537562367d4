-- ===== src/Mcp/Start.antt =====
-- The first line of a message (parseStart): the name and the key that stand before the arguments.
use Prim.Native.Nat.{ℕ}
use mathlib.Core.Path.{◌≡◌, refl}
use mathlib.Core.Bool.{true, false}
use mathlib.Core.List.{List, [], ◌∷◌, ◌++◌}
use mathlib.Core.Option.{Option, some, none}
use fuzzball_emerald.Prelude.{Bytes, bytes_eq_iff, arith, length, ◌==◌}
use fuzzball_emerald.Ascii.{equal_fold}
use fuzzball_emerald.Mcp.{Message, init_package, prefix, new_message}
use fuzzball_emerald.Mcp.Lex.{
  ◌>>=◌, after_text, is_ident_start, is_ident_char, is_simple_char, IsIdent, ident, IsSimple, Ends,
  read_ident-append, read_unquoted-append,
}
use fuzzball_emerald.Mcp.Frames.{
  Frame, Outcome, text, consumed, parse, parse_start, parse_continuation, parse_end, read_auth,
  split_package, read_keyvals, message_of, started, read_line, parsed,
}
use fuzzball_emerald.Mcp.Reads.{skip_space-simple}

-- The frame and the messages after lines that all belong to messages; `none` where a line is text.
abbrev pub collect : Option Message → Option (Frame × List Message) → Option (Frame × List Message)
collect m none = none
collect none (some r) = some r
collect (some m) (some (f, ms)) = some (f, m ∷ ms)

abbrev pub continue :
    (Frame → Option (Frame × List Message)) → Frame × Outcome → Option (Frame × List Message)
continue next (f, text line) = none
continue next (f, consumed m) = collect m (next f)

unfoldable pub receive : Frame → List Bytes → Option (Frame × List Message)
receive f [] = some (f, [])
receive f (l ∷ ls) = continue (λ g. receive g ls) (read_line f l)

star_begins : is_ident_start b'*' ≡ false
unfolding is_ident_start
star_begins = refl

start-plain : (c : ℕ) → is_ident_start c ≡ true → ((c == b'*') ≡ false) × ((c == b':') ≡ false)
unfolding is_ident_start
start-plain c h = ground arith

pub parse-ident :
    (g : Frame) (t rest : Bytes) → IsIdent t → parse g (t ++ rest) ≡ parse_start g (t ++ rest)
unfolding parse parse_continuation parse_end
parse-ident g t rest (ident c s h k) = rw ((start-plain c h).0, (start-plain c h).1) refl

space_ends : is_ident_char b' ' ≡ false
unfolding is_ident_char is_ident_start
space_ends = refl

pub parse_start-head :
    (g : Frame) (name pkg sub rest : Bytes)
    → IsIdent name
    → equal_fold name init_package ≡ false
    → split_package g name ≡ some (pkg, sub)
    → IsSimple g.auth_key
    → Ends is_simple_char rest
    → parse_start g (name ++ (b' ' ∷ g.auth_key ++ rest)) ≡ (
        message_of (read_keyvals (length rest) (new_message pkg sub) rest) >>= λ m.
        some (started g m))
unfolding parse_start read_auth
parse_start-head g name pkg sub rest i e p k r =
    rw
      (
        read_ident-append name (b' ' ∷ g.auth_key ++ rest) i space_ends,
        e,
        skip_space-simple g.auth_key rest k,
        read_unquoted-append g.auth_key rest k r,
        (bytes_eq_iff g.auth_key g.auth_key).1 refl,
        p,
      )
      refl

-- On a connection that has MCP, a line that begins with the prefix goes to the parser.
pub read_line-prefix :
    (g : Frame) (s : Bytes)
    → g.enabled ≡ true
    → read_line g (prefix ++ s) ≡ parsed g (prefix ++ s) (parse g s)
unfolding read_line after_text
read_line-prefix g s e = rw e refl

collect-none : (r : Option (Frame × List Message)) → collect none r ≡ r
collect-none none = refl
collect-none (some r) = refl

-- A line of a message that goes on.
pub receive-part :
    (g h : Frame) (s : Bytes) (ls : List Bytes)
    → g.enabled ≡ true
    → parse g s ≡ some (h, none)
    → receive g ((prefix ++ s) ∷ ls) ≡ receive h ls
unfolding receive
receive-part g h s ls e p = rw (read_line-prefix g s e, p) (collect-none (receive h ls))

-- A line that completes a message, and is the last one.
pub receive-last :
    (g h : Frame) (s : Bytes) (m : Message)
    → g.enabled ≡ true
    → parse g s ≡ some (h, some m)
    → receive g ((prefix ++ s) ∷ []) ≡ some (h, m ∷ [])
unfolding receive
receive-last g h s m e p = rw (read_line-prefix g s e, p) refl
