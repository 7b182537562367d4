-- ===== src/Mcp/Arrives.antt =====
-- A message that one end sends is what the other end reads (SendMessage of send.go, ProcessInput of
-- frame.go).
use mathlib.Core.Path.{◌≡◌, refl, sym, ap, ◌∙◌}
use mathlib.Core.Bool.{Bool, true, false, not, ◌||◌, ◌&&◌}
use mathlib.Core.List.{List, [], ◌∷◌, ◌++◌, map, append_assoc}
use mathlib.Core.Option.{some, none}
use fuzzball_emerald.Prelude.{Bytes, arith, All, Bool-cases, inl, inr, length}
use fuzzball_emerald.Ascii.{equal_fold}
use fuzzball_emerald.Mcp.{
  Arg, Message, init_package, negotiate_package, prefix, new_message, tag_name, full_name,
}
use fuzzball_emerald.Mcp.Lex.{is_simple_char, IsIdent, IsSimple, Ends}
use fuzzball_emerald.Mcp.Frames.{
  Frame, erase, parse, split_package, read_keyvals, all_read, started, supports,
}
use fuzzball_emerald.Mcp.Send.{
  is_deferred, deferred, split_arg, write_arg, write_args, tag_arg, message_lines, sent,
  send_message, is_zero, value_lines, end_line,
}
use fuzzball_emerald.Mcp.Args.{
  Other, All-deferred, head_arg, fill, fill-heads, arg_value-last, drop_arg-last,
}
use fuzzball_emerald.Mcp.Reads.{IsArg}
use fuzzball_emerald.Mcp.Lines.{AreArgs, split_arg-AreArgs}
use fuzzball_emerald.Mcp.Start.{receive, receive-part, receive-last, parse-ident, parse_start-head}
use fuzzball_emerald.Mcp.Continue.{waiting, receive-value_lines, receive-end_line}
use fuzzball_emerald.Mcp.Whole.{
  begun, has_any, read_keyvals-inline, read_keyvals-tagged, Other-heads,
}

-- The line of a message without its prefix, up to the arguments.
abbrev pub head_text : Bytes → Frame → Bytes
head_text name g = name ++ b' ' ∷ g.auth_key

-- What the receiver of a message needs of its name, and of the key of the connection.
abbrev pub IsNamed : Frame → Bytes → Bytes → Bytes → Type 0
IsNamed g name pkg sub =
    IsIdent name
    × (equal_fold name init_package ≡ false)
    × (split_package g name ≡ some (pkg, sub))
    × IsSimple g.auth_key

parse-head :
    (g : Frame) (name pkg sub rest : Bytes) (m : Message)
    → IsNamed g name pkg sub
    → Ends is_simple_char rest
    → read_keyvals (length rest) (new_message pkg sub) rest ≡ all_read m
    → parse g (head_text name g ++ rest) ≡ some (started g m)
parse-head g name pkg sub rest m h r e =
    ap (parse g) (append_assoc name (b' ' ∷ g.auth_key) rest)
    ∙ parse-ident g name (b' ' ∷ g.auth_key ++ rest) h.0
    ∙ parse_start-head g name pkg sub rest h.0 h.1 h.2 h.3 r
    ∙ rw e refl

args-end : (l : List Arg) → Ends is_simple_char (write_args l)
unfolding write_args write_arg is_simple_char
args-end [] = tt
args-end (a ∷ l) = elim (Bool-cases (is_deferred a.name a.lines)) [
  | inl e ↦ rw e refl
  | inr e ↦ rw e refl
]

tagged-end : (l : List Arg) (tag : Bytes) → Ends is_simple_char (write_args l ++ tag_arg tag)
unfolding write_args write_arg tag_arg is_simple_char
tagged-end [] tag = refl
tagged-end (a ∷ l) tag = elim (Bool-cases (is_deferred a.name a.lines)) [
  | inl e ↦ rw e refl
  | inr e ↦ rw e refl
]

-- A message that fits on its line.
receive-inline :
    (g : Frame) (name pkg sub : Bytes) (l : List Arg)
    → g.enabled ≡ true
    → IsNamed g name pkg sub
    → AreArgs l
    → deferred l ≡ []
    → receive g ((prefix ++ head_text name g ++ write_args l) ∷ [])
      ≡ some (g, begun pkg sub l false ∷ [])
receive-inline g name pkg sub l e h a d =
    receive-last g g (head_text name g ++ write_args l) (begun pkg sub l false) e (
      parse-head g name pkg sub (write_args l) (begun pkg sub l false) h (args-end l)
        (read_keyvals-inline l pkg sub a.0 a.1 d))

-- The frame after the first line of a message with lines to come.
started-tagged :
    (g : Frame) (pkg sub tag : Bytes) (l : List Arg)
    → Other tag_name l
    → started g (begun pkg sub (l ++ (record { name = tag_name; lines = tag ∷ [] }) ∷ []) true) ≡ (
      waiting g tag
          (record { pkg = pkg; name = sub; args = []; data_tag = tag; incomplete = true })
          l
          g.partial,
      none,
    )
started-tagged g pkg sub tag l o =
    rw (arg_value-last tag_name tag l o, drop_arg-last tag_name tag l o) refl

idents : (l : List Arg) → All IsArg l → All (λ b. IsIdent b.name) l
idents [] h = h
idents (a ∷ l) h = (h.0.0, idents l h.1)

-- A message with lines behind its first one.
receive-tagged :
    (g : Frame) (name pkg sub tag : Bytes) (l : List Arg)
    → g.enabled ≡ true
    → IsNamed g name pkg sub
    → AreArgs l
    → IsSimple tag
    → has_any (deferred l) ≡ true
    → receive g (
        (prefix ++ (head_text name g ++ (write_args l ++ tag_arg tag)))
        ∷ (value_lines tag (deferred l) ++ end_line tag ∷ []))
      ≡ some (
        record g { partial = erase tag g.partial },
        (record { pkg = pkg; name = sub; args = l; data_tag = tag; incomplete = false }) ∷ [],
      )
receive-tagged g name pkg sub tag l e h a s d =
    let m : Message = record {
      pkg = pkg;
      name = sub;
      args = [];
      data_tag = tag;
      incomplete = true;
    } in
    let text = write_args l ++ tag_arg tag in
    let begins : Message =
      begun pkg sub (map head_arg l ++ (record { name = tag_name; lines = tag ∷ [] }) ∷ []) true in
    let first =
      parse-head g name pkg sub text begins h (tagged-end l tag)
        (read_keyvals-tagged l pkg sub tag a.0 a.1 a.2 d s)
      ∙ ap some (started-tagged g pkg sub tag (map head_arg l) (Other-heads tag_name l a.2)) in
    let names = All-deferred (λ b. IsIdent b.name) l (idents l a.0) in
    let ends : List Bytes = end_line tag ∷ [] in
    let (o, same, later) =
      receive-value_lines g tag (deferred l) m (map head_arg l) g.partial ends e s names in
    receive-part g (waiting g tag m (map head_arg l) g.partial) (head_text name g ++ text)
      (value_lines tag (deferred l) ++ ends) e first
    ∙ later
    ∙ receive-end_line g tag m (fill (deferred l) (map head_arg l)) o e s
    ∙ rw (same, fill-heads l a.1) refl

-- The frame that a message has gone through, and the message as it is there, by whether arguments
-- of it were deferred.
abbrev pub left : Bytes → List Arg → Frame → Frame
left tag [] g = g
left tag (a ∷ d) g = record g { partial = erase tag g.partial }

abbrev pub tag_left : Bytes → List Arg → Bytes
tag_left tag [] = []
tag_left tag (a ∷ d) = tag

abbrev pub arrived : Bytes → Message → Message
arrived tag m =
    let l = map split_arg m.args in
    record m { args = l; data_tag = tag_left tag (deferred l); incomplete = false }

-- The frame may send messages of the package.
abbrev pub agrees : Frame → Message → Bool
agrees f m = equal_fold m.pkg negotiate_package || not (is_zero (supports m.pkg f))

agrees-not : (b c : Bool) → (b || not c) ≡ true → (not b && c) ≡ false
agrees-not b c h = ground arith

send_message_lem :
    (f : Frame) (tag : Bytes) (m : Message)
    → f.enabled ≡ true
    → equal_fold (full_name m) init_package ≡ false
    → agrees f m ≡ true
    → send_message f tag m
      ≡ sent (
          message_lines tag
            (prefix ++ head_text (full_name m) f)
            (map split_arg m.args)
            (deferred (map split_arg m.args)))
unfolding send_message equal_fold supports
send_message_lem f tag m e n a = rw (e, n, agrees-not _ _ a) refl

receive-message_lines :
    (g : Frame) (name tag : Bytes) (m : Message) (l d : List Arg)
    → g.enabled ≡ true
    → IsNamed g name m.pkg m.name
    → AreArgs l
    → IsSimple tag
    → deferred l ≡ d
    → receive g (message_lines tag (prefix ++ head_text name g) l d)
      ≡ some
          (left tag d g, record m { args = l; data_tag = tag_left tag d; incomplete = false } ∷ [])
unfolding message_lines
receive-message_lines g name tag m l [] e h a s d = receive-inline g name m.pkg m.name l e h a d
receive-message_lines g name tag m l (x ∷ xs) e h a s d =
    ap
      (λ k. receive g (
        (prefix ++ (head_text name g ++ (write_args l ++ tag_arg tag)))
        ∷ (value_lines tag k ++ end_line tag ∷ [])))
      (sym d)
    ∙ receive-tagged g name m.pkg m.name tag l e h a s (ap has_any d)

-- A message that one end sends is what the other end reads: where both ends have MCP and one key of
-- plain characters, the sender may send the package, the receiver takes the message's name apart as
-- the sender put it together, and the names of the arguments are names, pairwise different under
-- folding and none of them the data tag's, with a line at least each; whatever the values are, the
-- message is sent, no line of it is taken for text, and the receiver has the same message at the
-- end, with each value broken at its line endings, and holds no message under its tag.
pub send_message-receive :
    (f g : Frame) (tag : Bytes) (m : Message)
    → f.enabled ≡ true
    → g.enabled ≡ true
    → f.auth_key ≡ g.auth_key
    → agrees f m ≡ true
    → IsNamed g (full_name m) m.pkg m.name
    → AreArgs m.args
    → IsSimple tag
    → (lines : List Bytes) × (send_message f tag m ≡ sent lines)
      × (receive g lines ≡ some (left tag (deferred (map split_arg m.args)) g, arrived tag m ∷ []))
send_message-receive f g tag m e e' k p h a s =
    let l = map split_arg m.args in
    let name = full_name m in
    (
      message_lines tag (prefix ++ head_text name g) l (deferred l),
      send_message_lem f tag m e h.1 p
          ∙ ap (λ key. sent (message_lines tag (prefix ++ (name ++ b' ' ∷ key)) l (deferred l))) k,
      receive-message_lines g name tag m l (deferred l) e' h (split_arg-AreArgs m.args a) s refl,
    )
