-- ===== src/Mcp/Send.antt =====
-- internal/mcp/send.go: what a frame writes. The random data tag is an argument, and the lines that
-- the code hands to `Send` are the result.
use Prim.Native.Nat.{ℕ, ◌+◌}
use mathlib.Core.Bool.{Bool, true, false, not, ◌&&◌, ◌||◌}
use mathlib.Core.List.{List, [], ◌∷◌, ◌++◌, map}
use mathlib.Core.Option.{Option, none, some}
use fuzzball_emerald.Prelude.{◌==◌, ltb, if◌then◌else◌, Bytes, codes, length}
use fuzzball_emerald.Ascii.{equal_fold}
use fuzzball_emerald.Mcp.{
  Version, Arg, Message, prefix, quote_prefix, init_package, negotiate_package, tag_name, full_name,
}
use fuzzball_emerald.Mcp.Lex.{escape_arg, after_text}
use fuzzball_emerald.Mcp.Frames.{Frame, supports}

abbrev pub max_inline_value : ℕ
max_inline_value = 400

abbrev starts_line : Bytes → Bool
starts_line [] = false
starts_line (c ∷ s) = c == 10

-- Every carriage return before a line feed goes.
unfoldable pub unix_ends : Bytes → Bytes
unix_ends [] = []
unix_ends (c ∷ s) = let rest = unix_ends s in if c == 13 && starts_line s then rest else c ∷ rest

abbrev pub more_line : ℕ → List Bytes → List Bytes
more_line c [] = (c ∷ []) ∷ []
more_line c (l ∷ ls) = (c ∷ l) ∷ ls

unfoldable pub split_text : Bytes → List Bytes
split_text [] = [] ∷ []
split_text (c ∷ s) =
    let rest = split_text s in if c == 10 || c == 13 then [] ∷ rest else more_line c rest

unfoldable pub split_lines : List Bytes → List Bytes
unfolding unix_ends split_text
split_lines [] = []
split_lines (s ∷ l) = split_text (unix_ends s) ++ split_lines l

-- An argument with these lines goes on lines of its own.
unfoldable pub is_deferred : Bytes → List Bytes → Bool
is_deferred name [] = false
is_deferred name (l ∷ []) = ltb max_inline_value (length l + length name)
is_deferred name (l ∷ k ∷ ls) = true

abbrev pub empty_arg : Bytes
empty_arg = codes "\"\""

abbrev pub first_value : List Bytes → Bytes
first_value [] = []
first_value (l ∷ ls) = l

unfoldable pub write_arg : Arg → Bytes
unfolding is_deferred
write_arg a =
    if is_deferred a.name a.lines
    then b' ' ∷ a.name ++ b'*' ∷ b':' ∷ b' ' ∷ empty_arg
    else b' ' ∷ a.name ++ b':' ∷ b' ' ∷ escape_arg (first_value a.lines)

unfoldable pub write_args : List Arg → Bytes
unfolding write_arg
write_args [] = []
write_args (a ∷ l) = write_arg a ++ write_args l

unfoldable pub deferred : List Arg → List Arg
unfolding is_deferred
deferred [] = []
deferred (a ∷ l) = let rest = deferred l in if is_deferred a.name a.lines then a ∷ rest else rest

unfoldable pub value_line : Bytes → Bytes → Bytes → Bytes
value_line tag name l = prefix ++ (b'*' ∷ b' ' ∷ tag ++ (b' ' ∷ name ++ b':' ∷ b' ' ∷ l))

unfoldable pub value_lines : Bytes → List Arg → List Bytes
unfolding value_line
value_lines tag [] = []
value_lines tag (a ∷ l) = map (value_line tag a.name) a.lines ++ value_lines tag l

unfoldable pub end_line : Bytes → Bytes
end_line tag = prefix ++ b':' ∷ b' ' ∷ tag

unfoldable pub tag_arg : Bytes → Bytes
tag_arg tag = b' ' ∷ tag_name ++ b':' ∷ b' ' ∷ tag

-- The lines of a message whose first line begins with `head`.
unfoldable pub message_lines : Bytes → Bytes → List Arg → List Arg → List Bytes
unfolding write_args tag_arg value_lines end_line
message_lines tag head args [] = (head ++ write_args args) ∷ []
message_lines tag head args (a ∷ l) =
    (head ++ (write_args args ++ tag_arg tag)) ∷ value_lines tag (a ∷ l) ++ end_line tag ∷ []

abbrev pub split_arg : Arg → Arg
split_arg a = record a { lines = split_lines a.lines }

pub data Sent : Type 0 where
  not_enabled no_package : Sent
  sent : List Bytes → Sent

abbrev pub is_zero : Version → Bool
is_zero v = v.major == 0 && v.minor == 0

unfoldable pub send_message : Frame → Bytes → Message → Sent
unfolding message_lines split_lines deferred
send_message f tag m =
    let name = full_name m in
    let args = map split_arg m.args in
    let write : Bytes → Sent = λ head. sent (message_lines tag head args (deferred args)) in
    if not f.enabled && not (equal_fold m.pkg init_package)
    then not_enabled
    else if equal_fold name init_package
    then write (prefix ++ name)
    else if not (equal_fold m.pkg negotiate_package) && is_zero (supports m.pkg f)
    then no_package
    else write (prefix ++ (name ++ b' ' ∷ f.auth_key))

abbrev quoted_line : Bytes → Option Bytes → Bytes
quoted_line line none = line
quoted_line line (some s) = quote_prefix ++ line

unfoldable pub send_inband : Frame → Bytes → Bytes
send_inband f line = if f.enabled then quoted_line line (after_text prefix line) else line
