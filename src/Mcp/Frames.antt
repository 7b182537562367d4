-- ===== src/Mcp/Frames.antt =====
-- internal/mcp/frame.go: the state of one connection, and the reading of a client's lines. A map is
-- an association list, in which what was written last comes first.
use Prim.Native.Nat.{ℕ, zero, suc}
use mathlib.Core.Bool.{Bool, true, false, not, ◌&&◌, ◌||◌}
use mathlib.Core.List.{List, [], ◌∷◌, ◌++◌}
use mathlib.Core.Option.{Option, none, some}
use fuzzball_emerald.Prelude.{◌==◌, ltb, if◌then◌else◌, Bytes, codes, bytes_eq, length, take, drop}
use fuzzball_emerald.Ascii.{fold, equal_fold, has_prefix}
use fuzzball_emerald.Mcp.{
  Version, Message, prefix, quote_prefix, init_package, negotiate_package, tag_name, new_message,
  arg_value, append_line, drop_arg,
}
use fuzzball_emerald.Mcp.Lex.{
  ◌>>=◌, Token, read_ident, read_unquoted, read_quoted, skip_space, after, after_text,
}

-- What a server offers; the handler of a package is not modelled.
pub record Package : Type 0 where
  pub name : Bytes
  pub min_ver : Version
  pub max_ver : Version

pub record Frame : Type 0 where
  pub enabled : Bool
  pub auth_key : Bytes
  pub version : Version
  pub packages : List (Bytes × Version)
  pub partial : List (Bytes × Message)
  pub registry : List Package

unfoldable pub find {ℓ} : {V : Type ℓ} → Bytes → List (Bytes × V) → Option V
find key [] = none
find key ((k, v) ∷ l) = let rest = find key l in if bytes_eq k key then some v else rest

unfoldable pub erase {ℓ} : {V : Type ℓ} → Bytes → List (Bytes × V) → List (Bytes × V)
erase key [] = []
erase key ((k, v) ∷ l) = let rest = erase key l in if bytes_eq k key then rest else (k, v) ∷ rest

abbrev pub or_null : Option Version → Version
or_null none = record { major = 0; minor = 0 }
or_null (some v) = v

unfoldable pub supports : Bytes → Frame → Version
unfolding find
supports pkg f = or_null (find (fold pkg) f.packages)

abbrev pub at_hyphen : Bytes → Bool
at_hyphen [] = true
at_hyphen (c ∷ s) = c == b'-'

unfoldable pub longest_name : Bytes → ℕ → List Package → ℕ
longest_name name longest [] = longest
longest_name name longest (p ∷ ps) =
    let n = length p.name in
    longest_name name
      (if has_prefix name p.name && at_hyphen (drop n name) && ltb longest n then n else longest) ps

abbrev pub trim_hyphen : Bytes → Bytes
trim_hyphen [] = []
trim_hyphen (c ∷ s) = if c == b'-' then s else c ∷ s

abbrev pub cut_name : Bytes → ℕ → Bytes × Bytes
cut_name name n = (take n name, trim_hyphen (drop n name))

unfoldable pub split_package : Frame → Bytes → Option (Bytes × Bytes)
unfolding longest_name
split_package f name =
    let longest =
      if not (has_prefix name init_package) || ltb (length init_package) (length name)
      then longest_name name 0 f.registry
      else 0 in
    if not (longest == 0)
    then some (cut_name name longest)
    else if has_prefix name negotiate_package
    then some (cut_name name (length negotiate_package))
    else if equal_fold name init_package
    then some (cut_name name (length name))
    else none

-- A `*` behind the name of an argument, and what is left.
abbrev pub read_star : Bytes → Bool × Bytes
read_star [] = (false, [])
read_star (c ∷ s) = if c == b'*' then (true, s) else (false, c ∷ s)

abbrev pub else_quoted : Bytes → Token → Token
else_quoted s none = read_quoted s
else_quoted s (some t) = some t

abbrev pub read_value : Bytes → Token
read_value s = else_quoted s (read_unquoted s)

abbrev pub add_keyval : Bool → Bytes → Bytes → Message → Message
add_keyval true key value m = record m {
  args = m.args ++ (record { name = key; lines = [] }) ∷ [];
  incomplete = true;
}
add_keyval false key value m = append_line key value m

unfoldable pub read_keyval : Message → Bytes → Option (Message × Bytes)
read_keyval m s = do
  key ← skip_space s >>= read_ident
  let star = read_star key.1
  value ← after b':' star.1 >>= skip_space >>= read_value
  some (add_keyval star.0 key.0 value.0 m, value.1)

-- What the loop of `parseStart` ends with: a message, or an argument that is none; running out of
-- fuel is an end of its own.
pub data Arguments : Type 0 where
  out_of_fuel no_message : Arguments
  all_read : Message → Arguments

abbrev pub read_on : (Message → Bytes → Arguments) → Option (Message × Bytes) → Arguments
read_on next none = no_message
read_on next (some (m, rest)) = next m rest

-- The loop takes fuel: the length of what is left of the line.
unfoldable pub read_keyvals : ℕ → Message → Bytes → Arguments
read_keyvals n m [] = all_read m
read_keyvals zero m (c ∷ s) = out_of_fuel
read_keyvals (suc n) m (c ∷ s) = read_on (read_keyvals n) (read_keyval m (c ∷ s))

abbrev pub message_of : Arguments → Option Message
message_of out_of_fuel = none
message_of no_message = none
message_of (all_read m) = some m

abbrev pub or_empty : Option Bytes → Bytes
or_empty none = []
or_empty (some v) = v

abbrev pub start_partial : Frame → Bytes → Message → Frame
start_partial f tag m = record f {
  partial = (tag, record m { args = drop_arg tag_name m.args; data_tag = tag }) ∷ f.partial;
}

abbrev pub started : Frame → Message → Frame × Option Message
started f m =
    if m.incomplete
    then (start_partial f (or_empty (arg_value tag_name m.args)) m, none)
    else (f, some m)

-- The authentication key, behind a name that needs one.
unfoldable pub read_auth : Frame → Bytes → Bytes → Option Bytes
read_auth f name rest = if equal_fold name init_package then some rest else do
  key ← skip_space rest >>= read_unquoted
  if bytes_eq key.0 f.auth_key then some key.1 else none

unfoldable pub parse_start : Frame → Bytes → Option (Frame × Option Message)
unfolding read_auth
parse_start f s = do
  name ← read_ident s
  rest ← read_auth f name.0 name.1
  parts ← split_package f name.0
  m ← message_of (read_keyvals (length rest) (new_message parts.0 parts.1) rest)
  some (started f m)

unfoldable pub parse_continuation : Frame → Bytes → Option (Frame × Option Message)
unfolding find
parse_continuation f s = do
  tag ← after b'*' s >>= skip_space >>= read_unquoted
  key ← skip_space tag.1 >>= read_ident
  value ← after b':' key.1 >>= after b' '
  m ← find tag.0 f.partial
  some (record f { partial = (tag.0, append_line key.0 value m) ∷ f.partial }, none)

abbrev pub at_end : Bytes → Bool
at_end [] = true
at_end (c ∷ s) = false

unfoldable pub parse_end : Frame → Bytes → Option (Frame × Option Message)
unfolding find erase
parse_end f s = do
  tag ← after b':' s >>= skip_space >>= read_unquoted
  m ← (if at_end tag.1 then find tag.0 f.partial else none)
  some (record f { partial = erase tag.0 f.partial }, some (record m { incomplete = false }))

abbrev pub or_else {ℓ} : {A : Type ℓ} → Option A → Option A → Option A
or_else none o = o
or_else (some a) o = some a

unfoldable pub parse : Frame → Bytes → Option (Frame × Option Message)
parse f s = or_else (parse_continuation f s) (or_else (parse_end f s) (parse_start f s))

-- What becomes of a line: text for the commands, or a part of a message, with one that it completed.
pub data Outcome : Type 0 where
  text : Bytes → Outcome
  consumed : Option Message → Outcome

abbrev pub parsed : Frame → Bytes → Option (Frame × Option Message) → Frame × Outcome
parsed f line none = (f, text line)
parsed f line (some (g, done)) = (g, consumed done)

-- The line begins with the prefix, and `s` is what follows that.
abbrev pub read_message : Frame → Bytes → Bytes → Frame × Outcome
read_message f line s =
    if not f.enabled && not (has_prefix s (codes "mcp "))
    then (f, text line)
    else parsed f line (parse f s)

abbrev pub read_text : Frame → Bytes → Option Bytes → Frame × Outcome
read_text f line none = (f, text line)
read_text f line (some s) = (f, text (if f.enabled then s else line))

abbrev pub read_prefixed : Frame → Bytes → Option Bytes → Frame × Outcome
read_prefixed f line none = read_text f line (after_text quote_prefix line)
read_prefixed f line (some s) = read_message f line s

unfoldable pub read_line : Frame → Bytes → Frame × Outcome
read_line f line = read_prefixed f line (after_text prefix line)
