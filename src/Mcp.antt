-- ===== src/Mcp.antt =====
-- internal/mcp: versions and messages (mcp.go). The children hold the readers of tokens (lex.go), the
-- frame that reads a client's lines (frame.go), and what writes to the client (send.go).
use Prim.Native.Nat.{ℕ}
use mathlib.Core.Bool.{Bool, true, false, not, ◌&&◌, ◌||◌}
use mathlib.Core.List.{List, [], ◌∷◌, ◌++◌}
use mathlib.Core.Option.{Option, none, some}
use fuzzball_emerald.Prelude.{◌==◌, ltb, if◌then◌else◌, Bytes, codes}
use fuzzball_emerald.Ascii.{equal_fold}
pub mod Lex
pub mod Args
pub mod Versions
pub mod Inband
pub mod Frames
pub mod Send
pub mod Reads
pub mod Heads
pub mod Start
pub mod Continue
pub mod Whole
pub mod Lines
pub mod Arrives
pub mod Fuel
pub mod Negotiate
pub mod Agreed
mod Tests

-- Both parts are read from digits, so they are never negative.
pub record Version : Type 0 where
  pub major : ℕ
  pub minor : ℕ

pub record Arg : Type 0 where
  pub name : Bytes
  pub lines : List Bytes

pub record Message : Type 0 where
  pub pkg : Bytes
  pub name : Bytes
  pub args : List Arg
  pub data_tag : Bytes
  pub incomplete : Bool

abbrev pub prefix : Bytes
prefix = codes "#$#"

abbrev pub quote_prefix : Bytes
quote_prefix = codes "#$\""

abbrev pub init_package : Bytes
init_package = codes "mcp"

abbrev pub negotiate_package : Bytes
negotiate_package = codes "mcp-negotiate"

-- The argument `DataTag`.
abbrev pub tag_name : Bytes
tag_name = codes "_data-tag"

abbrev pub new_message : Bytes → Bytes → Message
new_message pkg name = record {
  pkg = pkg;
  name = name;
  args = [];
  data_tag = [];
  incomplete = false;
}

abbrev pub first_line : List Bytes → Option Bytes → Option Bytes
first_line [] o = o
first_line (v ∷ vs) o = some v

-- The first line of the first argument of the name that has a line.
unfoldable pub arg_value : Bytes → List Arg → Option Bytes
arg_value name [] = none
arg_value name (a ∷ l) =
    let rest = arg_value name l in if equal_fold a.name name then first_line a.lines rest else rest

unfoldable pub add_line : Bytes → Bytes → List Arg → List Arg
add_line name value [] = record { name = name; lines = value ∷ [] } ∷ []
add_line name value (a ∷ l) =
    if equal_fold a.name name
    then record a { lines = a.lines ++ value ∷ [] } ∷ l
    else a ∷ add_line name value l

abbrev pub append_line : Bytes → Bytes → Message → Message
append_line name value m = record m { args = add_line name value m.args }

unfoldable pub drop_arg : Bytes → List Arg → List Arg
drop_arg name [] = []
drop_arg name (a ∷ l) = if equal_fold a.name name then drop_arg name l else a ∷ drop_arg name l

abbrev pub full_of : Bytes → Bytes → Bytes
full_of pkg [] = pkg
full_of pkg (c ∷ s) = pkg ++ b'-' ∷ c ∷ s

abbrev pub full_name : Message → Bytes
full_name m = full_of m.pkg m.name
