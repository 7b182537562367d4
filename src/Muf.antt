-- ===== src/Muf.antt =====
-- internal/muf: the stack machine that runs MUF programs. This file has its values (value.go, inst.go)
-- and the part of a frame that its stack and variable primitives use (frame.go). The stack's top comes
-- first. An array is a pointer, that is, a place in a heap that the frame carries.
pub mod Stack
pub mod Prims
pub mod Array
mod Tests
use Prim.Native.Nat.{ℕ, ◌-◌, ◌%◌, ◌^◌}
use mathlib.Core.Bool.{Bool, true, false, not, ◌||◌}
use mathlib.Core.List.{List, [], ◌∷◌}
use mathlib.Core.Option.{Option, none, some}
use fuzzball_emerald.Prelude.{◌==◌, ltb, if◌then◌else◌, Bytes, get_elem?}
use fuzzball_emerald.Prelude.Int.{ℤ, pos, negsuc, eqb_ℤ}
use fuzzball_emerald.Ref.{Ref, is_ok}
use fuzzball_emerald.Boolexp.{Expr}

abbrev pub stack_size : ℕ
stack_size = 1024

pub data Value : Type 0 where
  cleared : Value
  integer : ℤ → Value
  float : ℕ → Value
  object : Ref → Value
  var lvar svar : ℤ → Value
  string : Bytes → Value
  lock : Expr → Value
  address : ℕ → Value
  array : ℕ → Value
  mark : Value

-- What an array is to a test of it: packed or not, and its entries' number.
pub record Shape : Type 0 where
  pub is_list : Bool
  pub len : ℕ

pub record Frame : Type 0 where
  pub stack : List Value
  pub vars : List Value
  pub lvars : List Value
  -- the innermost call's first
  pub scopes : List (List Value)
  pub mode : ℤ
  pub prog : Ref
  pub trig : Ref
  pub caller : Ref
  pub heap : List Shape

-- The number of a value's type, from inst.go.
unfoldable pub type_number : Value → ℕ
type_number cleared = 0
type_number (integer _) = 2
type_number (float _) = 3
type_number (object _) = 4
type_number (var _) = 5
type_number (lvar _) = 6
type_number (svar _) = 7
type_number (string _) = 9
type_number (lock _) = 11
type_number (address _) = 12
type_number (array _) = 16
type_number mark = 17

abbrev pub bool : Bool → Value
bool true = integer (pos 1)
bool false = integer (pos 0)

abbrev pub has_entries : Option Shape → Bool
has_entries none = false
has_entries (some s) = not (s.len == 0)

abbrev pub has_bytes : Bytes → Bool
has_bytes [] = false
has_bytes (_ ∷ _) = true

-- A float is its 64 bits; it is zero where they are, up to the sign.
unfoldable pub truthy : List Shape → Value → Bool
unfolding is_ok
truthy heap (integer n) = not (eqb_ℤ n (pos 0))
truthy heap (float bits) = not (bits == 0 || bits == 2 ^ 63)
truthy heap (string s) = has_bytes s
truthy heap (object r) = is_ok r
truthy heap (array a) = has_entries (get_elem? heap a)
truthy heap (address _) = true
truthy heap (lock _) = true
truthy heap _ = false
