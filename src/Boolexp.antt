-- ===== src/Boolexp.antt =====
-- internal/boolexp: lock expressions. This file has the tree and the host (boolexp.go); Parse, Unparse
-- and Eval the three operations. A nil tree is `true_boolexp`; the host is a parameter, whose answers
-- are functions of what it is asked.
pub mod Runes
pub mod Parse
pub mod Unparse
pub mod Eval
pub mod Grammar
pub mod Nest
pub mod Atoms
pub mod RoundTrip
mod Tests
use Prim.Native.Nat.{ℕ}
use mathlib.Core.Bool.{Bool}
use mathlib.Core.List.{List}
use mathlib.Core.Option.{Option}
use fuzzball_emerald.Prelude.{Bytes}
use fuzzball_emerald.Prelude.Int.{ℤ}
use fuzzball_emerald.Ref.{Ref}
use fuzzball_emerald.Props.Value.{Value}

pub data Expr : Type 0 where
  true_boolexp : Expr
  both : Expr → Expr → Expr
  either : Expr → Expr → Expr
  negated : Expr → Expr
  const : Ref → Expr
  prop : Bytes → Bytes → Expr

-- The field `kind` of a node, which `unparse1` hands down as the outer kind.
pub data Kind : Type 0 where
  k_and k_or k_not k_const k_prop : Kind

pub record Host : Type 0 where
  pub match_name : Ref → Bytes → Ref
  pub wizard : Ref → Bool
  pub name : Ref → Ref → Bytes
  pub valid : Ref → Bool
  pub type_of : Ref → ℕ
  pub owner : Ref → Ref
  pub location : Ref → Ref
  pub contents : Ref → List Ref
  pub parent : Ref → Ref
  pub lock_env_check : Bool
  pub prop_of : Ref → Bytes → Option Value
  -- descriptor, player, object, raw text, blessed
  pub eval_lock_prop : ℤ → Ref → Ref → Bytes → Bool → Bytes
  -- descriptor, player, program, thing
  pub run_lock : ℤ → Ref → Ref → Ref → Bool
