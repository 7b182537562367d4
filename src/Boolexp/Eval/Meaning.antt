-- ===== src/Boolexp/Eval/Meaning.antt =====
-- What a lock asks of a player and the object that it is set on (eval.go), described without the order
-- in which the code looks, and without its searches.
use fuzzball_emerald.Prelude.{◌≡◌, ◌≢◌, ◌⊎◌, true, some, Bytes}
use fuzzball_emerald.Prelude.Int.{ℤ}
use fuzzball_emerald.Ref.{Ref, nothing}
use fuzzball_emerald.Ref.Flags.{type_program}
use fuzzball_emerald.Boolexp.{Expr, true_boolexp, both, either, negated, const, prop, Host}
use fuzzball_emerald.Boolexp.Eval.{has_property_strict}
use fuzzball_emerald.Boolexp.Eval.Search.{IsIn, Reaches}
use fuzzball_emerald.Boolexp.Eval.Tells.{Tells}

module _ (host : Host) (descr : ℤ) (player thing : Ref) where
  -- A player and the object that a lock names: a program that is run says so, or else the object is
  -- the player, owns or holds the player, or is among what the player holds.
  abbrev pub Related : Ref → Type 0
  Related target =
      (target ≢ nothing)
      × (((host.type_of target ≡ type_program) × (host.run_lock descr player target thing ≡ true))
          ⊎ ((host.type_of target ≢ type_program)
              × ((((target ≡ player) ⊎ (target ≡ host.owner player))
                    ⊎ (target ≡ host.location player))
                  ⊎ IsIn target (host.contents player))))

  abbrev pub HasProperty : Bytes → Bytes → Ref → Type 0
  HasProperty name value at = has_property_strict host descr player at name value ≡ some true

  abbrev pub Satisfies : Expr → Type 0
  Satisfies true_boolexp = Unit
  Satisfies (both a b) = Satisfies a × Satisfies b
  Satisfies (either a b) = Satisfies a ⊎ Satisfies b
  Satisfies (negated a) = Satisfies a → ⊥
  Satisfies (const target) = Related target
  Satisfies (prop name value) =
      ((host.valid thing ≡ true) × HasProperty name value thing)
      ⊎ ((at : Ref) × Reaches host at player × HasProperty name value at)
