-- ===== src/Boolexp/Parse.antt =====
-- internal/boolexp/parse.go. The parser's position is what is left of the text. The three mutual functions take fuel: three for each byte left and three more are enough.
use Prim.Native.Nat.{ℕ, zero, suc, ◌+◌, ◌*◌}
use mathlib.Core.Bool.{Bool, true, false, not, ◌&&◌, ◌||◌}
use mathlib.Core.List.{[], ◌∷◌}
use mathlib.Core.Option.{Option, none, some}
use fuzzball_emerald.Prelude.{◌==◌, if◌then◌else◌, Bytes, length}
use fuzzball_emerald.Prelude.Int.{ℤ, eqb_ℤ}
use fuzzball_emerald.Prelude.Decimal.{parse_int}
use fuzzball_emerald.Prelude.Space.{is_space, trim_left}
use fuzzball_emerald.Boolexp.Runes.{trim_left_runes, trim_right_runes, until_space}
use fuzzball_emerald.Ref.{Ref, nothing, ambiguous, to_int32}
use fuzzball_emerald.Props.Perms.{is_system, is_hidden}
use fuzzball_emerald.Boolexp.{Expr, true_boolexp, both, either, negated, const, prop, Host}
pub mod Total

pub data ParseError : Type 0 where
  unbalanced hidden_property empty_name empty_value : ParseError
  not_seen which_one invalid_dbref : Bytes → ParseError

-- The field `Notify` of each error.
unfoldable pub notify : ParseError → Bool
notify hidden_property = true
notify (not_seen _) = true
notify (which_one _) = true
notify _ = false

pub data Result (A : Type 0) : Type 0 where
  ok : A → Result A
  err : ParseError → Result A
  out_of_fuel : Result A

infixl 5 ◌>>=◌
abbrev pub ◌>>=◌ : {A B : Type 0} → Result A → (A → Result B) → Result B
ok a >>= f = f a
err e >>= f = err e
out_of_fuel >>= f = out_of_fuel

-- A tree and the text behind it.
abbrev pub Parsed : Type 0
Parsed = Result (Expr × Bytes)

-- The bytes up to '&', '|', ')' or the end, and the rest.
unfoldable pub ends_atom : ℕ → Bool
ends_atom c = c == b'&' || c == b'|' || c == b')'

abbrev pub push_front : ℕ → Bytes × Bytes → Bytes × Bytes
push_front c (buf, rest) = (c ∷ buf, rest)

unfoldable pub take_atom : Bytes → Bytes × Bytes
unfolding ends_atom
take_atom [] = ([], [])
take_atom (c ∷ s) =
    let more = push_front c (take_atom s) in if ends_atom c then ([], c ∷ s) else more

-- `strings.IndexByte(buf, ':')`: what stands before the first colon, and what follows it.
abbrev pub colon_front : ℕ → Option (Bytes × Bytes) → Option (Bytes × Bytes)
colon_front c none = none
colon_front c (some (name, rest)) = some (c ∷ name, rest)

unfoldable pub split_colon : Bytes → Option (Bytes × Bytes)
split_colon [] = none
split_colon (c ∷ s) =
    let more = colon_front c (split_colon s) in if c == b':' then some ([], s) else more

abbrev pub make_prop : Bytes → Bytes → Result Expr
make_prop [] value = err empty_name
make_prop (c ∷ name) [] = err empty_value
make_prop (c ∷ name) (d ∷ value) = ok (prop (c ∷ name) (d ∷ value))

unfoldable pub parse_prop : Bytes → Bytes → Result Expr
parse_prop name rest = make_prop (trim_right_runes name) (until_space (trim_left_runes rest))

-- After an operand: the operator and the other operand, where the operator is there.
abbrev pub operator : ℕ → (Expr → Expr → Expr) → (Bytes → Parsed) → Expr → Bytes → Parsed
operator token join next b [] = ok (b, [])
operator token join next b (c ∷ s) =
    if c == token then (next s >>= λ r. ok (join b r.0, r.1)) else ok (b, c ∷ s)

abbrev pub is_nil : Expr → Bool
is_nil true_boolexp = true
is_nil _ = false

abbrev pub close : Expr → Bytes → Parsed
close b [] = err unbalanced
close b (c ∷ s) = if is_nil b || not (c == b')') then err unbalanced else ok (b, s)

abbrev pub dbref : Bytes → Option ℤ → Result Expr
dbref buf none = err (invalid_dbref buf)
dbref buf (some n) = ok (const (to_int32 n))

-- `len(buf) < 2` goes where nothing follows the sign of a dbref.
unfoldable pub parse_dbref : Bytes → Result Expr
parse_dbref [] = err (invalid_dbref [])
parse_dbref (c ∷ []) = err (invalid_dbref (c ∷ []))
parse_dbref (c ∷ d ∷ s) =
    if c == b'#' then dbref (c ∷ d ∷ s) (parse_int 64 (d ∷ s)) else err (invalid_dbref (c ∷ d ∷ s))

module _ (host : Host) (player : Ref) (dbload : Bool) where
  unfoldable pub match_player : Bytes → Result Expr
  match_player buf =
      let thing = host.match_name player buf in
      if eqb_ℤ thing nothing
      then err (not_seen buf)
      else if eqb_ℤ thing ambiguous
      then err (which_one buf)
      else ok (const thing)

  unfoldable pub forbidden : Bytes → Bool
  forbidden buf = not dbload && (is_system buf || (not (host.wizard player) && is_hidden buf))

  abbrev pub atom_from : Bytes → Option (Bytes × Bytes) → Result Expr
  atom_from buf (some (name, rest)) =
      if forbidden buf then err hidden_property else parse_prop name rest
  atom_from buf none = if dbload then parse_dbref buf else match_player buf

  unfoldable pub parse_atom : Bytes → Result Expr
  unfolding forbidden match_player parse_dbref split_colon parse_prop
  parse_atom buf = atom_from buf (split_colon buf)

  abbrev pub atom : Bytes × Bytes → Parsed
  atom (buf, rest) = parse_atom (trim_right_runes buf) >>= λ b. ok (b, rest)

  abbrev pub factor : (Bytes → Parsed) → (Bytes → Parsed) → Bytes → Parsed
  factor inner again [] = atom ([], [])
  factor inner again (c ∷ s) =
      if c == b'('
      then (inner s >>= λ r. close r.0 (trim_left r.1))
      else if c == b'!'
      then (again s >>= λ r. ok (negated r.0, r.1))
      else atom (take_atom (c ∷ s))

  unfoldable mutual
    unfolding parse_atom trim_left take_atom trim_right_runes

    pub parse_e : ℕ → Bytes → Parsed
    parse_e zero s = out_of_fuel
    parse_e (suc f) s = parse_t f s >>= λ r. operator b'|' either (parse_e f) r.0 (trim_left r.1)

    pub parse_t : ℕ → Bytes → Parsed
    parse_t zero s = out_of_fuel
    parse_t (suc f) s = parse_f f s >>= λ r. operator b'&' both (parse_t f) r.0 (trim_left r.1)

    pub parse_f : ℕ → Bytes → Parsed
    parse_f zero s = out_of_fuel
    parse_f (suc f) s = factor (parse_e f) (parse_f f) (trim_left s)

  -- `Parse`: what is left of the text behind the tree is not looked at.
  unfoldable pub parse : Bytes → Result Expr
  unfolding parse_e
  parse s = parse_e (3 * length s + 3) s >>= λ r. ok r.0
