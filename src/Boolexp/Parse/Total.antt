-- ===== src/Boolexp/Parse/Total.antt =====
-- The parser ends on every text: three units of fuel for each byte left and three more are enough,
-- since each of the three functions that calls itself has read a byte first.
use fuzzball_emerald.Prelude.{
  ℕ, zero, suc, ◌+◌, ◌*◌, ◌≤◌, Bool, true, false, not, ◌||◌, [], ◌∷◌, Option, none, some, arith,
  ◌==◌, if◌then◌else◌, Bytes, length,
}
use fuzzball_emerald.Prelude.Space.{trim_left, length-trim_left}
use fuzzball_emerald.Boolexp.Runes.{trim_right_runes}
use fuzzball_emerald.Ref.{Ref, nothing, ambiguous}
use fuzzball_emerald.Prelude.Int.{ℤ, eqb_ℤ}
use fuzzball_emerald.Prelude.Decimal.{parse_int}
use fuzzball_emerald.Boolexp.{Expr, either, both, negated, Host}
use fuzzball_emerald.Boolexp.Parse.{
  ParseError, Result, ok, err, ◌>>=◌, Parsed, take_atom, make_prop, parse_prop, dbref, parse_dbref,
  match_player, forbidden, atom_from, split_colon, parse_atom, operator, is_nil, close, atom,
  factor, parse_e, parse_t, parse_f, parse,
}

-- An answer, the text behind which has at most `n` bytes.
pub data Leaves (n : ℕ) : Parsed → Type 0 where
  leaves_ok : (b : Expr) (s : Bytes) → length s ≤ n → Leaves n (ok (b, s))
  leaves_err : (e : ParseError) → Leaves n (err e)

pub data Answers {A : Type 0} : Result A → Type 0 where
  answer_ok : (a : A) → Answers (ok a)
  answer_err : (e : ParseError) → Answers (err e)

Leaves-mono : {m n : ℕ} {r : Parsed} → m ≤ n → Leaves m r → Leaves n r
Leaves-mono h (leaves_ok b s k) = leaves_ok b s (omega arith)
Leaves-mono h (leaves_err e) = leaves_err e

Leaves-if :
    {n : ℕ} (t : Bool) {a b : Parsed} → Leaves n a → Leaves n b → Leaves n (if t then a else b)
Leaves-if true h k = h
Leaves-if false h k = k

Leaves-bind :
    {m n : ℕ} {r : Parsed} (f : Expr × Bytes → Parsed)
    → Leaves m r
    → ((b : Expr) (s : Bytes) → length s ≤ m → Leaves n (f (b, s)))
    → Leaves n (r >>= f)
Leaves-bind f (leaves_ok b s h) k = k b s h
Leaves-bind f (leaves_err e) k = leaves_err e

length-take_atom : (s : Bytes) → length (take_atom s).1 ≤ length s
unfolding take_atom
length-take_atom [] = omega arith
length-take_atom (c ∷ s) = ground (arith, length-take_atom s)

operator-Leaves :
    (token : ℕ) (join : Expr → Expr → Expr) (next : Bytes → Parsed) (b : Expr) (s : Bytes) {n : ℕ}
    → length s ≤ n
    → ((t : Bytes) → suc (length t) ≤ length s → Leaves (length t) (next t))
    → Leaves n (operator token join next b s)
operator-Leaves token join next b [] h k = leaves_ok b [] h
operator-Leaves token join next b (c ∷ s) h k =
    Leaves-if (c == token)
      (Leaves-bind (λ r. ok (join b r.0, r.1)) (k s (omega arith))
        (λ b' t l. leaves_ok (join b b') t (omega arith)))
      (leaves_ok b (c ∷ s) h)

close-Leaves : (b : Expr) (s : Bytes) {n : ℕ} → length s ≤ n → Leaves n (close b s)
close-Leaves b [] h = leaves_err _
close-Leaves b (c ∷ s) h =
    Leaves-if (is_nil b || not (c == b')')) (leaves_err _) (leaves_ok b s (omega arith))

module _ (host : Host) (player : Ref) (dbload : Bool) where
  make_prop-Answers : (name value : Bytes) → Answers (make_prop name value)
  make_prop-Answers [] value = answer_err _
  make_prop-Answers (c ∷ name) [] = answer_err _
  make_prop-Answers (c ∷ name) (d ∷ value) = answer_ok _

  parse_prop-Answers : (name rest : Bytes) → Answers (parse_prop name rest)
  unfolding parse_prop
  parse_prop-Answers name rest = make_prop-Answers (trim_right_runes name) _

  dbref-Answers : (buf : Bytes) (n : Option ℤ) → Answers (dbref buf n)
  dbref-Answers buf none = answer_err _
  dbref-Answers buf (some n) = answer_ok _

  Answers-if : (t : Bool) {a b : Result Expr} → Answers a → Answers b → Answers (if t then a else b)
  Answers-if true h k = h
  Answers-if false h k = k

  parse_dbref-Answers : (buf : Bytes) → Answers (parse_dbref buf)
  unfolding parse_dbref
  parse_dbref-Answers [] = answer_err _
  parse_dbref-Answers (c ∷ []) = answer_err _
  parse_dbref-Answers (c ∷ d ∷ s) =
      Answers-if (c == b'#') (dbref-Answers (c ∷ d ∷ s) (parse_int 64 (d ∷ s))) (answer_err _)

  match_player-Answers : (buf : Bytes) → Answers (match_player host player dbload buf)
  unfolding match_player
  match_player-Answers buf =
      Answers-if (eqb_ℤ (host.match_name player buf) nothing) (answer_err _)
        (Answers-if (eqb_ℤ (host.match_name player buf) ambiguous) (answer_err _) (answer_ok _))

  atom_from-Answers :
      (buf : Bytes) (r : Option (Bytes × Bytes)) → Answers (atom_from host player dbload buf r)
  atom_from-Answers buf (some (name, rest)) =
      Answers-if (forbidden host player dbload buf) (answer_err _) (parse_prop-Answers name rest)
  atom_from-Answers buf none =
      Answers-if dbload (parse_dbref-Answers buf) (match_player-Answers buf)

  parse_atom-Answers : (buf : Bytes) → Answers (parse_atom host player dbload buf)
  unfolding parse_atom
  parse_atom-Answers buf = atom_from-Answers buf (split_colon buf)

  atom_ok :
      {n : ℕ} {r : Result Expr} (rest : Bytes)
      → Answers r
      → length rest ≤ n
      → Leaves n (r >>= λ b. ok (b, rest))
  atom_ok rest (answer_ok b) h = leaves_ok b rest h
  atom_ok rest (answer_err e) h = leaves_err e

  atom-Leaves : (p : Bytes × Bytes) → Leaves (length p.1) (atom host player dbload p)
  atom-Leaves (buf, rest) = atom_ok rest (parse_atom-Answers (trim_right_runes buf)) (omega arith)

  factor-Leaves :
      (inner again : Bytes → Parsed) (s : Bytes) {n : ℕ}
      → length s ≤ n
      → ((t : Bytes) → suc (length t) ≤ length s → Leaves (length t) (inner t))
      → ((t : Bytes) → suc (length t) ≤ length s → Leaves (length t) (again t))
      → Leaves n (factor host player dbload inner again s)
  factor-Leaves inner again [] h k l = Leaves-mono (omega arith) (atom-Leaves ([], []))
  factor-Leaves inner again (c ∷ s) h k l =
      Leaves-if (c == b'(')
        (Leaves-bind (λ r. close r.0 (trim_left r.1)) (k s (omega arith))
          (λ b t e. close-Leaves b (trim_left t) (omega (arith, length-trim_left t))))
        (Leaves-if (c == b'!')
          (Leaves-bind (λ r. ok (negated r.0, r.1)) (l s (omega arith))
            (λ b t e. leaves_ok (negated b) t (omega arith)))
          (Leaves-mono (omega (arith, length-take_atom (c ∷ s))) (atom-Leaves (take_atom (c ∷ s)))))

  mutual
    unfolding parse_e parse_t parse_f

    parse_e-Leaves :
        (f : ℕ) (s : Bytes)
        → 3 * length s + 3 ≤ f
        → Leaves (length s) (parse_e host player dbload f s)
    parse_e-Leaves zero s h = ground arith
    parse_e-Leaves (suc f) s h =
        Leaves-bind (λ r. operator b'|' either (parse_e host player dbload f) r.0 (trim_left r.1))
          (parse_t-Leaves f s (omega arith))
          (λ b t e.
            operator-Leaves b'|' either (parse_e host player dbload f) b (trim_left t)
              (omega (arith, length-trim_left t))
              (λ u l. parse_e-Leaves f u (omega (arith, length-trim_left t))))

    parse_t-Leaves :
        (f : ℕ) (s : Bytes)
        → 3 * length s + 2 ≤ f
        → Leaves (length s) (parse_t host player dbload f s)
    parse_t-Leaves zero s h = ground arith
    parse_t-Leaves (suc f) s h =
        Leaves-bind (λ r. operator b'&' both (parse_t host player dbload f) r.0 (trim_left r.1))
          (parse_f-Leaves f s (omega arith))
          (λ b t e.
            operator-Leaves b'&' both (parse_t host player dbload f) b (trim_left t)
              (omega (arith, length-trim_left t))
              (λ u l. parse_t-Leaves f u (omega (arith, length-trim_left t))))

    parse_f-Leaves :
        (f : ℕ) (s : Bytes)
        → 3 * length s + 1 ≤ f
        → Leaves (length s) (parse_f host player dbload f s)
    parse_f-Leaves zero s h = ground arith
    parse_f-Leaves (suc f) s h =
        factor-Leaves (parse_e host player dbload f) (parse_f host player dbload f) (trim_left s)
          (length-trim_left s) (λ u l. parse_e-Leaves f u (omega (arith, length-trim_left s)))
          (λ u l. parse_f-Leaves f u (omega (arith, length-trim_left s)))

  parsed-Answers : {n : ℕ} {r : Parsed} → Leaves n r → Answers (r >>= λ p. ok p.0)
  parsed-Answers (leaves_ok b s h) = answer_ok b
  parsed-Answers (leaves_err e) = answer_err e

  -- The parser answers on every text, with a tree or with an error: its fuel never runs out.
  pub parse-total : (s : Bytes) → Answers (parse host player dbload s)
  unfolding parse
  parse-total s = parsed-Answers (parse_e-Leaves (3 * length s + 3) s (omega arith))
