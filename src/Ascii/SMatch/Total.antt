-- ===== src/Ascii/SMatch/Total.antt =====
-- The matcher answers on every pattern and subject: one more than the pattern's length is enough
-- fuel, since each inner call takes a shorter pattern.
use fuzzball_emerald.Prelude.{
  ℕ, zero, suc, ◌+◌, ◌≤◌, ◌<◌, ◌≡◌, refl, Bool, true, false, [], ◌∷◌, Option, none, some, arith,
  ◌==◌, if◌then◌else◌, Bytes, length, Bool-cases, inl, inr,
}
use mathlib.Core.Bool.{xor}
use fuzzball_emerald.Ascii.{lower}
use fuzzball_emerald.Ascii.SMatch.Class.{cmatch, backslash, estrchr, put_before}
use fuzzball_emerald.Ascii.SMatch.{
  Cursor, Again, or_else, literal, escape, any_byte, class_at, search_spaces, search_all,
  search_byte, star_run, after_star, nothing_consumed, word_matches, accept_word, word_then,
  at_word, search_key, strip_negation, set_at, smatch_step, alts_step, is_spent, smatch_at, wmatch,
  smatch,
}

pub data Answers : Option Bool → Type 0 where
  answer : (b : Bool) → Answers (some b)

abbrev Splits : ℕ → Option (Bytes × Bytes) → Type 0
Splits n none = Unit
Splits n (some (body, after)) = suc (length body + length after) ≤ n

put_before-Splits :
    (n x : ℕ) (r : Option (Bytes × Bytes)) → Splits n r → Splits (suc n) (put_before x r)
put_before-Splits n x none h = tt
put_before-Splits n x (some (body, after)) h = omega arith

estrchr-Splits : (s : Bytes) (c : ℕ) → Splits (length s) (estrchr s c)
unfolding estrchr
estrchr-Splits [] c = tt
estrchr-Splits (x ∷ []) c = ground arith
estrchr-Splits (x ∷ y ∷ s) c = elim (Bool-cases (x == c)) [
  | inl found ↦ rw found (omega arith)
  | inr other ↦ rw other (elim (Bool-cases (x == backslash)) [
    | inl esc ↦ rw esc (
        put_before-Splits (suc (length s)) x (put_before y (estrchr s c))
          (put_before-Splits (length s) y (estrchr s c) (estrchr-Splits s c)))
    | inr plain ↦
        rw plain
          (put_before-Splits (suc (length s)) x (estrchr (y ∷ s) c) (estrchr-Splits (y ∷ s) c))
  ])
]

Splits-mono : {m n : ℕ} (r : Option (Bytes × Bytes)) → m ≤ n → Splits m r → Splits n r
Splits-mono none h k = tt
Splits-mono (some (body, after)) h k = omega arith

pub or_else-Answers : {a b : Option Bool} → Answers a → Answers b → Answers (or_else a b)
or_else-Answers (answer true) k = answer true
or_else-Answers (answer false) k = k

pub if-Answers :
    (t : Bool) {a b : Option Bool} → Answers a → Answers b → Answers (if t then a else b)
if-Answers true h k = h
if-Answers false h k = k

module _ (next : Bytes → Option Bool) (ok : (s : Bytes) → Answers (next s)) where
  search_spaces-Answers : (s : Bytes) → Answers (search_spaces next s)
  unfolding search_spaces
  search_spaces-Answers [] = answer false
  search_spaces-Answers (c ∷ s) =
      if-Answers (c == 32) (or_else-Answers (ok s) (search_spaces-Answers s))
        (search_spaces-Answers s)

  search_all-Answers : (s : Bytes) → Answers (search_all next s)
  unfolding search_all
  search_all-Answers [] = answer false
  search_all-Answers (c ∷ s) = or_else-Answers (ok (c ∷ s)) (search_all-Answers s)

  search_byte-Answers : (ch : ℕ) (s : Bytes) → Answers (search_byte next ch s)
  unfolding search_byte
  search_byte-Answers ch [] = answer false
  search_byte-Answers ch (c ∷ s) =
      if-Answers (lower c == lower ch) (or_else-Answers (ok (c ∷ s)) (search_byte-Answers ch s))
        (search_byte-Answers ch s)

length-star_run : (p : Bytes) (cur : Cursor) (s : Bytes) → length (star_run p cur s).0 ≤ length p
unfolding star_run
length-star_run [] cur s = omega arith
length-star_run (x ∷ p) cur [] = ground (arith, length-star_run p cur [])
length-star_run (x ∷ p) cur (c ∷ s) =
    ground (arith, length-star_run p cur (c ∷ s), length-star_run p (some c) s)

-- `n` bounds the patterns on which the inner calls are known to answer.
module _ (n : ℕ) (again : Again) (alts : Bytes → Bytes → Option Bool)
    (again_ok : (p : Bytes) (cur : Cursor) (s : Bytes) → length p ≤ n → Answers (again p cur s))
    (alts_ok : (l w : Bytes) → length l < n → Answers (alts l w)) where
  literal-Answers : (x : ℕ) (p s : Bytes) → length p ≤ n → Answers (literal again x p s)
  unfolding literal
  literal-Answers x p [] h = answer false
  literal-Answers x p (c ∷ s) h =
      if-Answers (lower x == lower c) (again_ok p (some c) s h) (answer false)

  escape-Answers : (p s : Bytes) → length p ≤ n → Answers (escape again p s)
  unfolding escape
  escape-Answers [] s h = answer false
  escape-Answers (x ∷ p) s h = literal-Answers x p s (omega arith)

  any_byte-Answers : (p s : Bytes) → length p ≤ n → Answers (any_byte again p s)
  unfolding any_byte
  any_byte-Answers p [] h = answer false
  any_byte-Answers p (c ∷ s) h = again_ok p (some c) s h

  class_at-Answers :
      (r : Option (Bytes × Bytes)) (s : Bytes) → Splits n r → Answers (class_at again r s)
  unfolding class_at
  class_at-Answers none s h = answer false
  class_at-Answers (some (body, after)) [] h = answer false
  class_at-Answers (some (body, after)) (c ∷ s) h =
      if-Answers (cmatch body c) (again_ok after (some c) s (omega arith)) (answer false)

  after_star-Answers :
      (p : Bytes) (cur : Cursor) (s : Bytes) → length p ≤ n → Answers (after_star again p cur s)
  unfolding after_star
  after_star-Answers [] cur s h = answer true
  after_star-Answers (x ∷ p) cur s h =
      let ok = λ (t : Bytes). again_ok (x ∷ p) none t h in
      if-Answers (x == b'?') (answer false) (
        if-Answers (x == b'{')
          (or_else-Answers (if-Answers (nothing_consumed cur) (ok s) (answer false))
            (search_spaces-Answers _ ok s))
          (if-Answers (x == b'[') (search_all-Answers _ ok s)
            (search_byte-Answers _ ok (search_key x p) s)))

  accept_word-Answers :
      (neg : Bool) {m onward : Option Bool}
      → Answers m
      → Answers onward
      → Answers (accept_word neg m onward)
  accept_word-Answers neg (answer b) k = if-Answers (xor b neg) k (answer false)

  word_matches-Answers : (l w s : Bytes) → length l < n → Answers (word_matches alts l w s)
  word_matches-Answers l w [] h = answer false
  word_matches-Answers l w (c ∷ s) h = alts_ok l w h

  length-strip_negation : (b : Bytes) → length (strip_negation b) ≤ length b
  length-strip_negation [] = omega arith
  length-strip_negation (x ∷ b) = ground arith

  set_at-Answers :
      (r : Option (Bytes × Bytes)) (p : Bytes) (cur : Cursor) (s : Bytes)
      → Splits n r
      → Answers (set_at alts again r p cur s)
  unfolding set_at
  set_at-Answers none p cur s h = answer false
  set_at-Answers (some (body, after)) p cur s h =
      if-Answers (at_word cur)
        (unfold word_then in
          accept_word-Answers _
            (word_matches-Answers (strip_negation body) _ s
              (omega (arith, length-strip_negation body)))
            (again_ok after _ _ (omega arith)))
        (answer false)

  smatch_step-Answers :
      (x : ℕ) (p : Bytes) (cur : Cursor) (s : Bytes)
      → length p ≤ n
      → Answers (smatch_step again alts x p cur s)
  unfolding smatch_step
  smatch_step-Answers x p cur s h =
      let shorter = λ (c : ℕ). Splits-mono (estrchr p c) h (estrchr-Splits p c) in
      if-Answers (x == backslash) (escape-Answers p s h) (
        if-Answers (x == b'?') (any_byte-Answers p s h) (
          if-Answers (x == b'*')
            (after_star-Answers (star_run p cur s).0 _ _ (omega (arith, length-star_run p cur s)))
            (if-Answers (x == b'[') (class_at-Answers (estrchr p b']') s (shorter b']')) (
              if-Answers (x == b'{') (set_at-Answers (estrchr p b'}') p cur s (shorter b'}'))
                (literal-Answers x p s h)))))

pub Answers-inv : {r : Option Bool} → Answers r → (b : Bool) × (r ≡ some b)
Answers-inv (answer b) = (b, refl)

alts_step-Answers :
    (n : ℕ) (one rest : Bytes → Option Bool) (l : Bytes) (r : Option (Bytes × Bytes))
    → length l ≤ n
    → Splits n r
    → ((alt : Bytes) → length alt ≤ n → Answers (one alt))
    → ((others : Bytes) → length others < n → Answers (rest others))
    → Answers (alts_step one rest l r)
unfolding alts_step
alts_step-Answers n one rest l none h k one_ok rest_ok = one_ok l h
alts_step-Answers n one rest l (some (alt, others)) h k one_ok rest_ok =
    or_else-Answers (one_ok alt (omega arith)) (rest_ok others (omega arith))

mutual
  unfolding smatch_at wmatch

  smatch_at-Answers :
      (fuel : ℕ) (p : Bytes) (cur : Cursor) (s : Bytes)
      → length p < fuel
      → Answers (smatch_at fuel p cur s)
  smatch_at-Answers zero p cur s h = absurd (omega arith)
  smatch_at-Answers (suc fuel) [] cur s h = answer (is_spent s)
  smatch_at-Answers (suc fuel) (x ∷ p) cur s h =
      smatch_step-Answers (length p) (smatch_at fuel) (wmatch fuel)
        (λ q cur' t k. smatch_at-Answers fuel q cur' t (omega arith))
        (λ l w k. wmatch-Answers fuel l w (omega arith)) x p cur s (omega arith)

  wmatch-Answers : (fuel : ℕ) (l w : Bytes) → suc (length l) < fuel → Answers (wmatch fuel l w)
  wmatch-Answers zero l w h = absurd (omega arith)
  wmatch-Answers (suc fuel) l w h =
      alts_step-Answers (length l) (λ alt. smatch_at fuel alt none w)
        (λ others. wmatch fuel others w) l (estrchr l b'|') (omega arith) (estrchr-Splits l b'|')
        (λ alt k. smatch_at-Answers fuel alt none w (omega arith))
        (λ others k. wmatch-Answers fuel others w (omega arith))

-- `SMatch` answers on every subject and pattern: the fuel never runs out.
pub smatch-total : (s pattern : Bytes) → (b : Bool) × (smatch s pattern ≡ some b)
unfolding smatch
smatch-total s pattern =
    Answers-inv (smatch_at-Answers (length pattern + 1) pattern none s (omega arith))
