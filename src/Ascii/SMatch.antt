-- ===== src/Ascii/SMatch.antt =====
-- smatch.go: MUCK pattern matching. A cursor into the subject is what is left of it, with the byte
-- before it: `none` where this call has consumed nothing yet. An answer `none` means that the fuel
-- ran out; every inner call takes a shorter pattern, so one more than the pattern's length is enough.
pub mod Class
mod Tests
pub mod Total
pub mod Literal
pub mod Ranges
use Prim.Native.Nat.{ℕ, zero, suc, ◌+◌}
use mathlib.Core.Bool.{Bool, true, false, not, ◌&&◌, ◌||◌, xor}
use mathlib.Core.List.{[], ◌∷◌}
use mathlib.Core.Option.{Option, none, some}
use fuzzball_emerald.Prelude.{◌==◌, if◌then◌else◌, Bytes, length}
use fuzzball_emerald.Ascii.{lower}
use fuzzball_emerald.Ascii.SMatch.Class.{backslash, estrchr, cmatch}

abbrev pub Cursor : Type 0
Cursor = Option ℕ

-- A call on a pattern, a cursor and the subject left.
abbrev Again : Type 0
Again = Bytes → Cursor → Bytes → Option Bool

abbrev pub or_else : Option Bool → Option Bool → Option Bool
or_else none r = none
or_else (some true) r = some true
or_else (some false) r = r

literal : Again → ℕ → Bytes → Bytes → Option Bool
unfolding lower
literal again x p [] = some false
literal again x p (c ∷ s) = if lower x == lower c then again p (some c) s else some false

escape : Again → Bytes → Bytes → Option Bool
unfolding literal
escape again [] s = some false
escape again (x ∷ p) s = literal again x p s

any_byte : Again → Bytes → Bytes → Option Bool
any_byte again p [] = some false
any_byte again p (c ∷ s) = again p (some c) s

class_at : Again → Option (Bytes × Bytes) → Bytes → Option Bool
unfolding cmatch
class_at again none s = some false
class_at again (some (body, after)) [] = some false
class_at again (some (body, after)) (c ∷ s) =
    if cmatch body c then again after (some c) s else some false

-- The three searches of `smatchStar`. Each tries the pattern anew at some of the positions left.
search_spaces : (Bytes → Option Bool) → Bytes → Option Bool
search_spaces next [] = some false
search_spaces next (c ∷ s) =
    let rest = search_spaces next s in if c == 32 then or_else (next s) rest else rest

search_all : (Bytes → Option Bool) → Bytes → Option Bool
search_all next [] = some false
search_all next (c ∷ s) = let rest = search_all next s in or_else (next (c ∷ s)) rest

search_byte : (Bytes → Option Bool) → ℕ → Bytes → Option Bool
unfolding lower
search_byte next ch [] = some false
search_byte next ch (c ∷ s) =
    let rest = search_byte next ch s in
    if lower c == lower ch then or_else (next (c ∷ s)) rest else rest

-- A run of stars collapses, and a '?' among them takes one byte.
star_run : Bytes → Cursor → Bytes → Bytes × Cursor × Bytes
star_run [] cur s = ([], cur, s)
star_run (x ∷ p) cur [] =
    let star = star_run p cur [] in if x == b'*' then star else (x ∷ p, cur, [])
star_run (x ∷ p) cur (c ∷ s) =
    let star = star_run p cur (c ∷ s) in
    let any = star_run p (some c) s in
    if x == b'*' then star else if x == b'?' then any else (x ∷ p, cur, c ∷ s)

-- The byte that drives the search, taken through one level of escaping.
search_key : ℕ → Bytes → ℕ
search_key x [] = x
search_key x (y ∷ p) = if x == backslash then y else x

abbrev nothing_consumed : Cursor → Bool
nothing_consumed none = true
nothing_consumed (some _) = false

after_star : Again → Bytes → Cursor → Bytes → Option Bool
unfolding search_spaces search_all search_byte search_key
after_star again [] cur s = some true
after_star again (x ∷ p) cur s =
    let next = again (x ∷ p) none in
    if x == b'?'
    then some false
    else if x == b'{'
    then or_else (if nothing_consumed cur then next s else some false) (search_spaces next s)
    else if x == b'['
    then search_all next s
    else search_byte next (search_key x p) s

-- The next whole word of the subject, and the cursor behind it.
take_word : Cursor → Bytes → Bytes × Cursor × Bytes
take_word cur [] = ([], cur, [])
take_word cur (c ∷ s) =
    let (word, cur', rest) = take_word (some c) s in
    if c == 32 then ([], cur, c ∷ s) else (c ∷ word, cur', rest)

abbrev at_word : Cursor → Bool
at_word none = true
at_word (some c) = c == 32

abbrev starts_negated : Bytes → Bool
starts_negated [] = false
starts_negated (x ∷ _) = x == b'^'

abbrev strip_negation : Bytes → Bytes
strip_negation [] = []
strip_negation (x ∷ body) = if x == b'^' then body else x ∷ body

-- `wmatch` answers no on a spent subject, before it looks at the list.
abbrev word_matches : (Bytes → Bytes → Option Bool) → Bytes → Bytes → Bytes → Option Bool
word_matches alts wlist word [] = some false
word_matches alts wlist word (_ ∷ _) = alts wlist word

abbrev accept_word : Bool → Option Bool → Option Bool → Option Bool
accept_word neg none onward = none
accept_word neg (some matched) onward = if xor matched neg then onward else some false

-- `wmatch` against the alternatives, and then the rest of the pattern behind the word.
word_then :
    (Bytes → Bytes → Option Bool) → Again → Bool → Bytes → Bytes → Cursor → Bytes → Option Bool
unfolding take_word xor
word_then alts again neg wlist after cur s =
    let (word, cur', rest) = take_word cur s in
    accept_word neg (word_matches alts wlist word s) (again after cur' rest)

set_at :
    (Bytes → Bytes → Option Bool)
    → Again
    → Option (Bytes × Bytes)
    → Bytes
    → Cursor
    → Bytes
    → Option Bool
unfolding word_then
set_at alts again none p cur s = some false
set_at alts again (some (body, after)) p cur s =
    if at_word cur
    then word_then alts again (starts_negated p) (strip_negation body) after cur s
    else some false

smatch_step : Again → (Bytes → Bytes → Option Bool) → ℕ → Bytes → Cursor → Bytes → Option Bool
unfolding literal escape any_byte class_at star_run after_star set_at estrchr
smatch_step again alts x p cur s =
    if x == backslash
    then escape again p s
    else if x == b'?'
    then any_byte again p s
    else if x == b'*'
    then (let (p', cur', s') = star_run p cur s in after_star again p' cur' s')
    else if x == b'['
    then class_at again (estrchr p b']') s
    else if x == b'{'
    then set_at alts again (estrchr p b'}') p cur s
    else literal again x p s

abbrev pub is_spent : Bytes → Bool
is_spent [] = true
is_spent (_ ∷ _) = false

-- The loop of `wmatch` over the alternatives, on one of them and the rest.
alts_step :
    (Bytes → Option Bool) → (Bytes → Option Bool) → Bytes → Option (Bytes × Bytes) → Option Bool
alts_step one rest wlist none = one wlist
alts_step one rest wlist (some (alt, others)) = or_else (one alt) (rest others)

unfoldable mutual
  unfolding smatch_step alts_step estrchr

  pub smatch_at : ℕ → Bytes → Cursor → Bytes → Option Bool
  smatch_at zero p cur s = none
  smatch_at (suc fuel) [] cur s = some (is_spent s)
  smatch_at (suc fuel) (x ∷ p) cur s = smatch_step (smatch_at fuel) (wmatch fuel) x p cur s

  pub wmatch : ℕ → Bytes → Bytes → Option Bool
  wmatch zero wlist word = none
  wmatch (suc fuel) wlist word =
      alts_step (λ alt. smatch_at fuel alt none word) (λ others. wmatch fuel others word) wlist
        (estrchr wlist b'|')

-- `SMatch(s, pattern)`.
unfoldable pub smatch : Bytes → Bytes → Option Bool
unfolding smatch_at
smatch s pattern = smatch_at (length pattern + 1) pattern none s
