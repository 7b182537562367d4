-- ===== src/Boolexp/Runes/Ascii.antt =====
-- The trimming of a text's runes, where it is ASCII at the end that is looked at.
use fuzzball_emerald.Prelude.{
  ℕ, ◌<◌, ◌%◌, ◌≡◌, refl, sym, ap, ◌∙◌, false, [], ◌∷◌, ◌++◌, arith, Bytes, All, All-append, length,
  length-append, IsAscii, lt→ltb,
}
use mathlib.Core.List.{append_assoc, append-nil}
use fuzzball_emerald.Prelude.Space.{is_space, NoSpace}
use fuzzball_emerald.Boolexp.Runes.{
  first_rune, last_rune, drop_front, drop_back, reverse, trim_left_runes, trim_right_runes,
  take_front, until_space,
}

reverse-append : (s t : Bytes) → reverse (s ++ t) ≡ reverse t ++ reverse s
unfolding reverse
reverse-append [] t = sym (append-nil (reverse t))
reverse-append (c ∷ s) t = rw (reverse-append s t) (append_assoc (reverse t) (reverse s) (c ∷ []))

reverse-reverse : (s : Bytes) → reverse (reverse s) ≡ s
unfolding reverse
reverse-reverse [] = refl
reverse-reverse (c ∷ s) = reverse-append (reverse s) (c ∷ []) ∙ ap (λ t. c ∷ t) (reverse-reverse s)

All-reverse : (P : ℕ → Type 0) (s : Bytes) → All P s → All P (reverse s)
unfolding reverse
All-reverse P [] h = tt
All-reverse P (c ∷ s) h = All-append P (reverse s) (c ∷ []) (All-reverse P s h.1) (h.0, tt)

small : (c : ℕ) → c < 128 → c % 256 ≡ c
small c h = omega arith

first_rune-ascii : (c : ℕ) (s : Bytes) → c < 128 → first_rune c s ≡ (c, 1)
unfolding first_rune
first_rune-ascii c s h = rw (lt→ltb c 128 h) refl

last_rune-ascii : (c : ℕ) (s : Bytes) → c < 128 → last_rune c s ≡ (c, 1)
unfolding last_rune
last_rune-ascii c s h = rw (lt→ltb c 128 h) refl

drop_front-stays : (c : ℕ) (s : Bytes) → c < 128 → is_space c ≡ false → drop_front 0 (c ∷ s) ≡ c ∷ s
unfolding drop_front
drop_front-stays c s h e = rw (first_rune-ascii c s h, small c h, e) refl

drop_back-stays : (c : ℕ) (s : Bytes) → c < 128 → is_space c ≡ false → drop_back 0 (c ∷ s) ≡ c ∷ s
unfolding drop_back
drop_back-stays c s h e = rw (last_rune-ascii c s h, small c h, e) refl

pub trim_left_runes-ascii : (s : Bytes) → IsAscii s → NoSpace s → trim_left_runes s ≡ s
unfolding trim_left_runes drop_front
trim_left_runes-ascii [] a h = refl
trim_left_runes-ascii (c ∷ s) a h = drop_front-stays c s a.0 h.0

pub until_space-ascii : (s : Bytes) → IsAscii s → NoSpace s → until_space s ≡ s
unfolding until_space take_front
until_space-ascii [] a h = refl
until_space-ascii (c ∷ s) a h =
    rw (first_rune-ascii c s a.0, small c a.0, h.0, until_space-ascii s a.1 h.1) refl

length-reverse : (s : Bytes) → length (reverse s) ≡ length s
unfolding reverse
length-reverse [] = refl
length-reverse (c ∷ s) = omega (arith, length-append (reverse s) (c ∷ []), length-reverse s)

drop_back-append :
    (w t : Bytes) → 0 < length w → IsAscii w → NoSpace w → drop_back 0 (w ++ t) ≡ w ++ t
drop_back-append [] t h a n = absurd (omega arith)
drop_back-append (c ∷ w) t h a n = drop_back-stays c (w ++ t) a.0 n.0

-- Only the end of the text needs to be ASCII.
pub trim_right_runes-append :
    (u v : Bytes) → 0 < length v → IsAscii v → NoSpace v → trim_right_runes (u ++ v) ≡ u ++ v
unfolding trim_right_runes
trim_right_runes-append u v h a n =
    let turned = reverse-append u v in
    let long : 0 < length (reverse v) = omega (arith, length-reverse v) in
    let kept =
      drop_back-append (reverse v) (reverse u) long (All-reverse _ v a) (All-reverse _ v n) in
    ap (λ t. reverse (drop_back 0 t)) turned
    ∙ ap reverse (kept ∙ sym turned)
    ∙ reverse-reverse (u ++ v)
