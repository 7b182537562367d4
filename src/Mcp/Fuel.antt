-- ===== src/Mcp/Fuel.antt =====
-- How much of a line each reader leaves (lex.go, and the loop of parseStart in frame.go).
use Prim.Native.Nat.{ℕ, zero, suc, ◌≤◌}
use mathlib.Core.Path.{◌≡◌, refl}
use mathlib.Core.Bool.{Bool, true, false}
use mathlib.Core.List.{[], ◌∷◌}
use mathlib.Core.Option.{Option, some, none}
use fuzzball_emerald.Prelude.{Bytes, arith, Bool-cases, inl, inr, length, ◌==◌}
use fuzzball_emerald.Prelude.Space.{is_space, length-trim_left}
use fuzzball_emerald.Mcp.{Message}
use fuzzball_emerald.Mcp.Lex.{
  ◌>>=◌, Token, with_byte, is_ident_start, is_ident_char, is_simple_char, span, read_ident,
  unless_empty, read_unquoted, quoted_body, read_quoted, skip_space, after,
}
use fuzzball_emerald.Mcp.Frames.{
  read_star, else_quoted, read_value, read_keyval, read_keyvals, Arguments, out_of_fuel, no_message,
  all_read, read_on,
}
use fuzzball_emerald.Mcp.Heads.{read_keyvals-nil}

-- What a reader leaves, if it reads anything, is not longer than that.
abbrev pub Leaves {ℓ} : {A : Type ℓ} → (A → ℕ) → ℕ → Option A → Type 0
Leaves size n none = Unit
Leaves size n (some a) = size a ≤ n

abbrev pub rest_size {ℓ} : {A : Type ℓ} → A × Bytes → ℕ
rest_size r = length r.1

Leaves-then {ℓ κ} :
    {A : Type ℓ} {B : Type κ} (f : A → ℕ) (g : B → ℕ) (n k : ℕ) (o : Option A) (next : A → Option B)
    → Leaves f n o
    → ((a : A) → f a ≤ n → Leaves g k (next a))
    → Leaves g k (o >>= next)
Leaves-then f g n k none next h c = tt
Leaves-then f g n k (some a) next h c = c a h

length-span : (test : ℕ → Bool) (s : Bytes) → length (span test s).1 ≤ length s
unfolding span
length-span test [] = omega arith
length-span test (c ∷ s) = elim (Bool-cases (test c)) [
  | inl e ↦ rw e (omega (arith, length-span test s))
  | inr e ↦ rw e (omega arith)
]

skip_space-Leaves : (s : Bytes) (n : ℕ) → length s ≤ suc n → Leaves length n (skip_space s)
unfolding skip_space
skip_space-Leaves [] n h = tt
skip_space-Leaves (c ∷ s) n h = elim (Bool-cases (is_space c)) [
  | inl e ↦ rw e (omega (arith, length-trim_left s))
  | inr e ↦ rw e tt
]

after-Leaves : (b : ℕ) (s : Bytes) (n : ℕ) → length s ≤ n → Leaves length n (after b s)
after-Leaves b [] n h = tt
after-Leaves b (c ∷ s) n h = elim (Bool-cases (c == b)) [
  | inl e ↦ rw e (omega arith)
  | inr e ↦ rw e tt
]

read_ident-Leaves : (s : Bytes) (n : ℕ) → length s ≤ n → Leaves rest_size n (read_ident s)
unfolding read_ident
read_ident-Leaves [] n h = tt
read_ident-Leaves (c ∷ s) n h = elim (Bool-cases (is_ident_start c)) [
  | inl e ↦ rw e (omega (arith, length-span is_ident_char s))
  | inr e ↦ rw e tt
]

unless_empty-Leaves :
    (r : Bytes × Bytes) (n : ℕ) → length r.1 ≤ n → Leaves rest_size n (unless_empty r)
unless_empty-Leaves ([], rest) n h = tt
unless_empty-Leaves (c ∷ t, rest) n h = h

with_byte-Leaves : (c n : ℕ) (r : Token) → Leaves rest_size n r → Leaves rest_size n (with_byte c r)
with_byte-Leaves c n none h = tt
with_byte-Leaves c n (some (t, rest)) h = h

quoted_body-Leaves :
    (b : Bool) (s : Bytes) (n : ℕ) → length s ≤ n → Leaves rest_size n (quoted_body b s)
unfolding quoted_body
quoted_body-Leaves true [] n h = tt
quoted_body-Leaves false [] n h = tt
quoted_body-Leaves true (c ∷ s) n h =
    with_byte-Leaves c n (quoted_body false s) (quoted_body-Leaves false s n (omega arith))
quoted_body-Leaves false (c ∷ s) n h =
    let next = quoted_body-Leaves true s n (omega arith) in
    let rest =
      with_byte-Leaves c n (quoted_body false s) (quoted_body-Leaves false s n (omega arith)) in
    elim (Bool-cases (c == 92)) [
      | inl e ↦ rw e next
      | inr e ↦
          rw e (elim (Bool-cases (c == 34)) [ inl q ↦ rw q (omega arith) | inr q ↦ rw q rest ])
    ]

read_quoted-Leaves : (s : Bytes) (n : ℕ) → length s ≤ n → Leaves rest_size n (read_quoted s)
unfolding read_quoted
read_quoted-Leaves [] n h = tt
read_quoted-Leaves (c ∷ s) n h =
    let body = quoted_body-Leaves false s n (omega arith) in
    elim (Bool-cases (c == 34)) [ inl e ↦ rw e body | inr e ↦ rw e tt ]

else_quoted-Leaves :
    (s : Bytes) (n : ℕ) (r : Token)
    → length s ≤ n
    → Leaves rest_size n r
    → Leaves rest_size n (else_quoted s r)
else_quoted-Leaves s n none h k = read_quoted-Leaves s n h
else_quoted-Leaves s n (some t) h k = k

read_value-Leaves : (s : Bytes) (n : ℕ) → length s ≤ n → Leaves rest_size n (read_value s)
unfolding read_unquoted
read_value-Leaves s n h =
    else_quoted-Leaves s n (read_unquoted s) h
      (unless_empty-Leaves (span is_simple_char s) n (omega (arith, length-span is_simple_char s)))

read_star-shorter : (s : Bytes) → length (read_star s).1 ≤ length s
read_star-shorter [] = omega arith
read_star-shorter (c ∷ s) = elim (Bool-cases (c == 42)) [
  | inl e ↦ rw e (omega arith)
  | inr e ↦ rw e (omega arith)
]

-- One argument takes a byte at least.
read_keyval-Leaves :
    (m : Message) (s : Bytes) (n : ℕ) → length s ≤ suc n → Leaves rest_size n (read_keyval m s)
unfolding read_keyval
read_keyval-Leaves m s n h =
    Leaves-then rest_size rest_size n n (skip_space s >>= read_ident) _
      (Leaves-then length rest_size n n (skip_space s) read_ident (skip_space-Leaves s n h)
        (λ r k. read_ident-Leaves r n k))
      (λ key k.
        let star = read_star key.1 in
        let short : length star.1 ≤ n = omega (arith, read_star-shorter key.1) in
        Leaves-then rest_size rest_size n n (after b':' star.1 >>= skip_space >>= read_value) _
          (Leaves-then length rest_size n n (after b':' star.1 >>= skip_space) read_value
            (Leaves-then length length n n (after b':' star.1) skip_space
              (after-Leaves b':' star.1 n short) (λ r j. skip_space-Leaves r n (omega arith)))
            (λ r j. read_value-Leaves r n j))
          (λ v j. j))

-- An end of the loop that is not that of its fuel.
abbrev pub IsEnd : Arguments → Type 0
IsEnd out_of_fuel = ⊥
IsEnd no_message = Unit
IsEnd (all_read m) = Unit

-- Two runs of the loop have this one end.
abbrev pub EndsWith : Arguments → Arguments → Arguments → Type 0
EndsWith r a b = IsEnd r × (a ≡ r) × (b ≡ r)

read_on-EndsWith :
    (n k : ℕ) (o : Option (Message × Bytes)) (f g : Message → Bytes → Arguments)
    → Leaves rest_size n o
    → Leaves rest_size k o
    → ((m : Message) (s : Bytes)
        → length s ≤ n
        → length s ≤ k
        → (r : Arguments) × EndsWith r (f m s) (g m s))
    → (r : Arguments) × EndsWith r (read_on f o) (read_on g o)
read_on-EndsWith n k none f g h j e = (no_message, (tt, refl, refl))
read_on-EndsWith n k (some (m, s)) f g h j e = e m s h j

-- The loop over a line's arguments ends on every line, with a message or with an argument that is
-- none, and never by its fuel, which is the length of what is left of the line; with more fuel it
-- ends the same way.
pub read_keyvals-total :
    (n k : ℕ) (m : Message) (s : Bytes)
    → length s ≤ n
    → length s ≤ k
    → (r : Arguments) × EndsWith r (read_keyvals n m s) (read_keyvals k m s)
unfolding read_keyvals
read_keyvals-total n k m [] h j = (all_read m, (tt, read_keyvals-nil n m, read_keyvals-nil k m))
read_keyvals-total zero k m (c ∷ s) h j = absurd (omega arith)
read_keyvals-total (suc n) zero m (c ∷ s) h j = absurd (omega arith)
read_keyvals-total (suc n) (suc k) m (c ∷ s) h j =
    read_on-EndsWith n k (read_keyval m (c ∷ s)) (read_keyvals n) (read_keyvals k)
      (read_keyval-Leaves m (c ∷ s) n h) (read_keyval-Leaves m (c ∷ s) k j)
      (λ w r p q. read_keyvals-total n k w r p q)
