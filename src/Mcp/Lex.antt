-- ===== src/Mcp/Lex.antt =====
-- internal/mcp/lex.go: the readers of tokens, each with what is left of the line, and the quoting of
-- values (escapeArg of mcp.go).
use Prim.Native.Nat.{ℕ}
use mathlib.Core.Path.{◌≡◌, refl}
use mathlib.Core.Bool.{Bool, true, false, not, ◌&&◌, ◌||◌}
use mathlib.Core.List.{[], ◌∷◌, ◌++◌}
use mathlib.Core.Option.{Option, none, some}
use fuzzball_emerald.Prelude.{◌==◌, leb, ltb, if◌then◌else◌, Bytes, arith, All}
use fuzzball_emerald.Prelude.Space.{is_space, trim_left}

infixl 5 ◌>>=◌
abbrev pub ◌>>=◌ {ℓ κ} : {A : Type ℓ} {B : Type κ} → Option A → (A → Option B) → Option B
◌>>=◌ none k = none
◌>>=◌ (some a) k = k a

abbrev pub Token : Type 0
Token = Option (Bytes × Bytes)

abbrev pub with_byte : ℕ → Token → Token
with_byte c none = none
with_byte c (some (t, rest)) = some (c ∷ t, rest)

unfoldable pub is_ident_start : ℕ → Bool
is_ident_start c = (leb b'a' c && leb c b'z') || (leb b'A' c && leb c b'Z') || c == b'_'

unfoldable pub is_ident_char : ℕ → Bool
unfolding is_ident_start
is_ident_char c = is_ident_start c || (leb b'0' c && leb c b'9') || c == b'-'

unfoldable pub is_simple_char : ℕ → Bool
is_simple_char c =
    not (c == b'*' || c == b':' || c == 92 || c == 34 || c == 32) && ltb 32 c && ltb c 127

-- The longest beginning whose bytes all pass.
unfoldable pub span : (ℕ → Bool) → Bytes → Bytes × Bytes
span test [] = ([], [])
span test (c ∷ s) = if test c then (let (t, rest) = span test s in (c ∷ t, rest)) else ([], c ∷ s)

unfoldable pub read_ident : Bytes → Token
unfolding is_ident_start is_ident_char span
read_ident [] = none
read_ident (c ∷ s) =
    if is_ident_start c then (let (t, rest) = span is_ident_char s in some (c ∷ t, rest)) else none

abbrev pub unless_empty : Bytes × Bytes → Token
unless_empty ([], rest) = none
unless_empty (c ∷ t, rest) = some (c ∷ t, rest)

unfoldable pub read_unquoted : Bytes → Token
unfolding is_simple_char span
read_unquoted s = unless_empty (span is_simple_char s)

-- Behind the opening quote; `escaped` is that a backslash came before.
unfoldable pub quoted_body : (escaped : Bool) → Bytes → Token
quoted_body escaped [] = none
quoted_body true (c ∷ s) = with_byte c (quoted_body false s)
quoted_body false (c ∷ s) =
    let next = quoted_body true s in
    let rest = with_byte c (quoted_body false s) in
    if c == 92 then next else if c == 34 then some ([], s) else rest

unfoldable pub read_quoted : Bytes → Token
unfolding quoted_body
read_quoted [] = none
read_quoted (c ∷ s) = if c == 34 then quoted_body false s else none

unfoldable pub skip_space : Bytes → Option Bytes
unfolding trim_left is_space
skip_space [] = none
skip_space (c ∷ s) = if is_space c then some (trim_left s) else none

unfoldable pub escape_body : Bytes → Bytes
escape_body [] = 34 ∷ []
escape_body (c ∷ s) = if c == 34 || c == 92 then 92 ∷ c ∷ escape_body s else c ∷ escape_body s

unfoldable pub escape_arg : Bytes → Bytes
unfolding escape_body
escape_arg s = 34 ∷ escape_body s

-- What follows one given byte.
abbrev pub after : ℕ → Bytes → Option Bytes
after b [] = none
after b (c ∷ s) = if c == b then some s else none

-- What follows a given text, by `strings.HasPrefix` and a slice.
unfoldable pub after_text : Bytes → Bytes → Option Bytes
after_text [] s = some s
after_text (b ∷ p) [] = none
after_text (b ∷ p) (c ∷ s) = if c == b then after_text p s else none

-- A quoted value is read back, whatever stands behind it.
pub quoted_body-escape_body :
    (s rest : Bytes) → quoted_body false (escape_body s ++ rest) ≡ some (s, rest)
unfolding quoted_body escape_body
quoted_body-escape_body [] rest = refl
quoted_body-escape_body (c ∷ s) rest = ground (arith, quoted_body-escape_body s rest)

pub read_quoted-escape_arg : (s rest : Bytes) → read_quoted (escape_arg s ++ rest) ≡ some (s, rest)
unfolding read_quoted escape_arg
read_quoted-escape_arg s rest = quoted_body-escape_body s rest

pub read_unquoted-escape_arg : (s rest : Bytes) → read_unquoted (escape_arg s ++ rest) ≡ none
unfolding read_unquoted escape_arg
read_unquoted-escape_arg s rest = refl

-- What ends a token: the end of the line, or a byte that the token cannot have.
abbrev pub Ends : (ℕ → Bool) → Bytes → Type 0
Ends test [] = Unit
Ends test (c ∷ s) = test c ≡ false

abbrev pub AllBytes : (ℕ → Bool) → Bytes → Type 0
AllBytes test = All (λ c. test c ≡ true)

pub span-append :
    (test : ℕ → Bool) (t rest : Bytes)
    → AllBytes test t
    → Ends test rest
    → span test (t ++ rest) ≡ (t, rest)
unfolding span
span-append test [] [] h e = refl
span-append test [] (c ∷ s) h e = rw e refl
span-append test (c ∷ t) rest h e = rw (h.0, span-append test t rest h.1 e) refl

-- A name that the reader of names reads whole.
pub data IsIdent : Bytes → Type 0 where
  ident : (c : ℕ) (t : Bytes) → is_ident_start c ≡ true → AllBytes is_ident_char t → IsIdent (c ∷ t)

pub read_ident-append :
    (t rest : Bytes) → IsIdent t → Ends is_ident_char rest → read_ident (t ++ rest) ≡ some (t, rest)
unfolding read_ident
read_ident-append t rest (ident c s h k) e = rw (h, span-append is_ident_char s rest k e) refl

-- A value that needs no quotes.
pub data IsSimple : Bytes → Type 0 where
  simple : (c : ℕ) (t : Bytes) → AllBytes is_simple_char (c ∷ t) → IsSimple (c ∷ t)

pub read_unquoted-append :
    (t rest : Bytes)
    → IsSimple t
    → Ends is_simple_char rest
    → read_unquoted (t ++ rest) ≡ some (t, rest)
unfolding read_unquoted
read_unquoted-append t rest (simple c s h) e = rw (span-append is_simple_char (c ∷ s) rest h e) refl
