-- ===== src/Mcp/Inband.antt =====
-- Ordinary text to a connection that has MCP (SendInband of send.go), and what a reader of the same
-- protocol makes of it.
use mathlib.Core.Path.{◌≡◌, refl}
use mathlib.Core.Bool.{true}
use mathlib.Core.List.{[], ◌∷◌, ◌++◌}
use mathlib.Core.Option.{Option, none, some}
use fuzzball_emerald.Prelude.{Bytes, arith, Option-cases, inl, inr}
use fuzzball_emerald.Mcp.{prefix, quote_prefix}
use fuzzball_emerald.Mcp.Lex.{after_text}
use fuzzball_emerald.Mcp.Frames.{Frame, text, read_text, read_line}
use fuzzball_emerald.Mcp.Send.{send_inband}

-- A line without the quote prefix, where it begins with that.
abbrev pub unquoted : Bytes → Option Bytes → Bytes
unquoted line none = line
unquoted line (some s) = s

one_prefix :
    (line s : Bytes) → after_text prefix line ≡ some s → after_text quote_prefix line ≡ none
unfolding after_text
one_prefix [] s h = refl
one_prefix (b ∷ []) s h = ground arith
one_prefix (b ∷ c ∷ []) s h = ground arith
one_prefix (b ∷ c ∷ d ∷ r) s h = ground arith

read_text_lem :
    (g : Frame) (line : Bytes) (o : Option Bytes)
    → g.enabled ≡ true
    → read_text g line o ≡ (g, text (unquoted line o))
read_text_lem g line none e = refl
read_text_lem g line (some s) e = rw e refl

quoted_read :
    (g : Frame) (line : Bytes)
    → g.enabled ≡ true
    → read_line g (quote_prefix ++ line) ≡ (g, text line)
unfolding read_line after_text
quoted_read g line e = rw e refl

-- What is sent to a connection that has MCP as ordinary text is never read as a part of a message:
-- the other end reads the text back, but for a text that begins with the quote prefix itself, which
-- is sent as it is, and from which the other end strips that.
pub send_inband-read_line :
    (f g : Frame) (line : Bytes)
    → f.enabled ≡ true
    → g.enabled ≡ true
    → read_line g (send_inband f line) ≡ (g, text (unquoted line (after_text quote_prefix line)))
unfolding send_inband read_line
send_inband-read_line f g line e e' = elim (Option-cases (after_text prefix line)) [
  | inl h ↦ rw (e, h, h) (read_text_lem g line (after_text quote_prefix line) e')
  | inr (s, h) ↦ rw (e, h, one_prefix line s h) (quoted_read g line e')
]
