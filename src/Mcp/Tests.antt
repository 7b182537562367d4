-- ===== src/Mcp/Tests.antt =====
-- Runs of the protocol, and the theorems on it at concrete messages.
use Prim.Native.Nat.{ℕ}
use mathlib.Core.Path.{◌≡◌, refl}
use mathlib.Core.Bool.{Bool, true, false, ◌&&◌, ◌||◌}
use mathlib.Core.List.{List, [], ◌∷◌, ◌++◌, map}
use mathlib.Core.Option.{some}
use fuzzball_emerald.Prelude.{Bytes, arith, codes, ◌⊎◌}
use fuzzball_emerald.Ascii.{equal_fold, equal_loop, has_prefix, lower, fold}
use fuzzball_emerald.Mcp.{Version, Message, quote_prefix, arg_value}
use fuzzball_emerald.Mcp.Lex.{
  read_quoted, escape_arg, read_quoted-escape_arg, is_ident_start, is_ident_char, is_simple_char,
  ident, simple, span, AllBytes, IsIdent, after_text,
}
use fuzzball_emerald.Mcp.Frames.{
  Frame, supports, find, split_package, longest_name, read_keyvals, read_line, text, Package,
}
use fuzzball_emerald.Mcp.Send.{
  sent, send_message, message_lines, write_args, write_arg, is_deferred, deferred, split_lines,
  split_text, unix_ends, value_lines, value_line, end_line, tag_arg, split_arg, send_inband,
}
use fuzzball_emerald.Mcp.Versions.{
  select_version, parse_version, leading_digits, null_version, less, IsHighest, Both,
  select_version-IsHighest,
}
use fuzzball_emerald.Mcp.Frames.{Arguments}
use fuzzball_emerald.Mcp.Fuel.{EndsWith, read_keyvals-total}
use fuzzball_emerald.Mcp.Negotiate.{with_args, arg, range_of, handle_init}
use fuzzball_emerald.Mcp.Agreed.{standing, covers, version_after, key_after, handle_init-standing}
use fuzzball_emerald.Prelude.Decimal.{parse_int, parse_uint, digits_value}
use fuzzball_emerald.Mcp.Inband.{unquoted, send_inband-read_line}
use fuzzball_emerald.Mcp.Start.{receive}
use fuzzball_emerald.Mcp.Arrives.{left, arrived, send_message-receive}

abbrev one : Version
one = record { major = 1; minor = 0 }

abbrev two : Version
two = record { major = 2; minor = 1 }

abbrev notify : Bytes
notify = codes "org-fuzzball-notify"

-- A client and a server that know one package.
abbrev peer : Frame
peer = record {
  enabled = true;
  auth_key = codes "12ab";
  version = two;
  packages = (notify, one) ∷ [];
  partial = [];
  registry = (record { name = notify; min_ver = one; max_ver = one }) ∷ [];
}

-- One value with a quote in it, and one of two lines.
abbrev warning : Message
warning = record {
  pkg = notify;
  name = codes "error";
  args =
      (record { name = codes "topic"; lines = codes "a \"b" ∷ [] })
      ∷ (record { name = codes "text"; lines = codes "x" ∷ codes " y" ∷ [] })
      ∷ [];
  data_tag = [];
  incomplete = false;
}

written :
    send_message peer (codes "77") warning
    ≡ sent (
        codes "#$#org-fuzzball-notify-error 12ab topic: \"a \\\"b\" text*: \"\" _data-tag: 77"
        ∷ codes "#$#* 77 text: x"
        ∷ codes "#$#* 77 text:  y"
        ∷ codes "#$#: 77"
        ∷ [])
unfolding send_message supports find fold lower equal_fold equal_loop message_lines write_args
    write_arg is_deferred deferred split_lines split_text unix_ends escape_arg value_lines
    value_line end_line tag_arg
written = refl

every : (ℕ → Bool) → Bytes → Bool
every test [] = true
every test (c ∷ s) = test c && every test s

every-AllBytes : (test : ℕ → Bool) (s : Bytes) → every test s ≡ true → AllBytes test s
unfolding every
every-AllBytes test [] h = tt
every-AllBytes test (c ∷ s) h = (ground arith, every-AllBytes test s (ground arith))

topic-IsIdent : IsIdent (codes "topic")
unfolding is_ident_start is_ident_char every
topic-IsIdent = ident _ _ refl (every-AllBytes is_ident_char (codes "opic") refl)

text-IsIdent : IsIdent (codes "text")
unfolding is_ident_start is_ident_char every
text-IsIdent = ident _ _ refl (every-AllBytes is_ident_char (codes "ext") refl)

split_peer : split_package peer (codes "org-fuzzball-notify-error") ≡ some (notify, codes "error")
unfolding split_package has_prefix longest_name equal_fold equal_loop lower
split_peer = refl

read_quoted-escape_arg_example :
    read_quoted (escape_arg (codes "a \"b\\") ++ codes " x: y")
    ≡ some (codes "a \"b\\", codes " x: y")
read_quoted-escape_arg_example = read_quoted-escape_arg (codes "a \"b\\") (codes " x: y")

send_message-receive_example :
    (lines : List Bytes) × (send_message peer (codes "77") warning ≡ sent lines)
    × (receive peer lines
        ≡ some (
          left (codes "77") (deferred (map split_arg warning.args)) peer,
          arrived (codes "77") warning ∷ [],
        ))
unfolding supports find fold lower equal_fold equal_loop is_ident_start is_ident_char is_simple_char
    every
send_message-receive_example =
    send_message-receive peer peer (codes "77") warning refl refl refl refl
      (
        ident _ _ refl (every-AllBytes is_ident_char (codes "rg-fuzzball-notify-error") refl),
        refl,
        split_peer,
        simple _ _ (refl, (refl, (refl, (refl, tt)))),
      )
      (((topic-IsIdent, tt), ((text-IsIdent, tt), tt)), ((refl, tt), (tt, tt)), (refl, (refl, tt)))
      (simple _ _ (refl, (refl, tt)))

send_inband-read_line_example :
    read_line peer (send_inband peer (codes "#$#mcp"))
    ≡ (peer, text (unquoted (codes "#$#mcp") (after_text quote_prefix (codes "#$#mcp"))))
send_inband-read_line_example = send_inband-read_line peer peer (codes "#$#mcp") refl refl

select_version-IsHighest_example :
    IsHighest (select_version one two one one) (Both one two one one)
    ⊎ ((select_version one two one one ≡ null_version)
        × ((v : Version) → Both one two one one v → ⊥))
unfolding less
select_version-IsHighest_example = select_version-IsHighest one two one one refl refl

read_keyvals-total_example :
    (r : Arguments) × EndsWith r
      (read_keyvals 40 warning (codes " a: \"b\""))
      (read_keyvals 7 warning (codes " a: \"b\""))
read_keyvals-total_example =
    read_keyvals-total 40 7 warning (codes " a: \"b\"") (omega arith) (omega arith)

-- A client that answers with its key and the version 2.1.
abbrev answer : Message
answer =
    with_args (codes "mcp") []
      (arg (codes "version") (codes "2.1") ∷ arg (codes "authentication-key") (codes "k") ∷ [])

handle_init-standing_example :
    standing (handle_init (record peer { enabled = false }) (codes "9") (λ n. []) answer).0 ≡ (
      false || covers (range_of (codes "version") (codes "to") answer.args),
      version_after two (range_of (codes "version") (codes "to") answer.args),
      key_after (codes "9") (arg_value (codes "authentication-key") answer.args),
    )
handle_init-standing_example =
    handle_init-standing (record peer { enabled = false }) (codes "9") (λ n. []) answer refl

enabled_at_last : covers (range_of (codes "version") (codes "to") answer.args) ≡ true
unfolding range_of arg_value equal_fold equal_loop lower parse_version leading_digits span parse_int
    parse_uint digits_value less
enabled_at_last = refl

-- The same package, at versions from 1.0 to 2.1.
abbrev newer : Package
newer = record { name = notify; min_ver = one; max_ver = two }
