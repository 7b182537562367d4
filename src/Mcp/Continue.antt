-- ===== src/Mcp/Continue.antt =====
-- The lines behind the first one of a message (parseContinuation, parseEnd).
use mathlib.Core.Path.{◌≡◌, refl, sym, ap, ◌∙◌}
use mathlib.Core.Bool.{true, false}
use mathlib.Core.List.{List, [], ◌∷◌, ◌++◌, map, append_assoc, append-nil}
use mathlib.Core.Option.{some, none}
use fuzzball_emerald.Prelude.{Bytes, bytes_eq_iff, All}
use fuzzball_emerald.Mcp.{Arg, Message, add_line}
use fuzzball_emerald.Mcp.Lex.{
  is_simple_char, IsIdent, IsSimple, read_unquoted, read_ident-append, read_unquoted-append,
}
use fuzzball_emerald.Mcp.Frames.{Frame, parse, parse_continuation, parse_end, find, erase}
use fuzzball_emerald.Mcp.Send.{value_line, value_lines, end_line}
use fuzzball_emerald.Mcp.Args.{add_lines, fill}
use fuzzball_emerald.Mcp.Reads.{skip_space-simple, skip_space-ident, skip_space-value, colon-ends}
use fuzzball_emerald.Mcp.Start.{receive, receive-part, receive-last}

space_ends_value : is_simple_char b' ' ≡ false
unfolding is_simple_char
space_ends_value = refl

find-first {ℓ} :
    {V : Type ℓ} (k : Bytes) (v : V) (l : List (Bytes × V)) → find k ((k, v) ∷ l) ≡ some v
unfolding find
find-first k v l = rw ((bytes_eq_iff k k).1 refl) refl

erase-first {ℓ} :
    {V : Type ℓ} (k : Bytes) (v : V) (l : List (Bytes × V)) → erase k ((k, v) ∷ l) ≡ erase k l
unfolding erase
erase-first k v l = rw ((bytes_eq_iff k k).1 refl) refl

-- A frame in the middle of a message, which it holds with some arguments so far.
abbrev pub waiting : Frame → Bytes → Message → List Arg → List (Bytes × Message) → Frame
waiting g tag m l others = record g { partial = (tag, record m { args = l }) ∷ others }

parse-value :
    (g : Frame) (tag name v : Bytes) (m : Message) (l : List Arg) (others : List (Bytes × Message))
    → IsSimple tag
    → IsIdent name
    → parse (waiting g tag m l others) (b'*' ∷ b' ' ∷ tag ++ (b' ' ∷ name ++ (b':' ∷ b' ' ∷ v)))
      ≡ some (waiting g tag m (add_line name v l) ((tag, record m { args = l }) ∷ others), none)
unfolding parse parse_continuation
parse-value g tag name v m l others h i =
    rw
      (
        skip_space-simple tag (b' ' ∷ name ++ (b':' ∷ b' ' ∷ v)) h,
        read_unquoted-append tag (b' ' ∷ name ++ (b':' ∷ b' ' ∷ v)) h space_ends_value,
        skip_space-ident name (b':' ∷ b' ' ∷ v) i,
        read_ident-append name (b':' ∷ b' ' ∷ v) i colon-ends,
        find-first tag (record m { args = l }) others,
      )
      refl

parse-end :
    (g : Frame) (tag : Bytes) (m : Message) (l : List Arg) (others : List (Bytes × Message))
    → IsSimple tag
    → parse (waiting g tag m l others) (b':' ∷ b' ' ∷ tag)
      ≡ some (
        record g { partial = erase tag others },
        some (record m { args = l; incomplete = false }),
      )
unfolding parse parse_continuation parse_end
parse-end g tag m l others h =
    rw
      (
        skip_space-value tag h,
        ap read_unquoted (sym (append-nil tag)) ∙ read_unquoted-append tag [] h tt,
        find-first tag (record m { args = l }) others,
        erase-first tag (record m { args = l }) others,
      )
      refl

-- What lines have left behind: the message that is held has these arguments, and the map holds
-- nothing else that was not there, under other tags.
abbrev pub Leads :
    Frame
    → Bytes
    → Message
    → List Arg
    → List (Bytes × Message)
    → List Bytes
    → List Bytes
    → List Arg
    → Type 0
Leads g tag m l others ls rest k =
    (o : List (Bytes × Message)) × (erase tag o ≡ erase tag others)
    × (receive (waiting g tag m l others) ls ≡ receive (waiting g tag m k o) rest)

receive-value_line :
    (g : Frame) (tag name v : Bytes) (m : Message) (l : List Arg) (others : List (Bytes × Message))
    (ls : List Bytes)
    → g.enabled ≡ true
    → IsSimple tag
    → IsIdent name
    → receive (waiting g tag m l others) (value_line tag name v ∷ ls)
      ≡ receive (waiting g tag m (add_line name v l) ((tag, record m { args = l }) ∷ others)) ls
unfolding value_line
receive-value_line g tag name v m l others ls e h i =
    receive-part (waiting g tag m l others) _ _ ls e (parse-value g tag name v m l others h i)

receive-values :
    (g : Frame) (tag name : Bytes) (vs : List Bytes) (m : Message) (l : List Arg)
    (others : List (Bytes × Message)) (rest : List Bytes)
    → g.enabled ≡ true
    → IsSimple tag
    → IsIdent name
    → Leads g tag m l others (map (value_line tag name) vs ++ rest) rest (add_lines name vs l)
unfolding add_lines
receive-values g tag name [] m l others rest e h i = (others, refl, refl)
receive-values g tag name (v ∷ vs) m l others rest e h i =
    let held = (tag, record m { args = l }) ∷ others in
    let (o, same, ends) = receive-values g tag name vs m (add_line name v l) held rest e h i in
    let step =
      receive-value_line g tag name v m l others (map (value_line tag name) vs ++ rest) e h i in
    (o, same ∙ erase-first tag (record m { args = l }) others, step ∙ ends)

-- The lines of all deferred arguments fill them in.
pub receive-value_lines :
    (g : Frame) (tag : Bytes) (d : List Arg) (m : Message) (l : List Arg)
    (others : List (Bytes × Message)) (rest : List Bytes)
    → g.enabled ≡ true
    → IsSimple tag
    → All (λ a. IsIdent a.name) d
    → Leads g tag m l others (value_lines tag d ++ rest) rest (fill d l)
unfolding value_lines fill
receive-value_lines g tag [] m l others rest e h i = (others, refl, refl)
receive-value_lines g tag (a ∷ d) m l others rest e h i =
    let now = map (value_line tag a.name) a.lines in
    let later = value_lines tag d ++ rest in
    let (o, same, ends) = receive-values g tag a.name a.lines m l others later e h i.0 in
    let (p, same', ends') =
      receive-value_lines g tag d m (add_lines a.name a.lines l) o rest e h i.1 in
    let split =
      ap (receive (waiting g tag m l others)) (append_assoc now (value_lines tag d) rest) in
    (p, same' ∙ same, split ∙ ends ∙ ends')

pub receive-end_line :
    (g : Frame) (tag : Bytes) (m : Message) (l : List Arg) (others : List (Bytes × Message))
    → g.enabled ≡ true
    → IsSimple tag
    → receive (waiting g tag m l others) (end_line tag ∷ [])
      ≡ some
          (record g { partial = erase tag others }, record m { args = l; incomplete = false } ∷ [])
unfolding end_line
receive-end_line g tag m l others e h =
    receive-last (waiting g tag m l others) _ _ _ e (parse-end g tag m l others h)
