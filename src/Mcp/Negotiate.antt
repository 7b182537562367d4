-- ===== src/Mcp/Negotiate.antt =====
-- internal/mcp/frame.go from handleInit on: the opening message, and what a client says that it can
-- do. Random keys and tags are arguments; the lines for Send are a part of the result.
use Prim.Native.Nat.{ℕ, suc}
use mathlib.Core.Bool.{true, not}
use mathlib.Core.List.{List, [], ◌∷◌, ◌++◌}
use mathlib.Core.Option.{Option, none, some}
use fuzzball_emerald.Prelude.{if◌then◌else◌, Bytes, codes}
use fuzzball_emerald.Ascii.{fold, equal_fold}
use fuzzball_emerald.Mcp.{
  Version, Arg, Message, init_package, negotiate_package, arg_value, new_message,
}
use fuzzball_emerald.Mcp.Lex.{◌>>=◌}
use fuzzball_emerald.Mcp.Frames.{Frame, Package, or_empty}
use fuzzball_emerald.Mcp.Send.{Sent, sent, send_message, is_zero}
use fuzzball_emerald.Mcp.Versions.{select_version, parse_version, print_version}

abbrev pub server_version : Version
server_version = record { major = 2; minor = 1 }

abbrev pub arg : Bytes → Bytes → Arg
arg name value = record { name = name; lines = value ∷ [] }

abbrev pub with_args : Bytes → Bytes → List Arg → Message
with_args pkg name l = record (new_message pkg name) { args = l }

-- An error of sendMessage is dropped.
abbrev pub sent_lines : Sent → List Bytes
sent_lines (sent l) = l
sent_lines _ = []

-- The reply to an opening message that brings no key.
abbrev pub opening : Bytes → Message
opening key = with_args init_package [] (
    arg (codes "version") (print_version server_version)
    ∷ arg (codes "to") (print_version server_version)
    ∷ arg (codes "authentication-key") key
    ∷ [])

abbrev pub offer : Package → Message
offer p = with_args negotiate_package (codes "can") (
    arg (codes "package") p.name
    ∷ arg (codes "min-version") (print_version p.min_ver)
    ∷ arg (codes "max-version") (print_version p.max_ver)
    ∷ [])

-- The last package of the registry is offered first.
unfoldable pub offers : Frame → (ℕ → Bytes) → ℕ → List Package → List Bytes
offers f tags n [] = []
offers f tags n (p ∷ ps) =
    offers f tags (suc n) ps
    ++ (if equal_fold p.name init_package
        then []
        else sent_lines (send_message f (tags n) (offer p)))

-- A range of versions, of which the upper end may be left out.
abbrev pub upper : Version → Option Bytes → Option (Version × Version)
upper low none = some (low, low)
upper low (some s) = do high ← parse_version s; some (low, high)

unfoldable pub range_of : Bytes → Bytes → List Arg → Option (Version × Version)
range_of low high l = do v ← parse_version (or_empty (arg_value low l)); upper v (arg_value high l)

abbrev pub take_key : Frame → Bytes → Bytes → Option Bytes → Frame × List Bytes
take_key f key tag (some k) = (record f { auth_key = k }, [])
take_key f key tag none =
    let g = record f { auth_key = key } in (g, sent_lines (send_message g tag (opening key)))

abbrev pub enable : Frame → (ℕ → Bytes) → List Bytes → Version → Frame × List Bytes
enable f tags out v =
    let g = record f { version = v; enabled = true } in
    if is_zero v then (record f { version = v }, out) else (
      g,
      (out ++ offers g tags 2 f.registry)
          ++ sent_lines (send_message g (tags 1) (new_message negotiate_package (codes "end"))),
    )

abbrev pub settle :
    (ℕ → Bytes) → Option (Version × Version) → Frame × List Bytes → Frame × List Bytes
settle tags none (f, out) = (f, out)
settle tags (some (low, high)) (f, out) =
    enable f tags out (select_version server_version server_version low high)

abbrev pub with_name : Bytes → Frame × List Bytes → Frame × List Bytes → Frame × List Bytes
with_name [] r other = r
with_name (c ∷ s) r other = other

unfoldable pub handle_init : Frame → Bytes → (ℕ → Bytes) → Message → Frame × List Bytes
handle_init f key tags m =
    with_name m.name
      (settle tags (range_of (codes "version") (codes "to") m.args)
        (take_key f key (tags 0) (arg_value (codes "authentication-key") m.args)))
      (f, [])

unfoldable pub find_package : Bytes → List Package → Option Package
find_package name [] = none
find_package name (p ∷ ps) = if equal_fold p.name name then some p else find_package name ps

abbrev pub agree : Bytes → Version → Frame → Frame
agree pkg v f = record f { packages = (fold pkg, v) ∷ f.packages }

abbrev pub record_best : Frame → Bytes → Option (Version × Version) → Option Package → Frame
record_best f pkg none p = f
record_best f pkg (some r) none = f
record_best f pkg (some (low, high)) (some p) =
    let v = select_version p.min_ver p.max_ver low high in if is_zero v then f else agree pkg v f

abbrev pub record_named : Frame → List Arg → Option Bytes → Frame
record_named f l none = f
record_named f l (some pkg) =
    record_best f pkg (range_of (codes "min-version") (codes "max-version") l)
      (find_package pkg f.registry)

unfoldable pub negotiate_handler : Frame → Message → Frame
negotiate_handler f m =
    if not (equal_fold m.name (codes "can"))
    then f
    else record_named f m.args (arg_value (codes "package") m.args)

-- The frame passes for enabled while it sends.
unfoldable pub start_negotiation : Frame → Bytes → List Bytes
start_negotiation f tag = sent_lines (
    send_message (record f { enabled = true }) tag
      (with_args init_package [] (
        arg (codes "version") (print_version server_version)
        ∷ arg (codes "to") (print_version server_version)
        ∷ [])))
