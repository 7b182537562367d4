-- ===== src/Session/Telnet.antt =====
-- internal/session/telnet.go: the decoder of the line protocol. Each call of `onResize` is recorded
-- in `resizes`; `pendingDup`, which the code never reads or writes, is left out.
pub mod Stream
pub mod Window
mod Tests
use Prim.Native.Nat.{ℕ, ◌+◌, ◌*◌}
use mathlib.Core.Bool.{Bool, true, false, ◌&&◌}
use mathlib.Core.List.{List, [], ◌∷◌, ◌++◌}
use fuzzball_emerald.Prelude.{◌==◌, ltb, leb, if◌then◌else◌, Bytes, length}

abbrev pub iac : ℕ
iac = 255

abbrev pub dont : ℕ
dont = 254

abbrev pub do_ : ℕ
do_ = 253

abbrev pub wont : ℕ
wont = 252

abbrev pub will : ℕ
will = 251

abbrev pub sb : ℕ
sb = 250

abbrev pub nop : ℕ
nop = 241

abbrev pub se : ℕ
se = 240

abbrev pub opt_naws : ℕ
opt_naws = 31

abbrev pub max_sub : ℕ
max_sub = 64

pub data TelnetState : Type 0 where
  state_normal state_iac state_will state_do state_wont state_dont state_subneg state_subneg_iac :
      TelnetState

pub record WindowSize : Type 0 where
  pub width : ℕ
  pub height : ℕ

pub record TelnetDecoder : Type 0 where
  pub state : TelnetState
  pub sub_opt : ℕ
  pub sub_buf : Bytes
  -- whether the transport gave a callback, and the calls it has had
  pub has_on_resize : Bool
  pub resizes : List WindowSize
  pub reply : Bytes
  pub telnet : Bool

unfoldable pub new_telnet_decoder : Bool → TelnetDecoder
new_telnet_decoder on_resize = record {
  state = state_normal;
  sub_opt = 0;
  sub_buf = [];
  has_on_resize = on_resize;
  resizes = [];
  reply = [];
  telnet = false;
}

append_sub : TelnetDecoder → ℕ → TelnetDecoder
append_sub d c =
    if ltb (length d.sub_buf) max_sub then record d { sub_buf = d.sub_buf ++ c ∷ [] } else d

on_will : TelnetDecoder → ℕ → TelnetDecoder
on_will d opt =
    if opt == opt_naws
    then record d { reply = d.reply ++ iac ∷ do_ ∷ opt_naws ∷ [] }
    else record d { reply = d.reply ++ iac ∷ dont ∷ opt ∷ [] }

-- The sizes that a finished subnegotiation reports.
reported : Bytes → List WindowSize
reported (a ∷ b ∷ c ∷ d ∷ _) = record { width = a * 256 + b; height = c * 256 + d } ∷ []
reported _ = []

end_subneg : TelnetDecoder → TelnetDecoder
unfolding reported
end_subneg d = record d {
  resizes =
      (if d.sub_opt == opt_naws && d.has_on_resize
        then d.resizes ++ reported d.sub_buf
        else d.resizes);
  sub_buf = [];
  sub_opt = 0;
}

is_empty : Bytes → Bool
is_empty [] = true
is_empty (_ ∷ _) = false

on_command : TelnetDecoder → ℕ → TelnetDecoder × Bytes
on_command d c =
    if c == iac
    then (record d { state = state_normal }, iac ∷ [])
    else if c == will
    then (record d { state = state_will }, [])
    else if c == wont
    then (record d { state = state_wont }, [])
    else if c == do_
    then (record d { state = state_do }, [])
    else if c == dont
    then (record d { state = state_dont }, [])
    else if c == sb
    then (record d { state = state_subneg; sub_opt = 0; sub_buf = [] }, [])
    else (record d { state = state_normal }, [])

on_subneg : TelnetDecoder → ℕ → TelnetDecoder
unfolding append_sub is_empty
on_subneg d c =
    if c == iac
    then record d { state = state_subneg_iac }
    else if d.sub_opt == 0 && is_empty d.sub_buf
    then record d { sub_opt = c }
    else append_sub d c

on_subneg_iac : TelnetDecoder → ℕ → TelnetDecoder
unfolding append_sub end_subneg
on_subneg_iac d c =
    if c == iac
    then record (append_sub d iac) { state = state_subneg }
    else if c == se
    then record (end_subneg d) { state = state_normal }
    else record d { state = state_normal }

-- One turn of the loop of `Decode`: the decoder after it, and what it appends to the output.
dispatch : TelnetState → TelnetDecoder → ℕ → TelnetDecoder × Bytes
unfolding on_command on_subneg on_subneg_iac on_will
dispatch state_normal d c = if c == iac then (record d { state = state_iac }, []) else (d, c ∷ [])
dispatch state_iac d c = on_command d c
dispatch state_will d c = (record (on_will d c) { telnet = true; state = state_normal }, [])
dispatch state_wont d c = (record d { telnet = true; state = state_normal }, [])
dispatch state_do d c =
    (record d { reply = d.reply ++ iac ∷ wont ∷ c ∷ []; telnet = true; state = state_normal }, [])
dispatch state_dont d c = (record d { telnet = true; state = state_normal }, [])
dispatch state_subneg d c = (on_subneg d c, [])
dispatch state_subneg_iac d c = (on_subneg_iac d c, [])

unfoldable pub decode_byte : TelnetDecoder → ℕ → TelnetDecoder × Bytes
unfolding dispatch
decode_byte d c = dispatch d.state d c

unfoldable pub decode : TelnetDecoder → Bytes → TelnetDecoder × Bytes
unfolding decode_byte
decode d [] = (d, [])
decode d (c ∷ s) =
    let (d', out) = decode_byte d c in let (d'', rest) = decode d' s in (d'', out ++ rest)

unfoldable pub take_reply : TelnetDecoder → TelnetDecoder × Bytes
take_reply d = (record d { reply = [] }, d.reply)

has_iac : Bytes → Bool
has_iac [] = false
has_iac (c ∷ b) = if c == iac then true else has_iac b

pub escape_loop : Bytes → Bytes
escape_loop [] = []
escape_loop (c ∷ b) = let rest = escape_loop b in if c == iac then iac ∷ c ∷ rest else c ∷ rest

unfoldable pub escape_iac : Bytes → Bytes
unfolding has_iac escape_loop
escape_iac b = if has_iac b then escape_loop b else b

abbrev pub initial_negotiation : Bytes
initial_negotiation = iac ∷ do_ ∷ opt_naws ∷ []

unfoldable pub keepalive : Bool → Bytes
keepalive telnet = if telnet then iac ∷ nop ∷ [] else []

unfoldable pub encode_line : Bytes → Bytes
unfolding escape_iac
encode_line text = escape_iac text ++ 13 ∷ 10 ∷ []
