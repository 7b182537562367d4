-- ===== src/Session/Telnet/Tests.antt =====
-- Runs of the decoder, and the theorems on it at concrete streams.
use fuzzball_emerald.Prelude.{◌≡◌, refl, true, false, [], ◌∷◌, ◌++◌, arith, length, ◌≤◌}
use fuzzball_emerald.Session.Telnet.{
  TelnetDecoder, iac, sb, se, opt_naws, state_normal, new_telnet_decoder, decode, escape_iac,
}
use fuzzball_emerald.Session.Telnet.Stream.{decode-escape_iac, decode-IsBounded, IsBounded}
use fuzzball_emerald.Session.Telnet.Window.{decode-naws, naws_data}

abbrev fresh : TelnetDecoder
fresh = record {
  state = state_normal;
  sub_opt = 0;
  sub_buf = [];
  has_on_resize = true;
  resizes = [];
  reply = [];
  telnet = false;
}

starts_fresh : new_telnet_decoder true ≡ fresh
unfolding new_telnet_decoder
starts_fresh = refl

decode-escape_iac_example :
    decode fresh (escape_iac (b'a' ∷ 255 ∷ b'b' ∷ [])) ≡ (fresh, b'a' ∷ 255 ∷ b'b' ∷ [])
decode-escape_iac_example = decode-escape_iac fresh (b'a' ∷ 255 ∷ b'b' ∷ []) refl

decode-IsBounded_example :
    IsBounded (decode fresh (iac ∷ sb ∷ opt_naws ∷ 0 ∷ [])).0
    × (length (decode fresh (iac ∷ sb ∷ opt_naws ∷ 0 ∷ [])).1 ≤ 4)
decode-IsBounded_example = decode-IsBounded fresh (iac ∷ sb ∷ opt_naws ∷ 0 ∷ []) (omega arith)

decode-naws_example :
    decode fresh (iac ∷ sb ∷ opt_naws ∷ escape_iac (naws_data 255 24) ++ iac ∷ se ∷ [])
    ≡ (record fresh { resizes = record { width = 255; height = 24 } ∷ [] }, [])
decode-naws_example = decode-naws fresh 255 24 (omega arith) (omega arith) refl refl
