-- ===== src/Session/Telnet/Window.antt =====
-- Subnegotiation: the window sizes that the decoder reports (RFC 1073), and which option it takes a
-- subnegotiation to be about.
use fuzzball_emerald.Prelude.{
  ℕ, ◌+◌, ◌*◌, ◌/◌, ◌%◌, ◌≤◌, ◌<◌, ◌≡◌, refl, sym, ◌∙◌, lt→ltb, true, false, [], ◌∷◌, ◌++◌, arith,
  ◌==◌, Bytes, length, length-append, Bool-cases, inl, inr,
}
use mathlib.Core.List.{append_assoc, append-nil}
use fuzzball_emerald.Session.Telnet.{
  iac, sb, se, opt_naws, max_sub, state_normal, state_iac, state_subneg, state_subneg_iac, reported,
  end_subneg, TelnetDecoder, decode_byte, decode, escape_iac, escape_loop,
}
use fuzzball_emerald.Session.Telnet.Stream.{IsNormal, decode-silent, iac_byte, escape_iac-loop}

-- The decoder inside a subnegotiation of an option, with what has been collected.
abbrev collecting : TelnetDecoder → ℕ → Bytes → TelnetDecoder
collecting d opt buf = record d { state = state_subneg; sub_opt = opt; sub_buf = buf }

abbrev collecting_iac : TelnetDecoder → ℕ → Bytes → TelnetDecoder
collecting_iac d opt buf = record d { state = state_subneg_iac; sub_opt = opt; sub_buf = buf }

plain_in_sub :
    (d : TelnetDecoder) (opt c : ℕ) (buf : Bytes)
    → (opt == 0) ≡ false
    → (c == iac) ≡ false
    → length buf < max_sub
    → decode_byte (collecting d opt buf) c ≡ (collecting d opt (buf ++ c ∷ []), [])
unfolding decode_byte
plain_in_sub d opt c buf h k r = rw (h, k) (ground arith)

iac_in_sub :
    (d : TelnetDecoder) (opt : ℕ) (buf : Bytes)
    → decode_byte (collecting d opt buf) iac ≡ (collecting_iac d opt buf, [])
unfolding decode_byte
iac_in_sub d opt buf = refl

iac_after_iac :
    (d : TelnetDecoder) (opt : ℕ) (buf : Bytes)
    → length buf < max_sub
    → decode_byte (collecting_iac d opt buf) iac ≡ (collecting d opt (buf ++ iac ∷ []), [])
unfolding decode_byte
iac_after_iac d opt buf r = rw (lt→ltb (length buf) max_sub r)

-- Escaped data is collected byte for byte while there is room.
collect :
    (d : TelnetDecoder) (opt : ℕ) (buf b rest : Bytes)
    → (opt == 0) ≡ false
    → length buf + length b ≤ max_sub
    → decode (collecting d opt buf) (escape_loop b ++ rest)
      ≡ decode (collecting d opt (buf ++ b)) rest
unfolding escape_loop
collect d opt buf [] rest h r = rw (append-nil buf)
collect d opt buf (c ∷ b) rest h r = elim (Bool-cases (c == iac)) [
  | inl e ↦
      let eq : c ≡ iac = ground arith in
      rw (e, eq)
        (decode-silent _ _ iac _ (iac_in_sub d opt buf)
          ∙ decode-silent _ _ iac _ (iac_after_iac d opt buf (omega arith))
          ∙ collect d opt (buf ++ iac ∷ []) b rest h (omega (arith, length-append buf (iac ∷ [])))
          ∙ rw (append_assoc buf (iac ∷ []) b))
  | inr e ↦ rw e (
      decode-silent _ _ c _ (plain_in_sub d opt c buf h e (omega arith))
      ∙ collect d opt (buf ++ c ∷ []) b rest h (omega (arith, length-append buf (c ∷ [])))
      ∙ rw (append_assoc buf (c ∷ []) b))
]

opened :
    (d : TelnetDecoder) (opt : ℕ) (s : Bytes)
    → IsNormal d
    → (opt == iac) ≡ false
    → decode d (iac ∷ sb ∷ opt ∷ s) ≡ decode (collecting d opt []) s
opened d opt s h k =
    decode-silent _ _ iac _ (iac_byte d h)
    ∙ decode-silent (record d { state = state_iac }) (collecting d 0 []) sb _
        (unfold decode_byte in refl)
    ∙ decode-silent (collecting d 0 []) (collecting d opt []) opt _ (unfold decode_byte in rw k)

closed :
    (d : TelnetDecoder) (opt : ℕ) (buf : Bytes)
    → decode (collecting d opt buf) (iac ∷ se ∷ [])
      ≡ (record (end_subneg (collecting_iac d opt buf)) { state = state_normal }, [])
closed d opt buf =
    decode-silent _ _ iac _ (iac_in_sub d opt buf)
    ∙ decode-silent (collecting_iac d opt buf)
        (record (end_subneg (collecting_iac d opt buf)) { state = state_normal }) se []
        (unfold decode_byte in refl)
    ∙ unfold decode in refl

abbrev pub naws_data : ℕ → ℕ → Bytes
naws_data w h = w / 256 ∷ w % 256 ∷ h / 256 ∷ h % 256 ∷ []

reported-naws_data : (w h : ℕ) → reported (naws_data w h) ≡ record { width = w; height = h } ∷ []
unfolding reported
reported-naws_data w h =
    let wide : w / 256 * 256 + w % 256 ≡ w = omega arith in
    let high : h / 256 * 256 + h % 256 ≡ h = omega arith in
    λ i. record { width = wide i; height = high i } ∷ []

finish_naws :
    (d : TelnetDecoder) (buf : Bytes)
    → d.has_on_resize ≡ true
    → end_subneg (collecting_iac d opt_naws buf) ≡ record d {
      state = state_subneg_iac;
      sub_opt = 0;
      sub_buf = [];
      resizes = d.resizes ++ reported buf;
    }
finish_naws d buf on = unfold end_subneg in ground arith

-- A report of a window size below 65536 each way, with its 255s doubled as the protocol wants, sent
-- to a decoder that is between commands and has a callback, calls back once, with the size that was
-- sent; it puts nothing out, owes no reply and leaves the decoder between commands.
pub decode-naws :
    (d : TelnetDecoder) (w h : ℕ)
    → w < 65536
    → h < 65536
    → IsNormal d
    → d.has_on_resize ≡ true
    → decode d (iac ∷ sb ∷ opt_naws ∷ escape_iac (naws_data w h) ++ iac ∷ se ∷ []) ≡ (
      record d {
        state = state_normal;
        sub_opt = 0;
        sub_buf = [];
        resizes = d.resizes ++ record { width = w; height = h } ∷ [];
      },
      [],
    )
decode-naws d w h wide high normal on = rw (escape_iac-loop (naws_data w h)) (
    opened d opt_naws _ normal refl
    ∙ collect d opt_naws [] (naws_data w h) (iac ∷ se ∷ []) refl (omega arith)
    ∙ closed d opt_naws (naws_data w h)
    ∙ rw (finish_naws d (naws_data w h) on, reported-naws_data w h))

-- Option 0 (binary transmission) is not told from "no option yet": by a decoder between commands, a
-- subnegotiation of it is read as one of the option that its first data byte names.
pub decode-option_zero :
    (d : TelnetDecoder) (s : Bytes)
    → IsNormal d
    → decode d (iac ∷ sb ∷ 0 ∷ s) ≡ decode d (iac ∷ sb ∷ s)
decode-option_zero d s h =
    decode-silent _ _ iac _ (iac_byte d h)
    ∙ decode-silent (record d { state = state_iac }) (collecting d 0 []) sb _
        (unfold decode_byte in refl)
    ∙ decode-silent (collecting d 0 []) (collecting d 0 []) 0 _ (unfold decode_byte in refl)
    ∙ sym (
        decode-silent _ _ iac _ (iac_byte d h)
        ∙ decode-silent (record d { state = state_iac }) (collecting d 0 []) sb _
            (unfold decode_byte in refl))
