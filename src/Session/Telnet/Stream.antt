-- ===== src/Session/Telnet/Stream.antt =====
-- The decoder on a stream: how the input is cut into chunks does not matter, escaped text comes out
-- as it went in, and the buffer of a subnegotiation is bounded.
use fuzzball_emerald.Prelude.{
  ℕ, ◌≤◌, ◌≡◌, refl, sym, false, [], ◌∷◌, ◌++◌, arith, ◌==◌, Bytes, length, length-append,
  Bool-cases, inl, inr,
}
use mathlib.Core.List.{append_assoc}
use fuzzball_emerald.Session.Telnet.{
  iac, max_sub, state_normal, state_iac, TelnetDecoder, decode_byte, decode, escape_iac,
  escape_loop, has_iac, encode_line,
}

-- Decoding two chunks in turn is decoding them as one, whatever is pending between them.
pub decode-append :
    (d : TelnetDecoder) (a b : Bytes)
    → decode d (a ++ b)
      ≡ (let (d', out) = decode d a in let (d'', rest) = decode d' b in (d'', out ++ rest))
unfolding decode
decode-append d [] b = refl
decode-append d (c ∷ a) b = rw (decode-append (decode_byte d c).0 a b) (simp append_assoc)

-- A byte that puts nothing out only moves the decoder on.
pub decode-silent :
    (d d' : TelnetDecoder) (c : ℕ) (s : Bytes)
    → decode_byte d c ≡ (d', [])
    → decode d (c ∷ s) ≡ decode d' s
unfolding decode
decode-silent d d' c s h = rw h

abbrev pub IsNormal : TelnetDecoder → Type 0
IsNormal d = d.state ≡ state_normal

normal_byte :
    (d : TelnetDecoder) (c : ℕ) → IsNormal d → (c == iac) ≡ false → decode_byte d c ≡ (d, c ∷ [])
unfolding decode_byte
normal_byte d c h k = rw (h, k)

back_to_normal : (d : TelnetDecoder) → IsNormal d → record d { state = state_normal } ≡ d
back_to_normal d h = λ i. record d { state = sym h i }

pub iac_byte :
    (d : TelnetDecoder) → IsNormal d → decode_byte d iac ≡ (record d { state = state_iac }, [])
unfolding decode_byte
iac_byte d h = rw h

doubled_iac :
    (d : TelnetDecoder) (s : Bytes)
    → IsNormal d
    → decode d (iac ∷ iac ∷ s) ≡ (let (d', out) = decode d s in (d', iac ∷ out))
unfolding decode
doubled_iac d s h = rw (iac_byte d h) (unfold decode_byte in rw (back_to_normal d h))

plain_byte :
    (d : TelnetDecoder) (c : ℕ) (s : Bytes)
    → IsNormal d
    → (c == iac) ≡ false
    → decode d (c ∷ s) ≡ (let (d', out) = decode d s in (d', c ∷ out))
unfolding decode
plain_byte d c s h k = rw (normal_byte d c h k)

decode-escape_loop :
    (d : TelnetDecoder) (b : Bytes) → IsNormal d → decode d (escape_loop b) ≡ (d, b)
unfolding escape_loop
decode-escape_loop d [] h = unfold decode in refl
decode-escape_loop d (c ∷ b) h = elim (Bool-cases (c == iac)) [
  | inl e ↦
      let eq : c ≡ iac = ground arith in
      rw (e, eq) (rw (doubled_iac d (escape_loop b) h) (rw (decode-escape_loop d b h)))
  | inr e ↦ rw e (rw (plain_byte d c (escape_loop b) h e) (rw (decode-escape_loop d b h)))
]

escape_loop-plain : (b : Bytes) → has_iac b ≡ false → escape_loop b ≡ b
unfolding escape_loop has_iac
escape_loop-plain [] h = refl
escape_loop-plain (c ∷ b) h = ground (arith, escape_loop-plain b)

pub escape_iac-loop : (b : Bytes) → escape_iac b ≡ escape_loop b
unfolding escape_iac
escape_iac-loop b = ground (arith, escape_loop-plain b)

-- Text that is escaped and sent through a decoder between commands comes out as it was, byte for
-- byte, and leaves the decoder as it was.
pub decode-escape_iac :
    (d : TelnetDecoder) (b : Bytes) → IsNormal d → decode d (escape_iac b) ≡ (d, b)
decode-escape_iac d b h = rw (escape_iac-loop b) (decode-escape_loop d b h)

-- A line that the server encodes is decoded, by a decoder between commands, to its text and the
-- line's end, and leaves the decoder as it was.
pub decode-encode_line :
    (d : TelnetDecoder) (text : Bytes)
    → IsNormal d
    → decode d (encode_line text) ≡ (d, text ++ 13 ∷ 10 ∷ [])
unfolding encode_line
decode-encode_line d text h = rw (decode-append d (escape_iac text) (13 ∷ 10 ∷ [])) (
    rw (decode-escape_iac d text h) (
      rw (plain_byte d 13 (10 ∷ []) h refl)
        (rw (plain_byte d 10 [] h refl) (unfold decode in refl))))

abbrev pub IsBounded : TelnetDecoder → Type 0
IsBounded d = length d.sub_buf ≤ max_sub

decode_byte-IsBounded : (d : TelnetDecoder) (c : ℕ) → IsBounded d → IsBounded (decode_byte d c).0
unfolding decode_byte
decode_byte-IsBounded d c h =
    ground (arith, length-append d.sub_buf (c ∷ []), length-append d.sub_buf (iac ∷ []))

decode_byte-length : (d : TelnetDecoder) (c : ℕ) → length (decode_byte d c).1 ≤ 1
unfolding decode_byte
decode_byte-length d c = ground arith

-- Whatever a client sends, a subnegotiation buffer that is within its bound of 64 bytes stays so,
-- and no more bytes come out than went in.
pub decode-IsBounded :
    (d : TelnetDecoder) (s : Bytes)
    → IsBounded d
    → IsBounded (decode d s).0 × (length (decode d s).1 ≤ length s)
unfolding decode
decode-IsBounded d [] h = (h, omega arith)
decode-IsBounded d (c ∷ s) h =
    let (bound, short) = decode-IsBounded (decode_byte d c).0 s (decode_byte-IsBounded d c h) in
    (
      bound,
      omega (
        arith,
        decode_byte-length d c,
        length-append (decode_byte d c).1 (decode (decode_byte d c).0 s).1,
      ),
    )
