-- ===== src/Proxy/Grpc/Encoding.antt =====
-- The percent encoding of server/src/proxy.rs: what it emits, and that it can be undone.
use spark_plug.Common.{
  ℕ, ◌+◌, ◌-◌, ◌*◌, ◌/◌, ◌%◌, ◌≤◌, ◌<◌, String, ◌≡◌, refl, List, [], ◌∷◌, ◌++◌, arith, ltb, ◌==◌,
  nat_eq, if◌then◌else◌, All, All-append, Bool-cases, inl, inr, ◌∙◌, ap, false,
}
use spark_plug.Text.{bytes}
use spark_plug.Text.Utf8.{IsByte, bytes-IsByte}
use spark_plug.Proxy.Grpc.{is_plain, hex, encode_byte, encode_bytes, percent_encode_grpc_message}

abbrev pub IsVisible : ℕ → Type 0
IsVisible c = (b' ' ≤ c) × (c ≤ b'~')

hex-IsVisible : (d : ℕ) → d < 16 → IsVisible (hex d)
unfolding hex
hex-IsVisible d h = ground arith

encode_byte-IsVisible : (b : ℕ) → b < 256 → All IsVisible (encode_byte b)
unfolding encode_byte is_plain
encode_byte-IsVisible b h = ground (arith, hex-IsVisible (b / 16), hex-IsVisible (b % 16))

pub encode_bytes-IsVisible : (bs : List ℕ) → All IsByte bs → All IsVisible (encode_bytes bs)
unfolding encode_bytes
encode_bytes-IsVisible [] h = tt
encode_bytes-IsVisible (b ∷ bs) h =
    All-append IsVisible (encode_byte b) (encode_bytes bs) (encode_byte-IsVisible b h.0)
      (encode_bytes-IsVisible bs h.1)

-- The inverse: `%` and two hexadecimal digits stand for a byte, any other code for itself.
abbrev unhex : ℕ → ℕ
unhex c = if ltb c b'A' then c - b'0' else c - b'A' + 10

pub decode : List ℕ → List ℕ
decode [] = []
decode (c ∷ []) = c ∷ []
decode (c ∷ x ∷ []) = c ∷ x ∷ []
decode (c ∷ x ∷ y ∷ s) =
    let escaped = (unhex x * 16 + unhex y) ∷ decode s in
    let plain = c ∷ decode (x ∷ y ∷ s) in if c == b'%' then escaped else plain

unhex-hex : (d : ℕ) → d < 16 → unhex (hex d) ≡ d
unfolding hex
unhex-hex d h = ground arith

decode_plain : (c : ℕ) (s : List ℕ) → (c == b'%') ≡ false → decode (c ∷ s) ≡ c ∷ decode s
unfolding decode
decode_plain c [] h = refl
decode_plain c (x ∷ []) h = refl
decode_plain c (x ∷ y ∷ s) h = rw h

decode-encode_byte : (b : ℕ) (s : List ℕ) → b < 256 → decode (encode_byte b ++ s) ≡ b ∷ decode s
unfolding encode_byte is_plain
decode-encode_byte b s h = elim (Bool-cases (is_plain b)) [
  | inl plain ↦ rw (plain, encode_byte) (decode_plain b s (ground arith))
  | inr other ↦
      rw (other, encode_byte)
        (unfold decode in ground (arith, unhex-hex (b / 16), unhex-hex (b % 16)))
]

decode-encode_bytes : (bs : List ℕ) → All IsByte bs → decode (encode_bytes bs) ≡ bs
unfolding encode_bytes
decode-encode_bytes [] h = unfold decode in refl
decode-encode_bytes (b ∷ bs) h =
    decode-encode_byte b (encode_bytes bs) h.0 ∙ ap (λ r. b ∷ r) (decode-encode_bytes bs h.1)

-- The encoded message holds visible ASCII only, so it is a legal header value.
pub percent_encode-IsVisible : (m : String) → All IsVisible (percent_encode_grpc_message m)
unfolding percent_encode_grpc_message
percent_encode-IsVisible m = encode_bytes-IsVisible (bytes m) (bytes-IsByte m)

-- Undoing the percent encoding of a message gives back its UTF-8 bytes.
pub decode-percent_encode : (m : String) → decode (percent_encode_grpc_message m) ≡ bytes m
unfolding percent_encode_grpc_message
decode-percent_encode m = decode-encode_bytes (bytes m) (bytes-IsByte m)
