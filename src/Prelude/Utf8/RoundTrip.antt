-- ===== src/Prelude/Utf8/RoundTrip.antt =====
-- Decoding undoes encoding, on the characters that UTF-8 can encode.
use temporal_agent_sandbox.Prelude.{
  ℕ, ◌<◌, ◌≤◌, Text, [], ◌∷◌, ◌++◌, ◌≡◌, ◌⊎◌, refl, arith, All, ap, ◌∙◌,
}
use temporal_agent_sandbox.Prelude.Utf8.{
  encode_char, encode, decode, decode_from, next_byte, start_char, lead, idle,
}

-- A Unicode scalar value: a code point that is no surrogate.
abbrev pub IsScalar : ℕ → Type 0
IsScalar c = (c < 0xd800) ⊎ ((0xe000 ≤ c) × (c < 0x110000))

decode-encode_char :
    (c : ℕ) (bs : Text)
    → IsScalar c
    → decode_from idle (encode_char c ++ bs) ≡ c ∷ decode_from idle bs
unfolding decode_from encode_char next_byte start_char lead
decode-encode_char c bs h = ground arith

-- A text without surrogates comes back from its UTF-8 bytes.
pub decode-encode : (s : Text) → All IsScalar s → decode (encode s) ≡ s
unfolding decode encode
decode-encode [] _ = unfold decode_from in refl
decode-encode (c ∷ s) (h, hs) =
    decode-encode_char c (encode s) h ∙ ap (λ t. c ∷ t) (decode-encode s hs)
