-- ===== src/Prelude/Utf8.antt =====
-- UTF-8: `s.encode("utf-8")`, and `b.decode("utf-8", "replace")` with one U+FFFD for each maximal
-- part of an ill-formed sequence.
pub mod RoundTrip
pub mod Length
use temporal_agent_sandbox.Prelude.{
  ℕ, zero, suc, ◌+◌, ◌-◌, ◌*◌, ◌/◌, ◌%◌, Text, List, [], ◌∷◌, ◌++◌, Bool, ◌&&◌, leb, ltb, nat_eq,
  if◌then◌else◌,
}

abbrev pub Bytes : Type 0
Bytes = List ℕ

unfoldable pub encode_char : ℕ → Bytes
encode_char c =
    if ltb c 0x80
    then c ∷ []
    else if ltb c 0x800
    then (0xc0 + c / 64) ∷ (0x80 + c % 64) ∷ []
    else if ltb c 0x10000
    then (0xe0 + c / 4096) ∷ (0x80 + c / 64 % 64) ∷ (0x80 + c % 64) ∷ []
    else (0xf0 + c / 262144) ∷ (0x80 + c / 4096 % 64) ∷ (0x80 + c / 64 % 64) ∷ (0x80 + c % 64) ∷ []

unfoldable pub encode : Text → Bytes
unfolding encode_char
encode [] = []
encode (c ∷ s) = encode_char c ++ encode s

-- Between characters, or within one: how many bytes are missing after the next, the value so far,
-- and the range of the next byte.
pub data Decoding : Type 0 where
  idle : Decoding
  within : ℕ → ℕ → ℕ → ℕ → Decoding

pub lead : ℕ → Decoding
lead b =
    if leb 0xc2 b && leb b 0xdf
    then within 0 (b - 0xc0) 0x80 0xbf
    else if nat_eq b 0xe0
    then within 1 0 0xa0 0xbf
    else if nat_eq b 0xed
    then within 1 13 0x80 0x9f
    else if leb 0xe1 b && leb b 0xef
    then within 1 (b - 0xe0) 0x80 0xbf
    else if nat_eq b 0xf0
    then within 2 0 0x90 0xbf
    else if nat_eq b 0xf4
    then within 2 4 0x80 0x8f
    else if leb 0xf1 b && leb b 0xf3
    then within 2 (b - 0xf0) 0x80 0xbf
    else idle

abbrev pub replacement : ℕ
replacement = 0xfffd

-- What a byte adds to the output between characters, and the state behind it.
pub start_char : ℕ → Text × Decoding
unfolding lead
start_char b = if ltb b 0x80 then (b ∷ [], idle) else elim (lead b) [
  | idle ↦ (replacement ∷ [], idle)
  | within n value lo hi ↦ ([], within n value lo hi)
]

pub next_byte : Decoding → ℕ → Text × Decoding
unfolding start_char
next_byte idle b = start_char b
next_byte (within zero value lo hi) b =
    if leb lo b && leb b hi
    then ((value * 64 + (b - 0x80)) ∷ [], idle)
    else let (out, st) = start_char b in (replacement ∷ out, st)
next_byte (within (suc n) value lo hi) b =
    if leb lo b && leb b hi
    then ([], within n (value * 64 + (b - 0x80)) 0x80 0xbf)
    else let (out, st) = start_char b in (replacement ∷ out, st)

pub decode_from : Decoding → Bytes → Text
unfolding next_byte
decode_from idle [] = []
decode_from (within _ _ _ _) [] = replacement ∷ []
decode_from st (b ∷ bs) = let (out, st') = next_byte st b in out ++ decode_from st' bs

unfoldable pub decode : Bytes → Text
unfolding decode_from
decode bs = decode_from idle bs
