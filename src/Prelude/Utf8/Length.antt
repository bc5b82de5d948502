-- ===== src/Prelude/Utf8/Length.antt =====
-- Decoding does not make a text longer than its bytes.
use temporal_agent_sandbox.Prelude.{ℕ, zero, suc, ◌+◌, ◌≤◌, [], ◌∷◌, length, length-append, arith}
use temporal_agent_sandbox.Prelude.Utf8.{
  Bytes, Decoding, idle, within, lead, start_char, next_byte, decode_from, decode,
}

-- A character that has begun owes one character of output.
abbrev owed : Decoding → ℕ
owed idle = 0
owed (within _ _ _ _) = 1

start_char-le : (b : ℕ) → length (start_char b).0 + owed (start_char b).1 ≤ 1
unfolding start_char lead
start_char-le b = ground arith

next_byte-le :
    (st : Decoding) (b : ℕ) → length (next_byte st b).0 + owed (next_byte st b).1 ≤ 1 + owed st
unfolding next_byte
next_byte-le idle b = start_char-le b
next_byte-le (within zero value lo hi) b = ground (arith, start_char-le b)
next_byte-le (within (suc n) value lo hi) b = ground (arith, start_char-le b)

decode_from-le : (st : Decoding) (bs : Bytes) → length (decode_from st bs) ≤ length bs + owed st
unfolding decode_from
decode_from-le idle [] = omega arith
decode_from-le (within n v lo hi) [] = omega arith
decode_from-le idle (b ∷ bs) = omega (
  arith,
  length-append (next_byte idle b).0 (decode_from (next_byte idle b).1 bs),
  next_byte-le idle b,
  decode_from-le (next_byte idle b).1 bs,
)
decode_from-le (within n v lo hi) (b ∷ bs) =
    let st = within n v lo hi in
    omega (
      arith,
      length-append (next_byte st b).0 (decode_from (next_byte st b).1 bs),
      next_byte-le st b,
      decode_from-le (next_byte st b).1 bs,
    )

pub length-decode : (bs : Bytes) → length (decode bs) ≤ length bs
unfolding decode
length-decode bs = omega (arith, decode_from-le idle bs)
