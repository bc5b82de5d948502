-- ===== src/Prelude/Json.antt =====
-- `json.dumps` of a `str` (its default, with ASCII output), and the value of a Python string literal
-- in double quotes, read character by character. The round trip is proved in `Json.Literal`.
pub mod Literal
pub mod Value
pub mod Reader
use mathlib.Core.List.{flat_map}
use temporal_agent_sandbox.Prelude.{
  ℕ, zero, suc, ◌+◌, ◌-◌, ◌*◌, ◌/◌, ◌%◌, Text, Option, none, some, [], ◌∷◌, ◌++◌, ◌&&◌, leb, ltb,
  nat_eq, if◌then◌else◌,
}

-- `'{0:x}'` of a number below 16
pub hex_digit : ℕ → ℕ
hex_digit d = if ltb d 10 then 48 + d else 87 + d

-- `'\\u{0:04x}'`
pub unicode_escape : ℕ → Text
unicode_escape n =
    b'\\'
    ∷ b'u'
    ∷ hex_digit (n / 4096 % 16)
    ∷ hex_digit (n / 256 % 16)
    ∷ hex_digit (n / 16 % 16)
    ∷ hex_digit (n % 16)
    ∷ []

abbrev pub high_surrogate : ℕ → ℕ
high_surrogate c = 0xd800 + (c - 0x10000) / 1024 % 1024

abbrev pub low_surrogate : ℕ → ℕ
low_surrogate c = 0xdc00 + (c - 0x10000) % 1024

pub escape_char : ℕ → Text
escape_char c =
    if nat_eq c b'"'
    then b'\\' ∷ b'"' ∷ []
    else if nat_eq c b'\\'
    then b'\\' ∷ b'\\' ∷ []
    else if nat_eq c 10
    then b'\\' ∷ b'n' ∷ []
    else if nat_eq c 13
    then b'\\' ∷ b'r' ∷ []
    else if nat_eq c 9
    then b'\\' ∷ b't' ∷ []
    else if nat_eq c 12
    then b'\\' ∷ b'f' ∷ []
    else if nat_eq c 8
    then b'\\' ∷ b'b' ∷ []
    else if leb 32 c && leb c 126
    then c ∷ []
    else if ltb c 0x10000
    then unicode_escape c
    else unicode_escape (high_surrogate c) ++ unicode_escape (low_surrogate c)

unfoldable pub dumps_str : Text → Text
unfolding escape_char unicode_escape hex_digit
dumps_str s = b'"' ∷ (flat_map escape_char s ++ b'"' ∷ [])

-- Where a reader of a string literal stands: between characters, after a backslash, or before the
-- last `suc k` digits of a `\u` escape whose digits so far have the given value.
pub data Reading : Type 0 where
  plain escaped : Reading
  hex : ℕ → ℕ → Reading

pub data Read : Type 0 where
  goto : Reading → Read
  emit : ℕ → Read
  close bad : Read

pub hex_value : ℕ → Option ℕ
hex_value c =
    if leb b'0' c && leb c b'9'
    then some (c - 48)
    else if leb b'a' c && leb c b'f'
    then some (c - 87)
    else none

pub read_hex : ℕ → ℕ → Option ℕ → Read
read_hex k acc none = bad
read_hex zero acc (some d) = emit (acc * 16 + d)
read_hex (suc k) acc (some d) = goto (hex k (acc * 16 + d))

pub read_char : Reading → ℕ → Read
read_char plain c =
    if nat_eq c b'"'
    then close
    else if nat_eq c b'\\'
    then goto escaped
    else if nat_eq c 10
    then bad
    else emit c
read_char escaped c =
    if nat_eq c b'"'
    then emit b'"'
    else if nat_eq c b'\\'
    then emit b'\\'
    else if nat_eq c b'n'
    then emit 10
    else if nat_eq c b'r'
    then emit 13
    else if nat_eq c b't'
    then emit 9
    else if nat_eq c b'f'
    then emit 12
    else if nat_eq c b'b'
    then emit 8
    else if nat_eq c b'u'
    then goto (hex 3 0)
    else bad
read_char (hex k acc) c = read_hex k acc (hex_value c)

abbrev pub prepend : ℕ → Option (Text × Text) → Option (Text × Text)
prepend c none = none
prepend c (some (s, rest)) = some (c ∷ s, rest)

-- The characters up to the closing quote, and the text behind it; `none` for what is no literal.
pub read_from : Reading → Text → Option (Text × Text)
read_from st [] = none
read_from st (c ∷ s) = elim (read_char st c) [
  | goto st' ↦ read_from st' s
  | emit x ↦ prepend x (read_from plain s)
  | close ↦ some ([], s)
  | bad ↦ none
]

unfoldable pub read_literal : Text → Option (Text × Text)
unfolding read_from read_char read_hex hex_value
read_literal [] = none
read_literal (c ∷ s) = if nat_eq c b'"' then read_from plain s else none
