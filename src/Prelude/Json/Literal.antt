-- ===== src/Prelude/Json/Literal.antt =====
-- What `json.dumps` writes for a `str` is a Python string literal: its value, exactly.
use mathlib.Core.List.{flat_map, append_assoc}
use temporal_agent_sandbox.Prelude.{
  ℕ, suc, ◌+◌, ◌*◌, ◌<◌, Text, Option, some, [], ◌∷◌, ◌++◌, ltb, if◌then◌else◌, ◌≡◌, refl, arith,
  All, ap, inl, inr, ◌↔◌, length, ◌≤◌, ◌∙◌, Bool-cases,
}
use temporal_agent_sandbox.Prelude.Json.{
  hex_digit, unicode_escape, high_surrogate, low_surrogate, escape_char, dumps_str, plain, escaped,
  hex, emit, hex_value, read_hex, read_char, prepend, read_from, read_literal,
}

-- A character as Python reads it back: one beyond the basic plane comes back as two surrogates.
abbrev pub units : ℕ → Text
units c = if ltb c 0x10000 then c ∷ [] else high_surrogate c ∷ low_surrogate c ∷ []

abbrev prepend_all : Text → Option (Text × Text) → Option (Text × Text)
prepend_all [] r = r
prepend_all (c ∷ s) r = prepend c (prepend_all s r)

hex_value-hex_digit : (d : ℕ) → d < 16 → hex_value (hex_digit d) ≡ some d
unfolding hex_value hex_digit
hex_value-hex_digit d h = ground arith

module _ (acc d : ℕ) (s : Text) (h : d < 16) where
  read-hex_digit :
      (k : ℕ) → read_from (hex (suc k) acc) (hex_digit d ∷ s) ≡ read_from (hex k (acc * 16 + d)) s
  unfolding read_from read_char read_hex
  read-hex_digit k = rw (hex_value-hex_digit d h, read_from)

  read-last_digit :
      read_from (hex 0 acc) (hex_digit d ∷ s) ≡ prepend (acc * 16 + d) (read_from plain s)
  unfolding read_from read_char read_hex
  read-last_digit = rw (hex_value-hex_digit d h, read_from)

read-u : (s : Text) → read_from plain (b'\\' ∷ b'u' ∷ s) ≡ read_from (hex 3 0) s
unfolding read_from read_char
read-u s = refl

read-unicode_escape :
    (n : ℕ) (s : Text)
    → n < 0x10000
    → read_from plain (unicode_escape n ++ s) ≡ prepend n (read_from plain s)
unfolding unicode_escape
read-unicode_escape n s h =
    read-u _
    ∙ read-hex_digit 0 _ _ (omega arith) 2
    ∙ read-hex_digit _ _ _ (omega arith) 1
    ∙ read-hex_digit _ _ _ (omega arith) 0
    ∙ read-last_digit _ _ s (omega arith)
    ∙ ap (λ k. prepend k (read_from plain s)) (omega arith)

module _ (s : Text) where
  read-pair :
      (x y : ℕ)
      → read_char escaped x ≡ emit y
      → read_from plain (b'\\' ∷ x ∷ s) ≡ prepend y (read_from plain s)
  unfolding read_from read_char
  read-pair x y e = rw (e, read_from)

  read-one :
      (c : ℕ) → read_char plain c ≡ emit c → read_from plain (c ∷ s) ≡ prepend c (read_from plain s)
  unfolding read_from
  read-one c e = rw (e, read_from)

  read-surrogates :
      (c : ℕ)
      → read_from plain
          ((unicode_escape (high_surrogate c) ++ unicode_escape (low_surrogate c)) ++ s)
        ≡ prepend (high_surrogate c) (prepend (low_surrogate c) (read_from plain s))
  read-surrogates c =
      ap (read_from plain) (append_assoc (unicode_escape (high_surrogate c)) _ s)
      ∙ read-unicode_escape (high_surrogate c) _ (omega arith)
      ∙ ap (prepend (high_surrogate c)) (read-unicode_escape (low_surrogate c) s (omega arith))

  read-escape_char :
      (c : ℕ) → read_from plain (escape_char c ++ s) ≡ prepend_all (units c) (read_from plain s)
  unfolding escape_char read_char
  read-escape_char c = ground (
    arith,
    read-pair b'"' b'"' refl,
    read-pair b'\\' b'\\' refl,
    read-pair b'n' 10 refl,
    read-pair b'r' 13 refl,
    read-pair b't' 9 refl,
    read-pair b'f' 12 refl,
    read-pair b'b' 8 refl,
    read-one c,
    read-unicode_escape c s,
    read-surrogates c,
  )

prepend_all-some : (s t rest : Text) → prepend_all s (some (t, rest)) ≡ some (s ++ t, rest)
prepend_all-some [] t rest = refl
prepend_all-some (c ∷ s) t rest = ap (prepend c) (prepend_all-some s t rest)

read-escaped :
    (t rest : Text)
    → read_from plain (flat_map escape_char t ++ b'"' ∷ rest) ≡ some (flat_map units t, rest)
unfolding flat_map
read-escaped [] rest = unfold read_from read_char in refl
read-escaped (c ∷ t) rest =
    ap (read_from plain) (append_assoc (escape_char c) (flat_map escape_char t) (b'"' ∷ rest))
    ∙ read-escape_char _ c
    ∙ ap (prepend_all (units c)) (read-escaped t rest)
    ∙ prepend_all-some (units c) (flat_map units t) rest

-- The literal that `json.dumps` writes ends where it is meant to, whatever the text and whatever
-- follows; its value is the text with each character beyond the basic plane as two surrogates.
pub read_literal-dumps_str :
    (t rest : Text) → read_literal (dumps_str t ++ rest) ≡ some (flat_map units t, rest)
unfolding read_literal dumps_str
read_literal-dumps_str t rest =
    ap (read_from plain) (append_assoc (flat_map escape_char t) (b'"' ∷ []) rest)
    ∙ read-escaped t rest

abbrev pub IsBasic : ℕ → Type 0
IsBasic c = c < 0x10000

-- On the basic plane the literal's value is the text itself.
pub flat_map-units : (t : Text) → All IsBasic t → flat_map units t ≡ t
unfolding flat_map
flat_map-units [] _ = refl
flat_map-units (c ∷ t) (h, hs) = ground (arith, flat_map-units t hs)

length-units : (t : Text) → length t ≤ length (flat_map units t)
unfolding flat_map
length-units [] = omega arith
length-units (c ∷ t) = ground (arith, length-units t)

length-units_eq : (t : Text) → length (flat_map units t) ≡ length t → All IsBasic t
unfolding flat_map
length-units_eq [] e = tt
length-units_eq (c ∷ t) e = elim (Bool-cases (ltb c 0x10000)) [
  | inl basic ↦ (ground arith, length-units_eq t (ground arith))
  | inr beyond ↦ absurd (ground (arith, length-units t))
]

-- The literal's value is the text exactly when no character lies beyond the basic plane.
pub flat_map-units_iff : (t : Text) → (flat_map units t ≡ t) ↔ All IsBasic t
flat_map-units_iff t = (λ e. length-units_eq t (ap length e), flat_map-units t)
