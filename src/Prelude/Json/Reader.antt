-- ===== src/Prelude/Json/Reader.antt =====
-- `json.loads`, as a client of the API has it: a reader of JSON texts (RFC 8259) whose numbers are
-- integers. A pair of surrogate escapes is one character.
pub mod Scalars
pub mod Steps
pub mod RoundTrip
use temporal_agent_sandbox.Prelude.{
  ℕ, zero, suc, ◌+◌, ◌-◌, ◌*◌, ℤ, pos, negsuc, push_digit, Text, codes, starts_with, length, Option,
  none, some, Bool, true, false, ◌&&◌, ◌||◌, List, [], ◌∷◌, leb, nat_eq, if◌then◌else◌, drop,
}
use temporal_agent_sandbox.Prelude.Json.{read_literal}
use temporal_agent_sandbox.Prelude.Json.Value.{
  Json, null, boolean, number, string, array, object, Items, no_items, item, Fields, no_fields,
  field,
}

-- the two halves of a pair of surrogates
pub is_pair : ℕ → ℕ → Bool
is_pair c d = leb 0xd800 c && leb c 0xdbff && leb 0xdc00 d && leb d 0xdfff

-- the characters of a string whose escapes have been read one by one
pub join : Text → Text
unfolding is_pair
join [] = []
join (c ∷ []) = c ∷ []
join (c ∷ d ∷ s) =
    let behind = join s in
    let rest = join (d ∷ s) in
    if is_pair c d then (0x10000 + ((c - 0xd800) * 1024 + (d - 0xdc00))) ∷ behind else c ∷ rest

abbrev pub Reads : Type 0 → Type 0
Reads A = Option (A × Text)

infixl 5 ◌>>=◌
abbrev pub ◌>>=◌ : {A B : Type 0} → Reads A → (A → Text → Reads B) → Reads B
none >>= f = none
some (a, s) >>= f = f a s

pub read_string : Text → Reads Text
unfolding join
read_string s = read_literal s >>= λ t rest. some (join t, rest)

abbrev is_digit : ℕ → Bool
is_digit c = leb 48 c && leb c 57

-- the number of the digits at the front, after some others
pub read_digits : ℕ → Text → ℕ × Text
read_digits acc [] = (acc, [])
read_digits acc (c ∷ s) = if is_digit c then read_digits (push_digit acc c) s else (acc, c ∷ s)

abbrev pub negated : ℕ → ℤ
negated zero = pos 0
negated (suc n) = negsuc n

abbrev whole : ℕ × Text → Reads ℤ
whole (n, rest) = some (pos n, rest)

abbrev below_zero : ℕ × Text → Reads ℤ
below_zero (n, rest) = some (negated n, rest)

-- behind a minus sign
pub read_negative : Text → Reads ℤ
unfolding read_digits
read_negative [] = none
read_negative (c ∷ s) = if is_digit c then below_zero (read_digits 0 (c ∷ s)) else none

pub read_number : Text → Reads ℤ
unfolding read_negative
read_number [] = none
read_number (c ∷ s) =
    if is_digit c
    then whole (read_digits 0 (c ∷ s))
    else if nat_eq c b'-'
    then read_negative s
    else none

pub is_space : ℕ → Bool
is_space c = nat_eq c 32 || nat_eq c 9 || nat_eq c 10 || nat_eq c 13

-- without the white space at the front
pub skip : Text → Text
unfolding is_space
skip [] = []
skip (c ∷ s) = if is_space c then skip s else c ∷ s

-- the text behind a character that stands at the front
pub expect : ℕ → Text → Option Text
expect c [] = none
expect c (d ∷ s) = if nat_eq c d then some s else none

-- What a value begins with.
pub data Head : Type 0 where
  quote bracket brace space other : Head

pub head_of : ℕ → Head
unfolding is_space
head_of c =
    if nat_eq c b'"'
    then quote
    else if nat_eq c b'['
    then bracket
    else if nat_eq c b'{'
    then brace
    else if is_space c
    then space
    else other

-- the three names, and numbers
pub read_plain : Text → Reads Json
unfolding read_number
read_plain s =
    if starts_with s (codes "null")
    then some (null, drop 4 s)
    else if starts_with s (codes "true")
    then some (boolean true, drop 4 s)
    else if starts_with s (codes "false")
    then some (boolean false, drop 5 s)
    else read_number s >>= λ i rest. some (number i, rest)

-- Each call costs a unit of fuel.
unfoldable mutual
  unfolding head_of read_plain read_string expect skip

  pub read_value : ℕ → Text → Reads Json
  read_value zero s = none
  read_value (suc f) [] = none
  read_value (suc f) (c ∷ s) = elim (head_of c) [
    | quote ↦ read_string (c ∷ s) >>= λ t rest. some (string t, rest)
    | bracket ↦ read_array f s
    | brace ↦ read_object f s
    | space ↦ read_value f s
    | other ↦ read_plain (c ∷ s)
  ]

  -- behind an opening bracket
  pub read_array : ℕ → Text → Reads Json
  read_array zero s = none
  read_array (suc f) s = elim (expect b']' (skip s)) [
    | some rest ↦ some (array no_items, rest)
    | none ↦
        read_value f s >>= λ v more. read_items f more >>= λ vs rest. some (array (item v vs), rest)
  ]

  -- behind an item
  pub read_items : ℕ → Text → Reads Items
  read_items zero s = none
  read_items (suc f) s = elim (expect b']' (skip s)) [
    | some rest ↦ some (no_items, rest)
    | none ↦ elim (expect b',' (skip s)) [
      | some more ↦
          read_value f more >>= λ v last. read_items f last >>= λ vs rest. some (item v vs, rest)
      | none ↦ none
    ]
  ]

  -- behind an opening brace
  pub read_object : ℕ → Text → Reads Json
  read_object zero s = none
  read_object (suc f) s = elim (expect b'}' (skip s)) [
    | some rest ↦ some (object no_fields, rest)
    | none ↦ read_field f s >>= λ fs rest. some (object fs, rest)
  ]

  -- a field with those behind it
  pub read_field : ℕ → Text → Reads Fields
  read_field zero s = none
  read_field (suc f) s = read_string (skip s) >>= λ k behind. elim (expect b':' (skip behind)) [
    | none ↦ none
    | some more ↦
        read_value f more >>= λ v last. read_fields f last >>= λ fs rest. some (field k v fs, rest)
  ]

  -- behind a field
  pub read_fields : ℕ → Text → Reads Fields
  read_fields zero s = none
  read_fields (suc f) s = elim (expect b'}' (skip s)) [
    | some rest ↦ some (no_fields, rest)
    | none ↦ elim (expect b',' (skip s)) [ some more ↦ read_field f more | none ↦ none ]
  ]

-- `json.loads`; each call reads a character or is followed by one that does
unfoldable pub loads : Text → Option Json
unfolding read_value skip
loads s = elim (read_value (2 * length s + 1) s) [
  | none ↦ none
  | some (v, rest) ↦ elim (skip rest) [ [] ↦ some v | _ ∷ _ ↦ none ]
]
