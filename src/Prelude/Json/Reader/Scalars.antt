-- ===== src/Prelude/Json/Reader/Scalars.antt =====
-- Strings and numbers: what `json.dumps` writes for them is read back.
use mathlib.Core.List.{flat_map, foldl}
use temporal_agent_sandbox.Prelude.{
  ℕ, suc, ◌+◌, ◌-◌, ◌*◌, ◌<◌, ◌≤◌, ℤ, pos, negsuc, str_nat, str_int, value, push_digit,
  value-str_nat, str_nat_cons, str_nat-IsDigit, IsDigit, Text, some, true, [], ◌∷◌, ◌++◌, ltb, ◌≡◌,
  ◌⊎◌, inl, inr, refl, ap, ◌∙◌, All, arith, Bool-cases,
}
use temporal_agent_sandbox.Prelude.Json.{dumps_str, high_surrogate, low_surrogate}
use temporal_agent_sandbox.Prelude.Json.Literal.{units, read_literal-dumps_str}
use temporal_agent_sandbox.Prelude.Json.Reader.{
  join, is_pair, read_string, read_digits, negated, read_negative, read_number,
}

-- A Unicode scalar value: a code point that is no surrogate.
abbrev pub IsScalar : ℕ → Type 0
IsScalar c = (c < 0x110000) × ((c < 0xd800) ⊎ (0xe000 ≤ c))

join-pair :
    (c d : ℕ) (s : Text)
    → is_pair c d ≡ true
    → join (c ∷ d ∷ s) ≡ (0x10000 + ((c - 0xd800) * 1024 + (d - 0xdc00))) ∷ join s
unfolding join
join-pair c d s e = rw e refl

pair_of_surrogates : (c : ℕ) → is_pair (high_surrogate c) (low_surrogate c) ≡ true
unfolding is_pair
pair_of_surrogates c = ground arith

join-single : (c : ℕ) (s : Text) → IsScalar c → join (c ∷ s) ≡ c ∷ join s
unfolding join is_pair
join-single c [] h = refl
join-single c (d ∷ s) h = ground arith

join-units : (c : ℕ) (s : Text) → IsScalar c → join (units c ++ s) ≡ c ∷ join s
join-units c s h = elim (Bool-cases (ltb c 0x10000)) [
  | inl basic ↦ rw basic (join-single c s h)
  | inr beyond ↦
      let same : 0x10000 + ((high_surrogate c - 0xd800) * 1024 + (low_surrogate c - 0xdc00)) ≡ c =
        ground arith in
      rw beyond (
        join-pair (high_surrogate c) (low_surrogate c) s (pair_of_surrogates c)
        ∙ ap (λ x. x ∷ join s) same)
]

join-flat_map : (t : Text) → All IsScalar t → join (flat_map units t) ≡ t
unfolding flat_map
join-flat_map [] h = unfold join in refl
join-flat_map (c ∷ t) (p, h) =
    join-units c (flat_map units t) p ∙ ap (λ s. c ∷ s) (join-flat_map t h)

-- A string of scalar values is read back, whatever follows it.
pub read_string-dumps_str :
    (t rest : Text) → All IsScalar t → read_string (dumps_str t ++ rest) ≡ some (t, rest)
unfolding read_string
read_string-dumps_str t rest h = rw (read_literal-dumps_str t rest, join-flat_map t h) refl

-- No digit stands in front.
abbrev pub Stops : Text → Type 0
Stops [] = Unit
Stops (c ∷ _) = ¬ IsDigit c

read_digits-append :
    (acc : ℕ) (ds rest : Text)
    → All IsDigit ds
    → Stops rest
    → read_digits acc (ds ++ rest) ≡ (foldl push_digit acc ds, rest)
unfolding read_digits
read_digits-append acc [] [] h stop = refl
read_digits-append acc [] (c ∷ rest) h stop = ground (arith, λ (d : IsDigit c). stop d)
read_digits-append acc (c ∷ ds) rest (d, h) stop =
    ground (arith, read_digits-append (push_digit acc c) ds rest h stop)

read_digits-str_nat :
    (n : ℕ) (rest : Text) → Stops rest → read_digits 0 (str_nat n ++ rest) ≡ (n, rest)
unfolding value
read_digits-str_nat n rest stop =
    read_digits-append 0 (str_nat n) rest (str_nat-IsDigit n) stop
    ∙ ap (λ m. (m, rest)) (value-str_nat n)

read-minus : (s : Text) → read_number (b'-' ∷ s) ≡ read_negative s
unfolding read_number
read-minus s = refl

module _ (n : ℕ) (rest : Text) (stop : Stops rest) where
  -- the digits of a number begin with one
  opened :
      (d : ℕ) × (t : Text) × (str_nat n ≡ d ∷ t)
      × IsDigit d
      × (read_digits 0 (d ∷ (t ++ rest)) ≡ (n, rest))
  opened =
      let (d, t, e) = str_nat_cons n in
      let all : All IsDigit (d ∷ t) = rw e at (str_nat-IsDigit n) in
      (d, t, e, all.0, rw e at (read_digits-str_nat n rest stop))

  read_number-str_nat : read_number (str_nat n ++ rest) ≡ some (pos n, rest)
  unfolding read_number
  read_number-str_nat = let (d, t, e, digit, read) = opened in rw e (ground (arith, read))

  read_negative-str_nat : read_negative (str_nat n ++ rest) ≡ some (negated n, rest)
  unfolding read_negative
  read_negative-str_nat = let (d, t, e, digit, read) = opened in rw e (ground (arith, read))

-- An integer is read back if no digit follows it.
pub read_number-str_int :
    (i : ℤ) (rest : Text) → Stops rest → read_number (str_int i ++ rest) ≡ some (i, rest)
unfolding str_int
read_number-str_int (pos n) rest stop = read_number-str_nat n rest stop
read_number-str_int (negsuc n) rest stop =
    read-minus (str_nat (suc n) ++ rest) ∙ read_negative-str_nat (suc n) rest stop

-- An integer begins with a digit or with a minus sign.
pub str_int_cons : (i : ℤ) → (c : ℕ) × (t : Text) × (str_int i ≡ c ∷ t) × (IsDigit c ⊎ (c ≡ b'-'))
unfolding str_int
str_int_cons (pos n) =
    let (d, t, e) = str_nat_cons n in
    let all : All IsDigit (d ∷ t) = rw e at (str_nat-IsDigit n) in (d, t, e, inl all.0)
str_int_cons (negsuc n) = (b'-', str_nat (suc n), refl, inr refl)
