-- ===== src/Prelude/Json/Value/Printable.antt =====
-- What `json.dumps` writes is printable ASCII: no line break, whatever the texts of the value are.
use mathlib.Core.List.{flat_map}
use temporal_agent_sandbox.Prelude.{
  ℕ, suc, ◌/◌, ◌%◌, ◌<◌, ◌≤◌, ℤ, pos, negsuc, Text, codes, str_int, str_nat-IsDigit, IsDigit, true,
  false, [], ◌∷◌, ◌++◌, All, All-append, arith,
}
use temporal_agent_sandbox.Prelude.Json.{
  hex_digit, unicode_escape, high_surrogate, low_surrogate, escape_char, dumps_str,
}
use temporal_agent_sandbox.Prelude.Json.Value.{
  Json, null, boolean, number, string, array, object, Items, no_items, item, Fields, no_fields,
  field, dumps, dumps_items, dumps_fields,
}

abbrev pub IsPrintable : Text → Type 0
IsPrintable = All (λ c. (32 ≤ c) × (c ≤ 126))

IsPrintable-append : (s t : Text) → IsPrintable s → IsPrintable t → IsPrintable (s ++ t)
IsPrintable-append s t h k = All-append (λ c. (32 ≤ c) × (c ≤ 126)) s t h k

hex_digit_bounds : (d : ℕ) → d < 16 → (32 ≤ hex_digit d) × (hex_digit d ≤ 126)
unfolding hex_digit
hex_digit_bounds d h = ground arith

unicode_escape-IsPrintable : (n : ℕ) → IsPrintable (unicode_escape n)
unfolding unicode_escape
unicode_escape-IsPrintable n = omega (
  arith,
  hex_digit_bounds (n / 4096 % 16) (omega arith),
  hex_digit_bounds (n / 256 % 16) (omega arith),
  hex_digit_bounds (n / 16 % 16) (omega arith),
  hex_digit_bounds (n % 16) (omega arith),
)

escape_char-IsPrintable : (c : ℕ) → IsPrintable (escape_char c)
unfolding escape_char
escape_char-IsPrintable c = ground (
  arith,
  unicode_escape-IsPrintable c,
  IsPrintable-append _ _ (unicode_escape-IsPrintable (high_surrogate c))
      (unicode_escape-IsPrintable (low_surrogate c)),
)

escapes-IsPrintable : (s : Text) → IsPrintable (flat_map escape_char s)
unfolding flat_map
escapes-IsPrintable [] = tt
escapes-IsPrintable (c ∷ s) =
    IsPrintable-append _ _ (escape_char-IsPrintable c) (escapes-IsPrintable s)

dumps_str-IsPrintable : (s : Text) → IsPrintable (dumps_str s)
unfolding dumps_str
dumps_str-IsPrintable s =
    (omega arith, IsPrintable-append _ _ (escapes-IsPrintable s) (omega arith))

IsPrintable-digits : (s : Text) → All IsDigit s → IsPrintable s
IsPrintable-digits [] h = tt
IsPrintable-digits (c ∷ s) (d, h) = (omega arith, IsPrintable-digits s h)

IsPrintable-str_int : (i : ℤ) → IsPrintable (str_int i)
unfolding str_int
IsPrintable-str_int (pos n) = IsPrintable-digits _ (str_nat-IsDigit n)
IsPrintable-str_int (negsuc n) = (omega arith, IsPrintable-digits _ (str_nat-IsDigit (suc n)))

separated :
    (c d : ℕ) (s : Text)
    → (32 ≤ c) × (c ≤ 126)
    → (32 ≤ d) × (d ≤ 126)
    → IsPrintable s
    → IsPrintable (c ∷ d ∷ s)
separated c d s hc hd h = (hc, (hd, h))

mutual
  unfolding dumps codes

  pub dumps-IsPrintable : (v : Json) → IsPrintable (dumps v)
  dumps-IsPrintable null = omega arith
  dumps-IsPrintable (boolean true) = omega arith
  dumps-IsPrintable (boolean false) = omega arith
  dumps-IsPrintable (number i) = IsPrintable-str_int i
  dumps-IsPrintable (string s) = dumps_str-IsPrintable s
  dumps-IsPrintable (array no_items) = omega arith
  dumps-IsPrintable (array (item v vs)) = (
    omega arith,
    IsPrintable-append _ _ (dumps-IsPrintable v)
        (IsPrintable-append _ _ (dumps_items-IsPrintable vs) (omega arith)),
  )
  dumps-IsPrintable (object no_fields) = omega arith
  dumps-IsPrintable (object (field k v fs)) = (
    omega arith,
    IsPrintable-append _ _ (dumps_str-IsPrintable k) (
        separated _ _ _ (omega arith) (omega arith) (
          IsPrintable-append _ _ (dumps-IsPrintable v)
            (IsPrintable-append _ _ (dumps_fields-IsPrintable fs) (omega arith)))),
  )

  dumps_items-IsPrintable : (vs : Items) → IsPrintable (dumps_items vs)
  dumps_items-IsPrintable no_items = tt
  dumps_items-IsPrintable (item v vs) =
      separated _ _ _ (omega arith) (omega arith)
        (IsPrintable-append _ _ (dumps-IsPrintable v) (dumps_items-IsPrintable vs))

  dumps_fields-IsPrintable : (fs : Fields) → IsPrintable (dumps_fields fs)
  dumps_fields-IsPrintable no_fields = tt
  dumps_fields-IsPrintable (field k v fs) = separated _ _ _ (omega arith) (omega arith) (
      IsPrintable-append _ _ (dumps_str-IsPrintable k) (
        separated _ _ _ (omega arith) (omega arith)
          (IsPrintable-append _ _ (dumps-IsPrintable v) (dumps_fields-IsPrintable fs))))
