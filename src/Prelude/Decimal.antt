-- ===== src/Prelude/Decimal.antt =====
-- Python's `int` and its `str`: the decimal digits, with `-` in front of a negative number.
use Prim.Native.Nat.{ℕ, zero, suc, ◌+◌, ◌-◌, ◌*◌, ◌/◌, ◌%◌, ◌≤◌, ◌<◌}
use mathlib.Core.Path.{◌≡◌, refl, ap, sym, ◌∙◌}
use mathlib.Core.Logic.{inl, inr, ◌≢◌}
use mathlib.Core.Bool.{Bool, false}
use mathlib.Core.List.{[], ◌∷◌, ◌++◌, foldl, foldl-append}
use native.Mathlib.Omega.{arith}
use temporal_agent_sandbox.Prelude.Tests.{ltb, if◌then◌else◌, Bool-cases, nat_eq}
use temporal_agent_sandbox.Prelude.Strings.{Text}
use temporal_agent_sandbox.Prelude.Lists.{All, All-append}

-- `negsuc n` is -(n + 1).
pub data ℤ : Type 0 where
  pos : ℕ → ℤ
  negsuc : ℕ → ℤ

-- `i == n` for a number `n` that is not negative
abbrev pub int_eq : ℤ → ℕ → Bool
int_eq (pos m) n = nat_eq m n
int_eq (negsuc _) _ = false

-- one digit for each unit of fuel; a number below its fuel is written whole
digits : ℕ → ℕ → Text
digits zero n = []
digits (suc fuel) n =
    let more = digits fuel (n / 10) in
    if ltb n 10 then (48 + n) ∷ [] else more ++ (48 + n % 10) ∷ []

unfoldable pub str_nat : ℕ → Text
unfolding digits
str_nat n = digits (suc n) n

unfoldable pub str_int : ℤ → Text
unfolding str_nat
str_int (pos n) = str_nat n
str_int (negsuc n) = b'-' ∷ str_nat (suc n)

-- the number that a run of digits denotes
abbrev pub push_digit : ℕ → ℕ → ℕ
push_digit acc c = acc * 10 + (c - 48)

unfoldable pub value : Text → ℕ
value = foldl push_digit 0

value-digits : (fuel n : ℕ) → n < fuel → value (digits fuel n) ≡ n
unfolding digits value
value-digits zero n h = elim h [ ]
value-digits (suc fuel) n h = elim (Bool-cases (ltb n 10)) [
  | inl small ↦ rw small (omega arith)
  | inr large ↦
      let below : n / 10 < fuel = ground arith in
      rw (large, foldl-append, value-digits fuel (n / 10) below) (omega arith)
]

pub value-str_nat : (n : ℕ) → value (str_nat n) ≡ n
unfolding str_nat
value-str_nat n = value-digits (suc n) n (omega arith)

-- Two numbers with the same decimal text are the same number.
pub str_nat-injective : (m n : ℕ) → str_nat m ≡ str_nat n → m ≡ n
str_nat-injective m n e = sym (value-str_nat m) ∙ ap value e ∙ value-str_nat n

abbrev pub IsDigit : ℕ → Type 0
IsDigit c = (48 ≤ c) × (c ≤ 57)

digits-IsDigit : (fuel n : ℕ) → All IsDigit (digits fuel n)
unfolding digits
digits-IsDigit zero n = tt
digits-IsDigit (suc fuel) n = elim (Bool-cases (ltb n 10)) [
  | inl small ↦ rw small (ground arith)
  | inr large ↦
      rw large
        (All-append IsDigit (digits fuel (n / 10)) _ (digits-IsDigit fuel (n / 10)) (omega arith))
]

-- A number is written in decimal digits alone.
pub str_nat-IsDigit : (n : ℕ) → All IsDigit (str_nat n)
unfolding str_nat
str_nat-IsDigit n = digits-IsDigit (suc n) n

append_cons : (s : Text) (c : ℕ) → (d : ℕ) × (t : Text) × (s ++ c ∷ [] ≡ d ∷ t)
append_cons [] c = (c, [], refl)
append_cons (d ∷ s) c = (d, s ++ c ∷ [], refl)

-- There is a first digit.
pub str_nat_cons : (n : ℕ) → (d : ℕ) × (t : Text) × (str_nat n ≡ d ∷ t)
unfolding str_nat digits
str_nat_cons n = elim (Bool-cases (ltb n 10)) [
  | inl small ↦ rw small (_, _, refl)
  | inr large ↦ rw large (append_cons _ _)
]

minus_no_digit : (s t : Text) → All IsDigit s → s ≢ b'-' ∷ t
minus_no_digit [] t h e = cc
minus_no_digit (c ∷ s) t h e = ground arith

tail_lem : {c : ℕ} {s t : Text} → ◌≡◌ {A = Text} (c ∷ s) (c ∷ t) → s ≡ t
tail_lem e = cc

-- Two integers with the same text are the same integer.
pub str_int-injective : (i j : ℤ) → str_int i ≡ str_int j → i ≡ j
unfolding str_int
str_int-injective (pos m) (pos n) e = ap pos (str_nat-injective m n e)
str_int-injective (pos m) (negsuc n) e = absurd (minus_no_digit _ _ (str_nat-IsDigit m) e)
str_int-injective (negsuc m) (pos n) e = absurd (minus_no_digit _ _ (str_nat-IsDigit n) (sym e))
str_int-injective (negsuc m) (negsuc n) e =
    let same : suc m ≡ suc n = str_nat-injective (suc m) (suc n) (tail_lem e) in
    ap negsuc (omega arith)
