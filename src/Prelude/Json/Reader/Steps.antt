-- ===== src/Prelude/Json/Reader/Steps.antt =====
-- The steps of the readers on what `json.dumps` writes, and its parts and their lengths.
use mathlib.Core.List.{append_assoc}
use temporal_agent_sandbox.Prelude.{
  ℕ, suc, ◌+◌, ◌≤◌, ℤ, str_int, Text, codes, starts_with, length, length-append, none, some, true,
  false, [], ◌∷◌, ◌++◌, nat_eq, ◌≡◌, refl, All, arith,
}
use temporal_agent_sandbox.Prelude.Json.{dumps_str}
use temporal_agent_sandbox.Prelude.Json.Value.{
  Json, null, boolean, number, string, array, object, Items, no_items, item, Fields, no_fields,
  field, dumps, dumps_items, dumps_fields,
}
use temporal_agent_sandbox.Prelude.Json.Reader.{
  read_number, is_space, skip, expect, read_plain, read_value, read_items, read_field, read_fields,
}
use temporal_agent_sandbox.Prelude.Json.Reader.Scalars.{
  IsScalar, Stops, read_string-dumps_str, read_number-str_int, str_int_cons,
}

plain_number :
    (i : ℤ) (rest : Text) → Stops rest → read_plain (str_int i ++ rest) ≡ some (number i, rest)
unfolding read_plain starts_with codes
plain_number i rest stop =
    let (c, t, e, first) = str_int_cons i in
    let whole : read_number (c ∷ (t ++ rest)) ≡ some (i, rest) =
      rw e at (read_number-str_int i rest stop) in
    rw e (ground (arith, whole, first))

-- A printed value begins with neither white space nor a closing bracket.
pub Opens : Text → Type 0
Opens [] = ⊥
Opens (c ∷ _) = (is_space c ≡ false) × (nat_eq b']' c ≡ false)

pub dumps-Opens : (v : Json) (s : Text) → Opens (dumps v ++ s)
unfolding dumps Opens is_space dumps_str codes
dumps-Opens null s = (refl, refl)
dumps-Opens (boolean true) s = (refl, refl)
dumps-Opens (boolean false) s = (refl, refl)
dumps-Opens (number i) s = let (c, t, e, first) = str_int_cons i in rw e (ground (arith, first))
dumps-Opens (string t) s = (refl, refl)
dumps-Opens (array no_items) s = (refl, refl)
dumps-Opens (array (item v vs)) s = (refl, refl)
dumps-Opens (object no_fields) s = (refl, refl)
dumps-Opens (object (field k v fs)) s = (refl, refl)

not_closed : (s : Text) → Opens s → expect b']' (skip s) ≡ none
unfolding Opens skip expect
not_closed [] h = absurd h
not_closed (c ∷ s) h = ground (arith, h)

pub items-Stops : (vs : Items) (rest : Text) → Stops (dumps_items vs ++ b']' ∷ rest)
unfolding dumps
items-Stops no_items rest = λ d. omega arith
items-Stops (item v vs) rest = λ d. omega arith

pub fields-Stops : (fs : Fields) (rest : Text) → Stops (dumps_fields fs ++ b'}' ∷ rest)
unfolding dumps
fields-Stops no_fields rest = λ d. omega arith
fields-Stops (field k v fs) rest = λ d. omega arith

-- One step of each reader, on texts that are given.
module _ (f : ℕ) (rest : Text) where
  pub array_step :
      (s more : Text) (v : Json) (vs : Items)
      → Opens s
      → read_value f s ≡ some (v, more)
      → read_items f more ≡ some (vs, rest)
      → read_value (suc (suc f)) (b'[' ∷ s) ≡ some (array (item v vs), rest)
  unfolding read_value
  array_step s more v vs opens e es = rw (not_closed s opens, read_value) (rw (e, es) refl)

  pub no_items_step : read_items (suc f) (b']' ∷ rest) ≡ some (no_items, rest)
  unfolding read_value
  no_items_step = refl

  pub items_step :
      (s more : Text) (v : Json) (vs : Items)
      → read_value f s ≡ some (v, more)
      → read_items (suc f) more ≡ some (vs, rest)
      → read_items (suc (suc f)) (b',' ∷ b' ' ∷ s) ≡ some (item v vs, rest)
  unfolding read_value
  items_step s more v vs e es = rw (e, es) refl

  pub object_step :
      (k s : Text) (fs : Fields)
      → read_field f (dumps_str k ++ s) ≡ some (fs, rest)
      → read_value (suc (suc f)) (b'{' ∷ (dumps_str k ++ s)) ≡ some (object fs, rest)
  unfolding read_value dumps_str
  object_step k s fs e = rw e refl

  pub no_fields_step : read_fields (suc f) (b'}' ∷ rest) ≡ some (no_fields, rest)
  unfolding read_value
  no_fields_step = refl

  pub field_step :
      (k s more : Text) (v : Json) (fs : Fields)
      → All IsScalar k
      → read_value f s ≡ some (v, more)
      → read_fields (suc f) more ≡ some (fs, rest)
      → read_field (suc (suc f)) (dumps_str k ++ b':' ∷ b' ' ∷ s) ≡ some (field k v fs, rest)
  unfolding read_value dumps_str
  field_step k s more v fs u e es = rw (read_string-dumps_str k (b':' ∷ b' ' ∷ s) u, e, es) refl

  pub fields_step :
      (k s : Text) (fs : Fields)
      → read_field (suc f) (dumps_str k ++ s) ≡ some (fs, rest)
      → read_fields (suc (suc f)) (b',' ∷ b' ' ∷ (dumps_str k ++ s)) ≡ some (fs, rest)
  unfolding read_value dumps_str
  fields_step k s fs e = e

-- What is printed, up to its first part.
pub text_array :
    (v : Json) (vs : Items) (rest : Text)
    → dumps (array (item v vs)) ++ rest ≡ b'[' ∷ (dumps v ++ (dumps_items vs ++ b']' ∷ rest))
unfolding dumps
text_array v vs rest = simp append_assoc

pub text_items :
    (v : Json) (vs : Items) (rest : Text)
    → dumps_items (item v vs) ++ rest ≡ b',' ∷ b' ' ∷ (dumps v ++ (dumps_items vs ++ rest))
unfolding dumps
text_items v vs rest = simp append_assoc

pub text_object :
    (k : Text) (v : Json) (fs : Fields) (rest : Text)
    → dumps (object (field k v fs)) ++ rest
      ≡ b'{' ∷ (dumps_str k ++ b':' ∷ b' ' ∷ (dumps v ++ (dumps_fields fs ++ b'}' ∷ rest)))
unfolding dumps
text_object k v fs rest = simp append_assoc

pub text_fields :
    (k : Text) (v : Json) (fs : Fields) (rest : Text)
    → dumps_fields (field k v fs) ++ rest
      ≡ b',' ∷ b' ' ∷ (dumps_str k ++ b':' ∷ b' ' ∷ (dumps v ++ (dumps_fields fs ++ rest)))
unfolding dumps
text_fields k v fs rest = simp append_assoc

-- and how long it is
pub length_array :
    (v : Json) (vs : Items)
    → length (dumps (array (item v vs))) ≡ length (dumps v) + length (dumps_items vs) + 2
unfolding dumps
length_array v vs = omega (
  arith,
  length-append (dumps v) (dumps_items vs ++ b']' ∷ []),
  length-append (dumps_items vs) (b']' ∷ []),
)

pub length_items :
    (v : Json) (vs : Items)
    → length (dumps_items (item v vs)) ≡ length (dumps v) + length (dumps_items vs) + 2
unfolding dumps
length_items v vs = omega (arith, length-append (dumps v) (dumps_items vs))

pub length_fields :
    (k : Text) (v : Json) (fs : Fields)
    → length (dumps v) + length (dumps_fields fs) + 4 ≤ length (dumps_fields (field k v fs))
unfolding dumps
length_fields k v fs = omega (
  arith,
  length-append (dumps_str k) (b':' ∷ b' ' ∷ (dumps v ++ dumps_fields fs)),
  length-append (dumps v) (dumps_fields fs),
)

pub length_object :
    (k : Text) (v : Json) (fs : Fields)
    → length (dumps v) + length (dumps_fields fs) + 4 ≤ length (dumps (object (field k v fs)))
unfolding dumps
length_object k v fs = omega (
  arith,
  length-append (dumps_str k) (b':' ∷ b' ' ∷ (dumps v ++ (dumps_fields fs ++ b'}' ∷ []))),
  length-append (dumps v) (dumps_fields fs ++ b'}' ∷ []),
  length-append (dumps_fields fs) (b'}' ∷ []),
)

pub name_step :
    (f : ℕ) (rest : Text)
    → (read_value (suc f) (codes "null" ++ rest) ≡ some (null, rest))
      × (read_value (suc f) (codes "true" ++ rest) ≡ some (boolean true, rest))
      × (read_value (suc f) (codes "false" ++ rest) ≡ some (boolean false, rest))
      × (read_value (suc (suc f)) (codes "[]" ++ rest) ≡ some (array no_items, rest))
      × (read_value (suc (suc f)) (codes "{}" ++ rest) ≡ some (object no_fields, rest))
unfolding read_value starts_with codes
name_step f rest = (refl, refl, refl, refl, refl)

pub number_step :
    (f : ℕ) (i : ℤ) (rest : Text)
    → Stops rest
    → read_value (suc f) (str_int i ++ rest) ≡ some (number i, rest)
unfolding read_value
number_step f i rest stop =
    let (c, t, e, first) = str_int_cons i in
    let whole : read_plain (c ∷ (t ++ rest)) ≡ some (number i, rest) =
      rw e at (plain_number i rest stop) in
    rw e (ground (arith, whole, first))

pub string_step :
    (f : ℕ) (t rest : Text)
    → All IsScalar t
    → read_value (suc f) (dumps_str t ++ rest) ≡ some (string t, rest)
unfolding read_value dumps_str
string_step f t rest u = rw (read_string-dumps_str t rest u) refl
