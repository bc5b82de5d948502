-- ===== src/Prelude/Json/Reader/RoundTrip.antt =====
-- What `json.dumps` writes is read back by `json.loads`, if its strings hold scalar values.
use mathlib.Core.List.{append-nil}
use temporal_agent_sandbox.Prelude.{
  ℕ, zero, suc, ◌+◌, ◌*◌, ◌<◌, Text, codes, length, some, true, false, [], ◌∷◌, ◌++◌, ◌≡◌, refl,
  sym, ap, ◌∙◌, All, arith,
}
use temporal_agent_sandbox.Prelude.Json.{dumps_str}
use temporal_agent_sandbox.Prelude.Json.Value.{
  Json, null, boolean, number, string, array, object, Items, no_items, item, Fields, no_fields,
  field, dumps, dumps_items, dumps_fields,
}
use temporal_agent_sandbox.Prelude.Json.Reader.{
  read_value, read_items, read_field, read_fields, loads,
}
use temporal_agent_sandbox.Prelude.Json.Reader.Scalars.{IsScalar, Stops}
use temporal_agent_sandbox.Prelude.Json.Reader.Steps.{
  dumps-Opens, items-Stops, fields-Stops, array_step, no_items_step, items_step, object_step,
  no_fields_step, field_step, fields_step, text_array, text_items, text_object, text_fields,
  length_array, length_items, length_fields, length_object, name_step, number_step, string_step,
}

-- all strings of a value, the keys included, hold scalar values
unfoldable mutual
  pub IsUnicode : Json → Type 0
  IsUnicode null = Unit
  IsUnicode (boolean b) = Unit
  IsUnicode (number i) = Unit
  IsUnicode (string s) = All IsScalar s
  IsUnicode (array vs) = IsUnicodeItems vs
  IsUnicode (object fs) = IsUnicodeFields fs

  pub IsUnicodeItems : Items → Type 0
  IsUnicodeItems no_items = Unit
  IsUnicodeItems (item v vs) = IsUnicode v × IsUnicodeItems vs

  pub IsUnicodeFields : Fields → Type 0
  IsUnicodeFields no_fields = Unit
  IsUnicodeFields (field k v fs) = All IsScalar k × IsUnicode v × IsUnicodeFields fs

-- With fuel above twice its length, what is printed is read off the front of a text.
mutual
  unfolding IsUnicode dumps codes

  value_lem :
      (v : Json) (rest : Text) (f : ℕ)
      → IsUnicode v
      → Stops rest
      → 2 * length (dumps v) < f
      → read_value f (dumps v ++ rest) ≡ some (v, rest)
  value_lem v rest zero u stop h = absurd (omega arith)
  value_lem null rest (suc f) u stop h = (name_step f rest).0
  value_lem (boolean true) rest (suc f) u stop h = (name_step f rest).1
  value_lem (boolean false) rest (suc f) u stop h = (name_step f rest).2
  value_lem (number i) rest (suc f) u stop h = number_step f i rest stop
  value_lem (string s) rest (suc f) u stop h = string_step f s rest u
  value_lem (array no_items) rest (suc zero) u stop h = absurd (omega arith)
  value_lem (array (item v vs)) rest (suc zero) u stop h = absurd (omega (arith, length_array v vs))
  value_lem (object no_fields) rest (suc zero) u stop h = absurd (omega arith)
  value_lem (object (field k v fs)) rest (suc zero) u stop h =
      absurd (omega (arith, length_object k v fs))
  value_lem (array no_items) rest (suc (suc f)) u stop h = (name_step f rest).3
  value_lem (object no_fields) rest (suc (suc f)) u stop h = (name_step f rest).4
  value_lem (array (item v vs)) rest (suc (suc f)) u stop h =
      ap (read_value (suc (suc f))) (text_array v vs rest)
      ∙ array_step f rest _ _ v vs (dumps-Opens v _)
          (value_lem v _ f u.0 (items-Stops vs rest) (omega (arith, length_array v vs)))
          (items_lem vs rest f u.1 (omega (arith, length_array v vs)))
  value_lem (object (field k v fs)) rest (suc (suc f)) u stop h =
      ap (read_value (suc (suc f))) (text_object k v fs rest)
      ∙ object_step f rest k _ (field k v fs)
          (field_lem k v fs rest f u.0 u.1 u.2 (omega (arith, length_object k v fs)))

  items_lem :
      (vs : Items) (rest : Text) (f : ℕ)
      → IsUnicodeItems vs
      → 2 * length (dumps_items vs) < f
      → read_items f (dumps_items vs ++ b']' ∷ rest) ≡ some (vs, rest)
  items_lem vs rest zero u h = absurd (omega arith)
  items_lem no_items rest (suc f) u h = no_items_step f rest
  items_lem (item v vs) rest (suc zero) u h = absurd (omega (arith, length_items v vs))
  items_lem (item v vs) rest (suc (suc f)) u h =
      ap (read_items (suc (suc f))) (text_items v vs (b']' ∷ rest))
      ∙ items_step f rest _ _ v vs
          (value_lem v _ f u.0 (items-Stops vs rest) (omega (arith, length_items v vs)))
          (items_lem vs rest (suc f) u.1 (omega (arith, length_items v vs)))

  field_lem :
      (k : Text) (v : Json) (fs : Fields) (rest : Text) (f : ℕ)
      → All IsScalar k
      → IsUnicode v
      → IsUnicodeFields fs
      → 2 * (length (dumps v) + length (dumps_fields fs)) + 2 < f
      → read_field f (dumps_str k ++ b':' ∷ b' ' ∷ (dumps v ++ (dumps_fields fs ++ b'}' ∷ rest)))
        ≡ some (field k v fs, rest)
  field_lem k v fs rest zero uk u us h = absurd (omega arith)
  field_lem k v fs rest (suc zero) uk u us h = absurd (omega arith)
  field_lem k v fs rest (suc (suc f)) uk u us h =
      field_step f rest k _ _ v fs uk (value_lem v _ f u (fields-Stops fs rest) (omega arith))
        (fields_lem fs rest (suc f) us (omega arith))

  fields_lem :
      (fs : Fields) (rest : Text) (f : ℕ)
      → IsUnicodeFields fs
      → 2 * length (dumps_fields fs) < f
      → read_fields f (dumps_fields fs ++ b'}' ∷ rest) ≡ some (fs, rest)
  fields_lem fs rest zero u h = absurd (omega arith)
  fields_lem no_fields rest (suc f) u h = no_fields_step f rest
  fields_lem (field k v fs) rest (suc zero) u h = absurd (omega (arith, length_fields k v fs))
  fields_lem (field k v fs) rest (suc (suc f)) u h =
      ap (read_fields (suc (suc f))) (text_fields k v fs (b'}' ∷ rest))
      ∙ fields_step f rest k _ (field k v fs)
          (field_lem k v fs rest (suc f) u.0 u.1 u.2 (omega (arith, length_fields k v fs)))

-- What is printed for a value is read back as that value.
pub loads-dumps : (v : Json) → IsUnicode v → loads (dumps v) ≡ some v
unfolding loads
loads-dumps v u =
    let whole : read_value (2 * length (dumps v) + 1) (dumps v) ≡ some (v, []) =
      ap (read_value (2 * length (dumps v) + 1)) (sym (append-nil (dumps v)))
      ∙ value_lem v [] (2 * length (dumps v) + 1) u tt (omega arith) in
    rw (whole, loads) refl

-- No two such values are printed alike.
pub dumps-injective : (v w : Json) → IsUnicode v → IsUnicode w → dumps v ≡ dumps w → v ≡ w
dumps-injective v w u u' e = cc (loads-dumps v u, loads-dumps w u', ap loads e)
