-- ===== src/Api/Stream/Wire/Sorted.antt =====
-- The dump by which `gen` compares responses: it tells any two of them apart.
use temporal_agent_sandbox.Prelude.{Text, ◌≡◌, Bool-cases, inl, inr, All}
use temporal_agent_sandbox.Prelude.Json.Value.{
  Json, null, boolean, number, string, array, object, Items, no_items, item, Fields, no_fields,
  field,
}
use temporal_agent_sandbox.Prelude.Json.Reader.Scalars.{IsScalar}
use temporal_agent_sandbox.Prelude.Json.Reader.RoundTrip.{
  IsUnicode, IsUnicodeItems, IsUnicodeFields, dumps-injective,
}
use temporal_agent_sandbox.Api.Status.{RunStatusResponse}
use temporal_agent_sandbox.Api.Stream.Wire.{
  payload_json, precedes, insert_field, sort_keys, sort_items, sort_fields, sorted_dump,
}
use temporal_agent_sandbox.Api.Stream.Wire.Injective.{payload-injective}

insert_field-IsUnicode :
    (k : Text) (v : Json) (fs : Fields)
    → All IsScalar k
    → IsUnicode v
    → IsUnicodeFields fs
    → IsUnicodeFields (insert_field k v fs)
unfolding insert_field IsUnicode
insert_field-IsUnicode k v no_fields hk hv h = (hk, hv, tt)
insert_field-IsUnicode k v (field j w fs) hk hv h = elim (Bool-cases (precedes k j)) [
  | inl front ↦ rw front (hk, hv, h)
  | inr behind ↦ rw behind (h.0, h.1, insert_field-IsUnicode k v fs hk hv h.2)
]

mutual
  unfolding sort_keys IsUnicode

  sort_keys-IsUnicode : (v : Json) → IsUnicode v → IsUnicode (sort_keys v)
  sort_keys-IsUnicode null h = tt
  sort_keys-IsUnicode (boolean b) h = tt
  sort_keys-IsUnicode (number i) h = tt
  sort_keys-IsUnicode (string s) h = h
  sort_keys-IsUnicode (array vs) h = sort_items-IsUnicode vs h
  sort_keys-IsUnicode (object fs) h = sort_fields-IsUnicode fs h

  sort_items-IsUnicode : (vs : Items) → IsUnicodeItems vs → IsUnicodeItems (sort_items vs)
  sort_items-IsUnicode no_items h = tt
  sort_items-IsUnicode (item v vs) h = (sort_keys-IsUnicode v h.0, sort_items-IsUnicode vs h.1)

  sort_fields-IsUnicode : (fs : Fields) → IsUnicodeFields fs → IsUnicodeFields (sort_fields fs)
  sort_fields-IsUnicode no_fields h = tt
  sort_fields-IsUnicode (field k v fs) h =
      insert_field-IsUnicode k (sort_keys v) (sort_fields fs) h.0 (sort_keys-IsUnicode v h.1)
        (sort_fields-IsUnicode fs h.2)

-- The response holds scalar values only, as texts do that were decoded from UTF-8.
abbrev pub IsUnicodeAnswer : RunStatusResponse → Type 0
IsUnicodeAnswer a = IsUnicode (payload_json a)

-- Two responses with one dump are the same response.
pub sorted_dump-injective :
    (a b : RunStatusResponse)
    → IsUnicodeAnswer a
    → IsUnicodeAnswer b
    → sorted_dump a ≡ sorted_dump b
    → a ≡ b
unfolding sorted_dump
sorted_dump-injective a b u v e = payload-injective a b (
    dumps-injective _ _ (sort_keys-IsUnicode (payload_json a) u)
      (sort_keys-IsUnicode (payload_json b) v) e)
