-- ===== src/Prelude/Json/Value.antt =====
-- A value that `json.dumps` writes (with its default separators and ASCII output), and its text. An
-- integer is the only number that the program writes.
pub mod Printable
use temporal_agent_sandbox.Prelude.{
  ℤ, Text, codes, str_int, Option, none, some, Bool, true, false, List, [], ◌∷◌, ◌++◌,
}
use temporal_agent_sandbox.Prelude.Json.{dumps_str}

mutual
  pub data Json : Type 0 where
    null : Json
    boolean : Bool → Json
    number : ℤ → Json
    string : Text → Json
    array : Items → Json
    object : Fields → Json

  pub data Items : Type 0 where
    no_items : Items
    item : Json → Items → Items

  pub data Fields : Type 0 where
    no_fields : Fields
    field : Text → Json → Fields → Fields

-- `json.dumps(value)`; the last two write what stands behind a first item or field
unfoldable mutual
  pub dumps : Json → Text
  dumps null = codes "null"
  dumps (boolean true) = codes "true"
  dumps (boolean false) = codes "false"
  dumps (number i) = str_int i
  dumps (string s) = dumps_str s
  dumps (array no_items) = codes "[]"
  dumps (array (item v vs)) = b'[' ∷ (dumps v ++ (dumps_items vs ++ b']' ∷ []))
  dumps (object no_fields) = codes "{}"
  dumps (object (field k v fs)) =
      b'{' ∷ (dumps_str k ++ (b':' ∷ b' ' ∷ (dumps v ++ (dumps_fields fs ++ b'}' ∷ []))))

  pub dumps_items : Items → Text
  dumps_items no_items = []
  dumps_items (item v vs) = b',' ∷ b' ' ∷ (dumps v ++ dumps_items vs)

  pub dumps_fields : Fields → Text
  dumps_fields no_fields = []
  dumps_fields (field k v fs) =
      b',' ∷ b' ' ∷ (dumps_str k ++ (b':' ∷ b' ' ∷ (dumps v ++ dumps_fields fs)))

-- a Python value that may be `None`
abbrev pub optional_string : Option Text → Json
optional_string none = null
optional_string (some s) = string s

abbrev pub strings : List Text → Items
strings [] = no_items
strings (s ∷ ss) = item (string s) (strings ss)

abbrev pub fields_of : List (Text × Json) → Fields
fields_of [] = no_fields
fields_of ((k, v) ∷ kvs) = field k v (fields_of kvs)
