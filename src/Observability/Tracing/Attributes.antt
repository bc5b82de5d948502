-- ===== src/Observability/Tracing/Attributes.antt =====
-- What a span holds after a series of attributes.
use temporal_agent_sandbox.Prelude.{
  Text, ◌==◌, Option, none, some, [], ◌∷◌, if◌then◌else◌, ◌≡◌, refl,
}
use temporal_agent_sandbox.Prelude.Dict.{Dict, get, get-put}
use temporal_agent_sandbox.Observability.Tracing.{Value, Span, set_attribute, set_attrs}

-- the value that the last entry for the key gives, among those that are not None
abbrev pub last_given : Text → Dict (Option Value) → Option Value → Option Value
last_given k [] old = old
last_given k ((j, none) ∷ attrs) old = last_given k attrs old
last_given k ((j, some v) ∷ attrs) old = last_given k attrs (if k == j then some v else old)

-- `set_attrs` writes exactly the attributes that are not None: each key holds what its last such entry
-- gives, and else what it held.
pub get-set_attrs :
    (k : Text) (attrs : Dict (Option Value)) (span : Span)
    → get k (set_attrs attrs span).attributes ≡ last_given k attrs (get k span.attributes)
unfolding set_attrs set_attribute
get-set_attrs k [] span = refl
get-set_attrs k ((j, none) ∷ attrs) span = get-set_attrs k attrs span
get-set_attrs k ((j, some v) ∷ attrs) span =
    rw (get-set_attrs k attrs (set_attribute j v span), get-put j k v span.attributes) refl
