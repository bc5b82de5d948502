-- ===== src/Observability/Tracing.antt =====
-- app/observability/tracing.py: the span helpers and the set-up of the tracer provider. A span is what
-- the program has written to it. The exporter's pipeline is OpenTelemetry's, named by its service and
-- its endpoint.
pub mod Attributes
use temporal_agent_sandbox.Prelude.{
  ℤ, Text, codes, Option, none, some, Bool, true, false, List, [], ◌∷◌, ◌++◌,
}
use temporal_agent_sandbox.Prelude.Dict.{Dict, put}

-- the values of span attributes that the program sets
pub data Value : Type 0 where
  text : Text → Value
  whole : ℤ → Value
  truth : Bool → Value

-- an attribute for `set_attrs`, and an optional text, which may be None
abbrev pub given : Text → Value → Text × Option Value
given k v = (k, some v)

abbrev pub maybe_text : Option Text → Option Value
maybe_text none = none
maybe_text (some s) = some (text s)

-- An exception: the name of its class, and its `str`.
pub record Exception : Type 0 where
  pub class_name : Text
  pub message : Text

pub record Span : Type 0 where
  pub name : Text
  pub attributes : Dict Value
  pub exceptions : List Exception
  pub error_status : Option Text

-- `tracer.start_as_current_span(name)`
pub start_span : Text → Span
start_span name = record { name = name; attributes = []; exceptions = []; error_status = none }

-- `span.set_attribute`
pub set_attribute : Text → Value → Span → Span
set_attribute k v span = record span { attributes = put k v span.attributes }

-- `set_observation_type`
pub set_observation_type : Text → Span → Span
unfolding set_attribute
set_observation_type obs_type span =
    set_attribute (codes "langfuse.observation.type") (text obs_type) span

-- `record_error`
pub record_error : Exception → Bool → Bool → Span → Span
unfolding set_attribute
record_error e retryable terminal span =
    let noted = record span { exceptions = span.exceptions ++ e ∷ [] } in
    let typed = set_attribute (codes "error.type") (text e.class_name) noted in
    let tried = set_attribute (codes "retryable") (truth retryable) typed in
    let ended = set_attribute (codes "failure.terminal") (truth terminal) tried in
    record ended { error_status = some e.message }

-- `set_attrs`; `none` is a value that is None
pub set_attrs : Dict (Option Value) → Span → Span
unfolding set_attribute
set_attrs [] span = span
set_attrs ((k, none) ∷ attrs) span = set_attrs attrs span
set_attrs ((k, some v) ∷ attrs) span = set_attrs attrs (set_attribute k v span)

-- a tracer provider, by the service and the endpoint of its exporter
pub record Provider : Type 0 where
  pub service : Text
  pub endpoint : Text

-- the module's `_initialized`, and the global provider
pub record Tracing : Type 0 where
  pub initialized : Bool
  pub provider : Option Provider

-- `setup_tracing`
pub setup_tracing : Text → Text → Tracing → Tracing
setup_tracing service_name otlp_endpoint t = elim t.initialized [
  | true ↦ t
  | false ↦ record {
    initialized = true;
    provider = some (record { service = service_name; endpoint = otlp_endpoint });
  }
]
