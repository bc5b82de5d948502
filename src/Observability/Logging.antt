-- ===== src/Observability/Logging.antt =====
-- app/observability/logging.py: the correlation filter, the JSON formatter and the set-up of the root
-- logger. The attributes of a log record are its `__dict__`, with values as `json.dumps` takes them (or
-- as their `str`, by `default=str`).
pub mod Lines
use temporal_agent_sandbox.Prelude.{
  ℕ, suc, zero, ◌-◌, ◌/◌, ◌%◌, Text, codes, leb, nat_eq, is_one_of, Option, none, some, Bool, true,
  false, not, ◌&&◌, ◌||◌, List, [], ◌∷◌, ◌++◌, map, if◌then◌else◌,
}
use temporal_agent_sandbox.Prelude.Dict.{Dict, get, put}
use temporal_agent_sandbox.Prelude.Json.{hex_digit}
use temporal_agent_sandbox.Prelude.Json.Value.{
  Json, null, string, object, dumps, optional_string, fields_of,
}

-- What the context variables hold, and the ids of the current span, if it is a valid one.
pub record Context : Type 0 where
  pub run_id : Option Text
  pub tenant_id : Option Text
  pub span : Option (ℕ × ℕ)

-- `created` as `isoformat` prints it, and `traceback` as `formatException` prints `exc_info`
pub record LogRecord : Type 0 where
  pub created : Text
  pub levelname : Text
  pub name : Text
  pub message : Text
  pub attributes : Dict Json
  pub traceback : Option Text

-- `format(n, "032x")` and `format(n, "016x")`, for a number of at most so many digits
pub hex_padded : ℕ → ℕ → Text
hex_padded zero n = []
hex_padded (suc width) n = hex_padded width (n / 16) ++ hex_digit (n % 16) ∷ []

abbrev pub trace_id : Context → Json
trace_id ctx = elim ctx.span [ none ↦ null | some (t, s) ↦ string (hex_padded 32 t) ]

abbrev pub span_id : Context → Json
span_id ctx = elim ctx.span [ none ↦ null | some (t, s) ↦ string (hex_padded 16 s) ]

-- `CorrelationFilter.filter`, which lets every record pass
pub filter : Context → LogRecord → LogRecord
filter ctx r =
    let with_run = put (codes "run_id") (optional_string ctx.run_id) r.attributes in
    let with_tenant = put (codes "tenant_id") (optional_string ctx.tenant_id) with_run in
    let with_trace = put (codes "trace_id") (trace_id ctx) with_tenant in
    record r { attributes = put (codes "span_id") (span_id ctx) with_trace }

-- `getattr(record, key, None)`
abbrev pub attribute : Text → LogRecord → Json
attribute k r = elim (get k r.attributes) [ none ↦ null | some v ↦ v ]

-- the payload before the extras
pub standard : Text → LogRecord → Dict Json
standard service r =
    (codes "ts", string r.created)
    ∷ (codes "level", string r.levelname)
    ∷ (codes "service", string service)
    ∷ (codes "logger", string r.name)
    ∷ (codes "msg", string r.message)
    ∷ (codes "run_id", attribute (codes "run_id") r)
    ∷ (codes "tenant_id", attribute (codes "tenant_id") r)
    ∷ (codes "trace_id", attribute (codes "trace_id") r)
    ∷ (codes "span_id", attribute (codes "span_id") r)
    ∷ []

-- `_RESERVED`: the attributes of an empty log record, which are Python's, and three more
pub reserved : List Text → List Text
reserved of_python = of_python ++ codes "message" ∷ codes "asctime" ∷ codes "taskName" ∷ []

abbrev pub is_none {ℓ} : {A : Type ℓ} → Option A → Bool
is_none none = true
is_none (some _) = false

-- the loop over the extras
pub promote : List Text → Dict Json → Dict Json → Dict Json
promote names [] payload = payload
promote names ((k, v) ∷ attrs) payload =
    promote names attrs
      (if not (is_one_of k names) && is_none (get k payload) then put k v payload else payload)

abbrev pub with_exc : Option Text → Dict Json → Dict Json
with_exc none payload = payload
with_exc (some t) payload = put (codes "exc") (string t) payload

pub payload_of : List Text → Text → LogRecord → Dict Json
unfolding standard reserved promote
payload_of of_python service r =
    with_exc r.traceback (promote (reserved of_python) r.attributes (standard service r))

-- `JsonFormatter.format`
unfoldable pub format : List Text → Text → LogRecord → Text
unfolding payload_of
format of_python service r = dumps (object (fields_of (payload_of of_python service r)))

-- A handler is an object: its identity, and the service of its `JsonFormatter`, if it has one, with the
-- correlation filter.
pub record Handler : Type 0 where
  pub identity : ℕ
  pub service : Option Text

pub record Loggers : Type 0 where
  pub level : Text
  pub handlers : List Handler
  pub uvicorn_access : List Handler

-- `root.removeHandler(h)`
pub remove_handler : Handler → List Handler → List Handler
remove_handler h [] = []
remove_handler h (x ∷ xs) =
    let rest = remove_handler h xs in if nat_eq x.identity h.identity then xs else x ∷ rest

pub remove_each : List Handler → List Handler → List Handler
unfolding remove_handler
remove_each [] handlers = handlers
remove_each (h ∷ hs) handlers = remove_each hs (remove_handler h handlers)

abbrev upper_ascii : ℕ → ℕ
upper_ascii c = if leb b'a' c && leb c b'z' then c - 32 else c

-- `configure_logging`, for a level's name in ASCII letters; the new handler is a new object
unfoldable pub configure_logging : Text → Text → ℕ → Loggers → Loggers
unfolding remove_each
configure_logging service level fresh l = record {
  level = map upper_ascii level;
  handlers =
      remove_each l.handlers l.handlers
      ++ (record { identity = fresh; service = some service }) ∷ [];
  uvicorn_access = [];
}
