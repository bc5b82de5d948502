-- ===== src/Observability/Logging/Lines.antt =====
-- What a log line holds.
use temporal_agent_sandbox.Prelude.{
  ℕ, Text, codes, ◌==◌, ==_iff, nat_eq_iff, is_one_of, Option, none, some, false, List, [], ◌∷◌,
  if◌then◌else◌, ◌≡◌, refl, ap, arith, Option-cases, inl, inr,
}
use temporal_agent_sandbox.Prelude.Dict.{Dict, get, put, get-put}
use temporal_agent_sandbox.Prelude.Json.Value.{Json, string, optional_string}
use temporal_agent_sandbox.Prelude.Json.Value.Printable.{IsPrintable, dumps-IsPrintable}
use temporal_agent_sandbox.Observability.Logging.{
  Context, LogRecord, trace_id, span_id, filter, attribute, standard, reserved, promote, payload_of,
  format, Handler, Loggers, remove_handler, remove_each, configure_logging,
}

-- the value of a key in the first of two dictionaries that has it
abbrev pub first_of : Option Json → Option Json → Option Json
first_of none o = o
first_of (some v) o = some v

-- an attribute that is not reserved
abbrev pub extra : List Text → Text → Dict Json → Option Json
extra names k attrs = if is_one_of k names then none else get k attrs

get-promote :
    (names : List Text) (k : Text) (attrs payload : Dict Json)
    → get k (promote names attrs payload) ≡ first_of (get k payload) (extra names k attrs)
unfolding promote get
get-promote names k [] payload = ground arith
get-promote names k ((j, v) ∷ attrs) payload = ground (
  arith,
  get-promote names k attrs payload,
  get-promote names k attrs (put j v payload),
  get-put j k v payload,
  ==_iff k j,
)

-- Every key of a line: "exc" is the traceback, if there is one; a standard key is the record's own
-- value, which no extra changes; any other key is the extra's value, unless it is reserved.
pub get-payload_of :
    (of_python : List Text) (service k : Text) (r : LogRecord)
    → get k (payload_of of_python service r) ≡ (
        if k == codes "exc"
        then first_of
            (elim r.traceback [ none ↦ none | some t ↦ some (string t) ])
            (first_of (get k (standard service r)) (extra (reserved of_python) k r.attributes))
        else first_of (get k (standard service r)) (extra (reserved of_python) k r.attributes))
unfolding payload_of
get-payload_of of_python service k r = elim (Option-cases r.traceback) [
  | inl none_raised ↦
      rw none_raised
        (ground (arith, get-promote (reserved of_python) k r.attributes (standard service r)))
  | inr (t, raised) ↦ rw raised (
      ground (
        arith,
        get-promote (reserved of_python) k r.attributes (standard service r),
        get-put (codes "exc") k (string t)
            (promote (reserved of_python) r.attributes (standard service r)),
      ))
]

-- The four keys that join logs and traces, as the context has them.
pub record IsCorrelated (ctx : Context) (get_key : Text → Option Json) : Type 0 where
  pub run_id : get_key (codes "run_id") ≡ some (optional_string ctx.run_id)
  pub tenant_id : get_key (codes "tenant_id") ≡ some (optional_string ctx.tenant_id)
  pub trace_id : get_key (codes "trace_id") ≡ some (trace_id ctx)
  pub span_id : get_key (codes "span_id") ≡ some (span_id ctx)

filter-IsCorrelated :
    (ctx : Context) (r : LogRecord) → IsCorrelated ctx (λ k. get k (filter ctx r).attributes)
unfolding filter codes ◌==◌
filter-IsCorrelated ctx r = record {
  run_id = rw (get-put, get-put, get-put, get-put) refl;
  tenant_id = rw (get-put, get-put, get-put) refl;
  trace_id = rw (get-put, get-put) refl;
  span_id = rw get-put refl;
}

attribute-some :
    (k : Text) (r : LogRecord) (v : Json) → get k r.attributes ≡ some v → attribute k r ≡ v
attribute-some k r v e = rw (e, attribute) refl

standard-IsCorrelated :
    (ctx : Context) (service : Text) (r : LogRecord)
    → IsCorrelated ctx (λ k. get k r.attributes)
    → IsCorrelated ctx (λ k. get k (standard service r))
unfolding standard get codes ◌==◌
standard-IsCorrelated ctx service r h = record {
  run_id = ap some (attribute-some (codes "run_id") r _ h.run_id);
  tenant_id = ap some (attribute-some (codes "tenant_id") r _ h.tenant_id);
  trace_id = ap some (attribute-some (codes "trace_id") r _ h.trace_id);
  span_id = ap some (attribute-some (codes "span_id") r _ h.span_id);
}

-- A standard key but "exc" is the record's own.
get-payload_of-standard :
    (of_python : List Text) (service k : Text) (r : LogRecord) (v : Json)
    → (k == codes "exc") ≡ false
    → get k (standard service r) ≡ some v
    → get k (payload_of of_python service r) ≡ some v
get-payload_of-standard of_python service k r v other e = rw (get-payload_of, other, e) refl

-- A line that has passed the filter and the formatter is printable ASCII, so it is one line, whatever
-- the message, the extras and the traceback hold; and its run id, tenant id, trace id and span id are
-- those of the context, whatever extras of these names the caller passed.
pub format-IsCorrelated :
    (of_python : List Text) (service : Text) (ctx : Context) (r : LogRecord)
    → IsPrintable (format of_python service (filter ctx r))
      × IsCorrelated ctx (λ k. get k (payload_of of_python service (filter ctx r)))
unfolding codes ◌==◌ format
format-IsCorrelated of_python service ctx r =
    let h = standard-IsCorrelated ctx service (filter ctx r) (filter-IsCorrelated ctx r) in
    let keep = get-payload_of-standard of_python service in
    (
      dumps-IsPrintable _,
      record {
        run_id = keep (codes "run_id") (filter ctx r) _ refl h.run_id;
        tenant_id = keep (codes "tenant_id") (filter ctx r) _ refl h.tenant_id;
        trace_id = keep (codes "trace_id") (filter ctx r) _ refl h.trace_id;
        span_id = keep (codes "span_id") (filter ctx r) _ refl h.span_id;
      },
    )

remove_each_all : (hs : List Handler) → remove_each hs hs ≡ []
unfolding remove_each remove_handler
remove_each_all [] = refl
remove_each_all (h ∷ hs) = ground (arith, nat_eq_iff h.identity h.identity, remove_each_all hs)

-- After the set-up the root logger has one handler, the new one, whatever handlers it had.
pub configure_logging_lem :
    (service level : Text) (fresh : ℕ) (l : Loggers)
    → (configure_logging service level fresh l).handlers
      ≡ (record { identity = fresh; service = some service }) ∷ []
unfolding configure_logging
configure_logging_lem service level fresh l = rw (remove_each_all l.handlers) refl
