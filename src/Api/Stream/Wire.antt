-- ===== src/Api/Stream/Wire.antt =====
-- The text of the event stream: `_sse`, the `model_dump` of a status response, and `json.dumps` of it
-- with its keys sorted, as `gen` of app/api/routes_runs.py writes and compares them.
pub mod Reader
pub mod Injective
pub mod Sorted
pub mod Client
use temporal_agent_sandbox.Prelude.{
  ℕ, ℤ, pos, Text, codes, ltb, nat_eq, Option, none, some, Bool, true, false, List, [], ◌∷◌, ◌++◌,
  if◌then◌else◌,
}
use mathlib.Core.List.{flat_map}
use temporal_agent_sandbox.Prelude.Json.Value.{
  Json, null, boolean, number, string, array, object, Items, no_items, item, Fields, no_fields,
  field, dumps, optional_string, strings, fields_of,
}
use temporal_agent_sandbox.Config.{Settings}
use temporal_agent_sandbox.Api.Status.{
  StepModel, SandboxModel, RunResultModel, ErrorDetail, RunStatusResponse,
}
use temporal_agent_sandbox.Api.Stream.{
  Poll, Frame, event, done, keepalive, End, start, max_duration, gen,
}

-- `model_dump` keeps the order of the fields of the class
pub step_json : StepModel → Json
step_json s = object (
    field (codes "name") (string s.name) (
      field (codes "state") (string s.state)
        (field (codes "detail") (optional_string s.detail) no_fields)))

pub sandbox_json : SandboxModel → Json
sandbox_json sb = object (
    fields_of (
      (codes "runtime", string sb.runtime)
      ∷ (codes "exit_code", number sb.exit_code)
      ∷ (codes "ok", boolean sb.is_success)
      ∷ (codes "failure_reason", optional_string sb.failure_reason)
      ∷ (codes "wall_ms", number (pos sb.wall_ms))
      ∷ (codes "oom_killed", boolean sb.oom_killed)
      ∷ (codes "wall_clock_exceeded", boolean sb.wall_clock_exceeded)
      ∷ (codes "truncated", boolean sb.truncated)
      ∷ (codes "stdout_tail", string sb.stdout_tail)
      ∷ (codes "stderr_tail", string sb.stderr_tail)
      ∷ []))

abbrev pub optional_json : {A : Type 0} → (A → Json) → Option A → Json
optional_json f none = null
optional_json f (some a) = f a

pub result_json : RunResultModel → Json
unfolding sandbox_json
result_json r = object (
    fields_of (
      (codes "summary", optional_string r.summary)
      ∷ (codes "code", optional_string r.code)
      ∷ (codes "sandbox", optional_json sandbox_json r.sandbox)
      ∷ []))

pub error_json : ErrorDetail → Json
error_json e = object (
    fields_of (
      (codes "code", string e.code)
      ∷ (codes "step", optional_string e.step)
      ∷ (codes "message", string e.message)
      ∷ (codes "retryable", boolean e.retryable)
      ∷ []))

pub steps_json : List StepModel → Items
unfolding step_json
steps_json [] = no_items
steps_json (s ∷ ss) = item (step_json s) (steps_json ss)

-- `resp.model_dump()`
unfoldable pub payload_json : RunStatusResponse → Json
unfolding result_json error_json steps_json
payload_json a = object (
    fields_of (
      (codes "run_id", string a.run_id)
      ∷ (codes "status", string a.status)
      ∷ (codes "stage", string a.stage)
      ∷ (codes "current_step", optional_string a.current_step)
      ∷ (codes "completed_steps", array (strings a.completed_steps))
      ∷ (codes "steps", array (steps_json a.steps))
      ∷ (codes "result", optional_json result_json a.result)
      ∷ (codes "error", optional_json error_json a.error)
      ∷ []))

-- The order of `str`, by code points.
pub precedes : Text → Text → Bool
precedes [] t = true
precedes (a ∷ s) [] = false
precedes (a ∷ s) (b ∷ t) = if nat_eq a b then precedes s t else ltb a b

pub insert_field : Text → Json → Fields → Fields
unfolding precedes
insert_field k v no_fields = field k v no_fields
insert_field k v (field j w fs) =
    let rest = insert_field k v fs in
    if precedes k j then field k v (field j w fs) else field j w rest

-- what `sort_keys=True` writes
mutual
  unfolding insert_field

  pub sort_keys : Json → Json
  sort_keys null = null
  sort_keys (boolean b) = boolean b
  sort_keys (number i) = number i
  sort_keys (string s) = string s
  sort_keys (array vs) = array (sort_items vs)
  sort_keys (object fs) = object (sort_fields fs)

  pub sort_items : Items → Items
  sort_items no_items = no_items
  sort_items (item v vs) = item (sort_keys v) (sort_items vs)

  pub sort_fields : Fields → Fields
  sort_fields no_fields = no_fields
  sort_fields (field k v fs) = insert_field k (sort_keys v) (sort_fields fs)

-- `json.dumps(payload, sort_keys=True, default=str)`
pub sorted_dump : RunStatusResponse → Text
unfolding sort_keys payload_json
sorted_dump a = dumps (sort_keys (payload_json a))

-- `_sse`
pub sse : Text → Json → Text
sse name payload =
    codes "event: " ++ (name ++ (codes "\ndata: " ++ (dumps payload ++ codes "\n\n")))

-- the data of the last event
pub done_json : Text → Option Text → Json
done_json run_id none = object (field (codes "run_id") (string run_id) no_fields)
done_json run_id (some reason) =
    object
      (field (codes "run_id") (string run_id) (field (codes "reason") (string reason) no_fields))

pub frame_text : Text → Frame → Text
unfolding sse payload_json done_json
frame_text run_id (event name a) = sse name (payload_json a)
frame_text run_id (done reason) = sse (codes "done") (done_json run_id reason)
frame_text run_id keepalive = codes ":keepalive\n\n"

-- the text that the generator of `stream_run` yields
unfoldable pub stream_text : Settings → Text → List Poll → Text
unfolding frame_text sorted_dump
stream_text s run_id polls =
    flat_map (frame_text run_id) (gen sorted_dump (max_duration s) start polls).0
