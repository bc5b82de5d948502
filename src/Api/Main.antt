-- ===== src/Api/Main.antt =====
-- app/api/main.py: the application. A request has been routed, and its body parsed, by FastAPI; the
-- routes of app/api/routes_runs.py verify the token before FastAPI validates the body and calls the
-- handler. A response is what leaves the correlation middleware.
pub mod Gate
pub mod Envelope
pub mod History
pub mod Lifespan
use temporal_agent_sandbox.Prelude.{
  ℕ, ◌+◌, Text, codes, nat_eq, Option, none, some, Bool, true, false, List, [], ◌∷◌, ◌++◌,
  if◌then◌else◌,
}
use temporal_agent_sandbox.Prelude.Utf8.{Bytes}
use temporal_agent_sandbox.Prelude.Json.Value.{Json, string, object, optional_string, fields_of}
use temporal_agent_sandbox.Config.{Settings}
use temporal_agent_sandbox.Api.Errors.{
  Raised, api_error, rpc_error, other_error, Result, ok, err, ◌>>=◌,
}
use temporal_agent_sandbox.Api.Auth.{verify_token}
use temporal_agent_sandbox.Api.Ids.{RunRequest, validates}
use temporal_agent_sandbox.Api.Create.{Client, Accepted, create_run}
use temporal_agent_sandbox.Api.Status.{Handle, resolve_status, open_stream, cancel_run}
use temporal_agent_sandbox.Api.Stream.{Poll}
use temporal_agent_sandbox.Api.Stream.Wire.{payload_json, stream_text}

-- What the application uses of Temporal: the client of `create_run`, the handle of a run, the effect of
-- a request to cancel, whether the client is there yet, and the text of the exception of the health
-- check, if it raises one.
pub record Backend (S : Type 0) : Type 0 where
  pub client : Client S
  pub handle : Text → S → Handle
  pub cancel : Text → S → S
  pub connected : S → Bool
  pub check_health : S → Option Text

-- A body that is no JSON, with the text of its errors; or one that is, with the text of the errors that
-- FastAPI reports if it does not validate.
pub data Body : Type 0 where
  malformed : Text → Body
  parsed : RunRequest → Text → Body

pub data Route : Type 0 where
  create : Body → Route
  read : Text → Route
  stream : Text → List Poll → Route
  cancel : Text → Route
  healthz readyz : Route

-- the two headers that are read, and the value of `uuid.uuid4().hex` for this request
pub record Request : Type 0 where
  pub route : Route
  pub authorization : Option Text
  pub request_id : Option Text
  pub fresh : Text

pub data Content : Type 0 where
  json : Json → Content
  event_stream : Text → Content

pub record Response : Type 0 where
  pub status_code : ℕ
  pub request_id : Text
  pub www_authenticate : Bool
  pub content : Content

-- `request.headers.get("x-request-id") or uuid.uuid4().hex`
pub request_id_of : Request → Text
request_id_of q = elim q.request_id [ none ↦ q.fresh | some [] ↦ q.fresh | some (c ∷ s) ↦ c ∷ s ]

abbrev pub error_json : Text → Text → Text → Json
error_json code message request_id = object (
    fields_of (
      (
        codes "error",
        object (
            fields_of (
              (codes "code", string code)
              ∷ (codes "message", string message)
              ∷ (codes "request_id", string request_id)
              ∷ [])),
      )
      ∷ []))

-- `_envelope`
pub envelope : Text → ℕ → Text → Text → Response
envelope request_id status_code code message = record {
  status_code = status_code;
  request_id = request_id;
  www_authenticate = nat_eq status_code 401;
  content = json (error_json code message request_id);
}

-- A handler's answer behind the exception handlers and the middleware. The two handlers make an
-- envelope; any other exception leaves the application, and `none` is the server's own answer to that.
pub answer : Text → Result (ℕ × Content) → Option Response
unfolding envelope
answer request_id (ok (status_code, content)) = some (record {
  status_code = status_code;
  request_id = request_id;
  www_authenticate = false;
  content = content;
})
answer request_id (err (api_error status_code code message)) =
    some (envelope request_id status_code code message)
answer request_id (err (rpc_error code)) = none
answer request_id (err (other_error name)) = none

-- a `RequestValidationError`, which its handler turns into the envelope of this error
abbrev pub validation_error : Text → Raised
validation_error errors = api_error 422 (codes "VALIDATION_ERROR") errors

pub accepted_json : Accepted → Json
accepted_json a = object (
    fields_of (
      (codes "run_id", string a.run_id)
      ∷ (codes "status", string a.status)
      ∷ (codes "tenant_id", string a.tenant_id)
      ∷ []))

abbrev status_json : Text → List (Text × Json) → Json
status_json status more = object (fields_of ((codes "status", string status) ∷ more))

module _ {S : Type 0} (b : Backend S) (s : Settings) (sha256 : Bytes → Text) where
  -- `readyz`
  pub ready : S → ℕ × Content
  ready server =
      if b.connected server
      then elim (b.check_health server) [
        | none ↦ (200, json (status_json (codes "ready") []))
        | some reason ↦
            (503, json (status_json (codes "not-ready") ((codes "reason", string reason) ∷ [])))
      ]
      else (
        503,
        json (
            status_json (codes "not-ready")
              ((codes "reason", string (codes "temporal not connected")) ∷ [])),
      )

  -- `create_run` behind the validation of its body
  pub created : RunRequest → Text → S → Result (ℕ × Content) × S
  unfolding accepted_json
  created r errors server =
      if validates r
      then (let (out, after) = create_run b.client s sha256 r server in
          (out >>= λ a. ok (a.status_code, json (accepted_json a)), after))
      else (err (validation_error errors), server)

  pub cancelled_json : Text × Text → Json
  cancelled_json (run_id, status) =
      object (fields_of ((codes "run_id", string run_id) ∷ (codes "status", string status) ∷ []))

  -- the routes behind their token check
  pub handle_run : Route → S → Result (ℕ × Content) × S
  unfolding created ready cancelled_json
  handle_run (create (malformed errors)) server = (err (validation_error errors), server)
  handle_run (create (parsed r errors)) server = created r errors server
  handle_run (read run_id) server = (
    resolve_status run_id (b.handle run_id server) >>= λ a. ok (200, json (payload_json a)),
    server,
  )
  handle_run (stream run_id polls) server = (
    open_stream run_id (b.handle run_id server) >>= λ _.
        ok (200, event_stream (stream_text s run_id polls)),
    server,
  )
  handle_run (cancel run_id) server = (
    cancel_run run_id (b.handle run_id server) >>= λ c. ok (202, json (cancelled_json c)),
    b.cancel run_id server,
  )
  handle_run healthz server = (ok (200, json (status_json (codes "ok") [])), server)
  handle_run readyz server = (ok (ready server), server)

  pub behind_token : Result (Unit {0}) → Route → S → Result (ℕ × Content) × S
  unfolding handle_run
  behind_token (ok _) route server = handle_run route server
  behind_token (err e) route server = (err e, server)

  -- the route's dependencies and handler; FastAPI reads the body before it calls a dependency
  pub dispatch : Option Text → Route → S → Result (ℕ × Content) × S
  unfolding behind_token
  dispatch authorization healthz server = handle_run healthz server
  dispatch authorization readyz server = handle_run readyz server
  dispatch authorization (create (malformed errors)) server =
      (err (validation_error errors), server)
  dispatch authorization route server = behind_token (verify_token s authorization) route server

  -- the application
  unfoldable pub respond : Request → S → Option Response × S
  unfolding dispatch answer request_id_of
  respond q server =
      let (out, after) = dispatch q.authorization q.route server in
      (answer (request_id_of q) out, after)
