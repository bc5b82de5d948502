-- ===== src/Api/Create.antt =====
-- `create_run` and `_handle_already_started` of app/api/routes_runs.py, on Temporal's client; the span
-- and the log line are in Telemetry.
pub mod Replay
pub mod Limits
pub mod Codes
pub mod Telemetry
use temporal_agent_sandbox.Prelude.{
  ℕ, min, Text, codes, ◌==◌, length, ltb, not, Option, none, some, Bool, true, false, if◌then◌else◌,
}
use temporal_agent_sandbox.Prelude.Utf8.{Bytes, encode}
use temporal_agent_sandbox.Contracts.{ResourceLimits, RunInput}
use temporal_agent_sandbox.Config.{Settings, resource_limits}
use temporal_agent_sandbox.Temporal.Policies.{workflow_run_timeout}
use temporal_agent_sandbox.Api.Errors.{RpcCode, unavailable, Result, ok, err, api_error, rpc_error}
use temporal_agent_sandbox.Api.Ids.{RunRequest, payload_bytes, workflow_id}

-- the arguments of `client.start_workflow`; the reuse policy is REJECT_DUPLICATE
pub record Start : Type 0 where
  pub input : RunInput
  pub id : Text
  pub task_queue : Text
  pub run_timeout : ℕ
  pub task_sha256 : Text

pub data Started : Type 0 where
  started : Started
  already_started : Started
  rpc_failed : RpcCode → Started

-- `describe`: it raises, or it returns a description with the memo's "task_sha256", if it has one. The
-- attribute `memo` of a description is the mapping itself, or a method that gives it.
pub data Described : Type 0 where
  unknown : Described
  with_mapping : Option Text → Described
  with_method : Option Text → Described

-- Temporal's client, over the state of its server.
pub record Client (S : Type 0) : Type 0 where
  pub start_workflow : Start → S → Started × S
  pub describe : Text → S → Described

-- `RunAccepted`, with the status code of the response
pub record Accepted : Type 0 where
  pub status_code : ℕ
  pub run_id : Text
  pub status : Text
  pub tenant_id : Text

pub accept : ℕ → Text → RunRequest → Accepted
accept status_code run_id r = record {
  status_code = status_code;
  run_id = run_id;
  status = codes "PENDING";
  tenant_id = r.tenant_id;
}

-- the limits of a run: the policy's, and the requested wall clock up to the policy's
pub limits_of : Settings → RunRequest → ResourceLimits
limits_of s r = elim r.params.sandbox_timeout_s [
  | none ↦ resource_limits s
  | some t ↦ record (resource_limits s) { wall_clock_s = min t s.sandbox_wall_clock_s }
]

module _ (s : Settings) (sha256 : Bytes → Text) where
  pub start_of : RunRequest → Start
  unfolding limits_of
  start_of r = record {
    input = record {
      run_id = workflow_id sha256 r;
      tenant_id = r.tenant_id;
      task = r.task;
      limits = limits_of s r;
      sandbox_runtime = s.sandbox_runtime;
    };
    id = workflow_id sha256 r;
    task_queue = s.task_queue;
    run_timeout = workflow_run_timeout s;
    task_sha256 = sha256 (payload_bytes r);
  }

-- the test `stored is not None and stored != expected`; a method has no `get`, and the `AttributeError`
-- is caught as any exception of `describe` is
pub conflicts : Described → Text → Bool
conflicts unknown expected = false
conflicts (with_method memo) expected = false
conflicts (with_mapping none) expected = false
conflicts (with_mapping (some stored)) expected = not (stored == expected)

module _ {S : Type 0} (client : Client S) (s : Settings) (sha256 : Bytes → Text) where
  pub handle_already_started : RunRequest → Text → S → Result Accepted
  unfolding conflicts accept
  handle_already_started r wid server =
      if conflicts (client.describe wid server) (sha256 (payload_bytes r))
      then err (
          api_error 409 (codes "IDEMPOTENCY_CONFLICT")
            (codes "idempotency key reused with a different payload"))
      else ok (accept 200 wid r)

  answer : Started → RunRequest → S → Result Accepted
  unfolding handle_already_started accept
  answer started r server = ok (accept 201 (workflow_id sha256 r) r)
  answer already_started r server = handle_already_started r (workflow_id sha256 r) server
  answer (rpc_failed unavailable) r server =
      err (api_error 503 (codes "UPSTREAM_UNAVAILABLE") (codes "temporal is unavailable"))
  answer (rpc_failed code) r server = err (rpc_error code)

  unfoldable pub create_run : RunRequest → S → Result Accepted × S
  unfolding answer start_of
  create_run r server =
      if ltb s.max_task_bytes (length (encode r.task))
      then (
        err (api_error 413 (codes "VALIDATION_ERROR") (codes "task exceeds maximum size")),
        server,
      )
      else let (reply, after) = client.start_workflow (start_of s sha256 r) server in
        (answer reply r after, after)
