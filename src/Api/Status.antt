-- ===== src/Api/Status.antt =====
-- The status response of app/api/routes_runs.py, with its models from app/api/schemas.py: what
-- `get_run` answers, given what Temporal's client says of the run.
pub mod Answer
use temporal_agent_sandbox.Prelude.{
  ℕ, ℤ, Text, codes, ◌==◌, Option, none, some, Bool, true, false, List, [], ◌∷◌, ◌++◌, map,
  if◌then◌else◌,
}
use temporal_agent_sandbox.Prelude.Methods.{lower_ascii}
use temporal_agent_sandbox.Contracts.{
  SandboxResult, is_ok, failure_reason, StepStatus, RunStatus, RunResult,
}
use temporal_agent_sandbox.Temporal.Workflow.{or_else}
use temporal_agent_sandbox.Api.Errors.{
  RpcCode, not_found, Result, ok, err, api_error, rpc_error, ◌>>=◌,
}

pub record StepModel : Type 0 where
  pub name : Text
  pub state : Text
  pub detail : Option Text

pub record SandboxModel : Type 0 where
  pub runtime : Text
  pub exit_code : ℤ
  pub is_success : Bool
  pub failure_reason : Option Text
  pub wall_ms : ℕ
  pub oom_killed : Bool
  pub wall_clock_exceeded : Bool
  pub truncated : Bool
  pub stdout_tail : Text
  pub stderr_tail : Text

pub record RunResultModel : Type 0 where
  pub summary : Option Text
  pub code : Option Text
  pub sandbox : Option SandboxModel

pub record ErrorDetail : Type 0 where
  pub code : Text
  pub step : Option Text
  pub message : Text
  pub retryable : Bool

pub record RunStatusResponse : Type 0 where
  pub run_id : Text
  pub status : Text
  pub stage : Text
  pub current_step : Option Text
  pub completed_steps : List Text
  pub steps : List StepModel
  pub result : Option RunResultModel
  pub error : Option ErrorDetail

-- `_step`
pub step_model : StepStatus → StepModel
step_model s = record { name = s.name; state = s.state; detail = s.detail }

-- `_sandbox_model`; the field `ok` is `is_success` here
pub sandbox_model : SandboxResult → SandboxModel
sandbox_model sb = record {
  runtime = sb.runtime;
  exit_code = sb.exit_code;
  is_success = is_ok sb;
  failure_reason = failure_reason sb;
  wall_ms = sb.wall_ms;
  oom_killed = sb.oom_killed;
  wall_clock_exceeded = sb.wall_clock_exceeded;
  truncated = sb.truncated;
  stdout_tail = sb.stdout_tail;
  stderr_tail = sb.stderr_tail;
}

-- `[s.name for s in rs.steps if s.state == "completed"]`
pub completed_names : List StepStatus → List Text
completed_names [] = []
completed_names (s ∷ ss) =
    if s.state == codes "completed" then s.name ∷ completed_names ss else completed_names ss

-- `_running`
pub running : Text → RunStatus → RunStatusResponse
unfolding step_model completed_names
running run_id rs = record {
  run_id = run_id;
  status = codes "RUNNING";
  stage = rs.stage;
  current_step = some rs.stage;
  completed_steps = completed_names rs.steps;
  steps = map step_model rs.steps;
  result = none;
  error = none;
}

pub result_model : RunResult → RunResultModel
unfolding sandbox_model
result_model r = record {
  summary = r.summary;
  code = r.code;
  sandbox = elim r.sandbox [ none ↦ none | some sb ↦ some (sandbox_model sb) ];
}

-- `_completed`
pub ended : Text → RunResult → RunStatusResponse
unfolding result_model
ended run_id r =
    if r.status == codes "completed"
    then record {
      run_id = run_id;
      status = codes "COMPLETED";
      stage = codes "completed";
      current_step = none;
      completed_steps =
          codes "plan" ∷ codes "generate_code" ∷ codes "run_sandbox" ∷ codes "summarize" ∷ [];
      steps = [];
      result = some (result_model r);
      error = none;
    }
    else record {
      run_id = run_id;
      status = codes "FAILED";
      stage = codes "failed";
      current_step = none;
      completed_steps = [];
      steps = [];
      result = some (result_model r);
      error = some (record {
        code = codes "SANDBOX_FAILURE";
        step = some (codes "run_sandbox");
        message = or_else r.failure_reason (codes "run failed");
        retryable = false;
      });
    }

-- `WorkflowExecutionStatus`, as far as the program names its members
pub data ExecutionStatus : Type 0 where
  is_running is_completed is_failed is_canceled is_terminated is_timed_out other_status :
      ExecutionStatus

-- `mapping.get(st, "FAILED")`
pub status_text : ExecutionStatus → Text
status_text is_timed_out = codes "TIMED_OUT"
status_text is_canceled = codes "CANCELLED"
status_text _ = codes "FAILED"

-- `_terminal_failure`, given `str(e)` of the exception of `handle.result()`, if there is one
pub terminal_failure : Text → ExecutionStatus → Option Text → RunStatusResponse
unfolding status_text
terminal_failure run_id st cause = record {
  run_id = run_id;
  status = status_text st;
  stage = codes "failed";
  current_step = none;
  completed_steps = [];
  steps = [];
  result = none;
  error = some (record {
    code = status_text st;
    step = none;
    message = elim cause [ none ↦ map lower_ascii (status_text st) | some m ↦ m ];
    retryable = false;
  });
}

-- What the handle of a run answers: its description, the status query, its result, the text of the
-- exception that waiting for the result raises, and the request to cancel.
pub record Handle : Type 0 where
  pub describe : Result ExecutionStatus
  pub query : Result RunStatus
  pub outcome : Result RunResult
  pub cause : Option Text
  pub cancel : Result (Unit {0})

-- the `except RPCError` of the three routes
pub described {ℓ} : {A : Type ℓ} → Text → Result A → Result A
described run_id (err (rpc_error not_found)) =
    err (api_error 404 (codes "RUN_NOT_FOUND") (codes "no run with id " ++ run_id))
described run_id answer = answer

-- `_resolve_status`
unfoldable pub resolve_status : Text → Handle → Result RunStatusResponse
unfolding described running ended terminal_failure
resolve_status run_id h = described run_id h.describe >>= λ st. elim st [
  | is_running ↦ h.query >>= λ rs. ok (running run_id rs)
  | is_completed ↦ h.outcome >>= λ r. ok (ended run_id r)
  | is_failed ↦ ok (terminal_failure run_id is_failed h.cause)
  | is_canceled ↦ ok (terminal_failure run_id is_canceled h.cause)
  | is_terminated ↦ ok (terminal_failure run_id is_terminated h.cause)
  | is_timed_out ↦ ok (terminal_failure run_id is_timed_out h.cause)
  | other_status ↦ ok (terminal_failure run_id other_status h.cause)
]

-- the check of `stream_run` before it opens the stream
pub open_stream : Text → Handle → Result (Unit {0})
unfolding described
open_stream run_id h = described run_id h.describe >>= λ _. ok tt

-- `cancel_run`: the run id and the status of the response
pub cancel_run : Text → Handle → Result (Text × Text)
unfolding described
cancel_run run_id h = described run_id h.cancel >>= λ _. ok (run_id, codes "CANCELLING")
