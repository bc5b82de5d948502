-- ===== src/Tests/Status.antt =====
-- Tests of the status response.
use temporal_agent_sandbox.Prelude.{pos, some, codes, none}
use temporal_agent_sandbox.Config.{defaults}
use temporal_agent_sandbox.Temporal.Workflow.{pending, value, History, init, run, status}
use temporal_agent_sandbox.Api.Errors.{ok, err, other_error}
use temporal_agent_sandbox.Api.Status.{Handle, is_running, is_completed}
use temporal_agent_sandbox.Contracts.{RunResult, failed}
use temporal_agent_sandbox.Api.Stream.Followed.{Moment}
use temporal_agent_sandbox.Tests.Data.{input, normal_plan, outcome}

abbrev at_codegen : History
at_codegen = record {
  plan = value normal_plan;
  code = pending;
  sandbox = pending;
  summary = pending;
}

abbrev handle : Handle
handle = record {
  describe = ok is_running;
  query = ok (status (codes "acme:k") (run defaults input at_codegen init).1);
  outcome = err (other_error (codes "Pending"));
  cause = none;
  cancel = ok tt;
}

abbrev exit_three : History
exit_three = record {
  plan = value normal_plan;
  code = value (codes "print(1)");
  sandbox = value (outcome (pos 3));
  summary = pending;
}

abbrev failed_result : RunResult
failed_result =
    failed input.run_id (codes "nonzero_exit:3") (some (outcome (pos 3))) (some (codes "print(1)"))

-- the handle when the run has returned
abbrev ended_handle : Handle
ended_handle = record {
  describe = ok is_completed;
  query = err (other_error (codes "Closed"));
  outcome = ok failed_result;
  cause = none;
  cancel = ok tt;
}

abbrev waiting_moment : Moment
waiting_moment = record { history = at_codegen; handle = handle }

abbrev ended_moment : Moment
ended_moment = record { history = exit_three; handle = ended_handle }
