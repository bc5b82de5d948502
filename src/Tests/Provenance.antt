-- ===== src/Tests/Provenance.antt =====
-- Tests of the attempts of a sandbox step, and of the result that a run has of them.
use mathlib.Core.Path.{subst}
use temporal_agent_sandbox.Sandbox.Firecracker
use temporal_agent_sandbox.Prelude.{
  ◌<◌, ◌≤◌, codes, pos, some, none, true, false, [], ◌∷◌, List, ◌++◌, length, ◌≡◌, refl, arith,
  ◌==◌, ◌is_in◌, str_int, starts_with, is_one_of, inr,
}
use temporal_agent_sandbox.Prelude.Methods.{lower}
use temporal_agent_sandbox.Prelude.Utf8.{decode}
use temporal_agent_sandbox.Contracts.{
  RunInput, RunResult, SandboxResult, RunSandboxArgs, Plan, is_ok, failure_reason, failed,
}
use temporal_agent_sandbox.Config.{defaults}
use temporal_agent_sandbox.Agents.Pipeline
use temporal_agent_sandbox.Agents.Codegen.{generate_program, fail_program}
use temporal_agent_sandbox.Sandbox.Runner.{infra_error, get_runner}
use temporal_agent_sandbox.Sandbox.Gvisor.Launch
use temporal_agent_sandbox.Sandbox.Gvisor.Launch.{classify_infra, is_launch_rc, image_digest}
use temporal_agent_sandbox.Sandbox.Gvisor.Loop.{done, loop}
use temporal_agent_sandbox.Sandbox.Gvisor.Output.{read_capped}
use temporal_agent_sandbox.Sandbox.Gvisor.Run
use temporal_agent_sandbox.Sandbox.Gvisor.Run.Launches.{launches}
use temporal_agent_sandbox.Sandbox.Gvisor.Staging.Disk.{Disk}
use temporal_agent_sandbox.Activities.Sandbox.{
  Attempt, Outcome, application_error, returned, raised, run_sandbox,
}
use temporal_agent_sandbox.Activities.Sandbox.Attempts.{
  Tried, ends, again, effects_from, Tried-Bounded,
}
use temporal_agent_sandbox.Temporal.Workflow
use temporal_agent_sandbox.Temporal.Workflow.{value, pending, History, init, run, sandbox_args}
use temporal_agent_sandbox.Temporal.Workflow.Pipeline.{Performs}
use temporal_agent_sandbox.Temporal.Workflow.Provenance.{IsTried, IsExecuted, run-IsExecuted}
use temporal_agent_sandbox.Tests.Data.{ascii_only, same_bytes, limits, tick, world, attempt_in}

abbrev failing_input : RunInput
failing_input = record {
  run_id = codes "acme:f";
  tenant_id = codes "acme";
  task = codes "[fail]";
  limits = limits;
  sandbox_runtime = codes "runc";
}

abbrev step_args : RunSandboxArgs
step_args = sandbox_args failing_input fail_program

-- Docker cannot start the first container, and the second one exits with 3.
abbrev not_started : Attempt
not_started =
    attempt_in
      (record (world [] (pos 0)) { start_fault = some (0, infra_error (codes "no daemon")) })

abbrev exits_three : Attempt
exits_three = attempt_in (world (tick 0 done 100 ∷ []) (pos 3))

abbrev two_tries : List Attempt
two_tries = not_started ∷ exits_three ∷ []

abbrev reported : SandboxResult
reported = record {
  runtime = codes "runc";
  exit_code = pos 3;
  stdout_tail = codes "cdef";
  stderr_tail = codes "";
  wall_ms = 2;
  oom_killed = false;
  wall_clock_exceeded = false;
  image_digest = none;
  truncated = true;
}

first_fails :
    (run_sandbox ascii_only defaults same_bytes step_args 1 not_started).0
    ≡ some (raised (application_error (codes "no daemon") (codes "SandboxInfraError") false))
unfolding run_sandbox codes ◌==◌ get_runner Launch.preflight Run.run fail_program
first_fails = refl

second_returns :
    (run_sandbox ascii_only defaults same_bytes step_args 2 exits_three).0
    ≡ some (returned reported)
unfolding run_sandbox codes ◌==◌ get_runner Launch.preflight Run.run loop classify_infra
    is_launch_rc image_digest read_capped decode fail_program
second_returns = refl

tried_twice : Tried ascii_only defaults same_bytes step_args 1 two_tries (some (returned reported))
unfolding is_one_of codes ◌==◌
tried_twice = again _ first_fails refl (inr (omega arith)) (ends _ second_returns)

some_allowed : 0 < defaults.max_attempts
some_allowed = omega arith

Tried-Bounded_example :
    (launches (effects_from ascii_only defaults same_bytes step_args 1 two_tries)
      ≤ length two_tries)
    × (length two_tries ≤ defaults.max_attempts)
Tried-Bounded_example =
    Tried-Bounded ascii_only defaults same_bytes step_args two_tries (some (returned reported))
      some_allowed tried_twice

abbrev made_plan : Plan
made_plan = Pipeline.plan ascii_only failing_input.task

abbrev performed : History
performed = record {
  plan = value made_plan;
  code = value fail_program;
  sandbox = value reported;
  summary = pending;
}

made_code : Pipeline.generate_code made_plan ≡ some fail_program
unfolding Pipeline.generate_code Pipeline.plan Pipeline.parse_directive Pipeline.find_directive
    Pipeline.names generate_program fail_program codes ◌==◌ ◌is_in◌ lower
made_code = refl

performed-Performs : Performs ascii_only defaults failing_input performed
unfolding run is_ok
performed-Performs = (refl, (made_code, (tt, tt)))

performed-IsTried : IsTried ascii_only defaults same_bytes failing_input performed two_tries
performed-IsTried code sbx hc hs =
    let same_code : fail_program ≡ code = cc hc in
    let same : reported ≡ sbx = cc hs in
    subst
      (λ c.
        Tried ascii_only defaults same_bytes (sandbox_args failing_input c) 1 two_tries
          (some (returned sbx)))
      same_code
      (subst (λ r. Tried ascii_only defaults same_bytes step_args 1 two_tries (some (returned r)))
        same tried_twice)

abbrev failed_result : RunResult
failed_result =
    failed failing_input.run_id (codes "nonzero_exit:3") (some reported) (some fail_program)

performed-run : (run defaults failing_input performed init).0 ≡ Workflow.returned failed_result
unfolding run is_ok failure_reason failed codes str_int
performed-run = refl

image_is_a_name : starts_with defaults.sandbox_image (codes "-") ≡ false
unfolding starts_with codes
image_is_a_name = refl

abbrev no_files : Disk
no_files = record { files = []; modes = [] }

run-IsExecuted_example :
    IsExecuted ascii_only defaults same_bytes failing_input two_tries failed_result no_files
run-IsExecuted_example =
    run-IsExecuted ascii_only defaults same_bytes failing_input performed two_tries failed_result
      no_files image_is_a_name some_allowed performed-Performs performed-IsTried performed-run

abbrev refusal : Outcome
refusal = raised (
    application_error
      (codes "firecracker runtime is the production target (Kata-Firecracker RuntimeClass on "
        ++ codes "KVM nodes) and is not available in this build; set SANDBOX_RUNTIME=runsc.")
      (codes "SandboxPolicyViolation") true)
