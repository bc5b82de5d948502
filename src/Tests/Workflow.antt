-- ===== src/Tests/Workflow.antt =====
-- Tests of the workflow.
use temporal_agent_sandbox.Prelude.{codes, pos, some, ◌≡◌, ◌↔◌, refl, All, ◌==◌, ◌is_in◌, str_int}
use temporal_agent_sandbox.Prelude.Methods.{lower}
use temporal_agent_sandbox.Contracts.{
  RunInput, RunResult, is_ok, failure_reason, completed, failed, Plan,
}
use temporal_agent_sandbox.Contracts.Outcome.{exit, text_of_cause, IsCause, failure_reason_iff}
use temporal_agent_sandbox.Config.{defaults}
use temporal_agent_sandbox.Temporal.Workflow.{
  exception, pending, value, failure, History, init, returned, raised, run,
}
use temporal_agent_sandbox.Temporal.Workflow.Steps.{Shows, run-Shows}
use temporal_agent_sandbox.Temporal.Workflow.Outcome.{
  Verdict, IsOwn, Follows, commands-Follow, run-returned_iff,
}
use temporal_agent_sandbox.Agents.Pipeline
use temporal_agent_sandbox.Agents.Codegen.{generate_program, fail_program}
use temporal_agent_sandbox.Temporal.Workflow.Pipeline.{Performs, Concludes, run-Concludes}
use temporal_agent_sandbox.Sandbox.Gvisor.Loop.{done}
use temporal_agent_sandbox.Sandbox.Gvisor.Staging.Disk.{Disk, AtLaunch, IsReady}
use temporal_agent_sandbox.Sandbox.Gvisor.Run.Teardown.{IsContained}
use temporal_agent_sandbox.Activities.Sandbox
use temporal_agent_sandbox.Activities.Sandbox.{Attempt}
use temporal_agent_sandbox.Temporal.Workflow.Sandboxed.{run-Sandboxed}
use temporal_agent_sandbox.Temporal.Workflow.{Command, run_sandbox, sandbox_args, sandbox_options}
use temporal_agent_sandbox.Prelude.{starts_with, false, Any, inl, inr, [], ◌∷◌}
use temporal_agent_sandbox.Tests.Data.{
  ascii_only, same_bytes, input, normal_plan, outcome, limits, tick, world, attempt_in,
}

abbrev waiting_for_code : History
waiting_for_code = record {
  plan = value normal_plan;
  code = pending;
  sandbox = pending;
  summary = pending;
}

abbrev exit_three : History
exit_three = record {
  plan = value normal_plan;
  code = value (codes "print(1)");
  sandbox = value (outcome (pos 3));
  summary = pending;
}

abbrev all_done : History
all_done = record {
  plan = value normal_plan;
  code = value (codes "print(1)");
  sandbox = value (outcome (pos 0));
  summary = value (codes "fine");
}

abbrev done_result : RunResult
done_result = completed input.run_id (codes "fine") (codes "print(1)") (outcome (pos 0))

run-returned_iff_example :
    ((run defaults input all_done init).0 ≡ returned done_result)
    ↔ Verdict input all_done done_result
run-returned_iff_example = run-returned_iff defaults input all_done done_result

run-Shows_example :
    Shows (run defaults input exit_three init).0 (run defaults input exit_three init).1
run-Shows_example = run-Shows defaults input exit_three

commands-Follow_example :
    All (Follows defaults input all_done) (run defaults input all_done init).1.commands
commands-Follow_example = commands-Follow defaults input all_done

exit_three_is_told :
    (failure_reason (outcome (pos 3)) ≡ some (text_of_cause (exit (pos 3))))
    ↔ IsCause (outcome (pos 3)) (exit (pos 3))
exit_three_is_told = failure_reason_iff (outcome (pos 3)) (exit (pos 3))

-- A run in which every activity has returned is completed.
completes : (run defaults input all_done init).0 ≡ returned done_result
unfolding run is_ok completed
completes = refl

abbrev plan_failed : History
plan_failed = record {
  plan = failure (exception (codes "down"));
  code = pending;
  sandbox = pending;
  summary = pending;
}

-- A failing activity fails the run with its exception.
plan_raises : (run defaults input plan_failed init).0 ≡ raised (exception (codes "down"))
unfolding run
plan_raises = refl

abbrev failing_input : RunInput
failing_input = record {
  run_id = codes "acme:f";
  tenant_id = codes "acme";
  task = codes "[fail]";
  limits = limits;
  sandbox_runtime = codes "runsc";
}

abbrev made_plan : Plan
made_plan = Pipeline.plan ascii_only failing_input.task

-- the run of the program for the directive "fail"
abbrev performed : History
performed = record {
  plan = value made_plan;
  code = value fail_program;
  sandbox = value (outcome (pos 2));
  summary = pending;
}

made_code : Pipeline.generate_code made_plan ≡ some fail_program
unfolding Pipeline.generate_code Pipeline.plan Pipeline.parse_directive Pipeline.find_directive
    Pipeline.names generate_program fail_program codes ◌==◌ ◌is_in◌ lower
made_code = refl

performed-Performs : Performs ascii_only defaults failing_input performed
unfolding run is_ok
performed-Performs = (refl, (made_code, (tt, tt)))

abbrev failed_result : RunResult
failed_result =
    failed failing_input.run_id (codes "nonzero_exit:2") (some (outcome (pos 2)))
      (some fail_program)

performed-run : (run defaults failing_input performed init).0 ≡ returned failed_result
unfolding run is_ok failure_reason failed codes str_int
performed-run = refl

run-Concludes_example : Concludes ascii_only failing_input performed failed_result
run-Concludes_example =
    run-Concludes ascii_only defaults failing_input performed failed_result performed-Performs
      performed-run

abbrev asked_sandbox : Command
asked_sandbox = record {
  activity = run_sandbox (sandbox_args input (codes "print(1)"));
  options = sandbox_options defaults;
}

abbrev one_attempt : Attempt
one_attempt = attempt_in (world (tick 0 done 100 ∷ []) (pos 3))

sandbox_is_asked : Any (λ x. x ≡ asked_sandbox) (run defaults input exit_three init).1.commands
unfolding run is_ok
sandbox_is_asked = inr (inr (inl refl))

image_is_a_name : starts_with defaults.sandbox_image (codes "-") ≡ false
unfolding starts_with codes
image_is_a_name = refl

abbrev no_files : Disk
no_files = record { files = []; modes = [] }

run-Sandboxed_example :
    (exit_three.code ≡ value (codes "print(1)"))
    × IsOwn input (sandbox_args input (codes "print(1)"))
    × All
        (IsContained ascii_only defaults same_bytes
          (codes "runsc")
          (sandbox_args input (codes "print(1)"))
          1
          one_attempt.world)
        (Sandbox.run_sandbox ascii_only defaults same_bytes
          (sandbox_args input (codes "print(1)"))
          1
          one_attempt).1
    × AtLaunch
        (IsReady (sandbox_args input (codes "print(1)")) (codes "/tmp/sbx-1"))
        (Sandbox.run_sandbox ascii_only defaults same_bytes
          (sandbox_args input (codes "print(1)"))
          1
          one_attempt).1
        no_files
run-Sandboxed_example =
    run-Sandboxed ascii_only defaults same_bytes input exit_three asked_sandbox
      (sandbox_args input (codes "print(1)")) 1 one_attempt no_files image_is_a_name
      sandbox_is_asked refl
