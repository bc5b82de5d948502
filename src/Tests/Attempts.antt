-- ===== src/Tests/Attempts.antt =====
-- Tests of the activity that runs the sandbox.
use temporal_agent_sandbox.Prelude.{
  Text, All, inl, ◌≢◌, ◌++◌, ◌≤◌, codes, ◌==◌, length, pos, some, [], ◌∷◌, ◌≡◌, refl, arith,
}
use temporal_agent_sandbox.Prelude.Utf8.{Bytes, decode}
use temporal_agent_sandbox.Contracts.{RunSandboxArgs, SandboxResult}
use temporal_agent_sandbox.Config.{defaults}
use temporal_agent_sandbox.Sandbox.Runner.{cancelled_error, ok, gvisor, get_runner}
use temporal_agent_sandbox.Sandbox.Gvisor.Launch
use temporal_agent_sandbox.Sandbox.Gvisor.Launch.FailClosed.{IsLaunchFailure}
use temporal_agent_sandbox.Sandbox.Gvisor.Loop.{done, cancelled, exited, micros, loop}
use temporal_agent_sandbox.Sandbox.Gvisor.Run
use temporal_agent_sandbox.Sandbox.Gvisor.Run.Teardown.{IsTornDown}
use temporal_agent_sandbox.Activities.Sandbox.{
  Attempt, preflight, raised, returned, passed, run_sandbox,
}
use temporal_agent_sandbox.Activities.Sandbox.Retry.{
  refused, FailsClosed, Unavailable-FailsClosed, user_exit_returned,
}
use temporal_agent_sandbox.Activities.Sandbox.Contained.{cancelled-Cleared}
use temporal_agent_sandbox.Sandbox.Gvisor.Run.Cleared.{Cleared}
use temporal_agent_sandbox.Sandbox.Gvisor.Launch.{container_name}
use temporal_agent_sandbox.Sandbox.Gvisor.Loop.{remove}
use temporal_agent_sandbox.Prelude.{false, true, none}
use temporal_agent_sandbox.Sandbox.Gvisor.Output.{read_capped}
use temporal_agent_sandbox.Sandbox.Gvisor.Launch.{classify_infra, is_launch_rc, image_digest}
use temporal_agent_sandbox.Activities.Sandbox.Telemetry.{telemetry}
use temporal_agent_sandbox.Activities.Sandbox.Telemetry.Privacy.{telemetry-Private}
use temporal_agent_sandbox.Activities.Sandbox.Spared.{run_sandbox-Spares}
use temporal_agent_sandbox.Tests.Data.{
  ascii_only, same_bytes, arguments, tick, world, attempt_in, limits,
}

abbrev stopped : Attempt
stopped = attempt_in (world (tick 0 cancelled 100 ∷ []) (pos 0))

firecracker-FailsClosed :
    FailsClosed defaults
      (run_sandbox ascii_only defaults same_bytes (arguments (codes "firecracker")) 1 stopped)
firecracker-FailsClosed =
    Unavailable-FailsClosed ascii_only defaults same_bytes (arguments (codes "firecracker")) 1
      stopped (refused refl)

runc_is_chosen : get_runner (codes "runc") ≡ ok (gvisor (codes "runc"))
unfolding get_runner codes ◌==◌
runc_is_chosen = refl

stopped_is_cancelled :
    (run_sandbox ascii_only defaults same_bytes (arguments (codes "runc")) 1 stopped).0
    ≡ some (raised (passed cancelled_error))
unfolding run_sandbox codes ◌==◌ get_runner Launch.preflight Run.run loop
stopped_is_cancelled = refl

cancelled-Cleared_example :
    Cleared (run_sandbox ascii_only defaults same_bytes (arguments (codes "runc")) 1 stopped).1
    × IsTornDown ascii_only defaults same_bytes
        (codes "runc")
        (arguments (codes "runc"))
        1
        (run_sandbox ascii_only defaults same_bytes (arguments (codes "runc")) 1 stopped).1
cancelled-Cleared_example =
    cancelled-Cleared ascii_only defaults same_bytes (arguments (codes "runc")) 1 (codes "runc")
      stopped runc_is_chosen stopped_is_cancelled

abbrev exits_three : Attempt
exits_three = attempt_in (world (tick 0 done 100 ∷ []) (pos 3))

code_fits : length (arguments (codes "runc")).code ≤ defaults.max_code_bytes
unfolding codes
code_fits = omega arith

runc_passes : preflight defaults same_bytes (gvisor (codes "runc")) exits_three ≡ ok tt
unfolding preflight codes ◌==◌ Launch.preflight
runc_passes = refl

loop_exits : (loop (micros limits.wall_clock_s) exits_three.world.ticks).0 ≡ exited
unfolding loop
loop_exits = refl

no-IsLaunchFailure :
    ¬ IsLaunchFailure ascii_only
      (pos 3)
      (decode (Run.safe limits.output_max_bytes exits_three.world.stderr).0)
no-IsLaunchFailure f = ground (arith, f.code)

user_exit_returned_example :
    (r : SandboxResult) × ((run_sandbox ascii_only defaults same_bytes
        (arguments (codes "runc"))
        1
        exits_three).0
      ≡ some (returned r))
    × (r.exit_code ≡ pos 3)
user_exit_returned_example =
    user_exit_returned ascii_only defaults same_bytes (arguments (codes "runc")) 1 (codes "runc")
      exits_three code_fits runc_is_chosen runc_passes refl refl loop_exits no-IsLaunchFailure

-- a stand-in for a hash, with at least 16 characters
abbrev long_hash : Bytes → Text
long_hash b = codes "0123456789abcdef" ++ b

long_hash_is_long : (b : Bytes) → 16 ≤ length (long_hash b)
unfolding codes
long_hash_is_long b = omega arith

run_sandbox-Spares_example :
    All
      (λ e. e ≢ remove (container_name long_hash (codes "acme:k") 2))
      (run_sandbox ascii_only defaults long_hash (arguments (codes "runc")) 1 stopped).1
run_sandbox-Spares_example =
    run_sandbox-Spares long_hash long_hash_is_long ascii_only defaults (arguments (codes "runc")) 1
      stopped (codes "acme:k") 2 (inl (omega arith))

abbrev secret_arguments : RunSandboxArgs
secret_arguments = record {
  run_id = codes "acme:k";
  tenant_id = codes "acme";
  code = codes "print('secret')";
  limits = limits;
  runtime = codes "runc";
}

-- the same end with other output
abbrev tells_a_secret : Attempt
tells_a_secret =
    attempt_in
      (record (world (tick 0 done 100 ∷ []) (pos 3)) { stdout = some (codes "secret" ∷ []) })

abbrev result_with : Text → SandboxResult
result_with out = record {
  runtime = codes "runc";
  exit_code = pos 3;
  stdout_tail = out;
  stderr_tail = codes "";
  wall_ms = 2;
  oom_killed = false;
  wall_clock_exceeded = false;
  image_digest = none;
  truncated = true;
}

plain_run :
    (run_sandbox ascii_only defaults same_bytes (arguments (codes "runc")) 1 exits_three).0
    ≡ some (returned (result_with (codes "cdef")))
unfolding run_sandbox codes ◌==◌ get_runner Launch.preflight Run.run loop classify_infra
    is_launch_rc image_digest read_capped decode
plain_run = refl

secret_run :
    (run_sandbox ascii_only defaults same_bytes secret_arguments 1 tells_a_secret).0
    ≡ some (returned (result_with (codes "cret")))
unfolding run_sandbox codes ◌==◌ get_runner Launch.preflight Run.run loop classify_infra
    is_launch_rc image_digest read_capped decode
secret_run = refl

-- a hash that gives nothing away
abbrev blind : Bytes → Text
blind b = []

telemetry-Private_example :
    telemetry blind (arguments (codes "runc")) 1 ascii_only defaults same_bytes exits_three
    ≡ telemetry blind secret_arguments 1 ascii_only defaults same_bytes tells_a_secret
telemetry-Private_example =
    telemetry-Private blind 1 ascii_only defaults same_bytes (arguments (codes "runc"))
      secret_arguments exits_three tells_a_secret (result_with (codes "cdef"))
      (result_with (codes "cret"))
      (record { run_id = refl; tenant_id = refl; runtime = refl; code = refl })
      (record {
        exit_code = refl;
        wall_ms = refl;
        oom_killed = refl;
        wall_clock_exceeded = refl;
        image_digest = refl;
        truncated = refl;
      })
      plain_run secret_run
