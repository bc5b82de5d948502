-- ===== src/Sandbox/Gvisor/Run.antt =====
-- `GvisorRunner.run`, on what the world does during one execution; and `kill`.
pub mod Outcome
pub mod Staged
pub mod Teardown
pub mod Launches
pub mod Judged
pub mod Cleared
use temporal_agent_sandbox.Prelude.{
  ℕ, ◌/◌, ℤ, pos, take, int_eq, Text, codes, Option, none, some, Bool, true, false, ◌||◌, List, [],
  ◌∷◌, ◌++◌, if◌then◌else◌,
}
use temporal_agent_sandbox.Prelude.Utf8.{Bytes, decode}
use temporal_agent_sandbox.Prelude.Methods.{Unicode}
use temporal_agent_sandbox.Contracts.{RunSandboxArgs, SandboxResult}
use temporal_agent_sandbox.Config.{Settings}
use temporal_agent_sandbox.Sandbox.Runner
use temporal_agent_sandbox.Sandbox.Runner.{ok, err, cancelled_error, Error, ◌>>=◌}
use temporal_agent_sandbox.Sandbox.Gvisor.Output.{read_capped}
use temporal_agent_sandbox.Sandbox.Gvisor.Launch.{
  Subprocess, container_name, image_digest, classify_infra,
}
use temporal_agent_sandbox.Sandbox.Gvisor.Argv.{docker_run_cmd}
use temporal_agent_sandbox.Sandbox.Gvisor.Staging.{code_file, input_file, staging, closed, closing}
use temporal_agent_sandbox.Sandbox.Gvisor.Loop.{
  Tick, Effect, launch, heartbeat, remove, Ending, exited, timed_out, interrupted, waiting, micros,
  loop,
}

-- What the world does during one call of `run`.
pub record World : Type 0 where
  -- what becomes of `docker image inspect`
  pub inspect : Subprocess
  -- the path that `tempfile.TemporaryDirectory` picks, and the exception, if one is raised before the
  -- loop: by `_image_digest`, by staging the files, by starting the client, or by a cancellation that arrives before that;
  -- with the number of the steps of the staging that are done by then
  pub tmp : Text
  pub start_fault : Option (ℕ × Error)
  pub ticks : List Tick
  -- whether a cancellation arrives behind the loop: while a timed-out sandbox is torn down, or while
  -- the pipes are drained
  pub cancelled_late : Bool
  -- the exit code of the client and the time since the start when it is read
  pub exit : ℤ
  pub finish : ℕ
  -- the reads of the two pipes; `none` if they are not drained in time
  pub stdout : Option (List Bytes)
  pub stderr : Option (List Bytes)

-- `_safe` of the task that drains a pipe
pub safe : ℕ → Option (List Bytes) → Bytes × Bool
safe limit none = ([], false)
safe limit (some chunks) = read_capped (some chunks) limit

-- `kill`: it removes the container of this run and attempt
unfoldable pub kill : (Bytes → Text) → Text → ℕ → List Effect
kill sha1 run_id attempt = remove (container_name sha1 run_id attempt) ∷ []

-- The result of a sandbox that ran into the wall clock.
pub late_result : Text → ℕ → World → ℕ → SandboxResult
unfolding safe
late_result runtime cap w elapsed =
    let (out, out_cut) = safe cap w.stdout in
    let (errors, err_cut) = safe cap w.stderr in
    record {
      runtime = runtime;
      exit_code = pos 124;
      stdout_tail = decode out;
      stderr_tail = decode errors;
      wall_ms = elapsed / 1000;
      oom_killed = false;
      wall_clock_exceeded = true;
      image_digest = image_digest w.inspect;
      truncated = out_cut || err_cut;
    }

-- The result of a sandbox that has exited, unless it was not launched at all.
pub exit_result : Unicode → Text → ℕ → World → Runner.Result SandboxResult
unfolding safe
exit_result u runtime cap w =
    let (out, out_cut) = safe cap w.stdout in
    let (errors, err_cut) = safe cap w.stderr in
    classify_infra u runtime w.exit (decode errors) >>= λ _. ok (record {
      runtime = runtime;
      exit_code = w.exit;
      stdout_tail = decode out;
      stderr_tail = decode errors;
      wall_ms = w.finish / 1000;
      oom_killed = int_eq w.exit 137;
      wall_clock_exceeded = false;
      image_digest = image_digest w.inspect;
      truncated = out_cut || err_cut;
    })

-- The outcome with all that was done; `none` while the loop is still waiting.
abbrev pub Ran : Type 0
Ran = Option (Runner.Result SandboxResult) × List Effect

module _ (u : Unicode) (s : Settings) (sha1 : Bytes → Text) (runtime : Text) where
  -- what follows the loop
  pub settle : RunSandboxArgs → ℕ → World → Ending → Ran
  unfolding late_result exit_result
  settle args attempt w waiting = (none, [])
  settle args attempt w exited =
      if w.cancelled_late
      then (some (err cancelled_error), [])
      else (some (exit_result u runtime args.limits.output_max_bytes w), [])
  settle args attempt w interrupted = (some (err cancelled_error), kill sha1 args.run_id attempt)
  settle args attempt w (timed_out elapsed) =
      if w.cancelled_late
      then (
        some (err cancelled_error),
        kill sha1 args.run_id attempt ++ kill sha1 args.run_id attempt,
      )
      else (
        some (ok (late_result runtime args.limits.output_max_bytes w elapsed)),
        kill sha1 args.run_id attempt,
      )

  -- `run`; deleting the temporary directory is taken to succeed
  unfoldable pub run : RunSandboxArgs → ℕ → World → Ran
  unfolding settle
  run args attempt w = elim w.start_fault [
    | some (steps, fault) ↦ (some (err fault), closed w.tmp (take steps (staging args w.tmp)))
    | none ↦
        let argv =
          docker_run_cmd s runtime (container_name sha1 args.run_id attempt) (code_file w.tmp)
            (input_file w.tmp) args.limits in
        let (ending, beats) = loop (micros args.limits.wall_clock_s) w.ticks in
        let (outcome, after) = settle args attempt w ending in
        (outcome, staging args w.tmp ++ launch argv ∷ (beats ++ (after ++ closing w.tmp outcome)))
  ]
