-- ===== src/Sandbox/Gvisor/Run/Outcome.antt =====
-- What a result of `run` says about the execution.
use mathlib.Core.Path.{subst}
use temporal_agent_sandbox.Prelude.{
  ℕ, ◌*◌, ◌/◌, ◌≤◌, pos, Text, Option, none, some, true, false, List, [], ◌∷◌, length, ◌≡◌, ◌↔◌,
  refl, arith, ◌⊎◌, inl, inr, Option-cases, Bool-cases,
}
use temporal_agent_sandbox.Prelude.Utf8.{Bytes, decode}
use temporal_agent_sandbox.Prelude.Utf8.Length.{length-decode}
use temporal_agent_sandbox.Prelude.Methods.{Unicode}
use temporal_agent_sandbox.Contracts.{RunSandboxArgs, SandboxResult}
use temporal_agent_sandbox.Config.{Settings}
use temporal_agent_sandbox.Sandbox.Runner.{ok}
use temporal_agent_sandbox.Sandbox.Gvisor.Output.Tail.{
  output, tail_of, read_capped_lem, tail_of_bounds,
}
use temporal_agent_sandbox.Sandbox.Gvisor.Launch.{image_digest, classify_infra}
use temporal_agent_sandbox.Sandbox.Gvisor.Loop.{
  Tick, Ending, exited, timed_out, interrupted, waiting, micros, loop,
}
use temporal_agent_sandbox.Sandbox.Gvisor.Run.{World, safe, late_result, exit_result, settle, run}

loop_late :
    (wall elapsed : ℕ) (ts : List Tick) → (loop wall ts).0 ≡ timed_out elapsed → wall ≤ elapsed
unfolding loop
loop_late wall elapsed [] e = cc
loop_late wall elapsed (t ∷ ts) e = ground (arith, loop_late wall elapsed ts)

safe-le : (cap : ℕ) (pipe : Option (List Bytes)) → length (decode (safe cap pipe).0) ≤ cap
unfolding safe
safe-le cap none = omega (arith, length-decode [])
safe-le cap (some chunks) = rw (read_capped_lem cap chunks) (
    omega
      (arith, length-decode (tail_of cap (output chunks)), (tail_of_bounds cap (output chunks)).1))

-- What a result says: the runner's runtime, output within the cap, and one of two endings. A wall
-- clock result has exit code 124 and a duration of at least the limit; any other has the client's
-- exit code, and says that memory ran out exactly if that is 137.
pub record Reports (runtime : Text) (args : RunSandboxArgs) (w : World) (r : SandboxResult)
    : Type 0 where
  pub same_runtime : r.runtime ≡ runtime
  pub digest : r.image_digest ≡ image_digest w.inspect
  pub stdout : length r.stdout_tail ≤ args.limits.output_max_bytes
  pub stderr : length r.stderr_tail ≤ args.limits.output_max_bytes
  pub ending :
      ((r.wall_clock_exceeded ≡ true)
        × (r.exit_code ≡ pos 124)
        × (r.oom_killed ≡ false)
        × (args.limits.wall_clock_s * 1000 ≤ r.wall_ms))
      ⊎ ((r.wall_clock_exceeded ≡ false)
          × (r.exit_code ≡ w.exit)
          × ((r.oom_killed ≡ true) ↔ (w.exit ≡ pos 137))
          × (r.wall_ms ≡ w.finish / 1000))

module _ (u : Unicode) (s : Settings) (sha1 : Bytes → Text) (runtime : Text) where
  late-Reports :
      (args : RunSandboxArgs) (w : World) (elapsed : ℕ)
      → micros args.limits.wall_clock_s ≤ elapsed
      → Reports runtime args w (late_result runtime args.limits.output_max_bytes w elapsed)
  unfolding late_result
  late-Reports args w elapsed h = record {
    same_runtime = refl;
    digest = refl;
    stdout = safe-le args.limits.output_max_bytes w.stdout;
    stderr = safe-le args.limits.output_max_bytes w.stderr;
    ending = inl (refl, refl, refl, omega arith);
  }

  exit-Reports :
      (args : RunSandboxArgs) (w : World) (r : SandboxResult)
      → exit_result u runtime args.limits.output_max_bytes w ≡ ok r
      → Reports runtime args w r
  unfolding exit_result
  exit-Reports args w r e =
      let cap = args.limits.output_max_bytes in
      record {
        same_runtime = ground arith;
        digest = ground arith;
        stdout = ground (arith, safe-le cap w.stdout);
        stderr = ground (arith, safe-le cap w.stderr);
        ending = inr (ground arith, ground arith, ground arith, ground arith);
      }

  settle-Reports :
      (args : RunSandboxArgs) (attempt : ℕ) (w : World) (ending : Ending) (r : SandboxResult)
      → ((elapsed : ℕ) → ending ≡ timed_out elapsed → micros args.limits.wall_clock_s ≤ elapsed)
      → (settle u s sha1 runtime args attempt w ending).0 ≡ some (ok r)
      → Reports runtime args w r
  unfolding settle
  settle-Reports args attempt w waiting r late e = cc
  settle-Reports args attempt w interrupted r late e = absurd (ground arith)
  settle-Reports args attempt w exited r late e = elim (Bool-cases w.cancelled_late) [
    | inl again ↦ absurd (ground arith)
    | inr quiet ↦ exit-Reports args w r (ground arith)
  ]
  settle-Reports args attempt w (timed_out elapsed) r late e = elim (Bool-cases w.cancelled_late) [
    | inl again ↦ absurd (ground arith)
    | inr quiet ↦
        let same : late_result runtime args.limits.output_max_bytes w elapsed ≡ r = ground arith in
        subst (Reports runtime args w) same (late-Reports args w elapsed (late elapsed refl))
  ]

  -- Whatever the world does, a result that `run` returns reports the execution: the runner's runtime,
  -- output within the cap, and one of two endings. After the wall clock the exit code is 124 and the
  -- duration at least the limit; else the exit code is the client's, and memory is said to have run out
  -- exactly if that is 137.
  pub run-Reports :
      (args : RunSandboxArgs) (attempt : ℕ) (w : World) (r : SandboxResult)
      → (run u s sha1 runtime args attempt w).0 ≡ some (ok r)
      → Reports runtime args w r
  unfolding run
  run-Reports args attempt w r e = elim (Option-cases w.start_fault) [
    | inr (fault, started) ↦ absurd (ground arith)
    | inl started ↦
        settle-Reports args attempt w (loop (micros args.limits.wall_clock_s) w.ticks).0 r
          (λ elapsed. loop_late (micros args.limits.wall_clock_s) elapsed w.ticks) (rw started at e)
  ]

  -- A container that was started and has exited is judged by its exit, if no cancellation comes.
  pub run_exited :
      (args : RunSandboxArgs) (attempt : ℕ) (w : World)
      → w.start_fault ≡ none
      → w.cancelled_late ≡ false
      → (loop (micros args.limits.wall_clock_s) w.ticks).0 ≡ exited
      → (run u s sha1 runtime args attempt w).0
        ≡ some (exit_result u runtime args.limits.output_max_bytes w)
  unfolding run settle
  run_exited args attempt w started quiet ended = ground (arith, started, quiet, ended)

  pub exit_result_passes :
      (cap : ℕ) (w : World)
      → classify_infra u runtime w.exit (decode (safe cap w.stderr).0) ≡ ok tt
      → (r : SandboxResult) × (exit_result u runtime cap w ≡ ok r) × (r.exit_code ≡ w.exit)
  unfolding exit_result
  exit_result_passes cap w e = rw e (_, refl, refl)
