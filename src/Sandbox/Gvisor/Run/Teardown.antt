-- ===== src/Sandbox/Gvisor/Run/Teardown.antt =====
-- What `run` does to the world: what it launches, and which container it removes, and when.
use temporal_agent_sandbox.Prelude.{
  ℕ, ◌/◌, Text, codes, starts_with, none, some, false, List, [], ◌∷◌, ◌++◌, ◌≡◌, ◌≢◌, inl, inr,
  refl, arith, All, All-append, All-take, Any, Option, ◌⊎◌, Option-cases, Bool-cases,
}
use temporal_agent_sandbox.Prelude.Utf8.{Bytes}
use temporal_agent_sandbox.Prelude.Methods.{Unicode}
use temporal_agent_sandbox.Contracts.{RunSandboxArgs, SandboxResult}
use temporal_agent_sandbox.Config.{Settings}
use temporal_agent_sandbox.Sandbox.Runner
use temporal_agent_sandbox.Sandbox.Runner.{ok, err, cancelled_error}
use temporal_agent_sandbox.Sandbox.Gvisor.Launch.{container_name}
use temporal_agent_sandbox.Sandbox.Gvisor.Argv.{docker_run_cmd}
use temporal_agent_sandbox.Sandbox.Gvisor.Argv.Options.{
  Parsed, read_command, IsIsolated, docker_run_cmd-IsIsolated,
}
use temporal_agent_sandbox.Sandbox.Gvisor.Staging.{code_file, input_file, staging, closing}
use temporal_agent_sandbox.Sandbox.Gvisor.Staging.Disk.{closed-All}
use temporal_agent_sandbox.Sandbox.Gvisor.Loop.{
  Tick, Effect, make_directory, write_text, chmod, delete_directory, launch, heartbeat, remove,
  Ending, exited, timed_out, interrupted, waiting, micros, loop,
}
use temporal_agent_sandbox.Sandbox.Gvisor.Run.{World, kill, settle, run}

-- The loop sends heartbeats only.
pub All-loop :
    (P : Effect → Type 0)
    → ((ms : ℕ) → P (heartbeat ms))
    → (wall : ℕ) (ts : List Tick) → All P (loop wall ts).1
unfolding loop
All-loop P beat wall [] = tt
All-loop P beat wall (t ∷ ts) = ground (arith, beat (t.later / 1000), All-loop P beat wall ts)

pub closing-All :
    {A : Type 0} (P : Effect → Type 0) (tmp : Text)
    → P (delete_directory tmp)
    → (out : Option A) → All P (closing tmp out)
closing-All P tmp p none = tt
closing-All P tmp p (some _) = (p, tt)

module _ (u : Unicode) (s : Settings) (sha1 : Bytes → Text) (runtime : Text) (args : RunSandboxArgs)
    (attempt : ℕ) where
  pub settle-All :
      (P : Effect → Type 0)
      → P (remove (container_name sha1 args.run_id attempt))
      → (w : World) (ending : Ending) → All P (settle u s sha1 runtime args attempt w ending).1
  unfolding settle kill
  settle-All P removed w waiting = tt
  settle-All P removed w exited = elim (Bool-cases w.cancelled_late) [
    | inl again ↦ rw again tt
    | inr quiet ↦ rw quiet tt
  ]
  settle-All P removed w interrupted = (removed, tt)
  settle-All P removed w (timed_out elapsed) = elim (Bool-cases w.cancelled_late) [
    | inl again ↦ rw again (removed, (removed, tt))
    | inr quiet ↦ rw quiet (removed, tt)
  ]

  -- What holds of each effect that `run` can have holds of all that it does.
  pub run-All :
      (P : Effect → Type 0) (w : World)
      → All P (staging args w.tmp)
      → P (
          launch (
            docker_run_cmd s runtime
              (container_name sha1 args.run_id attempt)
              (code_file w.tmp)
              (input_file w.tmp)
              args.limits))
      → ((ms : ℕ) → P (heartbeat ms))
      → P (remove (container_name sha1 args.run_id attempt))
      → P (delete_directory w.tmp)
      → All P (run u s sha1 runtime args attempt w).1
  unfolding run
  run-All P w staged launched beat removed deleted = elim (Option-cases w.start_fault) [
    | inr ((steps, fault), started) ↦
        rw started (closed-All P w.tmp deleted _ (All-take P steps (staging args w.tmp) staged))
    | inl started ↦
        let wall = micros args.limits.wall_clock_s in
        let ending = (loop wall w.ticks).0 in
        rw started (
          All-append P (staging args w.tmp) _ staged (
            launched,
            All-append P (loop wall w.ticks).1 _ (All-loop P beat wall w.ticks) (
                All-append P _ _ (settle-All P removed w ending)
                  (closing-All P w.tmp deleted (settle u s sha1 runtime args attempt w ending).0)),
          ))
  ]

  abbrev IsStaged : World → Text → Type 0
  IsStaged w path = (path ≡ code_file w.tmp) ⊎ (path ≡ input_file w.tmp)

  -- The only container that is launched is an isolated one, and the only one that is removed is the
  -- container of this run and attempt; all paths that are written, or deleted, are those of the
  -- temporary directory.
  abbrev pub IsContained : World → Effect → Type 0
  IsContained w (launch argv) =
      (p : Parsed) × (read_command argv ≡ some p)
      × IsIsolated s runtime (code_file w.tmp) (input_file w.tmp) args.limits p
  IsContained w (heartbeat _) = Unit
  IsContained w (remove name) = name ≡ container_name sha1 args.run_id attempt
  IsContained w (make_directory path) = path ≡ w.tmp
  IsContained w (write_text path text) = IsStaged w path
  IsContained w (chmod path mode) = (path ≡ w.tmp) ⊎ IsStaged w path
  IsContained w (delete_directory path) = path ≡ w.tmp

  staging-IsContained : (w : World) → All (IsContained w) (staging args w.tmp)
  unfolding staging
  staging-IsContained w =
      (refl, (inl refl, (inr refl, (inl refl, (inr (inl refl), (inr (inr refl), tt))))))

  -- Whatever the world does, everything that `run` does to it is contained: it launches isolated
  -- containers only, removes no container but that of this run and attempt, and writes, changes and
  -- deletes no path but its temporary directory and the two files in it. The image's name must not begin
  -- with a dash.
  pub run-IsContained :
      (w : World)
      → starts_with s.sandbox_image (codes "-") ≡ false
      → All (IsContained w) (run u s sha1 runtime args attempt w).1
  run-IsContained w image =
      run-All (IsContained w) w (staging-IsContained w)
        (docker_run_cmd-IsIsolated s runtime _ (code_file w.tmp) (input_file w.tmp) args.limits
          image)
        (λ _. tt) refl refl

  -- The container of this run and attempt is among those removed.
  abbrev pub IsTornDown : List Effect → Type 0
  IsTornDown = Any (λ e. e ≡ remove (container_name sha1 args.run_id attempt))

  pub TornDown-append : (es fs : List Effect) → IsTornDown fs → IsTornDown (es ++ fs)
  TornDown-append [] fs h = h
  TornDown-append (e ∷ es) fs h = inr (TornDown-append es fs h)

  pub TornDown-more : (es fs : List Effect) → IsTornDown es → IsTornDown (es ++ fs)
  TornDown-more [] fs h = absurd h
  TornDown-more (e ∷ es) fs (inl h) = inl h
  TornDown-more (e ∷ es) fs (inr h) = inr (TornDown-more es fs h)

  pub settle-IsTornDown :
      (w : World) (ending : Ending) (out : Runner.Result SandboxResult)
      → (settle u s sha1 runtime args attempt w ending).0 ≡ some out
      → ending ≢ exited
      → IsTornDown (settle u s sha1 runtime args attempt w ending).1
  unfolding settle kill
  settle-IsTornDown w waiting out e h = cc
  settle-IsTornDown w exited out e h = absurd (h refl)
  settle-IsTornDown w interrupted out e h = inl refl
  settle-IsTornDown w (timed_out elapsed) out e h = elim (Bool-cases w.cancelled_late) [
    | inl again ↦ rw again (inl refl)
    | inr quiet ↦ rw quiet (inl refl)
  ]
