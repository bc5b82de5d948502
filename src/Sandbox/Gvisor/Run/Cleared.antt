-- ===== src/Sandbox/Gvisor/Run/Cleared.antt =====
-- Which containers `run` of app/sandbox/gvisor.py has Docker remove behind their launch.
use mathlib.Core.Path.{subst}
use mathlib.Core.List.{append-nil}
use temporal_agent_sandbox.Prelude.{
  ℕ, Text, codes, ◌==◌, Option, none, some, List, [], ◌∷◌, ◌++◌, if◌then◌else◌, ◌≡◌, ◌≢◌, inl, inr,
  refl, All, All-append, All-take, Any, Option-cases,
}
use temporal_agent_sandbox.Prelude.Utf8.{Bytes}
use temporal_agent_sandbox.Prelude.Methods.{Unicode}
use temporal_agent_sandbox.Contracts.{ResourceLimits, RunSandboxArgs, SandboxResult}
use temporal_agent_sandbox.Config.{Settings}
use temporal_agent_sandbox.Sandbox.Runner
use temporal_agent_sandbox.Sandbox.Gvisor.Launch.{container_name}
use temporal_agent_sandbox.Sandbox.Gvisor.Argv.{docker_run_cmd}
use temporal_agent_sandbox.Sandbox.Gvisor.Staging.{staging}
use temporal_agent_sandbox.Sandbox.Gvisor.Staging.Disk.{closed-All}
use temporal_agent_sandbox.Sandbox.Gvisor.Staging.Launches.{NoLaunch, staging-NoLaunch}
use temporal_agent_sandbox.Sandbox.Gvisor.Loop.{
  Effect, make_directory, write_text, chmod, delete_directory, launch, heartbeat, remove, exited,
  micros, loop,
}
use temporal_agent_sandbox.Sandbox.Gvisor.Run.{World, settle, run}
use temporal_agent_sandbox.Sandbox.Gvisor.Run.Teardown.{
  All-loop, closing-All, settle-All, run-All, TornDown-append, TornDown-more, settle-IsTornDown,
}

-- the word behind the first place of a word
word_after : Text → List Text → Option Text
word_after k [] = none
word_after k (a ∷ []) = none
word_after k (a ∷ b ∷ words) =
    let rest = word_after k (b ∷ words) in if a == k then some b else rest

-- The name that a container was given by its command is among those removed.
abbrev IsRemoved : List Text → List Effect → Type 0
IsRemoved argv es =
    (name : Text) × (word_after (codes "--name") argv ≡ some name) × Any (λ e. e ≡ remove name) es

-- Every container that is launched is removed later, by the name that it was given.
pub Cleared : List Effect → Type 0
unfolding word_after
Cleared [] = Unit
Cleared (launch argv ∷ es) = IsRemoved argv es × Cleared es
Cleared (make_directory _ ∷ es) = Cleared es
Cleared (write_text _ _ ∷ es) = Cleared es
Cleared (chmod _ _ ∷ es) = Cleared es
Cleared (heartbeat _ ∷ es) = Cleared es
Cleared (remove _ ∷ es) = Cleared es
Cleared (delete_directory _ ∷ es) = Cleared es

docker_run_cmd_name :
    (s : Settings) (runtime name code_file input_file : Text) (limits : ResourceLimits)
    → word_after (codes "--name") (docker_run_cmd s runtime name code_file input_file limits)
      ≡ some name
unfolding word_after docker_run_cmd codes ◌==◌
docker_run_cmd_name s runtime name code_file input_file limits = refl

Cleared-behind : (es fs : List Effect) → All NoLaunch es → Cleared fs → Cleared (es ++ fs)
unfolding Cleared
Cleared-behind [] fs h c = c
Cleared-behind (launch _ ∷ es) fs (b, h) c = absurd b
Cleared-behind (make_directory _ ∷ es) fs (_, h) c = Cleared-behind es fs h c
Cleared-behind (write_text _ _ ∷ es) fs (_, h) c = Cleared-behind es fs h c
Cleared-behind (chmod _ _ ∷ es) fs (_, h) c = Cleared-behind es fs h c
Cleared-behind (heartbeat _ ∷ es) fs (_, h) c = Cleared-behind es fs h c
Cleared-behind (remove _ ∷ es) fs (_, h) c = Cleared-behind es fs h c
Cleared-behind (delete_directory _ ∷ es) fs (_, h) c = Cleared-behind es fs h c

pub NoLaunch-Cleared : (es : List Effect) → All NoLaunch es → Cleared es
unfolding Cleared
NoLaunch-Cleared es h = subst Cleared (append-nil es) (Cleared-behind es [] h tt)

abbrev IsGiven : Text → Effect → Type 0
IsGiven name (launch argv) = word_after (codes "--name") argv ≡ some name
IsGiven name _ = Unit

removed_last :
    (name : Text) (es : List Effect) → Any (λ e. e ≡ remove name) (es ++ remove name ∷ [])
removed_last name [] = inl refl
removed_last name (e ∷ es) = inr (removed_last name es)

-- a removal behind launches under one name
IsGiven-Cleared :
    (name : Text) (es : List Effect) → All (IsGiven name) es → Cleared (es ++ remove name ∷ [])
unfolding Cleared
IsGiven-Cleared name [] h = tt
IsGiven-Cleared name (launch argv ∷ es) (g, h) =
    ((name, g, removed_last name es), IsGiven-Cleared name es h)
IsGiven-Cleared name (make_directory _ ∷ es) (_, h) = IsGiven-Cleared name es h
IsGiven-Cleared name (write_text _ _ ∷ es) (_, h) = IsGiven-Cleared name es h
IsGiven-Cleared name (chmod _ _ ∷ es) (_, h) = IsGiven-Cleared name es h
IsGiven-Cleared name (heartbeat _ ∷ es) (_, h) = IsGiven-Cleared name es h
IsGiven-Cleared name (remove _ ∷ es) (_, h) = IsGiven-Cleared name es h
IsGiven-Cleared name (delete_directory _ ∷ es) (_, h) = IsGiven-Cleared name es h

module _ (u : Unicode) (s : Settings) (sha1 : Bytes → Text) (runtime : Text) (args : RunSandboxArgs)
    (attempt : ℕ) where
  -- A removal behind a run is the removal of each container that the run has launched.
  pub killed-Cleared :
      (w : World)
      → Cleared (
          (run u s sha1 runtime args attempt w).1
          ++ remove (container_name sha1 args.run_id attempt) ∷ [])
  unfolding staging
  killed-Cleared w =
      let name = container_name sha1 args.run_id attempt in
      IsGiven-Cleared name (run u s sha1 runtime args attempt w).1 (
        run-All u s sha1 runtime args attempt (IsGiven name) w
          (tt, (tt, (tt, (tt, (tt, (tt, tt))))))
          (docker_run_cmd_name s runtime name _ _ args.limits) (λ _. tt) tt tt)

  -- A run that ends without having seen its container exit, whether by a fault before the launch, by the
  -- wall clock or by a cancellation, has Docker remove, behind each launch, the container of the very
  -- name that the launch has given, by `docker rm -f`.
  pub run-Cleared :
      (w : World) (out : Runner.Result SandboxResult)
      → (run u s sha1 runtime args attempt w).0 ≡ some out
      → (loop (micros args.limits.wall_clock_s) w.ticks).0 ≢ exited
      → Cleared (run u s sha1 runtime args attempt w).1
  unfolding run Cleared
  run-Cleared w out e h = elim (Option-cases w.start_fault) [
    | inr ((steps, fault), started) ↦ rw started (
        NoLaunch-Cleared _ (
          closed-All NoLaunch w.tmp tt _ (All-take NoLaunch steps _ (staging-NoLaunch args w.tmp))))
    | inl started ↦
        let ending = (loop (micros args.limits.wall_clock_s) w.ticks).0 in
        let name = container_name sha1 args.run_id attempt in
        let beats = (loop (micros args.limits.wall_clock_s) w.ticks).1 in
        let quiet = All-append NoLaunch _ _ (All-loop NoLaunch (λ _. tt) _ w.ticks) (
          All-append NoLaunch _ _ (settle-All u s sha1 runtime args attempt NoLaunch tt w ending)
            (closing-All NoLaunch w.tmp tt (settle u s sha1 runtime args attempt w ending).0)) in
        let gone = TornDown-append u s sha1 runtime args attempt beats _ (
          TornDown-more u s sha1 runtime args attempt _ _
            (settle-IsTornDown u s sha1 runtime args attempt w ending out (rw started at e) h)) in
        rw started (
          Cleared-behind (staging args w.tmp) _ (staging-NoLaunch args w.tmp) (
            (name, docker_run_cmd_name s runtime name _ _ args.limits, gone),
            NoLaunch-Cleared _ quiet,
          ))
  ]
