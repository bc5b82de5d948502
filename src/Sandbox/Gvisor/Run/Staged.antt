-- ===== src/Sandbox/Gvisor/Run/Staged.antt =====
-- What `run` does to the disk: what the container finds there, and what is left behind.
use mathlib.Core.Path.{subst}
use mathlib.Core.List.{append_assoc}
use temporal_agent_sandbox.Prelude.{
  ℕ, Text, none, some, List, ◌∷◌, ◌++◌, ◌≡◌, sym, ap, ◌∙◌, inl, inr, All, All-append, All-take,
  Option-cases,
}
use temporal_agent_sandbox.Prelude.Utf8.{Bytes}
use temporal_agent_sandbox.Prelude.Methods.{Unicode}
use temporal_agent_sandbox.Contracts.{RunSandboxArgs, SandboxResult}
use temporal_agent_sandbox.Config.{Settings}
use temporal_agent_sandbox.Sandbox.Runner
use temporal_agent_sandbox.Sandbox.Gvisor.Launch.{container_name}
use temporal_agent_sandbox.Sandbox.Gvisor.Argv.{docker_run_cmd}
use temporal_agent_sandbox.Sandbox.Gvisor.Staging.{code_file, input_file, staging, closing}
use temporal_agent_sandbox.Sandbox.Gvisor.Staging.Disk.{
  Disk, AtLaunch, IsReady, staging-IsReady, IsOwn, staging-IsOwn, closed-All, IsFresh, IsRestored,
  ended-IsRestored, closed-IsRestored,
}
use temporal_agent_sandbox.Sandbox.Gvisor.Staging.Launches.{
  NoLaunch, NoLaunch-AtLaunch, staging-NoLaunch, staged-AtLaunch,
}
use temporal_agent_sandbox.Sandbox.Gvisor.Loop.{launch, micros, loop}
use temporal_agent_sandbox.Sandbox.Gvisor.Run.{World, settle, run}
use temporal_agent_sandbox.Sandbox.Gvisor.Run.Teardown.{All-loop, settle-All, closing-All}

regroup :
    {A : Type 0} (xs : List A) (y : A) (ys zs vs : List A)
    → xs ++ y ∷ (ys ++ (zs ++ vs)) ≡ (xs ++ y ∷ (ys ++ zs)) ++ vs
regroup xs y ys zs vs =
    sym (append_assoc xs (y ∷ (ys ++ zs)) vs ∙ ap (λ l. xs ++ y ∷ l) (append_assoc ys zs vs))

module _ (u : Unicode) (s : Settings) (sha1 : Bytes → Text) (runtime : Text) (args : RunSandboxArgs)
    (attempt : ℕ) where
  staged-IsOwn :
      (w : World)
      → All (IsOwn w.tmp) (
          staging args w.tmp
          ++ launch (
              docker_run_cmd s runtime
                (container_name sha1 args.run_id attempt)
                (code_file w.tmp)
                (input_file w.tmp)
                args.limits)
            ∷ ((loop (micros args.limits.wall_clock_s) w.ticks).1
                ++ (settle u s sha1 runtime args attempt w
                    (loop (micros args.limits.wall_clock_s) w.ticks).0).1))
  staged-IsOwn w = All-append (IsOwn w.tmp) _ _ (staging-IsOwn args w.tmp) (
    tt,
    All-append (IsOwn w.tmp) _ _ (All-loop (IsOwn w.tmp) (λ _. tt) _ w.ticks)
        (settle-All u s sha1 runtime args attempt (IsOwn w.tmp) tt w _),
  )

  settled_out :
      (w : World) (out : Runner.Result SandboxResult)
      → w.start_fault ≡ none
      → (run u s sha1 runtime args attempt w).0 ≡ some out
      → (settle u s sha1 runtime args attempt w
          (loop (micros args.limits.wall_clock_s) w.ticks).0).0
        ≡ some out
  unfolding run
  settled_out w out started e = rw started at e

  pub run-AtLaunch :
      (w : World) (d : Disk)
      → AtLaunch (IsReady args w.tmp) (run u s sha1 runtime args attempt w).1 d
  unfolding run
  run-AtLaunch w d = elim (Option-cases w.start_fault) [
    | inr ((steps, fault), started) ↦ rw started (
        NoLaunch-AtLaunch (IsReady args w.tmp) _ d (
          closed-All NoLaunch w.tmp tt _ (All-take NoLaunch steps _ (staging-NoLaunch args w.tmp))))
    | inl started ↦
        let ending = (loop (micros args.limits.wall_clock_s) w.ticks).0 in
        rw started (
          staged-AtLaunch (IsReady args w.tmp) args w.tmp _ _ d (staging-IsReady args w.tmp d) (
            All-append NoLaunch _ _ (All-loop NoLaunch (λ _. tt) _ w.ticks) (
              All-append NoLaunch _ _
                (settle-All u s sha1 runtime args attempt NoLaunch tt w ending)
                (closing-All NoLaunch w.tmp tt (settle u s sha1 runtime args attempt w ending).0))))
  ]

  run-IsRestored :
      (w : World) (d : Disk) (out : Runner.Result SandboxResult)
      → IsFresh w.tmp d
      → (run u s sha1 runtime args attempt w).0 ≡ some out
      → IsRestored (run u s sha1 runtime args attempt w).1 d
  unfolding run
  run-IsRestored w d out fresh e = elim (Option-cases w.start_fault) [
    | inr ((steps, fault), started) ↦ rw started (
        closed-IsRestored w.tmp d fresh _
          (All-take (IsOwn w.tmp) steps _ (staging-IsOwn args w.tmp)))
    | inl started ↦
        let wall = micros args.limits.wall_clock_s in
        let after = (settle u s sha1 runtime args attempt w (loop wall w.ticks).0).1 in
        rw (started, settled_out w out started e)
          (subst (λ es. IsRestored es d)
            (sym (
              regroup (staging args w.tmp) _ (loop wall w.ticks).1 after
                (closing w.tmp (some out))))
            (ended-IsRestored w.tmp d fresh _ (staged-IsOwn w)))
  ]

  -- Over a new temporary directory, whatever the world does: whenever a container is launched, the two
  -- files that it mounts hold the code of the step and an empty object, with modes that let its user
  -- reach and read them; and when `run` has returned or raised, every file is as it was before.
  pub run-Stages :
      (w : World) (d : Disk) (out : Runner.Result SandboxResult)
      → IsFresh w.tmp d
      → (run u s sha1 runtime args attempt w).0 ≡ some out
      → AtLaunch (IsReady args w.tmp) (run u s sha1 runtime args attempt w).1 d
        × IsRestored (run u s sha1 runtime args attempt w).1 d
  run-Stages w d out fresh e = (run-AtLaunch w d, run-IsRestored w d out fresh e)
