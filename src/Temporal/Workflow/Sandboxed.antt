-- ===== src/Temporal/Workflow/Sandboxed.antt =====
-- From a run of the workflow to the containers that its sandbox step launches.
use temporal_agent_sandbox.Prelude.{
  ℕ, Text, codes, starts_with, false, [], ◌≡◌, refl, All, All-append, Any, All-at,
}
use temporal_agent_sandbox.Prelude.Utf8.{Bytes}
use temporal_agent_sandbox.Prelude.Methods.{Unicode}
use temporal_agent_sandbox.Contracts.{RunInput, RunSandboxArgs}
use temporal_agent_sandbox.Config.{Settings}
use temporal_agent_sandbox.Sandbox.Gvisor.Run
use temporal_agent_sandbox.Sandbox.Gvisor.Run.Staged.{run-AtLaunch}
use temporal_agent_sandbox.Sandbox.Gvisor.Run.Teardown.{IsContained, run-IsContained}
use temporal_agent_sandbox.Sandbox.Gvisor.Staging.Disk.{Disk, AtLaunch, IsReady}
use temporal_agent_sandbox.Sandbox.Gvisor.Staging.Launches.{AtLaunch-append, NoLaunch-AtLaunch}
use temporal_agent_sandbox.Activities.Sandbox
use temporal_agent_sandbox.Activities.Sandbox.{Attempt}
use temporal_agent_sandbox.Activities.Sandbox.Effects.{run_sandbox_lem}
use temporal_agent_sandbox.Temporal.Workflow.{value, History, run_sandbox, Command, init, run}
use temporal_agent_sandbox.Temporal.Workflow.Outcome.{IsOwn, Follows, commands-Follow}

module _ (u : Unicode) (s : Settings) (sha1 : Bytes → Text) (args : RunSandboxArgs) (attempt : ℕ)
    (a : Attempt) where
  pub attempt-IsContained :
      starts_with s.sandbox_image (codes "-") ≡ false
      → All
          (IsContained u s sha1 args.runtime args attempt a.world)
          (Sandbox.run_sandbox u s sha1 args attempt a).1
  unfolding Run.kill
  attempt-IsContained image =
      let P = IsContained u s sha1 args.runtime args attempt a.world in
      run_sandbox_lem u s sha1 args attempt (All P) tt (λ es h. All-append P es _ h (refl, tt)) a
        (run-IsContained u s sha1 args.runtime args attempt a.world image)

  pub attempt-AtLaunch :
      (d : Disk)
      → AtLaunch (IsReady args a.world.tmp) (Sandbox.run_sandbox u s sha1 args attempt a).1 d
  unfolding Run.kill
  attempt-AtLaunch d =
      run_sandbox_lem u s sha1 args attempt (λ es. AtLaunch (IsReady args a.world.tmp) es d)
        (NoLaunch-AtLaunch (IsReady args a.world.tmp) [] d tt)
        (λ es h. AtLaunch-append (IsReady args a.world.tmp) es _ d h (tt, tt)) a
        (run-AtLaunch u s sha1 args.runtime args attempt a.world d)

-- Whatever attempt Temporal makes of a sandbox step that a run asks for, and whatever the world does:
-- the step has the run's own id, tenant, limits and runtime, and the code that the history records; all
-- that is done is contained, for that id, runtime and those limits; and a container is launched only when
-- its files hold that code. The image's name must not begin with a dash.
pub run-Sandboxed :
    (u : Unicode) (s : Settings) (sha1 : Bytes → Text) (inp : RunInput) (h : History) (c : Command)
    (args : RunSandboxArgs) (attempt : ℕ) (a : Attempt) (d : Disk)
    → starts_with s.sandbox_image (codes "-") ≡ false
    → Any (λ x. x ≡ c) (run s inp h init).1.commands
    → c.activity ≡ run_sandbox args
    → (h.code ≡ value args.code)
      × IsOwn inp args
      × All
          (IsContained u s sha1 args.runtime args attempt a.world)
          (Sandbox.run_sandbox u s sha1 args attempt a).1
      × AtLaunch (IsReady args a.world.tmp) (Sandbox.run_sandbox u s sha1 args attempt a).1 d
run-Sandboxed u s sha1 inp h c args attempt a d image asked same =
    let follows : Follows s inp h c =
      All-at (Follows s inp h) c (run s inp h init).1.commands (commands-Follow s inp h) asked in
    let (code, own, _) : (h.code ≡ value args.code) × IsOwn inp args × _ = rw same at follows in
    (
      code,
      own,
      attempt-IsContained u s sha1 args attempt a image,
      attempt-AtLaunch u s sha1 args attempt a d,
    )
