-- ===== src/Activities/Sandbox.antt =====
-- app/activities/sandbox.py: `run_sandbox`, the activity that crosses the trust boundary; its spans
-- and log lines are in Telemetry.
pub mod Retry
pub mod Contained
pub mod Effects
pub mod Spared
pub mod Returned
pub mod Attempts
pub mod Telemetry
use temporal_agent_sandbox.Prelude.{
  ℕ, Text, codes, str_nat, length, ltb, is_one_of, Option, none, some, Bool, true, false, ◌||◌,
  List, [], ◌∷◌, ◌++◌, if◌then◌else◌,
}
use temporal_agent_sandbox.Prelude.Utf8.{Bytes}
use temporal_agent_sandbox.Prelude.Methods.{Unicode}
use temporal_agent_sandbox.Contracts.{RunSandboxArgs, SandboxResult}
use temporal_agent_sandbox.Config.{Settings}
use temporal_agent_sandbox.Temporal.Policies.{RetryPolicy}
use temporal_agent_sandbox.Sandbox.Runner.{
  Error, infra_error, policy_violation, not_implemented, cancelled_error, other_error, Result, ok,
  err, Runner, gvisor, firecracker, get_runner, ◌>>=◌,
}
use temporal_agent_sandbox.Sandbox.Firecracker
use temporal_agent_sandbox.Sandbox.Gvisor.Launch.{Subprocess}
use temporal_agent_sandbox.Sandbox.Gvisor.Launch
use temporal_agent_sandbox.Sandbox.Gvisor.Loop.{Effect}
use temporal_agent_sandbox.Sandbox.Gvisor.Run
use temporal_agent_sandbox.Sandbox.Gvisor.Run.{World}

-- What the activity raises: an `ApplicationError` of its own, or a runner's error that it lets pass.
pub data Raised : Type 0 where
  application_error : Text → Text → Bool → Raised
  passed : Error → Raised

pub data Outcome : Type 0 where
  returned : SandboxResult → Outcome
  raised : Raised → Outcome

-- The world during one attempt: what becomes of `docker info`, which another exception or a cancellation
-- can leave, and the world of `run`.
pub record Attempt : Type 0 where
  pub info : Result Subprocess
  pub world : World

-- How an attempt ends, `none` while it is still waiting, and what it has done.
abbrev pub Attempted : Type 0
Attempted = Option Outcome × List Effect

-- the dynamic dispatch of the runner's three methods
module _ (s : Settings) (sha1 : Bytes → Text) where
  unfoldable pub preflight : Runner → Attempt → Result (Unit {0})
  preflight (gvisor runtime) a = Launch.preflight runtime a.info
  preflight firecracker a = Firecracker.preflight

  pub run_with : Unicode → Runner → RunSandboxArgs → ℕ → World → Run.Ran
  run_with u (gvisor runtime) args attempt w = Run.run u s sha1 runtime args attempt w
  run_with u firecracker args attempt w = (some Firecracker.run, [])

  pub kill : Runner → Text → ℕ → List Effect
  kill (gvisor runtime) run_id attempt = Run.kill sha1 run_id attempt
  kill firecracker run_id attempt = []

-- the `except` clauses
pub handle : Settings → (Bytes → Text) → Runner → RunSandboxArgs → ℕ → Error → Outcome × List Effect
unfolding kill
handle s sha1 runner args attempt cancelled_error =
    (raised (passed cancelled_error), kill s sha1 runner args.run_id attempt)
handle s sha1 runner args attempt (policy_violation m) =
    (raised (application_error m (codes "SandboxPolicyViolation") true), [])
handle s sha1 runner args attempt (infra_error m) =
    (raised (application_error m (codes "SandboxInfraError") false), [])
handle s sha1 runner args attempt e = (raised (passed e), [])

-- the `try` statement
pub finish :
    Settings
    → (Bytes → Text)
    → Runner
    → RunSandboxArgs
    → ℕ
    → Option (Result SandboxResult)
    → List Effect
    → Attempted
unfolding handle
finish s sha1 runner args attempt none done = (none, done)
finish s sha1 runner args attempt (some (ok r)) done = (some (returned r), done)
finish s sha1 runner args attempt (some (err e)) done =
    let (outcome, more) = handle s sha1 runner args attempt e in (some outcome, done ++ more)

pub guarded :
    Unicode → Settings → (Bytes → Text) → Runner → RunSandboxArgs → ℕ → Attempt → Attempted
unfolding preflight run_with finish
guarded u s sha1 runner args attempt a = elim (preflight s sha1 runner a) [
  | err e ↦ finish s sha1 runner args attempt (some (err e)) []
  | ok _ ↦
      let (ran, done) = run_with s sha1 u runner args attempt a.world in
      finish s sha1 runner args attempt ran done
]

unfoldable pub run_sandbox :
    Unicode → Settings → (Bytes → Text) → RunSandboxArgs → ℕ → Attempt → Attempted
unfolding guarded
run_sandbox u s sha1 args attempt a =
    if ltb s.max_code_bytes (length args.code)
    then (
      some (
          raised (
            application_error
              (codes "generated code exceeds " ++ (str_nat s.max_code_bytes ++ codes " bytes"))
              (codes "PayloadTooLarge") true)),
      [],
    )
    else elim (get_runner args.runtime) [
      | err e ↦ (some (raised (passed e)), [])
      | ok runner ↦ guarded u s sha1 runner args attempt a
    ]
