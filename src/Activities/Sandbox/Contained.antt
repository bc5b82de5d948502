-- ===== src/Activities/Sandbox/Contained.antt =====
-- What an attempt of `run_sandbox` does to the world.
use temporal_agent_sandbox.Prelude.{
  ℕ, Text, length, ltb, Option, none, some, List, [], ◌++◌, ◌≡◌, ◌⊎◌, inl, inr, refl, arith,
  Bool-cases,
}
use temporal_agent_sandbox.Prelude.Utf8.{Bytes}
use temporal_agent_sandbox.Prelude.Methods.{Unicode}
use temporal_agent_sandbox.Contracts.{RunSandboxArgs, SandboxResult}
use temporal_agent_sandbox.Config.{Settings}
use temporal_agent_sandbox.Sandbox.Runner.{
  Error, infra_error, policy_violation, not_implemented, cancelled_error, other_error, Result, ok,
  err, gvisor, get_runner,
}
use temporal_agent_sandbox.Sandbox.Gvisor.Loop.{Effect}
use temporal_agent_sandbox.Sandbox.Gvisor.Run
use temporal_agent_sandbox.Sandbox.Gvisor.Run.Teardown.{IsTornDown, TornDown-append}
use temporal_agent_sandbox.Sandbox.Gvisor.Run.Cleared.{Cleared, NoLaunch-Cleared, killed-Cleared}
use temporal_agent_sandbox.Activities.Sandbox.{
  passed, Outcome, raised, Attempt, run_sandbox, guarded, preflight, run_with, finish, handle, kill,
}

pub Result-cases :
    {A : Type 0} (r : Result A) → ((a : A) × (r ≡ ok a)) ⊎ ((e : Error) × (r ≡ err e))
Result-cases (ok a) = inl (a, refl)
Result-cases (err e) = inr (e, refl)

module _ (u : Unicode) (s : Settings) (sha1 : Bytes → Text) (args : RunSandboxArgs)
    (attempt : ℕ) where
  abbrev IsCancelled : Option Outcome → Type 0
  IsCancelled out = out ≡ some (raised (passed cancelled_error))

  finish-IsTornDown :
      (runtime : Text) (ran : Option (Result SandboxResult)) (es : List Effect)
      → IsCancelled (finish s sha1 (gvisor runtime) args attempt ran es).0
      → IsTornDown u s sha1 runtime args attempt
          (finish s sha1 (gvisor runtime) args attempt ran es).1
  unfolding finish handle kill Run.kill
  finish-IsTornDown runtime none es e = cc
  finish-IsTornDown runtime (some (ok r)) es e = cc
  finish-IsTornDown runtime (some (err cancelled_error)) es e =
      TornDown-append u s sha1 runtime args attempt es _ (inl refl)
  finish-IsTornDown runtime (some (err (infra_error m))) es e = cc
  finish-IsTornDown runtime (some (err (policy_violation m))) es e = cc
  finish-IsTornDown runtime (some (err (not_implemented m))) es e = cc
  finish-IsTornDown runtime (some (err (other_error m))) es e = cc

  guarded-IsTornDown :
      (runtime : Text) (a : Attempt)
      → IsCancelled (guarded u s sha1 (gvisor runtime) args attempt a).0
      → IsTornDown u s sha1 runtime args attempt
          (guarded u s sha1 (gvisor runtime) args attempt a).1
  unfolding guarded
  guarded-IsTornDown runtime a e = elim (Result-cases (preflight s sha1 (gvisor runtime) a)) [
    | inl (_, passes) ↦
        rw (passes, guarded) (finish-IsTornDown runtime _ _ (rw (passes, guarded) at e))
    | inr (x, fails) ↦
        rw (fails, guarded) (finish-IsTornDown runtime (some (err x)) [] (rw (fails, guarded) at e))
  ]

  finish-Cleared :
      (runtime : Text) (ran : Option (Result SandboxResult)) (es : List Effect)
      → Cleared (es ++ Run.kill sha1 args.run_id attempt)
      → IsCancelled (finish s sha1 (gvisor runtime) args attempt ran es).0
      → Cleared (finish s sha1 (gvisor runtime) args attempt ran es).1
  unfolding finish handle kill
  finish-Cleared runtime none es c e = cc
  finish-Cleared runtime (some (ok r)) es c e = cc
  finish-Cleared runtime (some (err cancelled_error)) es c e = c
  finish-Cleared runtime (some (err (infra_error m))) es c e = cc
  finish-Cleared runtime (some (err (policy_violation m))) es c e = cc
  finish-Cleared runtime (some (err (not_implemented m))) es c e = cc
  finish-Cleared runtime (some (err (other_error m))) es c e = cc

  guarded-Cleared :
      (runtime : Text) (a : Attempt)
      → IsCancelled (guarded u s sha1 (gvisor runtime) args attempt a).0
      → Cleared (guarded u s sha1 (gvisor runtime) args attempt a).1
  unfolding guarded run_with Run.kill
  guarded-Cleared runtime a e = elim (Result-cases (preflight s sha1 (gvisor runtime) a)) [
    | inl (_, passes) ↦
        rw (passes, guarded)
          (finish-Cleared runtime _ _ (killed-Cleared u s sha1 runtime args attempt a.world)
            (rw (passes, guarded) at e))
    | inr (x, fails) ↦
        rw (fails, guarded)
          (finish-Cleared runtime (some (err x)) []
            (NoLaunch-Cleared (Run.kill sha1 args.run_id attempt) (tt, tt))
            (rw (fails, guarded) at e))
  ]

  -- The cancellation of an attempt at the gVisor runner tears its sandbox down, wherever the
  -- cancellation arrives: during the preflight, before the launch, in the loop, or behind it. Behind each
  -- launch the attempt has Docker remove, by `docker rm -f`, the container of the very name that the
  -- launch has given; and it does so for the name of this run and attempt also if it has launched none.
  pub cancelled-Cleared :
      (runtime : Text) (a : Attempt)
      → get_runner args.runtime ≡ ok (gvisor runtime)
      → (run_sandbox u s sha1 args attempt a).0 ≡ some (raised (passed cancelled_error))
      → Cleared (run_sandbox u s sha1 args attempt a).1
        × IsTornDown u s sha1 runtime args attempt (run_sandbox u s sha1 args attempt a).1
  unfolding run_sandbox
  cancelled-Cleared runtime a chosen e =
      elim (Bool-cases (ltb s.max_code_bytes (length args.code))) [
        | inl long ↦ absurd (ground arith)
        | inr short ↦
            rw (short, chosen)
              (
                guarded-Cleared runtime a (rw (short, chosen) at e),
                guarded-IsTornDown runtime a (rw (short, chosen) at e),
              )
      ]
