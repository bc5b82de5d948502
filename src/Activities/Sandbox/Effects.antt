-- ===== src/Activities/Sandbox/Effects.antt =====
-- What holds of everything that an attempt of `run_sandbox` does.
use mathlib.Core.Path.{subst}
use mathlib.Core.List.{append-nil}
use temporal_agent_sandbox.Prelude.{
  ℕ, Text, length, ltb, Option, none, some, List, [], ◌++◌, ◌≡◌, ◌⊎◌, inl, inr, refl, sym, arith,
  Bool-cases,
}
use temporal_agent_sandbox.Prelude.Utf8.{Bytes}
use temporal_agent_sandbox.Prelude.Methods.{Unicode}
use temporal_agent_sandbox.Contracts.{RunSandboxArgs, SandboxResult}
use temporal_agent_sandbox.Config.{Settings}
use temporal_agent_sandbox.Sandbox.Runner.{
  Error, infra_error, policy_violation, not_implemented, cancelled_error, other_error, Result, ok,
  err, Runner, gvisor, firecracker, get_runner,
}
use temporal_agent_sandbox.Sandbox.Gvisor.Loop.{Effect}
use temporal_agent_sandbox.Sandbox.Gvisor.Run
use temporal_agent_sandbox.Activities.Sandbox.{
  Attempt, run_sandbox, guarded, preflight, run_with, finish, handle, kill,
}
use temporal_agent_sandbox.Activities.Sandbox.Contained.{Result-cases}

-- the runner of a runtime, if there is one
abbrev pub Serves : Text → Runner → Type 0
Serves runtime (gvisor r) = r ≡ runtime
Serves runtime firecracker = Unit

pub get_runner-Serves :
    (runtime : Text) (runner : Runner) → get_runner runtime ≡ ok runner → Serves runtime runner
unfolding get_runner
get_runner-Serves runtime (gvisor r) e = ground arith
get_runner-Serves runtime firecracker e = tt

-- A property of lists of effects that holds of the effects of the runner's `run`, and is kept by a kill
-- behind them.
module _ (u : Unicode) (s : Settings) (sha1 : Bytes → Text) (args : RunSandboxArgs) (attempt : ℕ)
    (Q : List Effect → Type 0) (nothing : Q [])
    (killed : (es : List Effect) → Q es → Q (es ++ Run.kill sha1 args.run_id attempt)) where
  handle-kills :
      (runner : Runner) (e : Error)
      → ((handle s sha1 runner args attempt e).1 ≡ [])
        ⊎ ((handle s sha1 runner args attempt e).1 ≡ Run.kill sha1 args.run_id attempt)
  unfolding handle kill
  handle-kills (gvisor r) cancelled_error = inr refl
  handle-kills firecracker cancelled_error = inl refl
  handle-kills runner (infra_error m) = inl refl
  handle-kills runner (policy_violation m) = inl refl
  handle-kills runner (not_implemented m) = inl refl
  handle-kills runner (other_error m) = inl refl

  finish_lem :
      (runner : Runner) (ran : Option (Result SandboxResult)) (es : List Effect)
      → Q es
      → Q (finish s sha1 runner args attempt ran es).1
  unfolding finish
  finish_lem runner none es q = q
  finish_lem runner (some (ok r)) es q = q
  finish_lem runner (some (err e)) es q = elim (handle-kills runner e) [
    | inl quiet ↦ rw quiet (subst Q (sym (append-nil es)) q)
    | inr kills ↦ rw kills (killed es q)
  ]

  module _ (a : Attempt) (ran : Q (Run.run u s sha1 args.runtime args attempt a.world).1) where
    run_with_lem :
        (runner : Runner)
        → Serves args.runtime runner
        → Q (run_with s sha1 u runner args attempt a.world).1
    unfolding run_with
    run_with_lem (gvisor r) same = rw same ran
    run_with_lem firecracker _ = nothing

    guarded_lem :
        (runner : Runner)
        → Serves args.runtime runner
        → Q (guarded u s sha1 runner args attempt a).1
    unfolding guarded
    guarded_lem runner serves = elim (Result-cases (preflight s sha1 runner a)) [
      | inl (_, passes) ↦ rw (passes, guarded) (finish_lem runner _ _ (run_with_lem runner serves))
      | inr (x, fails) ↦ rw (fails, guarded) (finish_lem runner (some (err x)) [] nothing)
    ]

    pub run_sandbox_lem : Q (run_sandbox u s sha1 args attempt a).1
    unfolding run_sandbox
    run_sandbox_lem = elim (Bool-cases (ltb s.max_code_bytes (length args.code))) [
      | inl long ↦ rw long nothing
      | inr short ↦ elim (Result-cases (get_runner args.runtime)) [
        | inl (runner, chosen) ↦
            rw (short, chosen) (guarded_lem runner (get_runner-Serves args.runtime runner chosen))
        | inr (x, unknown) ↦ rw (short, unknown) nothing
      ]
    ]
