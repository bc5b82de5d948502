-- ===== src/Activities/Sandbox/Returned.antt =====
-- What stands behind a result that `run_sandbox` returns.
use temporal_agent_sandbox.Prelude.{
  sym, refl, ℕ, Text, length, ltb, Option, none, some, List, [], ◌≡◌, inl, inr, arith, Bool-cases,
  codes, ◌==◌, ==_iff, is_one_of, ◌⊎◌, false, ap, ◌∙◌,
}
use temporal_agent_sandbox.Prelude.Utf8.{Bytes}
use temporal_agent_sandbox.Prelude.Methods.{Unicode}
use temporal_agent_sandbox.Contracts.{RunSandboxArgs, SandboxResult}
use temporal_agent_sandbox.Config.{Settings}
use temporal_agent_sandbox.Sandbox.Runner.{
  infra_error, policy_violation, not_implemented, cancelled_error, other_error, Result, ok, err,
  Runner, gvisor, firecracker, get_runner,
}
use temporal_agent_sandbox.Sandbox.Firecracker
use temporal_agent_sandbox.Sandbox.Gvisor.Loop.{Effect}
use temporal_agent_sandbox.Sandbox.Gvisor.Launch
use temporal_agent_sandbox.Sandbox.Gvisor.Launch.{Subprocess}
use temporal_agent_sandbox.Sandbox.Gvisor.Launch.FailClosed.{Registered, preflight_iff}
use temporal_agent_sandbox.Activities.Sandbox.Retry.{runsc_is_not_runc}
use temporal_agent_sandbox.Sandbox.Gvisor.Run
use temporal_agent_sandbox.Activities.Sandbox.{
  returned, Attempt, run_sandbox, guarded, preflight, run_with, finish, handle,
}
use temporal_agent_sandbox.Activities.Sandbox.Contained.{Result-cases}
use temporal_agent_sandbox.Activities.Sandbox.Effects.{get_runner-Serves}

-- The runtime is one of the two that the runner has, and Docker reports gVisor's as registered.
abbrev pub IsHad : Text → Attempt → Type 0
IsHad runtime a =
    (runtime ≡ codes "runc")
    ⊎ ((runtime ≡ codes "runsc")
        × ((info : Subprocess) × (a.info ≡ ok info) × Registered (codes "runsc") info))

runner_names :
    (runtime : Text)
    → get_runner runtime ≡ ok (gvisor runtime)
    → (runtime ≡ codes "runc") ⊎ (runtime ≡ codes "runsc")
unfolding get_runner is_one_of
runner_names runtime e = elim (Bool-cases (runtime == codes "runc")) [
  | inl plain ↦ inl ((==_iff runtime (codes "runc")).0 plain)
  | inr other ↦ elim (Bool-cases (runtime == codes "runsc")) [
    | inl named ↦ inr ((==_iff runtime (codes "runsc")).0 named)
    | inr neither ↦ absurd (ground arith)
  ]
]

module _ (u : Unicode) (s : Settings) (sha1 : Bytes → Text) (args : RunSandboxArgs)
    (attempt : ℕ) where
  -- The result is that of the gVisor runner of the runtime, behind a preflight that has passed, and
  -- the attempt does what the runner does.
  pub record IsRun (a : Attempt) (r : SandboxResult) : Type 0 where
    pub chosen : get_runner args.runtime ≡ ok (gvisor args.runtime)
    pub passes : preflight s sha1 (gvisor args.runtime) a ≡ ok tt
    pub ran : (Run.run u s sha1 args.runtime args attempt a.world).0 ≡ some (ok r)
    pub does :
        (run_sandbox u s sha1 args attempt a).1
        ≡ (Run.run u s sha1 args.runtime args attempt a.world).1

  finish-returned :
      (runner : Runner) (ran : Option (Result SandboxResult)) (es : List Effect) (r : SandboxResult)
      → (finish s sha1 runner args attempt ran es).0 ≡ some (returned r)
      → (ran ≡ some (ok r)) × ((finish s sha1 runner args attempt ran es).1 ≡ es)
  unfolding finish handle
  finish-returned runner none es r e = cc
  finish-returned runner (some (ok q)) es r e = ground arith
  finish-returned runner (some (err cancelled_error)) es r e = absurd (ground arith)
  finish-returned runner (some (err (infra_error m))) es r e = absurd (ground arith)
  finish-returned runner (some (err (policy_violation m))) es r e = absurd (ground arith)
  finish-returned runner (some (err (not_implemented m))) es r e = absurd (ground arith)
  finish-returned runner (some (err (other_error m))) es r e = absurd (ground arith)

  -- behind a preflight that has passed, and a run of the runner
  gvisor-returned :
      (a : Attempt) (r : SandboxResult)
      → (guarded u s sha1 (gvisor args.runtime) args attempt a).0 ≡ some (returned r)
      → (preflight s sha1 (gvisor args.runtime) a ≡ ok tt)
        × ((Run.run u s sha1 args.runtime args attempt a.world).0 ≡ some (ok r))
        × ((guarded u s sha1 (gvisor args.runtime) args attempt a).1
            ≡ (Run.run u s sha1 args.runtime args attempt a.world).1)
  unfolding guarded run_with
  gvisor-returned a r e = elim (Result-cases (preflight s sha1 (gvisor args.runtime) a)) [
    | inl (_, passes) ↦
        let (ran, does) = finish-returned (gvisor args.runtime) _ _ r (rw (passes, guarded) at e) in
        (passes, ran, rw (passes, guarded) does)
    | inr (x, fails) ↦
        let (ran, _) : (some (err x) ≡ some (ok r)) × _ =
          finish-returned (gvisor args.runtime) (some (err x)) [] r (rw (fails, guarded) at e) in
        absurd (ground arith)
  ]

  firecracker-returned :
      (a : Attempt) (r : SandboxResult)
      → (guarded u s sha1 firecracker args attempt a).0 ≡ some (returned r)
      → ⊥
  unfolding guarded preflight Firecracker.preflight finish handle
  firecracker-returned a r e = ground arith

  runner-IsRun :
      (a : Attempt) (r : SandboxResult) (runner : Runner)
      → ltb s.max_code_bytes (length args.code) ≡ false
      → get_runner args.runtime ≡ ok runner
      → (guarded u s sha1 runner args attempt a).0 ≡ some (returned r)
      → IsRun a r
  unfolding run_sandbox
  runner-IsRun a r firecracker short chosen e = absurd (firecracker-returned a r e)
  runner-IsRun a r (gvisor x) short chosen e =
      let same = get_runner-Serves args.runtime (gvisor x) chosen in
      let own : get_runner args.runtime ≡ ok (gvisor args.runtime) =
        chosen ∙ ap (λ y. ok (gvisor y)) same in
      let (passes, ran, does) = gvisor-returned a r (rw same at e) in
      record { chosen = own; passes = passes; ran = ran; does = rw (short, own) does }

  pub returned-IsRun :
      (a : Attempt) (r : SandboxResult)
      → (run_sandbox u s sha1 args attempt a).0 ≡ some (returned r)
      → IsRun a r
  unfolding run_sandbox
  returned-IsRun a r e = elim (Bool-cases (ltb s.max_code_bytes (length args.code))) [
    | inl long ↦ absurd (ground arith)
    | inr short ↦ elim (Result-cases (get_runner args.runtime)) [
      | inl (runner, chosen) ↦ runner-IsRun a r runner short chosen (rw (short, chosen) at e)
      | inr (x, unknown) ↦ absurd (ground arith)
    ]
  ]

module _ (u : Unicode) (s : Settings) (sha1 : Bytes → Text) where
  asked-Registered :
      (info : Result Subprocess)
      → Launch.preflight (codes "runsc") info ≡ ok tt
      → (sub : Subprocess) × (info ≡ ok sub) × Registered (codes "runsc") sub
  unfolding Launch.preflight codes ◌==◌
  asked-Registered (ok sub) passes =
      (sub, refl, (preflight_iff (codes "runsc") sub runsc_is_not_runc).0 passes)
  asked-Registered (err e) passes = absurd (ground arith)

  preflight-Registered :
      (runtime : Text) (a : Attempt)
      → runtime ≡ codes "runsc"
      → preflight s sha1 (gvisor runtime) a ≡ ok tt
      → (sub : Subprocess) × (a.info ≡ ok sub) × Registered (codes "runsc") sub
  unfolding preflight
  preflight-Registered runtime a named passes =
      asked-Registered a.info (ap (λ r. Launch.preflight r a.info) (sym named) ∙ passes)

  pub IsRun-IsHad :
      (args : RunSandboxArgs) (n : ℕ) (a : Attempt) (r : SandboxResult)
      → IsRun u s sha1 args n a r
      → IsHad args.runtime a
  IsRun-IsHad args n a r ran = elim (runner_names args.runtime ran.chosen) [
    | inl plain ↦ inl plain
    | inr named ↦ inr (named, preflight-Registered args.runtime a named ran.passes)
  ]
