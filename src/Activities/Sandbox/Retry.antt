-- ===== src/Activities/Sandbox/Retry.antt =====
-- Which ends of `run_sandbox` Temporal may try again, and that an unavailable sandbox fails closed.
use temporal_agent_sandbox.Prelude.{
  ℕ, ◌≤◌, Text, codes, ◌==◌, ==_iff, ==_refl, ne_of_test, length, ltb, is_one_of, Option, none,
  some, Bool, true, false, ◌||◌, List, [], ◌≡◌, ◌≢◌, inl, inr, refl, arith, ap, ◌∙◌, Bool-cases,
}
use temporal_agent_sandbox.Prelude.Utf8.{Bytes, decode}
use temporal_agent_sandbox.Prelude.Methods.{Unicode}
use temporal_agent_sandbox.Contracts.{RunSandboxArgs, SandboxResult}
use temporal_agent_sandbox.Config.{Settings}
use temporal_agent_sandbox.Temporal.Policies.{RetryPolicy, sandbox_retry}
use temporal_agent_sandbox.Sandbox.Runner.{
  Error, infra_error, policy_violation, not_implemented, cancelled_error, other_error, Result, ok,
  err, Runner, gvisor, firecracker, get_runner,
}
use temporal_agent_sandbox.Sandbox.Firecracker
use temporal_agent_sandbox.Sandbox.Gvisor.Launch
use temporal_agent_sandbox.Sandbox.Gvisor.Launch.{Subprocess, classify_infra}
use temporal_agent_sandbox.Sandbox.Gvisor.Launch.FailClosed.{
  classify_infra_of_user_exit, Registered, preflight_iff, preflight-cases, IsLaunchFailure,
}
use temporal_agent_sandbox.Sandbox.Gvisor.Loop.{exited, micros, loop, Effect}
use temporal_agent_sandbox.Sandbox.Gvisor.Run
use temporal_agent_sandbox.Sandbox.Gvisor.Run.Outcome.{run_exited, exit_result_passes}
use temporal_agent_sandbox.Activities.Sandbox.{
  run_with, Raised, application_error, passed, Outcome, returned, raised, Attempt, run_sandbox,
  guarded, preflight, finish,
}

-- The type by which Temporal knows an error: an `ApplicationError` carries its own, and any other
-- exception goes by the name of its class.
abbrev pub error_type : Raised → Text
error_type (application_error _ type _) = type
error_type (passed (infra_error _)) = codes "SandboxInfraError"
error_type (passed (policy_violation _)) = codes "SandboxPolicyViolation"
error_type (passed (not_implemented _)) = codes "NotImplementedError"
error_type (passed cancelled_error) = codes "CancelledError"
error_type (passed (other_error name)) = name

abbrev pub is_marked : Raised → Bool
is_marked (application_error _ _ non_retryable) = non_retryable
is_marked (passed _) = false

-- By Temporal's documentation an error is not tried again if it is marked so, or if its type is
-- listed in the policy.
abbrev pub is_final : RetryPolicy → Raised → Bool
is_final policy e = is_marked e || is_one_of (error_type e) policy.non_retryable_error_types

-- The runtime cannot be had: it is none of the three names, it is the one that this build refuses, or
-- Docker is asked and does not report it as registered.
pub data Unavailable (runtime : Text) (a : Attempt) : Type 0 where
  unknown :
      runtime ≢ codes "runsc"
      → runtime ≢ codes "runc"
      → runtime ≢ codes "firecracker"
      → Unavailable runtime a
  refused : runtime ≡ codes "firecracker" → Unavailable runtime a
  unregistered :
      runtime ≡ codes "runsc"
      → (info : Subprocess) → a.info ≡ ok info
      → ¬ Registered (codes "runsc") info
      → Unavailable runtime a

abbrev pub FailsClosed : Settings → Option Outcome × List Effect → Type 0
FailsClosed s end =
    (e : Raised) × (end.0 ≡ some (raised e)) × (is_final (sandbox_retry s) e ≡ true) × (end.1 ≡ [])

pub runsc_is_not_runc : codes "runsc" ≢ codes "runc"
unfolding codes ◌==◌
runsc_is_not_runc = ne_of_test _ _ refl

preflight_fails :
    (info : Subprocess)
    → ¬ Registered (codes "runsc") info
    → (m : Text) × (Launch.preflight (codes "runsc") (ok info) ≡ err (policy_violation m))
preflight_fails info h = elim (preflight-cases (codes "runsc") info) [
  | inl passes ↦ absurd (h ((preflight_iff (codes "runsc") info runsc_is_not_runc).0 passes))
  | inr fails ↦ fails
]

get_runner_unknown :
    (runtime : Text)
    → runtime ≢ codes "runsc"
    → runtime ≢ codes "runc"
    → runtime ≢ codes "firecracker"
    → (m : Text) × (get_runner runtime ≡ err (policy_violation m))
unfolding get_runner
get_runner_unknown runtime a b c =
    let not_runsc : (runtime == codes "runsc") ≡ false =
      ground (arith, ==_iff runtime (codes "runsc")) in
    let not_runc : (runtime == codes "runc") ≡ false =
      ground (arith, ==_iff runtime (codes "runc")) in
    let not_firecracker : (runtime == codes "firecracker") ≡ false =
      ground (arith, ==_iff runtime (codes "firecracker")) in
    rw (not_runsc, not_runc, not_firecracker) (_, refl)

get_runner-runsc : get_runner (codes "runsc") ≡ ok (gvisor (codes "runsc"))
unfolding get_runner
get_runner-runsc = rw (==_refl (codes "runsc"))

get_runner-firecracker : get_runner (codes "firecracker") ≡ ok firecracker
unfolding get_runner codes ◌==◌
get_runner-firecracker = refl

firecracker_refuses :
    (s : Settings) (sha1 : Bytes → Text) (a : Attempt)
    → (m : Text) × (preflight s sha1 firecracker a ≡ err (policy_violation m))
unfolding preflight Firecracker.preflight
firecracker_refuses s sha1 a = (_, refl)

policy_violation_final :
    (s : Settings) (m : Text) → is_final (sandbox_retry s) (passed (policy_violation m)) ≡ true
unfolding is_one_of
policy_violation_final s m = rw (==_refl (codes "SandboxPolicyViolation"))

module _ (u : Unicode) (s : Settings) (sha1 : Bytes → Text) (args : RunSandboxArgs)
    (attempt : ℕ) where
  abbrev after : Attempt → Result Runner → Option Outcome × List Effect
  after a (err e) = (some (raised (passed e)), [])
  after a (ok runner) = guarded u s sha1 runner args attempt a

  guarded_err :
      (runner : Runner) (a : Attempt) (e : Error)
      → preflight s sha1 runner a ≡ err e
      → guarded u s sha1 runner args attempt a ≡ finish s sha1 runner args attempt (some (err e)) []
  unfolding guarded
  guarded_err runner a e h = rw (h, guarded)

  after_choice :
      (a : Attempt) → Unavailable args.runtime a → FailsClosed s (after a (get_runner args.runtime))
  after_choice a (unknown x y z) =
      let (m, e) = get_runner_unknown args.runtime x y z in
      rw e (_, refl, policy_violation_final s m, refl)
  after_choice a (refused e) =
      let chosen = ap get_runner e ∙ get_runner-firecracker in
      let (m, stops) = firecracker_refuses s sha1 a in
      rw (chosen, guarded_err firecracker a _ stops) (unfold finish in (_, refl, refl, refl))
  after_choice a (unregistered e info asked h) =
      let chosen = ap get_runner e ∙ get_runner-runsc in
      let (m, fails) = preflight_fails info h in
      let stops : preflight s sha1 (gvisor (codes "runsc")) a ≡ err (policy_violation m) =
        unfold preflight in ap (Launch.preflight (codes "runsc")) asked ∙ fails in
      rw (chosen, guarded_err (gvisor (codes "runsc")) a _ stops)
        (unfold finish in (_, refl, refl, refl))

  run_sandbox-after :
      (a : Attempt)
      → ltb s.max_code_bytes (length args.code) ≡ false
      → run_sandbox u s sha1 args attempt a ≡ after a (get_runner args.runtime)
  unfolding run_sandbox
  run_sandbox-after a short = ground arith

  -- A sandbox that cannot be had fails closed: nothing is launched or done at all, and the error is
  -- one that Temporal does not try again.
  pub Unavailable-FailsClosed :
      (a : Attempt)
      → Unavailable args.runtime a
      → FailsClosed s (run_sandbox u s sha1 args attempt a)
  Unavailable-FailsClosed a h = elim (Bool-cases (ltb s.max_code_bytes (length args.code))) [
    | inl long ↦ unfold run_sandbox in rw long (_, refl, refl, refl)
    | inr short ↦ rw (run_sandbox-after a short) (after_choice a h)
  ]

  returns_at :
      (runtime : Text) (a : Attempt) (r : SandboxResult)
      → length args.code ≤ s.max_code_bytes
      → get_runner args.runtime ≡ ok (gvisor runtime)
      → preflight s sha1 (gvisor runtime) a ≡ ok tt
      → (Run.run u s sha1 runtime args attempt a.world).0 ≡ some (ok r)
      → (run_sandbox u s sha1 args attempt a).0 ≡ some (returned r)
  unfolding guarded run_with finish
  returns_at runtime a r fits chosen passes ran =
      rw (run_sandbox-after a (ground arith), chosen) (ground (arith, passes, ran))

  -- User code that exits on its own, with any code, is a result and no error: once the preflight has
  -- passed, the sandbox has been launched and its client has exited, the attempt returns, with that
  -- exit code, unless a cancellation comes or the exit is a launch failure.
  pub user_exit_returned :
      (runtime : Text) (a : Attempt)
      → length args.code ≤ s.max_code_bytes
      → get_runner args.runtime ≡ ok (gvisor runtime)
      → preflight s sha1 (gvisor runtime) a ≡ ok tt
      → a.world.start_fault ≡ none
      → a.world.cancelled_late ≡ false
      → (loop (micros args.limits.wall_clock_s) a.world.ticks).0 ≡ exited
      → ¬ IsLaunchFailure u a.world.exit
          (decode (Run.safe args.limits.output_max_bytes a.world.stderr).0)
      → (r : SandboxResult) × ((run_sandbox u s sha1 args attempt a).0 ≡ some (returned r))
        × (r.exit_code ≡ a.world.exit)
  user_exit_returned runtime a fits chosen passes started quiet ended plain =
      let cap = args.limits.output_max_bytes in
      let (r, judged, code) =
        exit_result_passes u s sha1 runtime cap a.world
          (classify_infra_of_user_exit u runtime a.world.exit _ plain) in
      let ran = run_exited u s sha1 runtime args attempt a.world started quiet ended in
      (r, returns_at runtime a r fits chosen passes (cc (ran, judged)), code)
