-- ===== src/Activities/Sandbox/Telemetry/Privacy.antt =====
-- What the telemetry of the sandbox step lets through.
use temporal_agent_sandbox.Prelude.{
  ℕ, Text, length, ltb, List, [], Option, none, some, ◌≡◌, refl, sym, ◌∙◌, arith, inl, inr,
  Bool-cases,
}
use temporal_agent_sandbox.Prelude.Utf8.{Bytes, encode}
use temporal_agent_sandbox.Prelude.Methods.{Unicode}
use temporal_agent_sandbox.Contracts.{RunSandboxArgs, SandboxResult, is_ok, failure_reason}
use temporal_agent_sandbox.Config.{Settings}
use temporal_agent_sandbox.Sandbox.Runner.{
  Error, infra_error, policy_violation, not_implemented, cancelled_error, other_error, Result, ok,
  err, Runner, get_runner,
}
use temporal_agent_sandbox.Sandbox.Gvisor.Loop.{Effect}
use temporal_agent_sandbox.Activities.Sandbox.{
  Attempt, returned, run_sandbox, guarded, preflight, run_with, finish, handle,
}
use temporal_agent_sandbox.Activities.Sandbox.Contained.{Result-cases}
use temporal_agent_sandbox.Activities.Sandbox.Telemetry.{
  exec_told, exec_started, exec_of, lines_of, act_started, act_of, told, telemetry_of, telemetry,
}

-- Two arguments that the telemetry cannot tell apart: the code has the same hash.
pub record AlikeArgs (sha256 : Bytes → Text) (x y : RunSandboxArgs) : Type 0 where
  pub run_id : x.run_id ≡ y.run_id
  pub tenant_id : x.tenant_id ≡ y.tenant_id
  pub runtime : x.runtime ≡ y.runtime
  pub code : sha256 (encode x.code) ≡ sha256 (encode y.code)

-- Two results that agree in all but their runtime and their output.
pub record AlikeResults (r q : SandboxResult) : Type 0 where
  pub exit_code : r.exit_code ≡ q.exit_code
  pub wall_ms : r.wall_ms ≡ q.wall_ms
  pub oom_killed : r.oom_killed ≡ q.oom_killed
  pub wall_clock_exceeded : r.wall_clock_exceeded ≡ q.wall_clock_exceeded
  pub image_digest : r.image_digest ≡ q.image_digest
  pub truncated : r.truncated ≡ q.truncated

is_ok_alike : (r q : SandboxResult) → AlikeResults r q → is_ok r ≡ is_ok q
unfolding is_ok
is_ok_alike r q h = rw (h.exit_code, h.oom_killed, h.wall_clock_exceeded) refl

failure_reason_alike :
    (r q : SandboxResult) → AlikeResults r q → failure_reason r ≡ failure_reason q
unfolding failure_reason is_ok
failure_reason_alike r q h = rw (h.exit_code, h.oom_killed, h.wall_clock_exceeded) refl

no_result : (e : Error) (r : SandboxResult) → ¬ (some (err e) ≡ some (ok r))
no_result e r h = ground arith

module _ (sha256 : Bytes → Text) (attempt : ℕ) where
  told_alike :
      (x y : RunSandboxArgs) (r q : SandboxResult)
      → AlikeArgs sha256 x y
      → AlikeResults r q
      → told sha256 x attempt (some (exec_of x (some (ok r)))) (some (ok r))
        ≡ told sha256 y attempt (some (exec_of y (some (ok q)))) (some (ok q))
  unfolding told exec_of exec_told exec_started act_started act_of lines_of
  told_alike x y r q same h =
      rw
        (
          same.run_id,
          same.tenant_id,
          same.runtime,
          same.code,
          is_ok_alike r q h,
          failure_reason_alike r q h,
          h.exit_code,
          h.wall_ms,
          h.oom_killed,
          h.wall_clock_exceeded,
          h.image_digest,
          h.truncated,
        )
        refl

  module _ (u : Unicode) (s : Settings) (sha1 : Bytes → Text) where
    finish_returned :
        (runner : Runner) (args : RunSandboxArgs) (ran : Option (Result SandboxResult))
        (es : List Effect) (r : SandboxResult)
        → (finish s sha1 runner args attempt ran es).0 ≡ some (returned r)
        → ran ≡ some (ok r)
    unfolding finish handle
    finish_returned runner args none es r e = cc
    finish_returned runner args (some (ok q)) es r e = cc
    finish_returned runner args (some (err (infra_error m))) es r e = cc
    finish_returned runner args (some (err (policy_violation m))) es r e = cc
    finish_returned runner args (some (err (not_implemented m))) es r e = cc
    finish_returned runner args (some (err cancelled_error)) es r e = cc
    finish_returned runner args (some (err (other_error m))) es r e = cc

    guarded-told :
        (runner : Runner) (args : RunSandboxArgs) (a : Attempt) (r : SandboxResult)
        → (guarded u s sha1 runner args attempt a).0 ≡ some (returned r)
        → telemetry_of sha256 args attempt u s sha1 runner a
          ≡ told sha256 args attempt (some (exec_of args (some (ok r)))) (some (ok r))
    unfolding guarded telemetry_of
    guarded-told runner args a r e = elim (Result-cases (preflight s sha1 runner a)) [
      | inl (_, passes) ↦
          let ran : (run_with s sha1 u runner args attempt a.world).0 ≡ some (ok r) =
            finish_returned runner args _ _ r (rw (passes, guarded) at e) in
          rw (passes, telemetry_of) (rw ran refl)
      | inr (x, fails) ↦ absurd (
          no_result x r
            (finish_returned runner args (some (err x)) [] r (rw (fails, guarded) at e)))
    ]

    telemetry-told :
        (args : RunSandboxArgs) (a : Attempt) (r : SandboxResult)
        → (run_sandbox u s sha1 args attempt a).0 ≡ some (returned r)
        → telemetry sha256 args attempt u s sha1 a
          ≡ told sha256 args attempt (some (exec_of args (some (ok r)))) (some (ok r))
    unfolding run_sandbox telemetry
    telemetry-told args a r e = elim (Bool-cases (ltb s.max_code_bytes (length args.code))) [
      | inl long ↦ absurd (ground arith)
      | inr short ↦ elim (Result-cases (get_runner args.runtime)) [
        | inl (runner, chosen) ↦
            rw (short, chosen) (guarded-told runner args a r (rw (short, chosen) at e))
        | inr (x, unknown) ↦ absurd (ground arith)
      ]
    ]

    -- Attempts of the sandbox step that return tell the same, in all spans and log lines, of any two
    -- codes of one hash and of any two results that differ in their output: neither the code nor what it
    -- prints gets into the telemetry.
    pub telemetry-Private :
        (x y : RunSandboxArgs) (a b : Attempt) (r q : SandboxResult)
        → AlikeArgs sha256 x y
        → AlikeResults r q
        → (run_sandbox u s sha1 x attempt a).0 ≡ some (returned r)
        → (run_sandbox u s sha1 y attempt b).0 ≡ some (returned q)
        → telemetry sha256 x attempt u s sha1 a ≡ telemetry sha256 y attempt u s sha1 b
    telemetry-Private x y a b r q same h e f =
        telemetry-told x a r e ∙ told_alike x y r q same h ∙ sym (telemetry-told y b q f)
