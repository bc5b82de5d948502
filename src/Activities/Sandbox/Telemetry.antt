-- ===== src/Activities/Sandbox/Telemetry.antt =====
-- What `run_sandbox` of app/activities/sandbox.py tells of an attempt: the context variables, its two
-- spans and its log lines. A span is what the program has written to it.
pub mod Privacy
use temporal_agent_sandbox.Prelude.{
  ℕ, pos, Text, codes, length, ltb, Option, none, some, Bool, true, false, List, [], ◌∷◌,
  if◌then◌else◌,
}
use temporal_agent_sandbox.Prelude.Utf8.{Bytes, encode}
use temporal_agent_sandbox.Prelude.Methods.{Unicode}
use temporal_agent_sandbox.Prelude.Dict.{Dict}
use temporal_agent_sandbox.Prelude.Json.Value.{Json, string, number, boolean}
use temporal_agent_sandbox.Contracts.{RunSandboxArgs, SandboxResult, is_ok, failure_reason}
use temporal_agent_sandbox.Config.{Settings}
use temporal_agent_sandbox.Observability.Tracing.{
  given, maybe_text, Value, text, whole, truth, Exception, Span, start_span, set_attribute,
  set_observation_type, set_attrs, record_error,
}
use temporal_agent_sandbox.Sandbox.Runner.{
  Error, infra_error, policy_violation, not_implemented, cancelled_error, other_error, Result, ok,
  err, Runner, get_runner,
}
use temporal_agent_sandbox.Activities.Sandbox.{Attempt, preflight, run_with}

pub data Level : Type 0 where
  info_level warning_level : Level

pub record Line : Type 0 where
  pub level : Level
  pub message : Text
  pub extras : Dict Json

-- `none` for a span that is not started
pub record Telemetry : Type 0 where
  pub run_id : Text
  pub tenant_id : Text
  pub act_span : Option Span
  pub exec_span : Option Span
  pub log : List Line

abbrev or_empty : Option Text → Text
or_empty none = codes ""
or_empty (some s) = s

-- the span "sandbox.exec" before the run
pub exec_started : RunSandboxArgs → Span
exec_started args =
    set_attrs (given (codes "sandbox.runtime") (text args.runtime) ∷ [])
      (set_observation_type (codes "tool") (start_span (codes "sandbox.exec")))

-- what is added for a result
pub exec_told : SandboxResult → Span → Span
exec_told r span =
    let told =
      set_attrs
        (given (codes "sandbox.exit_code") (whole r.exit_code)
          ∷ given (codes "sandbox.wall_ms") (whole (pos r.wall_ms))
          ∷ given (codes "sandbox.oom") (truth r.oom_killed)
          ∷ given (codes "sandbox.wall_clock_exceeded") (truth r.wall_clock_exceeded)
          ∷ (codes "sandbox.image.digest", maybe_text r.image_digest)
          ∷ given (codes "result.truncated") (truth r.truncated)
          ∷ [])
        span in
    if is_ok r
    then told
    else set_attribute (codes "sandbox.failure_reason") (text (or_empty (failure_reason r)))
        (set_attribute (codes "failure.terminal") (truth true) told)

pub exec_of : RunSandboxArgs → Option (Result SandboxResult) → Span
unfolding exec_started exec_told
exec_of args (some (ok r)) = exec_told r (exec_started args)
exec_of args _ = exec_started args

-- what the `except` clauses write to the span of the activity
pub act_of : Option (Result SandboxResult) → Span → Span
act_of (some (err (policy_violation m))) span =
    record_error (record { class_name = codes "SandboxPolicyViolation"; message = m }) false true
      span
act_of (some (err (infra_error m))) span =
    record_error (record { class_name = codes "SandboxInfraError"; message = m }) true false span
act_of _ span = span

pub lines_of : Option (Result SandboxResult) → List Line
lines_of (some (ok r)) =
    (record {
      level = info_level;
      message = codes "sandbox finished";
      extras =
          (codes "step", string (codes "run_sandbox"))
          ∷ (codes "exit_code", number r.exit_code)
          ∷ (codes "wall_ms", number (pos r.wall_ms))
          ∷ (codes "ok", boolean (is_ok r))
          ∷ (codes "source", string (codes "sandbox"))
          ∷ [];
    })
    ∷ []
lines_of (some (err cancelled_error)) =
    (record {
      level = warning_level;
      message = codes "sandbox cancelled; torn down";
      extras = (codes "step", string (codes "run_sandbox")) ∷ [];
    })
    ∷ []
lines_of _ = []

module _ (sha256 : Bytes → Text) (args : RunSandboxArgs) (attempt : ℕ) where
  -- the span "activity.run_sandbox" before the `try`
  pub act_started : Span
  act_started =
      set_attrs
        (given (codes "run.id") (text args.run_id)
          ∷ given (codes "tenant.id") (text args.tenant_id)
          ∷ given (codes "step.name") (text (codes "run_sandbox"))
          ∷ given (codes "attempt") (whole (pos attempt))
          ∷ given (codes "sandbox.runtime") (text args.runtime)
          ∷ given (codes "code.sha256") (text (sha256 (encode args.code)))
          ∷ [])
        (set_observation_type (codes "span") (start_span (codes "activity.run_sandbox")))

  -- an attempt that ends before its spans
  pub untold : Telemetry
  untold = record {
    run_id = args.run_id;
    tenant_id = args.tenant_id;
    act_span = none;
    exec_span = none;
    log = [];
  }

  -- the telemetry of the `try` statement, on how what it awaits ends, with the span of the run, if it is
  -- started
  pub told : Option Span → Option (Result SandboxResult) → Telemetry
  unfolding act_started act_of lines_of
  told exec_span ran = record {
    run_id = args.run_id;
    tenant_id = args.tenant_id;
    act_span = some (act_of ran act_started);
    exec_span = exec_span;
    log = lines_of ran;
  }

  pub telemetry_of : Unicode → Settings → (Bytes → Text) → Runner → Attempt → Telemetry
  unfolding told exec_of
  telemetry_of u s sha1 runner a = elim (preflight s sha1 runner a) [
    | err e ↦ told none (some (err e))
    | ok _ ↦
        let ran = (run_with s sha1 u runner args attempt a.world).0 in
        told (some (exec_of args ran)) ran
  ]

  -- the telemetry of an attempt
  unfoldable pub telemetry : Unicode → Settings → (Bytes → Text) → Attempt → Telemetry
  unfolding untold telemetry_of
  telemetry u s sha1 a =
      if ltb s.max_code_bytes (length args.code) then untold else elim (get_runner args.runtime) [
        | err e ↦ untold
        | ok runner ↦ telemetry_of u s sha1 runner a
      ]
