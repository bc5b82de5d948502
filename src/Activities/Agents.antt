-- ===== src/Activities/Agents.antt =====
-- app/activities/agents.py: the three activities around the pure transforms, with the context variables,
-- the span and the log call of each.
pub mod Privacy
use temporal_agent_sandbox.Prelude.{
  ℕ, pos, Text, codes, length, take, Option, none, some, Bool, true, false, List, [], ◌∷◌, ◌++◌,
  if◌then◌else◌,
}
use temporal_agent_sandbox.Prelude.Utf8.{Bytes, encode}
use temporal_agent_sandbox.Prelude.Methods.{Unicode}
use temporal_agent_sandbox.Prelude.Dict.{Dict}
use temporal_agent_sandbox.Prelude.Json.Value.{Json, string, number}
use temporal_agent_sandbox.Contracts.{Plan, SummarizeArgs}
use temporal_agent_sandbox.Config.{Settings}
use temporal_agent_sandbox.Observability.Tracing.{
  given, maybe_text, Value, text, whole, Span, start_span, set_observation_type, set_attrs,
}
use temporal_agent_sandbox.Agents.Pipeline
use temporal_agent_sandbox.Api.Ids.{tenant_of}

-- `activity.info()`, as far as it is read
pub record Info : Type 0 where
  pub workflow_id : Text
  pub attempt : ℕ

-- a call of `log.info`, with its extras
pub record LogCall : Type 0 where
  pub message : Text
  pub extras : Dict Json

-- What an activity tells of itself: the values of `run_id_var` and `tenant_id_var`, the attributes it
-- has set on its span, and what it logs.
pub record Telemetry : Type 0 where
  pub run_id : Option Text
  pub tenant_id : Option Text
  pub span : Span
  pub log : List LogCall

module _ (sha256 : Bytes → Text) (info : Info) where
  -- `_sha`
  pub sha : Text → Text
  sha s = sha256 (encode s)

  -- `_bind`, and `_baseline` on a new span
  pub baseline : Text → Text → Span
  baseline span_name step =
      set_attrs
        (given (codes "run.id") (text info.workflow_id)
          ∷ (codes "tenant.id", maybe_text (tenant_of info.workflow_id))
          ∷ given (codes "step.name") (text step)
          ∷ given (codes "attempt") (whole (pos info.attempt))
          ∷ [])
        (set_observation_type (codes "span") (start_span span_name))

  pub bound : Span → List LogCall → Telemetry
  bound span log = record {
    run_id = some info.workflow_id;
    tenant_id = tenant_of info.workflow_id;
    span = span;
    log = log;
  }

  unfoldable pub plan : Unicode → Text → Plan × Telemetry
  unfolding sha baseline bound
  plan u task =
      let result = Pipeline.plan u task in
      let started =
        set_attrs
          (given (codes "input.bytes") (whole (pos (length task)))
            ∷ given (codes "input.sha256") (text (sha task))
            ∷ [])
          (baseline (codes "activity.plan") (codes "plan")) in
      (
        result,
        bound (set_attrs (given (codes "plan.directive") (text result.directive) ∷ []) started) (
            (record {
              message = codes "planned";
              extras =
                  (codes "step", string (codes "plan"))
                  ∷ (codes "directive", string result.directive)
                  ∷ [];
            })
            ∷ []),
      )

  -- what `generate_code` tells of the code that it returns
  pub tell_code : Settings → Text → Telemetry
  unfolding sha baseline bound
  tell_code s code =
      let measured =
        set_attrs
          (given (codes "code.sha256") (text (sha code))
            ∷ given (codes "output.bytes") (whole (pos (length code)))
            ∷ [])
          (baseline (codes "activity.generate_code") (codes "generate_code")) in
      bound
        (if s.trace_payloads
          then set_attrs (given (codes "output.preview") (text (take 2000 code)) ∷ []) measured
          else measured)
        ((record {
          message = codes "generated code";
          extras =
              (codes "step", string (codes "generate_code"))
              ∷ (codes "bytes", number (pos (length code)))
              ∷ [];
        })
          ∷ [])

  -- `none` is the exception of the transform, which leaves the span as it is
  unfoldable pub generate_code : Settings → Plan → Option Text × Telemetry
  unfolding tell_code
  generate_code s p = elim (Pipeline.generate_code p) [
    | none ↦ (none, bound (baseline (codes "activity.generate_code") (codes "generate_code")) [])
    | some code ↦ (some code, tell_code s code)
  ]

  unfoldable pub summarize : SummarizeArgs → Text × Telemetry
  unfolding baseline bound
  summarize args =
      let summary = Pipeline.summarize args in
      (
        summary,
        bound
            (set_attrs (given (codes "output.bytes") (whole (pos (length summary))) ∷ [])
              (baseline (codes "activity.summarize") (codes "summarize")))
            ((record {
              message = codes "summarized";
              extras = (codes "step", string (codes "summarize")) ∷ [];
            })
              ∷ []),
      )
