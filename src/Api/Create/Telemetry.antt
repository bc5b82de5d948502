-- ===== src/Api/Create/Telemetry.antt =====
-- The span and the log line of `create_run` of app/api/routes_runs.py.
use temporal_agent_sandbox.Prelude.{
  Text, codes, length, ltb, Option, none, some, List, [], ◌∷◌, if◌then◌else◌, ◌≡◌, ◌↔◌, refl, arith,
  Bool-cases, inl, inr,
}
use temporal_agent_sandbox.Prelude.Utf8.{Bytes, encode}
use temporal_agent_sandbox.Prelude.Dict.{Dict}
use temporal_agent_sandbox.Prelude.Json.Value.{Json, string}
use temporal_agent_sandbox.Config.{Settings}
use temporal_agent_sandbox.Observability.Tracing.{given, text, Span, start_span, set_attrs}
use temporal_agent_sandbox.Api.Errors.{not_found, unavailable, other_code, ok}
use temporal_agent_sandbox.Api.Ids.{RunRequest, workflow_id}
use temporal_agent_sandbox.Api.Create.{
  Client, Started, started, already_started, rpc_failed, start_of, Accepted, accept,
  handle_already_started, answer, create_run,
}

-- `none` for a span that is not started; a log line by its message and its extras
pub record Telemetry : Type 0 where
  pub span : Option Span
  pub log : List (Text × Dict Json)

-- the line behind the `with` statement, which only a run that was started reaches
abbrev lines : Started → Text → List (Text × Dict Json)
lines started run_id =
    (
      codes "run started",
      (codes "step", string (codes "api.create_run")) ∷ (codes "run_id", string run_id) ∷ [],
    )
    ∷ []
lines _ run_id = []

-- what `create_run` tells of a request
unfoldable pub telemetry :
    {S : Type 0} → Client S → Settings → (Bytes → Text) → RunRequest → S → Telemetry
telemetry client s sha256 r server =
    if ltb s.max_task_bytes (length (encode r.task))
    then record { span = none; log = [] }
    else record {
      span = some (
          set_attrs
            (given (codes "run.id") (text (workflow_id sha256 r))
              ∷ given (codes "tenant.id") (text r.tenant_id)
              ∷ [])
            (start_span (codes "agent.run")));
      log = lines (client.start_workflow (start_of s sha256 r) server).0 (workflow_id sha256 r);
    }

module _ {S : Type 0} (client : Client S) (s : Settings) (sha256 : Bytes → Text) where
  lines-answer :
      (reply : Started) (r : RunRequest) (server : S) (a : Accepted)
      → answer client s sha256 reply r server ≡ ok a
      → (a.status_code ≡ 201) ↔ (length (lines reply (workflow_id sha256 r)) ≡ 1)
  unfolding answer accept handle_already_started
  lines-answer started r server a e = (λ h. refl, λ h. ground arith)
  lines-answer already_started r server a e =
      (λ h. absurd (ground arith), λ h. absurd (omega arith))
  lines-answer (rpc_failed unavailable) r server a e = cc
  lines-answer (rpc_failed not_found) r server a e = cc
  lines-answer (rpc_failed (other_code c)) r server a e = cc

  -- A submission that is accepted is logged, with one line, exactly if it is answered with 201.
  pub telemetry-create_run :
      (r : RunRequest) (server : S) (a : Accepted)
      → (create_run client s sha256 r server).0 ≡ ok a
      → (a.status_code ≡ 201) ↔ (length (telemetry client s sha256 r server).log ≡ 1)
  unfolding telemetry create_run
  telemetry-create_run r server a e =
      elim (Bool-cases (ltb s.max_task_bytes (length (encode r.task)))) [
        | inl long ↦ absurd (ground arith)
        | inr fits ↦ rw fits (lines-answer _ r _ a (rw fits at e))
      ]
