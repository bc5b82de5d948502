-- ===== src/Activities/Agents/Privacy.antt =====
-- What the telemetry of the agent activities lets through.
use temporal_agent_sandbox.Prelude.{Text, length, some, false, ◌≡◌, refl}
use temporal_agent_sandbox.Prelude.Utf8.{Bytes, encode}
use temporal_agent_sandbox.Prelude.Methods.{Unicode}
use temporal_agent_sandbox.Contracts.{Plan, SummarizeArgs}
use temporal_agent_sandbox.Config.{Settings}
use temporal_agent_sandbox.Agents.Pipeline
use temporal_agent_sandbox.Activities.Agents.{Info, tell_code, plan, generate_code, summarize}

module _ (sha256 : Bytes → Text) (info : Info) (s : Settings) (u : Unicode) where
  -- Two texts that the telemetry cannot tell apart: one length and one hash.
  abbrev pub Alike : Text → Text → Type 0
  Alike a b = (length a ≡ length b) × (sha256 (encode a) ≡ sha256 (encode b))

  generate_code-eq-tell_code :
      (p : Plan) (code : Text)
      → Pipeline.generate_code p ≡ some code
      → (generate_code sha256 info s p).1 ≡ tell_code sha256 info s code
  unfolding generate_code
  generate_code-eq-tell_code p code e = rw (e, generate_code) refl

  tell_code-Alike :
      (code code' : Text)
      → s.trace_payloads ≡ false
      → Alike code code'
      → tell_code sha256 info s code ≡ tell_code sha256 info s code'
  unfolding tell_code
  tell_code-Alike code code' quiet (l, h) = rw (quiet, l, h) refl

  -- Without `trace_payloads` the spans and the log calls of the agent steps depend on the task and the
  -- code only by their lengths and hashes and the directive, and on the summary by its length: where
  -- these agree, so does all the telemetry.
  pub telemetry-Alike :
      (task task' : Text) (p p' : Plan) (code code' : Text) (args args' : SummarizeArgs)
      → s.trace_payloads ≡ false
      → Alike task task'
      → (Pipeline.plan u task).directive ≡ (Pipeline.plan u task').directive
      → Pipeline.generate_code p ≡ some code
      → Pipeline.generate_code p' ≡ some code'
      → Alike code code'
      → length (Pipeline.summarize args) ≡ length (Pipeline.summarize args')
      → ((plan sha256 info u task).1 ≡ (plan sha256 info u task').1)
        × ((generate_code sha256 info s p).1 ≡ (generate_code sha256 info s p').1)
        × ((summarize sha256 info args).1 ≡ (summarize sha256 info args').1)
  unfolding plan summarize
  telemetry-Alike task task' p p' code code' args args' quiet t d c c' a m = (
    rw (t.0, t.1, d) refl,
    rw (generate_code-eq-tell_code p code c, generate_code-eq-tell_code p' code' c')
        (tell_code-Alike code code' quiet a),
    rw m refl,
  )
