-- ===== src/Tests/Telemetry.antt =====
-- Tests of the log lines, the telemetry of the agent steps, and the start of the worker.
use temporal_agent_sandbox.Prelude.{
  pos, Text, codes, ◌==◌, ◌is_in◌, length, none, some, false, [], ◌∷◌, ◌≡◌, refl,
}
use temporal_agent_sandbox.Prelude.Utf8.{Bytes}
use temporal_agent_sandbox.Prelude.Methods.{lower}
use temporal_agent_sandbox.Prelude.Dict.{get}
use temporal_agent_sandbox.Prelude.Json.Value.{null, string}
use temporal_agent_sandbox.Prelude.Json.Value.Printable.{IsPrintable}
use temporal_agent_sandbox.Contracts.{Plan, SummarizeArgs}
use temporal_agent_sandbox.Config.{defaults}
use temporal_agent_sandbox.Agents.Codegen.{fail_program, generate_program}
use temporal_agent_sandbox.Agents.Pipeline
use temporal_agent_sandbox.Observability.Logging.{Context, LogRecord, filter, payload_of, format}
use temporal_agent_sandbox.Observability.Logging.Lines.{IsCorrelated, format-IsCorrelated}
use temporal_agent_sandbox.Activities.Agents.{Info, plan, generate_code, summarize}
use temporal_agent_sandbox.Activities.Agents.Privacy.{telemetry-Alike}
use temporal_agent_sandbox.Temporal.Worker.{Worker, Process}
use temporal_agent_sandbox.Tests.Data.{ascii_only, normal_plan, outcome}

-- The record of `create_run`, which passes its run id as an extra.
abbrev run_started : LogRecord
run_started = record {
  created = codes "2025-01-01T00:00:00+00:00";
  levelname = codes "INFO";
  name = codes "app.api.routes_runs";
  message = codes "run started\nforged";
  attributes =
      (codes "step", string (codes "api.create_run"))
      ∷ (codes "run_id", string (codes "acme:k"))
      ∷ [];
  traceback = none;
}

-- the context of the API, which sets no context variable
abbrev of_api : Context
of_api = record { run_id = none; tenant_id = none; span = none }

format-IsCorrelated_example :
    IsPrintable (format (codes "msg" ∷ []) (codes "api") (filter of_api run_started))
    × IsCorrelated of_api
        (λ k. get k (payload_of (codes "msg" ∷ []) (codes "api") (filter of_api run_started)))
format-IsCorrelated_example =
    format-IsCorrelated (codes "msg" ∷ []) (codes "api") of_api run_started

-- Its line has no run id.
run_started_has_no_id :
    get (codes "run_id") (payload_of (codes "msg" ∷ []) (codes "api") (filter of_api run_started))
    ≡ some null
run_started_has_no_id =
    (format-IsCorrelated (codes "msg" ∷ []) (codes "api") of_api run_started).1.run_id

abbrev info : Info
info = record { workflow_id = codes "acme:k"; attempt = 1 }

abbrev failing : Text → Plan
failing task = record { task = task; directive = codes "fail"; steps = [] }

fail_code : (task : Text) → Pipeline.generate_code (failing task) ≡ some fail_program
unfolding Pipeline.generate_code generate_program codes ◌==◌
fail_code task = refl

abbrev summarized : SummarizeArgs
summarized = record { plan = normal_plan; sandbox = outcome (pos 0) }

-- a hash that gives nothing away, so that two tasks of one length are alike
abbrev blind : Bytes → Text
blind b = []

same_directive :
    (Pipeline.plan ascii_only (codes "abc")).directive
    ≡ (Pipeline.plan ascii_only (codes "xyz")).directive
unfolding Pipeline.plan Pipeline.parse_directive Pipeline.find_directive Pipeline.names codes ◌==◌
    ◌is_in◌ lower
same_directive = refl

same_length : length (codes "abc") ≡ length (codes "xyz")
unfolding codes
same_length = refl

telemetry-Alike_example :
    ((plan blind info ascii_only (codes "abc")).1 ≡ (plan blind info ascii_only (codes "xyz")).1)
    × ((generate_code blind info defaults (failing (codes "abc"))).1
        ≡ (generate_code blind info defaults (failing (codes "xyz"))).1)
    × ((summarize blind info summarized).1 ≡ (summarize blind info summarized).1)
telemetry-Alike_example =
    telemetry-Alike blind info defaults ascii_only (codes "abc") (codes "xyz")
      (failing (codes "abc")) (failing (codes "xyz")) fail_program fail_program summarized
      summarized refl (same_length, refl) same_directive (fail_code (codes "abc"))
      (fail_code (codes "xyz")) (refl, refl) refl

abbrev process : Process
process = record {
  loggers = record { level = codes "WARNING"; handlers = []; uvicorn_access = [] };
  tracing = record { initialized = false; provider = none };
  log = [];
}
