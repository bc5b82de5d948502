-- ===== src/Temporal/Worker.antt =====
-- app/temporal/worker.py: `main`, up to the point where the worker polls its queue.
pub mod Start
use temporal_agent_sandbox.Prelude.{ℕ, Text, codes, Option, none, some, Bool, List, [], ◌∷◌, ◌++◌}
use temporal_agent_sandbox.Prelude.Dict.{Dict}
use temporal_agent_sandbox.Prelude.Json.Value.{Json, string}
use temporal_agent_sandbox.Config.{Settings}
use temporal_agent_sandbox.Observability.Logging.{Loggers, configure_logging}
use temporal_agent_sandbox.Observability.Tracing.{Tracing, setup_tracing}
use temporal_agent_sandbox.Sandbox.Runner.{
  Error, infra_error, policy_violation, not_implemented, cancelled_error, other_error, Result, ok,
  err, Runner, gvisor, firecracker, get_runner, ◌>>=◌,
}
use temporal_agent_sandbox.Sandbox.Firecracker
use temporal_agent_sandbox.Sandbox.Gvisor.Launch.{Subprocess}
use temporal_agent_sandbox.Sandbox.Gvisor.Launch
use temporal_agent_sandbox.Temporal.Client.{Connection, create_client}

pub data Level : Type 0 where
  info_level error_level : Level

pub record Entry : Type 0 where
  pub level : Level
  pub message : Text
  pub extras : Dict Json

-- the arguments of `Worker`, the workflow and the activities by name
pub record Worker : Type 0 where
  pub connection : Connection
  pub task_queue : Text
  pub workflows : List Text
  pub activities : List Text

-- What the process keeps for its logs and spans.
pub record Process : Type 0 where
  pub loggers : Loggers
  pub tracing : Tracing
  pub log : List Entry

-- `main` polls with its worker, or it raises; the exceptions of `Client.connect` are by name.
pub data Ending : Type 0 where
  polls : Worker → Ending
  raised : Error → Ending

-- `get_runner(…).preflight()`, on what becomes of `docker info`
pub probe : Text → Result Subprocess → Result (Unit {0})
probe runtime info = get_runner runtime >>= λ runner. elim runner [
  | gvisor r ↦ Launch.preflight r info
  | firecracker ↦ Firecracker.preflight
]

abbrev log_of : Level → Text → Dict Json → Process → Process
log_of level message extras p = record p {
  log = p.log ++ (record { level = level; message = message; extras = extras }) ∷ [];
}

abbrev runtime_extra : Settings → Dict Json
runtime_extra s = (codes "sandbox_runtime", string s.sandbox_runtime) ∷ []

-- the `try` around the probe: `none` if it goes on
pub detect : Settings → Result (Unit {0}) → Process → Option Error × Process
detect s (ok _) p =
    (none, log_of info_level (codes "sandbox runtime available") (runtime_extra s) p)
detect s (err (policy_violation m)) p = (
  none,
  log_of error_level
      (codes "sandbox execution unavailable; run_sandbox will fail closed until resolved: " ++ m)
      (runtime_extra s) p,
)
detect s (err e) p = (some e, p)

pub worker_of : Settings → Worker
worker_of s = record {
  connection = create_client s;
  task_queue = s.task_queue;
  workflows = codes "AgentPipelineWorkflow" ∷ [];
  activities = codes "plan" ∷ codes "generate_code" ∷ codes "summarize" ∷ codes "run_sandbox" ∷ [];
}

-- the set-up of logs and spans; `fresh` is the identity of the new handler
pub set_up : Settings → ℕ → Process → Process
set_up s fresh p =
    let service = s.otel_service_name ++ codes "-worker" in
    record p {
      loggers = configure_logging service s.log_level fresh p.loggers;
      tracing = setup_tracing service s.otel_exporter_otlp_endpoint p.tracing;
    }

-- behind the detection; `refused` is the class of an exception of `Client.connect`
pub connect : Settings → Option Text → Process → Ending × Process
unfolding worker_of
connect s (some refused) p = (raised (other_error refused), p)
connect s none p = (
  polls (worker_of s),
  log_of info_level (codes "worker starting")
      ((codes "task_queue", string s.task_queue) ∷ runtime_extra s) p,
)

-- `main` behind the probe
pub go_on : Settings → Option Text → Result (Unit {0}) → Process → Ending × Process
unfolding detect connect
go_on s refused probed p =
    let (stopped, q) = detect s probed p in
    elim stopped [ some e ↦ (raised e, q) | none ↦ connect s refused q ]

-- `main`
unfoldable pub main : Settings → Result Subprocess → Option Text → ℕ → Process → Ending × Process
unfolding probe set_up go_on
main s info refused fresh p = go_on s refused (probe s.sandbox_runtime info) (set_up s fresh p)
