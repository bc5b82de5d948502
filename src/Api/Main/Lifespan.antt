-- ===== src/Api/Main/Lifespan.antt =====
-- `lifespan` of app/api/main.py, up to its `yield`.
use temporal_agent_sandbox.Prelude.{ℕ, Text, codes, Option, none, some, [], ◌∷◌, ◌++◌, ◌≡◌, refl}
use temporal_agent_sandbox.Config.{Settings}
use temporal_agent_sandbox.Observability.Logging.{Loggers, configure_logging}
use temporal_agent_sandbox.Observability.Logging.Lines.{configure_logging_lem}
use temporal_agent_sandbox.Observability.Tracing.{Tracing, setup_tracing}
use temporal_agent_sandbox.Temporal.Client.{Connection, create_client}

-- what the process keeps; `temporal` is `app.state.temporal`
pub record App : Type 0 where
  pub loggers : Loggers
  pub tracing : Tracing
  pub temporal : Option Connection

-- `fresh` is the identity of the new handler, and `refused` the class of an exception of
-- `Client.connect`, which leaves the application without a client and ends its start.
pub lifespan : Settings → ℕ → Option Text → App → Option Text × App
lifespan s fresh refused app =
    let service = s.otel_service_name ++ codes "-api" in
    let ready = record app {
      loggers = configure_logging service s.log_level fresh app.loggers;
      tracing = setup_tracing service s.otel_exporter_otlp_endpoint app.tracing;
    } in
    elim refused [
      | some e ↦ (some e, ready)
      | none ↦ (none, record ready { temporal = some (create_client s) })
    ]

-- A start that raises nothing leaves the client of the settings and one handler, for the API's service,
-- whatever was installed before.
lifespan_lem :
    (s : Settings) (fresh : ℕ) (app : App)
    → ((lifespan s fresh none app).1.temporal ≡ some (create_client s))
      × ((lifespan s fresh none app).1.loggers.handlers
          ≡ (record { identity = fresh; service = some (s.otel_service_name ++ codes "-api") })
            ∷ [])
unfolding lifespan
lifespan_lem s fresh app = (
  refl,
  configure_logging_lem (s.otel_service_name ++ codes "-api") s.log_level fresh app.loggers,
)
