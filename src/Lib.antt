-- ===== src/Lib.antt =====
-- temporal-agent-sandbox: an API that takes a task, a Temporal workflow that plans it, generates a
-- program, runs the program in a sandbox and summarizes the outcome, and the sandbox runner.
--
-- The parts, and the files that model them:
--
-- - Contracts: app/contracts.py, the data that all parts share, with `SandboxResult.ok` (`is_ok`)
--   and `SandboxResult.failure_reason`.
-- - Config: app/config.py, the settings and their defaults, and `get_settings` with its cache; what
--   `Settings()` reads is a parameter. The other parts take the settings that it returns as an argument.
-- - Temporal/Policies: app/temporal/policies.py. Temporal/Workflow: `AgentPipelineWorkflow` of
--   app/temporal/workflows.py. `run` passes the workflow object on as a state and reads a history:
--   for each of the four activities whether Temporal has recorded nothing, a value or an exception.
--   A longer history is a later moment. `step`, `run_sandbox_step` and `status` are
--   `_step`, `_run_sandbox` and the query. Temporal/Workflow/Pipeline joins the workflow to the
--   activities of the agent steps, and Temporal/Workflow/Sandboxed to the activity of the sandbox step;
--   Temporal/Workflow/Provenance leads from a result back to the attempt that it tells of.
-- - Temporal/Client and Temporal/Worker: app/temporal/client.py and `main` of app/temporal/worker.py, up
--   to the point where the worker polls.
-- - Sandbox/Runner: app/sandbox/runner.py. Sandbox/Firecracker: app/sandbox/firecracker.py.
-- - Sandbox/Gvisor: app/sandbox/gvisor.py. Output is `_read_capped`; Launch is `_run_cmd`,
--   `_container_name`, `preflight`, `_image_digest` and `_classify_infra`; Argv is
--   `_docker_run_cmd`; Staging is the temporary directory of `run`, with a disk that its effects act
--   on; Loop is the waiting loop of `run`; Run is `run`, `_safe` and `kill`, and Run/Cleared has the
--   containers that Docker holds. What Docker, the clock and
--   a cancellation do is a parameter, a `World`, and what the runner does to the world is a list of
--   effects. Deleting the directory is taken to succeed.
-- - Sandbox/Entrypoint: app/sandbox/runtime/entrypoint.py, the process in the container, over how the
--   untrusted code ends.
-- - Activities/Sandbox: `run_sandbox` of app/activities/sandbox.py, with the dispatch to a runner and
--   the `except` clauses; Activities/Sandbox/Telemetry is what it tells in spans and log lines.
--   Activities/Sandbox/Attempts: the attempts that Temporal makes of one call, by its documented rules,
--   which are a relation there.
--   Activities/Agents: the activities of app/activities/agents.py, with their context variables,
--   spans and log calls.
-- - Agents/Codegen: app/agents/codegen.py, with `str.format` as far as the templates use it.
--   Agents/Pipeline: app/agents/pipeline.py.
-- - Api/Errors: app/api/errors.py. Api/Auth: app/api/auth.py. Api/Ids: the request of
--   app/api/schemas.py, the payload and the workflow id of app/api/routes_runs.py, and the tenant that
--   app/activities/agents.py reads from the id. Api/Create: `create_run` and `_handle_already_started`,
--   over an interface of Temporal's client, whose descriptions have `memo` as a method in the version
--   that the program pins; Api/Create/Telemetry is its span and log line.
--   Api/Status: `_resolve_status`, the responses it builds, and `cancel_run`; the field `ok` of `SandboxModel` is `is_success`. Api/Stream: the generator of
--   `stream_run`, over what each turn sees; the elapsed time is the double that the code adds up, with every sum
--   rounded as IEEE 754 rounds it (Prelude/Double). Api/Stream/Elapsed relates that sum to the number of
--   turns, for durations up to a week. Api/Stream/Wire:
--   the text it yields, with `_sse` and the `json.dumps` of a response; Api/Stream/Wire/Reader and
--   Api/Stream/Wire/Client: what an `EventSource` and a JSON reader get of the text. Api/Stream/Changes:
--   a reference of the generator that compares the responses and not their dumps, and Api/Stream/Wire/Sorted
--   is about those dumps. Api/Stream/Followed: the stream over the status route and the
--   workflow, while a run ends. Api/Stream/Alive: its comments.
-- - Api/Main: app/api/main.py, the application from a request that FastAPI has routed to the response
--   that leaves the correlation middleware: the token check, the handlers, `_envelope` and the probes,
--   over an interface of Temporal (`Backend`). Api/Main/Lifespan is its start.
-- - Observability/Logging and Observability/Tracing: app/observability, the correlation filter, the JSON
--   formatter, the set-up of the root logger, the span helpers and the set-up of the tracer provider.
-- - Prelude: lists, Boolean tests, texts, decimal numbers, dictionaries, JSON values, and the methods of
--   Python's `str`, `json` and UTF-8 codec that the program calls. Prelude/Json/Reader is a JSON reader
--   for what is written, as a client has one.
-- - Tests: the theorems at concrete inputs.
--
-- How data is modelled. A `str` is a list of code points, and bytes are a list of numbers. A float
-- that is only carried and printed is its printed text; times of the loop are microseconds. The hash
-- functions and the lower-case table beyond ASCII are parameters. `{runtime!r}` is the name in quotes.
-- An exception that the program does not name is the name of its class.
--
-- Bounds. Two functions run on fuel: the JSON reader, twice the length of its text and one more, which is
-- enough for each text that is written, and the search for the last place of a double, 1100 steps, which
-- is more than the bits of any finite one. The loop of the runner goes over the ticks that it sees,
-- and ends as `waiting` if they end first. The event stream goes over its polls in the same way. Its
-- durations are taken to be a week at most where their length matters, since a sum of doubles stops
-- growing when it is large enough.
--
-- Not modelled: what OpenTelemetry itself adds to a span, and
-- the export of spans; how pydantic reads the environment; the
-- routing, the parsing of bodies and the texts of validation errors, which are FastAPI's; Python's
-- `runpy`; the timers and persistence of Temporal, and its retries beyond the
-- documented rules that Activities/Sandbox/Attempts states; and the isolation that Docker and gVisor give,
-- which are those systems'; the error of `.encode()` on a text with a lone surrogate; an exception, beside the
-- program that is not found, of the start of `docker rm`.
pub mod Prelude
pub mod Observability
pub mod Contracts
pub mod Agents
pub mod Config
pub mod Sandbox
pub mod Temporal
pub mod Activities
pub mod Api
pub mod Tests
