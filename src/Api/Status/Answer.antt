-- ===== src/Api/Status/Answer.antt =====
-- What a reader of a run is told, from the history of the run on.
use temporal_agent_sandbox.Prelude.{
  Text, codes, none, some, true, false, [], ◌∷◌, ◌++◌, map, ◌≡◌, refl, ◌⊎◌,
}
use temporal_agent_sandbox.Contracts.{SandboxResult, RunResult, is_ok, failure_reason}
use temporal_agent_sandbox.Temporal.Workflow.{
  exception, cancelled, value, History, Workflow, Signal, returned, suspended, raised, status,
}
use temporal_agent_sandbox.Api.Errors.{not_found, ok, err, api_error, rpc_error}
use temporal_agent_sandbox.Api.Status.{
  RunStatusResponse, Handle, open_stream, cancel_run, is_running, is_completed, is_failed,
  is_canceled, resolve_status,
}

-- the text of a `WorkflowFailureError`, which has the exception of the workflow in its `cause` only
abbrev pub failure_text : Text
failure_text = codes "Workflow execution failed"

-- What Temporal documents of a handle: it describes a waiting run as running and runs the query on
-- the workflow, it keeps the result of a run that has returned, and a run that has raised it describes as
-- failed or, after a cancellation, as cancelled, and waiting for its result raises a
-- `WorkflowFailureError`.
abbrev pub Observes : Text → Signal RunResult → Workflow → Handle → Type 0
Observes id suspended w h = (h.describe ≡ ok is_running) × (h.query ≡ ok (status id w))
Observes id (returned r) w h = (h.describe ≡ ok is_completed) × (h.outcome ≡ ok r)
Observes id (raised (exception e)) w h =
    ((h.describe ≡ ok is_failed) ⊎ (h.describe ≡ ok is_canceled)) × (h.cause ≡ some failure_text)
Observes id (raised cancelled) w h = (h.describe ≡ ok is_canceled) × (h.cause ≡ some failure_text)

-- A success is told without an error, and a failure of the sandboxed code with its reason.
abbrev pub TellsEnd : History → RunStatusResponse → Type 0
TellsEnd h a =
    (sbx : SandboxResult) × (h.sandbox ≡ value sbx)
    × (((is_ok sbx ≡ true) × (a.status ≡ codes "COMPLETED") × (a.error ≡ none))
        ⊎ ((message : Text) × (is_ok sbx ≡ false)
            × (failure_reason sbx ≡ some message)
            × (a.status ≡ codes "FAILED")
            × (a.error
                ≡ some (record {
                  code = codes "SANDBOX_FAILURE";
                  step = some (codes "run_sandbox");
                  message = message;
                  retryable = false;
                }))))

abbrev pub Tells : History → Signal RunResult → Workflow → RunStatusResponse → Type 0
Tells h suspended w a =
    (a.status ≡ codes "RUNNING")
    × (a.current_step ≡ some w.stage)
    × (map (λ x. x.name) a.steps ≡ a.completed_steps ++ w.stage ∷ [])
Tells h (returned r) w a = TellsEnd h a
Tells h (raised (exception e)) w a =
    ((a.status ≡ codes "FAILED") ⊎ (a.status ≡ codes "CANCELLED"))
    × (a.error
        ≡ some (record { code = a.status; step = none; message = failure_text; retryable = false }))
Tells h (raised cancelled) w a =
    (a.status ≡ codes "CANCELLED")
    × (a.error
        ≡ some (record { code = a.status; step = none; message = failure_text; retryable = false }))

-- A run that Temporal does not find is answered with the same 404 by the status route, by the stream
-- before it opens, and by the cancel route.
pub unknown_run :
    (id : Text) (h : Handle)
    → h.describe ≡ err (rpc_error not_found)
    → h.cancel ≡ err (rpc_error not_found)
    → (m : Text) × (resolve_status id h ≡ err (api_error 404 (codes "RUN_NOT_FOUND") m))
      × (open_stream id h ≡ err (api_error 404 (codes "RUN_NOT_FOUND") m))
      × (cancel_run id h ≡ err (api_error 404 (codes "RUN_NOT_FOUND") m))
unfolding resolve_status open_stream cancel_run
unknown_run id h d c = (codes "no run with id " ++ id, rw d refl, rw d refl, rw c refl)
