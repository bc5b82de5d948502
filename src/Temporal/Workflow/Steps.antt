-- ===== src/Temporal/Workflow/Steps.antt =====
-- What the status query shows, at every point where a run can wait or end.
use temporal_agent_sandbox.Prelude.{Text, codes, some, false, List, [], ◌∷◌, map, ◌≡◌, arith, ◌⊎◌}
use temporal_agent_sandbox.Contracts
use temporal_agent_sandbox.Contracts.{
  RunInput, Plan, SandboxResult, StepStatus, RunResult, is_ok, failure_reason,
}
use temporal_agent_sandbox.Config.{Settings}
use temporal_agent_sandbox.Temporal.Workflow.{
  exception, cancelled, Event, pending, value, failure, History, Activity, plan, generate_code,
  run_sandbox, summarize, Workflow, init, Signal, returned, suspended, raised, run, or_else,
}

abbrev pub activity_name : Activity → Text
activity_name (plan _) = codes "plan"
activity_name (generate_code _) = codes "generate_code"
activity_name (run_sandbox _) = codes "run_sandbox"
activity_name (summarize _) = codes "summarize"

abbrev pub step_names : Workflow → List Text
step_names w = map (λ s. s.name) w.steps

abbrev pub command_names : Workflow → List Text
command_names w = map (λ c. activity_name c.activity) w.commands

-- The steps that the status shows are the activities that were asked for, one for one, in order.
pub steps-eq-commands :
    (s : Settings) (inp : RunInput) (h : History)
    → step_names (run s inp h init).1 ≡ command_names (run s inp h init).1
unfolding run
steps-eq-commands s inp h = ground arith

-- All steps but the last are completed, and the last is as `P` says.
abbrev pub LastIs : (StepStatus → Type 0) → List StepStatus → Type 0
LastIs P [] = ⊥
LastIs P (s ∷ []) = P s
LastIs P (s ∷ t ∷ ss) = (s.state ≡ codes "completed") × LastIs P (t ∷ ss)

abbrev pub IsAt : Text → Text → StepStatus → Type 0
IsAt stage state s = (s.name ≡ stage) × (s.state ≡ state)

-- What a reader of the status sees while the run waits, after it has raised, and after its end.
abbrev pub Shows : Signal RunResult → Workflow → Type 0
Shows suspended w = LastIs (IsAt w.stage (codes "running")) w.steps
Shows (raised (exception e)) w = LastIs (IsAt w.stage (codes "failed")) w.steps
Shows (raised cancelled) w = LastIs (IsAt w.stage (codes "running")) w.steps
Shows (returned r) w =
    (w.stage ≡ r.status)
    × (((r.status ≡ codes "completed")
          × LastIs (IsAt (codes "summarize") (codes "completed")) w.steps)
        ⊎ ((r.status ≡ codes "failed")
            × LastIs
                (λ s.
                  (s.name ≡ codes "run_sandbox")
                  × (s.state ≡ codes "failed")
                  × (s.detail ≡ r.failure_reason))
                w.steps))

-- A failed outcome has a reason, and the reason is a text that `or` keeps.
pub reason_kept :
    (r : SandboxResult)
    → is_ok r ≡ false
    → failure_reason r ≡ some (or_else (failure_reason r) (codes "sandbox_failed"))
unfolding failure_reason codes
reason_kept r h = rw h (ground arith)

abbrev pub at_events :
    Settings
    → RunInput
    → Event Plan
    → Event Text
    → Event SandboxResult
    → Event Text
    → Signal RunResult × Workflow
at_events s inp p c r y = run s inp (record { plan = p; code = c; sandbox = r; summary = y }) init

module _ (s : Settings) (inp : RunInput) where
  Shows-at :
      (p : Event Plan) (c : Event Text) (r : Event SandboxResult) (y : Event Text)
      → Shows (at_events s inp p c r y).0 (at_events s inp p c r y).1
  unfolding run Contracts.completed Contracts.failed
  Shows-at pending c r y = ground arith
  Shows-at (failure e) c r y = ground arith
  Shows-at (value p) pending r y = ground arith
  Shows-at (value p) (failure e) r y = ground arith
  Shows-at (value p) (value c) pending y = ground arith
  Shows-at (value p) (value c) (failure e) y = ground arith
  Shows-at (value p) (value c) (value r) y = ground (arith, reason_kept r)

-- At every wait the stage is the name of the one running step and all steps before it are completed;
-- after an `Exception` that step has failed, and after a `CancelledError` it still reads "running"; at
-- the end the stage is the result's status, and of a failed result the failed step is `run_sandbox`,
-- with the result's reason as its detail.
pub run-Shows :
    (s : Settings) (inp : RunInput) (h : History) → Shows (run s inp h init).0 (run s inp h init).1
run-Shows s inp h = Shows-at s inp h.plan h.code h.sandbox h.summary
