-- ===== src/Temporal/Workflow.antt =====
-- app/temporal/workflows.py: `AgentPipelineWorkflow`. A history says of each activity what Temporal
-- has recorded so far; the run goes on until an activity is pending, which is where it waits and
-- where the status query looks. A step object is its place in the list of steps, through which both
-- the list and the local variable `step` reach it.
pub mod Steps
pub mod Outcome
pub mod Pipeline
pub mod Sandboxed
pub mod Provenance
use temporal_agent_sandbox.Prelude.{
  ℕ, zero, suc, Text, codes, Option, none, some, Bool, true, false, not, List, [], ◌∷◌, ◌++◌,
  length, if◌then◌else◌,
}
use temporal_agent_sandbox.Contracts
use temporal_agent_sandbox.Contracts.{
  RunInput, Plan, RunSandboxArgs, SandboxResult, SummarizeArgs, StepStatus, RunStatus, RunResult,
  is_ok, failure_reason,
}
use temporal_agent_sandbox.Config.{Settings}
use temporal_agent_sandbox.Temporal.Policies.{
  RetryPolicy, agent_retry, sandbox_retry, agent_start_to_close, sandbox_start_to_close,
  sandbox_heartbeat, schedule_to_start,
}

-- An `Exception` is caught by `except Exception`; `asyncio.CancelledError` is none.
pub data Raised : Type 0 where
  exception : Text → Raised
  cancelled : Raised

-- what the history holds for an activity
pub data Event {ℓ} (A : Type ℓ) : Type ℓ where
  pending : Event A
  value : A → Event A
  failure : Raised → Event A

pub record History : Type 0 where
  pub plan : Event Plan
  pub code : Event Text
  pub sandbox : Event SandboxResult
  pub summary : Event Text

pub data Activity : Type 0 where
  plan : Text → Activity
  generate_code : Plan → Activity
  run_sandbox : RunSandboxArgs → Activity
  summarize : SummarizeArgs → Activity

-- the keyword arguments of `workflow.execute_activity`
pub record Options : Type 0 where
  pub start_to_close : ℕ
  pub schedule_to_start : ℕ
  pub heartbeat : Option ℕ
  pub retry : RetryPolicy

pub record Command : Type 0 where
  pub activity : Activity
  pub options : Options

-- The attributes of the workflow object, and the activities that it has asked Temporal to run.
pub record Workflow : Type 0 where
  pub stage : Text
  pub steps : List StepStatus
  pub commands : List Command

-- `__init__`
abbrev pub init : Workflow
init = record { stage = codes "queued"; steps = []; commands = [] }

-- How a call ends: it returns, it waits for an activity, or it raises.
pub data Signal {ℓ} (A : Type ℓ) : Type ℓ where
  returned : A → Signal A
  suspended : Signal A
  raised : Raised → Signal A

abbrev pub W {ℓ} : Type ℓ → Type ℓ
W A = Workflow → Signal A × Workflow

abbrev pub continue {ℓ κ} :
    {A : Type ℓ} {B : Type κ}
    → Signal A
    → (A → Workflow → Signal B × Workflow)
    → Workflow
    → Signal B × Workflow
continue (returned a) f w = f a w
continue suspended f w = (suspended, w)
continue (raised e) f w = (raised e, w)

infixl 5 ◌>>=◌
abbrev pub ◌>>=◌ : {A B : Type 0} → W A → (A → W B) → W B
◌>>=◌ m f w = let (r, w') = m w in continue r f w'

-- `workflow.execute_activity`
execute_activity {ℓ} : {A : Type ℓ} → Command → Event A → Workflow → Signal A × Workflow
execute_activity c pending w = (suspended, record w { commands = w.commands ++ c ∷ [] })
execute_activity c (value a) w = (returned a, record w { commands = w.commands ++ c ∷ [] })
execute_activity c (failure e) w = (raised e, record w { commands = w.commands ++ c ∷ [] })

-- The step object at a place of the list is changed.
modify : ℕ → (StepStatus → StepStatus) → List StepStatus → List StepStatus
modify i f [] = []
modify zero f (s ∷ ss) = f s ∷ ss
modify (suc i) f (s ∷ ss) = s ∷ modify i f ss

-- `self._stage = name`, and a new step in state "running" at the end of the list
begin : Text → Workflow → Workflow
begin name w = record w {
  stage = name;
  steps = w.steps ++ (record { name = name; state = codes "running"; detail = none }) ∷ [];
}

set_step : ℕ → (StepStatus → StepStatus) → Workflow → Workflow
unfolding modify
set_step i f w = record w { steps = modify i f w.steps }

mark : Text → StepStatus → StepStatus
mark state s = record s { state = state }

-- what stands around the `await` of `_step`
after_step {ℓ} : {A : Type ℓ} → ℕ → Signal A → Workflow → Signal A × Workflow
after_step i (returned a) w = (returned a, set_step i (mark (codes "completed")) w)
after_step i suspended w = (suspended, w)
after_step i (raised (exception e)) w = (raised (exception e), set_step i (mark (codes "failed")) w)
after_step i (raised cancelled) w = (raised cancelled, w)

-- `_step`
step {ℓ} : {A : Type ℓ} → Text → Command → Event A → Workflow → Signal A × Workflow
unfolding execute_activity begin set_step mark after_step
step name command event w =
    let (r, w') = execute_activity command event (begin name w) in after_step (length w.steps) r w'

-- the end of `_run_sandbox`, after its `try`
judge : SandboxResult → StepStatus → StepStatus
judge result s =
    if is_ok result
    then record s { state = codes "completed" }
    else record s { state = codes "failed"; detail = failure_reason result }

after_sandbox : ℕ → Signal SandboxResult → Workflow → Signal SandboxResult × Workflow
after_sandbox i (returned result) w = (returned result, set_step i (judge result) w)
after_sandbox i suspended w = (suspended, w)
after_sandbox i (raised (exception e)) w =
    (raised (exception e), set_step i (mark (codes "failed")) w)
after_sandbox i (raised cancelled) w = (raised cancelled, w)

abbrev pub agent_options : Settings → Options
agent_options s = record {
  start_to_close = agent_start_to_close s;
  schedule_to_start = schedule_to_start s;
  heartbeat = none;
  retry = agent_retry s;
}

abbrev pub sandbox_options : Settings → Options
sandbox_options s = record {
  start_to_close = sandbox_start_to_close s;
  schedule_to_start = schedule_to_start s;
  heartbeat = some (sandbox_heartbeat s);
  retry = sandbox_retry s;
}

abbrev pub sandbox_args : RunInput → Text → RunSandboxArgs
sandbox_args inp code = record {
  run_id = inp.run_id;
  tenant_id = inp.tenant_id;
  code = code;
  limits = inp.limits;
  runtime = inp.sandbox_runtime;
}

-- `_run_sandbox`
run_sandbox_step : Settings → RunInput → Text → Event SandboxResult → W SandboxResult
unfolding execute_activity begin set_step judge after_sandbox mark
run_sandbox_step s inp code event w =
    let command : Command = record {
      activity = run_sandbox (sandbox_args inp code);
      options = sandbox_options s;
    } in
    let (r, w') = execute_activity command event (begin (codes "run_sandbox") w) in
    after_sandbox (length w.steps) r w'

-- `x or default`
abbrev pub or_else : Option Text → Text → Text
or_else none d = d
or_else (some []) d = d
or_else (some (c ∷ s)) d = c ∷ s

enter : Text → W (Unit {0})
enter stage w = (returned tt, record w { stage = stage })

-- The terminal status, decided from the activity's result.
conclude : Settings → RunInput → History → Plan → Text → SandboxResult → W RunResult
unfolding step enter
conclude s inp h p code sbx =
    if not (is_ok sbx)
    then (do
      _ ← enter (codes "failed")
      λ w. (
        returned (
            Contracts.failed inp.run_id (or_else (failure_reason sbx) (codes "sandbox_failed"))
              (some sbx) (some code)),
        w,
      ))
    else (do
      summary ←
          step (codes "summarize")
            (record {
              activity = summarize (record { plan = p; sandbox = sbx });
              options = agent_options s;
            })
            h.summary
      _ ← enter (codes "completed")
      λ w. (returned (Contracts.completed inp.run_id summary code sbx), w))

-- `run`
unfoldable pub run : Settings → RunInput → History → W RunResult
unfolding step run_sandbox_step conclude
run s inp h = do
  p ← step (codes "plan") (record { activity = plan inp.task; options = agent_options s }) h.plan
  code ←
      step (codes "generate_code")
        (record { activity = generate_code p; options = agent_options s }) h.code
  sbx ← run_sandbox_step s inp code h.sandbox
  conclude s inp h p code sbx

-- the query `status`; the workflow's id is the run id
unfoldable pub status : Text → Workflow → RunStatus
status workflow_id w = record { run_id = workflow_id; stage = w.stage; steps = w.steps }
