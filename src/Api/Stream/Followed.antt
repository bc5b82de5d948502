-- ===== src/Api/Stream/Followed.antt =====
-- A stream that is open while its run ends: `stream_run` of app/api/routes_runs.py over `_resolve_status`
-- and the workflow of app/temporal/workflows.py.
use temporal_agent_sandbox.Prelude.{
  Text, codes, ◌==◌, is_one_of, none, true, false, List, [], ◌∷◌, ◌++◌, ◌≡◌, ◌⊎◌, refl, All,
}
use temporal_agent_sandbox.Contracts.{RunInput, RunResult, SandboxResult, is_ok}
use temporal_agent_sandbox.Config.{Settings}
use temporal_agent_sandbox.Temporal.Workflow.{
  value, History, Workflow, init, Signal, returned, suspended, raised, run,
}
use temporal_agent_sandbox.Api.Errors.{ok}
use temporal_agent_sandbox.Api.Status.{RunStatusResponse, Handle, resolve_status}
use temporal_agent_sandbox.Api.Status.Answer.{Observes}
use temporal_agent_sandbox.Api.Stream.{
  Poll, Frame, event, done, keepalive, End, closed, is_terminal, sse_event, start, start,
}

-- a frame that ends nothing: a snapshot, a step, or a comment
abbrev pub IsOngoing : Frame → Type 0
IsOngoing (event name a) = (name ≡ codes "snapshot") ⊎ (name ≡ codes "step")
IsOngoing (done _) = ⊥
IsOngoing keepalive = Unit

-- The client is there and is told of a run that is not at its end.
abbrev pub IsRunning : Poll → Type 0
IsRunning p =
    (p.disconnected ≡ false)
    × ((b : RunStatusResponse) × (p.answer ≡ ok b) × (is_terminal b.status ≡ false))

abbrev pub Final : RunStatusResponse → List Frame × End → Type 0
Final a sent =
    (fs : List Frame) × (sent ≡ (fs ++ event (sse_event a.status) a ∷ done none ∷ [], closed))
    × All IsOngoing fs

-- The name of the last event, by the end of the run: "completed" exactly if the sandbox's outcome is ok.
abbrev pub IsNamed : History → Signal RunResult → Text → Type 0
IsNamed h suspended name = ⊥
IsNamed h (returned r) name =
    (sbx : SandboxResult) × (h.sandbox ≡ value sbx)
    × (((is_ok sbx ≡ true) × (name ≡ codes "completed"))
        ⊎ ((is_ok sbx ≡ false) × (name ≡ codes "failed")))
IsNamed h (raised _) name = name ≡ codes "failed"

pub running_is_not : (status : Text) → status ≡ codes "RUNNING" → is_terminal status ≡ false
unfolding is_terminal is_one_of codes ◌==◌
running_is_not status e = rw e refl

-- what stands at the time of a poll: the history of the run so far, and what its handle answers
pub record Moment : Type 0 where
  pub history : History
  pub handle : Handle

module _ (s : Settings) (inp : RunInput) (id : Text) where
  abbrev pub IsObserved : Moment → Type 0
  IsObserved m = Observes id (run s inp m.history init).0 (run s inp m.history init).1 m.handle

  -- The run waits for an activity.
  abbrev pub IsWaiting : Moment → Type 0
  IsWaiting m = ((run s inp m.history init).0 ≡ suspended) × IsObserved m

  -- a poll of a client that is there
  pub poll_at : Moment → Poll
  poll_at m = record { disconnected = false; answer = resolve_status id m.handle }
