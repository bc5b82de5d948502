-- ===== src/Temporal/Worker/Start.antt =====
-- The worker starts, and serves the workflow.
use temporal_agent_sandbox.Prelude.{
  ℕ, Text, codes, is_one_of, none, true, List, [], ◌∷◌, ◌++◌, ◌≡◌, ◌↔◌, ◌⊎◌, refl, All,
}
use temporal_agent_sandbox.Config.{Settings}
use temporal_agent_sandbox.Contracts.{RunInput}
use temporal_agent_sandbox.Sandbox.Runner.{Result, ok, err, policy_violation}
use temporal_agent_sandbox.Sandbox.Firecracker
use temporal_agent_sandbox.Sandbox.Gvisor.Launch.{Subprocess}
use temporal_agent_sandbox.Temporal.Workflow.{History, init, run}
use temporal_agent_sandbox.Temporal.Workflow.Steps.{activity_name}
use temporal_agent_sandbox.Temporal.Worker.{
  info_level, Entry, Worker, Process, polls, probe, worker_of, set_up, go_on,
}

-- The probe passes, or it raises a policy violation.
abbrev Decided : Text → Subprocess → Type 0
Decided runtime info =
    (probe runtime (ok info) ≡ ok tt)
    ⊎ ((m : Text) × (probe runtime (ok info) ≡ err (policy_violation m)))

-- The process has logged whether the runtime is available, and then the start.
abbrev pub Announces : Result (Unit {0}) → List Entry → List Entry → Type 0
Announces probed old new =
    (e : Entry) × (started : Entry) × (new ≡ old ++ e ∷ started ∷ [])
    × ((e.level ≡ info_level) ↔ (probed ≡ ok tt))

abbrev pub Serves : Settings → Worker → Type 0
Serves s w =
    (inp : RunInput) (h : History)
    → All (λ c. is_one_of (activity_name c.activity) w.activities ≡ true)
        (run s inp h init).1.commands

abbrev Polls : Settings → Result (Unit {0}) → Process → Type 0
Polls s probed p =
    ((go_on s none probed p).0 ≡ polls (worker_of s))
    × Announces probed p.log (go_on s none probed p).1.log

set_up-log : (s : Settings) (fresh : ℕ) (p : Process) → (set_up s fresh p).log ≡ p.log
unfolding set_up
set_up-log s fresh p = refl

-- The worker polls the configured queue, at the configured server and namespace.
pub record IsConfigured (s : Settings) (w : Worker) : Type 0 where
  pub queue : w.task_queue ≡ s.task_queue
  pub host : w.connection.host ≡ s.temporal_host
  pub namespace : w.connection.namespace ≡ s.temporal_namespace
  pub workflow : w.workflows ≡ codes "AgentPipelineWorkflow" ∷ []
