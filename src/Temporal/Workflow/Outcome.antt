-- ===== src/Temporal/Workflow/Outcome.antt =====
-- The result of a run, and what the workflow asks of each activity.
use temporal_agent_sandbox.Prelude.{
  [], ◌∷◌, Text, codes, none, some, true, false, ◌≡◌, ◌↔◌, refl, arith, All, inl, inr, Bool-cases,
}
use temporal_agent_sandbox.Contracts
use temporal_agent_sandbox.Contracts.{
  RunInput, Plan, RunSandboxArgs, SandboxResult, RunResult, is_ok, failure_reason,
}
use temporal_agent_sandbox.Config.{Settings}
use temporal_agent_sandbox.Temporal.Workflow.{
  Event, pending, value, failure, History, Options, plan, generate_code, run_sandbox, summarize,
  Command, init, returned, run, agent_options, sandbox_options, sandbox_args,
}
use temporal_agent_sandbox.Temporal.Workflow.Steps.{at_events, reason_kept}

-- The verdict of a history in which the sandbox has returned: a completed run has a summary, and a
-- failed one has the reason of the sandbox's outcome.
pub data Verdict (inp : RunInput) (h : History) (r : RunResult) : Type 0 where
  succeeds :
      (p : Plan) (code : Text) (sbx : SandboxResult) (summary : Text)
      → h.plan ≡ value p
      → h.code ≡ value code
      → h.sandbox ≡ value sbx
      → h.summary ≡ value summary
      → is_ok sbx ≡ true
      → r ≡ record {
        run_id = inp.run_id;
        status = codes "completed";
        summary = some summary;
        code = some code;
        sandbox = some sbx;
        failure_reason = none;
      }
      → Verdict inp h r
  fails :
      (p : Plan) (code : Text) (sbx : SandboxResult) (reason : Text)
      → h.plan ≡ value p
      → h.code ≡ value code
      → h.sandbox ≡ value sbx
      → is_ok sbx ≡ false
      → failure_reason sbx ≡ some reason
      → r ≡ record {
        run_id = inp.run_id;
        status = codes "failed";
        summary = none;
        code = some code;
        sandbox = some sbx;
        failure_reason = some reason;
      }
      → Verdict inp h r

-- The arguments of the sandbox step are the run's own, with some code.
pub record IsOwn (inp : RunInput) (args : RunSandboxArgs) : Type 0 where
  pub run_id : args.run_id ≡ inp.run_id
  pub tenant_id : args.tenant_id ≡ inp.tenant_id
  pub limits : args.limits ≡ inp.limits
  pub runtime : args.runtime ≡ inp.sandbox_runtime

-- The options of an agent step: the policy's times, no heartbeat, and every error may be tried again.
pub record IsAgentOptions (s : Settings) (o : Options) : Type 0 where
  pub start_to_close : o.start_to_close ≡ s.agent_start_to_close_s
  pub schedule_to_start : o.schedule_to_start ≡ s.schedule_to_start_s
  pub heartbeat : o.heartbeat ≡ none
  pub attempts : o.retry.maximum_attempts ≡ s.max_attempts
  pub final : o.retry.non_retryable_error_types ≡ []

-- The options of the sandbox step: times of its own, a heartbeat, and two errors that are final.
pub record IsSandboxOptions (s : Settings) (o : Options) : Type 0 where
  pub start_to_close : o.start_to_close ≡ s.sandbox_start_to_close_s
  pub schedule_to_start : o.schedule_to_start ≡ s.schedule_to_start_s
  pub heartbeat : o.heartbeat ≡ some s.sandbox_heartbeat_s
  pub attempts : o.retry.maximum_attempts ≡ s.max_attempts
  pub final :
      o.retry.non_retryable_error_types
      ≡ codes "SandboxPolicyViolation" ∷ codes "PayloadTooLarge" ∷ []

-- Each command follows from the input and from what the activities before it have returned;
-- `summarize` is asked only of an outcome that is ok.
abbrev pub Follows : Settings → RunInput → History → Command → Type 0
Follows s inp h c = elim c.activity [
  | plan task ↦ (task ≡ inp.task) × IsAgentOptions s c.options
  | generate_code p ↦ (h.plan ≡ value p) × IsAgentOptions s c.options
  | run_sandbox args ↦ (h.code ≡ value args.code) × IsOwn inp args × IsSandboxOptions s c.options
  | summarize args ↦
      (h.plan ≡ value args.plan)
      × (h.sandbox ≡ value args.sandbox)
      × (is_ok args.sandbox ≡ true)
      × IsAgentOptions s c.options
]

agent_options-IsAgentOptions : (s : Settings) → IsAgentOptions s (agent_options s)
agent_options-IsAgentOptions s = record {
  start_to_close = refl;
  schedule_to_start = refl;
  heartbeat = refl;
  attempts = refl;
  final = refl;
}

sandbox_options-IsSandboxOptions : (s : Settings) → IsSandboxOptions s (sandbox_options s)
sandbox_options-IsSandboxOptions s = record {
  start_to_close = refl;
  schedule_to_start = refl;
  heartbeat = refl;
  attempts = refl;
  final = refl;
}

sandbox_args-IsOwn : (inp : RunInput) (code : Text) → IsOwn inp (sandbox_args inp code)
sandbox_args-IsOwn inp code = record {
  run_id = refl;
  tenant_id = refl;
  limits = refl;
  runtime = refl;
}

-- Every activity that a run asks for has as its argument what the input and the activities before it
-- say: the sandbox step has the run's own id, tenant, limits and runtime, and the code. Each has the
-- times, the heartbeat, the number of attempts and the final errors that the settings and the policy of
-- its kind say; and `summarize` is asked for only when the outcome is ok.
pub commands-Follow :
    (s : Settings) (inp : RunInput) (h : History)
    → All (Follows s inp h) (run s inp h init).1.commands
unfolding run
commands-Follow s inp h =
    let agent = agent_options-IsAgentOptions s in
    let sandbox = sandbox_options-IsSandboxOptions s in
    let own = sandbox_args-IsOwn inp in ground (arith, agent, sandbox, own)

module _ (s : Settings) (inp : RunInput) where
  failed_at :
      (p : Plan) (c : Text) (r : SandboxResult) (y : Event Text) (res : RunResult)
      → is_ok r ≡ false
      → (at_events s inp (value p) (value c) (value r) y).0 ≡ returned res
      → Verdict inp (record { plan = value p; code = value c; sandbox = value r; summary = y }) res
  unfolding run Contracts.completed Contracts.failed
  failed_at p c r y res bad e =
      fails p c r _ refl refl refl bad (reason_kept r bad) (ground (arith, reason_kept r bad))

  Verdict-at :
      (p : Event Plan) (c : Event Text) (r : Event SandboxResult) (y : Event Text) (res : RunResult)
      → (at_events s inp p c r y).0 ≡ returned res
      → Verdict inp (record { plan = p; code = c; sandbox = r; summary = y }) res
  unfolding run Contracts.completed Contracts.failed
  Verdict-at pending c r y res e = absurd (ground arith)
  Verdict-at (failure x) c r y res e = absurd (ground arith)
  Verdict-at (value p) pending r y res e = absurd (ground arith)
  Verdict-at (value p) (failure x) r y res e = absurd (ground arith)
  Verdict-at (value p) (value c) pending y res e = absurd (ground arith)
  Verdict-at (value p) (value c) (failure x) y res e = absurd (ground arith)
  Verdict-at (value p) (value c) (value r) (value y) res e = elim (Bool-cases (is_ok r)) [
    | inl ok ↦ succeeds p c r y refl refl refl refl ok (ground arith)
    | inr bad ↦ failed_at p c r (value y) res bad e
  ]
  Verdict-at (value p) (value c) (value r) pending res e = elim (Bool-cases (is_ok r)) [
    | inl ok ↦ absurd (ground arith)
    | inr bad ↦ failed_at p c r pending res bad e
  ]
  Verdict-at (value p) (value c) (value r) (failure x) res e = elim (Bool-cases (is_ok r)) [
    | inl ok ↦ absurd (ground arith)
    | inr bad ↦ failed_at p c r (failure x) res bad e
  ]

  returned_at :
      (h : History) (res : RunResult) → Verdict inp h res → (run s inp h init).0 ≡ returned res
  unfolding run Contracts.completed Contracts.failed
  returned_at h res (succeeds p c r y hp hc hr hy ok e) = ground arith
  returned_at h res (fails p c r reason hp hc hr bad why e) = ground (arith, reason_kept r bad)

-- A run returns exactly the verdicts of its history: a completed result, with the code, the outcome
-- and the summary, if and only if all four activities have returned and the outcome is ok; and a failed
-- one, with the code, the outcome and its reason, if and only if the first three have returned and the
-- outcome is not ok, whatever is recorded of `summarize`.
pub run-returned_iff :
    (s : Settings) (inp : RunInput) (h : History) (r : RunResult)
    → ((run s inp h init).0 ≡ returned r) ↔ Verdict inp h r
run-returned_iff s inp h r =
    (Verdict-at s inp h.plan h.code h.sandbox h.summary r, returned_at s inp h r)
