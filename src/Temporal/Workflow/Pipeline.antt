-- ===== src/Temporal/Workflow/Pipeline.antt =====
-- The workflow with the activities that app/activities/agents.py and app/agents/pipeline.py define.
use temporal_agent_sandbox.Prelude.{
  Text, codes, starts_with, none, some, true, false, ◌≡◌, ◌⊎◌, inl, inr, refl, sym, ap, ◌∙◌, All,
  Bool-cases,
}
use temporal_agent_sandbox.Prelude.Methods.{Unicode}
use temporal_agent_sandbox.Contracts.{
  RunInput, Plan, SandboxResult, RunResult, is_ok, failure_reason,
}
use temporal_agent_sandbox.Config.{Settings}
use temporal_agent_sandbox.Agents.Pipeline
use temporal_agent_sandbox.Agents.Pipeline.Summary.{summarize_verdict}
use temporal_agent_sandbox.Temporal.Workflow.{
  Event, pending, value, failure, exception, cancelled, plan, generate_code, run_sandbox, summarize,
  Command, History, init, returned, run,
}
use temporal_agent_sandbox.Temporal.Workflow.Outcome.{Verdict, succeeds, fails, run-returned_iff}

abbrev Recorded : {A : Type 0} → Event A → (A → Type 0) → Type 0
Recorded (value a) P = P a
Recorded _ P = Unit

-- What is recorded of an agent step that a run asks for is what the function of its activity returns for
-- the argument that the run gives.
abbrev pub Performed : Unicode → History → Command → Type 0
Performed u h c = elim c.activity [
  | plan task ↦ Recorded h.plan (λ p. p ≡ Pipeline.plan u task)
  | generate_code p ↦ Recorded h.code (λ code. Pipeline.generate_code p ≡ some code)
  | run_sandbox _ ↦ Unit
  | summarize args ↦ Recorded h.summary (λ y. y ≡ Pipeline.summarize args)
]

abbrev pub Performs : Unicode → Settings → RunInput → History → Type 0
Performs u s inp h = All (Performed u h) (run s inp h init).1.commands

-- The result of a run, told by its task and by the sandbox's outcome.
pub record Concludes (u : Unicode) (inp : RunInput) (h : History) (r : RunResult) : Type 0 where
  pub same_run : r.run_id ≡ inp.run_id
  pub code : r.code ≡ Pipeline.generate_code (Pipeline.plan u inp.task)
  pub outcome :
      (sbx : SandboxResult) × (h.sandbox ≡ value sbx)
      × (r.sandbox ≡ some sbx)
      × (((is_ok sbx ≡ true)
            × (r.status ≡ codes "completed")
            × (r.failure_reason ≡ none)
            × ((y : Text) × (r.summary ≡ some y)
                × (y
                    ≡ Pipeline.summarize
                        (record { plan = Pipeline.plan u inp.task; sandbox = sbx }))
                × (starts_with y (codes "Run completed") ≡ true)))
          ⊎ ((is_ok sbx ≡ false)
              × (r.status ≡ codes "failed")
              × (r.failure_reason ≡ failure_reason sbx)
              × (r.summary ≡ none)))

module _ (u : Unicode) (s : Settings) (inp : RunInput) (h : History)
    (done : Performs u s inp h) where
  first_two :
      (p : Plan) (c : Text) (sbx : SandboxResult) (end : Event Text)
      → h.plan ≡ value p
      → h.code ≡ value c
      → h.sandbox ≡ value sbx
      → h.summary ≡ end
      → is_ok sbx ≡ true
      → (p ≡ Pipeline.plan u inp.task) × (Pipeline.generate_code p ≡ some c)
  unfolding run
  first_two p c sbx (value y) hp hc hs hy good =
      let all = rw (hp, hc, hs, hy, good) at done in (all.0, all.1.0)
  first_two p c sbx pending hp hc hs hy good =
      let all = rw (hp, hc, hs, hy, good) at done in (all.0, all.1.0)
  first_two p c sbx (failure (exception x)) hp hc hs hy good =
      let all = rw (hp, hc, hs, hy, good) at done in (all.0, all.1.0)
  first_two p c sbx (failure cancelled) hp hc hs hy good =
      let all = rw (hp, hc, hs, hy, good) at done in (all.0, all.1.0)

  -- The commands of a run whose first three activities have returned are those of its task.
  pub code_of_task :
      (p : Plan) (c : Text) (sbx : SandboxResult)
      → h.plan ≡ value p
      → h.code ≡ value c
      → h.sandbox ≡ value sbx
      → (p ≡ Pipeline.plan u inp.task) × (Pipeline.generate_code p ≡ some c)
  unfolding run
  code_of_task p c sbx hp hc hs = elim (Bool-cases (is_ok sbx)) [
    | inl good ↦ first_two p c sbx h.summary hp hc hs refl good
    | inr bad ↦ let all = rw (hp, hc, hs, bad) at done in (all.0, all.1.0)
  ]

  summary_of_task :
      (p : Plan) (c : Text) (sbx : SandboxResult) (y : Text)
      → h.plan ≡ value p
      → h.code ≡ value c
      → h.sandbox ≡ value sbx
      → h.summary ≡ value y
      → is_ok sbx ≡ true
      → y ≡ Pipeline.summarize (record { plan = p; sandbox = sbx })
  unfolding run
  summary_of_task p c sbx y hp hc hs hy good =
      let all = rw (hp, hc, hs, hy, good) at done in all.1.1.1.0

  written :
      (p : Plan) (c : Text)
      → p ≡ Pipeline.plan u inp.task
      → Pipeline.generate_code p ≡ some c
      → some c ≡ Pipeline.generate_code (Pipeline.plan u inp.task)
  written p c planned coded = sym coded ∙ ap Pipeline.generate_code planned

  concluded : (r : RunResult) → Verdict inp h r → Concludes u inp h r
  concluded r (succeeds p c sbx y hp hc hs hy good e) =
      let (planned, coded) = code_of_task p c sbx hp hc hs in
      let told : y
          ≡ Pipeline.summarize (record { plan = Pipeline.plan u inp.task; sandbox = sbx }) =
        summary_of_task p c sbx y hp hc hs hy good
        ∙ ap (λ q. Pipeline.summarize (record { plan = q; sandbox = sbx })) planned in
      let first : starts_with y (codes "Run completed") ≡ true =
        ap (λ t. starts_with t (codes "Run completed")) told
        ∙ summarize_verdict (record { plan = Pipeline.plan u inp.task; sandbox = sbx })
        ∙ good in
      rw e (record {
        same_run = refl;
        code = written p c planned coded;
        outcome = (sbx, hs, refl, inl (good, refl, refl, (y, refl, told, first)));
      })
  concluded r (fails p c sbx reason hp hc hs bad why e) =
      let (planned, coded) = code_of_task p c sbx hp hc hs in
      rw e (record {
        same_run = refl;
        code = written p c planned coded;
        outcome = (sbx, hs, refl, inr (bad, refl, sym why, refl));
      })

-- If what is recorded of each agent step that a run asks for is what the program returns for the argument
-- that the run gives, the run returns a result that its task and the sandbox's outcome determine: the
-- code is the program generated for the task; if the outcome is ok, it is completed with the summary of
-- the task's plan and the outcome, which begins with "Run completed"; and else it is failed with the
-- reason of the outcome and no summary.
pub run-Concludes :
    (u : Unicode) (s : Settings) (inp : RunInput) (h : History) (r : RunResult)
    → Performs u s inp h
    → (run s inp h init).0 ≡ returned r
    → Concludes u inp h r
run-Concludes u s inp h r done e = concluded u s inp h done r ((run-returned_iff s inp h r).0 e)
