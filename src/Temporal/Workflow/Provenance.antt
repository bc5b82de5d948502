-- ===== src/Temporal/Workflow/Provenance.antt =====
-- From the result of a run back to the execution in a sandbox that it tells of: app/temporal/workflows.py
-- with app/activities/sandbox.py and app/sandbox/gvisor.py.
use mathlib.Core.Path.{subst}
use temporal_agent_sandbox.Prelude.{
  ◌+◌, ◌<◌, ◌≤◌, pos, Text, codes, starts_with, length, length-append, some, true, false, List, [],
  ◌∷◌, ◌++◌, ◌≡◌, ◌≢◌, ◌⊎◌, inl, inr, sym, ap, ◌∙◌, arith, All,
}
use temporal_agent_sandbox.Prelude.Utf8.{Bytes}
use temporal_agent_sandbox.Prelude.Methods.{Unicode}
use temporal_agent_sandbox.Contracts.{RunInput, Plan, SandboxResult, RunResult}
use temporal_agent_sandbox.Config.{Settings}
use temporal_agent_sandbox.Agents.Pipeline
use temporal_agent_sandbox.Sandbox.Gvisor.Run.Launches.{launches, launches-run_ok}
use temporal_agent_sandbox.Sandbox.Gvisor.Run.Outcome.{Reports, run-Reports}
use temporal_agent_sandbox.Sandbox.Gvisor.Run.Judged.{is_ok-Reports, not_ok-Reports}
use temporal_agent_sandbox.Sandbox.Gvisor.Run.Teardown.{IsContained}
use temporal_agent_sandbox.Sandbox.Gvisor.Staging.Disk.{Disk, AtLaunch, IsReady}
use temporal_agent_sandbox.Activities.Sandbox
use temporal_agent_sandbox.Activities.Sandbox.{Attempt, preflight, returned}
use temporal_agent_sandbox.Activities.Sandbox.Returned.{IsRun, IsHad, IsRun-IsHad}
use temporal_agent_sandbox.Activities.Sandbox.Attempts.{Tried, Tried-Bounded, returned-Last}
use temporal_agent_sandbox.Temporal.Workflow
use temporal_agent_sandbox.Temporal.Workflow.{value, History, init, run, sandbox_args}
use temporal_agent_sandbox.Temporal.Workflow.Outcome.{Verdict, succeeds, fails, run-returned_iff}
use temporal_agent_sandbox.Temporal.Workflow.Pipeline.{Performs, code_of_task}
use temporal_agent_sandbox.Temporal.Workflow.Sandboxed.{attempt-IsContained, attempt-AtLaunch}

-- How a run ends, by the end of its container: completed if that has exited with 0, and else failed.
abbrev pub Ends : Text → SandboxResult → Attempt → Type 0
Ends status sbx a =
    ((status ≡ codes "completed") × (sbx.wall_clock_exceeded ≡ false) × (a.world.exit ≡ pos 0))
    ⊎ ((status ≡ codes "failed") × ((sbx.wall_clock_exceeded ≡ true) ⊎ (a.world.exit ≢ pos 0)))

-- The execution behind a result: the code is the program for the task, and the outcome is that of the
-- last of at most so many attempts, which launched one container, contained, with the code in its file
-- on the disk as it is then.
pub record IsExecuted (u : Unicode) (s : Settings) (sha1 : Bytes → Text) (inp : RunInput)
    (tries : List Attempt) (r : RunResult) (d : Disk) : Type 0 where
  pub code : Text
  pub sbx : SandboxResult
  pub before : List Attempt
  pub a : Attempt
  pub written : Pipeline.generate_code (Pipeline.plan u inp.task) ≡ some code
  pub same_code : r.code ≡ some code
  pub outcome : r.sandbox ≡ some sbx
  pub last : tries ≡ before ++ a ∷ []
  pub few : length tries ≤ s.max_attempts
  pub had : IsHad inp.sandbox_runtime a
  pub launched :
      launches (Sandbox.run_sandbox u s sha1 (sandbox_args inp code) (length tries) a).1 ≡ 1
  pub contained :
      All
        (IsContained u s sha1 inp.sandbox_runtime (sandbox_args inp code) (length tries) a.world)
        (Sandbox.run_sandbox u s sha1 (sandbox_args inp code) (length tries) a).1
  pub staged :
      AtLaunch
        (IsReady (sandbox_args inp code) a.world.tmp)
        (Sandbox.run_sandbox u s sha1 (sandbox_args inp code) (length tries) a).1
        d
  pub reports : Reports inp.sandbox_runtime (sandbox_args inp code) a.world sbx
  pub ending : Ends r.status sbx a

module _ (u : Unicode) (s : Settings) (sha1 : Bytes → Text) where
  -- A recorded outcome of the sandbox step is the end of the attempts.
  abbrev pub IsTried : RunInput → History → List Attempt → Type 0
  IsTried inp h tries =
      (code : Text) (sbx : SandboxResult)
      → h.code ≡ value code
      → h.sandbox ≡ value sbx
      → Tried u s sha1 (sandbox_args inp code) 1 tries (some (returned sbx))

  module _ (inp : RunInput) (h : History) (tries : List Attempt)
      (image : starts_with s.sandbox_image (codes "-") ≡ false) (some_allowed : 0 < s.max_attempts)
      (done : Performs u s inp h) (d : Disk) where
    -- a run that has come to the end of its sandbox step
    executed :
        (p : Plan) (code : Text) (sbx : SandboxResult) (r : RunResult)
        → h.plan ≡ value p
        → h.code ≡ value code
        → h.sandbox ≡ value sbx
        → r.code ≡ some code
        → r.sandbox ≡ some sbx
        → Tried u s sha1 (sandbox_args inp code) 1 tries (some (returned sbx))
        → ((a : Attempt)
            → Reports inp.sandbox_runtime (sandbox_args inp code) a.world sbx
            → Ends r.status sbx a)
        → IsExecuted u s sha1 inp tries r d
    executed p code sbx r hp hc hs same_code outcome t ends =
        let (planned, coded) = code_of_task u s inp h done p code sbx hp hc hs in
        let args = sandbox_args inp code in
        let (before, a, last, ran) = returned-Last u s sha1 args 1 tries sbx t in
        let number : 1 + length before ≡ length tries =
          omega (arith, ap length last, length-append before (a ∷ [])) in
        let here = subst (λ i. IsRun u s sha1 args i a sbx) number ran in
        let told =
          run-Reports u s sha1 inp.sandbox_runtime args (length tries) a.world sbx here.ran in
        record {
          code = code;
          sbx = sbx;
          before = before;
          a = a;
          written = sym (ap Pipeline.generate_code planned) ∙ coded;
          same_code = same_code;
          outcome = outcome;
          last = last;
          few = (Tried-Bounded u s sha1 args tries _ some_allowed t).1;
          had = IsRun-IsHad u s sha1 args (length tries) a sbx here;
          launched =
              ap launches here.does
              ∙ launches-run_ok u s sha1 inp.sandbox_runtime args (length tries) a.world sbx
                  here.ran;
          contained = attempt-IsContained u s sha1 args (length tries) a image;
          staged = attempt-AtLaunch u s sha1 args (length tries) a d;
          reports = told;
          ending = ends a told;
        }

    pub Verdict-IsExecuted :
        (r : RunResult) → IsTried inp h tries → Verdict inp h r → IsExecuted u s sha1 inp tries r d
    Verdict-IsExecuted r tried (succeeds p code sbx y hp hc hs hy good e) =
        executed p code sbx r hp hc hs (ap (λ x. x.code) e) (ap (λ x. x.sandbox) e)
          (tried code sbx hc hs)
          (λ a told.
            let (in_time, exit) = is_ok-Reports inp.sandbox_runtime _ a.world sbx told good in
            inl (ap (λ x. x.status) e, in_time, exit))
    Verdict-IsExecuted r tried (fails p code sbx reason hp hc hs bad why e) =
        executed p code sbx r hp hc hs (ap (λ x. x.code) e) (ap (λ x. x.sandbox) e)
          (tried code sbx hc hs)
          (λ a told.
            inr (ap (λ x. x.status) e, not_ok-Reports inp.sandbox_runtime _ a.world sbx told bad))

-- If what is recorded of each agent step that a run asks for is what the program returns for the argument
-- that the run gives, and the sandbox step is a series of attempts by Temporal's documented retrying, then behind each result of a run there is an execution: the code of the result is
-- the program generated for the task, and the outcome is that of the last of at most `max_attempts`
-- attempts, at a runtime that can be had, which launched exactly one container, isolated and with that
-- code in its file, and reports how it ended. The run is completed if and only if the wall clock has
-- not stopped it and the exit code is 0, and else failed. This holds for settings that
-- allow an attempt and name an image that does not begin with a dash.
pub run-IsExecuted :
    (u : Unicode) (s : Settings) (sha1 : Bytes → Text) (inp : RunInput) (h : History)
    (tries : List Attempt) (r : RunResult) (d : Disk)
    → starts_with s.sandbox_image (codes "-") ≡ false
    → 0 < s.max_attempts
    → Performs u s inp h
    → IsTried u s sha1 inp h tries
    → (run s inp h init).0 ≡ Workflow.returned r
    → IsExecuted u s sha1 inp tries r d
run-IsExecuted u s sha1 inp h tries r d image some_allowed done tried e =
    Verdict-IsExecuted u s sha1 inp h tries image some_allowed done d r tried
      ((run-returned_iff s inp h r).0 e)
