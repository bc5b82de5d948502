-- ===== src/Sandbox/Gvisor/Run/Launches.antt =====
-- How many containers `run` launches.
use temporal_agent_sandbox.Prelude.{
  ℕ, ◌+◌, ◌≤◌, none, some, List, [], ◌∷◌, ◌++◌, ◌≡◌, inl, inr, refl, arith, All, All-append,
  All-take, Option-cases,
}
use temporal_agent_sandbox.Prelude.Utf8.{Bytes}
use temporal_agent_sandbox.Prelude.Methods.{Unicode}
use temporal_agent_sandbox.Contracts.{RunSandboxArgs, SandboxResult}
use temporal_agent_sandbox.Config.{Settings}
use temporal_agent_sandbox.Sandbox.Runner.{Error, ok}
use temporal_agent_sandbox.Prelude.{Text}
use temporal_agent_sandbox.Sandbox.Gvisor.Loop.{Effect, launch, loop, micros}
use temporal_agent_sandbox.Sandbox.Gvisor.Staging.{staging}
use temporal_agent_sandbox.Sandbox.Gvisor.Staging.Disk.{closed-All}
use temporal_agent_sandbox.Sandbox.Gvisor.Staging.Launches.{NoLaunch, staging-NoLaunch}
use temporal_agent_sandbox.Sandbox.Gvisor.Run.{World, settle, run}
use temporal_agent_sandbox.Sandbox.Gvisor.Run.Teardown.{All-loop, closing-All, settle-All}

abbrev starts : Effect → ℕ
starts (launch _) = 1
starts _ = 0

-- the containers that are launched
unfoldable pub launches : List Effect → ℕ
launches [] = 0
launches (e ∷ es) = starts e + launches es

pub launches-append : (es fs : List Effect) → launches (es ++ fs) ≡ launches es + launches fs
unfolding launches
launches-append [] fs = omega arith
launches-append (e ∷ es) fs = omega (arith, launches-append es fs)

starts-NoLaunch : (e : Effect) → NoLaunch e → starts e ≡ 0
starts-NoLaunch e h = grind arith

launches-NoLaunch : (es : List Effect) → All NoLaunch es → launches es ≡ 0
unfolding launches
launches-NoLaunch [] h = refl
launches-NoLaunch (e ∷ es) (p, h) = omega (arith, starts-NoLaunch e p, launches-NoLaunch es h)

launches-one :
    (es : List Effect) (argv : List Text) (fs : List Effect)
    → All NoLaunch es
    → All NoLaunch fs
    → launches (es ++ launch argv ∷ fs) ≡ 1
unfolding launches
launches-one es argv fs h k =
    omega
      (arith, launches-append es (launch argv ∷ fs), launches-NoLaunch es h, launches-NoLaunch fs k)

module _ (u : Unicode) (s : Settings) (sha1 : Bytes → Text) (runtime : Text) (args : RunSandboxArgs)
    (attempt : ℕ) (w : World) where
  launches-run_faulty :
      (fault : ℕ × Error)
      → w.start_fault ≡ some fault
      → launches (run u s sha1 runtime args attempt w).1 ≡ 0
  unfolding run
  launches-run_faulty (steps, e) started = rw started (
      launches-NoLaunch _
        (closed-All NoLaunch w.tmp tt _ (All-take NoLaunch steps _ (staging-NoLaunch args w.tmp))))

  launches-run_started : w.start_fault ≡ none → launches (run u s sha1 runtime args attempt w).1 ≡ 1
  unfolding run
  launches-run_started started =
      let ending = (loop (micros args.limits.wall_clock_s) w.ticks).0 in
      rw started (
        launches-one (staging args w.tmp) _ _ (staging-NoLaunch args w.tmp) (
          All-append NoLaunch _ _ (All-loop NoLaunch (λ _. tt) _ w.ticks) (
            All-append NoLaunch _ _ (settle-All u s sha1 runtime args attempt NoLaunch tt w ending)
              (closing-All NoLaunch w.tmp tt (settle u s sha1 runtime args attempt w ending).0))))

  pub launches-run : launches (run u s sha1 runtime args attempt w).1 ≤ 1
  launches-run = elim (Option-cases w.start_fault) [
    | inr (fault, started) ↦ omega (arith, launches-run_faulty fault started)
    | inl started ↦ omega (arith, launches-run_started started)
  ]

  -- A run with a result has launched its container.
  pub launches-run_ok :
      (r : SandboxResult)
      → (run u s sha1 runtime args attempt w).0 ≡ some (ok r)
      → launches (run u s sha1 runtime args attempt w).1 ≡ 1
  unfolding run
  launches-run_ok r e = elim (Option-cases w.start_fault) [
    | inr (fault, started) ↦ absurd (ground arith)
    | inl started ↦ launches-run_started started
  ]
