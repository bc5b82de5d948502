-- ===== src/Activities/Sandbox/Attempts.antt =====
-- The attempts that Temporal makes of one call of `run_sandbox`, and what they do together.
use mathlib.Core.Path.{subst}
use temporal_agent_sandbox.Prelude.{
  true, ℕ, suc, ◌+◌, ◌<◌, ◌≤◌, Text, length, Option, none, some, false, List, [], ◌∷◌, ◌++◌, ◌≡◌,
  ◌⊎◌, inl, inr, refl, ap, arith,
}
use temporal_agent_sandbox.Prelude.Utf8.{Bytes}
use temporal_agent_sandbox.Prelude.Methods.{Unicode}
use temporal_agent_sandbox.Contracts.{RunSandboxArgs, SandboxResult}
use temporal_agent_sandbox.Config.{Settings}
use temporal_agent_sandbox.Temporal.Policies.{RetryPolicy, sandbox_retry}
use temporal_agent_sandbox.Sandbox.Gvisor.Loop.{Effect}
use temporal_agent_sandbox.Sandbox.Gvisor.Run
use temporal_agent_sandbox.Sandbox.Gvisor.Run.{World, settle}
use temporal_agent_sandbox.Sandbox.Gvisor.Run.Launches.{launches, launches-append, launches-run}
use temporal_agent_sandbox.Activities.Sandbox.{
  Raised, Outcome, returned, raised, Attempt, run_sandbox,
}
use temporal_agent_sandbox.Activities.Sandbox.Effects.{run_sandbox_lem}
use temporal_agent_sandbox.Activities.Sandbox.Retry.{is_final}
use temporal_agent_sandbox.Activities.Sandbox.Returned.{IsRun, returned-IsRun}

-- By Temporal's documentation a policy allows an attempt behind so many if it has no limit, which is
-- 0, or a higher one.
abbrev AllowsMore : RetryPolicy → ℕ → Type 0
AllowsMore policy n = (policy.maximum_attempts ≡ 0) ⊎ (n < policy.maximum_attempts)

module _ (u : Unicode) (s : Settings) (sha1 : Bytes → Text) (args : RunSandboxArgs) where
  -- The attempts of an activity from a number on, and the end that Temporal records, if it does. The end
  -- of an attempt may be recorded as the last one. Another attempt follows only if the policy allows one,
  -- and behind an exception that is recorded and not final, or behind an attempt whose end, if it has one,
  -- is not reported in time, as when its worker is gone.
  pub data Tried : ℕ → List Attempt → Option Outcome → Type 0 where
    not_begun : {n : ℕ} → Tried n [] none
    unreported : {n : ℕ} {a : Attempt} → Tried n (a ∷ []) none
    ends :
        {n : ℕ} {a : Attempt} (o : Outcome)
        → (run_sandbox u s sha1 args n a).0 ≡ some o
        → Tried n (a ∷ []) (some o)
    again :
        {n : ℕ} {a : Attempt} {tries : List Attempt} {end : Option Outcome} (e : Raised)
        → (run_sandbox u s sha1 args n a).0 ≡ some (raised e)
        → is_final (sandbox_retry s) e ≡ false
        → AllowsMore (sandbox_retry s) n
        → Tried (suc n) tries end
        → Tried n (a ∷ tries) end
    lost :
        {n : ℕ} {a : Attempt} {tries : List Attempt} {end : Option Outcome}
        → AllowsMore (sandbox_retry s) n
        → Tried (suc n) tries end
        → Tried n (a ∷ tries) end

  -- all that the attempts do, from a number on
  pub effects_from : ℕ → List Attempt → List Effect
  effects_from n [] = []
  effects_from n (a ∷ tries) = (run_sandbox u s sha1 args n a).1 ++ effects_from (suc n) tries

  attempts_within :
      {n : ℕ} {tries : List Attempt} {end : Option Outcome}
      → 0 < s.max_attempts
      → n ≤ s.max_attempts
      → Tried n tries end
      → n + length tries ≤ suc s.max_attempts
  attempts_within pos le not_begun = omega arith
  attempts_within pos le unreported = omega arith
  attempts_within pos le (ends o e) = omega arith
  attempts_within pos le (again e r f (inl z) t) = absurd (omega arith)
  attempts_within pos le (again e r f (inr m) t) =
      omega (arith, attempts_within pos (omega arith) t)
  attempts_within pos le (lost (inl z) t) = absurd (omega arith)
  attempts_within pos le (lost (inr m) t) = omega (arith, attempts_within pos (omega arith) t)

  launches-run_sandbox : (n : ℕ) (a : Attempt) → launches (run_sandbox u s sha1 args n a).1 ≤ 1
  unfolding Run.kill launches
  launches-run_sandbox n a =
      run_sandbox_lem u s sha1 args n (λ es. launches es ≤ 1) (omega arith)
        (λ es h. omega (arith, launches-append es (Run.kill sha1 args.run_id n))) a
        (launches-run u s sha1 args.runtime args n a.world)

  launches-effects_from :
      (n : ℕ) (tries : List Attempt) → launches (effects_from n tries) ≤ length tries
  unfolding effects_from launches
  launches-effects_from n [] = omega arith
  launches-effects_from n (a ∷ tries) = omega (
    arith,
    launches-append (run_sandbox u s sha1 args n a).1 (effects_from (suc n) tries),
    launches-run_sandbox n a,
    launches-effects_from (suc n) tries,
  )

  -- However its attempts end, and whatever the world does in them, one call of the activity launches at
  -- most one container for each attempt, and makes no more attempts than the settings allow, if they
  -- allow one.
  pub Tried-Bounded :
      (tries : List Attempt) (end : Option Outcome)
      → 0 < s.max_attempts
      → Tried 1 tries end
      → (launches (effects_from 1 tries) ≤ length tries) × (length tries ≤ s.max_attempts)
  Tried-Bounded tries end some_allowed t =
      (launches-effects_from 1 tries, omega (arith, attempts_within some_allowed (omega arith) t))

  -- What is recorded of a call, if anything is, is an error that is not tried again.
  abbrev pub IsRefused : Option Outcome → Type 0
  IsRefused none = Unit
  IsRefused (some (returned _)) = ⊥
  IsRefused (some (raised e)) = is_final (sandbox_retry s) e ≡ true

  -- The last attempt is one that returns a result.
  abbrev pub Last : ℕ → List Attempt → SandboxResult → Type 0
  Last n tries r =
      (before : List Attempt) × (a : Attempt) × (tries ≡ before ++ a ∷ [])
      × IsRun u s sha1 args (n + length before) a r

  Last-more :
      (n : ℕ) (a : Attempt) (tries : List Attempt) (r : SandboxResult)
      → Last (suc n) tries r
      → Last n (a ∷ tries) r
  Last-more n a tries r (before, b, e, ran) =
      let same : suc n + length before ≡ n + length (a ∷ before) = omega arith in
      (a ∷ before, b, ap (λ l. a ∷ l) e, subst (λ i. IsRun u s sha1 args i b r) same ran)

  -- The attempt that returns a result is the last one.
  pub returned-Last :
      (n : ℕ) (tries : List Attempt) (r : SandboxResult)
      → Tried n tries (some (returned r))
      → Last n tries r
  returned-Last n _ r (ends {a = a} _ e) =
      let same : n ≡ n + 0 = omega arith in
      (
        [],
        a,
        refl,
        subst (λ i. IsRun u s sha1 args i a r) same (returned-IsRun u s sha1 args n a r e),
      )
  returned-Last n _ r (again {a = a} {tries = tries} e x f more t) =
      Last-more n a tries r (returned-Last (suc n) tries r t)
  returned-Last n _ r (lost {a = a} {tries = tries} more t) =
      Last-more n a tries r (returned-Last (suc n) tries r t)
