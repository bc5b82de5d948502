-- ===== src/Activities/Sandbox/Spared.antt =====
-- The containers that an attempt of `run_sandbox` leaves alone.
use temporal_agent_sandbox.Prelude.{
  ℕ, ◌≤◌, Text, length, take, ◌≡◌, ◌≢◌, ◌⊎◌, inl, inr, sym, All, All-append,
}
use temporal_agent_sandbox.Prelude.Utf8.{Bytes, encode}
use temporal_agent_sandbox.Prelude.Methods.{Unicode}
use temporal_agent_sandbox.Contracts.{RunSandboxArgs}
use temporal_agent_sandbox.Config.{Settings}
use temporal_agent_sandbox.Sandbox.Gvisor.Launch.{container_name}
use temporal_agent_sandbox.Sandbox.Gvisor.Launch.Names.{container_name-injective}
use temporal_agent_sandbox.Sandbox.Gvisor.Loop.{Effect, remove}
use temporal_agent_sandbox.Sandbox.Gvisor.Run
use temporal_agent_sandbox.Sandbox.Gvisor.Run.Teardown.{run-All}
use temporal_agent_sandbox.Sandbox.Gvisor.Staging.{staging}
use temporal_agent_sandbox.Activities.Sandbox.{Attempt, run_sandbox}
use temporal_agent_sandbox.Activities.Sandbox.Effects.{run_sandbox_lem}

remove-injective : (x y : Text) → remove x ≡ remove y → x ≡ y
remove-injective x y e = cc

-- It is another attempt, or another run by the digits of the hash in a container's name.
abbrev pub IsOther : (Bytes → Text) → Text → ℕ → Text → ℕ → Type 0
IsOther sha1 run_id attempt other n =
    (n ≢ attempt) ⊎ (take 16 (sha1 (encode other)) ≢ take 16 (sha1 (encode run_id)))

module _ (sha1 : Bytes → Text) (long : (b : Bytes) → 16 ≤ length (sha1 b)) where
  other_name :
      (run_id other : Text) (attempt n : ℕ)
      → IsOther sha1 run_id attempt other n
      → container_name sha1 run_id attempt ≢ container_name sha1 other n
  other_name run_id other attempt n (inl h) e =
      h (sym (container_name-injective sha1 run_id other attempt n long e).1)
  other_name run_id other attempt n (inr h) e =
      h (sym (container_name-injective sha1 run_id other attempt n long e).0)

  -- An attempt never removes the container of another attempt, nor that of a run whose hash begins with
  -- other digits: not on a timeout, not on a cancellation, and not on an error. The hash has at least 16
  -- digits.
  pub run_sandbox-Spares :
      (u : Unicode) (s : Settings) (args : RunSandboxArgs) (attempt : ℕ) (a : Attempt)
      (other : Text) (n : ℕ)
      → IsOther sha1 args.run_id attempt other n
      → All (λ e. e ≢ remove (container_name sha1 other n)) (run_sandbox u s sha1 args attempt a).1
  unfolding staging Run.kill
  run_sandbox-Spares u s args attempt a other n h =
      let P : Effect → Type 0 = λ e. e ≢ remove (container_name sha1 other n) in
      let own : P (remove (container_name sha1 args.run_id attempt)) =
        λ e. other_name args.run_id other attempt n h (remove-injective _ _ e) in
      run_sandbox_lem u s sha1 args attempt (All P) tt (λ es k. All-append P es _ k (own, tt)) a
        (run-All u s sha1 args.runtime args attempt P a.world
          ((λ e. cc), ((λ e. cc), ((λ e. cc), ((λ e. cc), ((λ e. cc), ((λ e. cc), tt)))))) (λ e. cc)
          (λ ms e. cc) own (λ e. cc))
