-- ===== src/Sandbox/Gvisor/Run/Judged.antt =====
-- `ok` of app/contracts.py on a result that reports an execution.
use temporal_agent_sandbox.Prelude.{
  ℤ, pos, negsuc, int_eq, Text, true, false, ◌≡◌, ◌≢◌, ◌⊎◌, inl, inr, refl, sym, ap, ◌∙◌, arith,
  Bool-cases,
}
use temporal_agent_sandbox.Contracts.{RunSandboxArgs, SandboxResult, is_ok}
use temporal_agent_sandbox.Sandbox.Gvisor.Run.{World}
use temporal_agent_sandbox.Sandbox.Gvisor.Run.Outcome.{Reports}

int_eq_zero : (i : ℤ) → int_eq i 0 ≡ true → i ≡ pos 0
int_eq_zero (pos m) e = ap pos (ground arith)
int_eq_zero (negsuc m) e = absurd (ground arith)

module _ (runtime : Text) (args : RunSandboxArgs) (w : World) (sbx : SandboxResult)
    (told : Reports runtime args w sbx) where
  pub is_ok-Reports : is_ok sbx ≡ true → (sbx.wall_clock_exceeded ≡ false) × (w.exit ≡ pos 0)
  unfolding is_ok
  is_ok-Reports good =
      let exit : int_eq sbx.exit_code 0 ≡ true = ground arith in
      elim told.ending [
        | inl (late, _, _, _) ↦ absurd (ground arith)
        | inr (in_time, code, _, _) ↦ (in_time, sym code ∙ int_eq_zero _ exit)
      ]

  zero_is_ok :
      sbx.wall_clock_exceeded ≡ false
      → sbx.exit_code ≡ w.exit
      → ((sbx.oom_killed ≡ true) → (w.exit ≡ pos 137))
      → w.exit ≡ pos 0
      → is_ok sbx ≡ true
  unfolding is_ok
  zero_is_ok in_time code memory e = elim (Bool-cases sbx.oom_killed) [
    | inl oom ↦ absurd (let both : pos 0 ≡ pos 137 = sym e ∙ memory oom in ground arith)
    | inr enough ↦ rw (code, e, enough, in_time) refl
  ]

  pub not_ok-Reports : is_ok sbx ≡ false → (sbx.wall_clock_exceeded ≡ true) ⊎ (w.exit ≢ pos 0)
  not_ok-Reports bad = elim told.ending [
    | inl (late, _, _, _) ↦ inl late
    | inr (in_time, code, memory, _) ↦
        inr (λ e. absurd (let good = zero_is_ok in_time code memory.0 e in ground arith))
  ]
