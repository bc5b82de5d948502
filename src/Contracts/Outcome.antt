-- ===== src/Contracts/Outcome.antt =====
-- The classification of a sandbox outcome by `ok` and `failure_reason`.
use mathlib.Core.Path.{subst}
use temporal_agent_sandbox.Prelude.{
  ne_of_test, refl, Bool-cases, int_eq, ℤ, pos, Text, codes, ◌≡◌, ◌≢◌, ◌↔◌, none, some, true, false,
  ◌++◌, str_int, str_int-injective, arith, ap, ◌⊎◌, inl, inr, ◌==◌,
}
use temporal_agent_sandbox.Contracts.{SandboxResult, is_ok, failure_reason}

-- The three conditions of success, spelled out.
pub is_ok_iff :
    (r : SandboxResult)
    → (is_ok r ≡ true)
      ↔ ((r.exit_code ≡ pos 0) × (r.oom_killed ≡ false) × (r.wall_clock_exceeded ≡ false))
unfolding is_ok
is_ok_iff r = ground arith

-- There is a failure reason exactly when the outcome is not ok.
pub failure_reason-none_iff : (r : SandboxResult) → (failure_reason r ≡ none) ↔ (is_ok r ≡ true)
unfolding failure_reason
failure_reason-none_iff r = ground arith

-- Why a run failed, independently of the text.
pub data Cause : Type 0 where
  wall_clock oom : Cause
  exit : ℤ → Cause

abbrev pub text_of_cause : Cause → Text
text_of_cause wall_clock = codes "wall_clock_exceeded"
text_of_cause oom = codes "oom_killed"
text_of_cause (exit c) = codes "nonzero_exit:" ++ str_int c

cancel_exit : (s t : Text) → codes "nonzero_exit:" ++ s ≡ codes "nonzero_exit:" ++ t → s ≡ t
unfolding codes
cancel_exit s t e = cc

-- Different causes have different texts: a stored reason tells what happened, the exit code included.
pub text_of_cause-injective : (a b : Cause) → text_of_cause a ≡ text_of_cause b → a ≡ b
unfolding codes ◌==◌
text_of_cause-injective (exit c) (exit d) e = ap exit (str_int-injective c d (cancel_exit _ _ e))
text_of_cause-injective (exit c) wall_clock e = absurd (ne_of_test _ _ refl e)
text_of_cause-injective (exit c) oom e = absurd (ne_of_test _ _ refl e)
text_of_cause-injective wall_clock wall_clock e = refl
text_of_cause-injective wall_clock oom e = absurd (ne_of_test _ _ refl e)
text_of_cause-injective wall_clock (exit d) e = absurd (ne_of_test _ _ refl e)
text_of_cause-injective oom oom e = refl
text_of_cause-injective oom wall_clock e = absurd (ne_of_test _ _ refl e)
text_of_cause-injective oom (exit d) e = absurd (ne_of_test _ _ refl e)

-- The cause of a failure: the wall clock goes before the memory, the memory before the exit code.
abbrev pub IsCause : SandboxResult → Cause → Type 0
IsCause r wall_clock = r.wall_clock_exceeded ≡ true
IsCause r oom = (r.wall_clock_exceeded ≡ false) × (r.oom_killed ≡ true)
IsCause r (exit c) =
    (r.wall_clock_exceeded ≡ false) × (r.oom_killed ≡ false) × (r.exit_code ≡ c) × (c ≢ pos 0)

reason_of_IsCause :
    (r : SandboxResult) (c : Cause) → IsCause r c → failure_reason r ≡ some (text_of_cause c)
unfolding failure_reason is_ok
reason_of_IsCause r wall_clock h = ground arith
reason_of_IsCause r oom h = ground arith
reason_of_IsCause r (exit c) h = ground arith

some_cause : (r : SandboxResult) → (failure_reason r ≡ none) ⊎ ((c : Cause) × IsCause r c)
unfolding failure_reason is_ok
some_cause r = elim (Bool-cases r.wall_clock_exceeded) [
  | inl late ↦ inr (wall_clock, late)
  | inr in_time ↦ elim (Bool-cases r.oom_killed) [
    | inl killed ↦ inr (oom, (in_time, killed))
    | inr alive ↦ elim (Bool-cases (int_eq r.exit_code 0)) [
      | inl zero_exit ↦ inl (ground arith)
      | inr bad_exit ↦ inr (exit r.exit_code, (in_time, alive, refl, λ e. ground arith))
    ]
  ]
]

-- `failure_reason` is the text of a cause exactly when that is the cause of the failure: no two
-- outcomes with different causes share a reason.
pub failure_reason_iff :
    (r : SandboxResult) (c : Cause) → (failure_reason r ≡ some (text_of_cause c)) ↔ IsCause r c
failure_reason_iff r c = (
  λ e. elim (some_cause r) [
    | inl ok ↦ absurd (cc (ok, e))
    | inr (d, h) ↦
        let same : text_of_cause d ≡ text_of_cause c = cc (e, reason_of_IsCause r d h) in
        subst (IsCause r) (text_of_cause-injective d c same) h
  ],
  reason_of_IsCause r c,
)
