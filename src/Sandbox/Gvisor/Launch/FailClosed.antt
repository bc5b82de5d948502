-- ===== src/Sandbox/Gvisor/Launch/FailClosed.antt =====
-- The preflight check fails closed, and launch failures are told from exits of user code.
use temporal_agent_sandbox.Prelude.{
  ℤ, pos, int_eq, Text, codes, ◌==◌, ==_iff, ◌is_in◌, Option, true, not, ◌||◌, ◌++◌, ◌≡◌, ◌≢◌, ◌↔◌,
  ◌⊎◌, inl, inr, refl, arith, Any, Bool-cases, [], ◌∷◌,
}
use temporal_agent_sandbox.Prelude.Utf8.{Bytes, decode}
use temporal_agent_sandbox.Prelude.Methods.{Unicode, lower}
use temporal_agent_sandbox.Sandbox.Runner.{Result, ok, err, infra_error, policy_violation}
use temporal_agent_sandbox.Sandbox.Gvisor.Launch.{
  Subprocess, not_found, timed_out, exited, code_or_zero, answer_of, preflight, is_launch_rc,
  classify_infra, has_signature,
}

-- Docker has answered with success, and its list of runtimes names this one in quotes.
pub data Registered (runtime : Text) : Subprocess → Type 0 where
  listed :
      {rc : Option ℤ} {out errors : Bytes}
      → code_or_zero rc ≡ pos 0
      → (codes "\"" ++ (runtime ++ codes "\"")) is_in decode out ≡ true
      → Registered runtime (exited rc out errors)

preflight_listed :
    (runtime : Text) (info : Subprocess)
    → runtime ≢ codes "runc"
    → preflight runtime (ok info) ≡ ok tt
    → Registered runtime info
unfolding preflight
preflight_listed runtime not_found h e = absurd (ground (arith, ==_iff runtime (codes "runc")))
preflight_listed runtime timed_out h e = absurd (ground (arith, ==_iff runtime (codes "runc")))
preflight_listed runtime (exited rc out errors) h e =
    listed (ground (arith, ==_iff runtime (codes "runc")))
      (ground (arith, ==_iff runtime (codes "runc")))

listed_preflight :
    (runtime : Text) (info : Subprocess)
    → Registered runtime info
    → preflight runtime (ok info) ≡ ok tt
unfolding preflight
listed_preflight runtime info (listed e h) = ground arith

-- For any runtime but runc, which Docker always has, preflight passes exactly when Docker reports
-- the runtime as registered: not if the command line is missing, hangs or fails.
pub preflight_iff :
    (runtime : Text) (info : Subprocess)
    → runtime ≢ codes "runc"
    → (preflight runtime (ok info) ≡ ok tt) ↔ Registered runtime info
preflight_iff runtime info h = (preflight_listed runtime info h, listed_preflight runtime info)

-- A preflight that does not pass raises a policy violation.
pub preflight-cases :
    (runtime : Text) (info : Subprocess)
    → (preflight runtime (ok info) ≡ ok tt)
      ⊎ ((m : Text) × (preflight runtime (ok info) ≡ err (policy_violation m)))
unfolding preflight
preflight-cases runtime info = elim (Bool-cases (runtime == codes "runc")) [
  | inl default ↦ rw default (inl refl)
  | inr other ↦
      elim (Bool-cases (
        not (int_eq (answer_of info).0 0)
        || not ((codes "\"" ++ (runtime ++ codes "\"")) is_in decode (answer_of info).1))) [
          | inl missing ↦ rw (other, missing) (inr (_, refl))
          | inr present ↦ rw (other, present) (inl refl)
        ]
]

-- A launch failure: one of Docker's exit codes, and a launch signature in the lower-cased stderr.
pub record IsLaunchFailure (u : Unicode) (rc : ℤ) (err_text : Text) : Type 0 where
  pub code : (rc ≡ pos 125) ⊎ ((rc ≡ pos 126) ⊎ (rc ≡ pos 127))
  pub signature :
      Any
        (λ sig. sig is_in lower u err_text ≡ true)
        (codes "docker:"
          ∷ codes "error response from daemon"
          ∷ codes "oci runtime"
          ∷ codes "executable file not found"
          ∷ codes "unknown runtime"
          ∷ codes "no such image"
          ∷ codes "manifest unknown"
          ∷ [])

module _ (u : Unicode) (runtime : Text) (rc : ℤ) (err_text : Text) where
  abbrev Missing : Type 0
  Missing =
      (codes "unknown runtime" is_in lower u err_text ≡ true)
      ⊎ (runtime is_in lower u err_text ≡ true)

  -- The three ways to read an exit of `docker run`.
  pub data Classified : Result (Unit {0}) → Type 0 where
    user_exit : ¬ IsLaunchFailure u rc err_text → Classified (ok tt)
    unavailable :
        (message : Text)
        → IsLaunchFailure u rc err_text
        → Missing
        → Classified (err (policy_violation message))
    fault :
        (message : Text)
        → IsLaunchFailure u rc err_text
        → ¬ Missing
        → Classified (err (infra_error message))

  failure_of_tests :
      is_launch_rc rc ≡ true
      → has_signature (lower u err_text) ≡ true
      → IsLaunchFailure u rc err_text
  unfolding is_launch_rc has_signature
  failure_of_tests c s = record { code = ground arith; signature = ground arith }

  tests_of_failure :
      IsLaunchFailure u rc err_text
      → (is_launch_rc rc ≡ true) × (has_signature (lower u err_text) ≡ true)
  unfolding is_launch_rc has_signature
  tests_of_failure f = (ground (arith, f.code), ground (arith, f.signature))

  -- An exit passes exactly if it is no launch failure: its code is not 125, 126 or 127, or none of the
  -- seven signatures stands in its lower-cased stderr. A launch failure raises, also if it is an exit of
  -- user code that looks like one: for good if its text says "unknown runtime", or names the runtime at
  -- all, and else as a fault that is worth another try.
  pub classify_infra-Classified : Classified (classify_infra u runtime rc err_text)
  unfolding classify_infra
  classify_infra-Classified = elim (Bool-cases (is_launch_rc rc)) [
    | inr other ↦ rw other (user_exit (λ f. cc ((tests_of_failure f).0, other)))
    | inl launch ↦ elim (Bool-cases (has_signature (lower u err_text))) [
      | inr silent ↦ rw (launch, silent) (user_exit (λ f. cc ((tests_of_failure f).1, silent)))
      | inl signed ↦
          let failed = failure_of_tests launch signed in
          elim (Bool-cases (codes "unknown runtime" is_in lower u err_text)) [
            | inl unknown ↦ rw (launch, signed, unknown) (unavailable _ failed (inl unknown))
            | inr known ↦ elim (Bool-cases (runtime is_in lower u err_text)) [
              | inl named ↦ rw (launch, signed, known, named) (unavailable _ failed (inr named))
              | inr unnamed ↦ rw (launch, signed, known, unnamed) (fault _ failed (ground arith))
            ]
          ]
    ]
  ]

  pub classify_infra_of_user_exit :
      ¬ IsLaunchFailure u rc err_text → classify_infra u runtime rc err_text ≡ ok tt
  classify_infra_of_user_exit plain = passes classify_infra-Classified
    where
      passes : {r : Result (Unit {0})} → Classified r → r ≡ ok tt
      passes (user_exit _) = refl
      passes (unavailable _ f _) = absurd (plain f)
      passes (fault _ f _) = absurd (plain f)
