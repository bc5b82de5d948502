-- ===== src/Temporal/Policies.antt =====
-- app/temporal/policies.py: retry policies and timeouts, in seconds.
use temporal_agent_sandbox.Prelude.{ℕ, Text, codes, List, [], ◌∷◌}
use temporal_agent_sandbox.Config.{Settings}

pub record RetryPolicy : Type 0 where
  pub initial_interval : ℕ
  pub backoff_coefficient : ℕ
  pub maximum_interval : ℕ
  pub maximum_attempts : ℕ
  pub non_retryable_error_types : List Text

module _ (s : Settings) where
  abbrev pub agent_retry : RetryPolicy
  agent_retry = record {
    initial_interval = 1;
    backoff_coefficient = 2;
    maximum_interval = 10;
    maximum_attempts = s.max_attempts;
    non_retryable_error_types = [];
  }

  abbrev pub sandbox_retry : RetryPolicy
  sandbox_retry = record {
    initial_interval = 1;
    backoff_coefficient = 2;
    maximum_interval = 20;
    maximum_attempts = s.max_attempts;
    non_retryable_error_types = codes "SandboxPolicyViolation" ∷ codes "PayloadTooLarge" ∷ [];
  }

  abbrev pub agent_start_to_close : ℕ
  agent_start_to_close = s.agent_start_to_close_s

  abbrev pub sandbox_start_to_close : ℕ
  sandbox_start_to_close = s.sandbox_start_to_close_s

  abbrev pub sandbox_heartbeat : ℕ
  sandbox_heartbeat = s.sandbox_heartbeat_s

  abbrev pub schedule_to_start : ℕ
  schedule_to_start = s.schedule_to_start_s

  abbrev pub workflow_run_timeout : ℕ
  workflow_run_timeout = s.workflow_run_timeout_s
