-- ===== src/Config.antt =====
-- app/config.py: the settings, as the values that `get_settings` has read from the environment. The
-- float `sandbox_cpus` is its printed text, as in `ResourceLimits`.
pub mod Cached
use temporal_agent_sandbox.Prelude.{ℕ, Text, codes, Bool, false, Option, none, some, List, [], ◌∷◌}
use temporal_agent_sandbox.Contracts.{ResourceLimits}

pub record Settings : Type 0 where
  pub api_bearer_token : Text
  pub max_task_bytes : ℕ
  pub max_code_bytes : ℕ
  pub temporal_host : Text
  pub temporal_namespace : Text
  pub task_queue : Text
  pub workflow_run_timeout_s : ℕ
  pub agent_start_to_close_s : ℕ
  pub sandbox_start_to_close_s : ℕ
  pub sandbox_heartbeat_s : ℕ
  pub schedule_to_start_s : ℕ
  pub max_attempts : ℕ
  pub sandbox_runtime : Text
  pub sandbox_image : Text
  pub sandbox_cpus : Text
  pub sandbox_memory_mb : ℕ
  pub sandbox_pids : ℕ
  pub sandbox_wall_clock_s : ℕ
  pub sandbox_output_max_bytes : ℕ
  pub sandbox_tmpfs_mb : ℕ
  pub sandbox_nofile : ℕ
  pub sandbox_seccomp_path : Text
  pub sandbox_share_dir : Text
  pub otel_exporter_otlp_endpoint : Text
  pub otel_service_name : Text
  pub trace_payloads : Bool
  pub log_level : Text

-- the values where the environment sets none
abbrev pub defaults : Settings
defaults = record {
  api_bearer_token = codes "dev-token-change-me";
  max_task_bytes = 8_192;
  max_code_bytes = 262_144;
  temporal_host = codes "temporal:7233";
  temporal_namespace = codes "default";
  task_queue = codes "agent-pipeline";
  workflow_run_timeout_s = 300;
  agent_start_to_close_s = 10;
  sandbox_start_to_close_s = 60;
  sandbox_heartbeat_s = 10;
  schedule_to_start_s = 30;
  max_attempts = 3;
  sandbox_runtime = codes "runsc";
  sandbox_image = codes "sandbox-runner:pinned";
  sandbox_cpus = codes "1.0";
  sandbox_memory_mb = 256;
  sandbox_pids = 128;
  sandbox_wall_clock_s = 30;
  sandbox_output_max_bytes = 1_048_576;
  sandbox_tmpfs_mb = 64;
  sandbox_nofile = 256;
  sandbox_seccomp_path = codes "";
  sandbox_share_dir = codes "";
  otel_exporter_otlp_endpoint = codes "http://otel-collector:4317";
  otel_service_name = codes "agent-sandbox";
  trace_payloads = false;
  log_level = codes "INFO";
}

unfoldable pub resource_limits : Settings → ResourceLimits
resource_limits s = record {
  cpus = s.sandbox_cpus;
  memory_mb = s.sandbox_memory_mb;
  pids = s.sandbox_pids;
  wall_clock_s = s.sandbox_wall_clock_s;
  output_max_bytes = s.sandbox_output_max_bytes;
  tmpfs_mb = s.sandbox_tmpfs_mb;
  nofile = s.sandbox_nofile;
}

-- `get_settings`, where `read` is `Settings()` on the environment of the moment, `none` if that raises,
-- and the cache of `lru_cache` holds the value of a call that has returned.
pub get_settings :
    {E : Type 0} → (E → Option Settings) → E → Option Settings → Option Settings × Option Settings
get_settings read env (some s) = (some s, some s)
get_settings read env none = (read env, read env)

-- the calls of one process, in order
pub calls : {E : Type 0} → (E → Option Settings) → Option Settings → List E → List (Option Settings)
unfolding get_settings
calls read cache [] = []
calls read cache (env ∷ envs) =
    let (s, cache') = get_settings read env cache in s ∷ calls read cache' envs
