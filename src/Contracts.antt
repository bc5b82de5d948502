-- ===== src/Contracts.antt =====
-- app/contracts.py: the dataclasses that the API, the workflow, the activities and the sandbox share.
-- A float that the program only carries and prints (`cpus`) is its printed text; a count of
-- milliseconds is a natural number; a process exit code is an integer, negative after a signal.
pub mod Outcome
use temporal_agent_sandbox.Prelude.{
  ℕ, ℤ, int_eq, Text, codes, Option, none, some, Bool, false, true, not, ◌&&◌, List, ◌++◌, str_int,
  if◌then◌else◌,
}

pub record ResourceLimits : Type 0 where
  pub cpus : Text
  pub memory_mb : ℕ
  pub pids : ℕ
  pub wall_clock_s : ℕ
  pub output_max_bytes : ℕ
  pub tmpfs_mb : ℕ
  pub nofile : ℕ

pub record RunInput : Type 0 where
  pub run_id : Text
  pub tenant_id : Text
  pub task : Text
  pub limits : ResourceLimits
  pub sandbox_runtime : Text

pub record Plan : Type 0 where
  pub task : Text
  pub directive : Text
  pub steps : List Text

pub record RunSandboxArgs : Type 0 where
  pub run_id : Text
  pub tenant_id : Text
  pub code : Text
  pub limits : ResourceLimits
  pub runtime : Text

pub record SandboxResult : Type 0 where
  pub runtime : Text
  pub exit_code : ℤ
  pub stdout_tail : Text
  pub stderr_tail : Text
  pub wall_ms : ℕ
  pub oom_killed : Bool
  pub wall_clock_exceeded : Bool
  pub image_digest : Option Text
  pub truncated : Bool

-- the property `SandboxResult.ok`
unfoldable pub is_ok : SandboxResult → Bool
is_ok r = int_eq r.exit_code 0 && not r.oom_killed && not r.wall_clock_exceeded

-- the property `SandboxResult.failure_reason`
unfoldable pub failure_reason : SandboxResult → Option Text
failure_reason r =
    if is_ok r
    then none
    else if r.wall_clock_exceeded
    then some (codes "wall_clock_exceeded")
    else if r.oom_killed
    then some (codes "oom_killed")
    else some (codes "nonzero_exit:" ++ str_int r.exit_code)

pub record SummarizeArgs : Type 0 where
  pub plan : Plan
  pub sandbox : SandboxResult

pub record StepStatus : Type 0 where
  pub name : Text
  pub state : Text
  pub detail : Option Text

pub record RunStatus : Type 0 where
  pub run_id : Text
  pub stage : Text
  pub steps : List StepStatus

pub record RunResult : Type 0 where
  pub run_id : Text
  pub status : Text
  pub summary : Option Text
  pub code : Option Text
  pub sandbox : Option SandboxResult
  pub failure_reason : Option Text

-- the class method `RunResult.completed`
unfoldable pub completed : Text → Text → Text → SandboxResult → RunResult
completed run_id summary code sandbox = record {
  run_id = run_id;
  status = codes "completed";
  summary = some summary;
  code = some code;
  sandbox = some sandbox;
  failure_reason = none;
}

-- the class method `RunResult.failed`
unfoldable pub failed : Text → Text → Option SandboxResult → Option Text → RunResult
failed run_id reason sandbox code = record {
  run_id = run_id;
  status = codes "failed";
  summary = none;
  code = code;
  sandbox = sandbox;
  failure_reason = some reason;
}
