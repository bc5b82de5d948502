-- ===== src/Tests/Data.antt =====
-- The inputs of the tests.
use temporal_agent_sandbox.Prelude.{ℕ, Text, codes, ℤ, none, some, false, List, [], ◌∷◌}
use temporal_agent_sandbox.Prelude.Utf8.{Bytes}
use temporal_agent_sandbox.Prelude.Methods.{Unicode}
use temporal_agent_sandbox.Contracts.{ResourceLimits, RunInput, Plan, RunSandboxArgs, SandboxResult}
use temporal_agent_sandbox.Sandbox.Gvisor.Launch.{not_found}
use temporal_agent_sandbox.Sandbox.Gvisor.Loop.{Tick, Wait}
use temporal_agent_sandbox.Sandbox.Gvisor.Run.{World}
use temporal_agent_sandbox.Sandbox.Runner.{ok}
use temporal_agent_sandbox.Activities.Sandbox.{Attempt}

-- a table of lower-case forms that changes nothing beyond ASCII
abbrev pub ascii_only : Unicode
ascii_only = record { lower_other = λ before c after. c ∷ [] }

-- a stand-in for a hash: the bytes themselves
abbrev pub same_bytes : Bytes → Text
same_bytes b = b

abbrev pub limits : ResourceLimits
limits = record {
  cpus = codes "1.0";
  memory_mb = 256;
  pids = 128;
  wall_clock_s = 1;
  output_max_bytes = 4;
  tmpfs_mb = 64;
  nofile = 256;
}

abbrev pub input : RunInput
input = record {
  run_id = codes "acme:k";
  tenant_id = codes "acme";
  task = codes "count words";
  limits = limits;
  sandbox_runtime = codes "runsc";
}

abbrev pub normal_plan : Plan
normal_plan = record { task = codes "count words"; directive = codes "normal"; steps = [] }

abbrev pub outcome : ℤ → SandboxResult
outcome exit_code = record {
  runtime = codes "runsc";
  exit_code = exit_code;
  stdout_tail = codes "out";
  stderr_tail = codes "";
  wall_ms = 12;
  oom_killed = false;
  wall_clock_exceeded = false;
  image_digest = none;
  truncated = false;
}

abbrev pub arguments : Text → RunSandboxArgs
arguments runtime = record {
  run_id = codes "acme:k";
  tenant_id = codes "acme";
  code = codes "print(1)";
  limits = limits;
  runtime = runtime;
}

abbrev pub tick : ℕ → Wait → ℕ → Tick
tick top ending later = record { top = top; outcome = ending; later = later }

abbrev pub world : List Tick → ℤ → World
world ticks exit = record {
  inspect = not_found;
  tmp = codes "/tmp/sbx-1";
  start_fault = none;
  ticks = ticks;
  cancelled_late = false;
  exit = exit;
  finish = 2000;
  stdout = some (codes "ab" ∷ codes "cdef" ∷ []);
  stderr = none;
}

abbrev pub attempt_in : World → Attempt
attempt_in w = record { info = ok not_found; world = w }
