-- ===== src/Sandbox/Firecracker.antt =====
-- app/sandbox/firecracker.py: the production target, which refuses to start in this build.
use temporal_agent_sandbox.Prelude.{codes, ◌++◌}
use temporal_agent_sandbox.Contracts.{SandboxResult}
use temporal_agent_sandbox.Sandbox.Runner.{Result, ok, err, policy_violation, not_implemented}

unfoldable pub preflight : Result (Unit {0})
preflight = err (
    policy_violation (
      codes "firecracker runtime is the production target (Kata-Firecracker RuntimeClass on "
      ++ codes "KVM nodes) and is not available in this build; set SANDBOX_RUNTIME=runsc."))

unfoldable pub run : Result SandboxResult
run = err (
    not_implemented (
      codes "FirecrackerRunner is the production target (Kata-Firecracker RuntimeClass on "
      ++ codes "KVM nodes) and is not implemented for local dev. Use SANDBOX_RUNTIME=runsc."))

unfoldable pub kill : Result (Unit {0})
kill = ok tt
