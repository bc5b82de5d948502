-- ===== src/Sandbox/Gvisor/Argv.antt =====
-- `_docker_run_cmd`: the argument vector of `docker run`.
pub mod Options
use temporal_agent_sandbox.Prelude.{
  Text, codes, non_empty, str_nat, List, [], ◌∷◌, ◌++◌, if◌then◌else◌,
}
use temporal_agent_sandbox.Contracts.{ResourceLimits}
use temporal_agent_sandbox.Config.{Settings}

-- `runtime` is the runner's; the image and the seccomp profile come from the settings.
unfoldable pub docker_run_cmd : Settings → Text → Text → Text → Text → ResourceLimits → List Text
docker_run_cmd s runtime name code_file input_file limits =
    (codes "docker"
      ∷ codes "run"
      ∷ codes "--rm"
      ∷ codes "--name"
      ∷ name
      ∷ codes "--runtime"
      ∷ runtime
      ∷ codes "--network"
      ∷ codes "none"
      ∷ codes "--read-only"
      ∷ codes "--user"
      ∷ codes "65534:65534"
      ∷ codes "--cap-drop"
      ∷ codes "ALL"
      ∷ codes "--security-opt"
      ∷ codes "no-new-privileges"
      ∷ codes "--cpus"
      ∷ limits.cpus
      ∷ codes "--memory"
      ∷ (str_nat limits.memory_mb ++ codes "m")
      ∷ codes "--memory-swap"
      ∷ (str_nat limits.memory_mb ++ codes "m")
      ∷ codes "--pids-limit"
      ∷ str_nat limits.pids
      ∷ codes "--ulimit"
      ∷ (codes "nofile=" ++ (str_nat limits.nofile ++ (codes ":" ++ str_nat limits.nofile)))
      ∷ codes "--tmpfs"
      ∷ (codes "/work:rw,noexec,nosuid,size="
          ++ (str_nat limits.tmpfs_mb ++ codes "m,nr_inodes=4096"))
      ∷ codes "--workdir"
      ∷ codes "/work"
      ∷ codes "-v"
      ∷ (code_file ++ codes ":/sandbox/code.py:ro")
      ∷ codes "-v"
      ∷ (input_file ++ codes ":/sandbox/input.json:ro")
      ∷ [])
    ++ ((if non_empty s.sandbox_seccomp_path
          then codes "--security-opt" ∷ (codes "seccomp=" ++ s.sandbox_seccomp_path) ∷ []
          else [])
        ++ s.sandbox_image ∷ [])
