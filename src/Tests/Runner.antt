-- ===== src/Tests/Runner.antt =====
-- Tests of the gVisor runner.
use temporal_agent_sandbox.Prelude.{
  codes, starts_with, ◌==◌, ◌is_in◌, ltb, length, ne_of_test, pos, none, some, true, false, List,
  [], ◌∷◌, ◌≡◌, ◌≢◌, ◌↔◌, refl, All, arith,
}
use temporal_agent_sandbox.Prelude.Utf8.{Bytes, decode}
use temporal_agent_sandbox.Contracts.{SandboxResult}
use temporal_agent_sandbox.Config.{defaults}
use temporal_agent_sandbox.Sandbox.Runner.{ok}
use temporal_agent_sandbox.Sandbox.Gvisor.Output.{read_capped}
use temporal_agent_sandbox.Sandbox.Gvisor.Output.Tail.{output, tail_of, read_capped_lem}
use temporal_agent_sandbox.Sandbox.Gvisor.Launch.{
  Subprocess, exited, preflight, classify_infra, is_launch_rc, image_digest,
}
use temporal_agent_sandbox.Sandbox.Gvisor.Launch.FailClosed.{
  Registered, preflight_iff, Classified, classify_infra-Classified,
}
use temporal_agent_sandbox.Sandbox.Gvisor.Argv.{docker_run_cmd}
use temporal_agent_sandbox.Sandbox.Gvisor.Argv.Options.{
  Parsed, read_command, IsIsolated, docker_run_cmd-IsIsolated,
}
use temporal_agent_sandbox.Sandbox.Gvisor.Loop
use temporal_agent_sandbox.Sandbox.Gvisor.Loop.{Tick, done, still, cancelled, waiting, micros, loop}
use temporal_agent_sandbox.Sandbox.Gvisor.Loop.Clock.{
  OnTime, Prompt, EndsBy, loop-EndsBy, NoEarlierThan, first_heartbeat,
}
use temporal_agent_sandbox.Sandbox.Gvisor.Run.Cleared.{Cleared, run-Cleared}
use temporal_agent_sandbox.Sandbox.Gvisor.Run.{World, run}
use temporal_agent_sandbox.Prelude.Dict.{get}
use temporal_agent_sandbox.Sandbox.Gvisor.Staging.Disk.{
  Disk, AtLaunch, IsReady, IsFresh, IsRestored,
}
use temporal_agent_sandbox.Sandbox.Gvisor.Run.Staged.{run-Stages}
use temporal_agent_sandbox.Sandbox.Gvisor.Run.Outcome.{Reports, run-Reports}
use temporal_agent_sandbox.Sandbox.Gvisor.Run.Teardown.{IsContained, run-IsContained}
use temporal_agent_sandbox.Sandbox.Entrypoint
use temporal_agent_sandbox.Tests.Data.{ascii_only, same_bytes, limits, arguments, tick, world}

image_is_no_flag : starts_with defaults.sandbox_image (codes "-") ≡ false
unfolding starts_with codes
image_is_no_flag = refl

docker_run_cmd-IsIsolated_example :
    (p : Parsed) × (read_command
        (docker_run_cmd defaults (codes "runsc") (codes "sbx") (codes "/c") (codes "/i") limits)
      ≡ some p)
    × IsIsolated defaults (codes "runsc") (codes "/c") (codes "/i") limits p
docker_run_cmd-IsIsolated_example =
    docker_run_cmd-IsIsolated defaults (codes "runsc") (codes "sbx") (codes "/c") (codes "/i")
      limits image_is_no_flag

abbrev late_world : World
late_world = world (tick 0 still 1_000_000 ∷ tick 1_000_100 done 1_000_100 ∷ []) (pos 0)

run-IsContained_example :
    All
      (IsContained ascii_only defaults same_bytes
        (codes "runsc")
        (arguments (codes "runsc"))
        1
        late_world)
      (run ascii_only defaults same_bytes
        (codes "runsc")
        (arguments (codes "runsc"))
        1
        late_world).1
run-IsContained_example =
    run-IsContained ascii_only defaults same_bytes (codes "runsc") (arguments (codes "runsc")) 1
      late_world image_is_no_flag

late_loop : (loop (micros limits.wall_clock_s) late_world.ticks).0 ≢ Loop.exited
unfolding loop
late_loop = ground arith

run-Cleared_example :
    Cleared
      (run ascii_only defaults same_bytes
        (codes "runsc")
        (arguments (codes "runsc"))
        1
        late_world).1
unfolding run loop
run-Cleared_example =
    run-Cleared ascii_only defaults same_bytes (codes "runsc") (arguments (codes "runsc")) 1
      late_world _ refl late_loop

abbrev quick_world : World
quick_world = world (tick 0 done 100 ∷ []) (pos 3)

abbrev quick_result : SandboxResult
quick_result = record {
  runtime = codes "runsc";
  exit_code = pos 3;
  stdout_tail = codes "cdef";
  stderr_tail = codes "";
  wall_ms = 2;
  oom_killed = false;
  wall_clock_exceeded = false;
  image_digest = none;
  truncated = true;
}

quick_run :
    (run ascii_only defaults same_bytes (codes "runsc") (arguments (codes "runsc")) 1 quick_world).0
    ≡ some (ok quick_result)
unfolding run loop classify_infra is_launch_rc image_digest read_capped decode codes
quick_run = refl

quick-Reports : Reports (codes "runsc") (arguments (codes "runsc")) quick_world quick_result
quick-Reports =
    run-Reports ascii_only defaults same_bytes (codes "runsc") (arguments (codes "runsc")) 1
      quick_world quick_result quick_run

abbrev raising_world : World
raising_world = world (tick 0 done 100 ∷ []) (pos 1)

abbrev raising_result : SandboxResult
raising_result = record {
  runtime = codes "runsc";
  exit_code = pos 1;
  stdout_tail = codes "cdef";
  stderr_tail = codes "";
  wall_ms = 2;
  oom_killed = false;
  wall_clock_exceeded = false;
  image_digest = none;
  truncated = true;
}

abbrev empty_disk : Disk
empty_disk = record { files = []; modes = [] }

empty-IsFresh : IsFresh (codes "/tmp/sbx-1") empty_disk
unfolding get
empty-IsFresh k h = refl

run-Stages_example :
    AtLaunch
      (IsReady (arguments (codes "runsc")) (codes "/tmp/sbx-1"))
      (run ascii_only defaults same_bytes
        (codes "runsc")
        (arguments (codes "runsc"))
        1
        quick_world).1
      empty_disk
    × IsRestored
        (run ascii_only defaults same_bytes
          (codes "runsc")
          (arguments (codes "runsc"))
          1
          quick_world).1
        empty_disk
run-Stages_example =
    run-Stages ascii_only defaults same_bytes (codes "runsc") (arguments (codes "runsc")) 1
      quick_world empty_disk _ empty-IsFresh quick_run

abbrev docker_info : Subprocess
docker_info = exited (some (pos 0)) (codes "{\"runc\":{},\"runsc\":{}}") []

runsc_is_not_the_default : codes "runsc" ≢ codes "runc"
unfolding codes ◌==◌
runsc_is_not_the_default = ne_of_test _ _ refl

runsc_is_listed :
    (preflight (codes "runsc") (ok docker_info) ≡ ok tt) ↔ Registered (codes "runsc") docker_info
runsc_is_listed = preflight_iff (codes "runsc") docker_info runsc_is_not_the_default

preflight_passes : preflight (codes "runsc") (ok docker_info) ≡ ok tt
unfolding preflight codes ◌==◌ ◌is_in◌ decode
preflight_passes = refl

classify_infra-Classified_example :
    Classified ascii_only
      (codes "runsc")
      (pos 125)
      (codes "docker: no such image")
      (classify_infra ascii_only (codes "runsc") (pos 125) (codes "docker: no such image"))
classify_infra-Classified_example =
    classify_infra-Classified ascii_only (codes "runsc") (pos 125) (codes "docker: no such image")

abbrev chunks : List Bytes
chunks = codes "ab" ∷ codes "cdef" ∷ [] ∷ codes "gone" ∷ []

read_capped_lem_example :
    read_capped (some chunks) 4 ≡ (tail_of 4 (output chunks), ltb 4 (length (output chunks)))
read_capped_lem_example = read_capped_lem 4 chunks

keeps_the_tail : read_capped (some chunks) 4 ≡ (codes "cdef", true)
unfolding read_capped codes
keeps_the_tail = refl

abbrev two_turns : List Tick
two_turns = tick 0 still 100_000 ∷ tick 100_000 still 200_000 ∷ []

two_turns-OnTime : OnTime 100_000 100_000 0 two_turns
two_turns-OnTime = (omega arith, λ _. omega arith, (omega arith, λ _. omega arith, tt))

two_turns-Prompt : Prompt 5 100_000 100_000 0 two_turns
two_turns-Prompt = (omega arith, λ _. omega arith, (omega arith, λ _. omega arith, tt))

loop-EndsBy_example : EndsBy 200_010 (loop 100_000 two_turns).0
loop-EndsBy_example =
    loop-EndsBy 5 100_000 100_000 two_turns (omega arith) two_turns-OnTime two_turns-Prompt
      (omega arith)

first_heartbeat_example : NoEarlierThan 100 (loop 100_000 two_turns).1
first_heartbeat_example = first_heartbeat 100_000 100_000 two_turns two_turns-OnTime (omega arith)
