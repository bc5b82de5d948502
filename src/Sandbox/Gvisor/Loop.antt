-- ===== src/Sandbox/Gvisor/Loop.antt =====
-- The waiting loop of `GvisorRunner.run`. A tick is what one turn sees: the time since the start
-- when the turn begins, how `asyncio.wait` ends, and the time when the heartbeat is sent. Times are
-- in microseconds. The float `0.1` is 100000 of them.
pub mod Clock
use temporal_agent_sandbox.Prelude.{
  ℕ, ◌-◌, ◌*◌, ◌/◌, min, max, Bool, true, false, Text, List, [], ◌∷◌, leb, if◌then◌else◌,
}
use temporal_agent_sandbox.Prelude.Utf8.{Bytes}

pub data Wait : Type 0 where
  done still cancelled : Wait

pub record Tick : Type 0 where
  pub top : ℕ
  pub outcome : Wait
  pub later : ℕ

-- What the runner does to the world: it makes a temporary directory, writes a file, sets the mode of a
-- path, calls `docker run`, sends a heartbeat with its `elapsed_ms`, calls `docker rm -f` on a container,
-- and deletes a temporary directory with all that is in it.
pub data Effect : Type 0 where
  make_directory : Text → Effect
  write_text : Text → Bytes → Effect
  chmod : Text → ℕ → Effect
  launch : List Text → Effect
  heartbeat : ℕ → Effect
  remove : Text → Effect
  delete_directory : Text → Effect

-- How the loop ends; `waiting` if the ticks end first.
pub data Ending : Type 0 where
  exited : Ending
  timed_out : ℕ → Ending
  interrupted : Ending
  waiting : Ending

-- `limits.wall_clock_s` and `sandbox_heartbeat_s`, in microseconds
abbrev pub micros : ℕ → ℕ
micros s = s * 1_000_000

-- the timeout of `asyncio.wait`, at a time below the limit
abbrev pub wait_for : ℕ → ℕ → ℕ → ℕ
wait_for wall beat elapsed = min beat (max (wall - elapsed) 100_000)

abbrev pub beat_first : ℕ → Ending × List Effect → Ending × List Effect
beat_first ms (ending, effects) = (ending, heartbeat ms ∷ effects)

-- the loop, with a heartbeat function
unfoldable pub loop : ℕ → List Tick → Ending × List Effect
loop wall [] = (waiting, [])
loop wall (t ∷ ts) =
    let next = beat_first (t.later / 1000) (loop wall ts) in
    if leb wall t.top
    then (timed_out t.top, [])
    else elim t.outcome [ done ↦ (exited, []) | cancelled ↦ (interrupted, []) | still ↦ next ]
