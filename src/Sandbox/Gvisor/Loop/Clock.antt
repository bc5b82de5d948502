-- ===== src/Sandbox/Gvisor/Loop/Clock.antt =====
-- The loop against a clock: it ends, and its heartbeats come when they come.
use temporal_agent_sandbox.Prelude.{
  ℕ, ◌+◌, ◌*◌, ◌/◌, ◌≤◌, ◌<◌, List, [], ◌∷◌, length, ◌≡◌, ◌≢◌, arith, refl, All,
}
use temporal_agent_sandbox.Sandbox.Gvisor.Loop.{
  still, Tick, Effect, heartbeat, Ending, timed_out, waiting, wait_for, loop,
}

-- The clock goes on: a turn does not begin before the given time, and a wait that ends by its
-- timeout has lasted as long as it was asked to.
abbrev pub OnTime : ℕ → ℕ → ℕ → List Tick → Type 0
OnTime wall beat now [] = Unit
OnTime wall beat now (t ∷ ts) =
    (now ≤ t.top)
    × (t.outcome ≡ still → t.top + wait_for wall beat t.top ≤ t.later)
    × OnTime wall beat t.later ts

ends_from :
    (wall beat now : ℕ) (ts : List Tick)
    → 100_000 ≤ beat
    → OnTime wall beat now ts
    → 0 < length ts
    → wall + 100_000 ≤ now + 100_000 * length ts
    → (loop wall ts).0 ≢ waiting
unfolding loop
ends_from wall beat now [] b c l h = absurd (omega arith)
ends_from wall beat now (t ∷ ts) b (start, wait, c) l h =
    ground (arith, wait, ends_from wall beat t.later ts b c)

-- The program is on time: a turn begins, and a wait that ends by its timeout is noticed, within the
-- slack.
abbrev pub Prompt : ℕ → ℕ → ℕ → ℕ → List Tick → Type 0
Prompt slack wall beat now [] = Unit
Prompt slack wall beat now (t ∷ ts) =
    (t.top ≤ now + slack)
    × (t.outcome ≡ still → t.later ≤ t.top + wait_for wall beat t.top + slack)
    × Prompt slack wall beat t.later ts

-- The loop has ended, and if it was the wall clock that ended it, by the given time.
abbrev pub EndsBy : ℕ → Ending → Type 0
EndsBy time waiting = ⊥
EndsBy time (timed_out elapsed) = elapsed ≤ time
EndsBy time _ = Unit

overshoots_little :
    (slack wall beat now : ℕ) (ts : List Tick)
    → Prompt slack wall beat now ts
    → now ≤ wall + 100_000 + slack
    → (loop wall ts).0 ≢ waiting
    → EndsBy (wall + 100_000 + 2 * slack) (loop wall ts).0
unfolding loop
overshoots_little slack wall beat now [] c h e = absurd (e refl)
overshoots_little slack wall beat now (t ∷ ts) (start, wait, c) h e =
    ground (arith, wait, overshoots_little slack wall beat t.later ts c)

-- With a heartbeat interval of 0.1 s or more the loop does not outlast the wall clock: by the time
-- that a tick for each tenth of a second, and one more, have been seen, it has ended; and a run that the
-- wall clock ends is ended within 0.1 s of the limit, and twice the time by which a turn or a wait is late.
pub loop-EndsBy :
    (slack wall beat : ℕ) (ts : List Tick)
    → 100_000 ≤ beat
    → OnTime wall beat 0 ts
    → Prompt slack wall beat 0 ts
    → wall + 100_000 ≤ 100_000 * length ts
    → EndsBy (wall + 100_000 + 2 * slack) (loop wall ts).0
loop-EndsBy slack wall beat ts b c prompt h =
    overshoots_little slack wall beat 0 ts prompt (omega arith)
      (ends_from wall beat 0 ts b c (omega arith) (omega arith))

-- Every heartbeat reports at least so many milliseconds.
abbrev pub NoEarlierThan : ℕ → List Effect → Type 0
NoEarlierThan ms = All (λ e. elim e [ heartbeat x ↦ ms ≤ x | _ ↦ Unit ])

beats_from :
    (wall beat now ms : ℕ) (ts : List Tick)
    → OnTime wall beat now ts
    → ms * 1000 ≤ beat
    → beat ≤ wall
    → NoEarlierThan ms (loop wall ts).1
unfolding loop
beats_from wall beat now ms [] c b w = tt
beats_from wall beat now ms (t ∷ ts) (start, wait, c) b w =
    ground (arith, wait, beats_from wall beat t.later ms ts c)

-- Where the wall clock is no shorter than the heartbeat interval, no heartbeat is sent before a
-- whole interval has passed since the start.
pub first_heartbeat :
    (wall beat : ℕ) (ts : List Tick)
    → OnTime wall beat 0 ts
    → beat ≤ wall
    → NoEarlierThan (beat / 1000) (loop wall ts).1
first_heartbeat wall beat ts c w = beats_from wall beat 0 (beat / 1000) ts c (omega arith) w
