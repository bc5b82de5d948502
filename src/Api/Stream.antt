-- ===== src/Api/Stream.antt =====
-- The event stream of `stream_run` of app/api/routes_runs.py. A poll is what one turn of its generator
-- sees. Elapsed times are doubles, in units of 2 ^ -53 seconds.
pub mod Elapsed
pub mod Protocol
pub mod Changes
pub mod Followed
pub mod Alive
pub mod Wire
use temporal_agent_sandbox.Prelude.{
  ℕ, ◌+◌, ◌*◌, ◌%◌, Text, codes, ◌==◌, is_one_of, nat_eq, ltb, not, Option, none, some, Bool, true,
  false, List, [], ◌∷◌, ◌++◌, if◌then◌else◌,
}
use temporal_agent_sandbox.Prelude.Double.{one, add_double}
use temporal_agent_sandbox.Config.{Settings}
use temporal_agent_sandbox.Api.Errors.{Raised, api_error, rpc_error, other_error, Result, ok, err}
use temporal_agent_sandbox.Api.Status.{RunStatusResponse}

pub record Poll : Type 0 where
  pub disconnected : Bool
  pub answer : Result RunStatusResponse

-- A frame of the stream: an event with a status response, the last event with its reason, if it has
-- one, and the comment that keeps the connection open.
pub data Frame : Type 0 where
  event : Text → RunStatusResponse → Frame
  done : Option Text → Frame
  keepalive : Frame

-- How the generator ends; `open` if the polls end first.
pub data End : Type 0 where
  closed : End
  failed : Raised → End
  open_still : End

-- `_TERMINAL`
pub is_terminal : Text → Bool
is_terminal status =
    is_one_of status
      (codes "COMPLETED" ∷ codes "FAILED" ∷ codes "TIMED_OUT" ∷ codes "CANCELLED" ∷ [])

-- `_SSE_EVENT`, on the statuses of `_TERMINAL`
pub sse_event : Text → Text
sse_event status =
    if status == codes "COMPLETED"
    then codes "completed"
    else if status == codes "TIMED_OUT"
    then codes "timed_out"
    else codes "failed"

-- the local variables; `last` is `none` as long as `first` is true
pub record State : Type 0 where
  pub last : Option Text
  pub ticks : ℕ
  pub elapsed : ℕ

abbrev pub start : State
start = record { last = none; ticks = 0; elapsed = 0 }

abbrev pub max_duration : Settings → ℕ
max_duration s = s.workflow_run_timeout_s + 30

-- the double `0.7`
abbrev pub seven_tenths : ℕ
seven_tenths = 6_305_039_478_318_694

-- `elapsed > max_dur`
abbrev pub is_over : ℕ → ℕ → Bool
is_over max_dur elapsed = ltb (max_dur * one) elapsed

abbrev is_first : Option Text → Bool
is_first none = true
is_first (some _) = false

-- the frame for a response that is not terminal, whose dump is `cur`
pub emit : State → Text → RunStatusResponse → List Frame
emit st cur a = elim st.last [
  | none ↦ event (codes "snapshot") a ∷ []
  | some last ↦
      if not (cur == last)
      then event (codes "step") a ∷ []
      else if nat_eq (st.ticks % 21) 0
      then keepalive ∷ []
      else []
]

-- the frames for a terminal response
pub finish : State → RunStatusResponse → List Frame
unfolding sse_event
finish st a =
    (if is_first st.last then event (codes "snapshot") a ∷ [] else [])
    ++ event (sse_event a.status) a ∷ done none ∷ []

-- the variables after a turn; `last` is the dump in each of the three cases
pub turn : State → Text → State
turn st cur = record {
  last = some cur;
  ticks = st.ticks + 1;
  elapsed = add_double st.elapsed seven_tenths;
}

abbrev pub ahead : List Frame → List Frame × End → List Frame × End
ahead fs (gs, end) = (fs ++ gs, end)

-- `dump` is `json.dumps(payload, sort_keys=True, default=str)`
module _ (dump : RunStatusResponse → Text) (max_dur : ℕ) where
  -- what a turn does with a response, and then the turns after it
  pub show : State → RunStatusResponse → List Frame × End → List Frame × End
  unfolding emit finish turn is_terminal
  show st a rest =
      if is_terminal a.status
      then (finish st a, closed)
      else if is_over max_dur (turn st (dump a)).elapsed
      then (emit st (dump a) a ++ done (some (codes "max_duration")) ∷ [], closed)
      else ahead (emit st (dump a) a) rest

  -- an `APIError` ends the stream, and any other exception leaves the generator
  pub answered :
      State → Result RunStatusResponse → (RunStatusResponse → List Frame × End) → List Frame × End
  unfolding show
  answered st (ok a) after = show st a (after a)
  answered st (err (api_error code name message)) after = ([], closed)
  answered st (err (rpc_error code)) after = ([], failed (rpc_error code))
  answered st (err (other_error name)) after = ([], failed (other_error name))

  -- `gen`
  unfoldable pub gen : State → List Poll → List Frame × End
  unfolding answered
  gen st [] = ([], open_still)
  gen st (p ∷ ps) =
      if p.disconnected then ([], closed) else answered st p.answer (λ a. gen (turn st (dump a)) ps)
