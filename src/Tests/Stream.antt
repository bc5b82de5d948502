-- ===== src/Tests/Stream.antt =====
-- Tests of the event stream.
use temporal_agent_sandbox.Prelude.{
  true, ℕ, zero, suc, All, map, ◌*◌, ◌<◌, Text, codes, none, false, List, [], ◌∷◌, length, ◌≡◌, ◌≢◌,
  refl, arith, is_one_of, ◌==◌,
}
use temporal_agent_sandbox.Prelude.Double.{add_double}
use temporal_agent_sandbox.Api.Stream.{is_over, seven_tenths}
use temporal_agent_sandbox.Api.Errors.{ok}
use temporal_agent_sandbox.Api.Status.{RunStatusResponse}
use temporal_agent_sandbox.Api.Stream.{Poll, event, done, open_still, closed, start, gen}
use temporal_agent_sandbox.Api.Stream.{max_duration}
use temporal_agent_sandbox.Config.{defaults}
use mathlib.Core.List.{flat_map}
use temporal_agent_sandbox.Api.Stream.Wire.{stream_text, sorted_dump}
use temporal_agent_sandbox.Api.Stream.Wire.Reader.{read_events, event_of, read_events-stream_text}
use temporal_agent_sandbox.Api.Stream.Wire.{payload_json}
use temporal_agent_sandbox.Api.Stream.Changes.{Opens, events, AllAnswers}
use temporal_agent_sandbox.Api.Stream.Wire.Sorted.{IsUnicodeAnswer}
use temporal_agent_sandbox.Api.Stream.Wire.Client.{
  told, receive, stream_events-Opens, receive-stream_text,
}
use temporal_agent_sandbox.Prelude.Json.Reader.Scalars.{IsScalar}
use temporal_agent_sandbox.Prelude.Json.Reader.RoundTrip.{IsUnicode}
use temporal_agent_sandbox.Api.Stream.Followed.{IsRunning, running_is_not}
use temporal_agent_sandbox.Api.Stream.Alive.{InTime, Sends, idle-Sends}
use temporal_agent_sandbox.Api.Stream.Protocol.{Stream, gen-Stream, gen_ends}

abbrev response : Text → RunStatusResponse
response status = record {
  run_id = codes "acme:k";
  status = status;
  stage = codes "plan";
  current_step = none;
  completed_steps = [];
  steps = [];
  result = none;
  error = none;
}

abbrev poll : Text → Poll
poll status = record { disconnected = false; answer = ok (response status) }

abbrev polls : List Poll
polls = poll (codes "RUNNING") ∷ poll (codes "FAILED") ∷ []

abbrev dump : RunStatusResponse → Text
dump a = a.status

gen-Stream_example : Stream (gen dump 100 start polls).0
gen-Stream_example = gen-Stream dump 100 polls

polls_last : 10 * 1 < 7 * length polls
polls_last = omega arith

gen_ends_example : (gen dump 1 start polls).1 ≢ open_still
gen_ends_example = gen_ends dump 1 polls (omega arith) polls_last

-- A running run that fails: a snapshot, the final event, and the end.
fails_in_order : gen dump 100 start polls ≡ (
  event (codes "snapshot") (response (codes "RUNNING"))
      ∷ event (codes "failed") (response (codes "FAILED"))
      ∷ done none
      ∷ [],
  closed,
)
unfolding gen codes ◌==◌ is_one_of add_double
fails_in_order = refl

-- A client of a running run that fails gets three events.
read_failing :
    read_events (stream_text defaults (codes "acme:k") polls)
    ≡ flat_map (event_of (codes "acme:k")) (gen sorted_dump (max_duration defaults) start polls).0
read_failing = read_events-stream_text defaults (codes "acme:k") polls

acme-IsScalar : All IsScalar (codes "acme:k")
unfolding codes
acme-IsScalar = ground arith

polls-IsUnicode : AllAnswers IsUnicodeAnswer polls
unfolding codes payload_json IsUnicode
polls-IsUnicode = ground arith

-- the same run, at its first step for two polls
abbrev stays : List Poll
stays = poll (codes "RUNNING") ∷ polls

stays-IsUnicode : AllAnswers IsUnicodeAnswer stays
stays-IsUnicode = (polls-IsUnicode.0, polls-IsUnicode)

stream_events-Opens_example :
    Opens
      (max_duration defaults)
      stays
      (events (gen sorted_dump (max_duration defaults) start stays).0)
stream_events-Opens_example = stream_events-Opens defaults stays (omega arith) stays-IsUnicode

receive-stream_text_example :
    receive (stream_text defaults (codes "acme:k") stays)
    ≡ map (told (codes "acme:k")) (events (gen sorted_dump (max_duration defaults) start stays).0)
receive-stream_text_example =
    receive-stream_text defaults (codes "acme:k") stays acme-IsScalar stays-IsUnicode

-- so many polls of a run at its first step
idle : ℕ → List Poll
idle zero = []
idle (suc n) = poll (codes "RUNNING") ∷ idle n

-- `elapsed` after so many turns
after_turns : ℕ → ℕ
after_turns zero = 0
after_turns (suc n) = add_double (after_turns n) seven_tenths

idle-IsRunning : (n : ℕ) → All IsRunning (idle n)
unfolding idle
idle-IsRunning zero = tt
idle-IsRunning (suc n) = ((refl, (_, refl, running_is_not _ refl)), idle-IsRunning n)

length-idle : (n : ℕ) → length (idle n) ≡ n
unfolding idle
length-idle zero = refl
length-idle (suc n) = omega (arith, length-idle n)

idle-InTime : InTime dump 330 (omega arith) start (idle 21)
idle-InTime = ((omega arith, omega arith), omega (arith, length-idle 21))

idle-Sends_example : Sends dump 330 start (idle 21) [] (λ fs. 0 < length fs)
idle-Sends_example =
    idle-Sends dump 330 (omega arith) start (idle 21) [] (idle-IsRunning 21)
      (omega (arith, length-idle 21)) idle-InTime

-- The sum of 900 times the double 0.7 is more than 630.
nine_hundred_turns : is_over 630 (after_turns 900) ≡ true
unfolding after_turns add_double
nine_hundred_turns = refl

nine_hundred_sum : after_turns 900 ≡ 5674535530486841344
unfolding after_turns add_double
nine_hundred_sum = refl
