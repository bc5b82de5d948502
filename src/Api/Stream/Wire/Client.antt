-- ===== src/Api/Stream/Wire/Client.antt =====
-- What a client of `stream_run` of app/api/routes_runs.py gets: the events of an `EventSource`, and the
-- value that `JSON.parse` reads in the data of each.
use mathlib.Core.List.{flat_map, map}
use temporal_agent_sandbox.Prelude.{
  ◌≤◌, ◌%◌, ◌==◌, nat_eq, Bool-cases, Option-cases, inl, inr, All-append, ℕ, Text, codes, Option,
  none, some, List, [], ◌∷◌, ◌≡◌, refl, ap, ◌∙◌, All, arith,
}
use temporal_agent_sandbox.Prelude.Json.Value.{Json}
use temporal_agent_sandbox.Prelude.Json.Reader.{loads}
use temporal_agent_sandbox.Prelude.Json.Reader.Scalars.{IsScalar}
use temporal_agent_sandbox.Prelude.Json.Reader.RoundTrip.{IsUnicode, loads-dumps}
use temporal_agent_sandbox.Config.{Settings}
use temporal_agent_sandbox.Api.Errors.{api_error, rpc_error, other_error, Result, ok, err}
use temporal_agent_sandbox.Api.Status.{RunStatusResponse}
use temporal_agent_sandbox.Api.Stream.{
  Poll, Frame, event, done, keepalive, End, State, start, max_duration, is_over, is_terminal, emit,
  finish, turn, show, answered, gen,
}
use temporal_agent_sandbox.Api.Stream.Changes.{events, Opens, IsAnswer, AllAnswers}
use temporal_agent_sandbox.Api.Stream.Elapsed.{longest}
use temporal_agent_sandbox.Api.Stream.Changes.Gen.{gen-Opens}
use temporal_agent_sandbox.Api.Stream.Wire.{payload_json, done_json, sorted_dump, stream_text}
use temporal_agent_sandbox.Api.Stream.Wire.Reader.{read_events, event_of, read_events-stream_text}
use temporal_agent_sandbox.Api.Stream.Wire.Sorted.{IsUnicodeAnswer, sorted_dump-injective}

abbrev parsed : Text × Text → Text × Option Json
parsed (name, d) = (name, loads d)

-- the events of a text, each with the value of its data, if it is one
pub receive : Text → List (Text × Option Json)
receive s = map parsed (read_events s)

-- what a client is told by a frame
pub told : Text → Frame → Text × Option Json
unfolding payload_json done_json
told run_id (event name a) = (name, some (payload_json a))
told run_id (done reason) = (codes "done", some (done_json run_id reason))
told run_id keepalive = ([], none)

-- The response of a frame holds scalar values only.
abbrev IsUnicodeFrame : Frame → Type 0
IsUnicodeFrame (event name a) = IsUnicodeAnswer a
IsUnicodeFrame (done none) = Unit
IsUnicodeFrame (done (some reason)) = All IsScalar reason
IsUnicodeFrame keepalive = Unit

codes-IsScalar :
    All IsScalar (codes "run_id")
    × All IsScalar (codes "reason")
    × All IsScalar (codes "max_duration")
unfolding codes
codes-IsScalar = ground arith

emit-IsUnicodeFrame :
    (st : State) (cur : Text) (a : RunStatusResponse)
    → IsUnicodeAnswer a
    → All IsUnicodeFrame (emit st cur a)
unfolding emit
emit-IsUnicodeFrame st cur a u = elim (Option-cases st.last) [
  | inl first ↦ rw first (u, tt)
  | inr (last, shown) ↦ elim (Bool-cases (cur == last)) [
    | inr new ↦ rw (shown, new) (u, tt)
    | inl old ↦ elim (Bool-cases (nat_eq (st.ticks % 21) 0)) [
      | inl due ↦ rw (shown, old, due) (tt, tt)
      | inr quiet ↦ rw (shown, old, quiet) tt
    ]
  ]
]

finish-IsUnicodeFrame :
    (st : State) (a : RunStatusResponse) → IsUnicodeAnswer a → All IsUnicodeFrame (finish st a)
unfolding finish
finish-IsUnicodeFrame st a u = elim (Option-cases st.last) [
  | inl first ↦ rw first (u, (u, (tt, tt)))
  | inr (last, shown) ↦ rw shown (u, (tt, tt))
]

module _ (dump : RunStatusResponse → Text) (max_dur : ℕ) where
  answered-IsUnicodeFrame :
      (st : State) (r : Result RunStatusResponse) (after : RunStatusResponse → List Frame × End)
      → IsAnswer IsUnicodeAnswer r
      → ((a : RunStatusResponse) → All IsUnicodeFrame (after a).0)
      → All IsUnicodeFrame (answered dump max_dur st r after).0
  unfolding answered show
  answered-IsUnicodeFrame st (ok a) after u h = elim (Bool-cases (is_terminal a.status)) [
    | inl final ↦ rw final (finish-IsUnicodeFrame st a u)
    | inr running ↦ elim (Bool-cases (is_over max_dur (turn st (dump a)).elapsed)) [
      | inl late ↦
          rw (running, late)
            (All-append IsUnicodeFrame _ _ (emit-IsUnicodeFrame st (dump a) a u)
              (codes-IsScalar.2, tt))
      | inr in_time ↦
          rw (running, in_time)
            (All-append IsUnicodeFrame _ _ (emit-IsUnicodeFrame st (dump a) a u) (h a))
    ]
  ]
  answered-IsUnicodeFrame st (err (api_error _ _ _)) after u h = tt
  answered-IsUnicodeFrame st (err (rpc_error _)) after u h = tt
  answered-IsUnicodeFrame st (err (other_error _)) after u h = tt

  gen-IsUnicodeFrame :
      (st : State) (ps : List Poll)
      → AllAnswers IsUnicodeAnswer ps
      → All IsUnicodeFrame (gen dump max_dur st ps).0
  unfolding gen
  gen-IsUnicodeFrame st [] h = tt
  gen-IsUnicodeFrame st (p ∷ ps) (u, h) = elim (Bool-cases p.disconnected) [
    | inl gone ↦ rw gone tt
    | inr there ↦
        rw there (
          answered-IsUnicodeFrame st p.answer _ u (λ a. gen-IsUnicodeFrame (turn st (dump a)) ps h))
  ]

done_json-IsUnicode :
    (run_id : Text) (reason : Option Text)
    → All IsScalar run_id
    → IsUnicodeFrame (done reason)
    → IsUnicode (done_json run_id reason)
unfolding done_json IsUnicode
done_json-IsUnicode run_id none h u = (codes-IsScalar.0, h, tt)
done_json-IsUnicode run_id (some r) h u = (codes-IsScalar.0, h, (codes-IsScalar.1, u, tt))

received :
    (run_id : Text) (fs : List Frame)
    → All IsScalar run_id
    → All IsUnicodeFrame fs
    → map parsed (flat_map (event_of run_id) fs) ≡ map (told run_id) (events fs)
unfolding flat_map events told
received run_id [] h us = refl
received run_id (keepalive ∷ fs) h (_, us) = received run_id fs h us
received run_id (event name a ∷ fs) h (u, us) =
    cc (loads-dumps (payload_json a) u, received run_id fs h us)
received run_id (done reason ∷ fs) h (u, us) = cc (
  loads-dumps (done_json run_id reason) (done_json-IsUnicode run_id reason h u),
  received run_id fs h us,
)

-- If the responses that the polls get hold Unicode scalar values only, the events of a stream are those
-- of a reference that compares the responses and not their dumps, and that counts turns of 0.7 seconds
-- and does not add up doubles. The first response is a snapshot; behind it a response of a run that is
-- not at its end is a step if and only if it differs from the one before; a response of a run at its end
-- is the event of that end, with `done`; `done` with "max_duration" comes when the turns have lasted
-- longer than the maximal duration, and not as long as they have lasted less; and no event follows a
-- disconnection, an error or a `done`. The maximal duration is a week at most.
pub stream_events-Opens :
    (s : Settings) (polls : List Poll)
    → max_duration s ≤ longest
    → AllAnswers IsUnicodeAnswer polls
    → Opens (max_duration s) polls (events (gen sorted_dump (max_duration s) start polls).0)
stream_events-Opens s polls week h =
    gen-Opens IsUnicodeAnswer sorted_dump sorted_dump-injective (max_duration s) week polls h

-- If the run's id and the responses that the polls get hold Unicode scalar values only, a client that
-- reads the text of the stream as an `EventSource`, and the data of each event as JSON, gets exactly
-- the events that were sent, in order: under the name of each the very fields of its response, or those
-- of `done`. No text in a payload ends a line or adds an event, and keepalives are not seen.
pub receive-stream_text :
    (s : Settings) (run_id : Text) (polls : List Poll)
    → All IsScalar run_id
    → AllAnswers IsUnicodeAnswer polls
    → receive (stream_text s run_id polls)
      ≡ map (told run_id) (events (gen sorted_dump (max_duration s) start polls).0)
unfolding receive
receive-stream_text s run_id polls r h =
    ap (map parsed) (read_events-stream_text s run_id polls)
    ∙ received run_id _ r (gen-IsUnicodeFrame sorted_dump (max_duration s) start polls h)
