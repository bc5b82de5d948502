-- ===== src/Api/Stream/Protocol.antt =====
-- The order of the frames, and the end of the stream.
use temporal_agent_sandbox.Prelude.{
  ℕ, suc, ◌≤◌, ◌+◌, ◌*◌, ◌%◌, ◌<◌, Text, codes, ◌==◌, nat_eq, length, none, some, true, false, List,
  [], ◌∷◌, ◌++◌, ◌≡◌, ◌≢◌, refl, arith, Bool-cases, inl, inr,
}
use temporal_agent_sandbox.Prelude.Double.{add_double}
use temporal_agent_sandbox.Api.Stream.Elapsed.{Near, longest, Near-suc, not_over_by}
use temporal_agent_sandbox.Api.Errors.{api_error, rpc_error, other_error, Result, ok, err}
use temporal_agent_sandbox.Api.Status.{RunStatusResponse}
use temporal_agent_sandbox.Api.Stream.{
  seven_tenths, is_over, Frame, event, done, keepalive, End, open_still, is_terminal, sse_event,
  State, start, emit, finish, turn, show, answered, gen, Poll,
}

-- What may follow a snapshot: steps of a run that is not at its end, comments, and at the end the event
-- of the final status with `done`, or `done` because of the duration.
pub data Rest : List Frame → Type 0 where
  broken_off : Rest []
  alive : {fs : List Frame} → Rest fs → Rest (keepalive ∷ fs)
  steps :
      {fs : List Frame} (a : RunStatusResponse)
      → is_terminal a.status ≡ false
      → Rest fs
      → Rest (event (codes "step") a ∷ fs)
  ends :
      (a : RunStatusResponse)
      → is_terminal a.status ≡ true
      → Rest (event (sse_event a.status) a ∷ done none ∷ [])
  expires : Rest (done (some (codes "max_duration")) ∷ [])

-- A stream begins with a snapshot, if it sends anything.
pub data Stream : List Frame → Type 0 where
  silent : Stream []
  begins :
      {fs : List Frame} (a : RunStatusResponse) → Rest fs → Stream (event (codes "snapshot") a ∷ fs)

module _ (dump : RunStatusResponse → Text) (max_dur : ℕ) where
  emit-Rest :
      (st : State) (last cur : Text) (a : RunStatusResponse) (fs : List Frame)
      → st.last ≡ some last
      → is_terminal a.status ≡ false
      → Rest fs
      → Rest (emit st cur a ++ fs)
  unfolding emit
  emit-Rest st last cur a fs e running rest = elim (Bool-cases (cur == last)) [
    | inr new ↦ rw (e, new) (steps a running rest)
    | inl old ↦ elim (Bool-cases (nat_eq (st.ticks % 21) 0)) [
      | inl due ↦ rw (e, old, due) (alive rest)
      | inr quiet ↦ rw (e, old, quiet) rest
    ]
  ]

  show-Rest :
      (st : State) (last : Text) (a : RunStatusResponse) (rest : List Frame × End)
      → st.last ≡ some last
      → Rest rest.0
      → Rest (show dump max_dur st a rest).0
  unfolding show finish
  show-Rest st last a rest e h = elim (Bool-cases (is_terminal a.status)) [
    | inl over ↦ rw (over, e) (ends a over)
    | inr running ↦ elim (Bool-cases (is_over max_dur (turn st (dump a)).elapsed)) [
      | inl late ↦ rw (running, late) (emit-Rest st last (dump a) a _ e running expires)
      | inr in_time ↦ rw (running, in_time) (emit-Rest st last (dump a) a rest.0 e running h)
    ]
  ]

  answered-Rest :
      (st : State) (last : Text) (r : Result RunStatusResponse)
      (after : RunStatusResponse → List Frame × End)
      → st.last ≡ some last
      → ((a : RunStatusResponse) → Rest (after a).0)
      → Rest (answered dump max_dur st r after).0
  unfolding answered
  answered-Rest st last (ok a) after e h = show-Rest st last a (after a) e (h a)
  answered-Rest st last (err (api_error _ _ _)) after e h = broken_off
  answered-Rest st last (err (rpc_error _)) after e h = broken_off
  answered-Rest st last (err (other_error _)) after e h = broken_off

  gen-Rest :
      (st : State) (last : Text) (ps : List Poll)
      → st.last ≡ some last
      → Rest (gen dump max_dur st ps).0
  unfolding gen turn
  gen-Rest st last [] e = broken_off
  gen-Rest st last (p ∷ ps) e = elim (Bool-cases p.disconnected) [
    | inl gone ↦ rw gone broken_off
    | inr there ↦
        rw there
          (answered-Rest st last p.answer _ e (λ a. gen-Rest (turn st (dump a)) (dump a) ps refl))
  ]

  show-Stream :
      (st : State) (a : RunStatusResponse) (rest : List Frame × End)
      → st.last ≡ none
      → Rest rest.0
      → Stream (show dump max_dur st a rest).0
  unfolding show finish emit
  show-Stream st a rest e h = elim (Bool-cases (is_terminal a.status)) [
    | inl over ↦ rw (over, e) (begins a (ends a over))
    | inr running ↦ elim (Bool-cases (is_over max_dur (turn st (dump a)).elapsed)) [
      | inl late ↦ rw (running, late, e) (begins a expires)
      | inr in_time ↦ rw (running, in_time, e) (begins a h)
    ]
  ]

  answered-Stream :
      (st : State) (r : Result RunStatusResponse) (after : RunStatusResponse → List Frame × End)
      → st.last ≡ none
      → ((a : RunStatusResponse) → Rest (after a).0)
      → Stream (answered dump max_dur st r after).0
  unfolding answered
  answered-Stream st (ok a) after e h = show-Stream st a (after a) e (h a)
  answered-Stream st (err (api_error _ _ _)) after e h = silent
  answered-Stream st (err (rpc_error _)) after e h = silent
  answered-Stream st (err (other_error _)) after e h = silent

  -- Whatever the polls answer, the frames of a stream are a snapshot; steps, none of them of a finished
  -- run, and comments; and at the end the event of the final status with `done`, or `done` for the
  -- duration. The stream can break off in between, but nothing follows `done`.
  pub gen-Stream : (ps : List Poll) → Stream (gen dump max_dur start ps).0
  unfolding gen turn
  gen-Stream [] = silent
  gen-Stream (p ∷ ps) = elim (Bool-cases p.disconnected) [
    | inl gone ↦ rw gone silent
    | inr there ↦ rw there (
        answered-Stream start p.answer _ refl
          (λ a. gen-Rest (turn start (dump a)) (dump a) ps refl))
  ]

  answered_ends :
      (st : State) (r : Result RunStatusResponse) (after : RunStatusResponse → List Frame × End)
      → ((a : RunStatusResponse)
          → is_over max_dur (add_double st.elapsed seven_tenths) ≡ false
          → (after a).1 ≢ open_still)
      → (answered dump max_dur st r after).1 ≢ open_still
  unfolding answered show turn
  answered_ends st (ok a) after h e = ground (arith, h a)
  answered_ends st (err (api_error _ _ _)) after h e = ground arith
  answered_ends st (err (rpc_error _)) after h e = ground arith
  answered_ends st (err (other_error _)) after h e = ground arith

  ends_from :
      (n : ℕ) (st : State) (ps : List Poll)
      → max_dur ≤ longest
      → Near n st.elapsed
      → 7 * n ≤ 10 * max_dur
      → 0 < length ps
      → 10 * max_dur < 7 * (n + length ps)
      → (gen dump max_dur st ps).1 ≢ open_still
  unfolding gen turn
  ends_from n st [] week near so_far l h = absurd (omega arith)
  ends_from n st (p ∷ ps) week near so_far l h = elim (Bool-cases p.disconnected) [
    | inl gone ↦ rw gone (λ e. ground arith)
    | inr there ↦ rw there (
        answered_ends st p.answer _ (λ a short.
          let next = Near-suc n st.elapsed (omega arith) near in
          let in_time = not_over_by max_dur (suc n) _ (omega arith) next short in
          ends_from (suc n) (turn st (dump a)) ps week next in_time (omega arith) (omega arith)))
  ]

  -- A stream ends: it is over by the time that its polls, 0.7 seconds apart, have lasted longer than the
  -- maximal duration. That is a week at most, so that the sum of doubles is near enough to the time.
  pub gen_ends :
      (ps : List Poll)
      → max_dur ≤ longest
      → 10 * max_dur < 7 * length ps
      → (gen dump max_dur start ps).1 ≢ open_still
  gen_ends ps week h =
      ends_from 0 start ps week (omega arith, omega arith) (omega arith) (omega arith) (omega arith)
