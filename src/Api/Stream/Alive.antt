-- ===== src/Api/Stream/Alive.antt =====
-- The comments by which `gen` of app/api/routes_runs.py keeps an idle stream alive.
use mathlib.Core.List.{append_assoc}
use mathlib.Core.Path.{subst}
use temporal_agent_sandbox.Prelude.Double.{add_double}
use temporal_agent_sandbox.Api.Stream.Elapsed.{Near, longest, Near-suc, in_time_by}
use temporal_agent_sandbox.Prelude.{
  ℕ, zero, suc, ◌+◌, ◌-◌, ◌*◌, ◌/◌, ◌%◌, ◌≤◌, ◌<◌, Text, length, length-append, false, List, [],
  ◌∷◌, ◌++◌, ◌≡◌, refl, sym, ap, ◌∙◌, arith, All,
}
use temporal_agent_sandbox.Api.Errors.{ok}
use temporal_agent_sandbox.Api.Status.{RunStatusResponse}
use temporal_agent_sandbox.Api.Stream.{
  seven_tenths, is_over, Poll, Frame, State, End, emit, turn, show, answered, gen, ahead,
  is_terminal,
}
use temporal_agent_sandbox.Api.Stream.Followed.{IsRunning}

-- At each 21st tick there is a frame.
emit_due :
    (st : State) (cur : Text) (a : RunStatusResponse)
    → st.ticks % 21 ≡ 0
    → 0 < length (emit st cur a)
unfolding emit
emit_due st cur a e = ground arith

ahead-ahead :
    (fs gs : List Frame) (r : List Frame × End) → ahead fs (ahead gs r) ≡ ahead (fs ++ gs) r
ahead-ahead fs gs r = ap (λ hs. (hs, r.1)) (sym (append_assoc fs gs r.0))

module _ (dump : RunStatusResponse → Text) (max_dur : ℕ) where
  -- The frames of some polls, before those of the polls behind them; `elapsed` stays near the time of
  -- the turns.
  abbrev pub Sends : State → List Poll → List Poll → (List Frame → Type 0) → Type 0
  Sends st ps qs P =
      (fs : List Frame) × (st' : State) × (gen dump max_dur st (ps ++ qs)
        ≡ ahead fs (gen dump max_dur st' qs))
      × (st'.ticks ≡ st.ticks + length ps)
      × Near st'.ticks st'.elapsed
      × P fs

  running_turn :
      (st : State) (p : Poll) (ps : List Poll) (b : RunStatusResponse)
      → p.disconnected ≡ false
      → p.answer ≡ ok b
      → is_terminal b.status ≡ false
      → is_over max_dur (turn st (dump b)).elapsed ≡ false
      → gen dump max_dur st (p ∷ ps)
        ≡ ahead (emit st (dump b) b) (gen dump max_dur (turn st (dump b)) ps)
  unfolding gen answered show turn
  running_turn st p ps b there told running soon = rw (there, told, running, soon) refl

  module _ (week : max_dur ≤ longest) where
    -- the turns of some polls are within the maximal duration
    abbrev pub InTime : State → List Poll → Type 0
    InTime st ps = Near st.ticks st.elapsed × (7 * (st.ticks + length ps) < 10 * max_dur)

    InTime-turn :
        (st : State) (p : Poll) (ps : List Poll) (cur : Text)
        → InTime st (p ∷ ps)
        → InTime (turn st cur) ps
    unfolding turn
    InTime-turn st p ps cur (near, soon) =
        let same : suc st.ticks ≡ st.ticks + 1 = omega arith in
        (
          subst (λ i. Near i (add_double st.elapsed seven_tenths)) same
              (Near-suc st.ticks st.elapsed (omega arith) near),
          omega arith,
        )

    turn_not_over :
        (st : State) (p : Poll) (ps : List Poll) (cur : Text)
        → InTime st (p ∷ ps)
        → is_over max_dur (turn st cur).elapsed ≡ false
    unfolding turn
    turn_not_over st p ps cur in_time =
        let (near, soon) = InTime-turn st p ps cur in_time in
        in_time_by max_dur (st.ticks + 1) _ (omega arith) near (omega arith)

    -- a turn, and then some polls
    turn-Sends :
        (P Q : List Frame → Type 0) (st : State) (p : Poll) (ps qs : List Poll)
        (b : RunStatusResponse)
        → p.disconnected ≡ false
        → p.answer ≡ ok b
        → is_terminal b.status ≡ false
        → InTime st (p ∷ ps)
        → ((fs : List Frame) → P fs → Q (emit st (dump b) b ++ fs))
        → Sends (turn st (dump b)) ps qs P
        → Sends st (p ∷ ps) qs Q
    unfolding turn
    turn-Sends P Q st p ps qs b there told running in_time more
          (fs, st', same, later, near, holds) =
        (
          emit st (dump b) b ++ fs,
          st',
          running_turn st p (ps ++ qs) b there told running (turn_not_over st p ps (dump b) in_time)
              ∙ ap (ahead (emit st (dump b) b)) same
              ∙ ahead-ahead (emit st (dump b) b) fs (gen dump max_dur st' qs),
          omega (arith, later),
          near,
          more fs holds,
        )

    running-Sends :
        (st : State) (ps qs : List Poll)
        → All IsRunning ps
        → InTime st ps
        → Sends st ps qs (λ _. Unit {0})
    running-Sends st [] qs h (near, _) = ([], st, refl, omega arith, near, tt)
    running-Sends st (p ∷ ps) qs ((there, (b, told, running)), h) in_time =
        turn-Sends (λ _. Unit) (λ _. Unit) st p ps qs b there told running in_time (λ fs u. tt)
          (running-Sends (turn st (dump b)) ps qs h (InTime-turn st p ps (dump b) in_time))

    -- so many polls on, there is a frame
    due-Sends :
        (d k : ℕ) (st : State) (ps qs : List Poll)
        → All IsRunning ps
        → st.ticks + d ≡ 21 * k
        → d < length ps
        → InTime st ps
        → Sends st ps qs (λ fs. 0 < length fs)
    unfolding turn
    due-Sends d k st [] qs h due enough in_time = absurd (omega arith)
    due-Sends zero k st (p ∷ ps) qs ((there, (b, told, running)), h) due enough in_time =
        let now : 0 < length (emit st (dump b) b) = emit_due st (dump b) b (omega arith) in
        turn-Sends (λ _. Unit) (λ fs. 0 < length fs) st p ps qs b there told running in_time
          (λ fs u. omega (arith, length-append (emit st (dump b) b) fs))
          (running-Sends (turn st (dump b)) ps qs h (InTime-turn st p ps (dump b) in_time))
    due-Sends (suc d) k st (p ∷ ps) qs ((there, (b, told, running)), h) due enough in_time =
        turn-Sends (λ fs. 0 < length fs) (λ fs. 0 < length fs) st p ps qs b there told running
          in_time (λ fs l. omega (arith, length-append (emit st (dump b) b) fs))
          (due-Sends d k (turn st (dump b)) ps qs h (omega arith) (omega arith)
            (InTime-turn st p ps (dump b) in_time))

    -- A stream that is open is never silent for long: among any 21 polls in a row, 0.7 seconds apart, of a
    -- client that is there and of a run that is not at its end, at least one sends a frame, from any
    -- state on in which `elapsed` is near the time of its ticks; and the stream goes on behind them, in
    -- such a state again. The turns with those polls last less than the maximal duration, which is a week
    -- at most.
    pub idle-Sends :
        (st : State) (ps qs : List Poll)
        → All IsRunning ps
        → 21 ≤ length ps
        → InTime st ps
        → Sends st ps qs (λ fs. 0 < length fs)
    idle-Sends st ps qs h enough in_time =
        let next = (st.ticks + 20) / 21 in
        due-Sends (21 * next - st.ticks) next st ps qs h (omega arith) (omega arith) in_time
