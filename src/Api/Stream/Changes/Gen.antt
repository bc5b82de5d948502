-- ===== src/Api/Stream/Changes/Gen.antt =====
-- `gen` against its reference.
use mathlib.Core.Path.{subst}
use temporal_agent_sandbox.Prelude.{
  ℕ, suc, ◌≤◌, ◌*◌, ◌%◌, Text, codes, ◌==◌, ==_iff, nat_eq, some, Bool, if◌then◌else◌, true, false,
  List, [], ◌∷◌, ◌++◌, ◌≡◌, ◌≢◌, ◌⊎◌, ne_of_test, refl, sym, ap, arith, Bool-cases, inl, inr,
}
use temporal_agent_sandbox.Api.Stream.Elapsed.{Near, longest, Near-suc, over_by, not_over_by}
use temporal_agent_sandbox.Api.Errors.{api_error, rpc_error, other_error, Result, ok, err}
use temporal_agent_sandbox.Api.Status.{RunStatusResponse}
use temporal_agent_sandbox.Api.Stream.{
  is_over, Frame, event, done, keepalive, End, is_terminal, State, start, emit, finish, turn, show,
  answered, gen, Poll,
}
use temporal_agent_sandbox.Api.Stream.Changes.{
  events, Tells, open_still, gone, broken, over, same, changed, Goes, expires, continues, Opens,
  begins, IsAnswer, AllAnswers,
}

events-append : (fs gs : List Frame) → events (fs ++ gs) ≡ events fs ++ events gs
unfolding events
events-append [] gs = refl
events-append (keepalive ∷ fs) gs = events-append fs gs
events-append (event name a ∷ fs) gs = ap (λ l. event name a ∷ l) (events-append fs gs)
events-append (done reason ∷ fs) gs = ap (λ l. done reason ∷ l) (events-append fs gs)

start-Near : Near 0 0
start-Near = (omega arith, omega arith)

-- a property of both branches of a test
either_way :
    {A : Type 0} {x y : A} (d : Bool) (F : A → Type 0)
    → (d ≡ true → F x)
    → (d ≡ false → F y)
    → F (if d then x else y)
either_way true F f g = f refl
either_way false F f g = g refl

module _ (P : RunStatusResponse → Type 0) (dump : RunStatusResponse → Text)
    (tells_apart : (a b : RunStatusResponse) → P a → P b → dump a ≡ dump b → a ≡ b) (max_dur : ℕ)
    (week : max_dur ≤ longest) where
  events-emit :
      (st : State) (a b : RunStatusResponse) (fs : List Frame)
      → st.last ≡ some (dump a)
      → P a
      → P b
      → ((b ≡ a) × (events (emit st (dump b) b ++ fs) ≡ events fs))
        ⊎ ((b ≢ a) × (events (emit st (dump b) b ++ fs) ≡ event (codes "step") b ∷ events fs))
  unfolding emit events
  events-emit st a b fs e pa pb = elim (Bool-cases (dump b == dump a)) [
    | inl alike ↦
        let again = tells_apart b a pb pa ((==_iff (dump b) (dump a)).0 alike) in
        elim (Bool-cases (nat_eq (st.ticks % 21) 0)) [
          | inl due ↦ rw (e, alike, due) (inl (again, refl))
          | inr idle ↦ rw (e, alike, idle) (inl (again, refl))
        ]
    | inr new ↦ rw (e, new) (inr (λ h. ne_of_test _ _ new (ap dump h), refl))
  ]

  -- a turn whose response is not terminal, and the frames behind it
  emit-Tells :
      (n : ℕ) (st : State) (a b : RunStatusResponse) (p : Poll) (ps : List Poll) (fs : List Frame)
      → st.last ≡ some (dump a)
      → P a
      → P b
      → p.disconnected ≡ false
      → p.answer ≡ ok b
      → is_terminal b.status ≡ false
      → Goes max_dur n b ps (events fs)
      → Tells max_dur n a (p ∷ ps) (events (emit st (dump b) b ++ fs))
  emit-Tells n st a b p ps fs e pa pb here answer running g = elim (events-emit st a b fs e pa pb) [
    | inl (again, shown) ↦ rw shown (
        same here (rw (answer, again) refl) (rw (sym again) running)
          (subst (λ x. Goes max_dur n x ps (events fs)) again g))
    | inr (new, shown) ↦ rw shown (changed b here answer running new g)
  ]

  module _ (n : ℕ) (st : State) (near : Near n st.elapsed) (so_far : 7 * n ≤ 10 * max_dur)
      (b : RunStatusResponse) (ps : List Poll) where
    next-Near : Near (suc n) (turn st (dump b)).elapsed
    unfolding turn
    next-Near = Near-suc n st.elapsed (omega arith) near

    turn-late :
        is_over max_dur (turn st (dump b)).elapsed ≡ true
        → Goes max_dur n b ps (done (some (codes "max_duration")) ∷ [])
    turn-late e = expires (over_by max_dur (suc n) _ (omega arith) next-Near e)

    still_in_time : is_over max_dur (turn st (dump b)).elapsed ≡ false → 7 * suc n ≤ 10 * max_dur
    still_in_time e = not_over_by max_dur (suc n) _ (omega arith) next-Near e

    turn-in_time :
        (fs : List Frame)
        → Tells max_dur (suc n) b ps fs
        → is_over max_dur (turn st (dump b)).elapsed ≡ false
        → Goes max_dur n b ps fs
    turn-in_time fs t e = continues (still_in_time e) t

    -- the frames behind a turn, if it is in time
    abbrev Behind : List Frame → Type 0
    Behind fs = 7 * suc n ≤ 10 * max_dur → Tells max_dur (suc n) b ps (events fs)

    show-Tells :
        (a : RunStatusResponse) (p : Poll) (rest : List Frame × End)
        → st.last ≡ some (dump a)
        → P a
        → P b
        → p.disconnected ≡ false
        → p.answer ≡ ok b
        → Behind rest.0
        → Tells max_dur n a (p ∷ ps) (events (show dump max_dur st b rest).0)
    unfolding show finish events
    show-Tells a p rest e pa pb here answer t = elim (Bool-cases (is_terminal b.status)) [
      | inl final ↦ rw (final, e) (over b here answer final)
      | inr running ↦ elim (Bool-cases (is_over max_dur (turn st (dump b)).elapsed)) [
        | inl late ↦
            rw (running, late)
              (emit-Tells n st a b p ps _ e pa pb here answer running (turn-late late))
        | inr in_time ↦
            rw (running, in_time)
              (emit-Tells n st a b p ps rest.0 e pa pb here answer running
                (turn-in_time (events rest.0) (t (still_in_time in_time)) in_time))
      ]
    ]

  show-Opens :
      (b : RunStatusResponse) (p : Poll) (ps : List Poll) (rest : List Frame × End)
      → p.disconnected ≡ false
      → p.answer ≡ ok b
      → (7 * 1 ≤ 10 * max_dur → Tells max_dur 1 b ps (events rest.0))
      → Opens max_dur (p ∷ ps) (events (show dump max_dur start b rest).0)
  unfolding show finish emit events
  show-Opens b p ps rest here answer t = elim (Bool-cases (is_terminal b.status)) [
    | inl final ↦ rw final (over b here answer final)
    | inr running ↦ elim (Bool-cases (is_over max_dur (turn start (dump b)).elapsed)) [
      | inl late ↦
          rw (running, late)
            (begins b here answer running (turn-late 0 start start-Near (omega arith) b ps late))
      | inr in_time ↦
          rw (running, in_time)
            (begins b here answer running (
              turn-in_time 0 start start-Near (omega arith) b ps (events rest.0)
                (t (still_in_time 0 start start-Near (omega arith) b ps in_time)) in_time))
    ]
  ]

  answered-Tells :
      (n : ℕ) (st : State) (a : RunStatusResponse) (p : Poll) (r : Result RunStatusResponse)
      (ps : List Poll) (after : RunStatusResponse → List Frame × End)
      → Near n st.elapsed
      → 7 * n ≤ 10 * max_dur
      → st.last ≡ some (dump a)
      → P a
      → p.disconnected ≡ false
      → p.answer ≡ r
      → IsAnswer P r
      → ((b : RunStatusResponse)
          → P b
          → 7 * suc n ≤ 10 * max_dur
          → Tells max_dur (suc n) b ps (events (after b).0))
      → Tells max_dur n a (p ∷ ps) (events (answered dump max_dur st r after).0)
  unfolding answered events
  answered-Tells n st a p (ok b) ps after near so_far e pa here answer pb h =
      show-Tells n st near so_far b ps a p (after b) e pa pb here answer (h b pb)
  answered-Tells n st a p (err (api_error c m t)) ps after near so_far e pa here answer pb h =
      broken _ here answer
  answered-Tells n st a p (err (rpc_error c)) ps after near so_far e pa here answer pb h =
      broken _ here answer
  answered-Tells n st a p (err (other_error m)) ps after near so_far e pa here answer pb h =
      broken _ here answer

  gen-Tells :
      (n : ℕ) (st : State) (a : RunStatusResponse) (ps : List Poll)
      → Near n st.elapsed
      → 7 * n ≤ 10 * max_dur
      → st.last ≡ some (dump a)
      → P a
      → AllAnswers P ps
      → Tells max_dur n a ps (events (gen dump max_dur st ps).0)
  unfolding gen turn events
  gen-Tells n st a [] near so_far e pa h = open_still
  gen-Tells n st a (p ∷ ps) near so_far e pa (q, h) =
      either_way p.disconnected (λ (r : List Frame × End). Tells max_dur n a (p ∷ ps) (events r.0))
        gone
        (λ here.
          answered-Tells n st a p p.answer ps (λ b. gen dump max_dur (turn st (dump b)) ps) near
            so_far e pa here refl q
            (λ b pb later.
              gen-Tells (suc n) (turn st (dump b)) b ps (Near-suc n st.elapsed (omega arith) near)
                later refl pb h))

  answered-Opens :
      (p : Poll) (r : Result RunStatusResponse) (ps : List Poll)
      (after : RunStatusResponse → List Frame × End)
      → p.disconnected ≡ false
      → p.answer ≡ r
      → IsAnswer P r
      → ((b : RunStatusResponse)
          → P b
          → 7 * 1 ≤ 10 * max_dur
          → Tells max_dur 1 b ps (events (after b).0))
      → Opens max_dur (p ∷ ps) (events (answered dump max_dur start r after).0)
  unfolding answered events
  answered-Opens p (ok b) ps after here answer pb h =
      show-Opens b p ps (after b) here answer (h b pb)
  answered-Opens p (err (api_error c m t)) ps after here answer pb h = broken _ here answer
  answered-Opens p (err (rpc_error c)) ps after here answer pb h = broken _ here answer
  answered-Opens p (err (other_error m)) ps after here answer pb h = broken _ here answer

  pub gen-Opens :
      (ps : List Poll) → AllAnswers P ps → Opens max_dur ps (events (gen dump max_dur start ps).0)
  unfolding gen turn events
  gen-Opens [] h = open_still
  gen-Opens (p ∷ ps) (q, h) =
      either_way p.disconnected (λ (r : List Frame × End). Opens max_dur (p ∷ ps) (events r.0)) gone
        (λ here.
          answered-Opens p p.answer ps (λ b. gen dump max_dur (turn start (dump b)) ps) here refl q
            (λ b pb later.
              gen-Tells 1 (turn start (dump b)) b ps (Near-suc 0 0 (omega arith) start-Near) later
                refl pb h))
