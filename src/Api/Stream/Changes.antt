-- ===== src/Api/Stream/Changes.antt =====
-- When the stream announces a response: a reference of `gen`, which compares the responses themselves.
pub mod Gen
use temporal_agent_sandbox.Prelude.{
  ℕ, suc, ◌+◌, ◌*◌, ◌≤◌, ◌<◌, ◌%◌, Text, codes, ◌==◌, ==_iff, nat_eq, ltb, none, some, Option, Bool,
  if◌then◌else◌, true, false, List, [], ◌∷◌, ◌++◌, ◌≡◌, ◌≢◌, ◌⊎◌, ne_of_test, refl, sym, ap, arith,
  All, Bool-cases, inl, inr,
}
use temporal_agent_sandbox.Api.Errors.{Raised, api_error, rpc_error, other_error, Result, ok, err}
use temporal_agent_sandbox.Api.Status.{RunStatusResponse}
use temporal_agent_sandbox.Api.Stream.{
  Frame, event, done, keepalive, End, is_terminal, sse_event, State, start, emit, finish, turn,
  show, answered, gen, Poll,
}

-- the frames that are events
unfoldable pub events : List Frame → List Frame
events [] = []
events (keepalive ∷ fs) = events fs
events (event name a ∷ fs) = event name a ∷ events fs
events (done reason ∷ fs) = done reason ∷ events fs

module _ (max_dur : ℕ) where
  -- The events of the polls behind so many turns, where a response has been shown last. A poll that
  -- answers that response again is no event, and any other response is one.
  mutual
    pub data Tells : ℕ → RunStatusResponse → List Poll → List Frame → Type 0 where
      open_still : {n : ℕ} {a : RunStatusResponse} → Tells n a [] []
      gone :
          {n : ℕ} {a : RunStatusResponse} {p : Poll} {ps : List Poll}
          → p.disconnected ≡ true
          → Tells n a (p ∷ ps) []
      broken :
          {n : ℕ} {a : RunStatusResponse} {p : Poll} {ps : List Poll} (e : Raised)
          → p.disconnected ≡ false
          → p.answer ≡ err e
          → Tells n a (p ∷ ps) []
      over :
          {n : ℕ} {a : RunStatusResponse} {p : Poll} {ps : List Poll} (b : RunStatusResponse)
          → p.disconnected ≡ false
          → p.answer ≡ ok b
          → is_terminal b.status ≡ true
          → Tells n a (p ∷ ps) (event (sse_event b.status) b ∷ done none ∷ [])
      same :
          {n : ℕ} {a : RunStatusResponse} {p : Poll} {ps : List Poll} {fs : List Frame}
          → p.disconnected ≡ false
          → p.answer ≡ ok a
          → is_terminal a.status ≡ false
          → Goes n a ps fs
          → Tells n a (p ∷ ps) fs
      changed :
          {n : ℕ} {a : RunStatusResponse} {p : Poll} {ps : List Poll} {fs : List Frame}
          (b : RunStatusResponse)
          → p.disconnected ≡ false
          → p.answer ≡ ok b
          → is_terminal b.status ≡ false
          → b ≢ a
          → Goes n b ps fs
          → Tells n a (p ∷ ps) (event (codes "step") b ∷ fs)

    -- behind a turn: the duration has been reached, or there is a next one. Where the turns are exactly
    -- as long, it is for the sum of doubles to say.
    pub data Goes : ℕ → RunStatusResponse → List Poll → List Frame → Type 0 where
      expires :
          {n : ℕ} {a : RunStatusResponse} {ps : List Poll}
          → 10 * max_dur ≤ 7 * suc n
          → Goes n a ps (done (some (codes "max_duration")) ∷ [])
      continues :
          {n : ℕ} {a : RunStatusResponse} {ps : List Poll} {fs : List Frame}
          → 7 * suc n ≤ 10 * max_dur
          → Tells (suc n) a ps fs
          → Goes n a ps fs

  -- The events of a whole stream: the first response is shown as a snapshot.
  pub data Opens : List Poll → List Frame → Type 0 where
    open_still : Opens [] []
    gone : {p : Poll} {ps : List Poll} → p.disconnected ≡ true → Opens (p ∷ ps) []
    broken :
        {p : Poll} {ps : List Poll} (e : Raised)
        → p.disconnected ≡ false
        → p.answer ≡ err e
        → Opens (p ∷ ps) []
    over :
        {p : Poll} {ps : List Poll} (b : RunStatusResponse)
        → p.disconnected ≡ false
        → p.answer ≡ ok b
        → is_terminal b.status ≡ true
        → Opens
            (p ∷ ps)
            (event (codes "snapshot") b ∷ event (sse_event b.status) b ∷ done none ∷ [])
    begins :
        {p : Poll} {ps : List Poll} {fs : List Frame} (b : RunStatusResponse)
        → p.disconnected ≡ false
        → p.answer ≡ ok b
        → is_terminal b.status ≡ false
        → Goes 0 b ps fs
        → Opens (p ∷ ps) (event (codes "snapshot") b ∷ fs)

-- Every response of a poll has a property.
abbrev pub IsAnswer : (RunStatusResponse → Type 0) → Result RunStatusResponse → Type 0
IsAnswer P (ok a) = P a
IsAnswer P (err _) = Unit

abbrev pub AllAnswers : (RunStatusResponse → Type 0) → List Poll → Type 0
AllAnswers P [] = Unit
AllAnswers P (p ∷ ps) = IsAnswer P p.answer × AllAnswers P ps
