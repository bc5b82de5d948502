-- ===== src/Api/Main/Envelope.antt =====
-- What every response carries.
use temporal_agent_sandbox.Prelude.{ℕ, ◌<◌, ◌≤◌, Text, nat_eq, ◌≡◌, ◌⊎◌}
use temporal_agent_sandbox.Api.Errors.{Result, ok, err}
use temporal_agent_sandbox.Api.Main.{
  Route, readyz, Request, Response, Content, json, error_json, request_id_of,
}

-- A handler's answer is a success, or the 503 of the readiness probe, which is no envelope.
abbrev pub Fits : Route → Result (ℕ × Content) → Type 0
Fits route (ok (n, c)) = (n < 300) ⊎ ((n ≡ 503) × (route ≡ readyz))
Fits route (err e) = Unit

-- The request's id is on the response, the challenge header exactly on a 401, and a response that is no
-- success is an error envelope with the same id, but for the readiness probe.
pub record Carries (q : Request) (r : Response) : Type 0 where
  pub request_id : r.request_id ≡ request_id_of q
  pub challenge : r.www_authenticate ≡ nat_eq r.status_code 401
  pub error :
      300 ≤ r.status_code
      → ((code : Text) × (m : Text) × (r.content ≡ json (error_json code m (request_id_of q))))
        ⊎ (q.route ≡ readyz)
