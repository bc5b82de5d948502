-- ===== src/Api/Main/Gate.antt =====
-- The token check in front of the run routes.
use temporal_agent_sandbox.Prelude.{
  Text, codes, all, Option, some, true, ◌++◌, ◌≡◌, ◌≢◌, inl, inr, refl,
}
use temporal_agent_sandbox.Prelude.Utf8.{Bytes}
use temporal_agent_sandbox.Prelude.Methods.{is_ascii}
use temporal_agent_sandbox.Config.{Settings}
use temporal_agent_sandbox.Api.Auth.{verify_token, verify_token_iff, verify_token-cases, IsPlain}
use temporal_agent_sandbox.Api.Main.{
  Backend, malformed, parsed, Route, create, read, stream, cancel, healthz, readyz, Request, json,
  error_json, envelope, answer, request_id_of, behind_token, dispatch, respond,
}

-- The routes that need a token, but for a body that FastAPI cannot read.
abbrev pub IsGuarded : Route → Type 0
IsGuarded (create (malformed _)) = ⊥
IsGuarded healthz = ⊥
IsGuarded readyz = ⊥
IsGuarded _ = Unit

module _ {S : Type 0} (b : Backend S) (s : Settings) (sha256 : Bytes → Text) where
  dispatch-guarded :
      (authorization : Option Text) (route : Route) (server : S)
      → IsGuarded route
      → dispatch b s sha256 authorization route server
        ≡ behind_token b s sha256 (verify_token s authorization) route server
  unfolding dispatch
  dispatch-guarded a (create (malformed e)) server h = absurd h
  dispatch-guarded a (create (parsed r e)) server h = refl
  dispatch-guarded a (read i) server h = refl
  dispatch-guarded a (stream i ps) server h = refl
  dispatch-guarded a (cancel i) server h = refl
  dispatch-guarded a healthz server h = absurd h
  dispatch-guarded a readyz server h = absurd h

  -- A request to a run route without the configured token (which is ASCII, as the header is) starts,
  -- reads and cancels nothing: the server is as before, and the answer is the 401 envelope with the
  -- request's id and the challenge header. A request to create a run must have a body that FastAPI can
  -- read as a task; another body is answered before the token is looked at.
  pub respond-unauthorized :
      (q : Request) (server : S)
      → all is_ascii s.api_bearer_token ≡ true
      → IsGuarded q.route
      → IsPlain q.authorization
      → q.authorization ≢ some (codes "Bearer " ++ s.api_bearer_token)
      → (m : Text) × (respond b s sha256 q server ≡ (
        some (record {
          status_code = 401;
          request_id = request_id_of q;
          www_authenticate = true;
          content = json (error_json (codes "UNAUTHORIZED") m (request_id_of q));
        }),
        server,
      ))
  unfolding respond behind_token answer envelope
  respond-unauthorized q server ascii guarded plain other =
      elim (verify_token-cases s q.authorization ascii plain) [
        | inl passes ↦ absurd (other ((verify_token_iff s q.authorization ascii).0 passes))
        | inr (m, fails) ↦
            (m, rw (dispatch-guarded q.authorization q.route server guarded, fails) refl)
      ]
