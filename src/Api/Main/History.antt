-- ===== src/Api/Main/History.antt =====
-- A submission after any number of other requests.
use temporal_agent_sandbox.Prelude.{
  Text, length, ltb, Option, some, false, List, [], ◌∷◌, ◌≡◌, inl, inr, Bool-cases,
}
use temporal_agent_sandbox.Prelude.Utf8.{Bytes, encode}
use temporal_agent_sandbox.Config.{Settings}
use temporal_agent_sandbox.Api.Errors.{Result, ok, err}
use temporal_agent_sandbox.Api.Auth.{verify_token}
use temporal_agent_sandbox.Api.Ids.{RunRequest, validates, payload_bytes, workflow_id}
use temporal_agent_sandbox.Api.Create.{Start, with_method, accept, start_of, create_run}
use temporal_agent_sandbox.Api.Create.Replay.{
  RejectsDuplicates, Replayed, Replayed-at, created_memo,
}
use temporal_agent_sandbox.Api.Main.{
  Backend, malformed, parsed, Route, create, read, stream, cancel, healthz, readyz, Request,
  created, handle_run, behind_token, dispatch, respond,
}

-- What Temporal documents, further: within the retention period the memo of a workflow outlives other starts and requests to cancel,
-- also of the workflow itself.
pub record Keeps {S : Type 0} (b : Backend S) : Type 0 where
  pub duplicates : RejectsDuplicates b.client
  pub start :
      (a : Start) (id memo : Text) (server : S)
      → b.client.describe id server ≡ with_method (some memo)
      → b.client.describe id (b.client.start_workflow a server).1 ≡ with_method (some memo)
  pub cancel :
      (run_id id memo : Text) (server : S)
      → b.client.describe id server ≡ with_method (some memo)
      → b.client.describe id (b.cancel run_id server) ≡ with_method (some memo)

module _ {S : Type 0} (b : Backend S) (s : Settings) (sha256 : Bytes → Text) where
  -- the server after a sequence of requests, the first one first
  abbrev pub serve : List Request → S → S
  serve [] server = server
  serve (q ∷ qs) server = serve qs (respond b s sha256 q server).1

  module _ (laws : Keeps b) (id memo : Text) where
    abbrev Known : S → Type 0
    Known server = b.client.describe id server ≡ with_method (some memo)

    Known-create_run :
        (r : RunRequest) (server : S)
        → Known server
        → Known (create_run b.client s sha256 r server).1
    unfolding create_run
    Known-create_run r server h =
        elim (Bool-cases (ltb s.max_task_bytes (length (encode r.task)))) [
          | inl long ↦ rw long h
          | inr fits ↦ rw fits (laws.start (start_of s sha256 r) id memo server h)
        ]

    Known-created :
        (r : RunRequest) (errors : Text) (server : S)
        → Known server
        → Known (created b s sha256 r errors server).1
    unfolding created
    Known-created r errors server h = elim (Bool-cases (validates r)) [
      | inl valid ↦ rw valid (Known-create_run r server h)
      | inr wrong ↦ rw wrong h
    ]

    Known-handle_run :
        (route : Route) (server : S) → Known server → Known (handle_run b s sha256 route server).1
    unfolding handle_run
    Known-handle_run (create (malformed e)) server h = h
    Known-handle_run (create (parsed r e)) server h = Known-created r e server h
    Known-handle_run (read i) server h = h
    Known-handle_run (stream i ps) server h = h
    Known-handle_run (cancel i) server h = laws.cancel i id memo server h
    Known-handle_run healthz server h = h
    Known-handle_run readyz server h = h

    Known-behind_token :
        (checked : Result (Unit {0})) (route : Route) (server : S)
        → Known server
        → Known (behind_token b s sha256 checked route server).1
    unfolding behind_token
    Known-behind_token (ok _) route server h = Known-handle_run route server h
    Known-behind_token (err e) route server h = h

    Known-dispatch :
        (a : Option Text) (route : Route) (server : S)
        → Known server
        → Known (dispatch b s sha256 a route server).1
    unfolding dispatch
    Known-dispatch a (create (malformed e)) server h = h
    Known-dispatch a (create (parsed r e)) server h =
        Known-behind_token (verify_token s a) _ server h
    Known-dispatch a (read i) server h = Known-behind_token (verify_token s a) _ server h
    Known-dispatch a (stream i ps) server h = Known-behind_token (verify_token s a) _ server h
    Known-dispatch a (cancel i) server h = Known-behind_token (verify_token s a) _ server h
    Known-dispatch a healthz server h = Known-handle_run healthz server h
    Known-dispatch a readyz server h = Known-handle_run readyz server h

    Known-serve : (qs : List Request) (server : S) → Known server → Known (serve qs server)
    unfolding respond
    Known-serve [] server h = h
    Known-serve (q ∷ qs) server h =
        Known-serve qs (respond b s sha256 q server).1
          (Known-dispatch q.authorization q.route server h)

  -- Once a submission has been accepted with 201, any requests may follow, of any clients: another
  -- submission under its workflow id starts nothing, and is answered 200 with the same run, also if its
  -- payload is another one, so that a conflict is never told. The task must be within the size limit, and
  -- Temporal must keep to its documentation, by which the memo of a description is a method.
  pub serve-Replayed :
      (r p : RunRequest) (server after : S) (qs : List Request)
      → Keeps b
      → create_run b.client s sha256 r server ≡ (ok (accept 201 (workflow_id sha256 r) r), after)
      → workflow_id sha256 p ≡ workflow_id sha256 r
      → ltb s.max_task_bytes (length (encode p.task)) ≡ false
      → Replayed b.client s sha256 r p (create_run b.client s sha256 p (serve qs after)).0
        × ((create_run b.client s sha256 p (serve qs after)).1 ≡ serve qs after)
  serve-Replayed r p server after qs laws first same fits =
      Replayed-at b.client s sha256 r p (serve qs after) laws.duplicates same fits (
        Known-serve laws (workflow_id sha256 r) (sha256 (payload_bytes r)) qs after
          (created_memo b.client s sha256 r server after laws.duplicates first))
