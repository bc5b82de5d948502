-- ===== src/Api/Create/Replay.antt =====
-- A second submission under the same workflow id.
use temporal_agent_sandbox.Prelude.{
  Text, length, ltb, some, false, ap, ◌≡◌, inl, inr, refl, arith, Bool-cases,
}
use temporal_agent_sandbox.Prelude.Utf8.{Bytes, encode}
use temporal_agent_sandbox.Config.{Settings}
use temporal_agent_sandbox.Api.Errors.{Result, ok, unavailable, not_found, other_code}
use temporal_agent_sandbox.Api.Ids.{RunRequest, payload_bytes, workflow_id}
use temporal_agent_sandbox.Api.Create.{
  Start, Started, started, already_started, rpc_failed, with_method, Client, Accepted, accept,
  start_of, conflicts, handle_already_started, answer, create_run,
}

-- What Temporal documents of ids under REJECT_DUPLICATE, and its client of descriptions: a workflow that
-- has been started is described with its memo, which a method gives, and the start of another with its id
-- is rejected and changes nothing.
pub record RejectsDuplicates {S : Type 0} (client : Client S) : Type 0 where
  pub remembers :
      (a : Start) (server after : S)
      → client.start_workflow a server ≡ (started, after)
      → client.describe a.id after ≡ with_method (some a.task_sha256)
  pub rejects :
      (a : Start) (server : S) (memo : Text)
      → client.describe a.id server ≡ with_method (some memo)
      → client.start_workflow a server ≡ (already_started, server)

module _ {S : Type 0} (client : Client S) (s : Settings) (sha256 : Bytes → Text) where
  -- the answer to a later submission, whatever its payload is
  abbrev pub Replayed : RunRequest → RunRequest → Result Accepted → Type 0
  Replayed r q out = out ≡ ok (accept 200 (workflow_id sha256 r) q)

  Replayed-handle_already_started :
      (r q : RunRequest) (server : S)
      → client.describe (workflow_id sha256 r) server
        ≡ with_method (some (sha256 (payload_bytes r)))
      → Replayed r q (handle_already_started client s sha256 q (workflow_id sha256 r) server)
  unfolding handle_already_started conflicts
  Replayed-handle_already_started r q server d = rw d refl

  answer_started :
      (reply : Started) (r : RunRequest) (server : S)
      → answer client s sha256 reply r server ≡ ok (accept 201 (workflow_id sha256 r) r)
      → reply ≡ started
  unfolding answer accept handle_already_started
  answer_started started r server e = refl
  answer_started already_started r server e = absurd (ground arith)
  answer_started (rpc_failed unavailable) r server e = absurd (ground arith)
  answer_started (rpc_failed not_found) r server e = absurd (ground arith)
  answer_started (rpc_failed (other_code c)) r server e = absurd (ground arith)

  created :
      (r : RunRequest) (server after : S)
      → create_run client s sha256 r server ≡ (ok (accept 201 (workflow_id sha256 r) r), after)
      → client.start_workflow (start_of s sha256 r) server ≡ (started, after)
  unfolding create_run accept answer handle_already_started
  created r server after e = elim (Bool-cases (ltb s.max_task_bytes (length (encode r.task)))) [
    | inl long ↦ absurd (ground arith)
    | inr fits ↦
        let whole = rw fits at e in
        let reply = answer_started _ r _ (ap (λ x. x.0) whole) in cc (reply, ap (λ x. x.1) whole)
  ]

  -- After the first submission the server knows its memo.
  pub created_memo :
      (r : RunRequest) (server after : S)
      → RejectsDuplicates client
      → create_run client s sha256 r server ≡ (ok (accept 201 (workflow_id sha256 r) r), after)
      → client.describe (workflow_id sha256 r) after ≡ with_method (some (sha256 (payload_bytes r)))
  unfolding start_of
  created_memo r server after laws first =
      laws.remembers (start_of s sha256 r) server after (created r server after first)

  -- A submission to a server that knows the memo of its id.
  pub Replayed-at :
      (r q : RunRequest) (server : S)
      → RejectsDuplicates client
      → workflow_id sha256 q ≡ workflow_id sha256 r
      → ltb s.max_task_bytes (length (encode q.task)) ≡ false
      → client.describe (workflow_id sha256 r) server
        ≡ with_method (some (sha256 (payload_bytes r)))
      → Replayed r q (create_run client s sha256 q server).0
        × ((create_run client s sha256 q server).1 ≡ server)
  unfolding create_run start_of answer
  Replayed-at r q server laws same fits memo =
      let again =
        laws.rejects (start_of s sha256 q) server (sha256 (payload_bytes r)) (rw same memo) in
      rw (fits, again, same) (Replayed-handle_already_started r q server memo, refl)

  -- Once a request has been accepted with 201, another under the same workflow id starts nothing, and is
  -- answered 200 with the same run id, whatever its payload is. The task must be within the size limit,
  -- and Temporal must keep to its documentation.
  pub create_run-Replayed :
      (r q : RunRequest) (server after : S)
      → RejectsDuplicates client
      → create_run client s sha256 r server ≡ (ok (accept 201 (workflow_id sha256 r) r), after)
      → workflow_id sha256 q ≡ workflow_id sha256 r
      → ltb s.max_task_bytes (length (encode q.task)) ≡ false
      → Replayed r q (create_run client s sha256 q after).0
        × ((create_run client s sha256 q after).1 ≡ after)
  create_run-Replayed r q server after laws first same fits =
      Replayed-at r q after laws same fits (created_memo r server after laws first)
