-- ===== src/Api/Create/Codes.antt =====
-- The status codes of an accepted submission.
use temporal_agent_sandbox.Prelude.{◌<◌, Text, length, ltb, arith, Bool-cases, inl, inr}
use temporal_agent_sandbox.Prelude.Utf8.{Bytes, encode}
use temporal_agent_sandbox.Config.{Settings}
use temporal_agent_sandbox.Api.Errors.{not_found, unavailable, other_code, Result, ok, err}
use temporal_agent_sandbox.Api.Ids.{RunRequest}
use temporal_agent_sandbox.Api.Create.{
  Started, started, already_started, rpc_failed, Client, Accepted, accept, handle_already_started,
  answer, create_run,
}

abbrev pub IsSuccess : Result Accepted → Type 0
IsSuccess (ok a) = a.status_code < 300
IsSuccess (err e) = Unit

module _ {S : Type 0} (client : Client S) (s : Settings) (sha256 : Bytes → Text) where
  answer-IsSuccess :
      (reply : Started) (r : RunRequest) (server : S)
      → IsSuccess (answer client s sha256 reply r server)
  unfolding answer accept handle_already_started
  answer-IsSuccess started r server = omega arith
  answer-IsSuccess already_started r server = ground arith
  answer-IsSuccess (rpc_failed unavailable) r server = tt
  answer-IsSuccess (rpc_failed not_found) r server = tt
  answer-IsSuccess (rpc_failed (other_code c)) r server = tt

  -- An accepted submission is answered with a code below 300.
  pub create_run-IsSuccess :
      (r : RunRequest) (server : S) → IsSuccess (create_run client s sha256 r server).0
  unfolding create_run
  create_run-IsSuccess r server =
      elim (Bool-cases (ltb s.max_task_bytes (length (encode r.task)))) [
        | inl long ↦ rw long tt
        | inr fits ↦ rw fits (answer-IsSuccess _ r _)
      ]
