-- ===== src/Tests/Main.antt =====
-- Tests of the application, over a server that is a table of ids and memos.
use temporal_agent_sandbox.Prelude.{
  Text, codes, ==_iff, all, none, some, true, [], ◌∷◌, ◌++◌, ◌≡◌, ◌≢◌, refl, arith, Option-cases,
  inl, inr,
}
use temporal_agent_sandbox.Prelude.Methods.{is_ascii}
use temporal_agent_sandbox.Config.{defaults}
use temporal_agent_sandbox.Api.Errors.{err, rpc_error, not_found}
use temporal_agent_sandbox.Api.Create.{Start, with_method, create_run}
use temporal_agent_sandbox.Api.Create.Replay.{Replayed}
use temporal_agent_sandbox.Api.Ids.{workflow_id}
use temporal_agent_sandbox.Api.Status.{Handle}
use temporal_agent_sandbox.Api.Main.{
  Backend, Request, Response, cancel, json, error_json, respond, request_id_of,
}
use temporal_agent_sandbox.Api.Main.Gate.{respond-unauthorized}
use temporal_agent_sandbox.Api.Main.History.{Keeps, serve, serve-Replayed}
use temporal_agent_sandbox.Tests.Data.{same_bytes}
use temporal_agent_sandbox.Tests.Create.{
  Table, memo_of, start, describe, table_client, table-RejectsDuplicates, asked, first_memo,
  first_accepted, other_fits,
}

abbrev lost : Handle
lost = record {
  describe = err (rpc_error not_found);
  query = err (rpc_error not_found);
  outcome = err (rpc_error not_found);
  cause = none;
  cancel = err (rpc_error not_found);
}

abbrev backend : Backend Table
backend = record {
  client = table_client;
  handle = λ id table. lost;
  cancel = λ id table. table;
  connected = λ table. true;
  check_health = λ table. none;
}

start_keeps :
    (a : Start) (id memo : Text) (table : Table)
    → describe id table ≡ with_method (some memo)
    → describe id (start a table).1 ≡ with_method (some memo)
unfolding memo_of
start_keeps a id memo table e = elim (Option-cases (memo_of a.id table)) [
  | inl fresh ↦ ground (arith, fresh, e, ==_iff id a.id)
  | inr (m, taken) ↦ ground (arith, taken, e)
]

backend-Keeps : Keeps backend
backend-Keeps = record {
  duplicates = table-RejectsDuplicates;
  start = start_keeps;
  cancel = λ run_id id memo table e. e;
}

abbrev stop_it : Request
stop_it = record {
  route = cancel (codes "acme:k");
  authorization = some (codes "Bearer guess");
  request_id = some (codes "r1");
  fresh = codes "f";
}

token_is_plain : all is_ascii defaults.api_bearer_token ≡ true
unfolding codes
token_is_plain = refl

guess_is_plain : all is_ascii (codes "Bearer guess") ≡ true
unfolding codes
guess_is_plain = refl

guess_is_wrong : stop_it.authorization ≢ some (codes "Bearer " ++ defaults.api_bearer_token)
unfolding codes
guess_is_wrong e = cc

respond-unauthorized_example :
    (m : Text) × (respond backend defaults same_bytes stop_it first_memo ≡ (
      some (record {
        status_code = 401;
        request_id = request_id_of stop_it;
        www_authenticate = true;
        content = json (error_json (codes "UNAUTHORIZED") m (request_id_of stop_it));
      }),
      first_memo,
    ))
respond-unauthorized_example =
    respond-unauthorized backend defaults same_bytes stop_it first_memo token_is_plain tt
      guess_is_plain guess_is_wrong

abbrev refused : Response
refused = record {
  status_code = 401;
  request_id = codes "r1";
  www_authenticate = true;
  content = json (error_json (codes "UNAUTHORIZED") (codes "invalid bearer token") (codes "r1"));
}

serve-Replayed_example :
    Replayed table_client defaults same_bytes
      (asked (codes "count"))
      (asked (codes "other"))
      (create_run table_client defaults same_bytes
        (asked (codes "other"))
        (serve backend defaults same_bytes (stop_it ∷ []) first_memo)).0
    × ((create_run table_client defaults same_bytes
          (asked (codes "other"))
          (serve backend defaults same_bytes (stop_it ∷ []) first_memo)).1
        ≡ serve backend defaults same_bytes (stop_it ∷ []) first_memo)
unfolding workflow_id codes
serve-Replayed_example =
    serve-Replayed backend defaults same_bytes (asked (codes "count")) (asked (codes "other")) []
      first_memo (stop_it ∷ []) backend-Keeps first_accepted refl other_fits
