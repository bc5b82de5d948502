-- ===== src/Tests/Create.antt =====
-- Tests of run creation, against a server that is a table of ids and memos.
use temporal_agent_sandbox.Prelude.{
  Text, codes, str_nat, ◌==◌, ==_refl, length, ltb, Option, none, some, false, List, [], ◌∷◌, ◌≡◌,
  refl, arith, Option-cases, inl, inr, if◌then◌else◌,
}
use temporal_agent_sandbox.Prelude.Utf8.{encode}
use temporal_agent_sandbox.Config.{defaults}
use temporal_agent_sandbox.Api.Errors.{ok}
use temporal_agent_sandbox.Api.Ids.{RunRequest, workflow_id, payload_bytes}
use temporal_agent_sandbox.Api.Create.{
  Start, Started, started, already_started, Described, unknown, with_method, Client, accept,
  limits_of, create_run,
}
use temporal_agent_sandbox.Api.Create.Limits.{IsClamped, limits_of-IsClamped}
use temporal_agent_sandbox.Api.Create.Replay.{RejectsDuplicates}
use temporal_agent_sandbox.Tests.Data.{same_bytes}

abbrev pub Table : Type 0
Table = List (Text × Text)

unfoldable pub memo_of : Text → Table → Option Text
memo_of id [] = none
memo_of id ((k, v) ∷ m) = if id == k then some v else memo_of id m

abbrev pub start : Start → Table → Started × Table
start a table = elim (memo_of a.id table) [
  | none ↦ (started, (a.id, a.task_sha256) ∷ table)
  | some _ ↦ (already_started, table)
]

abbrev pub describe : Text → Table → Described
describe id table = elim (memo_of id table) [ none ↦ unknown | some m ↦ with_method (some m) ]

abbrev pub table_client : Client Table
table_client = record { start_workflow = start; describe = describe }

table_remembers :
    (a : Start) (server after : Table)
    → start a server ≡ (started, after)
    → describe a.id after ≡ with_method (some a.task_sha256)
unfolding memo_of
table_remembers a server after e = elim (Option-cases (memo_of a.id server)) [
  | inl fresh ↦ ground (arith, fresh, e, ==_refl a.id)
  | inr (m, taken) ↦ absurd (ground (arith, taken, e))
]

table_rejects :
    (a : Start) (server : Table) (memo : Text)
    → describe a.id server ≡ with_method (some memo)
    → start a server ≡ (already_started, server)
unfolding memo_of
table_rejects a server memo e = elim (Option-cases (memo_of a.id server)) [
  | inl fresh ↦ absurd (ground (arith, fresh, e))
  | inr (m, taken) ↦ rw (taken, start) refl
]

pub table-RejectsDuplicates : RejectsDuplicates table_client
table-RejectsDuplicates = record { remembers = table_remembers; rejects = table_rejects }

abbrev pub asked : Text → RunRequest
asked task = record {
  task = task;
  params = record { sandbox_timeout_s = some 90 };
  tenant_id = codes "acme";
  idempotency_key = some (codes "k");
}

abbrev pub first_memo : Table
first_memo = (codes "acme:k", codes "count{\"sandbox_timeout_s\": 90}") ∷ []

pub first_accepted : create_run table_client defaults same_bytes (asked (codes "count")) [] ≡ (
  ok (accept 201 (workflow_id same_bytes (asked (codes "count"))) (asked (codes "count"))),
  first_memo,
)
unfolding create_run codes encode memo_of workflow_id payload_bytes str_nat
first_accepted = refl

pub other_fits : ltb defaults.max_task_bytes (length (encode (asked (codes "other")).task)) ≡ false
unfolding codes encode
other_fits = refl

count-IsClamped :
    IsClamped defaults (asked (codes "count")) (limits_of defaults (asked (codes "count")))
count-IsClamped = limits_of-IsClamped defaults (asked (codes "count"))
