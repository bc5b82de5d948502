-- ===== src/Api/Ids.antt =====
-- The request of app/api/schemas.py, the payload and the workflow id of app/api/routes_runs.py, and
-- the tenant that app/activities/agents.py reads back from the id.
pub mod Payload
pub mod Tenant
use temporal_agent_sandbox.Prelude.{
  ℕ, Text, codes, length, all, take, str_nat, nat_eq, leb, Option, none, some, Bool, true, false,
  ◌&&◌, ◌||◌, List, [], ◌∷◌, ◌++◌, if◌then◌else◌,
}
use temporal_agent_sandbox.Prelude.Utf8.{Bytes, encode}

pub record RunParams : Type 0 where
  pub sandbox_timeout_s : Option ℕ

pub record RunRequest : Type 0 where
  pub task : Text
  pub params : RunParams
  pub tenant_id : Text
  pub idempotency_key : Option Text

abbrev pub is_between : ℕ → ℕ → ℕ → Bool
is_between lo hi n = leb lo n && leb n hi

-- `[a-z0-9]`
abbrev pub is_alphanumeric : ℕ → Bool
is_alphanumeric c = is_between b'a' b'z' c || is_between b'0' b'9' c

-- `^[a-z0-9][a-z0-9-]*$`
pub is_tenant : Text → Bool
is_tenant [] = false
is_tenant (c ∷ s) = is_alphanumeric c && all (λ d. is_alphanumeric d || nat_eq d b'-') s

abbrev pub optional : {A : Type 0} → (A → Bool) → Option A → Bool
optional p none = true
optional p (some a) = p a

-- the constraints of the `Field`s, which a request has passed before a handler runs
unfoldable pub validates : RunRequest → Bool
unfolding is_tenant
validates r =
    is_between 1 8192 (length r.task)
    && optional (is_between 1 120) r.params.sandbox_timeout_s
    && is_between 1 64 (length r.tenant_id)
    && is_tenant r.tenant_id
    && optional (λ k. leb (length k) 128) r.idempotency_key

-- `json.dumps(req.params.model_dump(), sort_keys=True)`
pub dumps_value : Option ℕ → Text
dumps_value none = codes "null"
dumps_value (some n) = str_nat n

pub dumps_params : RunParams → Text
unfolding dumps_value
dumps_params p = codes "{\"sandbox_timeout_s\": " ++ (dumps_value p.sandbox_timeout_s ++ codes "}")

unfoldable pub payload_text : RunRequest → Text
unfolding dumps_params
payload_text r = r.task ++ dumps_params r.params

-- `_payload_bytes`
unfoldable pub payload_bytes : RunRequest → Bytes
unfolding payload_text
payload_bytes r = encode (payload_text r)

-- The part of the id behind the tenant: the key, unless it is absent or empty, and else the hash.
-- `sha256` is `hashlib.sha256(…).hexdigest()`.
pub id_suffix : (Bytes → Text) → RunRequest → Text
id_suffix sha256 r = elim r.idempotency_key [
  | none ↦ take 32 (sha256 (payload_bytes r))
  | some [] ↦ take 32 (sha256 (payload_bytes r))
  | some (c ∷ s) ↦ c ∷ s
]

-- `_workflow_id`
unfoldable pub workflow_id : (Bytes → Text) → RunRequest → Text
unfolding id_suffix
workflow_id sha256 r = r.tenant_id ++ b':' ∷ id_suffix sha256 r

-- `run_id.split(":", 1)[0] if ":" in run_id else None`
unfoldable pub tenant_of : Text → Option Text
tenant_of [] = none
tenant_of (c ∷ s) =
    let rest = tenant_of s in
    if nat_eq c b':' then some [] else elim rest [ none ↦ none | some t ↦ some (c ∷ t) ]
