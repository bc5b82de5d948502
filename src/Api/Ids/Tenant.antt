-- ===== src/Api/Ids/Tenant.antt =====
-- A workflow id names its tenant: the tenant of a request has no colon.
use temporal_agent_sandbox.Prelude.{
  Text, all, nat_eq, some, true, ◌||◌, [], ◌∷◌, ◌++◌, ◌≡◌, ◌≢◌, refl, arith, All, ap,
}
use mathlib.Core.List.{append_cancel_left}
use temporal_agent_sandbox.Prelude.Utf8.{Bytes}
use temporal_agent_sandbox.Api.Ids.{
  RunRequest, is_alphanumeric, is_tenant, validates, workflow_id, id_suffix, tenant_of,
}

tail_no_colon :
    (s : Text) → all (λ d. is_alphanumeric d || nat_eq d b'-') s ≡ true → All (λ c. c ≢ b':') s
tail_no_colon [] h = tt
tail_no_colon (c ∷ s) h = (λ e. ground arith, tail_no_colon s (ground arith))

tenant_no_colon : (s : Text) → is_tenant s ≡ true → All (λ c. c ≢ b':') s
unfolding is_tenant
tenant_no_colon [] h = cc
tenant_no_colon (c ∷ s) h = (λ e. ground arith, tail_no_colon s (ground arith))

tenant_of-append : (s t : Text) → All (λ c. c ≢ b':') s → tenant_of (s ++ b':' ∷ t) ≡ some s
unfolding tenant_of
tenant_of-append [] t h = refl
tenant_of-append (c ∷ s) t (p, h) = ground (arith, tenant_of-append s t h)

validates-tenant : (r : RunRequest) → validates r ≡ true → is_tenant r.tenant_id ≡ true
unfolding validates
validates-tenant r h = ground arith

-- The activities read the tenant of a valid request back from the run id.
pub tenant_of-workflow_id :
    (sha256 : Bytes → Text) (r : RunRequest)
    → validates r ≡ true
    → tenant_of (workflow_id sha256 r) ≡ some r.tenant_id
unfolding workflow_id
tenant_of-workflow_id sha256 r h =
    tenant_of-append r.tenant_id (id_suffix sha256 r)
      (tenant_no_colon r.tenant_id (validates-tenant r h))

colon_injective : {a b : Text} → ◌≡◌ {A = Text} (b':' ∷ a) (b':' ∷ b) → a ≡ b
colon_injective e = cc

behind_colon : (s t a b : Text) → s ≡ t → s ++ b':' ∷ a ≡ t ++ b':' ∷ b → a ≡ b
behind_colon s t a b same e = colon_injective (append_cancel_left t (b':' ∷ a) (b':' ∷ b) (cc))

-- Valid requests with one workflow id are of one tenant, and agree behind it: no tenant can reach a
-- run of another by any choice of key or task.
pub workflow_id-injective :
    (sha256 : Bytes → Text) (r q : RunRequest)
    → validates r ≡ true
    → validates q ≡ true
    → workflow_id sha256 r ≡ workflow_id sha256 q
    → (r.tenant_id ≡ q.tenant_id) × (id_suffix sha256 r ≡ id_suffix sha256 q)
workflow_id-injective sha256 r q hr hq e =
    let one : r.tenant_id ≡ q.tenant_id =
      cc (tenant_of-workflow_id sha256 r hr, tenant_of-workflow_id sha256 q hq, ap tenant_of e) in
    (one, behind_colon r.tenant_id q.tenant_id _ _ one (unfold workflow_id in e))
