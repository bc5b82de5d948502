-- ===== src/Tests/Api.antt =====
-- Tests of the API.
use temporal_agent_sandbox.Prelude.{
  none, List, map, ℕ, Text, codes, all, Option, some, true, [], ◌∷◌, ◌++◌, ◌≡◌, ◌↔◌, refl,
}
use temporal_agent_sandbox.Prelude.Methods.{is_ascii}
use temporal_agent_sandbox.Config.{Settings, defaults, calls}
use temporal_agent_sandbox.Config.Cached.{once, get_settings_lem}
use temporal_agent_sandbox.Api.Errors.{ok, err, other_error}
use temporal_agent_sandbox.Api.Auth.{verify_token, verify_token_iff, verify_token_type_error}
use temporal_agent_sandbox.Api.Ids.{RunRequest, validates, id_suffix, payload_text}
use temporal_agent_sandbox.Api.Ids.Tenant.{workflow_id-injective}
use temporal_agent_sandbox.Api.Ids.Payload.{payload_text-injective}
use temporal_agent_sandbox.Tests.Data.{same_bytes}

token_is_ascii : all is_ascii defaults.api_bearer_token ≡ true
unfolding codes
token_is_ascii = refl

verify_token_iff_example :
    (verify_token defaults (some (codes "Bearer x")) ≡ ok tt)
    ↔ (some (codes "Bearer x") ≡ some (codes "Bearer " ++ defaults.api_bearer_token))
verify_token_iff_example = verify_token_iff defaults (some (codes "Bearer x")) token_is_ascii

-- a token that is not ASCII
non_ascii_token_raises :
    verify_token defaults (some (codes "Bearer " ++ 0xe9 ∷ []))
    ≡ err (other_error (codes "TypeError"))
non_ascii_token_raises = verify_token_type_error defaults (0xe9 ∷ []) refl

abbrev request : Text → RunRequest
request tenant = record {
  task = codes "count";
  params = record { sandbox_timeout_s = some 5 };
  tenant_id = tenant;
  idempotency_key = some (codes "k");
}

request-validates : validates (request (codes "acme-1")) ≡ true
unfolding validates codes
request-validates = refl

workflow_id-injective_example :
    (codes "acme-1" ≡ codes "acme-1")
    × (id_suffix same_bytes (request (codes "acme-1"))
        ≡ id_suffix same_bytes (request (codes "acme-1")))
workflow_id-injective_example =
    workflow_id-injective same_bytes (request (codes "acme-1")) (request (codes "acme-1"))
      request-validates request-validates refl

same_payload : payload_text (request (codes "acme-1")) ≡ payload_text (request (codes "other"))
unfolding payload_text
same_payload = refl

payload_text-injective_example :
    (codes "count" ≡ codes "count") × (◌≡◌ {A = Option ℕ} (some 5) (some 5))
payload_text-injective_example =
    payload_text-injective (request (codes "acme-1")) (request (codes "other")) same_payload

-- an environment that cannot be read, and two that name an image
abbrev read_image : Option Text → Option Settings
read_image none = none
read_image (some image) = some (record defaults { sandbox_image = image })

abbrev environments : List (Option Text)
environments = none ∷ some (codes "a") ∷ some (codes "b") ∷ []

get_settings_lem_example : calls read_image none environments ≡ once (map read_image environments)
get_settings_lem_example = get_settings_lem read_image environments

-- The second reading is the one that is kept.
second_is_kept :
    calls read_image none environments
    ≡ none ∷ read_image (some (codes "a")) ∷ read_image (some (codes "a")) ∷ []
unfolding once
second_is_kept = get_settings_lem read_image environments
