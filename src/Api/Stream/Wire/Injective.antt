-- ===== src/Api/Stream/Wire/Injective.antt =====
-- What the sorted fields of a response say of it.
use temporal_agent_sandbox.Prelude.{
  ℕ, ℤ, pos, Text, codes, ◌==◌, if◌then◌else◌, Option, none, some, Bool, false, List, [], ◌∷◌, ◌≡◌,
  ◌≢◌, refl, sym, ap,
}
use temporal_agent_sandbox.Prelude.Json.Value.{
  Json, null, boolean, number, string, array, object, Items, no_items, field, optional_string,
  strings,
}
use temporal_agent_sandbox.Api.Status.{
  StepModel, SandboxModel, RunResultModel, ErrorDetail, RunStatusResponse,
}
use temporal_agent_sandbox.Api.Stream.Wire.{
  step_json, sandbox_json, result_json, error_json, steps_json, optional_json, payload_json,
  precedes, insert_field, sort_keys, sort_items,
}

optional_string-injective :
    (x y : Option Text) → sort_keys (optional_string x) ≡ sort_keys (optional_string y) → x ≡ y
unfolding sort_keys
optional_string-injective none none e = refl
optional_string-injective none (some s) e = cc
optional_string-injective (some s) none e = cc
optional_string-injective (some s) (some t) e = cc

strings-injective : (x y : List Text) → sort_items (strings x) ≡ sort_items (strings y) → x ≡ y
unfolding sort_keys
strings-injective [] [] e = refl
strings-injective [] (t ∷ y) e = cc
strings-injective (s ∷ x) [] e = cc
strings-injective (s ∷ x) (t ∷ y) e =
    let front : s ≡ t = cc in
    let behind : sort_items (strings x) ≡ sort_items (strings y) = cc in
    cc (front, strings-injective x y behind)

step-injective : (s t : StepModel) → sort_keys (step_json s) ≡ sort_keys (step_json t) → s ≡ t
unfolding sort_keys insert_field precedes step_json codes
step-injective s t e =
    let detail : sort_keys (optional_string s.detail) ≡ sort_keys (optional_string t.detail) = cc in
    cc (optional_string-injective s.detail t.detail detail)

steps-injective :
    (x y : List StepModel) → sort_items (steps_json x) ≡ sort_items (steps_json y) → x ≡ y
unfolding sort_keys steps_json
steps-injective [] [] e = refl
steps-injective [] (t ∷ y) e = cc
steps-injective (s ∷ x) [] e = cc
steps-injective (s ∷ x) (t ∷ y) e =
    let front : sort_keys (step_json s) ≡ sort_keys (step_json t) = cc in
    let behind : sort_items (steps_json x) ≡ sort_items (steps_json y) = cc in
    cc (step-injective s t front, steps-injective x y behind)

-- the value of a field, and what it holds
value_at : Text → Json → Json
value_at k (object (field j v fs)) = if k == j then v else value_at k (object fs)
value_at k _ = null

text_of : Json → Text
text_of (string s) = s
text_of _ = []

int_of : Json → ℤ
int_of (number i) = i
int_of _ = pos 0

truth_of : Json → Bool
truth_of (boolean b) = b
truth_of _ = false

items_of : Json → Items
items_of (array vs) = vs
items_of _ = no_items

optional-injective :
    {A : Type 0} (f : A → Json)
    → ((a b : A) → sort_keys (f a) ≡ sort_keys (f b) → a ≡ b)
    → ((a : A) → sort_keys (f a) ≢ null)
    → (x y : Option A) → sort_keys (optional_json f x) ≡ sort_keys (optional_json f y)
    → x ≡ y
unfolding sort_keys
optional-injective f inj some_null none none e = refl
optional-injective f inj some_null none (some b) e = absurd (some_null b (sym e))
optional-injective f inj some_null (some a) none e = absurd (some_null a e)
optional-injective f inj some_null (some a) (some b) e = ap some (inj a b e)

objects_not_null :
    ((x : SandboxModel) → sort_keys (sandbox_json x) ≢ null)
    × ((x : RunResultModel) → sort_keys (result_json x) ≢ null)
    × ((x : ErrorDetail) → sort_keys (error_json x) ≢ null)
unfolding sort_keys sandbox_json result_json error_json
objects_not_null = (λ x e. cc, λ x e. cc, λ x e. cc)

SandboxModel-eq :
    (x y : SandboxModel)
    → x.runtime ≡ y.runtime
    → x.exit_code ≡ y.exit_code
    → x.is_success ≡ y.is_success
    → x.failure_reason ≡ y.failure_reason
    → x.wall_ms ≡ y.wall_ms
    → x.oom_killed ≡ y.oom_killed
    → x.wall_clock_exceeded ≡ y.wall_clock_exceeded
    → x.truncated ≡ y.truncated
    → x.stdout_tail ≡ y.stdout_tail
    → x.stderr_tail ≡ y.stderr_tail
    → x ≡ y
SandboxModel-eq x y a b c d e f g h i j = cc

pos-injective : {m n : ℕ} → ◌≡◌ {A = ℤ} (pos m) (pos n) → m ≡ n
pos-injective e = cc

sandbox-injective :
    (x y : SandboxModel) → sort_keys (sandbox_json x) ≡ sort_keys (sandbox_json y) → x ≡ y
unfolding sort_keys insert_field precedes sandbox_json codes ◌==◌ value_at text_of int_of truth_of
sandbox-injective x y e =
    SandboxModel-eq x y (ap (λ v. text_of (value_at (codes "runtime") v)) e)
      (ap (λ v. int_of (value_at (codes "exit_code") v)) e)
      (ap (λ v. truth_of (value_at (codes "ok") v)) e)
      (optional_string-injective x.failure_reason y.failure_reason
        (ap (value_at (codes "failure_reason")) e))
      (pos-injective (ap (λ v. int_of (value_at (codes "wall_ms") v)) e))
      (ap (λ v. truth_of (value_at (codes "oom_killed") v)) e)
      (ap (λ v. truth_of (value_at (codes "wall_clock_exceeded") v)) e)
      (ap (λ v. truth_of (value_at (codes "truncated") v)) e)
      (ap (λ v. text_of (value_at (codes "stdout_tail") v)) e)
      (ap (λ v. text_of (value_at (codes "stderr_tail") v)) e)

result-injective :
    (x y : RunResultModel) → sort_keys (result_json x) ≡ sort_keys (result_json y) → x ≡ y
unfolding sort_keys insert_field precedes result_json codes
result-injective x y e =
    let summary : sort_keys (optional_string x.summary) ≡ sort_keys (optional_string y.summary) =
      cc in
    let code : sort_keys (optional_string x.code) ≡ sort_keys (optional_string y.code) = cc in
    let sandbox : sort_keys (optional_json sandbox_json x.sandbox)
        ≡ sort_keys (optional_json sandbox_json y.sandbox) =
      cc in
    cc (
      optional_string-injective x.summary y.summary summary,
      optional_string-injective x.code y.code code,
      optional-injective sandbox_json sandbox-injective objects_not_null.0 x.sandbox y.sandbox
          sandbox,
    )

error-injective : (x y : ErrorDetail) → sort_keys (error_json x) ≡ sort_keys (error_json y) → x ≡ y
unfolding sort_keys insert_field precedes error_json codes
error-injective x y e =
    let step : sort_keys (optional_string x.step) ≡ sort_keys (optional_string y.step) = cc in
    cc (optional_string-injective x.step y.step step)

Response-eq :
    (a b : RunStatusResponse)
    → a.run_id ≡ b.run_id
    → a.status ≡ b.status
    → a.stage ≡ b.stage
    → a.current_step ≡ b.current_step
    → a.completed_steps ≡ b.completed_steps
    → a.steps ≡ b.steps
    → a.result ≡ b.result
    → a.error ≡ b.error
    → a ≡ b
Response-eq a b c d e f g h i j = cc

pub payload-injective :
    (a b : RunStatusResponse) → sort_keys (payload_json a) ≡ sort_keys (payload_json b) → a ≡ b
unfolding sort_keys insert_field precedes payload_json codes ◌==◌ value_at text_of items_of
payload-injective a b e =
    Response-eq a b (ap (λ v. text_of (value_at (codes "run_id") v)) e)
      (ap (λ v. text_of (value_at (codes "status") v)) e)
      (ap (λ v. text_of (value_at (codes "stage") v)) e)
      (optional_string-injective a.current_step b.current_step
        (ap (value_at (codes "current_step")) e))
      (strings-injective a.completed_steps b.completed_steps
        (ap (λ v. items_of (value_at (codes "completed_steps") v)) e))
      (steps-injective a.steps b.steps (ap (λ v. items_of (value_at (codes "steps") v)) e))
      (optional-injective result_json result-injective objects_not_null.1 a.result b.result
        (ap (value_at (codes "result")) e))
      (optional-injective error_json error-injective objects_not_null.2 a.error b.error
        (ap (value_at (codes "error")) e))
