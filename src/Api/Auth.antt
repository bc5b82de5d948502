-- ===== src/Api/Auth.antt =====
-- app/api/auth.py: the bearer token check. `secrets.compare_digest` takes two `str` only if both
-- are ASCII, and raises a `TypeError` otherwise.
use temporal_agent_sandbox.Prelude.{
  ℕ, ◌⊎◌, inl, inr, Bool-cases, Text, codes, ◌==◌, ==_iff, ==_refl, starts_with, starts_with-split,
  non_empty, all, nat_eq, Option, none, some, Bool, true, false, not, ◌&&◌, ◌||◌, [], ◌∷◌, ◌++◌,
  if◌then◌else◌, ◌≡◌, ◌↔◌, refl, ◌∙◌, arith,
}
use temporal_agent_sandbox.Prelude.Methods.{is_ascii}
use temporal_agent_sandbox.Config.{Settings}
use temporal_agent_sandbox.Api.Errors.{Raised, api_error, other_error, Result, ok, err, ◌>>=◌}

-- `s.split(" ", 1)[1]`: what stands behind the first space; `none` is the `IndexError` without one
unfoldable pub behind_space : Text → Option Text
behind_space [] = none
behind_space (c ∷ s) = if nat_eq c b' ' then some s else behind_space s

unfoldable pub compare_digest : Text → Text → Result Bool
compare_digest a b =
    if all is_ascii a && all is_ascii b then ok (a == b) else err (other_error (codes "TypeError"))

abbrev unauthorized : Text → Raised
unauthorized message = api_error 401 (codes "UNAUTHORIZED") message

unfoldable pub verify_token : Settings → Option Text → Result (Unit {0})
unfolding behind_space compare_digest
verify_token s none = err (unauthorized (codes "missing or malformed Authorization header"))
verify_token s (some authorization) =
    if not (non_empty authorization) || not (starts_with authorization (codes "Bearer "))
    then err (unauthorized (codes "missing or malformed Authorization header"))
    else elim (behind_space authorization) [
      | none ↦ err (other_error (codes "IndexError"))
      | some token ↦ compare_digest token s.api_bearer_token >>= λ same.
          if same then ok tt else err (unauthorized (codes "invalid bearer token"))
    ]

behind_bearer : (token : Text) → behind_space (codes "Bearer " ++ token) ≡ some token
unfolding behind_space codes
behind_bearer token = refl

verify_bearer :
    (s : Settings) (token : Text)
    → verify_token s (some (codes "Bearer " ++ token)) ≡ (
        compare_digest token s.api_bearer_token >>= λ same.
        if same then ok tt else err (unauthorized (codes "invalid bearer token")))
unfolding verify_token codes starts_with non_empty behind_space
verify_bearer s token = refl

verify_passes :
    (s : Settings) (header : Text)
    → verify_token s (some header) ≡ ok tt
    → starts_with header (codes "Bearer ") ≡ true
unfolding verify_token
verify_passes s header e = ground arith

digest_passes :
    (s : Settings) (token : Text)
    → verify_token s (some (codes "Bearer " ++ token)) ≡ ok tt
    → token ≡ s.api_bearer_token
unfolding compare_digest
digest_passes s token e =
    (==_iff token s.api_bearer_token).0 (ground (arith, verify_bearer s token))

accepts :
    (s : Settings)
    → all is_ascii s.api_bearer_token ≡ true
    → verify_token s (some (codes "Bearer " ++ s.api_bearer_token)) ≡ ok tt
unfolding compare_digest
accepts s ascii = verify_bearer s s.api_bearer_token ∙ rw (ascii, ==_refl s.api_bearer_token)

-- A request passes exactly when its header is the configured token behind "Bearer ", for a token
-- that is ASCII.
pub verify_token_iff :
    (s : Settings) (header : Option Text)
    → all is_ascii s.api_bearer_token ≡ true
    → (verify_token s header ≡ ok tt) ↔ (header ≡ some (codes "Bearer " ++ s.api_bearer_token))
unfolding verify_token
verify_token_iff s none ascii = (λ e. absurd (ground arith), λ e. absurd (ground arith))
verify_token_iff s (some header) ascii = (
  λ e.
      let (token, split) = starts_with-split (codes "Bearer ") header (verify_passes s header e) in
      let same = digest_passes s token (rw split at e) in rw (split, same),
  λ e. let same : header ≡ codes "Bearer " ++ s.api_bearer_token = cc in rw same (accepts s ascii),
)

-- A header with "Bearer " and a token that is not ASCII is not refused as unauthorized: the check
-- itself fails with a `TypeError`.
pub verify_token_type_error :
    (s : Settings) (token : Text)
    → all is_ascii token ≡ false
    → verify_token s (some (codes "Bearer " ++ token)) ≡ err (other_error (codes "TypeError"))
unfolding verify_token compare_digest codes starts_with non_empty behind_space
verify_token_type_error s token h = rw h

all-behind : (p : ℕ → Bool) (s t : Text) → all p (s ++ t) ≡ true → all p t ≡ true
all-behind p [] t h = h
all-behind p (c ∷ s) t h = all-behind p s t (ground arith)

-- a header of ASCII characters, or none
abbrev pub IsPlain : Option Text → Type 0
IsPlain none = Unit
IsPlain (some header) = all is_ascii header ≡ true

-- The check passes, or it refuses the request as unauthorized.
abbrev Decides : Settings → Option Text → Type 0
Decides s header =
    (verify_token s header ≡ ok tt)
    ⊎ ((m : Text) × (verify_token s header ≡ err (api_error 401 (codes "UNAUTHORIZED") m)))

Decides-bearer :
    (s : Settings) (token : Text)
    → all is_ascii s.api_bearer_token ≡ true
    → all is_ascii token ≡ true
    → Decides s (some (codes "Bearer " ++ token))
unfolding compare_digest
Decides-bearer s token ascii clean = elim (Bool-cases (token == s.api_bearer_token)) [
  | inl same ↦ inl (verify_bearer s token ∙ rw (clean, ascii, same) refl)
  | inr other ↦
      inr (codes "invalid bearer token", verify_bearer s token ∙ rw (clean, ascii, other) refl)
]

Decides-other :
    (s : Settings) (header : Text)
    → starts_with header (codes "Bearer ") ≡ false
    → Decides s (some header)
unfolding verify_token
Decides-other s header other =
    inr (codes "missing or malformed Authorization header", ground (arith, other))

Decides-none : (s : Settings) → Decides s none
unfolding verify_token
Decides-none s = inr (_, refl)

-- For an ASCII header the check raises nothing but the refusal.
pub verify_token-cases :
    (s : Settings) (header : Option Text)
    → all is_ascii s.api_bearer_token ≡ true
    → IsPlain header
    → (verify_token s header ≡ ok tt)
      ⊎ ((m : Text) × (verify_token s header ≡ err (api_error 401 (codes "UNAUTHORIZED") m)))
verify_token-cases s none ascii plain = Decides-none s
verify_token-cases s (some header) ascii plain =
    elim (Bool-cases (starts_with header (codes "Bearer "))) [
      | inl bearer ↦
          let (token, split) = starts_with-split (codes "Bearer ") header bearer in
          rw split (
            Decides-bearer s token ascii
              (all-behind is_ascii (codes "Bearer ") token (rw split at plain)))
      | inr other ↦ Decides-other s header other
    ]
