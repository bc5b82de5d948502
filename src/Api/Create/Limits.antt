-- ===== src/Api/Create/Limits.antt =====
-- The limits that a request gets.
use temporal_agent_sandbox.Prelude.{
  ℕ, ◌≤◌, min, none, some, ◌≡◌, ◌⊎◌, inl, inr, refl, arith, Option-cases,
}
use temporal_agent_sandbox.Contracts.{ResourceLimits}
use temporal_agent_sandbox.Config.{Settings, resource_limits}
use temporal_agent_sandbox.Api.Ids.{RunRequest}
use temporal_agent_sandbox.Api.Create.{limits_of}

-- The limits of a request are the policy's in all but the wall clock, which is never more than the
-- policy's, nor than the request asks for, and is one of the two.
pub record IsClamped (s : Settings) (r : RunRequest) (limits : ResourceLimits) : Type 0 where
  pub others : record limits { wall_clock_s = s.sandbox_wall_clock_s } ≡ resource_limits s
  pub ceiling : limits.wall_clock_s ≤ s.sandbox_wall_clock_s
  pub requested :
      (r.params.sandbox_timeout_s ≡ none) × (limits.wall_clock_s ≡ s.sandbox_wall_clock_s)
      ⊎ ((t : ℕ) × (r.params.sandbox_timeout_s ≡ some t)
          × (limits.wall_clock_s ≡ min t s.sandbox_wall_clock_s))

-- No request raises a limit: the wall clock is the smaller of the policy's and the requested one, and
-- all other limits are the policy's.
pub limits_of-IsClamped : (s : Settings) (r : RunRequest) → IsClamped s r (limits_of s r)
unfolding limits_of resource_limits
limits_of-IsClamped s r = elim (Option-cases r.params.sandbox_timeout_s) [
  | inl absent ↦
      rw absent (record { others = refl; ceiling = omega arith; requested = inl (refl, refl) })
  | inr (t, given) ↦
      rw given (record { others = refl; ceiling = omega arith; requested = inr (t, refl, refl) })
]
