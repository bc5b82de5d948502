-- ===== src/Config/Cached.antt =====
-- The settings of a process: `get_settings` of app/config.py, which every part of the program calls.
use temporal_agent_sandbox.Prelude.{Option, none, some, List, [], ◌∷◌, map, ◌≡◌, refl, ap}
use temporal_agent_sandbox.Config.{Settings, calls}

-- The settings once and for all: the first that can be read, from then on.
unfoldable pub once : List (Option Settings) → List (Option Settings)
once [] = []
once (none ∷ rs) = none ∷ once rs
once (some s ∷ rs) = some s ∷ map (λ _. some s) rs

module _ {E : Type 0} (read : E → Option Settings) where
  calls_cached :
      (s : Settings) (envs : List E) → calls read (some s) envs ≡ map (λ _. some s) (map read envs)
  unfolding calls
  calls_cached s [] = refl
  calls_cached s (env ∷ envs) = ap (λ l. some s ∷ l) (calls_cached s envs)

  calls_from :
      (r : Option Settings) (envs : List E)
      → (calls read none envs ≡ once (map read envs))
      → r ∷ calls read r envs ≡ once (r ∷ map read envs)
  unfolding once
  calls_from none envs h = ap (λ l. none ∷ l) h
  calls_from (some s) envs h = ap (λ l. some s ∷ l) (calls_cached s envs)

  -- Whatever the environment is at each call, all calls of a process that return give the same settings:
  -- those of the first environment that can be read; and each call before that one raises, and is not
  -- remembered.
  pub get_settings_lem : (envs : List E) → calls read none envs ≡ once (map read envs)
  unfolding calls once
  get_settings_lem [] = refl
  get_settings_lem (env ∷ envs) = calls_from (read env) envs (get_settings_lem envs)
