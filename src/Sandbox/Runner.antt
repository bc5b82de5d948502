-- ===== src/Sandbox/Runner.antt =====
-- app/sandbox/runner.py: the runner interface, its errors, and the choice of a runner by name.
use temporal_agent_sandbox.Prelude.{Text, codes, ◌==◌, ◌++◌, is_one_of, [], ◌∷◌, if◌then◌else◌}

-- What a runner's method can raise: the two errors of the interface, `NotImplementedError`,
-- `asyncio.CancelledError`, and any other exception, by the name of its class.
pub data Error : Type 0 where
  infra_error : Text → Error
  policy_violation : Text → Error
  not_implemented : Text → Error
  cancelled_error : Error
  other_error : Text → Error

pub data Result {ℓ} (A : Type ℓ) : Type ℓ where
  ok : A → Result A
  err : Error → Result A

module _ {ℓ κ} {A : Type ℓ} {B : Type κ} where
  infixl 5 ◌>>=◌
  -- the first error of the two stays
  abbrev pub ◌>>=◌ : Result A → (A → Result B) → Result B
  ok a >>= next = next a
  err e >>= _ = err e

-- the classes that implement `SandboxRunner`
pub data Runner : Type 0 where
  gvisor : Text → Runner
  firecracker : Runner

-- `{runtime!r}`: the text in quotes (the names that reach a message hold no quote)
abbrev quoted : Text → Text
quoted s = codes "'" ++ (s ++ codes "'")

unfoldable pub get_runner : Text → Result Runner
unfolding is_one_of
get_runner runtime =
    if is_one_of runtime (codes "runsc" ∷ codes "runc" ∷ [])
    then ok (gvisor runtime)
    else if runtime == codes "firecracker"
    then ok firecracker
    else err (policy_violation (codes "unknown sandbox runtime: " ++ quoted runtime))
