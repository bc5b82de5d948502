-- ===== src/Api/Errors.antt =====
-- app/api/errors.py, and the other exceptions that leave a handler: Temporal's RPC errors that no
-- handler turns into an `APIError`, and any other by the name of its class.
use temporal_agent_sandbox.Prelude.{ℕ, Text}

-- the codes of `RPCStatusCode` that the program looks at, and the rest by name
pub data RpcCode : Type 0 where
  not_found unavailable : RpcCode
  other_code : Text → RpcCode

pub data Raised : Type 0 where
  api_error : ℕ → Text → Text → Raised
  rpc_error : RpcCode → Raised
  other_error : Text → Raised

pub data Result {ℓ} (A : Type ℓ) : Type ℓ where
  ok : A → Result A
  err : Raised → Result A

module _ {ℓ κ} {A : Type ℓ} {B : Type κ} where
  infixl 5 ◌>>=◌
  -- the first error of the two stays
  abbrev pub ◌>>=◌ : Result A → (A → Result B) → Result B
  ok a >>= next = next a
  err e >>= _ = err e
