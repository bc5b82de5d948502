-- ===== src/Sandbox/Gvisor/Launch/Names.antt =====
-- The name of a container tells its run and its attempt.
use mathlib.Core.List.{append_cancel_left}
use temporal_agent_sandbox.Prelude.{
  ℕ, ◌≤◌, Text, codes, str_nat-injective, length, length-take, take, List, [], ◌∷◌, ◌++◌, ◌≡◌, refl,
  arith,
}
use temporal_agent_sandbox.Prelude.Utf8.{Bytes, encode}
use temporal_agent_sandbox.Sandbox.Gvisor.Launch.{container_name}

-- Fronts of one length can be told from what is behind them.
split_at_length :
    {A : Type 0} (xs ys zs vs : List A)
    → length xs ≡ length ys
    → xs ++ zs ≡ ys ++ vs
    → (xs ≡ ys) × (zs ≡ vs)
split_at_length [] [] zs vs n e = (refl, e)
split_at_length [] (y ∷ ys) zs vs n e = absurd (omega arith)
split_at_length (x ∷ xs) [] zs vs n e = absurd (omega arith)
split_at_length (x ∷ xs) (y ∷ ys) zs vs n e =
    let (fronts, backs) = split_at_length xs ys zs vs (omega arith) (ground arith) in
    (ground arith, backs)

take_full : (s t : Text) → 16 ≤ length s → 16 ≤ length t → length (take 16 s) ≡ length (take 16 t)
take_full s t hs ht = omega (arith, length-take 16 s, length-take 16 t)

-- Containers of one name are of one attempt and of runs with the same digits of the hash, which has at
-- least 16 of them.
pub container_name-injective :
    (sha1 : Bytes → Text) (run_id other : Text) (attempt n : ℕ)
    → ((b : Bytes) → 16 ≤ length (sha1 b))
    → container_name sha1 run_id attempt ≡ container_name sha1 other n
    → (take 16 (sha1 (encode run_id)) ≡ take 16 (sha1 (encode other))) × (attempt ≡ n)
unfolding container_name
container_name-injective sha1 run_id other attempt n long e =
    let (hashes, numbers) =
      split_at_length (take 16 (sha1 (encode run_id))) (take 16 (sha1 (encode other))) _ _
        (take_full _ _ (long (encode run_id)) (long (encode other)))
        (append_cancel_left (codes "sbx-") _ _ e) in
    (hashes, str_nat-injective attempt n (append_cancel_left (codes "-") _ _ numbers))
