-- ===== src/Prelude/Dict.antt =====
-- A Python `dict` with `str` keys, as the list of its items in the order of insertion.
use temporal_agent_sandbox.Prelude.{
  Text, ◌==◌, ==_iff, Option, none, some, false, List, [], ◌∷◌, if◌then◌else◌, ◌≡◌, arith,
}

abbrev pub Dict {ℓ} : Type ℓ → Type ℓ
Dict V = List (Text × V)

module _ {ℓ} {V : Type ℓ} where
  -- `d.get(k)`
  unfoldable pub get : Text → Dict V → Option V
  get k [] = none
  get k ((j, v) ∷ d) = let rest = get k d in if k == j then some v else rest

  -- `d[k] = v`
  unfoldable pub put : Text → V → Dict V → Dict V
  put k v [] = (k, v) ∷ []
  put k v ((j, w) ∷ d) = let rest = put k v d in if k == j then (k, v) ∷ d else (j, w) ∷ rest

  pub get-put :
      (k j : Text) (v : V) (d : Dict V) → get j (put k v d) ≡ (if j == k then some v else get j d)
  unfolding get put
  get-put k j v [] = ground (arith, ==_iff j k)
  get-put k j v ((i, w) ∷ d) = ground (arith, get-put k j v d, ==_iff k i, ==_iff j i, ==_iff j k)

  pub get-put_same : (k : Text) (v : V) (d : Dict V) → get k (put k v d) ≡ some v
  get-put_same k v d = ground (arith, get-put k k v d, ==_iff k k)

  pub get-put_other :
      (k j : Text) (v : V) (d : Dict V) → (j == k) ≡ false → get j (put k v d) ≡ get j d
  get-put_other k j v d h = ground (arith, get-put k j v d)
