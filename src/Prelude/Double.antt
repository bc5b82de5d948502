-- ===== src/Prelude/Double.antt =====
-- Sums of doubles: numbers from 0 on, in units of 2 ^ -53, rounded to 53 binary digits as IEEE 754 says, to
-- the nearest, and between two to the even one. The range of the exponent is not bounded.
use native.Mathlib.Nat.{mod-lt, mod-le}
use temporal_agent_sandbox.Prelude.{
  ℕ, zero, suc, ◌+◌, ◌-◌, ◌*◌, ◌/◌, ◌%◌, ◌≤◌, ◌<◌, ltb, nat_eq, if◌then◌else◌, ◌⊎◌, inl, inr, arith,
}

-- 1, which is 2 ^ 53 units
abbrev pub one : ℕ
one = 9_007_199_254_740_992

-- the place of the last of the 53 digits of a number: a power of 2, from the given one on
last_place : ℕ → ℕ → ℕ → ℕ
last_place zero u x = u
last_place (suc fuel) u x =
    let above = last_place fuel (2 * u) x in if ltb x (one * u) then u else above

-- the nearest multiple of a power of 2
to_place : ℕ → ℕ → ℕ
to_place u x =
    let below = x - x % u in
    if ltb (2 * (x % u)) u
    then below
    else if ltb u (2 * (x % u))
    then below + u
    else if nat_eq (x / u % 2) 0
    then below
    else below + u

-- The places of a double below 2 ^ 1024 are no more than the fuel.
unfoldable pub add_double : ℕ → ℕ → ℕ
unfolding last_place to_place
add_double a b = to_place (last_place 1100 1 (a + b)) (a + b)

last_place_bound : (fuel u x : ℕ) → (last_place fuel u x ≤ u) ⊎ (one * last_place fuel u x ≤ 2 * x)
unfolding last_place
last_place_bound zero u x = inl (omega arith)
last_place_bound (suc fuel) u x = ground (arith, last_place_bound fuel (2 * u) x)

last_place_above : (fuel u x : ℕ) → u ≤ last_place fuel u x
unfolding last_place
last_place_above zero u x = omega arith
last_place_above (suc fuel) u x = ground (arith, last_place_above fuel (2 * u) x)

to_place_near : (u x : ℕ) → 0 < u → (x ≤ to_place u x + u) × (to_place u x ≤ x + u)
unfolding to_place
to_place_near u x h =
    let small : x % u < u = mod-lt x h in
    let low : x % u ≤ x = mod-le x u in ground (arith, small, low)

-- A sum below 2 ^ 73 units is rounded by 2 ^ 21 at most.
pub add_double_near :
    (a b : ℕ)
    → a + b < one * 1_048_576
    → (a + b ≤ add_double a b + 2_097_152) × (add_double a b ≤ a + b + 2_097_152)
unfolding add_double
add_double_near a b h =
    let u = last_place 1100 1 (a + b) in
    let above : 0 < u = omega (arith, last_place_above 1100 1 (a + b)) in
    let near = to_place_near u (a + b) above in
    elim (last_place_bound 1100 1 (a + b)) [
      | inl one_unit ↦ (omega (arith, near.0), omega (arith, near.1))
      | inr small ↦ (omega (arith, near.0), omega (arith, near.1))
    ]
