-- ===== src/Api/Stream/Elapsed.antt =====
-- How far the sum of doubles in `elapsed` is from 0.7 for each turn.
use temporal_agent_sandbox.Prelude.{ℕ, suc, ◌+◌, ◌*◌, ◌≤◌, ◌<◌, true, false, ◌≡◌, arith}
use temporal_agent_sandbox.Prelude.Double.{add_double, add_double_near}
use temporal_agent_sandbox.Api.Stream.{seven_tenths, is_over}

-- the sum after so many turns, with 2 ^ 21 units of error for each
abbrev pub Near : ℕ → ℕ → Type 0
Near n e = (n * seven_tenths ≤ e + n * 2_097_152) × (e ≤ n * seven_tenths + n * 2_097_152)

-- A week, in seconds. A stream has no more than so many turns in it.
abbrev pub longest : ℕ
longest = 604_800

pub Near-suc : (n e : ℕ) → n < 1_000_000 → Near n e → Near (suc n) (add_double e seven_tenths)
Near-suc n e few (low, high) =
    let next = add_double_near e seven_tenths (omega arith) in
    (omega (arith, next.0), omega (arith, next.1))

pub over_by :
    (max_dur n e : ℕ) → n ≤ 1_000_000 → Near n e → is_over max_dur e ≡ true → 10 * max_dur ≤ 7 * n
over_by max_dur n e few (low, high) over = ground arith

pub not_over_by :
    (max_dur n e : ℕ) → n ≤ 1_000_000 → Near n e → is_over max_dur e ≡ false → 7 * n ≤ 10 * max_dur
not_over_by max_dur n e few (low, high) over = ground arith

pub in_time_by :
    (max_dur n e : ℕ) → n ≤ 1_000_000 → Near n e → 7 * n < 10 * max_dur → is_over max_dur e ≡ false
in_time_by max_dur n e few (low, high) soon = ground arith
