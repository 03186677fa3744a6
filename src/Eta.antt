-- ===== src/Eta.antt =====
-- src/core/eta.ts: the wait estimate. The observed throughput is given as the admissions counted
-- in the last `observed_window_seconds`, as QueueRoom counts them.
pub mod Laws
use tide_guard.Base.{ℕ, ◌+◌, ◌*◌, max, min, Option, none, some, leb, if◌then◌else◌, ceil_div}
use tide_guard.Engine.{effective_unit}

abbrev pub observed_window_seconds : ℕ
observed_window_seconds = 300

-- 0.0001 admissions a second.
abbrev pub least_rate : ℕ
least_rate = 100_000_000

-- The rate in 600ths of an effective unit, so that half the set point plus half of
-- `observed / 300` is a whole number.
abbrev pub blended_rate : ℕ → Option ℕ → ℕ
blended_rate setpoint none = 600 * setpoint
blended_rate setpoint (some observed) =
    if leb observed 0
    then 600 * setpoint
    else min (600 * setpoint) (300 * setpoint + observed * effective_unit)

-- The callers keep the set point above 0, so the branch for an infinite wait is not taken.
unfoldable pub estimate_wait_seconds : Option ℕ → ℕ → ℕ → ℕ
estimate_wait_seconds observed waiting setpoint =
    if leb waiting 0
    then 0
    else ceil_div (waiting * (600 * effective_unit))
        (max (blended_rate setpoint observed) (600 * least_rate))

-- The estimate of SimpleEtaCalculator, by the set point alone.
unfoldable pub simple_wait_seconds : ℕ → ℕ → ℕ
simple_wait_seconds waiting setpoint =
    if leb waiting 0 then 0 else ceil_div (waiting * effective_unit) setpoint
