-- ===== src/Engine.antt =====
-- src/queue/engine.ts and src/queue/traffic.ts: the numbers behind admission and check-in.
-- Times are milliseconds. A rate is a number of `effective_unit`-ths of an admission per second and
-- an admission budget a number of `budget_unit`-ths of an admission, so that the products of two
-- six-digit decimals are exact; the rounding of the budget's sum in doubles is a parameter.
pub mod Budget
pub mod CheckIn
use tide_guard.Base.{
  ℕ, ◌+◌, ◌-◌, ◌*◌, ◌/◌, ◌%◌, ◌^◌, max, min, bit_xor, code, String, Bool, true, false, ◌||◌, Option,
  none, some, List, [], ◌∷◌, ltb, leb, ◌==◌, if◌then◌else◌, ceil_div,
}
use tide_guard.Js.{clamp_grace}

-- A configured rate or a health multiplier is counted in millionths, an effective rate (their
-- product) in millionths of millionths.
abbrev pub rate_unit : ℕ
rate_unit = 1_000_000

abbrev pub effective_unit : ℕ
effective_unit = 1_000_000_000_000

abbrev pub budget_unit : ℕ
budget_unit = 1_000_000_000_000_000

abbrev pub queue_alarm_interval_ms : ℕ
queue_alarm_interval_ms = 1_000

abbrev pub status_rps_budget : ℕ
status_rps_budget = 750

abbrev pub min_check_in_period_sec : ℕ
min_check_in_period_sec = 5

abbrev pub default_max_waiting_visitors : ℕ
default_max_waiting_visitors = 1_000_000

abbrev pub check_in_early_skew_ms : ℕ
check_in_early_skew_ms = 500

abbrev pub traffic_bucket_ms : ℕ
traffic_bucket_ms = 15_000

abbrev pub traffic_retention_ms : ℕ
traffic_retention_ms = 86_400_000

pub data AdmissionMode : Type 0 where
  queue lottery : AdmissionMode

abbrev pub is_lottery : AdmissionMode → Bool
is_lottery lottery = true
is_lottery queue = false

-- The result object of `admissionsForTick`.
pub record Tick : Type 0 where
  pub admit_count : ℕ
  pub next_remainder : ℕ

-- `admitPerSecond * (intervalMs / 1000)` effective units are `rate * interval` budget units, and
-- `round` is what a double makes of the sum.
unfoldable pub admissions_for_tick : (ℕ → ℕ) → ℕ → ℕ → ℕ → Tick
admissions_for_tick round rate interval remainder =
    if leb rate 0 || leb interval 0
    then record { admit_count = 0; next_remainder = remainder }
    else (let budget = round (remainder + rate * interval) in
        let admitted = budget / budget_unit in
        record { admit_count = admitted; next_remainder = budget - admitted * budget_unit })

abbrev pub waiting_position : ℕ → ℕ
waiting_position ahead = ahead + 1

-- `Math.max(0, capacity - admittedCount)`: truncated subtraction.
abbrev pub open_slots : ℕ → ℕ → ℕ
open_slots capacity admitted = capacity - admitted

unfoldable pub check_in_period_seconds : ℕ → ℕ
check_in_period_seconds waiting =
    if leb waiting 0
    then min_check_in_period_sec
    else max min_check_in_period_sec (ceil_div waiting status_rps_budget)

unfoldable pub front_band_size : ℕ → ℕ
front_band_size rate = max 500 (ceil_div (rate * 60) effective_unit)

-- `position ?? Infinity`: a missing position is in no front band.
unfoldable pub effective_check_in_period_seconds : ℕ → Option ℕ → AdmissionMode → ℕ → ℕ → ℕ
unfolding front_band_size
effective_check_in_period_seconds waiting position lottery estimated rate =
    if leb estimated 60 then min_check_in_period_sec else check_in_period_seconds waiting
effective_check_in_period_seconds waiting none queue estimated rate =
    check_in_period_seconds waiting
effective_check_in_period_seconds waiting (some position) queue estimated rate =
    if leb position (front_band_size rate)
    then min_check_in_period_sec
    else check_in_period_seconds waiting

-- The UTF-16 units of an id, which are its characters: ids match [a-zA-Z0-9_-]{1,128}.
abbrev pub char_codes : String → List ℕ
char_codes String.[] = []
char_codes (String.◌∷◌ c s) = code c ∷ char_codes s

-- `Math.imul` keeps the low 32 bits, and `>>> 0` reads them unsigned.
unfoldable pub hash_loop : ℕ → List ℕ → ℕ
hash_loop hash [] = hash
hash_loop hash (c ∷ cs) = hash_loop (bit_xor hash c * 0x01000193 % 2 ^ 32) cs

unfoldable pub hash_string : String → ℕ
unfolding hash_loop
hash_string value = hash_loop 0x811c9dc5 (char_codes value)

unfoldable pub stable_slot_index : String → ℕ → ℕ
stable_slot_index key period_sec =
    let period = max 1 period_sec in if period == 1 then 0 else hash_string key % period

unfoldable pub next_check_at_ms : ℕ → ℕ → String → ℕ → ℕ
next_check_at_ms now period key min_lead =
    let period_sec = max 1 period in
    let slot = stable_slot_index key period_sec in
    let earliest_sec = ceil_div (now + min_lead) 1000 in
    let mod_sec = (earliest_sec % period_sec + period_sec) % period_sec in
    let delta = (slot + period_sec - mod_sec) % period_sec in (earliest_sec + delta) * 1000

unfoldable pub missed_slot_grace_ms : ℕ → ℕ → ℕ
missed_slot_grace_ms period_sec grace_seconds =
    max (clamp_grace grace_seconds * 1000) (max 1 period_sec * 1000)

-- `now >= nextCheckAt - skew`, the skew moved to the left.
abbrev pub is_check_in_due : ℕ → Option ℕ → Bool
is_check_in_due now none = true
is_check_in_due now (some next_check_at) = leb next_check_at (now + check_in_early_skew_ms)

abbrev pub align_traffic_bucket : ℕ → ℕ
align_traffic_bucket now = now / traffic_bucket_ms * traffic_bucket_ms
