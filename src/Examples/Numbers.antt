-- ===== src/Examples/Numbers.antt =====
-- The theorems on rates, check-in times, estimates and configurations at concrete numbers.
use tide_guard.Base.{
  ◌+◌, ◌*◌, ◌/◌, ◌%◌, ◌-◌, ◌≤◌, ◌<◌, ◌≡◌, ◌⊎◌, max, refl, ℕ, List, String, some, none, [], ◌∷◌,
  arith,
}
use tide_guard.Js.{JsNumber, int}
use tide_guard.Engine.{
  budget_unit, effective_unit, status_rps_budget, min_check_in_period_sec, check_in_period_seconds,
  next_check_at_ms, stable_slot_index,
}
use tide_guard.Engine.Budget.{run_ticks, earned, budget_grain, RoundsBinary, run_ticks_exact}
use tide_guard.Engine.CheckIn.{check_in_period_budget, next_check_at_slot, next_check_at_least}
use tide_guard.Eta.{estimate_wait_seconds, simple_wait_seconds}
use tide_guard.Eta.Laws.{never_faster}
use tide_guard.Config.{
  env_numbers, check_numbers, raised, config_of, env_mode, env_number_or_default, QueueConfigEnv,
  parse_queue_config, default_queue_config,
}
use tide_guard.Config.Laws.{IsValid, parse_queue_config-IsValid}

-- Two and a half admissions a second for two ticks, and a quarter for one.
abbrev rates : List ℕ
rates = 2_500_000_000_000 ∷ 2_500_000_000_000 ∷ 250_000_000_000 ∷ []

-- A rounding to even numbers, and what it keeps.
abbrev to_even : ℕ → ℕ
to_even n = n / 2 * 2

keeps_binary : RoundsBinary to_even
keeps_binary n whole low = omega (arith, whole)

run_ticks_exact_example :
    let (admitted, left) = run_ticks to_even rates 0 500_000_000_000_000 in
    (admitted * budget_unit ≤ 500_000_000_000_000 + earned rates)
    × (500_000_000_000_000 + earned rates < (admitted + 1) * budget_unit)
    × (left % budget_grain ≡ 0)
    × (left < budget_unit)
run_ticks_exact_example =
    run_ticks_exact to_even rates 500_000_000_000_000 keeps_binary
      ((refl, omega arith), ((refl, omega arith), ((refl, omega arith), tt))) refl (omega arith)

check_in_period_budget_example :
    let period = check_in_period_seconds 9_000 in
    (9_000 ≤ status_rps_budget * period)
    × (min_check_in_period_sec ≤ period)
    × ((period ≡ min_check_in_period_sec) ⊎ (status_rps_budget * (period - 1) < 9_000))
check_in_period_budget_example = check_in_period_budget 9_000

next_check_at_slot_example :
    let p = max 1 12 in
    let at = next_check_at_ms 4_321 12 "bob" 5_000 in
    (at ≡ at / 1000 * 1000)
    × (at / 1000 % p ≡ stable_slot_index "bob" p)
    × (4_321 + 5_000 ≤ at)
    × (at < 4_321 + 5_000 + p * 1000)
next_check_at_slot_example = next_check_at_slot "bob" 12 4_321 5_000

next_check_at_least_example : next_check_at_ms 4_321 1 "bob" 5_000 ≤ 10 * 1000
unfolding stable_slot_index
next_check_at_least_example = next_check_at_least "bob" 1 4_321 5_000 10 (omega arith) refl

never_faster_example :
    (estimate_wait_seconds none 120 effective_unit ≡ simple_wait_seconds 120 effective_unit)
    × (simple_wait_seconds 120 effective_unit ≤ estimate_wait_seconds (some 30) 120 effective_unit)
never_faster_example = never_faster (some 30) 120 effective_unit (omega arith)

slow_estimate : estimate_wait_seconds (some 30) 120 effective_unit ≡ 219
unfolding estimate_wait_seconds
slow_estimate = refl

abbrev empty_env : QueueConfigEnv
empty_env = record {
  max_concurrent_users = none;
  admit_per_second = none;
  token_ttl_seconds = none;
  heartbeat_timeout_seconds = none;
  queue_timeout_seconds = none;
  admission_mode = none;
  missed_slot_grace_seconds = some "45";
}

-- A reader of numbers that knows one text.
abbrev forty_five : String → JsNumber
forty_five s = int 45

parse_queue_config-IsValid_example :
    IsValid (record default_queue_config { missed_slot_grace_seconds = 45 })
unfolding parse_queue_config env_numbers check_numbers raised config_of env_mode
    env_number_or_default
parse_queue_config-IsValid_example =
    parse_queue_config-IsValid forty_five empty_env
      (record default_queue_config { missed_slot_grace_seconds = 45 }) refl
