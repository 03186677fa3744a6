-- ===== src/Health/Settings.antt =====
-- The settings that `parseHealthConfig` gives, and the automatic pause under them.
use tide_guard.Base.{
  ℕ, ◌≤◌, ◌≡◌, Bool, false, ◌&&◌, not, Option, String, ◌==◌, if◌then◌else◌, arith,
}
use tide_guard.Js.{
  JsNumber, nan, infinity, neg_infinity, int, frac, neg, clamp_int, clamp_float, micros,
}
use tide_guard.Health.{
  HealthLevel, ok, slow, pause, OriginHealthConfig, OriginHealthState, RawHealth,
  parse_health_config, health_rate_multiplier, level_multiplier, before, is_auto_paused,
  is_pause_level, or_else, is_some,
}

clamp_int-bounds :
    (n : JsNumber) (lo hi fallback : ℕ)
    → lo ≤ fallback
    → fallback ≤ hi
    → (lo ≤ clamp_int n lo hi fallback) × (clamp_int n lo hi fallback ≤ hi)
clamp_int-bounds (frac n) lo hi fallback l h = (ground arith, ground arith)
clamp_int-bounds (neg n) lo hi fallback l h = (l, h)
clamp_int-bounds nan lo hi fallback l h = (l, h)
clamp_int-bounds infinity lo hi fallback l h = (l, h)
clamp_int-bounds neg_infinity lo hi fallback l h = (l, h)

clamp_float-bounds :
    (n : JsNumber) (lo hi fallback : ℕ)
    → lo ≤ fallback
    → fallback ≤ hi
    → (lo ≤ clamp_float n lo hi fallback) × (clamp_float n lo hi fallback ≤ hi)
clamp_float-bounds (frac n) lo hi fallback l h = (ground arith, ground arith)
clamp_float-bounds (neg n) lo hi fallback l h = (l, h)
clamp_float-bounds nan lo hi fallback l h = (l, h)
clamp_float-bounds infinity lo hi fallback l h = (l, h)
clamp_float-bounds neg_infinity lo hi fallback l h = (l, h)

-- The ranges that the settings of the probe have.
pub record IsUsable (config : OriginHealthConfig) : Type 0 where
  pub interval : (15 ≤ config.interval_seconds) × (config.interval_seconds ≤ 300)
  pub timeout : (500 ≤ config.timeout_ms) × (config.timeout_ms ≤ 15_000)
  pub latency : (100 ≤ config.max_latency_ms) × (config.max_latency_ms ≤ 30_000)
  pub status : (100 ≤ config.expect_status) × (config.expect_status ≤ 599)
  pub fails : (1 ≤ config.fail_threshold) × (config.fail_threshold ≤ 20)
  pub recovers : (1 ≤ config.recover_threshold) × (config.recover_threshold ≤ 20)
  pub rate : (10_000 ≤ config.slow_rate_multiplier) × (config.slow_rate_multiplier ≤ micros)
  pub probes_url : (config.enabled && not (is_some config.url)) ≡ false

-- Whatever the input and whatever the check of the URL, `parseHealthConfig` gives settings in
-- range, and enables the probe only with a URL to fetch.
pub parse_health_config-IsUsable :
    (sanitize : Option String → Option String) (raw : RawHealth)
    → IsUsable (parse_health_config sanitize raw)
unfolding parse_health_config
parse_health_config-IsUsable sanitize raw = record {
  interval =
      clamp_int-bounds (or_else raw.interval_seconds (int 30)) 15 300 30 (omega arith)
        (omega arith);
  timeout =
      clamp_int-bounds (or_else raw.timeout_ms (int 5_000)) 500 15_000 5_000 (omega arith)
        (omega arith);
  latency =
      clamp_int-bounds (or_else raw.max_latency_ms (int 3_000)) 100 30_000 3_000 (omega arith)
        (omega arith);
  status =
      clamp_int-bounds (or_else raw.expect_status (int 200)) 100 599 200 (omega arith)
        (omega arith);
  fails = clamp_int-bounds (or_else raw.fail_threshold (int 2)) 1 20 2 (omega arith) (omega arith);
  recovers =
      clamp_int-bounds (or_else raw.recover_threshold (int 2)) 1 20 2 (omega arith) (omega arith);
  rate =
      clamp_float-bounds (or_else raw.slow_rate_multiplier (frac 250_000)) 10_000 micros 250_000
        (omega arith) (omega arith);
  probes_url = ground arith;
}

-- With settings in range, admissions pause automatically exactly while probing is enabled, no
-- operator's override is in force, and the level is pause: the level slow never stops the line.
pub is_auto_paused-level :
    (config : OriginHealthConfig) (state : OriginHealthState) (now : ℕ)
    → IsUsable config
    → is_auto_paused config state now
      ≡ (config.enabled && not (before now config.override_until) && is_pause_level state.level)
unfolding is_auto_paused health_rate_multiplier
is_auto_paused-level config state now u =
    by_level config.slow_rate_multiplier config.enabled (before now config.override_until)
      state.level u.rate.0
  where
    by_level :
        (rate : ℕ) (enabled over : Bool) (level : HealthLevel)
        → 10_000 ≤ rate
        → (enabled
            && (if not enabled
                then micros
                else if over
                then micros
                else level_multiplier level rate)
              == 0)
          ≡ (enabled && not over && is_pause_level level)
    by_level rate enabled over ok h = ground arith
    by_level rate enabled over slow h = ground arith
    by_level rate enabled over pause h = ground arith
