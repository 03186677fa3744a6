-- ===== src/Health.antt =====
-- src/health/origin-probe.ts and src/durable-object/health-state.ts.
pub mod Levels
pub mod Settings
use tide_guard.Base.{
  ℕ, suc, ◌+◌, ◌*◌, Bool, true, false, ◌&&◌, not, Option, none, some, get_or, ltb, leb, ◌==◌,
  if◌then◌else◌, String,
}
use tide_guard.Js.{JsNumber, int, frac, clamp_int, clamp_float, micros}

pub data HealthLevel : Type 0 where
  ok slow pause : HealthLevel

-- `slow_rate_multiplier` is in millionths.
pub record OriginHealthConfig : Type 0 where
  pub enabled : Bool
  pub url : Option String
  pub interval_seconds : ℕ
  pub timeout_ms : ℕ
  pub max_latency_ms : ℕ
  pub expect_status : ℕ
  pub fail_threshold : ℕ
  pub recover_threshold : ℕ
  pub slow_rate_multiplier : ℕ
  pub override_until : Option ℕ

-- The texts of a failed probe.
pub data ProbeError : Type 0 where
  not_configured : ProbeError
  unexpected_status : ℕ → ProbeError
  latency_exceeds : ℕ → ℕ → ProbeError
  thrown : String → ProbeError

pub record OriginHealthState : Type 0 where
  pub level : HealthLevel
  pub consecutive_fails : ℕ
  pub consecutive_ok : ℕ
  pub last_checked_at : Option ℕ
  pub last_latency_ms : Option ℕ
  pub last_status : Option ℕ
  pub last_error : Option ProbeError

abbrev pub default_health_config : OriginHealthConfig
default_health_config = record {
  enabled = false;
  url = none;
  interval_seconds = 30;
  timeout_ms = 5_000;
  max_latency_ms = 3_000;
  expect_status = 200;
  fail_threshold = 2;
  recover_threshold = 2;
  slow_rate_multiplier = 250_000;
  override_until = none;
}

abbrev pub default_health_state : OriginHealthState
default_health_state = record {
  level = ok;
  consecutive_fails = 0;
  consecutive_ok = 0;
  last_checked_at = none;
  last_latency_ms = none;
  last_status = none;
  last_error = none;
}

-- `Partial<OriginHealthConfig>`: a field that is absent takes the default. An explicit null of
-- `url` or `override_until` is `some none`.
pub record RawHealth : Type 0 where
  pub enabled : Option Bool
  pub url : Option (Option String)
  pub interval_seconds : Option JsNumber
  pub timeout_ms : Option JsNumber
  pub max_latency_ms : Option JsNumber
  pub expect_status : Option JsNumber
  pub fail_threshold : Option JsNumber
  pub recover_threshold : Option JsNumber
  pub slow_rate_multiplier : Option JsNumber
  pub override_until : Option (Option ℕ)

abbrev pub or_else {ℓ} : {A : Type ℓ} → Option A → A → A
or_else none d = d
or_else (some a) d = a

abbrev pub is_some {ℓ} : {A : Type ℓ} → Option A → Bool
is_some none = false
is_some (some a) = true

-- `sanitize` is `sanitizeHealthUrl`, which rests on the runtime's `URL`.
unfoldable pub parse_health_config :
    (sanitize : Option String → Option String) → RawHealth → OriginHealthConfig
parse_health_config sanitize raw =
    let url = sanitize (or_else raw.url none) in
    record {
      enabled = or_else raw.enabled false && is_some url;
      url = url;
      interval_seconds = clamp_int (or_else raw.interval_seconds (int 30)) 15 300 30;
      timeout_ms = clamp_int (or_else raw.timeout_ms (int 5_000)) 500 15_000 5_000;
      max_latency_ms = clamp_int (or_else raw.max_latency_ms (int 3_000)) 100 30_000 3_000;
      expect_status = clamp_int (or_else raw.expect_status (int 200)) 100 599 200;
      fail_threshold = clamp_int (or_else raw.fail_threshold (int 2)) 1 20 2;
      recover_threshold = clamp_int (or_else raw.recover_threshold (int 2)) 1 20 2;
      slow_rate_multiplier =
          clamp_float (or_else raw.slow_rate_multiplier (frac 250_000)) 10_000 micros 250_000;
      override_until = or_else raw.override_until none;
    }

-- In millionths.
abbrev pub level_multiplier : HealthLevel → ℕ → ℕ
level_multiplier pause slow_rate = 0
level_multiplier slow slow_rate = slow_rate
level_multiplier ok slow_rate = micros

abbrev pub before : ℕ → Option ℕ → Bool
before now none = false
before now (some t) = ltb now t

unfoldable pub health_rate_multiplier : OriginHealthConfig → OriginHealthState → ℕ → ℕ
health_rate_multiplier config state now =
    if not config.enabled
    then micros
    else (if before now config.override_until
        then micros
        else level_multiplier state.level config.slow_rate_multiplier)

unfoldable pub is_auto_paused : OriginHealthConfig → OriginHealthState → ℕ → Bool
unfolding health_rate_multiplier
is_auto_paused config state now = config.enabled && health_rate_multiplier config state now == 0

pub record ProbeResult : Type 0 where
  pub success : Bool
  pub latency_ms : ℕ
  pub status : Option ℕ
  pub error : Option ProbeError

-- What `fetch` gives back, or throws (a time out included).
pub data FetchOutcome : Type 0 where
  response : ℕ → FetchOutcome
  failure : String → FetchOutcome

abbrev pub judge : OriginHealthConfig → FetchOutcome → ℕ → ProbeResult
judge config (failure message) latency = record {
  success = false;
  latency_ms = latency;
  status = none;
  error = some (thrown message);
}
judge config (response status) latency =
    if not (status == config.expect_status)
    then record {
      success = false;
      latency_ms = latency;
      status = some status;
      error = some (unexpected_status status);
    }
    else (if not (leb latency config.max_latency_ms)
        then record {
          success = false;
          latency_ms = latency;
          status = some status;
          error = some (latency_exceeds latency config.max_latency_ms);
        }
        else record { success = true; latency_ms = latency; status = some status; error = none })

unfoldable pub probe_origin_health : OriginHealthConfig → FetchOutcome → ℕ → ProbeResult
probe_origin_health config outcome latency =
    if not (is_some config.url)
    then record { success = false; latency_ms = 0; status = none; error = some not_configured }
    else judge config outcome latency

abbrev pub is_ok_level : HealthLevel → Bool
is_ok_level ok = true
is_ok_level _ = false

-- A level one worse; `pause` stays.
abbrev pub worse : HealthLevel → HealthLevel
worse ok = slow
worse slow = pause
worse pause = pause

abbrev pub is_pause_level : HealthLevel → Bool
is_pause_level pause = true
is_pause_level _ = false

unfoldable pub advance_health_state :
    OriginHealthConfig → OriginHealthState → ProbeResult → ℕ → OriginHealthState
advance_health_state config prev probe now =
    let next = record prev {
      last_checked_at = some now;
      last_latency_ms = some probe.latency_ms;
      last_status = probe.status;
      last_error = probe.error;
    } in
    let oks = prev.consecutive_ok + 1 in
    let fails = prev.consecutive_fails + 1 in
    if probe.success
    then (if not (is_ok_level prev.level) && leb config.recover_threshold oks
        then record next { level = ok; consecutive_ok = 0; consecutive_fails = 0 }
        else record next { consecutive_ok = oks; consecutive_fails = 0 })
    else (if not (is_pause_level prev.level) && leb config.fail_threshold fails
        then record next { level = worse prev.level; consecutive_fails = 0; consecutive_ok = 0 }
        else record next { consecutive_fails = fails; consecutive_ok = 0 })
