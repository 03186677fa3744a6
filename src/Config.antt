-- ===== src/Config.antt =====
-- src/core/config.ts and `QueueConfig` of src/core/types.ts. `Number(text)` is the runtime's: the
-- argument `number`.
pub mod Laws
use tide_guard.Base.{
  ℕ, Bool, true, false, ◌||◌, not, Option, none, some, List, [], ◌∷◌, ltb, leb, if◌then◌else◌,
  String, str_eq,
}
use tide_guard.Engine.{AdmissionMode, queue, lottery}
use tide_guard.Js.{
  JsNumber, frac, neg, int, is_nat, floor, is_blank, clamp_missed_slot_grace_seconds,
  min_missed_slot_grace_seconds, max_missed_slot_grace_seconds, default_missed_slot_grace_seconds,
}

-- `admit_per_second` is in millionths.
pub record QueueConfig : Type 0 where
  pub max_concurrent_users : ℕ
  pub admit_per_second : ℕ
  pub token_ttl_seconds : ℕ
  pub heartbeat_timeout_seconds : ℕ
  pub queue_timeout_seconds : ℕ
  pub admission_mode : AdmissionMode
  pub require_click_to_enter : Bool
  pub admit_hold_seconds : ℕ
  pub missed_slot_grace_seconds : ℕ

abbrev pub default_queue_config : QueueConfig
default_queue_config = record {
  max_concurrent_users = 20;
  admit_per_second = 2_000_000;
  token_ttl_seconds = 600;
  heartbeat_timeout_seconds = 180;
  queue_timeout_seconds = 86_400;
  admission_mode = queue;
  require_click_to_enter = false;
  admit_hold_seconds = 120;
  missed_slot_grace_seconds = default_missed_slot_grace_seconds;
}

pub record QueueConfigEnv : Type 0 where
  pub max_concurrent_users : Option String
  pub admit_per_second : Option String
  pub token_ttl_seconds : Option String
  pub heartbeat_timeout_seconds : Option String
  pub queue_timeout_seconds : Option String
  pub admission_mode : Option String
  pub missed_slot_grace_seconds : Option String

-- The messages of a `ConfigError`.
pub data Issue : Type 0 where
  bad_max_concurrent_users bad_admit_per_second bad_token_ttl bad_heartbeat_timeout : Issue
  bad_queue_timeout heartbeat_not_below_queue_timeout bad_missed_slot_grace : Issue
  bad_admission_mode : Issue

pub data ConfigResult : Type 0 where
  parsed : QueueConfig → ConfigResult
  config_error : List Issue → ConfigResult

abbrev pub parse_admission_mode : String → Option AdmissionMode
parse_admission_mode value =
    if str_eq value "queue"
    then some queue
    else (if str_eq value "lottery" then some lottery else none)

-- `!isInteger(x) || x < lo`.
abbrev pub not_int_from : JsNumber → ℕ → Bool
not_int_from x lo = not (is_nat x) || ltb (floor x) lo

abbrev pub not_positive : JsNumber → Bool
not_positive (frac n) = leb n 0
not_positive _ = true

-- `isFinite(a) && isFinite(b) && a >= b`.
abbrev pub finite_ge : JsNumber → JsNumber → Bool
finite_ge (frac a) (frac b) = leb b a
finite_ge (frac a) (neg b) = true
finite_ge (neg a) (neg b) = leb a b
finite_ge (neg a) (frac b) = false
finite_ge _ _ = false

abbrev pub missing_mode : Option AdmissionMode → Bool
missing_mode none = true
missing_mode (some m) = false

abbrev pub mode_or_queue : Option AdmissionMode → AdmissionMode
mode_or_queue none = queue
mode_or_queue (some m) = m

abbrev pub rate_of : JsNumber → ℕ
rate_of (frac n) = n
rate_of _ = 0

-- The values after the defaults are filled in.
pub record EnvNumbers : Type 0 where
  pub users : JsNumber
  pub rate : JsNumber
  pub ttl : JsNumber
  pub heartbeat : JsNumber
  pub timeout : JsNumber
  pub mode : Option AdmissionMode
  pub grace : JsNumber

-- The tests of `parseQueueConfig` in order, each with the issue that it raises.
abbrev pub checks : EnvNumbers → List (Bool × Issue)
checks e =
    (not_int_from e.users 1, bad_max_concurrent_users)
    ∷ (not_positive e.rate, bad_admit_per_second)
    ∷ (not_int_from e.ttl 30, bad_token_ttl)
    ∷ (not_int_from e.heartbeat 10, bad_heartbeat_timeout)
    ∷ (not_int_from e.timeout 60, bad_queue_timeout)
    ∷ (finite_ge e.heartbeat e.timeout, heartbeat_not_below_queue_timeout)
    ∷ (
      not_int_from e.grace min_missed_slot_grace_seconds
          || ltb max_missed_slot_grace_seconds (floor e.grace),
      bad_missed_slot_grace,
    )
    ∷ (missing_mode e.mode, bad_admission_mode)
    ∷ []

unfoldable pub raised : List (Bool × Issue) → List Issue
raised [] = []
raised ((failed, i) ∷ cs) = let rest = raised cs in if failed then i ∷ rest else rest

unfoldable pub config_of : EnvNumbers → QueueConfig
config_of e = record {
  max_concurrent_users = floor e.users;
  admit_per_second = rate_of e.rate;
  token_ttl_seconds = floor e.ttl;
  heartbeat_timeout_seconds = floor e.heartbeat;
  queue_timeout_seconds = floor e.timeout;
  admission_mode = mode_or_queue e.mode;
  require_click_to_enter = false;
  admit_hold_seconds = 120;
  missed_slot_grace_seconds = clamp_missed_slot_grace_seconds e.grace;
}

unfoldable pub check_numbers : EnvNumbers → ConfigResult
check_numbers e = elim (raised (checks e)) [
  | [] ↦ parsed (config_of e)
  | i ∷ is ↦ config_error (i ∷ is)
]

module _ (number : String → JsNumber) where
  unfoldable pub env_number_or_default : Option String → JsNumber → JsNumber
  env_number_or_default none fallback = fallback
  env_number_or_default (some raw) fallback = if is_blank raw then fallback else number raw

  unfoldable pub env_mode : Option String → Option AdmissionMode
  env_mode none = parse_admission_mode "queue"
  env_mode (some raw) = parse_admission_mode (if is_blank raw then "queue" else raw)

  unfoldable pub env_numbers : QueueConfigEnv → EnvNumbers
  unfolding env_number_or_default env_mode
  env_numbers env = record {
    users = env_number_or_default env.max_concurrent_users (int 20);
    rate = env_number_or_default env.admit_per_second (int 2);
    ttl = env_number_or_default env.token_ttl_seconds (int 600);
    heartbeat = env_number_or_default env.heartbeat_timeout_seconds (int 180);
    timeout = env_number_or_default env.queue_timeout_seconds (int 86_400);
    mode = env_mode env.admission_mode;
    grace =
        env_number_or_default env.missed_slot_grace_seconds (int default_missed_slot_grace_seconds);
  }

  unfoldable pub parse_queue_config : QueueConfigEnv → ConfigResult
  unfolding env_numbers check_numbers
  parse_queue_config env = check_numbers (env_numbers env)
