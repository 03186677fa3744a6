-- ===== src/Room/Controls.antt =====
-- The operator's controls of a room and its metrics (queue-room.ts).
use tide_guard.Base.{
  ℕ, ◌+◌, ◌-◌, ◌*◌, max, min, Bool, true, false, ◌||◌, not, Option, none, some, String, ltb,
  if◌then◌else◌,
}
use tide_guard.Js.{JsNumber, is_finite, floor, parse_admit_per_second}
use tide_guard.Engine.{AdmissionMode, open_slots}
use tide_guard.Eta.{estimate_wait_seconds, least_rate}
use tide_guard.Config.{QueueConfig}
use tide_guard.Health.{
  RawHealth, parse_health_config, default_health_state, is_auto_paused, HealthLevel,
}
use tide_guard.Room.{Room, CloseAction}
use tide_guard.Room.Table.{count_entered_visitors, waiting_wait_stats}
use tide_guard.Room.Depth.{count_waiting, count_admitted}
use tide_guard.Room.Settings.{
  admission_mode, effective_config, effective_admit_per_second, get_admit_per_second_override,
  get_opens_at, get_closes_at, room_phase, RoomPhase, set_meta, remember_config, ensure_queue_name,
  read_health_config, read_health_state,
}
use tide_guard.Room.Traffic.{current_traffic_open}
use tide_guard.Room.Sweep.{sweep}
use tide_guard.Room.Alarm.{ensure_alarm}

-- `setMode`, which also keeps the effective configuration for the alarm.
unfoldable pub set_mode : String → QueueConfig → AdmissionMode → ℕ → Room → Room
set_mode queue config mode clock r =
    let named = remember_config config (ensure_queue_name queue r) in
    let chosen = set_meta named (record (named.meta) { admission_mode = some mode }) in
    ensure_alarm clock
      (remember_config (record (effective_config chosen config) { admission_mode = mode }) chosen)

unfoldable pub set_paused : Bool → ℕ → Room → Room
set_paused paused clock r =
    let set = set_meta r (record (r.meta) { paused = paused }) in
    if not paused then ensure_alarm clock set else set

-- `showWaitingCount` is optional.
abbrev pub or_kept : Option Bool → Bool → Bool
or_kept none kept = kept
or_kept (some b) kept = b

unfoldable pub set_admit_ux : String → QueueConfig → Bool → ℕ → Option Bool → ℕ → Room → Room
set_admit_ux queue config click hold show clock r =
    let named = ensure_queue_name queue r in
    let set = set_meta named (record (named.meta) {
      require_click = some click;
      admit_hold_seconds = some hold;
      show_waiting_count = or_kept show named.meta.show_waiting_count;
    }) in
    ensure_alarm clock (
      remember_config (record config { require_click_to_enter = click; admit_hold_seconds = hold })
        set)

-- A field of the input that is absent is `none`; a null time is `some none`.
pub record ScheduleInput : Type 0 where
  pub opens_at : Option (Option ℕ)
  pub closes_at : Option (Option ℕ)
  pub close_action : Option CloseAction

abbrev pub updated {ℓ} : {A : Type ℓ} → Option A → A → A
updated none kept = kept
updated (some a) kept = a

unfoldable pub set_schedule : ScheduleInput → ℕ → Room → Room
set_schedule input clock r = ensure_alarm clock (
    set_meta r (record (r.meta) {
      opens_at = updated input.opens_at r.meta.opens_at;
      closes_at = updated input.closes_at r.meta.closes_at;
      close_action = updated input.close_action r.meta.close_action;
    }))

pub record Schedule : Type 0 where
  pub opens_at : Option ℕ
  pub closes_at : Option ℕ
  pub close_action : CloseAction
  pub room_phase : RoomPhase

unfoldable pub schedule : Room → ℕ → Schedule
schedule r now = record {
  opens_at = get_opens_at r;
  closes_at = get_closes_at r;
  close_action = r.meta.close_action;
  room_phase = room_phase r now;
}

unfoldable pub bump_token_epoch : Room → Room × ℕ
bump_token_epoch r =
    let next = r.meta.token_epoch + 1 in (set_meta r (record (r.meta) { token_epoch = next }), next)

-- The overlay `{ ...readHealthConfig(), ...input.health }` is the argument `raw`.
unfoldable pub set_health_config :
    (Option String → Option String) → String → QueueConfig → RawHealth → ℕ → Room → Room
set_health_config sanitize queue config raw clock r =
    let named = remember_config config (ensure_queue_name queue r) in
    let parsed = parse_health_config sanitize raw in
    ensure_alarm clock (
      set_meta named (record (named.meta) {
        health_config = some parsed;
        health_state =
            if not parsed.enabled then some default_health_state else named.meta.health_state;
      }))

-- Whole minutes, at least one and at most a day.
unfoldable pub override_health : ℕ → ℕ → Room → Room
override_health minutes clock r =
    let until = clock + max 1 (min minutes 1_440) * 60_000 in
    ensure_alarm clock (
      set_meta r (record (r.meta) {
        health_config = some (record (read_health_config r) { override_until = some until });
      }))

unfoldable pub clear_health_override : Room → Room
clear_health_override r = set_meta r (record (r.meta) {
  health_config = some (record (read_health_config r) { override_until = none });
})

-- `none` is the error "admitPerSecond out of range", thrown after the configuration is kept.
unfoldable pub set_admit_rate : String → QueueConfig → JsNumber → ℕ → Room → Room × Bool
set_admit_rate queue config rate clock r =
    let named = remember_config config (ensure_queue_name queue r) in
    elim (parse_admit_per_second rate) [
      | none ↦ (named, false)
      | some n ↦ (
        ensure_alarm clock
            (set_meta named (record (named.meta) { admit_per_second_override = some n })),
        true,
      )
    ]

unfoldable pub clear_admit_rate : String → QueueConfig → ℕ → Room → Room
clear_admit_rate queue config clock r =
    let named = remember_config config (ensure_queue_name queue r) in
    ensure_alarm clock (set_meta named (record (named.meta) { admit_per_second_override = none }))

-- The result says whether the value was in range.
unfoldable pub set_max_waiting_visitors : JsNumber → Room → Room × Bool
set_max_waiting_visitors value r =
    let n = floor value in
    if not (is_finite value) || ltb n 1 || ltb 50_000_000 n
    then (r, false)
    else (set_meta r (record (r.meta) { max_waiting_visitors = some n }), true)

unfoldable pub set_missed_slot_grace_seconds : JsNumber → ℕ → Room → Room × Bool
set_missed_slot_grace_seconds value clock r =
    let n = floor value in
    if not (is_finite value) || ltb n 30 || ltb 900 n then (r, false) else (
      ensure_alarm clock (set_meta r (record (r.meta) { missed_slot_grace_seconds = some n })),
      true,
    )

-- The numbers of `QueueMetrics` (`buildMetrics` of src/queue/types.ts); rates in millionths, the
-- effective rate in effective units.
pub record Metrics : Type 0 where
  pub waiting : ℕ
  pub admitted : ℕ
  pub entered : ℕ
  pub holding : ℕ
  pub open_slots : ℕ
  pub capacity : ℕ
  pub admit_per_second : ℕ
  pub admit_per_second_override : Option ℕ
  pub admit_per_second_default : ℕ
  pub estimated_wait_seconds : ℕ
  pub average_wait_seconds : ℕ
  pub oldest_wait_seconds : ℕ
  pub paused : Bool
  pub admission_mode : AdmissionMode
  pub schedule : Schedule
  pub effective_admit_per_second : ℕ
  pub total_inflow : ℕ
  pub inflow_current : ℕ
  pub outflow_current : ℕ
  pub health_level : HealthLevel
  pub auto_paused : Bool

unfoldable pub metrics_of : Room → QueueConfig → ℕ → Metrics
metrics_of r config now =
    let rate = effective_admit_per_second r config now in
    record {
      waiting = count_waiting r;
      admitted = count_admitted r;
      entered = count_entered_visitors r.visitors;
      holding = count_admitted r - count_entered_visitors r.visitors;
      open_slots = open_slots config.max_concurrent_users (count_admitted r);
      capacity = config.max_concurrent_users;
      admit_per_second = (effective_config r config).admit_per_second;
      admit_per_second_override = get_admit_per_second_override r;
      admit_per_second_default = config.admit_per_second;
      estimated_wait_seconds = estimate_wait_seconds none (count_waiting r) (max rate least_rate);
      average_wait_seconds = (waiting_wait_stats r.visitors now).average_wait_seconds;
      oldest_wait_seconds = (waiting_wait_stats r.visitors now).oldest_wait_seconds;
      paused = r.meta.paused;
      admission_mode = admission_mode r config;
      schedule = schedule r now;
      effective_admit_per_second = rate;
      total_inflow = r.meta.total_inflow;
      inflow_current = (current_traffic_open now r).joins;
      outflow_current = (current_traffic_open now r).admits;
      health_level = (read_health_state r).level;
      auto_paused = is_auto_paused (read_health_config r) (read_health_state r) now;
    }

unfoldable pub metrics : String → QueueConfig → ℕ → Room → Room × Metrics
metrics queue config now r =
    let swept = sweep config now false (remember_config config (ensure_queue_name queue r)) in
    (swept, metrics_of swept config now)
