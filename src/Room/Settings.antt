-- ===== src/Room/Settings.antt =====
-- What a room reads from its settings: mode, effective configuration, schedule, and whether and at
-- what rate it may admit (queue-room.ts).
use tide_guard.Base.{
  ℕ, ◌*◌, Bool, true, false, ◌&&◌, not, Option, none, some, String, ltb, leb, if◌then◌else◌, str_eq,
}
use tide_guard.Engine.{AdmissionMode, default_max_waiting_visitors}
use tide_guard.Js.{clamp_grace, frac, parse_admit_per_second}
use tide_guard.Config.{QueueConfig}
use tide_guard.Health.{
  OriginHealthConfig, OriginHealthState, default_health_config, default_health_state, or_else,
  is_auto_paused, health_rate_multiplier,
}
use tide_guard.Room.{Room, Meta}

abbrev pub admission_mode : Room → QueueConfig → AdmissionMode
admission_mode r config = or_else r.meta.admission_mode config.admission_mode

abbrev pub rate_override : Option ℕ → Option ℕ
rate_override none = none
rate_override (some rate) = parse_admit_per_second (frac rate)

abbrev pub get_admit_per_second_override : Room → Option ℕ
get_admit_per_second_override r = rate_override r.meta.admit_per_second_override

abbrev pub in_hold_range : ℕ → Bool
in_hold_range hold = leb 15 hold && leb hold 900

unfoldable pub effective_config : Room → QueueConfig → QueueConfig
effective_config r config =
    let hold = or_else r.meta.admit_hold_seconds config.admit_hold_seconds in
    record config {
      admit_per_second = or_else (get_admit_per_second_override r) config.admit_per_second;
      require_click_to_enter = or_else r.meta.require_click config.require_click_to_enter;
      admit_hold_seconds = if in_hold_range hold then hold else config.admit_hold_seconds;
      missed_slot_grace_seconds =
          clamp_grace (or_else r.meta.missed_slot_grace_seconds config.missed_slot_grace_seconds);
    }

-- `value > 0 ? value : null`.
abbrev pub positive : Option ℕ → Option ℕ
positive none = none
positive (some t) = if ltb 0 t then some t else none

abbrev pub get_opens_at : Room → Option ℕ
get_opens_at r = positive r.meta.opens_at

abbrev pub get_closes_at : Room → Option ℕ
get_closes_at r = positive r.meta.closes_at

-- `t !== null && now < t`.
abbrev pub not_reached : Option ℕ → ℕ → Bool
not_reached none now = false
not_reached (some t) now = ltb now t

-- `t !== null && now >= t`.
abbrev pub reached : Option ℕ → ℕ → Bool
reached none now = false
reached (some t) now = leb t now

pub data RoomPhase : Type 0 where
  scheduled open_phase closed : RoomPhase

unfoldable pub room_phase : Room → ℕ → RoomPhase
room_phase r now =
    if not_reached (get_opens_at r) now
    then scheduled
    else (if reached (get_closes_at r) now then closed else open_phase)

-- What `setHealthConfig` and the overrides store is its own normal form, so reading it parses
-- nothing away.
abbrev pub read_health_config : Room → OriginHealthConfig
read_health_config r = or_else r.meta.health_config default_health_config

abbrev pub read_health_state : Room → OriginHealthState
read_health_state r = or_else r.meta.health_state default_health_state

unfoldable pub can_admit : Room → ℕ → Bool
can_admit r now =
    if r.meta.paused
    then false
    else (if not_reached (get_opens_at r) now
        then false
        else (if reached (get_closes_at r) now
            then false
            else not (is_auto_paused (read_health_config r) (read_health_state r) now)))

-- In effective units: a rate and a multiplier in millionths.
unfoldable pub effective_admit_per_second : Room → QueueConfig → ℕ → ℕ
effective_admit_per_second r config now =
    if not (can_admit r now)
    then 0
    else (effective_config r config).admit_per_second
      * health_rate_multiplier (read_health_config r) (read_health_state r) now

-- `if (raw)`, then `n >= 1`: a stored 0 counts as none.
abbrev pub at_least_one : Option ℕ → ℕ → ℕ
at_least_one none fallback = fallback
at_least_one (some n) fallback = if leb 1 n then n else fallback

abbrev pub max_waiting_visitors : Room → ℕ
max_waiting_visitors r = at_least_one r.meta.max_waiting_visitors default_max_waiting_visitors

abbrev pub config_grace : Option QueueConfig → ℕ
config_grace none = 120
config_grace (some config) = clamp_grace config.missed_slot_grace_seconds

abbrev pub missed_slot_grace_seconds : Room → ℕ
missed_slot_grace_seconds r = elim (r.meta.missed_slot_grace_seconds) [
  | some n ↦ clamp_grace n
  | none ↦ config_grace r.meta.config
]

abbrev pub set_meta : Room → Meta → Room
set_meta r m = record r { meta = m }

-- Writing a configuration that is there already changes nothing.
abbrev pub remember_config : QueueConfig → Room → Room
remember_config config r = set_meta r (record (r.meta) { config = some config })

abbrev pub is_empty_name : Option String → Bool
is_empty_name none = true
is_empty_name (some name) = str_eq name ""

abbrev pub ensure_queue_name : String → Room → Room
ensure_queue_name queue r =
    if is_empty_name r.meta.queue_name
    then set_meta r (record (r.meta) { queue_name = some queue })
    else r
