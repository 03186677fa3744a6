-- ===== src/Room/Service.antt =====
-- What the operator's forced admission and the alarm do to a room, and its eviction from memory
-- (`forceAdmit`, `alarm` of queue-room.ts, `maybeProbeHealth` of health-state.ts).
use tide_guard.Base.{
  ℕ, ◌+◌, ◌*◌, Bool, true, false, ◌&&◌, not, Option, none, some, List, [], String, ltb,
  if◌then◌else◌,
}
use tide_guard.Engine.{open_slots}
use tide_guard.Config.{QueueConfig}
use tide_guard.Health.{
  OriginHealthState, FetchOutcome, advance_health_state, probe_origin_health, is_some,
}
use tide_guard.Room.{OutboxRow, Room}
use tide_guard.Room.Depth.{count_waiting, count_admitted}
use tide_guard.Room.Settings.{can_admit, set_meta, read_health_config, read_health_state}
use tide_guard.Room.Traffic.{flush_traffic_bucket}
use tide_guard.Room.Sweep.{sweep}
use tide_guard.Room.Admission.{Random, admit_up_to, admit_from_budget}
use tide_guard.Room.Alarm.{ensure_alarm}
use tide_guard.Room.Outbox.{process_row, process_webhook_outbox}
use tide_guard.Room.Handlers.{Request, prologue}

pub record ForceAdmit : Type 0 where
  pub admitted : List String
  pub waiting : ℕ
  pub open_slots : ℕ

abbrev pub force_result : QueueConfig → ℕ → Room × List String → Room × ForceAdmit
force_result config clock (r, ids) =
    let woken = ensure_alarm clock r in
    (
      woken,
      record {
        admitted = ids;
        waiting = count_waiting woken;
        open_slots = open_slots config.max_concurrent_users (count_admitted woken);
      },
    )

-- `visitor_id` of the request is not read.
unfoldable pub force_admit : Random → ℕ → Request → Room → Room × ForceAdmit
unfolding prologue
force_admit rnd n q r =
    let swept = prologue q true r in
    force_result q.config q.clock
      (if can_admit swept q.now then admit_up_to rnd n q.config q.now swept else (swept, []))

-- `state.lastCheckedAt && now - state.lastCheckedAt < intervalSeconds * 1000`.
abbrev pub checked_recently : Option ℕ → ℕ → ℕ → Bool
checked_recently none interval now = false
checked_recently (some t) interval now = ltb 0 t && ltb now (t + interval)

-- `maybeProbeHealth`: `outcome` and `latency` are what the fetch gives.
unfoldable pub maybe_probe_health : FetchOutcome → ℕ → ℕ → Room → Room
maybe_probe_health outcome latency now r =
    let config = read_health_config r in
    let state = read_health_state r in
    if not config.enabled
    then r
    else (if not (is_some config.url)
        then r
        else (if checked_recently state.last_checked_at (config.interval_seconds * 1000) now
            then r
            else set_meta r (record (r.meta) {
              health_state = some (
                  advance_health_state config state (probe_origin_health config outcome latency)
                    now);
            })))

-- What the network answers during one alarm; to a delivery, by the id of its row.
pub record Network : Type 0 where
  pub delivered : ℕ → Bool
  pub probe : FetchOutcome
  pub latency : ℕ

unfoldable pub alarm_work : Random → Network → QueueConfig → ℕ → Room → Room
alarm_work rnd net config now r = flush_traffic_bucket now config (
    admit_from_budget rnd config now
      (maybe_probe_health net.probe net.latency now (sweep config now true r)))

-- The alarm that fires is gone from storage when the handler runs.
unfoldable pub alarm : Random → Network → ℕ → ℕ → Room → Room
unfolding alarm_work
alarm rnd net now clock r =
    let processed = process_webhook_outbox net.delivered now (record r { alarm = none }) in
    elim (processed.meta.config) [
      | none ↦ ensure_alarm clock processed
      | some config ↦ ensure_alarm clock (alarm_work rnd net config now processed)
    ]

-- The pieces of an alarm between its awaits, during which other requests run. The row of a turn,
-- the configuration and the state of the health are those read before the await.
unfoldable pub write_turn : Bool → ℕ → OutboxRow → Room → Room
write_turn answered now row r = record r { outbox = process_row (λ id. answered) now row r.outbox }

abbrev pub store_health : Option OriginHealthState → Room → Room
store_health none r = r
store_health (some state) r = set_meta r (record (r.meta) { health_state = some state })

unfoldable pub finish_alarm :
    Random → Option OriginHealthState → Option QueueConfig → ℕ → ℕ → Room → Room
finish_alarm rnd state none now clock r = ensure_alarm clock r
finish_alarm rnd state (some config) now clock r =
    ensure_alarm clock
      (flush_traffic_bucket now config (admit_from_budget rnd config now (store_health state r)))

-- The object leaves memory and comes back: the caches are lost, the storage stays.
unfoldable pub evict : Room → Room
evict r = record r { depth = none; ahead_cache = [] }
