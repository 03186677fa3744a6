-- ===== src/Room/Alarm.antt =====
-- `ensureAlarm` of queue-room.ts. `clock` is `Date.now()`.
pub mod Wakeups
use tide_guard.Base.{
  ℕ, ◌+◌, ◌*◌, min, max, Bool, true, false, ◌&&◌, ◌||◌, not, Option, none, some, List, [], ◌∷◌, ltb,
  if◌then◌else◌,
}
use tide_guard.Engine.{queue_alarm_interval_ms}
use tide_guard.Room.{Room, OutboxRow}
use tide_guard.Room.Depth.{count_waiting, count_admitted}
use tide_guard.Room.Settings.{can_admit, get_opens_at, not_reached, read_health_config}

abbrev pub sooner : ℕ → Option ℕ → ℕ
sooner t none = t
sooner t (some u) = min t u

-- `SELECT next_attempt_at … ORDER BY next_attempt_at LIMIT 1`.
pub next_webhook : List OutboxRow → Option ℕ
next_webhook [] = none
next_webhook (row ∷ rows) = some (sooner row.next_attempt_at (next_webhook rows))

abbrev pub has_queue_work : Room → ℕ → Bool
has_queue_work r clock =
    let waiting_for_open = not_reached (get_opens_at r) clock && ltb 0 (count_waiting r) in
    ltb 0 (count_waiting r)
    || ltb 0 (count_admitted r)
    || (read_health_config r).enabled
    || waiting_for_open

unfoldable pub alarm_interval : Room → ℕ → ℕ
alarm_interval r clock =
    let idle = max (queue_alarm_interval_ms * 15) 15_000 in
    let interval =
      if ltb 0 (count_waiting r) && can_admit r clock
      then queue_alarm_interval_ms
      else (if ltb 0 (count_waiting r) then min 5_000 idle else idle) in
    if (read_health_config r).enabled
    then min interval ((read_health_config r).interval_seconds * 1000)
    else interval

abbrev pub next_alarm : Room → ℕ → Option ℕ → ℕ
next_alarm r clock none = clock + alarm_interval r clock
next_alarm r clock (some t) =
    if has_queue_work r clock then min (clock + alarm_interval r clock) t else t

-- `existing === null || existing > nextAt + 250`.
abbrev pub set_alarm_at : Option ℕ → ℕ → ℕ
set_alarm_at none next_at = next_at
set_alarm_at (some t) next_at = if ltb (next_at + 250) t then next_at else t

abbrev pub is_none : Option ℕ → Bool
is_none none = true
is_none (some t) = false

unfoldable pub ensure_alarm : ℕ → Room → Room
unfolding next_webhook
ensure_alarm clock r =
    let webhook = next_webhook r.outbox in
    if not (has_queue_work r clock) && is_none webhook
    then record r { alarm = none }
    else record r { alarm = some (set_alarm_at r.alarm (next_alarm r clock webhook)) }
