-- ===== src/Room/Waiters.antt =====
-- The check-in of a waiting visitor in queue-room.ts: `assignCheckIn`,
-- `repairCheckInBeforeOpen`, `renewCheckIn`.
use tide_guard.Base.{
  ℕ, ◌*◌, ◌&&◌, max, Bool, true, false, not, Option, none, some, List, map, String, str_eq, ltb,
  leb, if◌then◌else◌, ceil_div,
}
use tide_guard.Engine.{
  AdmissionMode, queue, lottery, effective_unit, check_in_period_seconds,
  effective_check_in_period_seconds, next_check_at_ms, waiting_position,
}
use tide_guard.Eta.{least_rate}
use tide_guard.Config.{QueueConfig}
use tide_guard.Room.{Room, VisitorRow, is_waiting}
use tide_guard.Room.Depth.{count_waiting, waiting_ahead}
use tide_guard.Room.Settings.{admission_mode, effective_admit_per_second, get_opens_at}

abbrev pub later_of : Option ℕ → ℕ → ℕ
later_of none now = now
later_of (some t) now = if ltb now t then t else now

abbrev pub check_in_earliest_ms : Room → ℕ → ℕ
check_in_earliest_ms r now = later_of (get_opens_at r) now

-- The position and the estimate that a check-in is assigned by.
pub record Place : Type 0 where
  pub position : Option ℕ
  pub estimated_wait_seconds : ℕ

unfoldable pub assign_check_in : Room → String → ℕ → QueueConfig → ℕ → Place → ℕ → ℕ
assign_check_in r key waiting config now place min_lead =
    let earliest = check_in_earliest_ms r now in
    let before_open = ltb now earliest in
    let period =
      if before_open
      then check_in_period_seconds waiting
      else effective_check_in_period_seconds waiting place.position (admission_mode r config)
          place.estimated_wait_seconds (effective_admit_per_second r config now) in
    next_check_at_ms earliest period key (if before_open then 0 else min_lead)

-- `UPDATE visitors SET … WHERE id = ? AND status = 'waiting'`.
unfoldable pub update_waiting :
    String → (VisitorRow → VisitorRow) → List VisitorRow → List VisitorRow
update_waiting id change = map λ v. if str_eq v.id id && is_waiting v.status then change v else v

abbrev pub set_next_check_at : ℕ → VisitorRow → VisitorRow
set_next_check_at t v = record v { next_check_at = some t }

abbrev pub set_renewed : ℕ → ℕ → VisitorRow → VisitorRow
set_renewed now t v = record v { last_heartbeat_at = now; next_check_at = some t }

-- The position of a visitor, with the cache that computing it leaves; none in lottery mode.
unfoldable pub place_in_line : Room → AdmissionMode → VisitorRow → Room × Option ℕ
place_in_line r lottery v = (r, none)
place_in_line r queue v =
    let (r', ahead) = waiting_ahead r v.sequence in (r', some (waiting_position ahead))

abbrev pub scheduled_from : Option ℕ → ℕ → Bool
scheduled_from none t = false
scheduled_from (some n) t = leb t n

-- The guards: the room has not opened, and the row's check-in does not already wait for that.
unfoldable pub needs_repair : Option ℕ → Option ℕ → ℕ → Bool
needs_repair none next_check_at now = false
needs_repair (some opens_at) next_check_at now =
    not (leb opens_at now) && not (scheduled_from next_check_at opens_at)

unfoldable pub write_repair : Room → VisitorRow → QueueConfig → ℕ → Room
write_repair r v config now =
    let (r', position) = place_in_line r (admission_mode r config) v in
    let place : Place = record { position = position; estimated_wait_seconds = 0 } in
    let t = assign_check_in r v.id (count_waiting r) config now place 0 in
    record r' { visitors = update_waiting v.id (set_next_check_at t) r'.visitors }

unfoldable pub repair_check_in_before_open : Room → VisitorRow → QueueConfig → ℕ → Room × Bool
unfolding write_repair
repair_check_in_before_open r v config now =
    if needs_repair (get_opens_at r) v.next_check_at now
    then (write_repair r v config now, true)
    else (r, false)

-- `Math.ceil(n / Math.max(rate, 0.0001))`.
abbrev pub ceil_wait : ℕ → ℕ → ℕ
ceil_wait n rate = ceil_div (n * effective_unit) (max rate least_rate)

abbrev pub renew_estimate : Option ℕ → ℕ → ℕ → ℕ
renew_estimate none waiting rate = ceil_wait waiting rate
renew_estimate (some position) waiting rate = ceil_wait position rate

unfoldable pub renew_check_in : Room → VisitorRow → QueueConfig → ℕ → Room
renew_check_in r v config now =
    let (r', position) = place_in_line r (admission_mode r config) v in
    let place : Place = record {
      position = position;
      estimated_wait_seconds =
          renew_estimate position (count_waiting r) (effective_admit_per_second r config now);
    } in
    let t = assign_check_in r v.id (count_waiting r) config now place 1_000 in
    record r' { visitors = update_waiting v.id (set_renewed now t) r'.visitors }
