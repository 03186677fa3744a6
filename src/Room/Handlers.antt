-- ===== src/Room/Handlers.antt =====
-- What visitors ask of a room but to leave it: `join`, `status`, `heartbeat` and `enter` of
-- queue-room.ts. `now` is the request's time, `clock` is `Date.now()` in `ensureAlarm`. Storage
-- calls do not interleave with other requests.
pub mod Occupancy
pub mod Rejoining
pub mod Capacity
pub mod Unadmitting
use tide_guard.Base.{
  ℕ, ◌+◌, ◌*◌, min, Bool, true, false, ◌&&◌, not, Option, none, some, List, [], ◌∷◌, map, String,
  str_eq, ltb, leb, if◌then◌else◌,
}
use tide_guard.Engine.{open_slots, is_check_in_due, min_check_in_period_sec}
use tide_guard.Config.{QueueConfig}
use tide_guard.Health.{
  FetchOutcome, OriginHealthConfig, OriginHealthState, advance_health_state, probe_origin_health,
  is_some,
}
use tide_guard.Room.{
  Room, VisitorRow, Status, waiting, admitted, expired, left, Delivery, Counts, is_waiting,
  is_admitted,
}
use tide_guard.Room.Table.{select_visitor}
use tide_guard.Room.Depth.{depth, count_waiting, count_admitted, bump_depth, clear_ahead}
use tide_guard.Room.Settings.{
  can_admit, effective_config, max_waiting_visitors, remember_config, ensure_queue_name, set_meta,
  read_health_config, read_health_state,
}
use tide_guard.Room.Traffic.{record_traffic, flush_traffic_bucket}
use tide_guard.Room.Waiters.{Place, assign_check_in, repair_check_in_before_open, renew_check_in}
use tide_guard.Room.Sweep.{sweep}
use tide_guard.Room.Admission.{
  Random, NewVisitor, row_of, insert_visitor, admit_up_to, admit_available, admit_from_budget,
}
use tide_guard.Room.View.{View, to_view}
use tide_guard.Room.Alarm.{ensure_alarm}
use tide_guard.Room.Outbox.{process_webhook_outbox}

-- The fields that every visitor request has.
pub record Request : Type 0 where
  pub queue : String
  pub config : QueueConfig
  pub visitor_id : String
  pub now : ℕ
  pub clock : ℕ

-- What each operation does first.
unfoldable pub prologue : Request → Bool → Room → Room
prologue q force r =
    sweep q.config q.now force (remember_config q.config (ensure_queue_name q.queue r))

pub data JoinResult : Type 0 where
  joined : View → JoinResult
  queue_full : JoinResult
  duplicate_id : JoinResult

-- `this.getVisitor(id)!`: the row is there; `v` stands for it otherwise.
abbrev pub row_or : Option VisitorRow → VisitorRow → VisitorRow
row_or none v = v
row_or (some w) v = w

abbrev pub view_of : Room → VisitorRow → Request → Room × View
view_of r v q = to_view r (row_or (select_visitor q.visitor_id r.visitors) v) q.config q.now

abbrev pub joined_as : Room × View → Room × JoinResult
joined_as (r, v) = (r, joined v)

-- Insert, count, schedule the alarm, answer; or the constraint error of the insert.
unfoldable pub join_as : Request → NewVisitor → ℕ → Room → Room × JoinResult
join_as q n admits r =
    let (inserted, done) = insert_visitor n r in
    let counted = record_traffic q.now q.config (record { joins = 1; admits = admits }) inserted in
    if done
    then joined_as (view_of (ensure_alarm q.clock counted) (row_of n r.meta.next_sequence) q)
    else (inserted, duplicate_id)

abbrev pub admitted_visitor : Request → Room → NewVisitor
admitted_visitor q r = record {
  id = q.visitor_id;
  status = admitted;
  joined_at = q.now;
  admitted_at = some q.now;
  entered = not (effective_config r q.config).require_click_to_enter;
  next_check_at = none;
}

abbrev pub waiting_visitor : Request → Room → NewVisitor
waiting_visitor q r =
    let n = count_waiting r + 1 in
    let place : Place = record { position = some n; estimated_wait_seconds = 0 } in
    record {
      id = q.visitor_id;
      status = waiting;
      joined_at = q.now;
      admitted_at = none;
      entered = false;
      next_check_at =
          some (
            assign_check_in r q.visitor_id n q.config q.now place (min_check_in_period_sec * 1000));
    }

unfoldable pub join_new : Request → Room → Room × JoinResult
join_new q r =
    if can_admit r q.now && ltb 0 (open_slots q.config.max_concurrent_users (count_admitted r))
    then join_as q (admitted_visitor q r) 1 r
    else (if leb (max_waiting_visitors r) (count_waiting r)
        then (r, queue_full)
        else join_as q (waiting_visitor q r) 0 r)

abbrev pub is_live : Status → Bool
is_live waiting = true
is_live admitted = true
is_live _ = false

unfoldable pub join_swept : Request → Room → Room × JoinResult
unfolding join_new join_as
join_swept q r = elim (select_visitor q.visitor_id r.visitors) [
  | none ↦ join_new q r
  | some v ↦
      if is_live v.status
      then joined_as (to_view (ensure_alarm q.clock r) v q.config q.now)
      else join_new q r
]

-- `visitor_id` is the request's id, or the random one that the room makes.
unfoldable pub join : Request → Room → Room × JoinResult
unfolding prologue join_swept
join q r = join_swept q (prologue q true r)

pub data StatusResult : Type 0 where
  found : View → StatusResult
  not_found : StatusResult
  not_admitted : StatusResult

abbrev pub found_as : Room × View → Room × StatusResult
found_as (r, v) = (r, found v)

-- Repair, renew when due, or only read.
unfoldable pub check_in : Request → VisitorRow → Room → Room × StatusResult
check_in q v r =
    let (repaired, done) = repair_check_in_before_open r v q.config q.now in
    if done
    then found_as (view_of repaired v q)
    else (if is_check_in_due q.now v.next_check_at
        then found_as (view_of (renew_check_in r v q.config q.now) v q)
        else found_as (to_view r v q.config q.now))

abbrev pub status_of : Status → Request → VisitorRow → Room → Room × StatusResult
status_of left q v r = (r, not_found)
status_of expired q v r = (r, not_found)
status_of waiting q v r = check_in q v r
status_of admitted q v r = found_as (to_view r v q.config q.now)

unfoldable pub status : Request → Room → Room × StatusResult
unfolding prologue check_in
status q r =
    let swept = prologue q false r in
    elim (select_visitor q.visitor_id swept.visitors) [
      | none ↦ (swept, not_found)
      | some v ↦ status_of v.status q v swept
    ]

unfoldable pub heartbeat : Request → Room → Room × StatusResult
unfolding prologue check_in
heartbeat q r =
    let swept = prologue q false r in
    elim (select_visitor q.visitor_id swept.visitors) [
      | none ↦ (swept, not_found)
      | some v ↦ if is_waiting v.status then check_in q v swept else (swept, not_found)
    ]

-- `UPDATE visitors SET entered = 1 WHERE id = ? AND status = 'admitted'`.
unfoldable pub set_entered : String → List VisitorRow → List VisitorRow
set_entered id =
    map λ v. if str_eq v.id id && is_admitted v.status then record v { entered = true } else v

abbrev pub enter_as : Status → Request → VisitorRow → Room → Room × StatusResult
enter_as left q v r = (r, not_found)
enter_as expired q v r = (r, not_found)
enter_as waiting q v r = (r, not_admitted)
enter_as admitted q v r = found_as (
    view_of (ensure_alarm q.clock (record r { visitors = set_entered q.visitor_id r.visitors })) v
      q)

unfoldable pub enter : Request → Room → Room × StatusResult
unfolding prologue set_entered
enter q r =
    let swept = prologue q true r in
    elim (select_visitor q.visitor_id swept.visitors) [
      | none ↦ (swept, not_found)
      | some v ↦ enter_as v.status q v swept
    ]
