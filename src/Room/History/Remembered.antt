-- ===== src/Room/History/Remembered.antt =====
-- The configuration that a room remembers for its alarm, under the steps of its operations.
use tide_guard.Base.{
  ℕ, ◌≡◌, inl, inr, refl, Bool, not, ◌||◌, List, String, leb, min, Bool-cases, arith,
}
use tide_guard.Engine.{
  AdmissionMode, queue, lottery, open_slots, admissions_for_tick, queue_alarm_interval_ms,
}
use tide_guard.Config.{QueueConfig}
use tide_guard.Room.{Room, VisitorRow, is_waiting}
use tide_guard.Room.Depth.{bump_depth, reconcile_depth, waiting_ahead, count_admitted}
use tide_guard.Room.Settings.{
  can_admit, admission_mode, get_opens_at, effective_admit_per_second, set_meta,
}
use tide_guard.Room.Traffic.{record_traffic, flush_traffic_bucket, Delta}
use tide_guard.Room.Waiters.{
  place_in_line, repair_check_in_before_open, renew_check_in, needs_repair,
}
use tide_guard.Room.Sweep.{sweep, run_sweep}
use tide_guard.Room.Admission.{
  Random, NewVisitor, insert_visitor, after_promotion, admit_selected, admit_up_to, admit_available,
  admit_from_budget, select_waiting,
}
use tide_guard.Room.View.{to_view, line_of, waiting_line_of}
use tide_guard.Room.Alarm.{ensure_alarm}
use tide_guard.Room.Service.{maybe_probe_health, Network}

abbrev pub Keeps : Room → Room → Type 0
Keeps r' r = r'.meta.config ≡ r.meta.config

pub sweep-Keeps :
    (config : QueueConfig) (now : ℕ) (force : Bool) (r : Room) → Keeps (sweep config now force r) r
unfolding sweep run_sweep reconcile_depth
sweep-Keeps config now force r = ground arith

pub flush-Keeps :
    (now : ℕ) (config : QueueConfig) (r : Room) → Keeps (flush_traffic_bucket now config r) r
unfolding flush_traffic_bucket
flush-Keeps now config r = ground arith

pub record-Keeps :
    (now : ℕ) (config : QueueConfig) (delta : Delta) (r : Room)
    → Keeps (record_traffic now config delta r) r
unfolding record_traffic
record-Keeps now config delta r = flush-Keeps now config r

pub insert-Keeps : (n : NewVisitor) (r : Room) → Keeps (insert_visitor n r).0 r
unfolding insert_visitor bump_depth
insert-Keeps n r = ground arith

pub alarm-Keeps : (clock : ℕ) (r : Room) → Keeps (ensure_alarm clock r) r
unfolding ensure_alarm
alarm-Keeps clock r = ground arith

pub place-Keeps :
    (r : Room) (mode : AdmissionMode) (v : VisitorRow) → Keeps (place_in_line r mode v).0 r
unfolding place_in_line waiting_ahead
place-Keeps r lottery v = refl
place-Keeps r queue v = ground arith

pub view-Keeps :
    (r : Room) (v : VisitorRow) (config : QueueConfig) (now : ℕ)
    → Keeps (to_view r v config now).0 r
unfolding to_view line_of waiting_line_of
view-Keeps r v config now = elim (Bool-cases (is_waiting v.status)) [
  | inl e ↦ rw e (place-Keeps r (admission_mode r config) v)
  | inr e ↦ rw e refl
]

pub repair-Keeps :
    (r : Room) (v : VisitorRow) (config : QueueConfig) (now : ℕ)
    → Keeps (repair_check_in_before_open r v config now).0 r
unfolding repair_check_in_before_open
repair-Keeps r v config now =
    elim (Bool-cases (needs_repair (get_opens_at r) v.next_check_at now)) [
      | inl e ↦ rw e (place-Keeps r (admission_mode r config) v)
      | inr e ↦ rw e refl
    ]

pub renew-Keeps :
    (r : Room) (v : VisitorRow) (config : QueueConfig) (now : ℕ)
    → Keeps (renew_check_in r v config now) r
unfolding renew_check_in
renew-Keeps r v config now = place-Keeps r (admission_mode r config) v

after-Keeps :
    (n : ℕ) (config : QueueConfig) (now : ℕ) (r : Room) → Keeps (after_promotion n config now r) r
unfolding after_promotion record_traffic flush_traffic_bucket bump_depth
after-Keeps n config now r = ground arith

selected-Keeps :
    (ids : List String) (config : QueueConfig) (now : ℕ) (r : Room)
    → Keeps (admit_selected ids config now r).0 r
unfolding admit_selected
selected-Keeps ids config now r = after-Keeps _ config now _

pub admit_up_to-Keeps :
    (rnd : Random) (limit : ℕ) (config : QueueConfig) (now : ℕ) (r : Room)
    → Keeps (admit_up_to rnd limit config now r).0 r
unfolding admit_up_to
admit_up_to-Keeps rnd limit config now r =
    let n = min (open_slots config.max_concurrent_users (count_admitted r)) limit in
    elim (Bool-cases (leb n 0)) [
      | inl e ↦ rw e refl
      | inr e ↦ rw e (selected-Keeps (select_waiting rnd n config r) config now r)
    ]

pub admit_available-Keeps :
    (rnd : Random) (config : QueueConfig) (now : ℕ) (r : Room)
    → Keeps (admit_available rnd config now r) r
unfolding admit_available
admit_available-Keeps rnd config now r =
    let n = open_slots config.max_concurrent_users (count_admitted r) in
    elim (Bool-cases (can_admit r now)) [
      | inr shut ↦ rw shut refl
      | inl may ↦ elim (Bool-cases (leb n 0)) [
        | inl e ↦ rw (may, e) refl
        | inr e ↦ rw (may, e) (selected-Keeps (select_waiting rnd n config r) config now r)
      ]
    ]

pub admit_from_budget-Keeps :
    (rnd : Random) (config : QueueConfig) (now : ℕ) (r : Room)
    → Keeps (admit_from_budget rnd config now r) r
unfolding admit_from_budget
admit_from_budget-Keeps rnd config now r =
    let rate = effective_admit_per_second r config now in
    let tick = admissions_for_tick rnd.round rate queue_alarm_interval_ms r.meta.admit_remainder in
    let ticked : Room = set_meta r (record (r.meta) { admit_remainder = tick.next_remainder }) in
    elim (Bool-cases (not (can_admit r now) || leb rate 0)) [
      | inl shut ↦ rw shut refl
      | inr may ↦ elim (Bool-cases (leb tick.admit_count 0)) [
        | inl e ↦ rw (may, e) refl
        | inr e ↦ rw (may, e) (admit_up_to-Keeps rnd tick.admit_count config now ticked)
      ]
    ]

pub probe-Keeps :
    (net : Network) (now : ℕ) (r : Room) → Keeps (maybe_probe_health net.probe net.latency now r) r
unfolding maybe_probe_health
probe-Keeps net now r = ground arith
