-- ===== src/Room/History/Told.antt =====
-- Which configuration each operation leaves remembered for the alarm.
use tide_guard.Health.{OriginHealthState}
use tide_guard.Base.{
  Option, ℕ, ◌≡◌, inl, inr, refl, ◌∙◌, Bool, true, false, ◌&&◌, none, some, String, ltb, leb,
  Bool-cases, Option-cases,
}
use tide_guard.Engine.{open_slots, is_check_in_due}
use tide_guard.Room.{
  QueueConfig, Room, VisitorRow, Status, waiting, admitted, expired, left, is_waiting,
}
use tide_guard.Room.Table.{select_visitor}
use tide_guard.Room.Depth.{bump_depth, count_waiting, count_admitted}
use tide_guard.Room.Settings.{can_admit, max_waiting_visitors, remember_config, ensure_queue_name}
use tide_guard.Room.Traffic.{flush_traffic_bucket, record_traffic}
use tide_guard.Room.Waiters.{repair_check_in_before_open, renew_check_in}
use tide_guard.Room.Sweep.{sweep}
use tide_guard.Room.Admission.{
  Random, NewVisitor, insert_visitor, admit_available, admit_up_to, admit_from_budget, row_of,
}
use tide_guard.Room.Alarm.{ensure_alarm}
use tide_guard.Room.Outbox.{process_webhook_outbox}
use tide_guard.Room.Handlers.{
  Request, prologue, view_of, row_or, join_as, join_new, join_swept, join, check_in, status_of,
  status, heartbeat, set_entered, enter_as, enter, is_live, admitted_visitor, waiting_visitor,
}
use tide_guard.Room.Departure.{leave, leave_as, drop_visitor}
use tide_guard.Room.Service.{
  finish_alarm, store_health, Network, force_admit, alarm, alarm_work, maybe_probe_health,
}
use tide_guard.Room.History.Remembered.{
  Keeps, sweep-Keeps, flush-Keeps, record-Keeps, insert-Keeps, alarm-Keeps, view-Keeps,
  repair-Keeps, renew-Keeps, admit_up_to-Keeps, admit_available-Keeps, admit_from_budget-Keeps,
  probe-Keeps,
}

-- The room remembers the configuration of the request.
abbrev Told : Request → Room → Type 0
Told q r = r.meta.config ≡ some q.config

pub prologue-Told : (q : Request) (force : Bool) (r : Room) → Told q (prologue q force r)
unfolding prologue
prologue-Told q force r =
    sweep-Keeps q.config q.now force (remember_config q.config (ensure_queue_name q.queue r))

view_of-Keeps : (r : Room) (v : VisitorRow) (q : Request) → Keeps (view_of r v q).0 r
view_of-Keeps r v q =
    view-Keeps r (row_or (select_visitor q.visitor_id r.visitors) v) q.config q.now

join_as-Keeps :
    (q : Request) (n : NewVisitor) (admits : ℕ) (r : Room) → Keeps (join_as q n admits r).0 r
unfolding join_as
join_as-Keeps q n admits r =
    let inserted = (insert_visitor n r).0 in
    let counted = record_traffic q.now q.config (record { joins = 1; admits = admits }) inserted in
    elim (Bool-cases (insert_visitor n r).1) [
      | inl e ↦ rw e (
          view_of-Keeps (ensure_alarm q.clock counted) (row_of n r.meta.next_sequence) q
          ∙ alarm-Keeps q.clock counted
          ∙ record-Keeps q.now q.config (record { joins = 1; admits = admits }) inserted
          ∙ insert-Keeps n r)
      | inr e ↦ rw e (insert-Keeps n r)
    ]

join_new-Keeps : (q : Request) (r : Room) → Keeps (join_new q r).0 r
unfolding join_new
join_new-Keeps q r =
    elim (Bool-cases
      (can_admit r q.now && ltb 0 (open_slots q.config.max_concurrent_users (count_admitted r)))) [
        | inl e ↦ rw e (join_as-Keeps q (admitted_visitor q r) 1 r)
        | inr e ↦ elim (Bool-cases (leb (max_waiting_visitors r) (count_waiting r))) [
          | inl full ↦ rw (e, full) refl
          | inr space ↦ rw (e, space) (join_as-Keeps q (waiting_visitor q r) 0 r)
        ]
      ]

pub join-Told : (q : Request) (r : Room) → Told q (join q r).0
unfolding join join_swept
join-Told q r =
    let swept = prologue q true r in
    let told = prologue-Told q true r in
    elim (Option-cases (select_visitor q.visitor_id swept.visitors)) [
      | inl e ↦ rw (e, join_swept) (join_new-Keeps q swept ∙ told)
      | inr (v, e) ↦ elim (Bool-cases (is_live v.status)) [
        | inl live ↦
            rw (e, join_swept, live)
              (view-Keeps (ensure_alarm q.clock swept) v q.config q.now
                ∙ alarm-Keeps q.clock swept
                ∙ told)
        | inr gone ↦ rw (e, join_swept, gone) (join_new-Keeps q swept ∙ told)
      ]
    ]

check_in-Keeps : (q : Request) (v : VisitorRow) (r : Room) → Keeps (check_in q v r).0 r
unfolding check_in
check_in-Keeps q v r =
    let repaired = (repair_check_in_before_open r v q.config q.now).0 in
    elim (Bool-cases (repair_check_in_before_open r v q.config q.now).1) [
      | inl e ↦ rw e (view_of-Keeps repaired v q ∙ repair-Keeps r v q.config q.now)
      | inr e ↦ elim (Bool-cases (is_check_in_due q.now v.next_check_at)) [
        | inl due ↦
            rw (e, due)
              (view_of-Keeps (renew_check_in r v q.config q.now) v q
                ∙ renew-Keeps r v q.config q.now)
        | inr early ↦ rw (e, early) (view-Keeps r v q.config q.now)
      ]
    ]

status_of-Keeps :
    (s : Status) (q : Request) (v : VisitorRow) (r : Room) → Keeps (status_of s q v r).0 r
status_of-Keeps left q v r = refl
status_of-Keeps expired q v r = refl
status_of-Keeps waiting q v r = check_in-Keeps q v r
status_of-Keeps admitted q v r = view-Keeps r v q.config q.now

pub status-Told : (q : Request) (r : Room) → Told q (status q r).0
unfolding status
status-Told q r =
    let swept = prologue q false r in
    let told = prologue-Told q false r in
    elim (Option-cases (select_visitor q.visitor_id swept.visitors)) [
      | inl e ↦ rw (e, status) told
      | inr (v, e) ↦ rw (e, status) (status_of-Keeps v.status q v swept ∙ told)
    ]

pub heartbeat-Told : (q : Request) (r : Room) → Told q (heartbeat q r).0
unfolding heartbeat
heartbeat-Told q r =
    let swept = prologue q false r in
    let told = prologue-Told q false r in
    elim (Option-cases (select_visitor q.visitor_id swept.visitors)) [
      | inl e ↦ rw (e, heartbeat) told
      | inr (v, e) ↦ elim (Bool-cases (is_waiting v.status)) [
        | inl w ↦ rw (e, heartbeat, w) (check_in-Keeps q v swept ∙ told)
        | inr w ↦ rw (e, heartbeat, w) told
      ]
    ]

enter_as-Keeps :
    (s : Status) (q : Request) (v : VisitorRow) (r : Room) → Keeps (enter_as s q v r).0 r
enter_as-Keeps left q v r = refl
enter_as-Keeps expired q v r = refl
enter_as-Keeps waiting q v r = refl
enter_as-Keeps admitted q v r =
    let set : Room = record r { visitors = set_entered q.visitor_id r.visitors } in
    view_of-Keeps (ensure_alarm q.clock set) v q ∙ alarm-Keeps q.clock set

pub enter-Told : (q : Request) (r : Room) → Told q (enter q r).0
unfolding enter
enter-Told q r =
    let swept = prologue q true r in
    let told = prologue-Told q true r in
    elim (Option-cases (select_visitor q.visitor_id swept.visitors)) [
      | inl e ↦ rw (e, enter) told
      | inr (v, e) ↦ rw (e, enter) (enter_as-Keeps v.status q v swept ∙ told)
    ]

drop-Keeps : (s : Status) (id : String) (r : Room) → Keeps (drop_visitor s id r) r
unfolding bump_depth
drop-Keeps waiting id r = refl
drop-Keeps admitted id r = refl
drop-Keeps expired id r = refl
drop-Keeps left id r = refl

freed-Keeps :
    (s : Status) (rnd : Random) (q : Request) (r : Room)
    → Keeps
        (ensure_alarm q.clock (admit_available rnd q.config q.now (drop_visitor s q.visitor_id r)))
        r
freed-Keeps s rnd q r =
    let dropped = drop_visitor s q.visitor_id r in
    alarm-Keeps q.clock (admit_available rnd q.config q.now dropped)
    ∙ admit_available-Keeps rnd q.config q.now dropped
    ∙ drop-Keeps s q.visitor_id r

leave_as-Keeps :
    (s : Status) (rnd : Random) (q : Request) (r : Room) → Keeps (leave_as s rnd q r).0 r
leave_as-Keeps expired rnd q r = refl
leave_as-Keeps left rnd q r = refl
leave_as-Keeps waiting rnd q r = freed-Keeps waiting rnd q r
leave_as-Keeps admitted rnd q r = freed-Keeps admitted rnd q r

pub leave-Told : (rnd : Random) (q : Request) (r : Room) → Told q (leave rnd q r).0
unfolding leave
leave-Told rnd q r =
    let swept = prologue q true r in
    let told = prologue-Told q true r in
    elim (Option-cases (select_visitor q.visitor_id swept.visitors)) [
      | inl e ↦ rw (e, leave) told
      | inr (v, e) ↦ rw (e, leave) (leave_as-Keeps v.status rnd q swept ∙ told)
    ]

pub force_admit-Told :
    (rnd : Random) (n : ℕ) (q : Request) (r : Room) → Told q (force_admit rnd n q r).0
unfolding force_admit
force_admit-Told rnd n q r =
    let swept = prologue q true r in
    let told = prologue-Told q true r in
    elim (Bool-cases (can_admit swept q.now)) [
      | inl e ↦ rw e (
          alarm-Keeps q.clock (admit_up_to rnd n q.config q.now swept).0
          ∙ admit_up_to-Keeps rnd n q.config q.now swept
          ∙ told)
      | inr e ↦ rw e (alarm-Keeps q.clock swept ∙ told)
    ]

pub alarm_op-Keeps :
    (rnd : Random) (net : Network) (now clock : ℕ) (r : Room) → Keeps (alarm rnd net now clock r) r
unfolding alarm alarm_work process_webhook_outbox
alarm_op-Keeps rnd net now clock r =
    let woken : Room = process_webhook_outbox net.delivered now (record r { alarm = none }) in
    elim (Option-cases r.meta.config) [
      | inl e ↦ rw (e, alarm) (alarm-Keeps clock woken ∙ e)
      | inr (config, e) ↦
          let swept = sweep config now true woken in
          let probed = maybe_probe_health net.probe net.latency now swept in
          rw (e, alarm)
            (alarm-Keeps clock (alarm_work rnd net config now woken)
              ∙ flush-Keeps now config (admit_from_budget rnd config now probed)
              ∙ admit_from_budget-Keeps rnd config now probed
              ∙ probe-Keeps net now swept
              ∙ sweep-Keeps config now true woken
              ∙ e)
    ]

health-Keeps : (state : Option OriginHealthState) (r : Room) → Keeps (store_health state r) r
health-Keeps none r = refl
health-Keeps (some state) r = refl

pub finish-Keeps :
    (rnd : Random) (state : Option OriginHealthState) (config : Option QueueConfig) (now clock : ℕ)
    (r : Room)
    → Keeps (finish_alarm rnd state config now clock r) r
unfolding finish_alarm
finish-Keeps rnd state none now clock r = alarm-Keeps clock r
finish-Keeps rnd state (some config) now clock r =
    let stored = store_health state r in
    alarm-Keeps clock (flush_traffic_bucket now config (admit_from_budget rnd config now stored))
    ∙ flush-Keeps now config (admit_from_budget rnd config now stored)
    ∙ admit_from_budget-Keeps rnd config now stored
    ∙ health-Keeps state r
