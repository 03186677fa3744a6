-- ===== src/Room/History/Paused.antt =====
-- The admitted visitors under calls on a paused room.
use tide_guard.Room.Traffic.{flush_traffic_bucket}
use tide_guard.Health.{OriginHealthState}
use tide_guard.Base.{
  some, Option, ℕ, ◌≤◌, ◌≡◌, inl, inr, refl, ap, Bool, true, false, none, ◌∙◌, String, leb,
  Bool-cases, Option-cases, arith,
}
use tide_guard.Config.{QueueConfig}
use tide_guard.Room.{Room, Status, waiting, admitted, expired, left}
use tide_guard.Room.Table.{select_visitor}
use tide_guard.Room.Depth.{reconcile_depth, count_waiting, bump_depth}
use tide_guard.Room.Settings.{can_admit, max_waiting_visitors}
use tide_guard.Room.Sweep.{sweep, run_sweep}
use tide_guard.Room.Admission.{Random, admit_available, admit_from_budget}
use tide_guard.Room.Admission.Capacity.{held, held_rows}
use tide_guard.Room.Alarm.{ensure_alarm}
use tide_guard.Room.Outbox.{process_webhook_outbox}
use tide_guard.Room.Handlers.{
  Request, prologue, join_new, join_swept, join, is_live, waiting_visitor,
}
use tide_guard.Room.Departure.{leave, leave_as, drop_visitor}
use tide_guard.Room.Service.{
  finish_alarm, store_health, Network, force_admit, alarm, alarm_work, maybe_probe_health,
}
use tide_guard.Room.Handlers.Occupancy.{
  sweep-occupied, view-visitors, prologue-occupied, view-visitors,
}
use tide_guard.Room.History.Capacity.{
  drop-occupied, evict-occupied, metrics-occupied, traffic-occupied,
}
use tide_guard.Room.Handlers.Unadmitting.{status-occupied, heartbeat-occupied, enter-occupied}
use tide_guard.Room.Coherence.Controls.{
  set_mode-core, set_paused-core, set_admit_ux-core, set_schedule-core, bump_token_epoch-core,
  clear_health_override-core, set_health_config-core, override_health-core, set_admit_rate-core,
  clear_admit_rate-core, set_max_waiting-core, set_missed_slot_grace-core, enqueue-core,
}
use tide_guard.Room.Handlers.Capacity.{join_as-occupied, alarm-occupied}
use tide_guard.Room.Settings.{ensure_queue_name, remember_config}
use tide_guard.Room.History.{
  Call, joins, statuses, heartbeats, enters, leaves, force_admits, fires, evicts, modes, pauses,
  admit_ux, schedules, bumps_epoch, clears_override, health, overrides, rates, clears_rate, limits,
  graces, reads_metrics, reads_traffic, enqueues, rings, tries, sweeps, finishes, apply,
}
use tide_guard.Room.Coherence.{Coherent, Core}
use tide_guard.Room.Coherence.Steps.{flush-core}
use tide_guard.Room.Coherence.Admissions.{health-core, turn-core, probe-core}

can_admit-paused : (r : Room) (now : ℕ) → r.meta.paused ≡ true → can_admit r now ≡ false
unfolding can_admit
can_admit-paused r now p = rw p refl

sweep-paused :
    (config : QueueConfig) (now : ℕ) (force : Bool) (r : Room)
    → (sweep config now force r).meta.paused ≡ r.meta.paused
unfolding sweep run_sweep reconcile_depth
sweep-paused config now force r = ground arith

prologue-paused :
    (q : Request) (force : Bool) (r : Room) → (prologue q force r).meta.paused ≡ r.meta.paused
unfolding prologue
prologue-paused q force r =
    let named : Room = remember_config q.config (ensure_queue_name q.queue r) in
    let same : named.meta.paused ≡ r.meta.paused = ground arith in
    sweep-paused q.config q.now force named ∙ same

available-shut :
    (rnd : Random) (config : QueueConfig) (now : ℕ) (r : Room)
    → r.meta.paused ≡ true
    → admit_available rnd config now r ≡ r
unfolding admit_available
available-shut rnd config now r p = rw (can_admit-paused r now p) refl

drop-paused :
    (s : Status) (id : String) (r : Room) → (drop_visitor s id r).meta.paused ≡ r.meta.paused
unfolding bump_depth
drop-paused waiting id r = refl
drop-paused admitted id r = refl
drop-paused expired id r = refl
drop-paused left id r = refl

stored_health-paused :
    (state : Option OriginHealthState) (r : Room)
    → (store_health state r).meta.paused ≡ r.meta.paused
stored_health-paused none r = refl
stored_health-paused (some state) r = refl

budget-shut :
    (rnd : Random) (config : QueueConfig) (now : ℕ) (r : Room)
    → r.meta.paused ≡ true
    → admit_from_budget rnd config now r ≡ r
unfolding admit_from_budget
budget-shut rnd config now r p = rw (can_admit-paused r now p) refl

probe-paused :
    (net : Network) (now : ℕ) (r : Room)
    → (maybe_probe_health net.probe net.latency now r).meta.paused ≡ r.meta.paused
unfolding maybe_probe_health
probe-paused net now r = ground arith

module _ (who : String → Bool) where
  join_new-shut :
      (q : Request) (r : Room) → can_admit r q.now ≡ false → held who (join_new q r).0 ≤ held who r
  unfolding join_new
  join_new-shut q r shut = elim (Bool-cases (leb (max_waiting_visitors r) (count_waiting r))) [
    | inl full ↦ rw (shut, full) (omega arith)
    | inr space ↦ rw (shut, space) (omega (arith, join_as-occupied who q (waiting_visitor q r) 0 r))
  ]

  join-shut : (q : Request) (r : Room) → r.meta.paused ≡ true → held who (join q r).0 ≤ held who r
  unfolding join join_swept
  join-shut q r p =
      let swept = prologue q true r in
      let less = prologue-occupied who q true r in
      let shut = can_admit-paused swept q.now (prologue-paused q true r ∙ p) in
      elim (Option-cases (select_visitor q.visitor_id swept.visitors)) [
        | inl e ↦ rw (e, join_swept) (omega (arith, less, join_new-shut q swept shut))
        | inr (v, e) ↦ elim (Bool-cases (is_live v.status)) [
          | inl live ↦
              rw (e, join_swept, live)
                (omega (
                  arith,
                  less,
                  ap (held_rows who) (view-visitors (ensure_alarm q.clock swept) v q.config q.now),
                  alarm-occupied who q.clock swept,
                ))
          | inr gone ↦ rw (e, join_swept, gone) (omega (arith, less, join_new-shut q swept shut))
        ]
      ]

  drop-shut :
      (s : Status) (rnd : Random) (q : Request) (r : Room)
      → r.meta.paused ≡ true
      → (held who) (
          ensure_alarm q.clock (admit_available rnd q.config q.now (drop_visitor s q.visitor_id r)))
        ≤ held who r
  drop-shut s rnd q r p =
      let dropped = drop_visitor s q.visitor_id r in
      let still : dropped.meta.paused ≡ true = drop-paused s q.visitor_id r ∙ p in
      omega (
        arith,
        alarm-occupied who q.clock (admit_available rnd q.config q.now dropped),
        ap (held who) (available-shut rnd q.config q.now dropped still),
        drop-occupied who s q.visitor_id r,
      )

  leave_as-shut :
      (s : Status) (rnd : Random) (q : Request) (r : Room)
      → r.meta.paused ≡ true
      → held who (leave_as s rnd q r).0 ≤ held who r
  leave_as-shut expired rnd q r p = omega arith
  leave_as-shut left rnd q r p = omega arith
  leave_as-shut waiting rnd q r p = drop-shut waiting rnd q r p
  leave_as-shut admitted rnd q r p = drop-shut admitted rnd q r p

  leave-shut :
      (rnd : Random) (q : Request) (r : Room)
      → r.meta.paused ≡ true
      → held who (leave rnd q r).0 ≤ held who r
  unfolding leave
  leave-shut rnd q r p =
      let swept = prologue q true r in
      let less = prologue-occupied who q true r in
      elim (Option-cases (select_visitor q.visitor_id swept.visitors)) [
        | inl e ↦ rw (e, leave) less
        | inr (v, e) ↦
            rw (e, leave)
              (omega
                (arith, less, leave_as-shut v.status rnd q swept (prologue-paused q true r ∙ p)))
      ]

  force_admit-shut :
      (rnd : Random) (n : ℕ) (q : Request) (r : Room)
      → r.meta.paused ≡ true
      → held who (force_admit rnd n q r).0 ≤ held who r
  unfolding force_admit
  force_admit-shut rnd n q r p =
      let swept = prologue q true r in
      rw (can_admit-paused swept q.now (prologue-paused q true r ∙ p))
        (omega (arith, prologue-occupied who q true r, alarm-occupied who q.clock swept))

  work-shut :
      (rnd : Random) (net : Network) (config : QueueConfig) (now : ℕ) (r : Room)
      → r.meta.paused ≡ true
      → held who (alarm_work rnd net config now r) ≤ held who r
  unfolding alarm_work
  work-shut rnd net config now r p =
      let swept = sweep config now true r in
      let probed = maybe_probe_health net.probe net.latency now swept in
      let still : probed.meta.paused ≡ true =
        probe-paused net now swept ∙ sweep-paused config now true r ∙ p in
      omega (
        arith,
        sweep-occupied who config now true r,
        ap (λ k. held_rows who k.visitors) (probe-core net.probe net.latency now swept),
        ap (held who) (budget-shut rnd config now probed still),
        ap (λ k. held_rows who k.visitors)
            (flush-core now config (admit_from_budget rnd config now probed)),
      )

  alarm-shut :
      (rnd : Random) (net : Network) (now clock : ℕ) (r : Room)
      → r.meta.paused ≡ true
      → held who (alarm rnd net now clock r) ≤ held who r
  unfolding alarm process_webhook_outbox
  alarm-shut rnd net now clock r p =
      let woken : Room = process_webhook_outbox net.delivered now (record r { alarm = none }) in
      elim (Option-cases r.meta.config) [
        | inl e ↦ rw (e, alarm) (omega (arith, alarm-occupied who clock woken))
        | inr (config, e) ↦
            rw (e, alarm)
              (omega (
                arith,
                work-shut rnd net config now woken p,
                alarm-occupied who clock (alarm_work rnd net config now woken),
              ))
      ]

  finish-shut :
      (rnd : Random) (state : Option OriginHealthState) (config : Option QueueConfig)
      (now clock : ℕ) (r : Room)
      → r.meta.paused ≡ true
      → held who (finish_alarm rnd state config now clock r) ≤ held who r
  unfolding finish_alarm
  finish-shut rnd state none now clock r p = omega (arith, alarm-occupied who clock r)
  finish-shut rnd state (some config) now clock r p =
      let stored = store_health state r in
      let same = stored_health-paused state r in
      omega (
        arith,
        alarm-occupied who clock
            (flush_traffic_bucket now config (admit_from_budget rnd config now stored)),
        ap (λ k. held_rows who k.visitors)
            (flush-core now config (admit_from_budget rnd config now stored)),
        ap (held who) (budget-shut rnd config now stored (same ∙ p)),
        ap (λ k. held_rows who k.visitors) (health-core state r),
      )

  unchanged : (a b : Core) → a ≡ b → held_rows who a.visitors ≤ held_rows who b.visitors
  unchanged a b e = omega (arith, ap (λ k. held_rows who k.visitors) e)

-- In a coherent room that its operator has paused, no call makes anybody an admitted visitor: not a
-- join, not a place that a leave frees, not a forced admission, and not an alarm. For any test of
-- ids, such as being one given id, a call leaves at most as many admitted rows whose ids pass it.
pub apply-Paused :
    (call : Call) (r : Room) (who : String → Bool)
    → Coherent r
    → r.meta.paused ≡ true
    → held who (apply call r) ≤ held who r
unfolding apply
apply-Paused (joins q) r who c p = join-shut who q r p
apply-Paused (leaves rnd q) r who c p = leave-shut who rnd q r p
apply-Paused (force_admits rnd n q) r who c p = force_admit-shut who rnd n q r p
apply-Paused (fires rnd net now clock) r who c p = alarm-shut who rnd net now clock r p
apply-Paused (statuses q) r who c p = status-occupied who q r
apply-Paused (heartbeats q) r who c p = heartbeat-occupied who q r
apply-Paused (enters q) r who c p = enter-occupied who q r
apply-Paused evicts r who c p = evict-occupied who r
apply-Paused rings r who c p = omega arith
apply-Paused (tries answered now row) r who c p = unchanged who _ _ (turn-core answered now row r)
apply-Paused (sweeps config now) r who c p = sweep-occupied who config now true r
apply-Paused (finishes rnd state config now clock) r who c p =
    finish-shut who rnd state config now clock r p
apply-Paused (reads_metrics queue config now) r who c p = metrics-occupied who queue config now r
apply-Paused (reads_traffic now config range) r who c p = traffic-occupied who now config range r
apply-Paused (modes queue config mode clock) r who c p =
    unchanged who _ _ (set_mode-core queue config mode clock r)
apply-Paused (pauses paused clock) r who c p = unchanged who _ _ (set_paused-core paused clock r)
apply-Paused (admit_ux queue config click hold show clock) r who c p =
    unchanged who _ _ (set_admit_ux-core queue config click hold show clock r)
apply-Paused (schedules input clock) r who c p = unchanged who _ _ (set_schedule-core input clock r)
apply-Paused bumps_epoch r who c p = unchanged who _ _ (bump_token_epoch-core r)
apply-Paused clears_override r who c p = unchanged who _ _ (clear_health_override-core r)
apply-Paused (health sanitize queue config raw clock) r who c p =
    unchanged who _ _ (set_health_config-core sanitize queue config raw clock r)
apply-Paused (overrides minutes clock) r who c p =
    unchanged who _ _ (override_health-core minutes clock r)
apply-Paused (rates queue config rate clock) r who c p =
    unchanged who _ _ (set_admit_rate-core queue config rate clock r)
apply-Paused (clears_rate queue config clock) r who c p =
    unchanged who _ _ (clear_admit_rate-core queue config clock r)
apply-Paused (limits value) r who c p = unchanged who _ _ (set_max_waiting-core value r)
apply-Paused (graces value clock) r who c p =
    unchanged who _ _ (set_missed_slot_grace-core value clock r)
apply-Paused (enqueues delivery now) r who c p = unchanged who _ _ (enqueue-core delivery now r)
