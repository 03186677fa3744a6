-- ===== src/Room/History/Capacity.antt =====
-- How each call on a room moves the number of admitted visitors.
use tide_guard.Health.{OriginHealthState}
use tide_guard.Base.{
  Bool, ℕ, max, ◌≤◌, ◌≡◌, inl, inr, refl, ap, true, false, Option, none, some, List, [], ◌∷◌,
  String, Bool-cases, Option-cases, arith,
}
use tide_guard.Config.{QueueConfig}
use tide_guard.Room.{Room, VisitorRow, Status, waiting, admitted, expired, left}
use tide_guard.Room.Table.{select_visitor, count_admitted_rows}
use tide_guard.Room.Depth.{bump_depth}
use tide_guard.Room.Settings.{can_admit}
use tide_guard.Room.Sweep.{sweep}
use tide_guard.Room.Admission.{Random, admit_up_to, admit_available, admit_from_budget}
use tide_guard.Room.Admission.Capacity.{
  occupied, held, held_rows, any_id, admit_up_to-capacity, admit_available-capacity,
  admit_from_budget-capacity,
}
use tide_guard.Room.Outbox.{process_webhook_outbox}
use tide_guard.Room.Handlers.{Request, prologue}
use tide_guard.Room.Departure.{leave, leave_as, drop_visitor, set_left}
use tide_guard.Room.Service.{
  finish_alarm, store_health, Network, force_admit, alarm, alarm_work, maybe_probe_health, evict,
}
use tide_guard.Room.Handlers.Occupancy.{sweep-occupied, prologue-occupied}
use tide_guard.Room.Handlers.Capacity.{alarm-occupied, join-capacity}
use tide_guard.Room.Handlers.Unadmitting.{status-occupied, heartbeat-occupied, enter-occupied}
use tide_guard.Room.Controls.{metrics}
use tide_guard.Room.Settings.{ensure_queue_name, remember_config, set_meta}
use tide_guard.Room.Traffic.{flush_traffic_bucket, get_traffic}
use tide_guard.Room.Coherence.Controls.{
  named-core, set_mode-core, set_paused-core, set_admit_ux-core, set_schedule-core,
  bump_token_epoch-core, clear_health_override-core, set_health_config-core, override_health-core,
  set_admit_rate-core, clear_admit_rate-core, set_max_waiting-core, set_missed_slot_grace-core,
  enqueue-core,
}
use tide_guard.Room.History.{
  Call, joins, statuses, heartbeats, enters, leaves, force_admits, fires, evicts, modes, pauses,
  admit_ux, schedules, bumps_epoch, clears_override, health, overrides, rates, clears_rate, limits,
  graces, reads_metrics, reads_traffic, enqueues, rings, tries, sweeps, finishes, apply,
}
use tide_guard.Room.Coherence.{Core, Coherent, of_core}
use tide_guard.Room.Coherence.Steps.{flush-core, sweep-Coherent}
use tide_guard.Room.Coherence.Operations.{prologue-Coherent}
use tide_guard.Room.Coherence.Admissions.{
  health-core, turn-core, drop-waiting, drop-admitted, outbox-core, probe-core,
}

module _ (p : String → Bool) where
  set_left-le : (id : String) (vs : List VisitorRow) → held_rows p (set_left id vs) ≤ held_rows p vs
  unfolding set_left
  set_left-le id [] = omega arith
  set_left-le id (v ∷ vs) = ground (arith, set_left-le id vs)

  pub drop-occupied :
      (s : Status) (id : String) (r : Room) → held p (drop_visitor s id r) ≤ held p r
  unfolding bump_depth
  drop-occupied waiting id r = set_left-le id r.visitors
  drop-occupied admitted id r = set_left-le id r.visitors
  drop-occupied expired id r = set_left-le id r.visitors
  drop-occupied left id r = set_left-le id r.visitors

  pub evict-occupied : (r : Room) → held p (evict r) ≤ held p r
  unfolding evict
  evict-occupied r = omega arith

  pub metrics-occupied :
      (queue : String) (config : QueueConfig) (now : ℕ) (r : Room)
      → held p (metrics queue config now r).0 ≤ held p r
  unfolding metrics
  metrics-occupied queue config now r =
      let named : Room = remember_config config (ensure_queue_name queue r) in
      omega (
        arith,
        sweep-occupied p config now false named,
        ap (λ k. held_rows p k.visitors) (named-core queue r),
      )

  pub traffic-occupied :
      (now : ℕ) (config : QueueConfig) (range : Option ℕ) (r : Room)
      → held p (get_traffic now config range r).0 ≤ held p r
  unfolding get_traffic
  traffic-occupied now config range r =
      let told : Room = set_meta r (record (r.meta) { config = some config }) in
      omega (arith, ap (λ k. held_rows p k.visitors) (flush-core now config told))

  pub same-le :
      (c : ℕ) (a b : Core) → a ≡ b → held_rows p a.visitors ≤ max c (held_rows p b.visitors)
  same-le c a b e = omega (arith, ap (λ k. held_rows p k.visitors) e)

leave_as-capacity :
    (s : Status) (rnd : Random) (q : Request) (v : VisitorRow) (r : Room)
    → v.status ≡ s
    → select_visitor q.visitor_id r.visitors ≡ some v
    → Coherent r
    → occupied (leave_as s rnd q r).0 ≤ max q.config.max_concurrent_users (occupied r)
leave_as-capacity expired rnd q v r s found c = omega arith
leave_as-capacity left rnd q v r s found c = omega arith
leave_as-capacity waiting rnd q v r s found c =
    let dropped = drop_visitor waiting q.visitor_id r in
    omega (
      arith,
      alarm-occupied any_id q.clock (admit_available rnd q.config q.now dropped),
      admit_available-capacity rnd q.config q.now dropped (drop-waiting q.visitor_id v r c found s),
      drop-occupied any_id waiting q.visitor_id r,
    )
leave_as-capacity admitted rnd q v r s found c =
    let dropped = drop_visitor admitted q.visitor_id r in
    omega (
      arith,
      alarm-occupied any_id q.clock (admit_available rnd q.config q.now dropped),
      admit_available-capacity rnd q.config q.now dropped
          (drop-admitted q.visitor_id v r c found s),
      drop-occupied any_id admitted q.visitor_id r,
    )

leave-capacity :
    (rnd : Random) (q : Request) (r : Room)
    → Coherent r
    → occupied (leave rnd q r).0 ≤ max q.config.max_concurrent_users (occupied r)
unfolding leave
leave-capacity rnd q r c =
    let swept = prologue q true r in
    let ok : Coherent swept = prologue-Coherent q true r c in
    let less = prologue-occupied any_id q true r in
    elim (Option-cases (select_visitor q.visitor_id swept.visitors)) [
      | inl e ↦ rw (e, leave) (omega (arith, less))
      | inr (v, e) ↦
          rw (e, leave) (omega (arith, less, leave_as-capacity v.status rnd q v swept refl e ok))
    ]

force_admit-capacity :
    (rnd : Random) (n : ℕ) (q : Request) (r : Room)
    → Coherent r
    → occupied (force_admit rnd n q r).0 ≤ max q.config.max_concurrent_users (occupied r)
unfolding force_admit
force_admit-capacity rnd n q r c =
    let swept = prologue q true r in
    let less = prologue-occupied any_id q true r in
    let few = admit_up_to-capacity rnd n q.config q.now swept (prologue-Coherent q true r c) in
    elim (Bool-cases (can_admit swept q.now)) [
      | inl e ↦ rw e (
          omega (
            arith,
            less,
            few.0,
            alarm-occupied any_id q.clock (admit_up_to rnd n q.config q.now swept).0,
          ))
      | inr e ↦ rw e (omega (arith, less, alarm-occupied any_id q.clock swept))
    ]

work-capacity :
    (rnd : Random) (net : Network) (config : QueueConfig) (now : ℕ) (r : Room)
    → Coherent r
    → occupied (alarm_work rnd net config now r) ≤ max config.max_concurrent_users (occupied r)
unfolding alarm_work
work-capacity rnd net config now r c =
    let swept = sweep config now true r in
    let probed = maybe_probe_health net.probe net.latency now swept in
    let same = probe-core net.probe net.latency now swept in
    omega (
      arith,
      sweep-occupied any_id config now true r,
      ap (λ k. count_admitted_rows k.visitors) same,
      admit_from_budget-capacity rnd config now probed
          (of_core same (sweep-Coherent config now true r c)),
      ap (λ k. count_admitted_rows k.visitors)
          (flush-core now config (admit_from_budget rnd config now probed)),
    )

-- The capacity that a call admits by: that of its request, or the remembered one for an alarm.
abbrev pub remembered : Option QueueConfig → ℕ
remembered none = 0
remembered (some config) = config.max_concurrent_users

alarm-capacity :
    (rnd : Random) (net : Network) (now clock : ℕ) (r : Room)
    → Coherent r
    → occupied (alarm rnd net now clock r) ≤ max (remembered r.meta.config) (occupied r)
unfolding alarm process_webhook_outbox
alarm-capacity rnd net now clock r c =
    let woken : Room = process_webhook_outbox net.delivered now (record r { alarm = none }) in
    elim (Option-cases r.meta.config) [
      | inl e ↦ rw (e, alarm) (omega (arith, alarm-occupied any_id clock woken))
      | inr (config, e) ↦
          rw (e, alarm)
            (omega (
              arith,
              work-capacity rnd net config now woken (of_core (outbox-core net now r) c),
              alarm-occupied any_id clock (alarm_work rnd net config now woken),
            ))
    ]

finish-capacity :
    (rnd : Random) (state : Option OriginHealthState) (config : Option QueueConfig) (now clock : ℕ)
    (r : Room)
    → Coherent r
    → occupied (finish_alarm rnd state config now clock r) ≤ max (remembered config) (occupied r)
unfolding finish_alarm
finish-capacity rnd state none now clock r c = omega (arith, alarm-occupied any_id clock r)
finish-capacity rnd state (some config) now clock r c =
    let stored = store_health state r in
    let admitted_room = admit_from_budget rnd config now stored in
    omega (
      arith,
      alarm-occupied any_id clock (flush_traffic_bucket now config admitted_room),
      ap (λ k. count_admitted_rows k.visitors) (flush-core now config admitted_room),
      admit_from_budget-capacity rnd config now stored (of_core (health-core state r) c),
      ap (λ k. count_admitted_rows k.visitors) (health-core state r),
    )

abbrev pub call_capacity : Call → Room → ℕ
call_capacity (joins q) r = q.config.max_concurrent_users
call_capacity (leaves rnd q) r = q.config.max_concurrent_users
call_capacity (force_admits rnd n q) r = q.config.max_concurrent_users
call_capacity (fires rnd net now clock) r = remembered r.meta.config
call_capacity (finishes rnd state config now clock) r = remembered config
call_capacity _ r = 0

-- In a coherent room, whatever the randomness and the network, a call or an eviction leaves at most
-- as many admitted visitors as there were or, where that is more, as the capacity by which the call
-- admits: the one that a join, a leave, a forced admission or the last piece of an alarm carries,
-- the remembered one for a whole alarm, and 0 for every other call.
pub apply-capacity :
    (call : Call) (r : Room)
    → Coherent r
    → occupied (apply call r) ≤ max (call_capacity call r) (occupied r)
unfolding apply
apply-capacity (joins q) r c = join-capacity q r c
apply-capacity (statuses q) r c = omega (arith, status-occupied any_id q r)
apply-capacity (heartbeats q) r c = omega (arith, heartbeat-occupied any_id q r)
apply-capacity (enters q) r c = omega (arith, enter-occupied any_id q r)
apply-capacity (leaves rnd q) r c = leave-capacity rnd q r c
apply-capacity (force_admits rnd n q) r c = force_admit-capacity rnd n q r c
apply-capacity (fires rnd net now clock) r c = alarm-capacity rnd net now clock r c
apply-capacity evicts r c = omega (arith, evict-occupied any_id r)
apply-capacity rings r c = omega arith
apply-capacity (tries answered now row) r c = same-le any_id 0 _ _ (turn-core answered now row r)
apply-capacity (sweeps config now) r c = omega (arith, sweep-occupied any_id config now true r)
apply-capacity (finishes rnd state config now clock) r c =
    finish-capacity rnd state config now clock r c
apply-capacity (modes queue config mode clock) r c =
    same-le any_id 0 _ _ (set_mode-core queue config mode clock r)
apply-capacity (pauses paused clock) r c = same-le any_id 0 _ _ (set_paused-core paused clock r)
apply-capacity (admit_ux queue config click hold show clock) r c =
    same-le any_id 0 _ _ (set_admit_ux-core queue config click hold show clock r)
apply-capacity (schedules input clock) r c = same-le any_id 0 _ _ (set_schedule-core input clock r)
apply-capacity bumps_epoch r c = same-le any_id 0 _ _ (bump_token_epoch-core r)
apply-capacity clears_override r c = same-le any_id 0 _ _ (clear_health_override-core r)
apply-capacity (health sanitize queue config raw clock) r c =
    same-le any_id 0 _ _ (set_health_config-core sanitize queue config raw clock r)
apply-capacity (overrides minutes clock) r c =
    same-le any_id 0 _ _ (override_health-core minutes clock r)
apply-capacity (rates queue config rate clock) r c =
    same-le any_id 0 _ _ (set_admit_rate-core queue config rate clock r)
apply-capacity (clears_rate queue config clock) r c =
    same-le any_id 0 _ _ (clear_admit_rate-core queue config clock r)
apply-capacity (limits value) r c = same-le any_id 0 _ _ (set_max_waiting-core value r)
apply-capacity (graces value clock) r c =
    same-le any_id 0 _ _ (set_missed_slot_grace-core value clock r)
apply-capacity (reads_metrics queue config now) r c =
    omega (arith, metrics-occupied any_id queue config now r)
apply-capacity (reads_traffic now config range) r c =
    omega (arith, traffic-occupied any_id now config range r)
apply-capacity (enqueues delivery now) r c = same-le any_id 0 _ _ (enqueue-core delivery now r)
