-- ===== src/Room/History/Limits.antt =====
-- The number of admitted visitors over a whole history of calls.
use tide_guard.Base.{
  ℕ, ◌≤◌, max, ◌≡◌, inl, inr, refl, ap, ◌∙◌, Bool, true, false, not, ◌||◌, Option, some, List, [],
  ◌∷◌, String, ltb, All, Bool-cases, Option-cases, arith,
}
use tide_guard.Js.{JsNumber, is_finite, floor, parse_admit_per_second}
use tide_guard.Engine.{AdmissionMode}
use tide_guard.Config.{QueueConfig}
use tide_guard.Room.{Room, Delivery, new_room}
use tide_guard.Room.Settings.{effective_config, ensure_queue_name}
use tide_guard.Room.Traffic.{get_traffic}
use tide_guard.Room.Admission.Capacity.{occupied}
use tide_guard.Room.Outbox.{enqueue_webhook}
use tide_guard.Room.Service.{write_turn, evict}
use tide_guard.Room.Controls.{
  set_mode, set_paused, set_admit_ux, set_schedule, bump_token_epoch, set_health_config,
  override_health, clear_health_override, set_admit_rate, clear_admit_rate,
  set_max_waiting_visitors, set_missed_slot_grace_seconds, metrics,
}
use tide_guard.Room.History.{
  Call, joins, statuses, heartbeats, enters, leaves, force_admits, fires, evicts, modes, pauses,
  admit_ux, schedules, bumps_epoch, clears_override, health, overrides, rates, clears_rate, limits,
  graces, reads_metrics, reads_traffic, enqueues, rings, tries, sweeps, finishes, apply, run,
}
use tide_guard.Room.History.Capacity.{remembered, call_capacity, apply-capacity}
use tide_guard.Room.History.Remembered.{Keeps, sweep-Keeps, flush-Keeps, alarm-Keeps}
use tide_guard.Room.History.Told.{
  join-Told, status-Told, heartbeat-Told, enter-Told, leave-Told, force_admit-Told, alarm_op-Keeps,
  finish-Keeps,
}
use tide_guard.Room.Coherence.{Coherent}
use tide_guard.Room.Coherence.History.{apply-Coherent, new_room-Coherent}

-- The capacity of the configuration that a call carries; 0 for a call that carries none.
abbrev pub carried : Call → ℕ
carried (joins q) = q.config.max_concurrent_users
carried (statuses q) = q.config.max_concurrent_users
carried (heartbeats q) = q.config.max_concurrent_users
carried (enters q) = q.config.max_concurrent_users
carried (leaves rnd q) = q.config.max_concurrent_users
carried (force_admits rnd n q) = q.config.max_concurrent_users
carried (modes name config mode clock) = config.max_concurrent_users
carried (admit_ux name config click hold show clock) = config.max_concurrent_users
carried (health sanitize name config raw clock) = config.max_concurrent_users
carried (rates name config rate clock) = config.max_concurrent_users
carried (clears_rate name config clock) = config.max_concurrent_users
carried (reads_metrics name config now) = config.max_concurrent_users
carried (reads_traffic now config range) = config.max_concurrent_users
carried (finishes rnd state config now clock) = remembered config
carried _ = 0

abbrev capacity_of : Room → ℕ
capacity_of r = remembered r.meta.config

kept : (c : ℕ) (a b : Option QueueConfig) → a ≡ b → remembered a ≤ max c (remembered b)
kept c a b e = omega (arith, ap remembered e)

told :
    (config : QueueConfig) (a b : Option QueueConfig)
    → a ≡ some config
    → remembered a ≤ max config.max_concurrent_users (remembered b)
told config a b e = omega (arith, ap remembered e)

named-Keeps : (name : String) (r : Room) → Keeps (ensure_queue_name name r) r
named-Keeps name r = ground arith

set_mode-remembers :
    (name : String) (config : QueueConfig) (mode : AdmissionMode) (clock : ℕ) (r : Room)
    → remembered (set_mode name config mode clock r).meta.config ≡ config.max_concurrent_users
unfolding set_mode effective_config
set_mode-remembers name config mode clock r = ap remembered (alarm-Keeps clock _)

set_admit_ux-remembers :
    (name : String) (config : QueueConfig) (click : Bool) (hold : ℕ) (show : Option Bool)
    (clock : ℕ) (r : Room)
    → remembered (set_admit_ux name config click hold show clock r).meta.config
      ≡ config.max_concurrent_users
unfolding set_admit_ux
set_admit_ux-remembers name config click hold show clock r = ap remembered (alarm-Keeps clock _)

enqueue-Keeps :
    (delivery : Delivery) (now : ℕ) (r : Room) → Keeps (enqueue_webhook delivery now r) r
unfolding enqueue_webhook
enqueue-Keeps delivery now r = alarm-Keeps now _ ∙ named-Keeps delivery.queue r

set_admit_rate-Told :
    (name : String) (config : QueueConfig) (rate : JsNumber) (clock : ℕ) (r : Room)
    → (set_admit_rate name config rate clock r).0.meta.config ≡ some config
unfolding set_admit_rate
set_admit_rate-Told name config rate clock r = elim (Option-cases (parse_admit_per_second rate)) [
  | inl e ↦ rw (e, set_admit_rate) refl
  | inr (n, e) ↦ rw (e, set_admit_rate) (alarm-Keeps clock _)
]

set_grace-Keeps :
    (value : JsNumber) (clock : ℕ) (r : Room)
    → Keeps (set_missed_slot_grace_seconds value clock r).0 r
unfolding set_missed_slot_grace_seconds
set_grace-Keeps value clock r =
    elim (Bool-cases (not (is_finite value) || ltb (floor value) 30 || ltb 900 (floor value))) [
      | inl e ↦ rw e refl
      | inr e ↦ rw e (alarm-Keeps clock _)
    ]

set_limit-Keeps : (value : JsNumber) (r : Room) → Keeps (set_max_waiting_visitors value r).0 r
unfolding set_max_waiting_visitors
set_limit-Keeps value r = ground arith

set_paused-Keeps : (paused : Bool) (clock : ℕ) (r : Room) → Keeps (set_paused paused clock r) r
unfolding set_paused
set_paused-Keeps true clock r = refl
set_paused-Keeps false clock r = alarm-Keeps clock _

-- What a room remembers after a call is at most what the call carries or it remembered before.
apply-remembered :
    (call : Call) (r : Room) → capacity_of (apply call r) ≤ max (carried call) (capacity_of r)
unfolding apply set_mode effective_config set_admit_ux set_schedule bump_token_epoch
    clear_health_override set_health_config override_health clear_admit_rate metrics get_traffic
    evict write_turn
apply-remembered (joins q) r = told q.config _ r.meta.config (join-Told q r)
apply-remembered (statuses q) r = told q.config _ r.meta.config (status-Told q r)
apply-remembered (heartbeats q) r = told q.config _ r.meta.config (heartbeat-Told q r)
apply-remembered (enters q) r = told q.config _ r.meta.config (enter-Told q r)
apply-remembered (leaves rnd q) r = told q.config _ r.meta.config (leave-Told rnd q r)
apply-remembered (force_admits rnd n q) r =
    told q.config _ r.meta.config (force_admit-Told rnd n q r)
apply-remembered (fires rnd net now clock) r =
    kept 0 _ r.meta.config (alarm_op-Keeps rnd net now clock r)
apply-remembered evicts r = kept 0 _ r.meta.config refl
apply-remembered rings r = kept 0 _ r.meta.config refl
apply-remembered (tries answered now row) r = kept 0 _ r.meta.config refl
apply-remembered (sweeps config now) r = kept 0 _ r.meta.config (sweep-Keeps config now true r)
apply-remembered (finishes rnd state config now clock) r =
    kept (remembered config) _ r.meta.config (finish-Keeps rnd state config now clock r)
apply-remembered (modes name config mode clock) r =
    omega (arith, set_mode-remembers name config mode clock r)
apply-remembered (pauses paused clock) r = kept 0 _ r.meta.config (set_paused-Keeps paused clock r)
apply-remembered (admit_ux name config click hold show clock) r =
    omega (arith, set_admit_ux-remembers name config click hold show clock r)
apply-remembered (schedules input clock) r = kept 0 _ r.meta.config (alarm-Keeps clock _)
apply-remembered bumps_epoch r = kept 0 _ r.meta.config refl
apply-remembered clears_override r = kept 0 _ r.meta.config refl
apply-remembered (health sanitize name config raw clock) r =
    told config _ r.meta.config (alarm-Keeps clock _)
apply-remembered (overrides minutes clock) r = kept 0 _ r.meta.config (alarm-Keeps clock _)
apply-remembered (rates name config rate clock) r =
    told config _ r.meta.config (set_admit_rate-Told name config rate clock r)
apply-remembered (clears_rate name config clock) r =
    told config _ r.meta.config (alarm-Keeps clock _)
apply-remembered (limits value) r = kept 0 _ r.meta.config (set_limit-Keeps value r)
apply-remembered (graces value clock) r = kept 0 _ r.meta.config (set_grace-Keeps value clock r)
apply-remembered (reads_metrics name config now) r =
    told config _ r.meta.config (sweep-Keeps config now false _)
apply-remembered (reads_traffic now config range) r =
    told config _ r.meta.config (flush-Keeps now config _)
apply-remembered (enqueues delivery now) r = kept 0 _ r.meta.config (enqueue-Keeps delivery now r)

call_capacity-le :
    (call : Call) (r : Room) → call_capacity call r ≤ max (carried call) (capacity_of r)
call_capacity-le (joins q) r = omega arith
call_capacity-le (leaves rnd q) r = omega arith
call_capacity-le (force_admits rnd n q) r = omega arith
call_capacity-le (fires rnd net now clock) r = omega arith
call_capacity-le (statuses q) r = omega arith
call_capacity-le rings r = omega arith
call_capacity-le (tries answered now row) r = omega arith
call_capacity-le (sweeps config now) r = omega arith
call_capacity-le (finishes rnd state config now clock) r = omega arith
call_capacity-le (heartbeats q) r = omega arith
call_capacity-le (enters q) r = omega arith
call_capacity-le (modes name config mode clock) r = omega arith
call_capacity-le (pauses paused clock) r = omega arith
call_capacity-le (admit_ux name config click hold show clock) r = omega arith
call_capacity-le (schedules input clock) r = omega arith
call_capacity-le (health sanitize name config raw clock) r = omega arith
call_capacity-le (overrides minutes clock) r = omega arith
call_capacity-le (rates name config rate clock) r = omega arith
call_capacity-le (clears_rate name config clock) r = omega arith
call_capacity-le (limits value) r = omega arith
call_capacity-le (graces value clock) r = omega arith
call_capacity-le (reads_metrics name config now) r = omega arith
call_capacity-le (reads_traffic now config range) r = omega arith
call_capacity-le (enqueues delivery now) r = omega arith
call_capacity-le evicts r = omega arith
call_capacity-le bumps_epoch r = omega arith
call_capacity-le clears_override r = omega arith

run-Within :
    (c : ℕ) (calls : List Call) (r : Room)
    → All (λ call. carried call ≤ c) calls
    → Coherent r
    → capacity_of r ≤ c
    → occupied r ≤ c
    → occupied (run r calls) ≤ c
unfolding run
run-Within c [] r h ok m o = o
run-Within c (call ∷ calls) r h ok m o =
    run-Within c calls (apply call r) h.1 (apply-Coherent call r ok)
      (omega (arith, h.0, apply-remembered call r))
      (omega (arith, h.0, apply-capacity call r ok, call_capacity-le call r))

-- Whatever calls a new room has taken, alarms and evictions among them, whatever the randomness and
-- the network: where none of them carried a configuration with a capacity above c, at most c
-- visitors are admitted.
pub history_capacity :
    (c : ℕ) (calls : List Call)
    → All (λ call. carried call ≤ c) calls
    → occupied (run new_room calls) ≤ c
history_capacity c calls h =
    run-Within c calls new_room h new_room-Coherent (omega arith) (omega arith)
