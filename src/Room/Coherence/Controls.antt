-- ===== src/Room/Coherence/Controls.antt =====
-- The caches of a room under the operator's controls and the metrics.
use tide_guard.Base.{
  ℕ, ◌≡◌, inl, inr, refl, ◌∙◌, Bool, true, false, not, ◌||◌, Option, String, ltb, arith, Bool-cases,
  Option-cases,
}
use tide_guard.Js.{JsNumber, parse_admit_per_second, floor, is_finite}
use tide_guard.Engine.{AdmissionMode}
use tide_guard.Config.{QueueConfig}
use tide_guard.Health.{RawHealth}
use tide_guard.Room.{Room, Delivery}
use tide_guard.Room.Settings.{ensure_queue_name}
use tide_guard.Room.Traffic.{get_traffic}
use tide_guard.Room.Outbox.{enqueue_webhook}
use tide_guard.Room.Controls.{
  ScheduleInput, set_mode, set_paused, set_admit_ux, set_schedule, bump_token_epoch,
  set_health_config, override_health, clear_health_override, set_admit_rate, clear_admit_rate,
  set_max_waiting_visitors, set_missed_slot_grace_seconds, metrics,
}
use tide_guard.Room.Coherence.{Coherent, of_core, core_of}
use tide_guard.Room.Coherence.Steps.{sweep-Coherent, flush-Coherent}
use tide_guard.Room.Coherence.CheckIns.{alarm-core}

pub named-core : (queue : String) (r : Room) → core_of (ensure_queue_name queue r) ≡ core_of r
named-core queue r = ground arith

pub set_mode-core :
    (queue : String) (config : QueueConfig) (mode : AdmissionMode) (clock : ℕ) (r : Room)
    → core_of (set_mode queue config mode clock r) ≡ core_of r
unfolding set_mode
set_mode-core queue config mode clock r = alarm-core clock _ ∙ named-core queue r

pub set_paused-core :
    (paused : Bool) (clock : ℕ) (r : Room) → core_of (set_paused paused clock r) ≡ core_of r
unfolding set_paused
set_paused-core true clock r = refl
set_paused-core false clock r = alarm-core clock _

pub set_admit_ux-core :
    (queue : String) (config : QueueConfig) (click : Bool) (hold : ℕ) (show : Option Bool)
    (clock : ℕ) (r : Room)
    → core_of (set_admit_ux queue config click hold show clock r) ≡ core_of r
unfolding set_admit_ux
set_admit_ux-core queue config click hold show clock r = alarm-core clock _ ∙ named-core queue r

pub set_schedule-core :
    (input : ScheduleInput) (clock : ℕ) (r : Room)
    → core_of (set_schedule input clock r) ≡ core_of r
unfolding set_schedule
set_schedule-core input clock r = alarm-core clock _

pub bump_token_epoch-core : (r : Room) → core_of (bump_token_epoch r).0 ≡ core_of r
unfolding bump_token_epoch
bump_token_epoch-core r = refl

pub clear_health_override-core : (r : Room) → core_of (clear_health_override r) ≡ core_of r
unfolding clear_health_override
clear_health_override-core r = refl

pub set_health_config-core :
    (sanitize : Option String → Option String) (queue : String) (config : QueueConfig)
    (raw : RawHealth) (clock : ℕ) (r : Room)
    → core_of (set_health_config sanitize queue config raw clock r) ≡ core_of r
unfolding set_health_config
set_health_config-core sanitize queue config raw clock r = alarm-core clock _ ∙ named-core queue r

pub override_health-core :
    (minutes clock : ℕ) (r : Room) → core_of (override_health minutes clock r) ≡ core_of r
unfolding override_health
override_health-core minutes clock r = alarm-core clock _

pub set_admit_rate-core :
    (queue : String) (config : QueueConfig) (rate : JsNumber) (clock : ℕ) (r : Room)
    → core_of (set_admit_rate queue config rate clock r).0 ≡ core_of r
unfolding set_admit_rate
set_admit_rate-core queue config rate clock r = elim (Option-cases (parse_admit_per_second rate)) [
  | inl e ↦ rw (e, set_admit_rate) (named-core queue r)
  | inr (n, e) ↦ rw (e, set_admit_rate) (alarm-core clock _ ∙ named-core queue r)
]

pub clear_admit_rate-core :
    (queue : String) (config : QueueConfig) (clock : ℕ) (r : Room)
    → core_of (clear_admit_rate queue config clock r) ≡ core_of r
unfolding clear_admit_rate
clear_admit_rate-core queue config clock r = alarm-core clock _ ∙ named-core queue r

pub set_max_waiting-core :
    (value : JsNumber) (r : Room) → core_of (set_max_waiting_visitors value r).0 ≡ core_of r
unfolding set_max_waiting_visitors
set_max_waiting-core value r = ground arith

pub set_missed_slot_grace-core :
    (value : JsNumber) (clock : ℕ) (r : Room)
    → core_of (set_missed_slot_grace_seconds value clock r).0 ≡ core_of r
unfolding set_missed_slot_grace_seconds
set_missed_slot_grace-core value clock r =
    elim (Bool-cases (not (is_finite value) || ltb (floor value) 30 || ltb 900 (floor value))) [
      | inl e ↦ rw e
      | inr e ↦ rw e (alarm-core clock _)
    ]

pub metrics-Coherent :
    (queue : String) (config : QueueConfig) (now : ℕ) (r : Room)
    → Coherent r
    → Coherent (metrics queue config now r).0
unfolding metrics
metrics-Coherent queue config now r c =
    sweep-Coherent config now false _ (of_core (named-core queue r) c)

pub get_traffic-Coherent :
    (now : ℕ) (config : QueueConfig) (range : Option ℕ) (r : Room)
    → Coherent r
    → Coherent (get_traffic now config range r).0
unfolding get_traffic
get_traffic-Coherent now config range r c = flush-Coherent now config _ (of_core refl c)

pub enqueue-core :
    (delivery : Delivery) (now : ℕ) (r : Room)
    → core_of (enqueue_webhook delivery now r) ≡ core_of r
unfolding enqueue_webhook
enqueue-core delivery now r = alarm-core now _ ∙ named-core delivery.queue r
