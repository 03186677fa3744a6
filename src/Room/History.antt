-- ===== src/Room/History.antt =====
-- The life of a room: a sequence of the calls that reach the Durable Object, with its evictions
-- from memory. Each call has the arguments that its handler takes. An alarm that nothing interrupts
-- is `fires`; the other way for one is in its pieces, with calls between them: `rings`, a `tries` for
-- each delivery, `sweeps` and `finishes`.
pub mod Capacity
pub mod Paused
pub mod Remembered
pub mod Told
pub mod Limits
use tide_guard.Room.Sweep.{sweep}
use tide_guard.Base.{true, none, ℕ, Bool, Option, List, [], ◌∷◌, String}
use tide_guard.Js.{JsNumber}
use tide_guard.Engine.{AdmissionMode}
use tide_guard.Config.{QueueConfig}
use tide_guard.Health.{OriginHealthState, RawHealth}
use tide_guard.Room.{OutboxRow, Room, Delivery}
use tide_guard.Room.Traffic.{get_traffic}
use tide_guard.Room.Admission.{Random}
use tide_guard.Room.Outbox.{enqueue_webhook}
use tide_guard.Room.Handlers.{Request, join, status, heartbeat, enter}
use tide_guard.Room.Departure.{leave}
use tide_guard.Room.Service.{finish_alarm, write_turn, Network, force_admit, alarm, evict}
use tide_guard.Room.Controls.{
  ScheduleInput, set_mode, set_paused, set_admit_ux, set_schedule, bump_token_epoch,
  set_health_config, override_health, clear_health_override, set_admit_rate, clear_admit_rate,
  set_max_waiting_visitors, set_missed_slot_grace_seconds, metrics,
}

pub data Call : Type 0 where
  joins statuses heartbeats enters : Request → Call
  leaves : Random → Request → Call
  force_admits : Random → ℕ → Request → Call
  fires : Random → Network → ℕ → ℕ → Call
  evicts : Call
  modes : String → QueueConfig → AdmissionMode → ℕ → Call
  pauses : Bool → ℕ → Call
  admit_ux : String → QueueConfig → Bool → ℕ → Option Bool → ℕ → Call
  schedules : ScheduleInput → ℕ → Call
  bumps_epoch clears_override : Call
  health : (Option String → Option String) → String → QueueConfig → RawHealth → ℕ → Call
  overrides : ℕ → ℕ → Call
  rates : String → QueueConfig → JsNumber → ℕ → Call
  clears_rate : String → QueueConfig → ℕ → Call
  limits : JsNumber → Call
  graces : JsNumber → ℕ → Call
  reads_metrics : String → QueueConfig → ℕ → Call
  reads_traffic : ℕ → QueueConfig → Option ℕ → Call
  enqueues : Delivery → ℕ → Call
  rings : Call
  tries : Bool → ℕ → OutboxRow → Call
  sweeps : QueueConfig → ℕ → Call
  finishes : Random → Option OriginHealthState → Option QueueConfig → ℕ → ℕ → Call

unfoldable pub apply : Call → Room → Room
apply (joins q) r = (join q r).0
apply (statuses q) r = (status q r).0
apply (heartbeats q) r = (heartbeat q r).0
apply (enters q) r = (enter q r).0
apply (leaves rnd q) r = (leave rnd q r).0
apply (force_admits rnd n q) r = (force_admit rnd n q r).0
apply (fires rnd net now clock) r = alarm rnd net now clock r
apply evicts r = evict r
apply (modes queue config mode clock) r = set_mode queue config mode clock r
apply (pauses paused clock) r = set_paused paused clock r
apply (admit_ux queue config click hold show clock) r =
    set_admit_ux queue config click hold show clock r
apply (schedules input clock) r = set_schedule input clock r
apply bumps_epoch r = (bump_token_epoch r).0
apply clears_override r = clear_health_override r
apply (health sanitize queue config raw clock) r =
    set_health_config sanitize queue config raw clock r
apply (overrides minutes clock) r = override_health minutes clock r
apply (rates queue config rate clock) r = (set_admit_rate queue config rate clock r).0
apply (clears_rate queue config clock) r = clear_admit_rate queue config clock r
apply (limits value) r = (set_max_waiting_visitors value r).0
apply (graces value clock) r = (set_missed_slot_grace_seconds value clock r).0
apply (reads_metrics queue config now) r = (metrics queue config now r).0
apply (reads_traffic now config range) r = (get_traffic now config range r).0
apply (enqueues delivery now) r = enqueue_webhook delivery now r
apply rings r = record r { alarm = none }
apply (tries answered now row) r = write_turn answered now row r
apply (sweeps config now) r = sweep config now true r
apply (finishes rnd state config now clock) r = finish_alarm rnd state config now clock r

unfoldable pub run : Room → List Call → Room
run r [] = r
run r (call ∷ calls) = run (apply call r) calls
