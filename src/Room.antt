-- ===== src/Room.antt =====
-- The state of one waiting room: src/durable-object/queue-room.ts with the tables of
-- src/durable-object/schema.ts. A row of the `meta` table is a field of `Meta` with the type that
-- the code writes and reads back; `Number`, `String` and `JSON` undo one another on these.
pub mod Table
pub mod Depth
pub mod Settings
pub mod Traffic
pub mod Waiters
pub mod Sweep
pub mod Admission
pub mod View
pub mod Alarm
pub mod Outbox
pub mod Handlers
pub mod Departure
pub mod Service
pub mod Controls
pub mod History
pub mod Coherence
use tide_guard.Base.{ℕ, Bool, true, false, Option, none, some, List, [], String}
use tide_guard.Engine.{AdmissionMode}
use tide_guard.Config.{QueueConfig}
use tide_guard.Health.{OriginHealthConfig, OriginHealthState}

pub data Status : Type 0 where
  waiting admitted expired left : Status

-- A row of `visitors`; the table's order is that of insertion.
pub record VisitorRow : Type 0 where
  pub id : String
  pub status : Status
  pub joined_at : ℕ
  pub last_heartbeat_at : ℕ
  pub admitted_at : Option ℕ
  pub sequence : ℕ
  pub entered : Bool
  pub next_check_at : Option ℕ

pub data CloseAction : Type 0 where
  reject passthrough : CloseAction

-- A number whose row is absent has the default that the code reads (`?? "0"`, `?? "1"`).
pub record Meta : Type 0 where
  pub queue_name : Option String
  pub config : Option QueueConfig
  pub last_sweep : ℕ
  pub count_waiting : Option ℕ
  pub count_admitted : Option ℕ
  pub next_sequence : ℕ
  pub admission_mode : Option AdmissionMode
  pub require_click : Option Bool
  pub admit_hold_seconds : Option ℕ
  pub show_waiting_count : Bool
  pub paused : Bool
  pub opens_at : Option ℕ
  pub closes_at : Option ℕ
  pub close_action : CloseAction
  pub token_epoch : ℕ
  pub health_config : Option OriginHealthConfig
  pub health_state : Option OriginHealthState
  pub admit_per_second_override : Option ℕ
  pub admit_remainder : ℕ
  pub traffic_open_t : ℕ
  pub traffic_open_joins : ℕ
  pub traffic_open_admits : ℕ
  pub total_inflow : ℕ
  pub max_waiting_visitors : Option ℕ
  pub missed_slot_grace_seconds : Option ℕ

-- A row of `traffic_buckets`; `max_outflow` is in millionths.
pub record TrafficBucket : Type 0 where
  pub t : ℕ
  pub joins : ℕ
  pub admits : ℕ
  pub max_outflow : ℕ
  pub waiting : ℕ
  pub entered : ℕ

pub record Delivery : Type 0 where
  pub url : String
  pub headers : List (String × String)
  pub body : String
  pub event : String
  pub queue : String

-- A row of `webhook_outbox`; `detail` is `none` where the stored text is not JSON.
pub record OutboxRow : Type 0 where
  pub id : ℕ
  pub event : String
  pub queue : String
  pub detail : Option Delivery
  pub attempts : ℕ
  pub next_attempt_at : ℕ
  pub created_at : ℕ

pub record Counts : Type 0 where
  pub waiting : ℕ
  pub admitted : ℕ

-- The storage, with the two caches in memory (`depth`, `ahead_cache`) and the alarm.
pub record Room : Type 0 where
  pub meta : Meta
  pub visitors : List VisitorRow
  pub buckets : List TrafficBucket
  pub outbox : List OutboxRow
  pub last_outbox_id : ℕ
  pub depth : Option Counts
  pub ahead_cache : List (ℕ × ℕ)
  pub alarm : Option ℕ

abbrev pub is_waiting : Status → Bool
is_waiting waiting = true
is_waiting _ = false

abbrev pub is_admitted : Status → Bool
is_admitted admitted = true
is_admitted _ = false

abbrev pub fresh_meta : Meta
fresh_meta = record {
  queue_name = none;
  config = none;
  last_sweep = 0;
  count_waiting = some 0;
  count_admitted = some 0;
  next_sequence = 1;
  admission_mode = none;
  require_click = none;
  admit_hold_seconds = none;
  show_waiting_count = false;
  paused = false;
  opens_at = none;
  closes_at = none;
  close_action = reject;
  token_epoch = 0;
  health_config = none;
  health_state = none;
  admit_per_second_override = none;
  admit_remainder = 0;
  traffic_open_t = 0;
  traffic_open_joins = 0;
  traffic_open_admits = 0;
  total_inflow = 0;
  max_waiting_visitors = none;
  missed_slot_grace_seconds = none;
}

-- A new room after `migrateQueueRoomSchema`, which creates the tables and counts them.
abbrev pub new_room : Room
new_room = record {
  meta = fresh_meta;
  visitors = [];
  buckets = [];
  outbox = [];
  last_outbox_id = 0;
  depth = some (record { waiting = 0; admitted = 0 });
  ahead_cache = [];
  alarm = none;
}
