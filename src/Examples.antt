-- ===== src/Examples.antt =====
-- A small waiting room on which the examples of the children run: capacity 2, `ann` admitted, `bob`
-- and `cy` waiting in this order. It models no file of the program.
mod Admission
mod Calls
mod Numbers
mod Upkeep
mod Runtime
mod Tokens
mod Addresses
mod Visits
mod Limits
use tide_guard.Base.{ℕ, true, zero, false, none, some, List, [], ◌∷◌, String, refl, arith}
use tide_guard.Engine.{queue}
use tide_guard.Config.{QueueConfig}
use tide_guard.Health.{response}
use tide_guard.Room.{
  Room, VisitorRow, OutboxRow, Delivery, waiting, admitted, fresh_meta, new_room, reject,
}
use tide_guard.Room.Table.{select_visitor}
use tide_guard.Room.Admission.{Random}
use tide_guard.Room.Handlers.{Request}
use tide_guard.Room.Service.{Network}
use tide_guard.Room.Coherence.{Coherent}

abbrev pub two_slots : QueueConfig
two_slots = record {
  max_concurrent_users = 2;
  admit_per_second = 2_000_000;
  token_ttl_seconds = 600;
  heartbeat_timeout_seconds = 180;
  queue_timeout_seconds = 86_400;
  admission_mode = queue;
  require_click_to_enter = false;
  admit_hold_seconds = 120;
  missed_slot_grace_seconds = 120;
}

abbrev pub ann : VisitorRow
ann = record {
  id = "ann";
  status = admitted;
  joined_at = 1_000;
  last_heartbeat_at = 1_000;
  admitted_at = some 1_000;
  sequence = 1;
  entered = true;
  next_check_at = none;
}

abbrev pub bob : VisitorRow
bob = record {
  id = "bob";
  status = waiting;
  joined_at = 2_000;
  last_heartbeat_at = 2_000;
  admitted_at = none;
  sequence = 2;
  entered = false;
  next_check_at = some 7_000;
}

abbrev pub cy : VisitorRow
cy = record {
  id = "cy";
  status = waiting;
  joined_at = 3_000;
  last_heartbeat_at = 3_000;
  admitted_at = none;
  sequence = 3;
  entered = false;
  next_check_at = some 8_000;
}

abbrev pub news : Delivery
news = record {
  url = "https://hooks.example";
  headers = [];
  body = "{}";
  event = "queue.paused";
  queue = "tickets";
}

abbrev pub tried_once : OutboxRow
tried_once = record {
  id = 1;
  event = "queue.paused";
  queue = "tickets";
  detail = some news;
  attempts = 1;
  next_attempt_at = 9_000;
  created_at = 4_000;
}

abbrev pub small_room : Room
small_room = record new_room {
  meta = record fresh_meta {
    queue_name = some "tickets";
    config = some two_slots;
    count_waiting = none;
    count_admitted = none;
    next_sequence = 4;
  };
  visitors = ann ∷ bob ∷ cy ∷ [];
  outbox = tried_once ∷ [];
  last_outbox_id = 1;
  depth = none;
}

pub small_room-Coherent : Coherent small_room
unfolding select_visitor
small_room-Coherent = record {
  depth_ok = tt;
  stored_ok = tt;
  cache_ok = tt;
  keyed = (refl, (omega arith, (omega arith, tt)), (refl, (omega arith, tt), (refl, tt, tt)));
  fresh = (omega arith, (omega arith, (omega arith, tt)));
}

abbrev pub request : String → ℕ → Request
request id now = record {
  queue = "tickets";
  config = two_slots;
  visitor_id = id;
  now = now;
  clock = now;
}

abbrev pub fixed : Random
fixed = record { pick = λ k n. zero; shuffle = λ ids. ids; round = λ n. n }

abbrev pub healthy : Network
healthy = record { delivered = λ id. true; probe = response 200; latency = 40 }
