-- ===== src/Examples/Upkeep.antt =====
-- Sweeps, alarms, webhooks and health probes, and the theorems on them at concrete inputs.
use tide_guard.Base.{
  ℕ, ◌+◌, ◌≡◌, refl, Bool, true, false, some, none, List, [], ◌∷◌, ◌++◌, All, count, ltb, arith,
}
use tide_guard.Js.{int, nan}
use tide_guard.Health.{
  ok, slow, pause, OriginHealthConfig, OriginHealthState, RawHealth, ProbeResult,
  default_health_config, default_health_state, parse_health_config, is_auto_paused,
}
use tide_guard.Health.Levels.{run_probes, outage-levels, recovery-level}
use tide_guard.Health.Settings.{IsUsable, parse_health_config-IsUsable}
use tide_guard.Room.{Delivery}
use tide_guard.Room.Depth.{depth}
use tide_guard.Room.Settings.{can_admit}
use tide_guard.Room.Sweep.{
  waiting_lapsed, hold_lapsed, token_lapsed, sweep_visitors, purge, expire_where,
}
use tide_guard.Room.Sweep.Expiry.{has_lapsed, sweep_visitors-pass}
use tide_guard.Room.Alarm.{ensure_alarm}
use tide_guard.Room.Alarm.Wakeups.{rings_by, ensure_alarm-admitting, ensure_alarm-deliveries}
use tide_guard.Room.Outbox.{retry_delay, process_webhook_outbox, enqueue_webhook}
use tide_guard.Room.Outbox.Retries.{IsOpen, outbox-Open}
use tide_guard.Room.Outbox.Turns.{try_first, after_attempt, process_webhook_outbox-turns}
use tide_guard.Room.Traffic.{record_traffic}
use tide_guard.Room.Traffic.Conservation.{counted_joins, counted_admits, record_traffic-totals}
use tide_guard.Room.{Room}
use tide_guard.Examples.{tried_once, small_room, two_slots}

sweep_visitors-pass_example : sweep_visitors two_slots 120_000 200_000 small_room.visitors ≡ (
  purge 200_000 (expire_where (has_lapsed two_slots 120_000 200_000) small_room.visitors),
  ltb 0 (count (has_lapsed two_slots 120_000 200_000) small_room.visitors),
)
sweep_visitors-pass_example = sweep_visitors-pass two_slots 120_000 200_000 small_room.visitors

both_lapsed : count (has_lapsed two_slots 120_000 200_000) small_room.visitors ≡ 2
unfolding has_lapsed waiting_lapsed hold_lapsed token_lapsed
both_lapsed = refl

ensure_alarm-admitting_example :
    rings_by (4_000 + 1_250) (ensure_alarm 4_000 small_room).alarm ≡ true
unfolding depth can_admit is_auto_paused
ensure_alarm-admitting_example = ensure_alarm-admitting 4_000 small_room refl refl

ensure_alarm-deliveries_example :
    All
      (λ row. rings_by (row.next_attempt_at + 250) (ensure_alarm 4_000 small_room).alarm ≡ true)
      small_room.outbox
ensure_alarm-deliveries_example = ensure_alarm-deliveries 4_000 small_room

outbox-Open_example :
    ((delivered : ℕ → Bool) (now : ℕ)
      → All IsOpen (process_webhook_outbox delivered now small_room).outbox)
    × ((delivery : Delivery) (now : ℕ)
        → All IsOpen (enqueue_webhook delivery now small_room).outbox)
outbox-Open_example = outbox-Open small_room ((omega arith, omega arith), tt)

abbrev failed_probe : ProbeResult
failed_probe = record { success = false; latency_ms = 5_000; status = some 503; error = none }

abbrev good_probe : ProbeResult
good_probe = record { success = true; latency_ms = 80; status = some 200; error = none }

abbrev two_failures : List (ProbeResult × ℕ)
two_failures = (failed_probe, 30_000) ∷ (failed_probe, 60_000) ∷ []

abbrev one_success : List (ProbeResult × ℕ)
one_success = (good_probe, 90_000) ∷ []

outage-levels_example :
    ((run_probes default_health_config default_health_state two_failures).level ≡ slow)
    × ((run_probes default_health_config default_health_state (two_failures ++ two_failures)).level
        ≡ pause)
    × ((run_probes default_health_config default_health_state
          ((two_failures ++ two_failures) ++ two_failures)).level
        ≡ pause)
outage-levels_example =
    outage-levels default_health_config default_health_state two_failures two_failures two_failures
      (omega arith) refl refl ((refl, (refl, tt)), (refl, (refl, tt)), (refl, (refl, tt))) refl refl

abbrev paused_state : OriginHealthState
paused_state = record default_health_state { level = pause }

recovery-level_example :
    ((run_probes default_health_config paused_state one_success).level ≡ pause)
    × ((run_probes default_health_config paused_state (one_success ++ one_success)).level ≡ ok)
recovery-level_example =
    recovery-level default_health_config paused_state one_success one_success refl refl (refl, tt)
      (refl, (refl, tt)) (omega arith) refl

abbrev wild_health : RawHealth
wild_health = record {
  enabled = some true;
  url = some (some "https://origin.example/health");
  interval_seconds = some (int 5);
  timeout_ms = some nan;
  max_latency_ms = none;
  expect_status = some (int 204);
  fail_threshold = some (int 0);
  recover_threshold = some (int 21);
  slow_rate_multiplier = none;
  override_until = none;
}

parse_health_config-IsUsable_example : IsUsable (parse_health_config (λ url. url) wild_health)
parse_health_config-IsUsable_example = parse_health_config-IsUsable (λ url. url) wild_health

abbrev watched : OriginHealthConfig
watched = parse_health_config (λ url. url) wild_health

process_webhook_outbox-turns_example :
    (process_webhook_outbox (λ id. false) 9_500 small_room).outbox
    ≡ try_first (λ id. false) 9_500 10 small_room.outbox
process_webhook_outbox-turns_example =
    process_webhook_outbox-turns (λ id. false) 9_500 small_room (tt, tt)

-- The failed second attempt puts the delivery off by 15 seconds.
put_off :
    try_first (λ id. false) 9_500 10 small_room.outbox
    ≡ record tried_once { attempts = 2; next_attempt_at = 24_500 } ∷ []
unfolding try_first after_attempt retry_delay
put_off = refl

abbrev counting_room : Room
counting_room = record small_room {
  meta = record (small_room.meta) {
    traffic_open_t = 15_000;
    traffic_open_joins = 3;
    traffic_open_admits = 1;
  };
}

record_traffic-totals_example :
    (counted_joins
        (record_traffic 31_000 two_slots (record { joins = 1; admits = 1 }) counting_room)
      ≡ counted_joins counting_room + 1)
    × (counted_admits
          (record_traffic 31_000 two_slots (record { joins = 1; admits = 1 }) counting_room)
        ≡ counted_admits counting_room + 1)
record_traffic-totals_example =
    record_traffic-totals 31_000 two_slots (record { joins = 1; admits = 1 }) counting_room
      (omega arith) (omega arith) (omega arith) tt
