-- ===== src/Room/Coherence/History.antt =====
-- The caches of a room under calls and whole histories.
use tide_guard.Room.Coherence.Steps.{sweep-Coherent}
use tide_guard.Base.{true, ◌≡◌, refl, List, [], ◌∷◌}
use tide_guard.Room.{Room, new_room}
use tide_guard.Room.Table.{count_waiting_rows, count_admitted_rows}
use tide_guard.Room.Depth.{count_waiting, count_admitted}
use tide_guard.Room.History.{
  Call, joins, statuses, heartbeats, enters, leaves, force_admits, fires, evicts, modes, pauses,
  admit_ux, schedules, bumps_epoch, clears_override, health, overrides, rates, clears_rate, limits,
  graces, reads_metrics, reads_traffic, enqueues, rings, tries, sweeps, finishes, apply, run,
}
use tide_guard.Room.Coherence.{Coherent, of_core}
use tide_guard.Room.Coherence.Primitives.{depth-Exact}
use tide_guard.Room.Coherence.Operations.{
  join-Coherent, status-Coherent, heartbeat-Coherent, enter-Coherent,
}
use tide_guard.Room.Coherence.Admissions.{
  leave-Coherent, force_admit-Coherent, alarm_op-Coherent, evict-Coherent, turn-core,
  finish-Coherent,
}
use tide_guard.Room.Coherence.Controls.{
  set_mode-core, set_paused-core, set_admit_ux-core, set_schedule-core, bump_token_epoch-core,
  clear_health_override-core, set_health_config-core, override_health-core, set_admit_rate-core,
  clear_admit_rate-core, set_max_waiting-core, set_missed_slot_grace-core, metrics-Coherent,
  get_traffic-Coherent, enqueue-core,
}

-- From any coherent room, every call that reaches the object, and an eviction of the object from
-- memory, leaves a coherent room: the counts in memory and in `meta`, where there are any, are those
-- of the table, the cached line positions are what the table gives, ids are unique, and sequence
-- numbers rise down the table and are below the next one.
pub apply-Coherent : (call : Call) (r : Room) → Coherent r → Coherent (apply call r)
unfolding apply
apply-Coherent (joins q) r c = join-Coherent q r c
apply-Coherent (statuses q) r c = status-Coherent q r c
apply-Coherent (heartbeats q) r c = heartbeat-Coherent q r c
apply-Coherent (enters q) r c = enter-Coherent q r c
apply-Coherent (leaves rnd q) r c = leave-Coherent rnd q r c
apply-Coherent (force_admits rnd n q) r c = force_admit-Coherent rnd n q r c
apply-Coherent (fires rnd net now clock) r c = alarm_op-Coherent rnd net now clock r c
apply-Coherent evicts r c = evict-Coherent r c
apply-Coherent rings r c = of_core refl c
apply-Coherent (tries answered now row) r c = of_core (turn-core answered now row r) c
apply-Coherent (sweeps config now) r c = sweep-Coherent config now true r c
apply-Coherent (finishes rnd state config now clock) r c =
    finish-Coherent rnd state config now clock r c
apply-Coherent (modes queue config mode clock) r c =
    of_core (set_mode-core queue config mode clock r) c
apply-Coherent (pauses paused clock) r c = of_core (set_paused-core paused clock r) c
apply-Coherent (admit_ux queue config click hold show clock) r c =
    of_core (set_admit_ux-core queue config click hold show clock r) c
apply-Coherent (schedules input clock) r c = of_core (set_schedule-core input clock r) c
apply-Coherent bumps_epoch r c = of_core (bump_token_epoch-core r) c
apply-Coherent clears_override r c = of_core (clear_health_override-core r) c
apply-Coherent (health sanitize queue config raw clock) r c =
    of_core (set_health_config-core sanitize queue config raw clock r) c
apply-Coherent (overrides minutes clock) r c = of_core (override_health-core minutes clock r) c
apply-Coherent (rates queue config rate clock) r c =
    of_core (set_admit_rate-core queue config rate clock r) c
apply-Coherent (clears_rate queue config clock) r c =
    of_core (clear_admit_rate-core queue config clock r) c
apply-Coherent (limits value) r c = of_core (set_max_waiting-core value r) c
apply-Coherent (graces value clock) r c = of_core (set_missed_slot_grace-core value clock r) c
apply-Coherent (reads_metrics queue config now) r c = metrics-Coherent queue config now r c
apply-Coherent (reads_traffic now config range) r c = get_traffic-Coherent now config range r c
apply-Coherent (enqueues delivery now) r c = of_core (enqueue-core delivery now r) c

pub run-Coherent : (calls : List Call) (r : Room) → Coherent r → Coherent (run r calls)
unfolding run
run-Coherent [] r c = c
run-Coherent (call ∷ calls) r c = run-Coherent calls (apply call r) (apply-Coherent call r c)

pub new_room-Coherent : Coherent new_room
new_room-Coherent = record {
  depth_ok = (refl, refl);
  stored_ok = (refl, refl);
  cache_ok = tt;
  keyed = tt;
  fresh = tt;
}

-- After any history of calls and evictions that starts with a new room, the numbers of waiting and
-- of admitted visitors that the room works with are those of its table.
pub counts_exact :
    (calls : List Call)
    → let r = run new_room calls in
      (count_waiting r ≡ count_waiting_rows r.visitors)
      × (count_admitted r ≡ count_admitted_rows r.visitors)
counts_exact calls = depth-Exact _ (run-Coherent calls new_room new_room-Coherent)
