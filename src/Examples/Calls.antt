-- ===== src/Examples/Calls.antt =====
-- Calls on the small room, and the theorems on all calls applied to them.
use tide_guard.Base.{str_eq, arith, ◌≤◌, ◌≡◌, refl, true, not, ◌&&◌, List, [], ◌∷◌}
use tide_guard.Room.{Room, new_room, expired}
use tide_guard.Room.Table.{select_visitor, count_waiting_rows, count_admitted_rows}
use tide_guard.Room.Depth.{depth, count_waiting, count_admitted}
use tide_guard.Room.Sweep.{
  sweep, run_sweep, sweep_visitors, waiting_lapsed, expire_where, hold_lapsed, token_lapsed, purge,
}
use tide_guard.Room.Settings.{effective_config, can_admit}
use tide_guard.Engine.{missed_slot_grace_ms, check_in_period_seconds}
use tide_guard.Health.{is_auto_paused}
use tide_guard.Room.Admission.{insert_visitor}
use tide_guard.Room.Admission.Capacity.{held, occupied}
use tide_guard.Room.Handlers.{prologue, join}
use tide_guard.Room.Handlers.Rejoining.{
  is_full, is_duplicate, is_in_room, has_ended, has_place, join-outcome,
}
use tide_guard.Room.History.{Call, joins, leaves, fires, evicts, apply, run}
use tide_guard.Room.History.Limits.{history_capacity}
use tide_guard.Room.History.Paused.{apply-Paused}
use tide_guard.Room.Coherence.{Coherent}
use tide_guard.Room.Coherence.History.{apply-Coherent, counts_exact}
use tide_guard.Examples.{small_room, small_room-Coherent, request, fixed, healthy, ann, bob, cy}

apply-Coherent_example : Coherent (apply (fires fixed healthy 4_000 4_000) small_room)
apply-Coherent_example =
    apply-Coherent (fires fixed healthy 4_000 4_000) small_room small_room-Coherent

counts_exact_example :
    let r = run new_room (
      joins (request "ann" 1_000)
      ∷ joins (request "bob" 2_000)
      ∷ evicts
      ∷ joins (request "cy" 3_000)
      ∷ []) in
    (count_waiting r ≡ count_waiting_rows r.visitors)
    × (count_admitted r ≡ count_admitted_rows r.visitors)
counts_exact_example = counts_exact (
    joins (request "ann" 1_000)
    ∷ joins (request "bob" 2_000)
    ∷ evicts
    ∷ joins (request "cy" 3_000)
    ∷ [])

abbrev paused_room : Room
paused_room = record small_room { meta = record (small_room.meta) { paused = true } }

paused_room-Coherent : Coherent paused_room
paused_room-Coherent = small_room-Coherent

-- A leave frees a place, and the visitor who waits does not get it.
apply-Paused_example :
    held (str_eq "bob") (apply (leaves fixed (request "ann" 4_000)) paused_room)
    ≤ held (str_eq "bob") paused_room
apply-Paused_example =
    apply-Paused (leaves fixed (request "ann" 4_000)) paused_room (str_eq "bob")
      paused_room-Coherent refl

abbrev opening_calls : List Call
opening_calls =
    joins (request "ann" 1_000)
    ∷ joins (request "bob" 2_000)
    ∷ evicts
    ∷ fires fixed healthy 3_000 3_000
    ∷ leaves fixed (request "ann" 4_000)
    ∷ []

history_capacity_example : occupied (run new_room opening_calls) ≤ 2
history_capacity_example =
    history_capacity 2 opening_calls
      (omega arith, (omega arith, (omega arith, (omega arith, (omega arith, tt)))))

-- `cy` missed the check-in and comes back within the hour.
abbrev lapsed_room : Room
lapsed_room = record small_room { visitors = ann ∷ bob ∷ record cy { status = expired } ∷ [] }

join-outcome_example :
    let swept = prologue (request "cy" 4_000) true lapsed_room in
    let row = select_visitor "cy" swept.visitors in
    (is_full (join (request "cy" 4_000) lapsed_room).1
      ≡ (not (is_in_room row) && not (has_place (request "cy" 4_000) swept)))
    × (is_duplicate (join (request "cy" 4_000) lapsed_room).1
        ≡ (has_ended row && has_place (request "cy" 4_000) swept))
join-outcome_example = join-outcome (request "cy" 4_000) lapsed_room

return_fails : is_duplicate (join (request "cy" 4_000) lapsed_room).1 ≡ true
unfolding join select_visitor sweep run_sweep sweep_visitors waiting_lapsed effective_config
    missed_slot_grace_ms check_in_period_seconds depth expire_where hold_lapsed token_lapsed purge
    can_admit is_auto_paused insert_visitor
return_fails = refl
