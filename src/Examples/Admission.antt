-- ===== src/Examples/Admission.antt =====
-- Admissions in the small room, and the theorems on them applied to it.
use tide_guard.Base.{◌+◌, ◌≤◌, ◌≡◌, max, min, refl, not, some, [], ◌∷◌, arith}
use tide_guard.Engine.{open_slots}
use tide_guard.Room.Table.{select_visitor, count_waiting_ahead}
use tide_guard.Room.Depth.{depth, count_admitted}
use tide_guard.Room.Settings.{effective_config}
use tide_guard.Room.Admission.{admit_up_to}
use tide_guard.Room.Admission.Fifo.{admit_first, front_ids, admit_up_to-Fifo}
use tide_guard.Room.Admission.Ahead.{admit_up_to-ahead}
use tide_guard.Room.Admission.Capacity.{occupied, admit_up_to-capacity}
use tide_guard.Room.View.{to_view}
use tide_guard.Room.View.Positions.{to_view-Place, count_waiting_behind}
use tide_guard.Examples.{small_room, small_room-Coherent, two_slots, fixed, bob, cy}

admit_up_to-Fifo_example :
    let n = min (open_slots 2 (count_admitted small_room)) 5 in
    let entered = not (effective_config small_room two_slots).require_click_to_enter in
    let (r', ids) = admit_up_to fixed 5 two_slots 4_000 small_room in
    (r'.visitors ≡ admit_first n 4_000 entered small_room.visitors)
    × (ids ≡ front_ids n small_room.visitors)
admit_up_to-Fifo_example =
    admit_up_to-Fifo fixed 5 two_slots 4_000 small_room small_room-Coherent.keyed refl

front_is_bob : front_ids 1 small_room.visitors ≡ "bob" ∷ []
front_is_bob = refl

one_slot : open_slots 2 (count_admitted small_room) ≡ 1
unfolding depth
one_slot = refl

admit_up_to-ahead_example :
    (count_waiting_ahead cy.sequence small_room.visitors ≡ 1)
    × (count_waiting_ahead cy.sequence (admit_up_to fixed 5 two_slots 4_000 small_room).0.visitors
          + min (open_slots 2 (count_admitted small_room)) 5
        ≡ 1)
admit_up_to-ahead_example =
    admit_up_to-ahead fixed 5 two_slots 4_000 small_room (bob ∷ []) [] cy small_room-Coherent.keyed
      refl refl (omega (arith, one_slot))

admit_up_to-capacity_example :
    (occupied (admit_up_to fixed 5 two_slots 4_000 small_room).0 ≤ max 2 (occupied small_room))
    × (occupied (admit_up_to fixed 5 two_slots 4_000 small_room).0 ≤ occupied small_room + 5)
admit_up_to-capacity_example =
    admit_up_to-capacity fixed 5 two_slots 4_000 small_room small_room-Coherent

to_view-Place_example :
    let view = (to_view small_room cy two_slots 4_000).1 in
    (view.position ≡ some (count_waiting_ahead 3 small_room.visitors + 1))
    × (view.ahead ≡ some (count_waiting_ahead 3 small_room.visitors))
    × (view.behind ≡ some (count_waiting_behind 3 small_room.visitors))
unfolding select_visitor
to_view-Place_example =
    to_view-Place small_room cy two_slots 4_000 small_room-Coherent refl refl refl
