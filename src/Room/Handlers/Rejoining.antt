-- ===== src/Room/Handlers/Rejoining.antt =====
-- How a join ends, and the join of an id whose row has ended.
use tide_guard.Base.{
  ℕ, ◌≡◌, inl, inr, refl, Bool, true, false, ◌&&◌, ◌||◌, not, Option, none, some, ltb, leb,
  Bool-cases, Option-cases, arith,
}
use tide_guard.Engine.{open_slots}
use tide_guard.Room.{Room, VisitorRow}
use tide_guard.Room.Table.{select_visitor}
use tide_guard.Room.Depth.{count_waiting, count_admitted}
use tide_guard.Room.Settings.{can_admit, max_waiting_visitors}
use tide_guard.Room.Admission.{NewVisitor, insert_visitor, is_some_row}
use tide_guard.Room.Handlers.{
  Request, prologue, JoinResult, queue_full, duplicate_id, join_as, join_new, join_swept, join,
  is_live, admitted_visitor, waiting_visitor,
}

-- There is an open slot that the room may fill, or space in the line.
unfoldable pub has_place : Request → Room → Bool
has_place q r =
    (can_admit r q.now && ltb 0 (open_slots q.config.max_concurrent_users (count_admitted r)))
    || ltb (count_waiting r) (max_waiting_visitors r)

abbrev pub is_in_room : Option VisitorRow → Bool
is_in_room none = false
is_in_room (some v) = is_live v.status

-- The id has a row, left or expired, that was not purged.
abbrev pub has_ended : Option VisitorRow → Bool
has_ended none = false
has_ended (some v) = not (is_live v.status)

abbrev pub is_duplicate : JoinResult → Bool
is_duplicate duplicate_id = true
is_duplicate _ = false

abbrev pub is_full : JoinResult → Bool
is_full queue_full = true
is_full _ = false

insert-taken :
    (n : NewVisitor) (r : Room)
    → (insert_visitor n r).1 ≡ not (is_some_row (select_visitor n.id r.visitors))
unfolding insert_visitor
insert-taken n r = ground arith

join_as-outcome :
    (q : Request) (n : NewVisitor) (admits : ℕ) (r : Room)
    → (is_full (join_as q n admits r).1 ≡ false)
      × (is_duplicate (join_as q n admits r).1 ≡ is_some_row (select_visitor n.id r.visitors))
unfolding join_as
join_as-outcome q n admits r = elim (Bool-cases (is_some_row (select_visitor n.id r.visitors))) [
  | inl e ↦ rw (insert-taken n r, e) (refl, refl)
  | inr e ↦ rw (insert-taken n r, e) (refl, refl)
]

join_new-outcome :
    (q : Request) (r : Room)
    → (is_full (join_new q r).1 ≡ not (has_place q r))
      × (is_duplicate (join_new q r).1
          ≡ (has_place q r && is_some_row (select_visitor q.visitor_id r.visitors)))
unfolding join_new has_place
join_new-outcome q r =
    elim (Bool-cases
      (can_admit r q.now && ltb 0 (open_slots q.config.max_concurrent_users (count_admitted r)))) [
        | inl e ↦ rw e (join_as-outcome q (admitted_visitor q r) 1 r)
        | inr e ↦ elim (Bool-cases (leb (max_waiting_visitors r) (count_waiting r))) [
          | inl full ↦
              let no : ltb (count_waiting r) (max_waiting_visitors r) ≡ false = ground arith in
              rw (e, full, no) (refl, refl)
          | inr space ↦
              let yes : ltb (count_waiting r) (max_waiting_visitors r) ≡ true = ground arith in
              rw (e, space, yes) (join_as-outcome q (waiting_visitor q r) 0 r)
        ]
      ]

-- After the sweep that a join starts with: a join is refused as full exactly when its id is not of
-- a visitor in the room and there is neither an open slot to fill nor space in the line; and it
-- fails on the primary key exactly when there is place, but the id has a left or expired row that
-- was not purged.
pub join-outcome :
    (q : Request) (r : Room)
    → let swept = prologue q true r in
      let row = select_visitor q.visitor_id swept.visitors in
      (is_full (join q r).1 ≡ (not (is_in_room row) && not (has_place q swept)))
      × (is_duplicate (join q r).1 ≡ (has_ended row && has_place q swept))
unfolding join join_swept
join-outcome q r =
    let swept = prologue q true r in
    elim (Option-cases (select_visitor q.visitor_id swept.visitors)) [
      | inl e ↦
          let (full, dup) = join_new-outcome q swept in
          rw (e, join_swept) (full, ground (arith, dup, e))
      | inr (v, e) ↦ elim (Bool-cases (is_live v.status)) [
        | inl live ↦ rw (e, join_swept, live) (refl, refl)
        | inr gone ↦
            let (full, dup) = join_new-outcome q swept in
            rw (e, join_swept, gone) (full, ground (arith, dup, e))
      ]
    ]
