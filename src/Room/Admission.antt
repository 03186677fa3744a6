-- ===== src/Room/Admission.antt =====
-- Admission in queue-room.ts: `selectWaiting`, `admitSelected`, `admitAvailable`,
-- `admitFromBudget`, and `insertVisitor`.
pub mod Promotion
pub mod Fifo
pub mod Ahead
pub mod Capacity
use tide_guard.Base.{
  ℕ, zero, suc, ◌+◌, ◌*◌, min, Bool, true, false, ◌&&◌, ◌||◌, not, Option, none, some, List, [],
  ◌∷◌, ◌++◌, map, String, str_eq, ltb, leb, ◌==◌, if◌then◌else◌, filter, take, length, sort_by,
}
use tide_guard.Engine.{
  AdmissionMode, queue, lottery, open_slots, admissions_for_tick, queue_alarm_interval_ms,
}
use tide_guard.Config.{QueueConfig}
use tide_guard.Room.{Room, VisitorRow, Status, Counts, waiting, admitted, is_waiting}
use tide_guard.Room.Table.{select_visitor, waits}
use tide_guard.Room.Depth.{depth, bump_depth, count_waiting, count_admitted, clear_ahead}
use tide_guard.Room.Settings.{
  admission_mode, effective_config, can_admit, effective_admit_per_second, set_meta,
}
use tide_guard.Room.Traffic.{record_traffic, Delta}
use tide_guard.Room.Waiters.{update_waiting}

-- What the runtime decides: the k-th `Math.floor(Math.random() * n)` of an operation, SQLite's
-- `ORDER BY RANDOM()`, and the double nearest to a sum.
pub record Random : Type 0 where
  pub pick : ℕ → ℕ → ℕ
  pub shuffle : List String → List String
  pub round : ℕ → ℕ

-- The waiting rows, `ORDER BY sequence ASC`.
unfoldable pub waiting_line : List VisitorRow → List VisitorRow
waiting_line vs = sort_by (λ v. v.sequence) (filter waits vs)

abbrev pub ids_of : List VisitorRow → List String
ids_of = map λ v. v.id

pub has_offset : ℕ → List ℕ → Bool
has_offset n [] = false
has_offset n (m ∷ ms) = m == n || has_offset n ms

-- `Set.add`, in order of insertion.
abbrev pub add_offset : ℕ → List ℕ → List ℕ
add_offset n offsets = if has_offset n offsets then offsets else offsets ++ n ∷ []

-- The rounds left are `take * 8 - guard`.
unfoldable pub draw_offsets : Random → ℕ → ℕ → ℕ → ℕ → List ℕ → List ℕ
unfolding has_offset
draw_offsets rnd wanted total zero guard offsets = offsets
draw_offsets rnd wanted total (suc rounds) guard offsets =
    let rest =
      draw_offsets rnd wanted total rounds (guard + 1)
        (add_offset (rnd.pick guard total) offsets) in
    if ltb (length offsets) wanted then rest else offsets

pub has_id : String → List String → Bool
has_id id [] = false
has_id id (i ∷ is) = str_eq i id || has_id id is

-- `LIMIT 1 OFFSET n`.
pub row_at : ℕ → List String → Option String
row_at n [] = none
row_at zero (id ∷ ids) = some id
row_at (suc n) (id ∷ ids) = row_at n ids

abbrev pub add_id : Option String → List String → List String
add_id none ids = ids
add_id (some id) ids = if has_id id ids then ids else ids ++ id ∷ []

unfoldable pub rows_at : List ℕ → List String → List String → List String
unfolding has_id row_at
rows_at [] line ids = ids
rows_at (n ∷ ns) line ids = rows_at ns line (add_id (row_at n line) ids)

unfoldable pub select_waiting_lottery : Random → ℕ → Room → List String
unfolding draw_offsets rows_at
select_waiting_lottery rnd limit r =
    let total = count_waiting r in
    let wanted = min limit total in
    let line = ids_of (waiting_line r.visitors) in
    if leb wanted 0
    then []
    else (if ltb 32 wanted
        then take wanted (rnd.shuffle line)
        else (if wanted == total
            then take wanted line
            else rows_at (draw_offsets rnd wanted total (wanted * 8) 0 []) line []))

abbrev pub select_by_mode : AdmissionMode → Random → ℕ → Room → List String
select_by_mode lottery rnd limit r = select_waiting_lottery rnd limit r
select_by_mode queue rnd limit r = take limit (ids_of (waiting_line r.visitors))

unfoldable pub select_waiting : Random → ℕ → QueueConfig → Room → List String
select_waiting rnd limit config r =
    if leb limit 0 then [] else select_by_mode (admission_mode r config) rnd limit r

abbrev pub promote : ℕ → Bool → VisitorRow → VisitorRow
promote now entered v = record v {
  status = admitted;
  admitted_at = some now;
  last_heartbeat_at = now;
  entered = entered;
  next_check_at = none;
}

abbrev pub is_some_waiting : Option VisitorRow → Bool
is_some_waiting none = false
is_some_waiting (some v) = is_waiting v.status

-- Whether `UPDATE … WHERE id = ? AND status = 'waiting'` writes a row; ids are unique.
abbrev pub is_waiting_id : String → List VisitorRow → Bool
is_waiting_id id vs = is_some_waiting (select_visitor id vs)

-- The loop of `admitSelected`: the ids whose row was written, and the table.
unfoldable pub promote_all :
    ℕ → Bool → List String → List VisitorRow → List String × List VisitorRow
promote_all now entered [] vs = ([], vs)
promote_all now entered (id ∷ ids) vs =
    let written = is_waiting_id id vs in
    let (admitted_ids, vs') =
      promote_all now entered ids (update_waiting id (promote now entered) vs) in
    ((if written then id ∷ admitted_ids else admitted_ids), vs')

-- The tail of `admitSelected`, once `n` rows were written.
unfoldable pub after_promotion : ℕ → QueueConfig → ℕ → Room → Room
after_promotion n config now r =
    if ltb 0 n
    then record_traffic now config (record { joins = 0; admits = n })
        (clear_ahead (
          bump_depth r (record { waiting = 0; admitted = n })
            (record { waiting = n; admitted = 0 })))
    else r

-- The counts are read before the promotions; `bumpDepth` reads the cached ones.
unfoldable pub admit_selected : List String → QueueConfig → ℕ → Room → Room × List String
admit_selected rows config now r =
    let entered = not (effective_config r config).require_click_to_enter in
    let (ids, vs) = promote_all now entered rows r.visitors in
    (
      after_promotion (length ids) config now (record r { visitors = vs; depth = some (depth r) }),
      ids,
    )

unfoldable pub admit_up_to : Random → ℕ → QueueConfig → ℕ → Room → Room × List String
admit_up_to rnd limit config now r =
    let room_for = min (open_slots config.max_concurrent_users (count_admitted r)) limit in
    if leb room_for 0
    then (r, [])
    else admit_selected (select_waiting rnd room_for config r) config now r

unfoldable pub admit_available : Random → QueueConfig → ℕ → Room → Room
admit_available rnd config now r =
    if not (can_admit r now)
    then r
    else (let slots = open_slots config.max_concurrent_users (count_admitted r) in
        if leb slots 0
        then r
        else (admit_selected (select_waiting rnd slots config r) config now r).0)

unfoldable pub admit_from_budget : Random → QueueConfig → ℕ → Room → Room
admit_from_budget rnd config now r =
    let rate = effective_admit_per_second r config now in
    let tick = admissions_for_tick rnd.round rate queue_alarm_interval_ms r.meta.admit_remainder in
    let ticked = set_meta r (record (r.meta) { admit_remainder = tick.next_remainder }) in
    if not (can_admit r now) || leb rate 0
    then r
    else (if leb tick.admit_count 0
        then ticked
        else (admit_up_to rnd tick.admit_count config now ticked).0)

-- The argument of `insertVisitor`, without the sequence number.
pub record NewVisitor : Type 0 where
  pub id : String
  pub status : Status
  pub joined_at : ℕ
  pub admitted_at : Option ℕ
  pub entered : Bool
  pub next_check_at : Option ℕ

abbrev pub row_of : NewVisitor → ℕ → VisitorRow
row_of n sequence = record {
  id = n.id;
  status = n.status;
  joined_at = n.joined_at;
  last_heartbeat_at = n.joined_at;
  admitted_at = n.admitted_at;
  sequence = sequence;
  entered = n.entered;
  next_check_at = n.next_check_at;
}

abbrev pub take_sequence : Room → Room
take_sequence r = set_meta r (record (r.meta) { next_sequence = r.meta.next_sequence + 1 })

abbrev pub is_some_row : Option VisitorRow → Bool
is_some_row none = false
is_some_row (some v) = true

abbrev pub one_more : Status → Counts
one_more waiting = record { waiting = 1; admitted = 0 }
one_more _ = record { waiting = 0; admitted = 1 }

abbrev pub no_change : Counts
no_change = record { waiting = 0; admitted = 0 }

-- `id` is the primary key: an insert of an id that has a row throws, the sequence number spent.
unfoldable pub insert_visitor : NewVisitor → Room → Room × Bool
insert_visitor n r =
    let taken = take_sequence r in
    if is_some_row (select_visitor n.id r.visitors) then (taken, false) else (
      bump_depth
          (record taken {
            visitors = r.visitors ++ row_of n r.meta.next_sequence ∷ [];
            depth = some (depth r);
          })
          (one_more n.status) no_change,
      true,
    )
