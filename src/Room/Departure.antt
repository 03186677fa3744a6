-- ===== src/Room/Departure.antt =====
-- `leave` of queue-room.ts: a visitor goes, and the freed place is filled.
pub mod Leaving
use tide_guard.Base.{true, ◌&&◌, none, some, List, map, String, str_eq, if◌then◌else◌}
use tide_guard.Room.{Room, VisitorRow, Status, waiting, admitted, expired, left, Counts}
use tide_guard.Room.Table.{select_visitor}
use tide_guard.Room.Depth.{bump_depth, clear_ahead}
use tide_guard.Room.Admission.{Random, admit_available}
use tide_guard.Room.Alarm.{ensure_alarm}
use tide_guard.Room.Handlers.{Request, prologue, is_live}

pub data LeaveResult : Type 0 where
  has_left was_expired unknown : LeaveResult

-- `UPDATE visitors SET status = 'left' WHERE id = ? AND status IN ('waiting', 'admitted')`.
unfoldable pub set_left : String → List VisitorRow → List VisitorRow
set_left id = map λ v. if str_eq v.id id && is_live v.status then record v { status = left } else v

abbrev pub one_waiting : Counts
one_waiting = record { waiting = 1; admitted = 0 }

abbrev pub one_admitted : Counts
one_admitted = record { waiting = 0; admitted = 1 }

abbrev pub zero_counts : Counts
zero_counts = record { waiting = 0; admitted = 0 }

abbrev pub uncount : Status → Room → Room
uncount waiting r = clear_ahead (bump_depth r zero_counts one_waiting)
uncount admitted r = bump_depth r zero_counts one_admitted
uncount _ r = r

abbrev pub drop_visitor : Status → String → Room → Room
drop_visitor s id r =
    let counted = uncount s r in record counted { visitors = set_left id counted.visitors }

abbrev pub leave_as : Status → Random → Request → Room → Room × LeaveResult
leave_as expired rnd q r = (r, was_expired)
leave_as left rnd q r = (r, has_left)
leave_as s rnd q r = (
  ensure_alarm q.clock (admit_available rnd q.config q.now (drop_visitor s q.visitor_id r)),
  has_left,
)

unfoldable pub leave : Random → Request → Room → Room × LeaveResult
unfolding prologue set_left
leave rnd q r =
    let swept = prologue q true r in
    elim (select_visitor q.visitor_id swept.visitors) [
      | none ↦ (swept, unknown)
      | some v ↦ leave_as v.status rnd q swept
    ]
