-- ===== src/Room/View.antt =====
-- `toView` of queue-room.ts, `QueueRoomVisitorView` of src/queue/types.ts.
pub mod Positions
use tide_guard.Base.{
  ℕ, ◌+◌, ◌-◌, ◌*◌, max, Bool, true, false, ◌&&◌, not, Option, none, some, String, ltb,
  if◌then◌else◌, ceil_div,
}
use tide_guard.Engine.{AdmissionMode, min_check_in_period_sec}
use tide_guard.Eta.{estimate_wait_seconds, least_rate}
use tide_guard.Config.{QueueConfig}
use tide_guard.Room.{Room, VisitorRow, Status, CloseAction, is_waiting, is_admitted}
use tide_guard.Room.Depth.{count_waiting}
use tide_guard.Room.Settings.{
  RoomPhase, scheduled, open_phase, admission_mode, effective_config, get_opens_at, get_closes_at,
  room_phase, effective_admit_per_second,
}
use tide_guard.Room.Traffic.{recent_observed_admits}
use tide_guard.Room.Waiters.{Place, place_in_line, assign_check_in}

-- `lottery_odds` is the n of 1 / n.
pub record View : Type 0 where
  pub id : String
  pub status : Status
  pub joined_at : ℕ
  pub last_heartbeat_at : ℕ
  pub admitted_at : Option ℕ
  pub position : Option ℕ
  pub estimated_wait_seconds : ℕ
  pub admission_mode : AdmissionMode
  pub waiting : ℕ
  pub ahead : Option ℕ
  pub behind : Option ℕ
  pub lottery_odds : Option ℕ
  pub entered : Bool
  pub hold_seconds_remaining : Option ℕ
  pub show_waiting_count : Bool
  pub next_poll_after_ms : Option ℕ
  pub next_check_at : Option ℕ
  pub admission_open : Bool
  pub opens_at : Option ℕ
  pub closes_at : Option ℕ
  pub close_action : CloseAction
  pub room_phase : RoomPhase

-- What the branch `status === "waiting"` computes.
pub record Line : Type 0 where
  pub position : Option ℕ
  pub estimated : ℕ
  pub ahead : Option ℕ
  pub behind : Option ℕ
  pub odds : Option ℕ

abbrev pub no_line : Line
no_line = record { position = none; estimated = 0; ahead = none; behind = none; odds = none }

abbrev pub lottery_line : ℕ → (ℕ → ℕ) → Line
lottery_line total estimate = record {
  position = none;
  estimated = estimate total;
  ahead = none;
  behind = none;
  odds = if ltb 0 total then some total else none;
}

abbrev pub queue_line : ℕ → (ℕ → ℕ) → ℕ → Line
queue_line total estimate position = record {
  position = some position;
  estimated = estimate position;
  ahead = some (position - 1);
  behind = some (total - position);
  odds = none;
}

abbrev pub line_at : ℕ → (ℕ → ℕ) → Option ℕ → Line
line_at total estimate none = lottery_line total estimate
line_at total estimate (some position) = queue_line total estimate position

unfoldable pub waiting_line_of : Room → VisitorRow → QueueConfig → ℕ → Room × Line
waiting_line_of r v config now =
    let estimate : ℕ → ℕ = λ n.
      estimate_wait_seconds (recent_observed_admits now r) n
        (max (effective_admit_per_second r config now) least_rate) in
    let (r', position) = place_in_line r (admission_mode r config) v in
    (r', line_at (count_waiting r) estimate position)

unfoldable pub line_of : Room → VisitorRow → QueueConfig → ℕ → Room × Line
line_of r v config now =
    if is_waiting v.status then waiting_line_of r v config now else (r, no_line)

-- `Math.max(0, Math.ceil((admitted_at + hold - now) / 1000))`.
abbrev pub hold_left : Option ℕ → ℕ → ℕ → Option ℕ
hold_left none hold now = none
hold_left (some t) hold now = some (ceil_div (t + hold - now) 1000)

abbrev pub hold_seconds : VisitorRow → ℕ → ℕ → Option ℕ
hold_seconds v hold now =
    if is_admitted v.status && not v.entered then hold_left v.admitted_at hold now else none

abbrev pub or_assigned : Option ℕ → ℕ → ℕ
or_assigned none t = t
or_assigned (some n) t = n

unfoldable pub check_in_of : Room → VisitorRow → QueueConfig → ℕ → Line → Option ℕ
check_in_of r v config now line =
    let place : Place = record {
      position = line.position;
      estimated_wait_seconds = line.estimated;
    } in
    let t =
      assign_check_in r v.id (count_waiting r) config now place (min_check_in_period_sec * 1000) in
    if is_waiting v.status then some (or_assigned v.next_check_at t) else none

abbrev pub poll_after : Option ℕ → ℕ → Option ℕ
poll_after none now = none
poll_after (some t) now = some (t - now)

abbrev pub is_open : RoomPhase → Bool
is_open open_phase = true
is_open _ = false

abbrev pub shown_opens_at : RoomPhase → Option ℕ → Option ℕ
shown_opens_at scheduled t = t
shown_opens_at _ t = none

abbrev pub shown_closes_at : RoomPhase → Option ℕ → Option ℕ
shown_closes_at scheduled t = none
shown_closes_at _ t = t

unfoldable pub to_view : Room → VisitorRow → QueueConfig → ℕ → Room × View
to_view r v config now =
    let (r', line) = line_of r v config now in
    let check_in = check_in_of r v config now line in
    (
      r',
      record {
        id = v.id;
        status = v.status;
        joined_at = v.joined_at;
        last_heartbeat_at = v.last_heartbeat_at;
        admitted_at = v.admitted_at;
        position = line.position;
        estimated_wait_seconds = line.estimated;
        admission_mode = admission_mode r config;
        waiting = count_waiting r;
        ahead = line.ahead;
        behind = line.behind;
        lottery_odds = line.odds;
        entered = v.entered;
        hold_seconds_remaining =
            hold_seconds v ((effective_config r config).admit_hold_seconds * 1000) now;
        show_waiting_count = r.meta.show_waiting_count;
        next_poll_after_ms = poll_after check_in now;
        next_check_at = check_in;
        admission_open = is_open (room_phase r now);
        opens_at = shown_opens_at (room_phase r now) (get_opens_at r);
        closes_at = shown_closes_at (room_phase r now) (get_closes_at r);
        close_action = r.meta.close_action;
        room_phase = room_phase r now;
      },
    )
