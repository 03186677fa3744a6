-- ===== src/Room/Sweep.antt =====
-- `sweep` of queue-room.ts: expiry of waiting and admitted visitors, and the purge of old rows.
-- A cutoff `x <= now - d` is written `x + d <= now`.
pub mod Expiry
use tide_guard.Base.{
  ℕ, ◌+◌, ◌*◌, Bool, true, false, ◌&&◌, ◌||◌, not, Option, none, some, List, map, ltb, leb,
  if◌then◌else◌, filter, count,
}
use tide_guard.Engine.{check_in_period_seconds, missed_slot_grace_ms}
use tide_guard.Config.{QueueConfig}
use tide_guard.Room.{Room, VisitorRow, Status, expired, left, is_waiting, is_admitted}
use tide_guard.Room.Depth.{count_waiting, reconcile_depth}
use tide_guard.Room.Settings.{effective_config}

-- The check-in was missed by `grace` ms; rows without one go by the heartbeat.
abbrev pub missed : Option ℕ → ℕ → ℕ → ℕ → ℕ → Bool
missed (some t) last_heartbeat_at grace heartbeat now = leb (t + grace) now
missed none last_heartbeat_at grace heartbeat now = leb (last_heartbeat_at + heartbeat) now

abbrev pub since : Option ℕ → ℕ → ℕ → Bool
since none ttl now = false
since (some t) ttl now = leb (t + ttl) now

-- The three `WHERE` clauses, `config` the effective configuration and `grace` in ms.
unfoldable pub waiting_lapsed : QueueConfig → ℕ → ℕ → VisitorRow → Bool
waiting_lapsed config grace now v =
    is_waiting v.status
    && (leb (v.joined_at + config.queue_timeout_seconds * 1000) now
        || missed v.next_check_at v.last_heartbeat_at grace
            (config.heartbeat_timeout_seconds * 1000) now)

unfoldable pub hold_lapsed : QueueConfig → ℕ → VisitorRow → Bool
hold_lapsed config now v =
    is_admitted v.status
    && not v.entered
    && since v.admitted_at (config.admit_hold_seconds * 1000) now

unfoldable pub token_lapsed : QueueConfig → ℕ → VisitorRow → Bool
token_lapsed config now v =
    is_admitted v.status && v.entered && since v.admitted_at (config.token_ttl_seconds * 1000) now

-- `UPDATE visitors SET status = 'expired' WHERE p`.
abbrev pub expire_row : (VisitorRow → Bool) → VisitorRow → VisitorRow
expire_row p v = if p v then record v { status = expired } else v

unfoldable pub expire_where : (VisitorRow → Bool) → List VisitorRow → List VisitorRow
expire_where p = map (expire_row p)

abbrev pub is_terminal : Status → Bool
is_terminal left = true
is_terminal expired = true
is_terminal _ = false

abbrev pub is_purged : ℕ → VisitorRow → Bool
is_purged now v = is_terminal v.status && ltb (v.joined_at + 3_600_000) now

unfoldable pub purge : ℕ → List VisitorRow → List VisitorRow
purge now = filter λ v. not (is_purged now v)

-- The visitors after the updates and the purge, and whether `expired > 0`: `rowsWritten` counts
-- writes of indexes as well, and is above 0 exactly when a row matched.
unfoldable pub sweep_visitors : QueueConfig → ℕ → ℕ → List VisitorRow → List VisitorRow × Bool
sweep_visitors config grace now vs =
    let vs1 = expire_where (waiting_lapsed config grace now) vs in
    let vs2 = expire_where (hold_lapsed config now) vs1 in
    let vs3 = expire_where (token_lapsed config now) vs2 in
    (
      purge now vs3,
      ltb 0 (
          count (waiting_lapsed config grace now) vs
          + count (hold_lapsed config now) vs1
          + count (token_lapsed config now) vs2),
    )

abbrev pub sweep_grace_ms : Room → QueueConfig → ℕ
sweep_grace_ms r config =
    missed_slot_grace_ms (check_in_period_seconds (count_waiting r))
      (effective_config r config).missed_slot_grace_seconds

unfoldable pub run_sweep : QueueConfig → ℕ → Room → Room
run_sweep config now r =
    let (vs, some_expired) =
      sweep_visitors (effective_config r config) (sweep_grace_ms r config) now r.visitors in
    let swept = record r { visitors = vs; meta = record (r.meta) { last_sweep = now } } in
    if some_expired then reconcile_depth swept else swept

-- A sweep that is not forced runs at most once a second.
unfoldable pub sweep : QueueConfig → ℕ → Bool → Room → Room
sweep config now force r =
    if not force && ltb now (r.meta.last_sweep + 1_000) then r else run_sweep config now r
