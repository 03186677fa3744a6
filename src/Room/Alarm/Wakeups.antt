-- ===== src/Room/Alarm/Wakeups.antt =====
-- The alarm that `ensureAlarm` leaves.
use tide_guard.Base.{
  ℕ, ◌+◌, ◌≤◌, ◌≡◌, ◌↔◌, inl, inr, Bool, true, false, ◌&&◌, not, Option, none, some, List, [], ◌∷◌,
  All, ltb, leb, Option-cases, arith,
}
use tide_guard.Room.{Room, OutboxRow}
use tide_guard.Room.Depth.{count_waiting}
use tide_guard.Room.Settings.{can_admit}
use tide_guard.Room.Alarm.{
  next_webhook, has_queue_work, alarm_interval, next_alarm, set_alarm_at, is_none, ensure_alarm,
}

-- The alarm is set and rings by `t`.
abbrev pub rings_by : ℕ → Option ℕ → Bool
rings_by t none = false
rings_by t (some a) = leb a t

-- There is nothing that the room could be woken for.
abbrev pub is_idle : Room → ℕ → Bool
is_idle r clock = not (has_queue_work r clock) && is_none (next_webhook r.outbox)

none-rings :
    (rows : List OutboxRow) (a : Option ℕ)
    → next_webhook rows ≡ none
    → All (λ row. rings_by (row.next_attempt_at + 250) a ≡ true) rows
unfolding next_webhook
none-rings [] a e = tt
none-rings (row ∷ rows) a e = cc

webhook-rings :
    (rows : List OutboxRow) (w : ℕ) (a : Option ℕ)
    → next_webhook rows ≡ some w
    → rings_by (w + 250) a ≡ true
    → All (λ row. rings_by (row.next_attempt_at + 250) a ≡ true) rows
unfolding next_webhook
webhook-rings [] w a e h = tt
webhook-rings (row ∷ rows) w none e h = cc
webhook-rings (row ∷ rows) w (some a) e h = elim (Option-cases (next_webhook rows)) [
  | inl last ↦ (ground (arith, last), none-rings rows (some a) last)
  | inr (u, more) ↦
      (ground (arith, more), webhook-rings rows u (some a) more (ground (arith, more)))
]

-- After `ensureAlarm` there is no alarm exactly when no visitor is in the room, no health probe is
-- enabled and the webhook outbox is empty.
pub ensure_alarm-idle :
    (clock : ℕ) (r : Room)
    → (is_none (ensure_alarm clock r).alarm ≡ true) ↔ (is_idle r clock ≡ true)
unfolding ensure_alarm
ensure_alarm-idle clock r = (λ h. ground arith, λ h. ground arith)

interval-short :
    (clock : ℕ) (r : Room)
    → ltb 0 (count_waiting r) ≡ true
    → can_admit r clock ≡ true
    → alarm_interval r clock ≤ 1_000
unfolding alarm_interval
interval-short clock r some_wait may = rw (some_wait, may) (ground arith)

next-soon :
    (clock : ℕ) (r : Room) (w : Option ℕ)
    → has_queue_work r clock ≡ true
    → next_alarm r clock w ≤ clock + alarm_interval r clock
next-soon clock r none work = omega arith
next-soon clock r (some t) work = rw work (omega arith)

set-rings :
    (a : Option ℕ) (next clock : ℕ)
    → next ≤ clock + 1_000
    → rings_by (clock + 1_250) (some (set_alarm_at a next)) ≡ true
set-rings none next clock h = ground arith
set-rings (some t) next clock h = ground arith

-- While anyone waits and the room admits, `ensureAlarm` leaves an alarm that rings within one
-- interval of a second and a quarter from now.
pub ensure_alarm-admitting :
    (clock : ℕ) (r : Room)
    → ltb 0 (count_waiting r) ≡ true
    → can_admit r clock ≡ true
    → rings_by (clock + 1_250) (ensure_alarm clock r).alarm ≡ true
unfolding ensure_alarm
ensure_alarm-admitting clock r some_wait may =
    let work : has_queue_work r clock ≡ true = ground arith in
    let soon = next-soon clock r (next_webhook r.outbox) work in
    let short = interval-short clock r some_wait may in
    rw work (set-rings r.alarm (next_alarm r clock (next_webhook r.outbox)) clock (omega arith))

-- `ensureAlarm` leaves an alarm for every delivery in the outbox: it rings at most a quarter of a
-- second after the time of the next attempt.
pub ensure_alarm-deliveries :
    (clock : ℕ) (r : Room)
    → All (λ row. rings_by (row.next_attempt_at + 250) (ensure_alarm clock r).alarm ≡ true) r.outbox
unfolding ensure_alarm
ensure_alarm-deliveries clock r = elim (Option-cases (next_webhook r.outbox)) [
  | inl e ↦ none-rings r.outbox _ e
  | inr (w, e) ↦ webhook-rings r.outbox w _ e (ground (arith, e))
]
