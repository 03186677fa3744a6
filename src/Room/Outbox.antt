-- ===== src/Room/Outbox.antt =====
-- The webhook outbox of queue-room.ts.
pub mod Retries
pub mod Turns
use tide_guard.Base.{
  ℕ, zero, suc, length, ◌+◌, ◌-◌, min, Bool, not, Option, none, some, List, [], ◌∷◌, ◌++◌, leb,
  ◌==◌, if◌then◌else◌, filter, take, map, sort_by,
}
use tide_guard.Room.{Room, Delivery, OutboxRow}
use tide_guard.Room.Settings.{ensure_queue_name}
use tide_guard.Room.Alarm.{ensure_alarm}

abbrev pub webhook_retry_delays_ms : List ℕ
webhook_retry_delays_ms = 5_000 ∷ 15_000 ∷ 60_000 ∷ 300_000 ∷ 900_000 ∷ 3_600_000 ∷ 10_800_000 ∷ []

abbrev pub webhook_max_attempts : ℕ
webhook_max_attempts = 8

-- `delays[i]`, `none` where the index is out of range.
pub delay_at : ℕ → List ℕ → Option ℕ
delay_at n [] = none
delay_at zero (d ∷ ds) = some d
delay_at (suc n) (d ∷ ds) = delay_at n ds

abbrev pub delay_index : ℕ → ℕ
delay_index attempts = min (attempts - 1) (length webhook_retry_delays_ms - 1)

-- A delay that is `undefined` would make the attempt time NaN; the index never leaves the table.
abbrev pub delay_or_zero : Option ℕ → ℕ
delay_or_zero none = 0
delay_or_zero (some d) = d

unfoldable pub retry_delay : ℕ → ℕ
unfolding delay_at
retry_delay attempts = delay_or_zero (delay_at (delay_index attempts) webhook_retry_delays_ms)

unfoldable pub new_outbox_row : ℕ → Delivery → ℕ → OutboxRow
new_outbox_row id delivery now = record {
  id = id;
  event = delivery.event;
  queue = delivery.queue;
  detail = some delivery;
  attempts = 1;
  next_attempt_at = now + 5_000;
  created_at = now;
}

unfoldable pub enqueue_webhook : Delivery → ℕ → Room → Room
enqueue_webhook delivery now r =
    let named = ensure_queue_name delivery.queue r in
    let id = named.last_outbox_id + 1 in
    ensure_alarm now (record named {
      outbox = named.outbox ++ new_outbox_row id delivery now ∷ [];
      last_outbox_id = id;
    })

-- `DELETE … WHERE id = ?`.
abbrev pub delete_row : ℕ → List OutboxRow → List OutboxRow
delete_row id = filter λ row. not (row.id == id)

-- `UPDATE … SET attempts = ?, next_attempt_at = ? WHERE id = ?`.
abbrev pub postpone : ℕ → ℕ → ℕ → List OutboxRow → List OutboxRow
postpone id attempts at =
    map
      λ row. if row.id == id then record row { attempts = attempts; next_attempt_at = at } else row

unfoldable pub after_failure : ℕ → OutboxRow → List OutboxRow → List OutboxRow
after_failure now row rows =
    let attempts = row.attempts + 1 in
    if leb webhook_max_attempts attempts
    then delete_row row.id rows
    else postpone row.id attempts (now + retry_delay attempts) rows

-- One turn of the loop; `delivered` says of the row with an id, which a run tries at most once,
-- whether its POST is answered with a 2xx in time.
unfoldable pub process_row : (ℕ → Bool) → ℕ → OutboxRow → List OutboxRow → List OutboxRow
process_row delivered now row rows = elim (row.detail) [
  | none ↦ delete_row row.id rows
  | some delivery ↦ if delivered row.id then delete_row row.id rows else after_failure now row rows
]

unfoldable pub process_rows : (ℕ → Bool) → ℕ → List OutboxRow → List OutboxRow → List OutboxRow
process_rows delivered now [] rows = rows
process_rows delivered now (row ∷ due) rows =
    process_rows delivered now due (process_row delivered now row rows)

unfoldable pub due_rows : ℕ → List OutboxRow → List OutboxRow
due_rows now rows =
    take 10 (sort_by (λ row. row.id) (filter (λ row. leb row.next_attempt_at now) rows))

unfoldable pub process_webhook_outbox : (ℕ → Bool) → ℕ → Room → Room
process_webhook_outbox delivered now r = record r {
  outbox = process_rows delivered now (due_rows now r.outbox) r.outbox;
}
