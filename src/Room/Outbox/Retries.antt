-- ===== src/Room/Outbox/Retries.antt =====
-- The retry schedule of the webhook outbox.
use tide_guard.Base.{
  ℕ, ◌+◌, ◌≤◌, ◌<◌, ◌≡◌, inl, inr, sym, subst, ◌∙◌, String, Bool, List, [], ◌∷◌, ◌++◌, All, leb,
  ◌==◌, Bool-cases, Option-cases, arith,
}
use tide_guard.Room.{Room, OutboxRow, Delivery}
use tide_guard.Room.Alarm.{ensure_alarm}
use tide_guard.Room.Settings.{ensure_queue_name}
use tide_guard.Room.Outbox.{
  webhook_max_attempts, new_outbox_row, enqueue_webhook, delete_row, postpone, after_failure,
  process_row, process_rows, due_rows, process_webhook_outbox,
}

-- A row has been tried at least once and may still be tried.
abbrev pub IsOpen : OutboxRow → Type 0
IsOpen row = (1 ≤ row.attempts) × (row.attempts < webhook_max_attempts)

delete-Open : (id : ℕ) (rows : List OutboxRow) → All IsOpen rows → All IsOpen (delete_row id rows)
delete-Open id [] h = tt
delete-Open id (row ∷ rows) h = elim (Bool-cases (row.id == id)) [
  | inl e ↦ rw e (delete-Open id rows h.1)
  | inr e ↦ rw e (h.0, delete-Open id rows h.1)
]

postpone-Open :
    (id n at : ℕ) (rows : List OutboxRow)
    → 1 ≤ n
    → n < webhook_max_attempts
    → All IsOpen rows
    → All IsOpen (postpone id n at rows)
postpone-Open id n at [] lo hi h = tt
postpone-Open id n at (row ∷ rows) lo hi h = elim (Bool-cases (row.id == id)) [
  | inl e ↦ rw e ((lo, hi), postpone-Open id n at rows lo hi h.1)
  | inr e ↦ rw e (h.0, postpone-Open id n at rows lo hi h.1)
]

process_row-Open :
    (delivered : ℕ → Bool) (now : ℕ) (row : OutboxRow) (rows : List OutboxRow)
    → All IsOpen rows
    → All IsOpen (process_row delivered now row rows)
unfolding process_row after_failure
process_row-Open delivered now row rows h = elim (Option-cases row.detail) [
  | inl e ↦ rw (e, process_row) (delete-Open row.id rows h)
  | inr (d, e) ↦ elim (Bool-cases (delivered row.id)) [
    | inl ok ↦ rw (e, process_row, ok) (delete-Open row.id rows h)
    | inr bad ↦ elim (Bool-cases (leb webhook_max_attempts (row.attempts + 1))) [
      | inl last ↦ rw (e, process_row, bad, last) (delete-Open row.id rows h)
      | inr more ↦
          rw (e, process_row, bad, more)
            (postpone-Open row.id (row.attempts + 1) _ rows (omega arith) (ground arith) h)
    ]
  ]
]

process_rows-Open :
    (delivered : ℕ → Bool) (now : ℕ) (due rows : List OutboxRow)
    → All IsOpen rows
    → All IsOpen (process_rows delivered now due rows)
unfolding process_rows
process_rows-Open delivered now [] rows h = h
process_rows-Open delivered now (row ∷ due) rows h =
    process_rows-Open delivered now due _ (process_row-Open delivered now row rows h)

append-Open :
    (rows : List OutboxRow) (row : OutboxRow)
    → All IsOpen rows
    → IsOpen row
    → All IsOpen (rows ++ row ∷ [])
append-Open [] row h o = (o, tt)
append-Open (r ∷ rows) row h o = (h.0, append-Open rows row h.1 o)

pub alarm-outbox : (clock : ℕ) (r : Room) → (ensure_alarm clock r).outbox ≡ r.outbox
unfolding ensure_alarm
alarm-outbox clock r = ground arith

-- What `enqueueWebhook` stores before it schedules the alarm.
abbrev pub named_with : String → OutboxRow → Room → Room
named_with queue row r =
    let named = ensure_queue_name queue r in
    record named { outbox = named.outbox ++ row ∷ []; last_outbox_id = named.last_outbox_id + 1 }

new_row-Open : (id : ℕ) (delivery : Delivery) (now : ℕ) → IsOpen (new_outbox_row id delivery now)
unfolding new_outbox_row
new_row-Open id delivery now = (omega arith, omega arith)

pub named_with-outbox :
    (queue : String) (row : OutboxRow) (r : Room)
    → (named_with queue row r).outbox ≡ r.outbox ++ row ∷ []
named_with-outbox queue row r = ground arith

-- A room that takes a delivery or works through its outbox, whatever the network answers, keeps
-- every row of the outbox at 1 to 7 attempts: the eighth is the last.
pub outbox-Open :
    (r : Room)
    → All IsOpen r.outbox
    → ((delivered : ℕ → Bool) (now : ℕ)
        → All IsOpen (process_webhook_outbox delivered now r).outbox)
      × ((delivery : Delivery) (now : ℕ) → All IsOpen (enqueue_webhook delivery now r).outbox)
unfolding process_webhook_outbox enqueue_webhook
outbox-Open r h = (
  λ delivered now. process_rows-Open delivered now (due_rows now r.outbox) r.outbox h,
  λ delivery now.
      let row =
        new_outbox_row ((ensure_queue_name delivery.queue r).last_outbox_id + 1) delivery now in
      let stored = named_with delivery.queue row r in
      subst (All IsOpen) (sym (alarm-outbox now stored ∙ named_with-outbox delivery.queue row r))
        (append-Open r.outbox row h (new_row-Open _ delivery now)),
)
