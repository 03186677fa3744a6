-- ===== src/Room/Outbox/Turns.antt =====
-- A run of `processWebhookOutbox` against a description by position.
use tide_guard.Base.{
  ℕ, zero, suc, ◌+◌, ◌<◌, ◌≡◌, inl, inr, refl, ap, ◌∙◌, Bool, true, false, none, some, List, [],
  ◌∷◌, ◌++◌, filter, take, sort_by, insert_by, leb, ◌==◌, if◌then◌else◌, All, Bool-cases,
  Option-cases, arith,
}
use tide_guard.Room.{Room, OutboxRow}
use tide_guard.Room.Outbox.{
  webhook_max_attempts, retry_delay, delete_row, postpone, after_failure, process_row, process_rows,
  due_rows, process_webhook_outbox,
}

-- What is left of a row after it was tried: nothing where its text was no delivery, where the POST
-- was answered, and where it was the last attempt; otherwise the row, postponed.
unfoldable pub after_attempt : (ℕ → Bool) → ℕ → OutboxRow → List OutboxRow
after_attempt delivered now row =
    let attempts = row.attempts + 1 in
    let later : OutboxRow = record row {
      attempts = attempts;
      next_attempt_at = now + retry_delay attempts;
    } in
    elim (row.detail) [
      | none ↦ []
      | some delivery ↦
          if delivered row.id
          then []
          else (if leb webhook_max_attempts attempts then [] else later ∷ [])
    ]

-- Going down the table, the first n rows that are due are tried; no other row changes.
unfoldable pub try_first : (ℕ → Bool) → ℕ → ℕ → List OutboxRow → List OutboxRow
try_first delivered now n [] = []
try_first delivered now zero (row ∷ rows) = row ∷ rows
try_first delivered now (suc n) (row ∷ rows) =
    let tried = after_attempt delivered now row ++ try_first delivered now n rows in
    let skipped = row ∷ try_first delivered now (suc n) rows in
    if leb row.next_attempt_at now then tried else skipped

-- The ids rise down the table, as those of an AUTOINCREMENT key do.
abbrev pub Rising : List OutboxRow → Type 0
Rising [] = Unit {0}
Rising (row ∷ rows) = All (λ w. row.id < w.id) rows × Rising rows

abbrev pub Later : ℕ → List OutboxRow → Type 0
Later id = All λ w. id < w.id

abbrev pub is_due : ℕ → OutboxRow → Bool
is_due now row = leb row.next_attempt_at now

delete-Later : (id : ℕ) (rows : List OutboxRow) → Later id rows → delete_row id rows ≡ rows
delete-Later id [] h = refl
delete-Later id (w ∷ rows) h =
    let other : (w.id == id) ≡ false = ground arith in
    rw other (ap (λ (l : List OutboxRow). w ∷ l) (delete-Later id rows h.1))

postpone-Later :
    (id n at : ℕ) (rows : List OutboxRow) → Later id rows → postpone id n at rows ≡ rows
postpone-Later id n at [] h = refl
postpone-Later id n at (w ∷ rows) h =
    let other : (w.id == id) ≡ false = ground arith in
    rw other (ap (λ (l : List OutboxRow). w ∷ l) (postpone-Later id n at rows h.1))

module _ (delivered : ℕ → Bool) (now : ℕ) where
  abbrev postponed : OutboxRow → OutboxRow
  postponed v = record v {
    attempts = v.attempts + 1;
    next_attempt_at = now + retry_delay (v.attempts + 1);
  }

  process_row-head :
      (v : OutboxRow) (rows : List OutboxRow)
      → Later v.id rows
      → process_row delivered now v (v ∷ rows) ≡ after_attempt delivered now v ++ rows
  unfolding process_row after_failure after_attempt
  process_row-head v rows h =
      let itself : (v.id == v.id) ≡ true = ground arith in
      let gone = delete-Later v.id rows h in
      elim (Option-cases v.detail) [
        | inl e ↦ rw (e, process_row, after_attempt, itself) gone
        | inr (d, e) ↦ elim (Bool-cases (delivered v.id)) [
          | inl ok ↦ rw (e, process_row, after_attempt, ok, itself) gone
          | inr bad ↦ elim (Bool-cases (leb webhook_max_attempts (v.attempts + 1))) [
            | inl last ↦ rw (e, process_row, after_attempt, bad, last, itself) gone
            | inr more ↦
                rw (e, process_row, after_attempt, bad, more, itself)
                  (ap (λ (l : List OutboxRow). postponed v ∷ l)
                    (postpone-Later v.id (v.attempts + 1) (now + retry_delay (v.attempts + 1)) rows
                      h))
          ]
        ]
      ]

  process_row-cons :
      (d v : OutboxRow) (rows : List OutboxRow)
      → v.id < d.id
      → process_row delivered now d (v ∷ rows) ≡ v ∷ process_row delivered now d rows
  unfolding process_row after_failure
  process_row-cons d v rows h =
      let other : (v.id == d.id) ≡ false = ground arith in
      elim (Option-cases d.detail) [
        | inl e ↦ rw (e, process_row, other) refl
        | inr (m, e) ↦ elim (Bool-cases (delivered d.id)) [
          | inl ok ↦ rw (e, process_row, ok, other) refl
          | inr bad ↦ elim (Bool-cases (leb webhook_max_attempts (d.attempts + 1))) [
            | inl last ↦ rw (e, process_row, bad, last, other) refl
            | inr more ↦ rw (e, process_row, bad, more, other) refl
          ]
        ]
      ]

  process_rows-cons :
      (due : List OutboxRow) (v : OutboxRow) (rows : List OutboxRow)
      → Later v.id due
      → process_rows delivered now due (v ∷ rows) ≡ v ∷ process_rows delivered now due rows
  unfolding process_rows
  process_rows-cons [] v rows h = refl
  process_rows-cons (d ∷ due) v rows h =
      rw (process_row-cons d v rows h.0)
        (process_rows-cons due v (process_row delivered now d rows) h.1)

  -- The rows that are left of the first one are out of the way of the others.
  process_rows-past :
      (due : List OutboxRow) (v : OutboxRow) (rows : List OutboxRow)
      → Later v.id due
      → process_rows delivered now due (after_attempt delivered now v ++ rows)
        ≡ after_attempt delivered now v ++ process_rows delivered now due rows
  unfolding after_attempt
  process_rows-past due v rows h = elim (Option-cases v.detail) [
    | inl e ↦ rw (e, after_attempt) refl
    | inr (d, e) ↦ elim (Bool-cases (delivered v.id)) [
      | inl ok ↦ rw (e, after_attempt, ok) refl
      | inr bad ↦ elim (Bool-cases (leb webhook_max_attempts (v.attempts + 1))) [
        | inl last ↦ rw (e, after_attempt, bad, last) refl
        | inr more ↦ rw (e, after_attempt, bad, more) (process_rows-cons due (postponed v) rows h)
      ]
    ]
  ]

  abbrev front : ℕ → List OutboxRow → List OutboxRow
  front n rows = take n (filter (is_due now) rows)

  front-Later : (id n : ℕ) (rows : List OutboxRow) → Later id rows → Later id (front n rows)
  front-Later id zero rows h = tt
  front-Later id (suc n) [] h = tt
  front-Later id (suc n) (w ∷ rows) h = elim (Bool-cases (is_due now w)) [
    | inl e ↦ rw e (h.0, front-Later id n rows h.1)
    | inr e ↦ rw e (front-Later id (suc n) rows h.1)
  ]

  process_rows-front :
      (n : ℕ) (rows : List OutboxRow)
      → Rising rows
      → process_rows delivered now (front n rows) rows ≡ try_first delivered now n rows
  unfolding process_rows try_first
  process_rows-front zero [] k = refl
  process_rows-front zero (v ∷ rows) k = refl
  process_rows-front (suc n) [] k = refl
  process_rows-front (suc n) (v ∷ rows) k = elim (Bool-cases (is_due now v)) [
    | inl e ↦
        rw (e, process_row-head v rows k.0)
          (process_rows-past (front n rows) v rows (front-Later v.id n rows k.0)
            ∙ ap (λ (l : List OutboxRow). after_attempt delivered now v ++ l)
                (process_rows-front n rows k.1))
    | inr e ↦ rw e (
        process_rows-cons (front (suc n) rows) v rows (front-Later v.id (suc n) rows k.0)
        ∙ ap (λ (l : List OutboxRow). v ∷ l) (process_rows-front (suc n) rows k.1))
  ]

insert-first :
    (v : OutboxRow) (rows : List OutboxRow)
    → Later v.id rows
    → insert_by (λ row. row.id) v rows ≡ v ∷ rows
unfolding insert_by
insert-first v [] h = refl
insert-first v (w ∷ rows) h = ground arith

filter-Later :
    (now id : ℕ) (rows : List OutboxRow) → Later id rows → Later id (filter (is_due now) rows)
filter-Later now id [] h = tt
filter-Later now id (w ∷ rows) h = elim (Bool-cases (is_due now w)) [
  | inl e ↦ rw e (h.0, filter-Later now id rows h.1)
  | inr e ↦ rw e (filter-Later now id rows h.1)
]

sorted_due :
    (now : ℕ) (rows : List OutboxRow)
    → Rising rows
    → sort_by (λ row. row.id) (filter (is_due now) rows) ≡ filter (is_due now) rows
unfolding sort_by
sorted_due now [] k = refl
sorted_due now (v ∷ rows) k = elim (Bool-cases (is_due now v)) [
  | inl e ↦
      rw (e, sorted_due now rows k.1)
        (insert-first v (filter (is_due now) rows) (filter-Later now v.id rows k.0))
  | inr e ↦ rw e (sorted_due now rows k.1)
]

-- Where the ids of the outbox rise down the table, a run of the outbox, whatever the network
-- answers, tries exactly the first ten rows that are due, in the order of their ids: each of these
-- leaves the table when it was answered, when its text was no delivery or when it was the last
-- attempt, and is otherwise put off with one attempt more. No other row changes.
pub process_webhook_outbox-turns :
    (delivered : ℕ → Bool) (now : ℕ) (r : Room)
    → Rising r.outbox
    → (process_webhook_outbox delivered now r).outbox ≡ try_first delivered now 10 r.outbox
unfolding process_webhook_outbox due_rows
process_webhook_outbox-turns delivered now r k =
    rw (sorted_due now r.outbox k) (process_rows-front delivered now 10 r.outbox k)
