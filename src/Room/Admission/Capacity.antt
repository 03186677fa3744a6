-- ===== src/Room/Admission/Capacity.antt =====
-- The number of admitted visitors under the admissions of queue-room.ts, in either mode.
use tide_guard.Base.{
  ◌&&◌, count, true, ℕ, zero, suc, min, max, ◌+◌, ◌*◌, ◌≤◌, inl, inr, refl, Bool, not, ◌||◌, some,
  List, [], ◌∷◌, ◌++◌, String, leb, take, length, length-append, length-take, Bool-cases,
  Option-cases, arith,
}
use tide_guard.Engine.{
  queue, lottery, AdmissionMode, open_slots, admissions_for_tick, queue_alarm_interval_ms,
}
use tide_guard.Config.{QueueConfig}
use tide_guard.Room.{Room, VisitorRow}
use tide_guard.Room.Table.{holds_slot, count_admitted_rows}
use tide_guard.Room.Depth.{depth, count_admitted, count_waiting}
use tide_guard.Room.Waiters.{update_waiting}
use tide_guard.Room.Settings.{
  set_meta, admission_mode, effective_config, can_admit, effective_admit_per_second,
}
use tide_guard.Room.Admission.{
  Random, promote, is_waiting_id, promote_all, waiting_line, ids_of, has_id, add_id, row_at,
  rows_at, add_offset, draw_offsets, select_waiting, select_waiting_lottery, select_by_mode,
  admit_up_to, admit_selected, admit_available, admit_from_budget,
}
use tide_guard.Room.Admission.Promotion.{promote_all-counts}
use tide_guard.Room.Admission.Fifo.{after_promotion-visitors}
use tide_guard.Room.Coherence.{Coherent, of_core}
use tide_guard.Room.Coherence.Primitives.{depth-Exact}

take-le : (n : ℕ) (ids : List String) → length (take n ids) ≤ n
take-le n ids = omega (arith, length-take n ids)

rows_at-le :
    (offsets : List ℕ) (line ids : List String)
    → length (rows_at offsets line ids) ≤ length ids + length offsets
unfolding rows_at
rows_at-le [] line ids = omega arith
rows_at-le (n ∷ ns) line ids = elim (Option-cases (row_at n line)) [
  | inl e ↦ rw (e, add_id) (omega (arith, rows_at-le ns line ids))
  | inr (id, e) ↦ elim (Bool-cases (has_id id ids)) [
    | inl old ↦ rw (e, add_id, old) (omega (arith, rows_at-le ns line ids))
    | inr new ↦
        rw (e, add_id, new)
          (omega (arith, rows_at-le ns line (ids ++ id ∷ []), length-append ids (id ∷ [])))
  ]
]

draw_offsets-le :
    (rnd : Random) (wanted total rounds guard : ℕ) (offsets : List ℕ)
    → length offsets ≤ wanted
    → length (draw_offsets rnd wanted total rounds guard offsets) ≤ wanted
unfolding draw_offsets
draw_offsets-le rnd wanted total zero guard offsets h = h
draw_offsets-le rnd wanted total (suc rounds) guard offsets h =
    let next = add_offset (rnd.pick guard total) offsets in
    ground (
      arith,
      length-append offsets (rnd.pick guard total ∷ []),
      draw_offsets-le rnd wanted total rounds (guard + 1) next,
    )

lottery-le :
    (rnd : Random) (limit : ℕ) (r : Room) → length (select_waiting_lottery rnd limit r) ≤ limit
unfolding select_waiting_lottery
lottery-le rnd limit r =
    let total = count_waiting r in
    let wanted = min limit total in
    let line = ids_of (waiting_line r.visitors) in
    let offsets = draw_offsets rnd wanted total (wanted * 8) 0 [] in
    ground (
      arith,
      take-le wanted (rnd.shuffle line),
      take-le wanted line,
      rows_at-le offsets line [],
      draw_offsets-le rnd wanted total (wanted * 8) 0 [],
    )

by_mode-le :
    (mode : AdmissionMode) (rnd : Random) (limit : ℕ) (r : Room)
    → length (select_by_mode mode rnd limit r) ≤ limit
by_mode-le lottery rnd limit r = lottery-le rnd limit r
by_mode-le queue rnd limit r = take-le limit _

select-le :
    (rnd : Random) (limit : ℕ) (config : QueueConfig) (r : Room)
    → length (select_waiting rnd limit config r) ≤ limit
unfolding select_waiting
select-le rnd limit config r = ground (arith, by_mode-le (admission_mode r config) rnd limit r)

promoted-le :
    (now : ℕ) (entered : Bool) (ids : List String) (vs : List VisitorRow)
    → length (promote_all now entered ids vs).0 ≤ length ids
unfolding promote_all
promoted-le now entered [] vs = omega arith
promoted-le now entered (id ∷ ids) vs =
    let rest = promoted-le now entered ids (update_waiting id (promote now entered) vs) in
    elim (Bool-cases (is_waiting_id id vs)) [
      | inl e ↦ rw e (omega (arith, rest))
      | inr e ↦ rw e (omega (arith, rest))
    ]

-- The rows of admitted visitors whose ids pass a test.
abbrev pub held_rows : (String → Bool) → List VisitorRow → ℕ
held_rows p = count λ v. p v.id && holds_slot v

abbrev pub held : (String → Bool) → Room → ℕ
held p r = held_rows p r.visitors

abbrev pub any_id : String → Bool
any_id id = true

abbrev pub occupied : Room → ℕ
occupied r = count_admitted_rows r.visitors

admit_selected-le :
    (ids : List String) (config : QueueConfig) (now : ℕ) (r : Room)
    → Coherent r
    → occupied (admit_selected ids config now r).0 ≤ occupied r + length ids
unfolding admit_selected
admit_selected-le ids config now r c =
    let entered = not (effective_config r config).require_click_to_enter in
    let p = promote_all now entered ids r.visitors in
    rw
      (after_promotion-visitors (length p.0) config now
        (record r { visitors = p.1; depth = some (depth r) }))
      (omega (
        arith,
        promote_all-counts now entered ids r.visitors c.keyed,
        promoted-le now entered ids r.visitors,
      ))

-- Filling up to `limit` slots of a coherent room, in either mode and whatever the randomness,
-- admits at most `limit` visitors and never more than the slots that are open.
pub admit_up_to-capacity :
    (rnd : Random) (limit : ℕ) (config : QueueConfig) (now : ℕ) (r : Room)
    → Coherent r
    → (occupied (admit_up_to rnd limit config now r).0
        ≤ max config.max_concurrent_users (occupied r))
      × (occupied (admit_up_to rnd limit config now r).0 ≤ occupied r + limit)
unfolding admit_up_to
admit_up_to-capacity rnd limit config now r c =
    let (dw, da) = depth-Exact r c in
    let n = min (open_slots config.max_concurrent_users (count_admitted r)) limit in
    elim (Bool-cases (leb n 0)) [
      | inl e ↦ rw e (omega arith, omega arith)
      | inr e ↦
          let grown = admit_selected-le (select_waiting rnd n config r) config now r c in
          let few = select-le rnd n config r in rw e (omega arith, omega arith)
    ]

pub admit_available-capacity :
    (rnd : Random) (config : QueueConfig) (now : ℕ) (r : Room)
    → Coherent r
    → occupied (admit_available rnd config now r) ≤ max config.max_concurrent_users (occupied r)
unfolding admit_available
admit_available-capacity rnd config now r c =
    let (dw, da) = depth-Exact r c in
    let n = open_slots config.max_concurrent_users (count_admitted r) in
    elim (Bool-cases (can_admit r now)) [
      | inr shut ↦ rw shut (omega arith)
      | inl may ↦ elim (Bool-cases (leb n 0)) [
        | inl e ↦ rw (may, e) (omega arith)
        | inr e ↦
            let grown = admit_selected-le (select_waiting rnd n config r) config now r c in
            let few = select-le rnd n config r in rw (may, e) (omega arith)
      ]
    ]

pub admit_from_budget-capacity :
    (rnd : Random) (config : QueueConfig) (now : ℕ) (r : Room)
    → Coherent r
    → occupied (admit_from_budget rnd config now r) ≤ max config.max_concurrent_users (occupied r)
unfolding admit_from_budget
admit_from_budget-capacity rnd config now r c =
    let rate = effective_admit_per_second r config now in
    let tick = admissions_for_tick rnd.round rate queue_alarm_interval_ms r.meta.admit_remainder in
    let ticked : Room = set_meta r (record (r.meta) { admit_remainder = tick.next_remainder }) in
    elim (Bool-cases (not (can_admit r now) || leb rate 0)) [
      | inl shut ↦ rw shut (omega arith)
      | inr may ↦ elim (Bool-cases (leb tick.admit_count 0)) [
        | inl e ↦ rw (may, e) (omega arith)
        | inr e ↦
            rw (may, e)
              (admit_up_to-capacity rnd tick.admit_count config now ticked (of_core refl c)).0
      ]
    ]
