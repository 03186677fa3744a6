-- ===== src/Room/Coherence/Changes.antt =====
-- The caches of a room under the insertion and the admission of visitors.
use tide_guard.Base.{
  ℕ, min, ◌+◌, ◌-◌, ◌≡◌, ◌⊎◌, inl, inr, refl, ◌∙◌, Bool, ◌||◌, not, some, List, [], ◌∷◌, ◌++◌,
  String, ltb, leb, if◌then◌else◌, count-append, length, Bool-cases, Option-cases, arith,
}
use tide_guard.Engine.{open_slots, admissions_for_tick, queue_alarm_interval_ms}
use tide_guard.Config.{QueueConfig}
use tide_guard.Room.{Room, VisitorRow, Counts, waiting, admitted, is_waiting, is_admitted}
use tide_guard.Room.Table.{
  select_visitor, count_waiting_rows, count_admitted_rows, waits, holds_slot,
}
use tide_guard.Room.Table.Rows.{Keyed, Fresh, Keyed-snoc, Fresh-snoc, Fresh-mono}
use tide_guard.Room.Depth.{depth, count_admitted, bump_depth, clear_ahead}
use tide_guard.Room.Settings.{can_admit, effective_admit_per_second}
use tide_guard.Room.Admission.{
  Random, NewVisitor, insert_visitor, promote_all, after_promotion, admit_selected, admit_up_to,
  admit_available, admit_from_budget, row_of, is_some_row,
}
use tide_guard.Room.Admission.Promotion.{
  promote_all-Keyed, promote_all-Fresh, promote_all-counts, promote_all-nil,
}
use tide_guard.Room.Coherence.{Coherent, of_core, CacheOk}
use tide_guard.Room.Coherence.Primitives.{depth-Exact, store-Coherent, CacheOk-snoc, CacheOk-next}
use tide_guard.Room.Coherence.Steps.{record-Coherent}

-- Bumping by exactly what the table changed by.
bump-Coherent :
    (r : Room) (plus minus : Counts)
    → (let d = depth r in
        ((d.waiting + plus.waiting - minus.waiting) ≡ count_waiting_rows r.visitors)
        × ((d.admitted + plus.admitted - minus.admitted) ≡ count_admitted_rows r.visitors))
    → CacheOk r.ahead_cache r.meta.next_sequence r.visitors
    → Keyed r.visitors
    → Fresh r.meta.next_sequence r.visitors
    → Coherent (bump_depth r plus minus)
unfolding bump_depth
bump-Coherent r plus minus e ok u f = store-Coherent r _ e ok u f

pub bump_clear-Coherent :
    (r : Room) (plus minus : Counts)
    → (let d = depth r in
        ((d.waiting + plus.waiting - minus.waiting) ≡ count_waiting_rows r.visitors)
        × ((d.admitted + plus.admitted - minus.admitted) ≡ count_admitted_rows r.visitors))
    → Keyed r.visitors
    → Fresh r.meta.next_sequence r.visitors
    → Coherent (clear_ahead (bump_depth r plus minus))
unfolding bump_depth
bump_clear-Coherent r plus minus e u f = record {
  depth_ok = e;
  stored_ok = e;
  cache_ok = tt;
  keyed = u;
  fresh = f;
}

count-snoc :
    (n : NewVisitor) (sequence : ℕ) (vs : List VisitorRow)
    → let vs' = vs ++ row_of n sequence ∷ [] in
      (count_waiting_rows vs' ≡ count_waiting_rows vs + (if is_waiting n.status then 1 else 0))
      × (count_admitted_rows vs' ≡ count_admitted_rows vs + (if is_admitted n.status then 1 else 0))
count-snoc n sequence vs = (
  count-append waits vs (row_of n sequence ∷ []) ∙ ground arith,
  count-append holds_slot vs (row_of n sequence ∷ []) ∙ ground arith,
)

-- An insert that finds the id taken changes nothing but the sequence number.
pub insert-Coherent :
    (n : NewVisitor) (r : Room)
    → (n.status ≡ waiting) ⊎ (n.status ≡ admitted)
    → Coherent r
    → Coherent (insert_visitor n r).0
unfolding insert_visitor depth
insert-Coherent n r s c =
    let (dw, da) = depth-Exact r c in
    elim (Option-cases (select_visitor n.id r.visitors)) [
      | inr (v, e) ↦
          rw (e, is_some_row)
            (record {
              depth_ok = c.depth_ok;
              stored_ok = c.stored_ok;
              cache_ok = CacheOk-next r.ahead_cache r.meta.next_sequence r.visitors c.cache_ok;
              keyed = c.keyed;
              fresh = Fresh-mono _ _ r.visitors (omega arith) c.fresh;
            })
      | inl e ↦
          let row = row_of n r.meta.next_sequence in
          rw (e, is_some_row)
            (bump-Coherent _ _ _
              (
                ground (arith, count-snoc n r.meta.next_sequence r.visitors),
                ground (arith, count-snoc n r.meta.next_sequence r.visitors),
              )
              (CacheOk-snoc r.ahead_cache row r.visitors c.cache_ok)
              (Keyed-snoc row r.visitors e c.fresh c.keyed)
              (Fresh-snoc _ row r.visitors (Fresh-mono _ _ r.visitors (omega arith) c.fresh)
                (omega arith)))
    ]

after-Coherent :
    (ids : List String) (config : QueueConfig) (now : ℕ) (entered : Bool) (r : Room)
    → Coherent r
    → let p = promote_all now entered ids r.visitors in
      Coherent (
        after_promotion
          (length p.0)
          config
          now
          (record r { visitors = p.1; depth = some (depth r) }))
unfolding after_promotion depth
after-Coherent ids config now entered r c =
    let p = promote_all now entered ids r.visitors in
    let (dw, da) = depth-Exact r c in
    let (pw, pa) = promote_all-counts now entered ids r.visitors c.keyed in
    elim (Bool-cases (ltb 0 (length p.0))) [
      | inl e ↦ rw e (
          record-Coherent _ _ _ _ (
            bump_clear-Coherent _ _ _ (omega arith, omega arith)
              (promote_all-Keyed now entered ids r.visitors c.keyed)
              (promote_all-Fresh _ now entered ids r.visitors c.fresh)))
      | inr e ↦
          let same : p.1 ≡ r.visitors =
            promote_all-nil now entered ids r.visitors c.keyed (ground arith) in
          rw (e, same)
            (record {
              depth_ok = (dw, da);
              stored_ok = c.stored_ok;
              cache_ok = c.cache_ok;
              keyed = c.keyed;
              fresh = c.fresh;
            })
    ]

pub admit_selected-Coherent :
    (ids : List String) (config : QueueConfig) (now : ℕ) (r : Room)
    → Coherent r
    → Coherent (admit_selected ids config now r).0
unfolding admit_selected
admit_selected-Coherent ids config now r c = after-Coherent ids config now _ r c

pub admit_up_to-Coherent :
    (rnd : Random) (limit : ℕ) (config : QueueConfig) (now : ℕ) (r : Room)
    → Coherent r
    → Coherent (admit_up_to rnd limit config now r).0
unfolding admit_up_to
admit_up_to-Coherent rnd limit config now r c =
    elim (Bool-cases
      (leb (min (open_slots config.max_concurrent_users (count_admitted r)) limit) 0)) [
        | inl e ↦ rw e c
        | inr e ↦ rw e (admit_selected-Coherent _ config now r c)
      ]

pub admit_available-Coherent :
    (rnd : Random) (config : QueueConfig) (now : ℕ) (r : Room)
    → Coherent r
    → Coherent (admit_available rnd config now r)
unfolding admit_available
admit_available-Coherent rnd config now r c = elim (Bool-cases (can_admit r now)) [
  | inr shut ↦ rw shut c
  | inl may ↦
      elim (Bool-cases (leb (open_slots config.max_concurrent_users (count_admitted r)) 0)) [
        | inl e ↦ rw (may, e) c
        | inr e ↦ rw (may, e) (admit_selected-Coherent _ config now r c)
      ]
]

pub admit_from_budget-Coherent :
    (rnd : Random) (config : QueueConfig) (now : ℕ) (r : Room)
    → Coherent r
    → Coherent (admit_from_budget rnd config now r)
unfolding admit_from_budget
admit_from_budget-Coherent rnd config now r c =
    elim (Bool-cases (not (can_admit r now) || leb (effective_admit_per_second r config now) 0)) [
      | inl shut ↦ rw shut c
      | inr may ↦
          elim (Bool-cases (
            leb
              (admissions_for_tick rnd.round (effective_admit_per_second r config now)
                queue_alarm_interval_ms r.meta.admit_remainder).admit_count
              0)) [
                | inl e ↦ rw (may, e) (of_core refl c)
                | inr e ↦ rw (may, e) (admit_up_to-Coherent rnd _ config now _ (of_core refl c))
              ]
    ]
