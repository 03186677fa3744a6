-- ===== src/Room/Handlers/Capacity.antt =====
-- The number of admitted visitors under a join.
use tide_guard.Base.{
  Bool, String, ℕ, max, ◌+◌, ◌≤◌, ◌≡◌, inl, inr, ap, true, ◌&&◌, [], ◌∷◌, ltb, leb, if◌then◌else◌,
  count-append, Bool-cases, Option-cases, arith,
}
use tide_guard.Engine.{open_slots}
use tide_guard.Room.{Room, VisitorRow, is_admitted}
use tide_guard.Room.Table.{select_visitor, holds_slot, count_admitted_rows}
use tide_guard.Room.Depth.{count_admitted, count_waiting, bump_depth}
use tide_guard.Room.Settings.{can_admit, max_waiting_visitors}
use tide_guard.Room.Traffic.{record_traffic}
use tide_guard.Room.Admission.{NewVisitor, insert_visitor, row_of}
use tide_guard.Room.Admission.Capacity.{occupied, held_rows, held, any_id}
use tide_guard.Room.Alarm.{ensure_alarm}
use tide_guard.Room.Handlers.{
  Request, prologue, view_of, join_as, join_new, join_swept, join, is_live, admitted_visitor,
  waiting_visitor, row_or,
}
use tide_guard.Room.Handlers.Occupancy.{prologue-occupied, alarm-visitors, view-visitors}
use tide_guard.Room.Coherence.{Coherent}
use tide_guard.Room.Coherence.Primitives.{depth-Exact}
use tide_guard.Room.Coherence.Steps.{record-core}
use tide_guard.Room.Coherence.Operations.{prologue-Coherent}

module _ (p : String → Bool) where
  pub alarm-occupied : (clock : ℕ) (r : Room) → held p (ensure_alarm clock r) ≡ held p r
  alarm-occupied clock r = ap (held_rows p) (alarm-visitors clock r)

  pub view_of-occupied :
      (r : Room) (v : VisitorRow) (q : Request) → held p (view_of r v q).0 ≡ held p r
  view_of-occupied r v q =
      ap (held_rows p)
        (view-visitors r (row_or (select_visitor q.visitor_id r.visitors) v) q.config q.now)

  insert-occupied :
      (n : NewVisitor) (r : Room)
      → held p (insert_visitor n r).0 ≤ held p r + (if is_admitted n.status then 1 else 0)
  unfolding insert_visitor bump_depth
  insert-occupied n r = ground (
    arith,
    count-append (λ v. p v.id && holds_slot v) r.visitors (row_of n r.meta.next_sequence ∷ []),
  )

  pub join_as-occupied :
      (q : Request) (n : NewVisitor) (admits : ℕ) (r : Room)
      → held p (join_as q n admits r).0 ≤ held p r + (if is_admitted n.status then 1 else 0)
  unfolding join_as
  join_as-occupied q n admits r =
      let inserted = (insert_visitor n r).0 in
      let counted =
        record_traffic q.now q.config (record { joins = 1; admits = admits }) inserted in
      let few = insert-occupied n r in
      elim (Bool-cases (insert_visitor n r).1) [
        | inl e ↦ rw e (
            omega (
              arith,
              few,
              view_of-occupied (ensure_alarm q.clock counted) (row_of n r.meta.next_sequence) q,
              alarm-occupied q.clock counted,
              ap (λ k. held_rows p k.visitors)
                  (record-core q.now q.config (record { joins = 1; admits = admits }) inserted),
            ))
        | inr e ↦ rw e few
      ]

join_new-occupied :
    (q : Request) (r : Room)
    → Coherent r
    → occupied (join_new q r).0 ≤ max q.config.max_concurrent_users (occupied r)
unfolding join_new
join_new-occupied q r c =
    let (dw, da) = depth-Exact r c in
    elim (Bool-cases
      (can_admit r q.now && ltb 0 (open_slots q.config.max_concurrent_users (count_admitted r)))) [
        | inl e ↦
            let slot : ltb 0 (open_slots q.config.max_concurrent_users (count_admitted r)) ≡ true =
              ground arith in
            let n = join_as-occupied any_id q (admitted_visitor q r) 1 r in rw e (ground arith)
        | inr e ↦ elim (Bool-cases (leb (max_waiting_visitors r) (count_waiting r))) [
          | inl full ↦ rw (e, full) (omega arith)
          | inr space ↦
              rw (e, space) (omega (arith, join_as-occupied any_id q (waiting_visitor q r) 0 r))
        ]
      ]

join_swept-occupied :
    (q : Request) (r : Room)
    → Coherent r
    → occupied (join_swept q r).0 ≤ max q.config.max_concurrent_users (occupied r)
unfolding join_swept
join_swept-occupied q r c = elim (Option-cases (select_visitor q.visitor_id r.visitors)) [
  | inl e ↦ rw (e, join_swept) (join_new-occupied q r c)
  | inr (v, e) ↦ elim (Bool-cases (is_live v.status)) [
    | inl live ↦
        rw (e, join_swept, live)
          (omega (
            arith,
            ap count_admitted_rows (view-visitors (ensure_alarm q.clock r) v q.config q.now),
            alarm-occupied any_id q.clock r,
          ))
    | inr gone ↦ rw (e, join_swept, gone) (join_new-occupied q r c)
  ]
]

pub join-capacity :
    (q : Request) (r : Room)
    → Coherent r
    → occupied (join q r).0 ≤ max q.config.max_concurrent_users (occupied r)
unfolding join
join-capacity q r c =
    let swept = prologue q true r in
    omega (
      arith,
      join_swept-occupied q swept (prologue-Coherent q true r c),
      prologue-occupied any_id q true r,
    )
