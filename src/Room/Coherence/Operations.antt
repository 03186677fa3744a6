-- ===== src/Room/Coherence/Operations.antt =====
-- The caches of a room under `join`, `status`, `heartbeat` and `enter`.
use tide_guard.Base.{
  ℕ, ◌+◌, ◌<◌, ◌≡◌, ◌⊎◌, inl, inr, refl, ap, Bool, true, false, ◌&&◌, Option, none, some, List,
  String, ltb, leb, Bool-cases, Option-cases, arith,
}
use tide_guard.Engine.{open_slots, is_check_in_due}
use tide_guard.Room.{Room, VisitorRow, Status, waiting, admitted, expired, left, is_waiting}
use tide_guard.Room.Table.{select_visitor}
use tide_guard.Room.Table.Rows.{Fresh, select-Fresh}
use tide_guard.Room.Depth.{count_waiting, count_admitted, bump_depth}
use tide_guard.Room.Settings.{can_admit, max_waiting_visitors, ensure_queue_name, remember_config}
use tide_guard.Room.Traffic.{record_traffic}
use tide_guard.Room.Waiters.{repair_check_in_before_open}
use tide_guard.Room.Admission.{NewVisitor, insert_visitor}
use tide_guard.Room.Handlers.{
  Request, prologue, row_or, view_of, join_as, join_new, join_swept, join, is_live, check_in,
  status_of, status, heartbeat, set_entered, enter_as, enter,
}
use tide_guard.Room.Coherence.{Coherent, of_core, core_of}
use tide_guard.Room.Coherence.Steps.{sweep-Coherent, record-Coherent, record-core}
use tide_guard.Room.Coherence.Changes.{insert-Coherent}
use tide_guard.Room.Coherence.CheckIns.{
  map-Coherent, repair-Coherent, repair-next, renew-Coherent, renew-next, view-Coherent,
  alarm-Coherent, alarm-next,
}

pub prologue-core :
    (q : Request) (r : Room)
    → core_of (remember_config q.config (ensure_queue_name q.queue r)) ≡ core_of r
prologue-core q r = ground arith

pub prologue-Coherent :
    (q : Request) (force : Bool) (r : Room) → Coherent r → Coherent (prologue q force r)
unfolding prologue
prologue-Coherent q force r c =
    sweep-Coherent q.config q.now force _ (of_core (prologue-core q r) c)

row_or-Fresh :
    (n : ℕ) (o : Option VisitorRow) (id : String) (vs : List VisitorRow) (v : VisitorRow)
    → select_visitor id vs ≡ o
    → Fresh n vs
    → v.sequence < n
    → (row_or o v).sequence < n
row_or-Fresh n none id vs v e f h = h
row_or-Fresh n (some w) id vs v e f h = select-Fresh n id vs w f e

view_of-Coherent :
    (r : Room) (v : VisitorRow) (q : Request)
    → v.sequence < r.meta.next_sequence
    → Coherent r
    → Coherent (view_of r v q).0
view_of-Coherent r v q h c =
    view-Coherent r _ q.config q.now (row_or-Fresh _ _ q.visitor_id r.visitors v refl c.fresh h) c

insert-next :
    (n : NewVisitor) (r : Room)
    → (insert_visitor n r).0.meta.next_sequence ≡ r.meta.next_sequence + 1
unfolding insert_visitor bump_depth
insert-next n r = ground arith

join_as-Coherent :
    (q : Request) (n : NewVisitor) (admits : ℕ) (r : Room)
    → (n.status ≡ waiting) ⊎ (n.status ≡ admitted)
    → Coherent r
    → Coherent (join_as q n admits r).0
unfolding join_as
join_as-Coherent q n admits r s c =
    let inserted = insert-Coherent n r s c in
    let counted =
      record-Coherent q.now q.config (record { joins = 1; admits = admits }) _ inserted in
    elim (Bool-cases (insert_visitor n r).1) [
      | inl e ↦ rw e (
          view_of-Coherent _ _ q
            (omega (
              arith,
              alarm-next q.clock (
                  record_traffic q.now q.config (record { joins = 1; admits = admits })
                    (insert_visitor n r).0),
              ap (λ k. k.next_sequence)
                  (record-core q.now q.config (record { joins = 1; admits = admits })
                    (insert_visitor n r).0),
              insert-next n r,
            ))
            (alarm-Coherent q.clock _ counted))
      | inr e ↦ rw e inserted
    ]

join_new-Coherent : (q : Request) (r : Room) → Coherent r → Coherent (join_new q r).0
unfolding join_new
join_new-Coherent q r c =
    elim (Bool-cases
      (can_admit r q.now && ltb 0 (open_slots q.config.max_concurrent_users (count_admitted r)))) [
        | inl e ↦ rw e (join_as-Coherent q _ 1 r (inr refl) c)
        | inr e ↦ elim (Bool-cases (leb (max_waiting_visitors r) (count_waiting r))) [
          | inl full ↦ rw (e, full) c
          | inr space ↦ rw (e, space) (join_as-Coherent q _ 0 r (inl refl) c)
        ]
      ]

join_swept-Coherent : (q : Request) (r : Room) → Coherent r → Coherent (join_swept q r).0
unfolding join_swept
join_swept-Coherent q r c = elim (Option-cases (select_visitor q.visitor_id r.visitors)) [
  | inl e ↦ rw (e, join_swept) (join_new-Coherent q r c)
  | inr (v, e) ↦ elim (Bool-cases (is_live v.status)) [
    | inl live ↦
        rw (e, join_swept, live)
          (view-Coherent _ v q.config q.now
            (omega
              (arith, alarm-next q.clock r, select-Fresh _ q.visitor_id r.visitors v c.fresh e))
            (alarm-Coherent q.clock r c))
    | inr gone ↦ rw (e, join_swept, gone) (join_new-Coherent q r c)
  ]
]

pub join-Coherent : (q : Request) (r : Room) → Coherent r → Coherent (join q r).0
unfolding join
join-Coherent q r c = join_swept-Coherent q _ (prologue-Coherent q true r c)

check_in-Coherent :
    (q : Request) (v : VisitorRow) (r : Room)
    → v.sequence < r.meta.next_sequence
    → Coherent r
    → Coherent (check_in q v r).0
unfolding check_in
check_in-Coherent q v r h c =
    let next = repair-next r v q.config q.now h c in
    elim (Bool-cases (repair_check_in_before_open r v q.config q.now).1) [
      | inl e ↦ rw e (view_of-Coherent _ v q (omega arith) (repair-Coherent r v q.config q.now h c))
      | inr e ↦ elim (Bool-cases (is_check_in_due q.now v.next_check_at)) [
        | inl due ↦
            rw (e, due)
              (view_of-Coherent _ v q (omega (arith, renew-next r v q.config q.now h c))
                (renew-Coherent r v q.config q.now h c))
        | inr early ↦ rw (e, early) (view-Coherent r v q.config q.now h c)
      ]
    ]

status_of-Coherent :
    (s : Status) (q : Request) (v : VisitorRow) (r : Room)
    → v.sequence < r.meta.next_sequence
    → Coherent r
    → Coherent (status_of s q v r).0
status_of-Coherent left q v r h c = c
status_of-Coherent expired q v r h c = c
status_of-Coherent waiting q v r h c = check_in-Coherent q v r h c
status_of-Coherent admitted q v r h c = view-Coherent r v q.config q.now h c

pub status-Coherent : (q : Request) (r : Room) → Coherent r → Coherent (status q r).0
unfolding status
status-Coherent q r c =
    let swept = prologue q false r in
    let ok : Coherent swept = prologue-Coherent q false r c in
    elim (Option-cases (select_visitor q.visitor_id swept.visitors)) [
      | inl e ↦ rw (e, status) ok
      | inr (v, e) ↦
          rw (e, status)
            (status_of-Coherent v.status q v swept (select-Fresh _ _ swept.visitors v ok.fresh e)
              ok)
    ]

pub heartbeat-Coherent : (q : Request) (r : Room) → Coherent r → Coherent (heartbeat q r).0
unfolding heartbeat
heartbeat-Coherent q r c =
    let swept = prologue q false r in
    let ok : Coherent swept = prologue-Coherent q false r c in
    elim (Option-cases (select_visitor q.visitor_id swept.visitors)) [
      | inl e ↦ rw (e, heartbeat) ok
      | inr (v, e) ↦ elim (Bool-cases (is_waiting v.status)) [
        | inl w ↦
            rw (e, heartbeat, w)
              (check_in-Coherent q v swept (select-Fresh _ _ swept.visitors v ok.fresh e) ok)
        | inr w ↦ rw (e, heartbeat, w) ok
      ]
    ]

entered-Coherent :
    (id : String) (r : Room)
    → Coherent r
    → Coherent (record r { visitors = set_entered id r.visitors })
unfolding set_entered
entered-Coherent id r c = map-Coherent _ r (λ v. (ground arith, ground arith, ground arith)) c

enter_as-Coherent :
    (s : Status) (q : Request) (v : VisitorRow) (r : Room)
    → v.sequence < r.meta.next_sequence
    → Coherent r
    → Coherent (enter_as s q v r).0
enter_as-Coherent left q v r h c = c
enter_as-Coherent expired q v r h c = c
enter_as-Coherent waiting q v r h c = c
enter_as-Coherent admitted q v r h c =
    let set : Room = record r { visitors = set_entered q.visitor_id r.visitors } in
    view_of-Coherent _ v q (omega (arith, alarm-next q.clock set))
      (alarm-Coherent q.clock set (entered-Coherent q.visitor_id r c))

pub enter-Coherent : (q : Request) (r : Room) → Coherent r → Coherent (enter q r).0
unfolding enter
enter-Coherent q r c =
    let swept = prologue q true r in
    let ok : Coherent swept = prologue-Coherent q true r c in
    elim (Option-cases (select_visitor q.visitor_id swept.visitors)) [
      | inl e ↦ rw (e, enter) ok
      | inr (v, e) ↦
          rw (e, enter)
            (enter_as-Coherent v.status q v swept (select-Fresh _ _ swept.visitors v ok.fresh e) ok)
    ]
