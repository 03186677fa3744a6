-- ===== src/Room/Handlers/Unadmitting.antt =====
-- The number of admitted visitors under `status`, `heartbeat` and `enter`.
use tide_guard.Base.{
  ◌&&◌, Bool, ℕ, ◌≤◌, ◌≡◌, inl, inr, refl, ap, true, false, List, ◌∙◌, String, Bool-cases,
  Option-cases, arith,
}
use tide_guard.Engine.{is_check_in_due, AdmissionMode}
use tide_guard.Config.{QueueConfig}
use tide_guard.Room.{Room, VisitorRow, Status, waiting, admitted, expired, left, is_waiting}
use tide_guard.Room.Table.{select_visitor, holds_slot}
use tide_guard.Room.Table.Rows.{count-map_same}
use tide_guard.Room.Settings.{admission_mode, get_opens_at}
use tide_guard.Room.Waiters.{
  update_waiting, place_in_line, repair_check_in_before_open, needs_repair, renew_check_in,
}
use tide_guard.Room.Admission.Capacity.{held_rows, held}
use tide_guard.Room.Alarm.{ensure_alarm}
use tide_guard.Room.Handlers.{
  Request, prologue, check_in, status_of, status, heartbeat, set_entered, enter_as, enter,
}
use tide_guard.Room.Handlers.Occupancy.{prologue-occupied, place-visitors, view-visitors}
use tide_guard.Room.Handlers.Capacity.{alarm-occupied, view_of-occupied}

module _ (p : String → Bool) where
  update-occupied :
      (id : String) (f : VisitorRow → VisitorRow) (vs : List VisitorRow)
      → ((v : VisitorRow) → ((f v).status ≡ v.status) × ((f v).id ≡ v.id))
      → held_rows p (update_waiting id f vs) ≡ held_rows p vs
  unfolding update_waiting
  update-occupied id f vs same =
      count-map_same _ (λ v. p v.id && holds_slot v) vs
        (λ v. ground (arith, (same v).0, (same v).1))

  placed :
      (id : String) (f : VisitorRow → VisitorRow) (r : Room) (mode : AdmissionMode) (v : VisitorRow)
      → ((w : VisitorRow) → ((f w).status ≡ w.status) × ((f w).id ≡ w.id))
      → held_rows p (update_waiting id f (place_in_line r mode v).0.visitors) ≡ held p r
  placed id f r mode v same =
      update-occupied id f (place_in_line r mode v).0.visitors same
      ∙ ap (held_rows p) (place-visitors r mode v)

  repair-occupied :
      (r : Room) (v : VisitorRow) (config : QueueConfig) (now : ℕ)
      → held p (repair_check_in_before_open r v config now).0 ≡ held p r
  unfolding repair_check_in_before_open
  repair-occupied r v config now =
      elim (Bool-cases (needs_repair (get_opens_at r) v.next_check_at now)) [
        | inl e ↦ rw e (placed v.id _ r (admission_mode r config) v (λ w. (refl, refl)))
        | inr e ↦ rw e refl
      ]

  renew-occupied :
      (r : Room) (v : VisitorRow) (config : QueueConfig) (now : ℕ)
      → held p (renew_check_in r v config now) ≡ held p r
  unfolding renew_check_in
  renew-occupied r v config now = placed v.id _ r (admission_mode r config) v (λ w. (refl, refl))

  check_in-occupied :
      (q : Request) (v : VisitorRow) (r : Room) → held p (check_in q v r).0 ≡ held p r
  unfolding check_in
  check_in-occupied q v r =
      let repaired = (repair_check_in_before_open r v q.config q.now).0 in
      elim (Bool-cases (repair_check_in_before_open r v q.config q.now).1) [
        | inl e ↦ rw e (view_of-occupied p repaired v q ∙ repair-occupied r v q.config q.now)
        | inr e ↦ elim (Bool-cases (is_check_in_due q.now v.next_check_at)) [
          | inl due ↦
              rw (e, due)
                (view_of-occupied p (renew_check_in r v q.config q.now) v q
                  ∙ renew-occupied r v q.config q.now)
          | inr early ↦ rw (e, early) (ap (held_rows p) (view-visitors r v q.config q.now))
        ]
      ]

  status_of-occupied :
      (s : Status) (q : Request) (v : VisitorRow) (r : Room)
      → held p (status_of s q v r).0 ≡ held p r
  status_of-occupied left q v r = refl
  status_of-occupied expired q v r = refl
  status_of-occupied waiting q v r = check_in-occupied q v r
  status_of-occupied admitted q v r = ap (held_rows p) (view-visitors r v q.config q.now)

  pub status-occupied : (q : Request) (r : Room) → held p (status q r).0 ≤ held p r
  unfolding status
  status-occupied q r =
      let swept = prologue q false r in
      let less = prologue-occupied p q false r in
      elim (Option-cases (select_visitor q.visitor_id swept.visitors)) [
        | inl e ↦ rw (e, status) less
        | inr (v, e) ↦ rw (e, status) (omega (arith, less, status_of-occupied v.status q v swept))
      ]

  pub heartbeat-occupied : (q : Request) (r : Room) → held p (heartbeat q r).0 ≤ held p r
  unfolding heartbeat
  heartbeat-occupied q r =
      let swept = prologue q false r in
      let less = prologue-occupied p q false r in
      elim (Option-cases (select_visitor q.visitor_id swept.visitors)) [
        | inl e ↦ rw (e, heartbeat) less
        | inr (v, e) ↦ elim (Bool-cases (is_waiting v.status)) [
          | inl w ↦ rw (e, heartbeat, w) (omega (arith, less, check_in-occupied q v swept))
          | inr w ↦ rw (e, heartbeat, w) less
        ]
      ]

  set_entered-occupied :
      (id : String) (vs : List VisitorRow) → held_rows p (set_entered id vs) ≡ held_rows p vs
  unfolding set_entered
  set_entered-occupied id vs = count-map_same _ (λ v. p v.id && holds_slot v) vs (λ v. ground arith)

  enter_as-occupied :
      (s : Status) (q : Request) (v : VisitorRow) (r : Room)
      → held p (enter_as s q v r).0 ≡ held p r
  enter_as-occupied left q v r = refl
  enter_as-occupied expired q v r = refl
  enter_as-occupied waiting q v r = refl
  enter_as-occupied admitted q v r =
      let set : Room = record r { visitors = set_entered q.visitor_id r.visitors } in
      view_of-occupied p (ensure_alarm q.clock set) v q
      ∙ alarm-occupied p q.clock set
      ∙ set_entered-occupied q.visitor_id r.visitors

  pub enter-occupied : (q : Request) (r : Room) → held p (enter q r).0 ≤ held p r
  unfolding enter
  enter-occupied q r =
      let swept = prologue q true r in
      let less = prologue-occupied p q true r in
      elim (Option-cases (select_visitor q.visitor_id swept.visitors)) [
        | inl e ↦ rw (e, enter) less
        | inr (v, e) ↦ rw (e, enter) (omega (arith, less, enter_as-occupied v.status q v swept))
      ]
