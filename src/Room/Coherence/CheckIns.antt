-- ===== src/Room/Coherence/CheckIns.antt =====
-- The caches of a room under check-ins, views and the setting of the alarm.
use tide_guard.Base.{ℕ, ◌<◌, ◌≡◌, inl, inr, refl, ap, map, String, Bool-cases, arith}
use tide_guard.Engine.{AdmissionMode, queue, lottery}
use tide_guard.Config.{QueueConfig}
use tide_guard.Room.{Room, VisitorRow, is_waiting, is_admitted}
use tide_guard.Room.Table.{is_ahead_of, waits, holds_slot}
use tide_guard.Room.Table.Rows.{Keyed-map, Fresh-map, count-map_same}
use tide_guard.Room.Depth.{waiting_ahead}
use tide_guard.Room.Settings.{admission_mode, get_opens_at}
use tide_guard.Room.Waiters.{
  update_waiting, place_in_line, needs_repair, repair_check_in_before_open, renew_check_in,
}
use tide_guard.Room.View.{to_view, line_of, waiting_line_of}
use tide_guard.Room.Alarm.{ensure_alarm}
use tide_guard.Room.Coherence.{Coherent, of_core, core_of}
use tide_guard.Room.Coherence.Primitives.{visitors-Coherent, waiting_ahead_lem}

-- A change of rows that keeps id, status and sequence.
abbrev pub KeepsPlace : (VisitorRow → VisitorRow) → Type 0
KeepsPlace f =
    (v : VisitorRow) → ((f v).id ≡ v.id) × ((f v).status ≡ v.status) × ((f v).sequence ≡ v.sequence)

pub map-Coherent :
    (f : VisitorRow → VisitorRow) (r : Room)
    → KeepsPlace f
    → Coherent r
    → Coherent (record r { visitors = map f r.visitors })
map-Coherent f r same c =
    visitors-Coherent r _ (count-map_same f waits r.visitors (λ v. ap is_waiting (same v).1))
      (count-map_same f holds_slot r.visitors (λ v. ap is_admitted (same v).1))
      (λ s. count-map_same f (is_ahead_of s) r.visitors (λ v. ground (arith, same v)))
      (Keyed-map f r.visitors (λ v. (same v).0) (λ v. (same v).2) c.keyed)
      (Fresh-map f _ r.visitors (λ v. (same v).2) c.fresh) c

place-Coherent :
    (r : Room) (mode : AdmissionMode) (v : VisitorRow)
    → v.sequence < r.meta.next_sequence
    → Coherent r
    → Coherent (place_in_line r mode v).0
unfolding place_in_line
place-Coherent r lottery v h c = c
place-Coherent r queue v h c = (waiting_ahead_lem r v.sequence h c).0

place-next :
    (r : Room) (mode : AdmissionMode) (v : VisitorRow)
    → (place_in_line r mode v).0.meta.next_sequence ≡ r.meta.next_sequence
unfolding place_in_line waiting_ahead
place-next r lottery v = refl
place-next r queue v = ground arith

update-Coherent :
    (r : Room) (id : String) (f : VisitorRow → VisitorRow)
    → KeepsPlace f
    → Coherent r
    → Coherent (record r { visitors = update_waiting id f r.visitors })
unfolding update_waiting
update-Coherent r id f same c =
    map-Coherent _ r (λ v. (ground (arith, same v), ground (arith, same v), ground (arith, same v)))
      c

module _ (r : Room) (v : VisitorRow) (config : QueueConfig) (now : ℕ)
    (placed : v.sequence < r.meta.next_sequence) (c : Coherent r) where
  pub repair-Coherent : Coherent (repair_check_in_before_open r v config now).0
  unfolding repair_check_in_before_open
  repair-Coherent = elim (Bool-cases (needs_repair (get_opens_at r) v.next_check_at now)) [
    | inl e ↦ rw e (
        update-Coherent (place_in_line r (admission_mode r config) v).0 v.id _
          (λ w. (refl, refl, refl)) (place-Coherent r (admission_mode r config) v placed c))
    | inr e ↦ rw e c
  ]

  pub repair-next :
      (repair_check_in_before_open r v config now).0.meta.next_sequence ≡ r.meta.next_sequence
  unfolding repair_check_in_before_open
  repair-next = ground (arith, place-next r (admission_mode r config) v)

  pub renew-Coherent : Coherent (renew_check_in r v config now)
  unfolding renew_check_in
  renew-Coherent =
      update-Coherent (place_in_line r (admission_mode r config) v).0 v.id _
        (λ w. (refl, refl, refl)) (place-Coherent r (admission_mode r config) v placed c)

  pub renew-next : (renew_check_in r v config now).meta.next_sequence ≡ r.meta.next_sequence
  unfolding renew_check_in
  renew-next = place-next r (admission_mode r config) v

  pub view-Coherent : Coherent (to_view r v config now).0
  unfolding to_view line_of waiting_line_of
  view-Coherent = elim (Bool-cases (is_waiting v.status)) [
    | inl e ↦ rw e (place-Coherent r (admission_mode r config) v placed c)
    | inr e ↦ rw e c
  ]

pub alarm-core : (clock : ℕ) (r : Room) → core_of (ensure_alarm clock r) ≡ core_of r
unfolding ensure_alarm
alarm-core clock r = ground arith

pub alarm-Coherent : (clock : ℕ) (r : Room) → Coherent r → Coherent (ensure_alarm clock r)
alarm-Coherent clock r c = of_core (alarm-core clock r) c

pub alarm-next :
    (clock : ℕ) (r : Room) → (ensure_alarm clock r).meta.next_sequence ≡ r.meta.next_sequence
alarm-next clock r = ap (λ k. k.next_sequence) (alarm-core clock r)
