-- ===== src/Room/Handlers/Occupancy.antt =====
-- The number of admitted visitors under a sweep, a view and the setting of the alarm.
use tide_guard.Base.{
  ◌&&◌, String, ℕ, ◌≤◌, ◌≡◌, inl, inr, refl, ap, Bool, not, List, [], ◌∷◌, filter, count,
  Bool-cases, arith,
}
use tide_guard.Engine.{AdmissionMode, queue, lottery}
use tide_guard.Config.{QueueConfig}
use tide_guard.Room.{Room, VisitorRow, is_waiting}
use tide_guard.Room.Table.{holds_slot}
use tide_guard.Room.Depth.{waiting_ahead, reconcile_depth}
use tide_guard.Room.Settings.{remember_config, ensure_queue_name, admission_mode, effective_config}
use tide_guard.Room.Waiters.{place_in_line}
use tide_guard.Room.Sweep.{
  sweep, run_sweep, sweep_visitors, expire_where, purge, is_purged, sweep_grace_ms,
}
use tide_guard.Room.Admission.Capacity.{held_rows, held}
use tide_guard.Room.View.{to_view, line_of, waiting_line_of}
use tide_guard.Room.Alarm.{ensure_alarm}
use tide_guard.Room.Handlers.{Request, prologue}
use tide_guard.Room.Coherence.CheckIns.{alarm-core}
use tide_guard.Room.Coherence.Operations.{prologue-core}

count-filter-le :
    (p q : VisitorRow → Bool) (vs : List VisitorRow) → count p (filter q vs) ≤ count p vs
count-filter-le p q [] = omega arith
count-filter-le p q (v ∷ vs) = ground (arith, count-filter-le p q vs)

module _ (p : String → Bool) where
  expire-le :
      (lapsed : VisitorRow → Bool) (vs : List VisitorRow)
      → held_rows p (expire_where lapsed vs) ≤ held_rows p vs
  unfolding expire_where
  expire-le lapsed [] = omega arith
  expire-le lapsed (v ∷ vs) = ground (arith, expire-le lapsed vs)

  sweep_visitors-le :
      (config : QueueConfig) (grace now : ℕ) (vs : List VisitorRow)
      → held_rows p (sweep_visitors config grace now vs).0 ≤ held_rows p vs
  unfolding sweep_visitors purge
  sweep_visitors-le config grace now vs = omega (
    arith,
    count-filter-le (λ v. p v.id && holds_slot v) (λ v. not (is_purged now v)) _,
    expire-le,
  )

  -- A sweep frees slots and takes none.
  pub sweep-occupied :
      (config : QueueConfig) (now : ℕ) (force : Bool) (r : Room)
      → held p (sweep config now force r) ≤ held p r
  unfolding sweep run_sweep reconcile_depth
  sweep-occupied config now force r = ground (
    arith,
    sweep_visitors-le (effective_config r config) (sweep_grace_ms r config) now r.visitors,
  )

  pub prologue-occupied :
      (q : Request) (force : Bool) (r : Room) → held p (prologue q force r) ≤ held p r
  unfolding prologue
  prologue-occupied q force r =
      let named = remember_config q.config (ensure_queue_name q.queue r) in
      let same : named.visitors ≡ r.visitors = ap (λ k. k.visitors) (prologue-core q r) in
      omega (arith, sweep-occupied q.config q.now force named, ap (held_rows p) same)

pub alarm-visitors : (clock : ℕ) (r : Room) → (ensure_alarm clock r).visitors ≡ r.visitors
alarm-visitors clock r = ap (λ k. k.visitors) (alarm-core clock r)

pub place-visitors :
    (r : Room) (mode : AdmissionMode) (v : VisitorRow)
    → (place_in_line r mode v).0.visitors ≡ r.visitors
unfolding place_in_line waiting_ahead
place-visitors r lottery v = refl
place-visitors r queue v = ground arith

pub view-visitors :
    (r : Room) (v : VisitorRow) (config : QueueConfig) (now : ℕ)
    → (to_view r v config now).0.visitors ≡ r.visitors
unfolding to_view line_of waiting_line_of
view-visitors r v config now = elim (Bool-cases (is_waiting v.status)) [
  | inl e ↦ rw e (place-visitors r (admission_mode r config) v)
  | inr e ↦ rw e refl
]
