-- ===== src/Room/Coherence/Admissions.antt =====
-- The caches of a room under `leave`, `forceAdmit`, `alarm` and eviction.
use tide_guard.Base.{
  Option, Bool, ℕ, ◌≡◌, inl, inr, refl, true, none, some, String, Bool-cases, Option-cases, arith,
}
use tide_guard.Config.{QueueConfig}
use tide_guard.Health.{OriginHealthState, FetchOutcome}
use tide_guard.Room.{OutboxRow, Room, VisitorRow, Status, waiting, admitted, expired, left}
use tide_guard.Room.Table.{select_visitor, waits, holds_slot, is_ahead_of}
use tide_guard.Room.Depth.{bump_depth}
use tide_guard.Room.Settings.{can_admit}
use tide_guard.Room.Admission.{Random}
use tide_guard.Room.Sweep.{sweep}
use tide_guard.Room.Outbox.{process_webhook_outbox}
use tide_guard.Room.Handlers.{Request, prologue, is_live}
use tide_guard.Room.Departure.{set_left, drop_visitor, leave_as, leave}
use tide_guard.Room.Service.{
  finish_alarm, store_health, write_turn, force_admit, maybe_probe_health, Network, alarm_work,
  alarm, evict,
}
use tide_guard.Room.Departure.Leaving.{count-set_left, set_left-Keyed, set_left-Fresh}
use tide_guard.Room.Coherence.{Coherent, of_core, core_of}
use tide_guard.Room.Coherence.Primitives.{depth-Exact, CacheOk-same}
use tide_guard.Room.Coherence.Steps.{sweep-Coherent, flush-Coherent}
use tide_guard.Room.Coherence.Changes.{
  admit_up_to-Coherent, admit_available-Coherent, admit_from_budget-Coherent,
}
use tide_guard.Room.Coherence.CheckIns.{alarm-Coherent}
use tide_guard.Room.Coherence.Operations.{prologue-Coherent}

module _ (id : String) (v : VisitorRow) (r : Room) (c : Coherent r)
    (found : select_visitor id r.visitors ≡ some v) where
  pub drop-waiting : v.status ≡ waiting → Coherent (drop_visitor waiting id r)
  unfolding bump_depth
  drop-waiting s =
      let (dw, da) = depth-Exact r c in
      let live : is_live v.status ≡ true = ground arith in
      let w = count-set_left waits id r.visitors v (λ x. refl) c.keyed found live in
      let a = count-set_left holds_slot id r.visitors v (λ x. refl) c.keyed found live in
      record {
        depth_ok = (ground arith, ground arith);
        stored_ok = (ground arith, ground arith);
        cache_ok = tt;
        keyed = set_left-Keyed id r.visitors c.keyed;
        fresh = set_left-Fresh _ id r.visitors c.fresh;
      }

  pub drop-admitted : v.status ≡ admitted → Coherent (drop_visitor admitted id r)
  unfolding bump_depth
  drop-admitted s =
      let (dw, da) = depth-Exact r c in
      let live : is_live v.status ≡ true = ground arith in
      let w = count-set_left waits id r.visitors v (λ x. refl) c.keyed found live in
      let a = count-set_left holds_slot id r.visitors v (λ x. refl) c.keyed found live in
      record {
        depth_ok = (ground arith, ground arith);
        stored_ok = (ground arith, ground arith);
        cache_ok =
            CacheOk-same r.ahead_cache r.meta.next_sequence r.visitors (set_left id r.visitors)
              (λ k. ground (
                arith,
                count-set_left (is_ahead_of k) id r.visitors v (λ x. refl) c.keyed found live,
              ))
              c.cache_ok;
        keyed = set_left-Keyed id r.visitors c.keyed;
        fresh = set_left-Fresh _ id r.visitors c.fresh;
      }

leave_as-Coherent :
    (s : Status) (rnd : Random) (q : Request) (v : VisitorRow) (r : Room)
    → v.status ≡ s
    → select_visitor q.visitor_id r.visitors ≡ some v
    → Coherent r
    → Coherent (leave_as s rnd q r).0
leave_as-Coherent expired rnd q v r s found c = c
leave_as-Coherent left rnd q v r s found c = c
leave_as-Coherent waiting rnd q v r s found c =
    alarm-Coherent q.clock _
      (admit_available-Coherent rnd q.config q.now _ (drop-waiting q.visitor_id v r c found s))
leave_as-Coherent admitted rnd q v r s found c =
    alarm-Coherent q.clock _
      (admit_available-Coherent rnd q.config q.now _ (drop-admitted q.visitor_id v r c found s))

pub leave-Coherent :
    (rnd : Random) (q : Request) (r : Room) → Coherent r → Coherent (leave rnd q r).0
unfolding leave
leave-Coherent rnd q r c =
    let swept = prologue q true r in
    let ok : Coherent swept = prologue-Coherent q true r c in
    elim (Option-cases (select_visitor q.visitor_id swept.visitors)) [
      | inl e ↦ rw (e, leave) ok
      | inr (v, e) ↦ rw (e, leave) (leave_as-Coherent v.status rnd q v swept refl e ok)
    ]

pub force_admit-Coherent :
    (rnd : Random) (n : ℕ) (q : Request) (r : Room)
    → Coherent r
    → Coherent (force_admit rnd n q r).0
unfolding force_admit
force_admit-Coherent rnd n q r c =
    let swept = prologue q true r in
    let ok : Coherent swept = prologue-Coherent q true r c in
    elim (Bool-cases (can_admit swept q.now)) [
      | inl e ↦ rw e (alarm-Coherent q.clock _ (admit_up_to-Coherent rnd n q.config q.now swept ok))
      | inr e ↦ rw e (alarm-Coherent q.clock swept ok)
    ]

pub probe-core :
    (outcome : FetchOutcome) (latency now : ℕ) (r : Room)
    → core_of (maybe_probe_health outcome latency now r) ≡ core_of r
unfolding maybe_probe_health
probe-core outcome latency now r = ground arith

work-Coherent :
    (rnd : Random) (net : Network) (config : QueueConfig) (now : ℕ) (r : Room)
    → Coherent r
    → Coherent (alarm_work rnd net config now r)
unfolding alarm_work
work-Coherent rnd net config now r c = flush-Coherent now config _ (
    admit_from_budget-Coherent rnd config now _ (
      of_core (probe-core net.probe net.latency now (sweep config now true r))
        (sweep-Coherent config now true r c)))

pub outbox-core :
    (net : Network) (now : ℕ) (r : Room)
    → core_of (process_webhook_outbox net.delivered now (record r { alarm = none })) ≡ core_of r
unfolding process_webhook_outbox
outbox-core net now r = refl

pub alarm_op-Coherent :
    (rnd : Random) (net : Network) (now clock : ℕ) (r : Room)
    → Coherent r
    → Coherent (alarm rnd net now clock r)
unfolding alarm
alarm_op-Coherent rnd net now clock r c =
    let ok = of_core (outbox-core net now r) c in
    elim (Option-cases
      (process_webhook_outbox net.delivered now (record r { alarm = none })).meta.config) [
        | inl e ↦ rw (e, alarm) (alarm-Coherent clock _ ok)
        | inr (config, e) ↦
            rw (e, alarm) (alarm-Coherent clock _ (work-Coherent rnd net config now _ ok))
      ]

pub turn-core :
    (answered : Bool) (now : ℕ) (row : OutboxRow) (r : Room)
    → core_of (write_turn answered now row r) ≡ core_of r
unfolding write_turn
turn-core answered now row r = refl

pub health-core :
    (state : Option OriginHealthState) (r : Room) → core_of (store_health state r) ≡ core_of r
health-core none r = refl
health-core (some state) r = refl

pub finish-Coherent :
    (rnd : Random) (state : Option OriginHealthState) (config : Option QueueConfig) (now clock : ℕ)
    (r : Room)
    → Coherent r
    → Coherent (finish_alarm rnd state config now clock r)
unfolding finish_alarm
finish-Coherent rnd state none now clock r c = alarm-Coherent clock r c
finish-Coherent rnd state (some config) now clock r c = alarm-Coherent clock _ (
    flush-Coherent now config _
      (admit_from_budget-Coherent rnd config now _ (of_core (health-core state r) c)))

pub evict-Coherent : (r : Room) → Coherent r → Coherent (evict r)
unfolding evict
evict-Coherent r c = record {
  depth_ok = tt;
  stored_ok = c.stored_ok;
  cache_ok = tt;
  keyed = c.keyed;
  fresh = c.fresh;
}
