-- ===== src/Room/Coherence/Steps.antt =====
-- The caches of a room under `sweep` and the counting of traffic.
use tide_guard.Base.{
  ℕ, ◌+◌, ◌≡◌, false, inl, inr, refl, ap, ◌∙◌, Bool, ◌&&◌, not, List, [], ◌∷◌, ltb, count,
  Bool-cases, arith,
}
use tide_guard.Config.{QueueConfig}
use tide_guard.Room.{Room, VisitorRow}
use tide_guard.Room.Table.{is_ahead_of, waits, holds_slot}
use tide_guard.Room.Table.Rows.{
  Keyed, Fresh, Keyed-map, Fresh-map, Keyed-filter, Fresh-filter, count-filter_kept,
}
use tide_guard.Room.Settings.{effective_config}
use tide_guard.Room.Traffic.{flush_traffic_bucket, record_traffic, Delta}
use tide_guard.Room.Sweep.{
  expire_row, expire_where, purge, sweep_visitors, run_sweep, sweep, waiting_lapsed, hold_lapsed,
  token_lapsed, sweep_grace_ms,
}
use tide_guard.Room.Coherence.{Coherent, of_core, core_of}
use tide_guard.Room.Coherence.Primitives.{reconcile-Coherent, visitors-Coherent}

-- An expiry that writes no row leaves the table alone.
expire-none :
    (p : VisitorRow → Bool) (vs : List VisitorRow) → count p vs ≡ 0 → expire_where p vs ≡ vs
unfolding expire_where
expire-none p [] h = refl
expire-none p (v ∷ vs) h = elim (Bool-cases (p v)) [
  | inl e ↦ absurd (ground arith)
  | inr e ↦ ground (arith, expire-none p vs)
]

expire-Keyed : (p : VisitorRow → Bool) (vs : List VisitorRow) → Keyed vs → Keyed (expire_where p vs)
unfolding expire_where
expire-Keyed p vs u = Keyed-map (expire_row p) vs (λ v. ground arith) (λ v. ground arith) u

expire-Fresh :
    (p : VisitorRow → Bool) (n : ℕ) (vs : List VisitorRow)
    → Fresh n vs
    → Fresh n (expire_where p vs)
unfolding expire_where
expire-Fresh p n vs f = Fresh-map (expire_row p) n vs (λ v. ground arith) f

nothing : (n : ℕ) → ltb 0 n ≡ false → n ≡ 0
nothing n h = ground arith

module _ (config : QueueConfig) (grace now : ℕ) (vs : List VisitorRow) where
  sweep-Keyed : Keyed vs → Keyed (sweep_visitors config grace now vs).0
  unfolding sweep_visitors purge
  sweep-Keyed u = Keyed-filter _ _ (expire-Keyed _ _ (expire-Keyed _ _ (expire-Keyed _ _ u)))

  sweep-Fresh : (n : ℕ) → Fresh n vs → Fresh n (sweep_visitors config grace now vs).0
  unfolding sweep_visitors purge
  sweep-Fresh n f =
      Fresh-filter _ n _ (expire-Fresh _ n _ (expire-Fresh _ n _ (expire-Fresh _ n _ f)))

  -- A sweep that expires nothing only purges.
  sweep-none :
      (sweep_visitors config grace now vs).1 ≡ false
      → (sweep_visitors config grace now vs).0 ≡ purge now vs
  unfolding sweep_visitors
  sweep-none h =
      let p1 = waiting_lapsed config grace now in
      let p2 = hold_lapsed config now in
      let p3 = token_lapsed config now in
      let n =
        count p1 vs
        + count p2 (expire_where p1 vs)
        + count p3 (expire_where p2 (expire_where p1 vs)) in
      let nobody : n ≡ 0 = nothing n h in
      let e1 : expire_where p1 vs ≡ vs = expire-none p1 vs (omega arith) in
      let e2 : expire_where p2 (expire_where p1 vs) ≡ expire_where p1 vs =
        expire-none p2 _ (omega arith) in
      let e3 : expire_where p3 (expire_where p2 (expire_where p1 vs))
          ≡ expire_where p2 (expire_where p1 vs) =
        expire-none p3 _ (omega arith) in
      ap (purge now) (e3 ∙ e2 ∙ e1)

purge-Coherent :
    (now : ℕ) (r : Room) → Coherent r → Coherent (record r { visitors = purge now r.visitors })
unfolding purge
purge-Coherent now r c =
    visitors-Coherent r _ (count-filter_kept _ waits r.visitors (λ v h. ground arith))
      (count-filter_kept _ holds_slot r.visitors (λ v h. ground arith))
      (λ s. count-filter_kept _ (is_ahead_of s) r.visitors (λ v h. ground arith))
      (Keyed-filter _ _ c.keyed) (Fresh-filter _ _ _ c.fresh) c

run_sweep-Coherent :
    (config : QueueConfig) (now : ℕ) (r : Room) → Coherent r → Coherent (run_sweep config now r)
unfolding run_sweep
run_sweep-Coherent config now r c =
    let eff = effective_config r config in
    let grace = sweep_grace_ms r config in
    let stamped : Room = record r { meta = record (r.meta) { last_sweep = now } } in
    let stamped_ok : Coherent stamped = record {
      depth_ok = c.depth_ok;
      stored_ok = c.stored_ok;
      cache_ok = c.cache_ok;
      keyed = c.keyed;
      fresh = c.fresh;
    } in
    elim (Bool-cases (sweep_visitors eff grace now r.visitors).1) [
      | inl e ↦ rw e (
          reconcile-Coherent _ (sweep-Keyed eff grace now _ c.keyed)
            (sweep-Fresh eff grace now _ _ c.fresh))
      | inr e ↦
          rw (e, sweep-none eff grace now r.visitors e) (purge-Coherent now stamped stamped_ok)
    ]

pub sweep-Coherent :
    (config : QueueConfig) (now : ℕ) (force : Bool) (r : Room)
    → Coherent r
    → Coherent (sweep config now force r)
unfolding sweep
sweep-Coherent config now force r c =
    elim (Bool-cases (not force && ltb now (r.meta.last_sweep + 1_000))) [
      | inl e ↦ rw e c
      | inr e ↦ rw e (run_sweep-Coherent config now r c)
    ]

pub flush-core :
    (now : ℕ) (config : QueueConfig) (r : Room)
    → core_of (flush_traffic_bucket now config r) ≡ core_of r
unfolding flush_traffic_bucket
flush-core now config r = ground arith

pub record-core :
    (now : ℕ) (config : QueueConfig) (delta : Delta) (r : Room)
    → core_of (record_traffic now config delta r) ≡ core_of r
unfolding record_traffic
record-core now config delta r = flush-core now config r

pub record-Coherent :
    (now : ℕ) (config : QueueConfig) (delta : Delta) (r : Room)
    → Coherent r
    → Coherent (record_traffic now config delta r)
record-Coherent now config delta r c = of_core (record-core now config delta r) c

pub flush-Coherent :
    (now : ℕ) (config : QueueConfig) (r : Room)
    → Coherent r
    → Coherent (flush_traffic_bucket now config r)
flush-Coherent now config r c = of_core (flush-core now config r) c
