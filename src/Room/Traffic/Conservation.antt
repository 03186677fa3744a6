-- ===== src/Room/Traffic/Conservation.antt =====
-- Traffic counts across the change of a bucket.
use tide_guard.Base.{
  ℕ, ◌+◌, ◌≤◌, ◌≡◌, inl, inr, refl, ap, true, false, List, [], ◌∷◌, leb, ◌==◌, All, Bool-cases,
  arith,
}
use tide_guard.Engine.{align_traffic_bucket, traffic_retention_ms}
use tide_guard.Config.{QueueConfig}
use tide_guard.Room.{Room, TrafficBucket}
use tide_guard.Room.Traffic.{
  Delta, sum_admits, upsert_bucket, prune_traffic_buckets, closed_bucket, flush_traffic_bucket,
  record_traffic,
}

pub sum_joins : List TrafficBucket → ℕ
sum_joins [] = 0
sum_joins (b ∷ bs) = b.joins + sum_joins bs

-- All joins and admissions of the day that the room has counted, the open bucket included.
unfoldable pub counted_joins : Room → ℕ
unfolding sum_joins
counted_joins r = sum_joins r.buckets + r.meta.traffic_open_joins

unfoldable pub counted_admits : Room → ℕ
counted_admits r = sum_admits r.buckets + r.meta.traffic_open_admits

-- The bucket is not older than what is kept.
abbrev pub IsRecent : ℕ → TrafficBucket → Type 0
IsRecent now b = now ≤ b.t + traffic_retention_ms

upsert-sum :
    (b : TrafficBucket) (bs : List TrafficBucket)
    → (sum_joins (upsert_bucket b bs) ≡ b.joins + sum_joins bs)
      × (sum_admits (upsert_bucket b bs) ≡ b.admits + sum_admits bs)
unfolding upsert_bucket sum_joins sum_admits
upsert-sum b [] = (refl, refl)
upsert-sum b (c ∷ cs) = elim (Bool-cases (c.t == b.t)) [
  | inl e ↦ rw e (omega arith, omega arith)
  | inr e ↦ rw e (omega (arith, (upsert-sum b cs).0), omega (arith, (upsert-sum b cs).1))
]

upsert-Recent :
    (now : ℕ) (b : TrafficBucket) (bs : List TrafficBucket)
    → IsRecent now b
    → All (IsRecent now) bs
    → All (IsRecent now) (upsert_bucket b bs)
unfolding upsert_bucket
upsert-Recent now b [] h hs = (h, tt)
upsert-Recent now b (c ∷ cs) h hs = elim (Bool-cases (c.t == b.t)) [
  | inl e ↦ rw e (h, hs.1)
  | inr e ↦ rw e (hs.0, upsert-Recent now b cs h hs.1)
]

prune-Recent :
    (now : ℕ) (bs : List TrafficBucket) → All (IsRecent now) bs → prune_traffic_buckets now bs ≡ bs
unfolding prune_traffic_buckets
prune-Recent now [] h = refl
prune-Recent now (b ∷ bs) h =
    let keep : leb now (b.t + traffic_retention_ms) ≡ true = ground arith in
    rw keep (ap (λ (cs : List TrafficBucket). b ∷ cs) (prune-Recent now bs h.1))

-- Where a bucket is open, the clock has not gone behind it, and no bucket is older than a day:
-- recording joins and admissions adds exactly these to what the room has counted, whether or not
-- the time has moved on to another bucket and the open one is closed.
pub record_traffic-totals :
    (now : ℕ) (config : QueueConfig) (delta : Delta) (r : Room)
    → 1 ≤ r.meta.traffic_open_t
    → r.meta.traffic_open_t ≤ align_traffic_bucket now
    → now ≤ r.meta.traffic_open_t + traffic_retention_ms
    → All (IsRecent now) r.buckets
    → (counted_joins (record_traffic now config delta r) ≡ counted_joins r + delta.joins)
      × (counted_admits (record_traffic now config delta r) ≡ counted_admits r + delta.admits)
unfolding record_traffic flush_traffic_bucket counted_joins counted_admits
record_traffic-totals now config delta r some_open on_time recent_open recent =
    let opened : leb r.meta.traffic_open_t 0 ≡ false = ground arith in
    let closed = closed_bucket config r in
    let sums = upsert-sum closed r.buckets in
    let kept =
      prune-Recent now (upsert_bucket closed r.buckets)
        (upsert-Recent now closed r.buckets recent_open recent) in
    elim (Bool-cases (leb (align_traffic_bucket now) r.meta.traffic_open_t)) [
      | inl same ↦
          let now_open : (r.meta.traffic_open_t == align_traffic_bucket now) ≡ true =
            ground arith in
          rw (opened, same, now_open) (omega arith, omega arith)
      | inr later ↦
          let itself : (align_traffic_bucket now == align_traffic_bucket now) ≡ true =
            ground arith in
          rw (opened, later, kept, itself) (omega (arith, sums.0), omega (arith, sums.1))
    ]
