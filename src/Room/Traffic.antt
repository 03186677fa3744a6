-- ===== src/Room/Traffic.antt =====
-- src/durable-object/traffic-buckets.ts, `getTraffic` and `recentObservedAdmitPerSecond` of
-- queue-room.ts, and src/queue/traffic.ts.
pub mod Conservation
use tide_guard.Base.{
  ℕ, ◌+◌, min, max, not, Option, none, some, List, [], ◌∷◌, leb, ◌==◌, if◌then◌else◌, filter,
  sort_by,
}
use tide_guard.Engine.{align_traffic_bucket, traffic_bucket_ms, traffic_retention_ms}
use tide_guard.Config.{QueueConfig}
use tide_guard.Room.{Room, Meta, TrafficBucket}
use tide_guard.Room.Table.{count_entered_visitors}
use tide_guard.Room.Depth.{count_waiting}
use tide_guard.Room.Settings.{effective_config, set_meta}

pub record Delta : Type 0 where
  pub joins : ℕ
  pub admits : ℕ

abbrev pub current_traffic_open : ℕ → Room → Delta
current_traffic_open now r =
    if not (r.meta.traffic_open_t == align_traffic_bucket now)
    then record { joins = 0; admits = 0 }
    else record { joins = r.meta.traffic_open_joins; admits = r.meta.traffic_open_admits }

-- `INSERT … ON CONFLICT(t) DO UPDATE`: the counts add up, the rest is replaced.
unfoldable pub upsert_bucket : TrafficBucket → List TrafficBucket → List TrafficBucket
upsert_bucket b [] = b ∷ []
upsert_bucket b (c ∷ cs) =
    let rest = upsert_bucket b cs in
    if c.t == b.t
    then record b { joins = c.joins + b.joins; admits = c.admits + b.admits } ∷ cs
    else c ∷ rest

-- `DELETE … WHERE t < now - retention`.
unfoldable pub prune_traffic_buckets : ℕ → List TrafficBucket → List TrafficBucket
prune_traffic_buckets now = filter λ b. leb now (b.t + traffic_retention_ms)

abbrev pub open_bucket : ℕ → Meta → Meta
open_bucket t m = record m { traffic_open_t = t; traffic_open_joins = 0; traffic_open_admits = 0 }

-- The row that closes the open bucket.
abbrev pub closed_bucket : QueueConfig → Room → TrafficBucket
closed_bucket config r = record {
  t = r.meta.traffic_open_t;
  joins = r.meta.traffic_open_joins;
  admits = r.meta.traffic_open_admits;
  max_outflow = (effective_config r config).admit_per_second;
  waiting = count_waiting r;
  entered = count_entered_visitors r.visitors;
}

unfoldable pub flush_traffic_bucket : ℕ → QueueConfig → Room → Room
flush_traffic_bucket now config r =
    let current = align_traffic_bucket now in
    if leb r.meta.traffic_open_t 0
    then set_meta r (open_bucket current r.meta)
    else (if leb current r.meta.traffic_open_t then r else record r {
      buckets = prune_traffic_buckets now (upsert_bucket (closed_bucket config r) r.buckets);
      meta = open_bucket current r.meta;
    })

abbrev pub add_traffic : ℕ → Delta → Meta → Meta
add_traffic now delta m =
    let bucket = align_traffic_bucket now in
    let same = m.traffic_open_t == bucket in
    record m {
      traffic_open_t = bucket;
      traffic_open_joins = (if same then m.traffic_open_joins else 0) + delta.joins;
      traffic_open_admits = (if same then m.traffic_open_admits else 0) + delta.admits;
      total_inflow = m.total_inflow + delta.joins;
    }

unfoldable pub record_traffic : ℕ → QueueConfig → Delta → Room → Room
record_traffic now config delta r =
    let flushed = flush_traffic_bucket now config r in
    set_meta flushed (add_traffic now delta flushed.meta)

pub sum_admits : List TrafficBucket → ℕ
sum_admits [] = 0
sum_admits (b ∷ bs) = b.admits + sum_admits bs

-- The admissions of the last five minutes; `none` where there are none.
unfoldable pub recent_observed_admits : ℕ → Room → Option ℕ
recent_observed_admits now r =
    let admits =
      sum_admits (filter (λ b. leb now (b.t + 300_000)) r.buckets)
      + (current_traffic_open now r).admits in
    if leb admits 0 then none else some admits

unfoldable pub traffic_range : Option ℕ → ℕ
traffic_range none = traffic_retention_ms
traffic_range (some range) = min (max range traffic_bucket_ms) traffic_retention_ms

-- `getTraffic`: the buckets in range, oldest first.
unfoldable pub get_traffic : ℕ → QueueConfig → Option ℕ → Room → Room × List TrafficBucket
get_traffic now config range r =
    let flushed =
      flush_traffic_bucket now config (set_meta r (record (r.meta) { config = some config })) in
    (
      flushed,
      sort_by (λ b. b.t) (filter (λ b. leb now (b.t + traffic_range range)) flushed.buckets),
    )
