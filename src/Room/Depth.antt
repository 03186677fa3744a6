-- ===== src/Room/Depth.antt =====
-- The cached counts of queue-room.ts: `ensureDepth`, `countByStatus`, `reconcileDepth`,
-- `bumpDepth`, and `waitingAhead` with its cache. `countByStatus` also keeps in memory the counts
-- that it reads from `meta`; here the next write keeps them, with the same values.
use tide_guard.Base.{ℕ, ◌+◌, ◌-◌, Option, none, some, List, [], ◌∷◌, ◌==◌, if◌then◌else◌}
use tide_guard.Room.{Room, Meta, Counts, VisitorRow}
use tide_guard.Room.Table.{count_waiting_rows, count_admitted_rows, count_waiting_ahead}

abbrev pub table_counts : List VisitorRow → Counts
table_counts vs = record { waiting = count_waiting_rows vs; admitted = count_admitted_rows vs }

abbrev pub stored_counts : Option ℕ → Option ℕ → List VisitorRow → Counts
stored_counts (some w) (some a) vs = record { waiting = w; admitted = a }
stored_counts none a vs = table_counts vs
stored_counts (some w) none vs = table_counts vs

abbrev pub cached_counts : Option Counts → Meta → List VisitorRow → Counts
cached_counts (some d) meta vs = d
cached_counts none meta vs = stored_counts meta.count_waiting meta.count_admitted vs

-- What `ensureDepth` leaves in `this.depth`.
unfoldable pub depth : Room → Counts
depth r = cached_counts r.depth r.meta r.visitors

abbrev pub count_waiting : Room → ℕ
count_waiting r = (depth r).waiting

abbrev pub count_admitted : Room → ℕ
count_admitted r = (depth r).admitted

abbrev pub store_depth : Room → Counts → Room
store_depth r d = record r {
  depth = some d;
  meta = record (r.meta) { count_waiting = some d.waiting; count_admitted = some d.admitted };
}

unfoldable pub reconcile_depth : Room → Room
reconcile_depth r = record (store_depth r (table_counts r.visitors)) { ahead_cache = [] }

-- The deltas are given as what is added and what is taken away; `-` stops at 0, as the code's
-- `Math.max(0, …)` does.
unfoldable pub bump_depth : Room → Counts → Counts → Room
bump_depth r plus minus = store_depth r (record {
  waiting = (depth r).waiting + plus.waiting - minus.waiting;
  admitted = (depth r).admitted + plus.admitted - minus.admitted;
})

abbrev pub clear_ahead : Room → Room
clear_ahead r = record r { ahead_cache = [] }

unfoldable pub find_ahead : ℕ → List (ℕ × ℕ) → Option ℕ
find_ahead sequence [] = none
find_ahead sequence ((s, n) ∷ rest) =
    let later = find_ahead sequence rest in if s == sequence then some n else later

unfoldable pub waiting_ahead : Room → ℕ → Room × ℕ
waiting_ahead r sequence = elim (find_ahead sequence r.ahead_cache) [
  | some n ↦ (r, n)
  | none ↦
      let n = count_waiting_ahead sequence r.visitors in
      (record r { ahead_cache = (sequence, n) ∷ r.ahead_cache }, n)
]
