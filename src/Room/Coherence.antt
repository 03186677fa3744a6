-- ===== src/Room/Coherence.antt =====
-- What it means that the caches of a room agree with its tables.
pub mod Primitives
pub mod Steps
pub mod Changes
pub mod CheckIns
pub mod Operations
pub mod Admissions
pub mod Controls
pub mod History
use tide_guard.Base.{ℕ, ◌+◌, ◌<◌, ◌≡◌, Option, none, some, List, [], ◌∷◌, All, subst, sym}
use tide_guard.Room.{Room, VisitorRow, Counts}
use tide_guard.Room.Table.{count_waiting_rows, count_admitted_rows, count_waiting_ahead}
use tide_guard.Room.Table.Rows.{Keyed, Fresh}

abbrev pub Exact : Counts → List VisitorRow → Type 0
Exact d vs = (d.waiting ≡ count_waiting_rows vs) × (d.admitted ≡ count_admitted_rows vs)

abbrev pub DepthOk : Option Counts → List VisitorRow → Type 0
DepthOk none vs = Unit
DepthOk (some d) vs = Exact d vs

abbrev pub StoredOk : Option ℕ → Option ℕ → List VisitorRow → Type 0
StoredOk (some w) (some a) vs = (w ≡ count_waiting_rows vs) × (a ≡ count_admitted_rows vs)
StoredOk none a vs = Unit
StoredOk (some w) none vs = Unit

abbrev pub CacheOk : List (ℕ × ℕ) → ℕ → List VisitorRow → Type 0
CacheOk cache next vs = All (λ e. (e.1 ≡ count_waiting_ahead e.0 vs) × (e.0 < next)) cache

-- What coherence reads of a room.
pub record Core : Type 0 where
  pub visitors : List VisitorRow
  pub depth : Option Counts
  pub count_waiting : Option ℕ
  pub count_admitted : Option ℕ
  pub ahead_cache : List (ℕ × ℕ)
  pub next_sequence : ℕ

abbrev pub core_of : Room → Core
core_of r = record {
  visitors = r.visitors;
  depth = r.depth;
  count_waiting = r.meta.count_waiting;
  count_admitted = r.meta.count_admitted;
  ahead_cache = r.ahead_cache;
  next_sequence = r.meta.next_sequence;
}

-- The counts in memory and in `meta`, where there are any, are those of the table; every cached
-- line position is what the table gives; ids are unique, and sequence numbers rise and are spent.
pub record IsCoherent (c : Core) : Type 0 where
  pub depth_ok : DepthOk c.depth c.visitors
  pub stored_ok : StoredOk c.count_waiting c.count_admitted c.visitors
  pub cache_ok : CacheOk c.ahead_cache c.next_sequence c.visitors
  pub keyed : Keyed c.visitors
  pub fresh : Fresh c.next_sequence c.visitors

abbrev pub Coherent : Room → Type 0
Coherent r = IsCoherent (core_of r)

-- Coherence does not depend on the rest of the room.
pub of_core : {c d : Core} → d ≡ c → IsCoherent c → IsCoherent d
of_core e c = subst IsCoherent (sym e) c
