-- ===== src/Room/Table.antt =====
-- src/durable-object/visitor-sql.ts: the queries on the visitor table.
pub mod Rows
use tide_guard.Base.{
  ℕ, ◌+◌, ◌-◌, ◌*◌, ◌/◌, min, Bool, true, false, ◌&&◌, Option, none, some, List, [], ◌∷◌, String,
  str_eq, ltb, ◌==◌, if◌then◌else◌, count,
}
use tide_guard.Room.{VisitorRow, Status, waiting, admitted, is_waiting, is_admitted}

unfoldable pub select_visitor : String → List VisitorRow → Option VisitorRow
select_visitor id [] = none
select_visitor id (v ∷ vs) =
    let rest = select_visitor id vs in if str_eq v.id id then some v else rest

abbrev pub waits : VisitorRow → Bool
waits v = is_waiting v.status

abbrev pub holds_slot : VisitorRow → Bool
holds_slot v = is_admitted v.status

-- `countVisitorsByStatus` for the two statuses that it is asked for.
abbrev pub count_waiting_rows : List VisitorRow → ℕ
count_waiting_rows = count waits

abbrev pub count_admitted_rows : List VisitorRow → ℕ
count_admitted_rows = count holds_slot

abbrev pub count_entered_visitors : List VisitorRow → ℕ
count_entered_visitors = count λ v. is_admitted v.status && v.entered

abbrev pub is_ahead_of : ℕ → VisitorRow → Bool
is_ahead_of sequence v = is_waiting v.status && ltb v.sequence sequence

abbrev pub count_waiting_ahead : ℕ → List VisitorRow → ℕ
count_waiting_ahead sequence = count (is_ahead_of sequence)

pub record WaitStats : Type 0 where
  pub average_wait_seconds : ℕ
  pub oldest_wait_seconds : ℕ

-- Of the waiting rows: the sum of `joined_at`.
pub sum_joined : List VisitorRow → ℕ
sum_joined [] = 0
sum_joined (v ∷ vs) = let rest = sum_joined vs in if waits v then v.joined_at + rest else rest

-- Of the waiting rows: the least `joined_at`, if there is one.
pub first_joined : List VisitorRow → Option ℕ
first_joined [] = none
first_joined (v ∷ vs) =
    let rest = first_joined vs in
    if waits v then some (elim rest [ none ↦ v.joined_at | some t ↦ min v.joined_at t ]) else rest

-- `Math.round(a / b)`, b not 0.
abbrev pub round_div : ℕ → ℕ → ℕ
round_div a b = (2 * a + b) / (2 * b)

-- The average and the maximum of `now - joined_at`, each with the final `Math.max(0, …)`.
unfoldable pub waiting_wait_stats : List VisitorRow → ℕ → WaitStats
unfolding sum_joined first_joined
waiting_wait_stats vs now =
    let n = count_waiting_rows vs in
    record {
      average_wait_seconds = if n == 0 then 0 else round_div (n * now - sum_joined vs) (n * 1000);
      oldest_wait_seconds = elim (first_joined vs) [ none ↦ 0 | some t ↦ round_div (now - t) 1000 ];
    }
