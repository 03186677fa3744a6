-- ===== src/Room/View/Positions.antt =====
-- The place in line that `toView` shows.
use tide_guard.Base.{
  ℕ, ◌+◌, ◌<◌, ◌≡◌, inl, inr, refl, ap, Bool, true, ◌&&◌, some, List, [], ◌∷◌, String, str_eq, ltb,
  count, All, Bool-cases, arith,
}
use tide_guard.Engine.{queue}
use tide_guard.Config.{QueueConfig}
use tide_guard.Room.{Room, VisitorRow, waiting, is_waiting}
use tide_guard.Room.Table.{select_visitor, waits, count_waiting_rows, count_waiting_ahead}
use tide_guard.Room.Table.Rows.{Keyed, select-Fresh}
use tide_guard.Room.Settings.{admission_mode}
use tide_guard.Room.Waiters.{place_in_line}
use tide_guard.Room.View.{to_view, line_of, waiting_line_of}
use tide_guard.Room.Coherence.{Coherent}
use tide_guard.Room.Coherence.Primitives.{waiting_ahead_lem, depth-Exact}

abbrev is_behind : ℕ → VisitorRow → Bool
is_behind sequence v = is_waiting v.status && ltb sequence v.sequence

-- The visitors of the table who wait and joined later.
abbrev pub count_waiting_behind : ℕ → List VisitorRow → ℕ
count_waiting_behind sequence = count (is_behind sequence)

later_rows :
    (s : ℕ) (vs : List VisitorRow)
    → All (λ w. s < w.sequence) vs
    → (count_waiting_ahead s vs ≡ 0) × (count_waiting_behind s vs ≡ count_waiting_rows vs)
later_rows s [] a = (refl, refl)
later_rows s (w ∷ vs) a = (ground (arith, later_rows s vs a.1), ground (arith, later_rows s vs a.1))

selected_later :
    (id : String) (s : ℕ) (vs : List VisitorRow) (v : VisitorRow)
    → All (λ w. s < w.sequence) vs
    → select_visitor id vs ≡ some v
    → s < v.sequence
unfolding select_visitor
selected_later id s [] v a e = cc
selected_later id s (w ∷ vs) v a e = elim (Bool-cases (str_eq w.id id)) [
  | inl h ↦ let same : w ≡ v = ground arith in rw (← same) a.0
  | inr h ↦ selected_later id s vs v a.1 (ground arith)
]

line_splits :
    (id : String) (vs : List VisitorRow) (v : VisitorRow)
    → Keyed vs
    → select_visitor id vs ≡ some v
    → waits v ≡ true
    → count_waiting_ahead v.sequence vs + 1 + count_waiting_behind v.sequence vs
      ≡ count_waiting_rows vs
unfolding select_visitor
line_splits id [] v k e w = cc
line_splits id (u ∷ vs) v k e w = elim (Bool-cases (str_eq u.id id)) [
  | inl h ↦
      let same : u ≡ v = ground arith in
      let later : All (λ w. v.sequence < w.sequence) vs = rw (← same) k.1 in
      rw same (ground (arith, later_rows v.sequence vs later))
  | inr h ↦
      let later : select_visitor id vs ≡ some v = ground arith in
      ground (arith, selected_later id u.sequence vs v k.1 later, line_splits id vs v k.2 later w)
]

-- In a coherent room in queue mode, the view of a visitor of the table who waits shows, from the
-- cached counts, what the table gives: the number of waiting visitors who joined earlier, the place
-- after these, and the number of waiting visitors who joined later.
pub to_view-Place :
    (r : Room) (v : VisitorRow) (config : QueueConfig) (now : ℕ)
    → Coherent r
    → admission_mode r config ≡ queue
    → select_visitor v.id r.visitors ≡ some v
    → v.status ≡ waiting
    → let view = (to_view r v config now).1 in
      (view.position ≡ some (count_waiting_ahead v.sequence r.visitors + 1))
      × (view.ahead ≡ some (count_waiting_ahead v.sequence r.visitors))
      × (view.behind ≡ some (count_waiting_behind v.sequence r.visitors))
unfolding to_view line_of waiting_line_of place_in_line
to_view-Place r v config now c mode found w =
    let s = v.sequence in
    let (dw, da) = depth-Exact r c in
    let ahead = (waiting_ahead_lem r s (select-Fresh _ v.id r.visitors v c.fresh found) c).1 in
    let split = line_splits v.id r.visitors v c.keyed found (ap is_waiting w) in
    rw (w, mode, ahead) (refl, ap some (omega arith), ap some (omega arith))
