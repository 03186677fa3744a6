-- ===== src/Room/Admission/Ahead.antt =====
-- The line before a waiting visitor when `admitSelected` has filled slots in queue mode.
use tide_guard.Base.{
  ℕ, zero, suc, min, ◌+◌, ◌≤◌, ◌<◌, ◌≡◌, inl, inr, refl, subst, ◌∙◌, Bool, true, false, not, List,
  [], ◌∷◌, ltb, filter, length, ◌++◌, All, Bool-cases, arith,
}
use tide_guard.Engine.{queue, open_slots}
use tide_guard.Config.{QueueConfig}
use tide_guard.Room.{Room, VisitorRow}
use tide_guard.Room.Table.{waits, count_waiting_ahead}
use tide_guard.Room.Table.Rows.{Keyed}
use tide_guard.Room.Depth.{count_admitted}
use tide_guard.Room.Settings.{admission_mode, effective_config}
use tide_guard.Room.Admission.{Random, admit_up_to}
use tide_guard.Room.Admission.Fifo.{admit_first, admit_up_to-Fifo}

line_behind :
    (s n : ℕ) (vs : List VisitorRow)
    → s ≤ n
    → All (λ w. n < w.sequence) vs
    → count_waiting_ahead s vs ≡ 0
line_behind s n [] h a = refl
line_behind s n (v ∷ vs) h a = ground (arith, line_behind s n vs h a.1)

admit_first-ahead :
    (n now : ℕ) (entered : Bool) (s : ℕ) (vs : List VisitorRow)
    → Keyed vs
    → n ≤ count_waiting_ahead s vs
    → count_waiting_ahead s (admit_first n now entered vs) + n ≡ count_waiting_ahead s vs
unfolding admit_first
admit_first-ahead n now entered s [] k h = omega arith
admit_first-ahead zero now entered s (v ∷ vs) k h = omega arith
admit_first-ahead (suc n) now entered s (v ∷ vs) k h = elim (Bool-cases (waits v)) [
  | inl e ↦ elim (Bool-cases (ltb v.sequence s)) [
    | inl ahead ↦ rw e (ground (arith, admit_first-ahead n now entered s vs k.2))
    | inr behind ↦ absurd (ground (arith, line_behind s v.sequence vs))
  ]
  | inr e ↦ rw e (ground (arith, admit_first-ahead (suc n) now entered s vs k.2))
]

later_in_line :
    (s : ℕ) (vs : List VisitorRow)
    → All (λ w. s < w.sequence) vs
    → All (λ w. s < w.sequence) (filter waits vs)
later_in_line s [] a = tt
later_in_line s (u ∷ vs) a = elim (Bool-cases (waits u)) [
  | inl e ↦ rw e (a.0, later_in_line s vs a.1)
  | inr e ↦ rw e (later_in_line s vs a.1)
]

later_there :
    (s : ℕ) (ahead behind : List VisitorRow) (v : VisitorRow)
    → All (λ w. s < w.sequence) (ahead ++ v ∷ behind)
    → s < v.sequence
later_there s [] behind v a = a.0
later_there s (w ∷ ahead) behind v a = later_there s ahead behind v a.1

heads : (u w : VisitorRow) (us ws : List VisitorRow) → u ∷ us ≡ w ∷ ws → (u ≡ w) × (us ≡ ws)
heads u w us ws e = (cc, cc)

kept_row :
    (u : VisitorRow) (vs : List VisitorRow)
    → waits u ≡ true
    → u ∷ filter waits vs ≡ filter waits (u ∷ vs)
kept_row u vs h = rw h refl

passed_row :
    (u : VisitorRow) (vs : List VisitorRow)
    → waits u ≡ false
    → filter waits vs ≡ filter waits (u ∷ vs)
passed_row u vs h = rw h refl

taken :
    (u w : VisitorRow) (vs ws : List VisitorRow)
    → waits u ≡ true
    → filter waits (u ∷ vs) ≡ w ∷ ws
    → filter waits vs ≡ ws
taken u w vs ws h e = (heads u w (filter waits vs) ws (kept_row u vs h ∙ e)).1

first_in_line :
    (u w : VisitorRow) (vs ws : List VisitorRow)
    → waits u ≡ true
    → filter waits (u ∷ vs) ≡ w ∷ ws
    → u ≡ w
first_in_line u w vs ws h e = (heads u w (filter waits vs) ws (kept_row u vs h ∙ e)).0

skipped :
    (u : VisitorRow) (vs ws : List VisitorRow)
    → waits u ≡ false
    → filter waits (u ∷ vs) ≡ ws
    → filter waits vs ≡ ws
skipped u vs ws h e = passed_row u vs h ∙ e

-- A visitor behind `ahead` in the line of a keyed table has just these waiting ahead.
line-ahead :
    (vs ahead behind : List VisitorRow) (v : VisitorRow)
    → Keyed vs
    → filter waits vs ≡ ahead ++ v ∷ behind
    → count_waiting_ahead v.sequence vs ≡ length ahead
line-ahead [] [] behind v k e = cc
line-ahead [] (a ∷ ahead) behind v k e = cc
line-ahead (u ∷ vs) [] behind v k e = elim (Bool-cases (waits u)) [
  | inl h ↦
      let first : u ≡ v = first_in_line u v vs behind h e in
      let later : All (λ w. v.sequence < w.sequence) vs = rw (← first) k.1 in
      rw first (ground (arith, line_behind v.sequence v.sequence vs))
  | inr h ↦ rw h (line-ahead vs [] behind v k.2 (skipped u vs (v ∷ behind) h e))
]
line-ahead (u ∷ vs) (a ∷ ahead) behind v k e = elim (Bool-cases (waits u)) [
  | inl h ↦
      let rest = taken u a vs (ahead ++ v ∷ behind) h e in
      let before : u.sequence < v.sequence =
        later_there u.sequence ahead behind v
          (subst (All λ w. u.sequence < w.sequence) rest (later_in_line u.sequence vs k.1)) in
      ground (arith, line-ahead vs ahead behind v k.2 rest)
  | inr h ↦
      rw h (line-ahead vs (a ∷ ahead) behind v k.2 (skipped u vs (a ∷ ahead ++ v ∷ behind) h e))
]

-- In a room whose table is keyed, in queue mode, whatever the randomness: where the waiting
-- visitors in the order of joining are `ahead`, then v, then `behind`, and filling up to `limit`
-- slots admits n visitors that are all ahead of v, countWaitingAhead gives for v the length of
-- `ahead` before, and n less after; n is the smaller of the limit and the open slots.
pub admit_up_to-ahead :
    (rnd : Random) (limit : ℕ) (config : QueueConfig) (now : ℕ) (r : Room)
    (ahead behind : List VisitorRow) (v : VisitorRow)
    → Keyed r.visitors
    → admission_mode r config ≡ queue
    → filter waits r.visitors ≡ ahead ++ v ∷ behind
    → min (open_slots config.max_concurrent_users (count_admitted r)) limit ≤ length ahead
    → (count_waiting_ahead v.sequence r.visitors ≡ length ahead)
      × (count_waiting_ahead v.sequence (admit_up_to rnd limit config now r).0.visitors
            + min (open_slots config.max_concurrent_users (count_admitted r)) limit
          ≡ length ahead)
admit_up_to-ahead rnd limit config now r ahead behind v k mode line few =
    let n = min (open_slots config.max_concurrent_users (count_admitted r)) limit in
    let entered = not (effective_config r config).require_click_to_enter in
    let before = line-ahead r.visitors ahead behind v k line in
    let moved =
      admit_first-ahead n now entered v.sequence r.visitors k (omega (arith, before, few)) in
    (before, rw ((admit_up_to-Fifo rnd limit config now r k mode).0) (moved ∙ before))
