-- ===== src/Room/Departure/Leaving.antt =====
-- What `leave` does to the visitor table.
use tide_guard.Base.{
  ℕ, ◌+◌, ◌≡◌, inl, inr, refl, ap, Bool, true, false, ◌&&◌, none, some, List, [], ◌∷◌, String,
  str_eq, eq_iff, if◌then◌else◌, count, Bool-cases, arith,
}
use tide_guard.Room.{VisitorRow, left}
use tide_guard.Room.Table.{select_visitor}
use tide_guard.Room.Table.Rows.{Keyed, Fresh, Keyed-map, Fresh-map}
use tide_guard.Room.Handlers.{is_live}
use tide_guard.Room.Departure.{set_left}

set_left-none :
    (id : String) (vs : List VisitorRow) → select_visitor id vs ≡ none → set_left id vs ≡ vs
unfolding set_left select_visitor
set_left-none id [] h = refl
set_left-none id (v ∷ vs) h = ground (arith, set_left-none id vs)

select_same :
    (a b : String) (vs : List VisitorRow)
    → str_eq a b ≡ true
    → select_visitor a vs ≡ none
    → select_visitor b vs ≡ none
select_same a b vs e h = rw (← (eq_iff a b).0 e) h

-- A row that leaves is the only one that a count loses.
pub count-set_left :
    (p : VisitorRow → Bool) (id : String) (vs : List VisitorRow) (v : VisitorRow)
    → ((w : VisitorRow) → p (record w { status = left }) ≡ false)
    → Keyed vs
    → select_visitor id vs ≡ some v
    → is_live v.status ≡ true
    → count p (set_left id vs) + (if p v then 1 else 0) ≡ count p vs
unfolding set_left select_visitor
count-set_left p id [] v gone u h live = cc
count-set_left p id (w ∷ vs) v gone u h live = elim (Bool-cases (str_eq w.id id)) [
  | inl e ↦
      let same : w ≡ v = ground arith in
      ground (arith, gone w, ap p same, set_left-none id vs (select_same w.id id vs e u.0))
  | inr e ↦ ground (arith, count-set_left p id vs v gone u.2)
]

leave_row : String → VisitorRow → VisitorRow
leave_row id v = if str_eq v.id id && is_live v.status then record v { status = left } else v

leave_row-id : (id : String) (v : VisitorRow) → (leave_row id v).id ≡ v.id
unfolding leave_row
leave_row-id id v = ground arith

leave_row-sequence : (id : String) (v : VisitorRow) → (leave_row id v).sequence ≡ v.sequence
unfolding leave_row
leave_row-sequence id v = ground arith

pub set_left-Keyed : (id : String) (vs : List VisitorRow) → Keyed vs → Keyed (set_left id vs)
unfolding set_left leave_row
set_left-Keyed id vs u = Keyed-map (leave_row id) vs (leave_row-id id) (leave_row-sequence id) u

pub set_left-Fresh :
    (n : ℕ) (id : String) (vs : List VisitorRow) → Fresh n vs → Fresh n (set_left id vs)
unfolding set_left leave_row
set_left-Fresh n id vs f = Fresh-map (leave_row id) n vs (leave_row-sequence id) f
