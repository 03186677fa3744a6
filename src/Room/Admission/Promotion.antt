-- ===== src/Room/Admission/Promotion.antt =====
-- What the loop of `admitSelected` does to the visitor table.
use tide_guard.Base.{
  ℕ, ◌+◌, ◌≡◌, inl, inr, refl, ap, ◌∙◌, Bool, true, false, ◌&&◌, none, List, [], ◌∷◌, String,
  str_eq, eq_iff, if◌then◌else◌, length, Bool-cases, arith,
}
use tide_guard.Room.{VisitorRow, is_waiting}
use tide_guard.Room.Table.{select_visitor, count_waiting_rows, count_admitted_rows}
use tide_guard.Room.Table.Rows.{Keyed, Fresh, Keyed-map, Fresh-map}
use tide_guard.Room.Waiters.{update_waiting}
use tide_guard.Room.Admission.{promote, promote_all, is_waiting_id}

-- No row of the id, no write.
pub update_waiting-none :
    (id : String) (f : VisitorRow → VisitorRow) (vs : List VisitorRow)
    → select_visitor id vs ≡ none
    → update_waiting id f vs ≡ vs
unfolding update_waiting select_visitor
update_waiting-none id f [] h = refl
update_waiting-none id f (v ∷ vs) h = ground (arith, update_waiting-none id f vs)

select_same :
    (a b : String) (vs : List VisitorRow)
    → str_eq a b ≡ true
    → select_visitor a vs ≡ none
    → select_visitor b vs ≡ none
select_same a b vs e h = rw (← (eq_iff a b).0 e) h

-- A row of the id that does not wait is not written either.
pub update_waiting-not :
    (id : String) (f : VisitorRow → VisitorRow) (vs : List VisitorRow)
    → Keyed vs
    → is_waiting_id id vs ≡ false
    → update_waiting id f vs ≡ vs
unfolding update_waiting select_visitor
update_waiting-not id f [] u h = refl
update_waiting-not id f (v ∷ vs) u h = elim (Bool-cases (str_eq v.id id)) [
  | inl e ↦ ground (arith, update_waiting-none id f vs (select_same v.id id vs e u.0))
  | inr e ↦ ground (arith, update_waiting-not id f vs u.2)
]

-- The counts before, from the counts after one row was promoted.
abbrev Promoted : List VisitorRow → List VisitorRow → ℕ → Type 0
Promoted vs vs' n =
    (count_waiting_rows vs' + n ≡ count_waiting_rows vs)
    × (count_admitted_rows vs' ≡ count_admitted_rows vs + n)

promote_one :
    (now : ℕ) (entered : Bool) (id : String) (vs : List VisitorRow)
    → Keyed vs
    → is_waiting_id id vs ≡ true
    → Promoted vs (update_waiting id (promote now entered) vs) 1
unfolding update_waiting select_visitor
promote_one now entered id [] u h = cc
promote_one now entered id (v ∷ vs) u h = elim (Bool-cases (str_eq v.id id)) [
  | inl e ↦
      ground (arith, update_waiting-none id (promote now entered) vs (select_same v.id id vs e u.0))
  | inr e ↦ ground (arith, promote_one now entered id vs u.2)
]

module _ (now : ℕ) (entered : Bool) (id : String) where
  promote_row : VisitorRow → VisitorRow
  promote_row v = if str_eq v.id id && is_waiting v.status then promote now entered v else v

  promote_row-id : (v : VisitorRow) → (promote_row v).id ≡ v.id
  unfolding promote_row
  promote_row-id v = ground arith

  promote_row-sequence : (v : VisitorRow) → (promote_row v).sequence ≡ v.sequence
  unfolding promote_row
  promote_row-sequence v = ground arith

  update-Keyed :
      (vs : List VisitorRow) → Keyed vs → Keyed (update_waiting id (promote now entered) vs)
  unfolding update_waiting promote_row
  update-Keyed vs u = Keyed-map promote_row vs promote_row-id promote_row-sequence u

  update-Fresh :
      (n : ℕ) (vs : List VisitorRow)
      → Fresh n vs
      → Fresh n (update_waiting id (promote now entered) vs)
  unfolding update_waiting promote_row
  update-Fresh n vs f = Fresh-map promote_row n vs promote_row-sequence f

pub promote_all-Keyed :
    (now : ℕ) (entered : Bool) (ids : List String) (vs : List VisitorRow)
    → Keyed vs
    → Keyed (promote_all now entered ids vs).1
unfolding promote_all
promote_all-Keyed now entered [] vs u = u
promote_all-Keyed now entered (id ∷ ids) vs u =
    promote_all-Keyed now entered ids _ (update-Keyed now entered id vs u)

pub promote_all-Fresh :
    (n now : ℕ) (entered : Bool) (ids : List String) (vs : List VisitorRow)
    → Fresh n vs
    → Fresh n (promote_all now entered ids vs).1
unfolding promote_all
promote_all-Fresh n now entered [] vs f = f
promote_all-Fresh n now entered (id ∷ ids) vs f =
    promote_all-Fresh n now entered ids _ (update-Fresh now entered id n vs f)

-- Whatever ids are given, repeated or unknown ones too: every id that the loop reports moved one
-- row from waiting to admitted, and no other row changed status.
pub promote_all-counts :
    (now : ℕ) (entered : Bool) (ids : List String) (vs : List VisitorRow)
    → Keyed vs
    → let r = promote_all now entered ids vs in Promoted vs r.1 (length r.0)
unfolding promote_all
promote_all-counts now entered [] vs u = (omega arith, omega arith)
promote_all-counts now entered (id ∷ ids) vs u =
    let vs' = update_waiting id (promote now entered) vs in
    let rest = promote_all-counts now entered ids vs' (update-Keyed now entered id vs u) in
    elim (Bool-cases (is_waiting_id id vs)) [
      | inl e ↦ let one = promote_one now entered id vs u e in rw e (omega arith, omega arith)
      | inr e ↦
          let none_written = update_waiting-not id (promote now entered) vs u e in
          rw e (
            omega (arith, ap count_waiting_rows none_written),
            omega (arith, ap count_admitted_rows none_written),
          )
    ]

-- If the loop reports nothing, the table is as it was.
pub promote_all-nil :
    (now : ℕ) (entered : Bool) (ids : List String) (vs : List VisitorRow)
    → Keyed vs
    → length (promote_all now entered ids vs).0 ≡ 0
    → (promote_all now entered ids vs).1 ≡ vs
unfolding promote_all
promote_all-nil now entered [] vs u h = refl
promote_all-nil now entered (id ∷ ids) vs u h =
    let vs' = update_waiting id (promote now entered) vs in
    elim (Bool-cases (is_waiting_id id vs)) [
      | inl e ↦ absurd (ground arith)
      | inr e ↦
          promote_all-nil now entered ids vs' (update-Keyed now entered id vs u) (ground arith)
          ∙ update_waiting-not id (promote now entered) vs u e
    ]
