-- ===== src/Room/Admission/Fifo.antt =====
-- `selectWaiting` and `admitSelected` in queue mode against a description by position.
use tide_guard.Base.{
  ℕ, zero, suc, min, ◌<◌, ◌≡◌, inl, inr, refl, sym, ap, ◌∙◌, Bool, true, false, not, none, List, [],
  ◌∷◌, String, str_eq, eq_iff, leb, if◌then◌else◌, filter, take, sort_by, insert_by, All,
  Bool-cases, arith,
}
use tide_guard.Engine.{queue, open_slots}
use tide_guard.Config.{QueueConfig}
use tide_guard.Room.{Room, VisitorRow}
use tide_guard.Room.Table.{select_visitor, waits}
use tide_guard.Room.Table.Rows.{Keyed, Keyed-filter}
use tide_guard.Room.Depth.{count_admitted, bump_depth}
use tide_guard.Room.Settings.{admission_mode, effective_config}
use tide_guard.Room.Waiters.{update_waiting}
use tide_guard.Room.Traffic.{record_traffic, flush_traffic_bucket}
use tide_guard.Room.Admission.{
  Random, promote, promote_all, is_waiting_id, waiting_line, ids_of, has_id, select_waiting,
  admit_up_to, admit_selected, after_promotion,
}
use tide_guard.Room.Admission.Promotion.{update_waiting-none}

-- The specification: going down the table, which is in the order of joining, the first n rows that
-- wait are admitted, and no other row changes.
unfoldable pub admit_first : ℕ → ℕ → Bool → List VisitorRow → List VisitorRow
admit_first n now entered [] = []
admit_first zero now entered (v ∷ vs) = v ∷ vs
admit_first (suc n) now entered (v ∷ vs) =
    let front = promote now entered v ∷ admit_first n now entered vs in
    let skip = v ∷ admit_first (suc n) now entered vs in if waits v then front else skip

abbrev pub front_ids : ℕ → List VisitorRow → List String
front_ids n vs = take n (ids_of (filter waits vs))

insert-front :
    (v : VisitorRow) (vs : List VisitorRow)
    → All (λ w. v.sequence < w.sequence) vs
    → insert_by (λ w. w.sequence) v vs ≡ v ∷ vs
unfolding insert_by
insert-front v [] a = refl
insert-front v (w ∷ vs) a = ground arith

sort-Keyed : (vs : List VisitorRow) → Keyed vs → sort_by (λ w. w.sequence) vs ≡ vs
unfolding sort_by
sort-Keyed [] k = refl
sort-Keyed (v ∷ vs) k = rw (sort-Keyed vs k.2) (insert-front v vs k.1)

line_in_order : (vs : List VisitorRow) → Keyed vs → waiting_line vs ≡ filter waits vs
unfolding waiting_line
line_in_order vs k = sort-Keyed (filter waits vs) (Keyed-filter waits vs k)

-- Promoting ids that are not the first row's leaves the first row.
promote_all-cons :
    (now : ℕ) (entered : Bool) (ids : List String) (v : VisitorRow) (vs : List VisitorRow)
    → has_id v.id ids ≡ false
    → promote_all now entered ids (v ∷ vs)
      ≡ ((promote_all now entered ids vs).0, v ∷ (promote_all now entered ids vs).1)
unfolding promote_all update_waiting select_visitor has_id
promote_all-cons now entered [] v vs h = refl
promote_all-cons now entered (id ∷ ids) v vs h =
    let other : str_eq v.id id ≡ false = ground (arith, eq_iff v.id id, eq_iff id v.id) in
    let rest : has_id v.id ids ≡ false = ground arith in
    rw other (
      ground (
        arith,
        promote_all-cons now entered ids v (update_waiting id (promote now entered) vs) rest,
      ))

fresh_id :
    (id : String) (n : ℕ) (vs : List VisitorRow)
    → select_visitor id vs ≡ none
    → has_id id (front_ids n vs) ≡ false
unfolding select_visitor has_id
fresh_id id zero vs h = refl
fresh_id id (suc n) [] h = refl
fresh_id id (suc n) (v ∷ vs) h = elim (Bool-cases (waits v)) [
  | inl e ↦ rw e (ground (arith, fresh_id id n vs))
  | inr e ↦ rw e (fresh_id id (suc n) vs (ground arith))
]

head_written :
    (v : VisitorRow) (vs : List VisitorRow) → waits v ≡ true → is_waiting_id v.id (v ∷ vs) ≡ true
unfolding select_visitor
head_written v vs w =
    let itself : str_eq v.id v.id ≡ true = (eq_iff v.id v.id).1 refl in rw itself w

update_head :
    (id : String) (f : VisitorRow → VisitorRow) (v : VisitorRow) (vs : List VisitorRow)
    → waits v ≡ true
    → select_visitor id vs ≡ none
    → v.id ≡ id
    → update_waiting id f (v ∷ vs) ≡ f v ∷ vs
unfolding update_waiting
update_head id f v vs w none_later same =
    let itself : str_eq v.id id ≡ true = (eq_iff v.id id).1 same in
    rw (itself, w) (ap (λ (l : List VisitorRow). f v ∷ l) (update_waiting-none id f vs none_later))

promote_all-head :
    (now : ℕ) (entered : Bool) (ids : List String) (v : VisitorRow) (vs : List VisitorRow)
    → waits v ≡ true
    → select_visitor v.id vs ≡ none
    → has_id v.id ids ≡ false
    → promote_all now entered (v.id ∷ ids) (v ∷ vs) ≡ (
      v.id ∷ (promote_all now entered ids vs).0,
      promote now entered v ∷ (promote_all now entered ids vs).1,
    )
unfolding promote_all
promote_all-head now entered ids v vs w none_later other = rw (
  head_written v vs w,
  update_head v.id (promote now entered) v vs w none_later refl,
  promote_all-cons now entered ids (promote now entered v) vs other,
)

promote-front :
    (now : ℕ) (entered : Bool) (n : ℕ) (vs : List VisitorRow)
    → Keyed vs
    → promote_all now entered (front_ids n vs) vs ≡ (front_ids n vs, admit_first n now entered vs)
unfolding admit_first promote_all
promote-front now entered zero [] k = refl
promote-front now entered zero (v ∷ vs) k = refl
promote-front now entered (suc n) [] k = refl
promote-front now entered (suc n) (v ∷ vs) k = elim (Bool-cases (waits v)) [
  | inl e ↦ rw e (
      promote_all-head now entered (front_ids n vs) v vs e k.0 (fresh_id v.id n vs k.0)
      ∙ ap (λ (p : List String × List VisitorRow). (v.id ∷ p.0, promote now entered v ∷ p.1))
          (promote-front now entered n vs k.2))
  | inr e ↦ rw e (
      promote_all-cons now entered (front_ids (suc n) vs) v vs (fresh_id v.id (suc n) vs k.0)
      ∙ ap (λ (p : List String × List VisitorRow). (p.0, v ∷ p.1))
          (promote-front now entered (suc n) vs k.2))
]

admit_first-zero :
    (now : ℕ) (entered : Bool) (vs : List VisitorRow) → admit_first 0 now entered vs ≡ vs
unfolding admit_first
admit_first-zero now entered [] = refl
admit_first-zero now entered (v ∷ vs) = refl

pub after_promotion-visitors :
    (n : ℕ) (config : QueueConfig) (now : ℕ) (r : Room)
    → (after_promotion n config now r).visitors ≡ r.visitors
unfolding after_promotion record_traffic flush_traffic_bucket bump_depth
after_promotion-visitors n config now r = ground arith

-- In a room whose table is keyed, in queue mode, whatever the randomness: filling up to `limit`
-- slots admits exactly the first n waiting visitors in the order of joining, n the smaller of the
-- limit and the open slots, reports their ids in that order, and changes no other row.
pub admit_up_to-Fifo :
    (rnd : Random) (limit : ℕ) (config : QueueConfig) (now : ℕ) (r : Room)
    → Keyed r.visitors
    → admission_mode r config ≡ queue
    → let n = min (open_slots config.max_concurrent_users (count_admitted r)) limit in
      let entered = not (effective_config r config).require_click_to_enter in
      let (r', ids) = admit_up_to rnd limit config now r in
      (r'.visitors ≡ admit_first n now entered r.visitors) × (ids ≡ front_ids n r.visitors)
unfolding admit_up_to admit_selected select_waiting
admit_up_to-Fifo rnd limit config now r k mode =
    let n = min (open_slots config.max_concurrent_users (count_admitted r)) limit in
    let entered = not (effective_config r config).require_click_to_enter in
    elim (Bool-cases (leb n 0)) [
      | inl e ↦
          let zero_slots : n ≡ 0 = ground arith in
          rw (e, zero_slots) (sym (admit_first-zero now entered r.visitors), refl)
      | inr e ↦
          rw (e, mode, line_in_order r.visitors k, promote-front now entered n r.visitors k)
            (after_promotion-visitors _ config now _, refl)
    ]
