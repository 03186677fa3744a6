-- ===== src/Room/Table/Rows.antt =====
-- Lemmas on the visitor table: unique ids, sequence numbers below a bound, and how updates move
-- the counts.
use tide_guard.Base.{
  ℕ, ◌≤◌, ◌<◌, ◌≡◌, inl, inr, refl, Bool, true, false, none, some, List, [], ◌∷◌, ◌++◌, map, String,
  str_eq, eq_iff, filter, count, All, Bool-cases, arith,
}
use tide_guard.Room.{VisitorRow}
use tide_guard.Room.Table.{select_visitor}

-- `id` is the primary key, and later rows have greater sequence numbers.
abbrev pub Keyed : List VisitorRow → Type 0
Keyed [] = Unit {0}
Keyed (v ∷ vs) = (select_visitor v.id vs ≡ none) × All (λ w. v.sequence < w.sequence) vs × Keyed vs

abbrev pub Fresh : ℕ → List VisitorRow → Type 0
Fresh n = All λ v. v.sequence < n

pub Fresh-mono : (m n : ℕ) (vs : List VisitorRow) → m ≤ n → Fresh m vs → Fresh n vs
Fresh-mono m n [] h f = tt
Fresh-mono m n (v ∷ vs) h f = (omega arith, Fresh-mono m n vs h f.1)

pub select-Fresh :
    (n : ℕ) (id : String) (vs : List VisitorRow) (v : VisitorRow)
    → Fresh n vs
    → select_visitor id vs ≡ some v
    → v.sequence < n
unfolding select_visitor
select-Fresh n id [] v f h = cc
select-Fresh n id (w ∷ vs) v f h = elim (Bool-cases (str_eq w.id id)) [
  | inl e ↦ ground arith
  | inr e ↦ select-Fresh n id vs v f.1 (ground arith)
]

module _ (g : VisitorRow → VisitorRow) where
  select-map-none :
      (id : String) (vs : List VisitorRow)
      → ((v : VisitorRow) → (g v).id ≡ v.id)
      → select_visitor id vs ≡ none
      → select_visitor id (map g vs) ≡ none
  unfolding select_visitor
  select-map-none id [] same h = refl
  select-map-none id (v ∷ vs) same h = elim (Bool-cases (str_eq v.id id)) [
    | inl e ↦ ground arith
    | inr e ↦ ground (arith, same v, select-map-none id vs same)
  ]

  later-map :
      (n : ℕ) (vs : List VisitorRow)
      → ((v : VisitorRow) → (g v).sequence ≡ v.sequence)
      → All (λ w. n < w.sequence) vs
      → All (λ w. n < w.sequence) (map g vs)
  later-map n [] keeps a = tt
  later-map n (v ∷ vs) keeps a = (rw (keeps v) a.0, later-map n vs keeps a.1)

  pub Keyed-map :
      (vs : List VisitorRow)
      → ((v : VisitorRow) → (g v).id ≡ v.id)
      → ((v : VisitorRow) → (g v).sequence ≡ v.sequence)
      → Keyed vs
      → Keyed (map g vs)
  Keyed-map [] same keeps u = tt
  Keyed-map (v ∷ vs) same keeps u = (
    rw (same v) (select-map-none v.id vs same u.0),
    rw (keeps v) (later-map v.sequence vs keeps u.1),
    Keyed-map vs same keeps u.2,
  )

  pub Fresh-map :
      (n : ℕ) (vs : List VisitorRow)
      → ((v : VisitorRow) → (g v).sequence ≡ v.sequence)
      → Fresh n vs
      → Fresh n (map g vs)
  Fresh-map n [] same f = tt
  Fresh-map n (v ∷ vs) same f = (omega (arith, same v), Fresh-map n vs same f.1)

  pub count-map_same :
      (p : VisitorRow → Bool) (vs : List VisitorRow)
      → ((v : VisitorRow) → p (g v) ≡ p v)
      → count p (map g vs) ≡ count p vs
  count-map_same p [] same = refl
  count-map_same p (v ∷ vs) same = ground (arith, same v, count-map_same p vs same)

module _ (q : VisitorRow → Bool) where
  select-filter-none :
      (id : String) (vs : List VisitorRow)
      → select_visitor id vs ≡ none
      → select_visitor id (filter q vs) ≡ none
  unfolding select_visitor
  select-filter-none id [] h = refl
  select-filter-none id (v ∷ vs) h = ground (arith, select-filter-none id vs)

  later-filter :
      (n : ℕ) (vs : List VisitorRow)
      → All (λ w. n < w.sequence) vs
      → All (λ w. n < w.sequence) (filter q vs)
  later-filter n [] a = tt
  later-filter n (v ∷ vs) a = elim (Bool-cases (q v)) [
    | inl e ↦ rw e (a.0, later-filter n vs a.1)
    | inr e ↦ rw e (later-filter n vs a.1)
  ]

  pub Keyed-filter : (vs : List VisitorRow) → Keyed vs → Keyed (filter q vs)
  Keyed-filter [] u = tt
  Keyed-filter (v ∷ vs) u = elim (Bool-cases (q v)) [
    | inl e ↦
        rw e (select-filter-none v.id vs u.0, later-filter v.sequence vs u.1, Keyed-filter vs u.2)
    | inr e ↦ rw e (Keyed-filter vs u.2)
  ]

  pub Fresh-filter : (n : ℕ) (vs : List VisitorRow) → Fresh n vs → Fresh n (filter q vs)
  Fresh-filter n [] f = tt
  Fresh-filter n (v ∷ vs) f = elim (Bool-cases (q v)) [
    | inl e ↦ rw e (f.0, Fresh-filter n vs f.1)
    | inr e ↦ rw e (Fresh-filter n vs f.1)
  ]

  -- A filter that keeps every counted row keeps the count.
  pub count-filter_kept :
      (p : VisitorRow → Bool) (vs : List VisitorRow)
      → ((v : VisitorRow) → p v ≡ true → q v ≡ true)
      → count p (filter q vs) ≡ count p vs
  count-filter_kept p [] kept = refl
  count-filter_kept p (v ∷ vs) kept = ground (arith, kept v, count-filter_kept p vs kept)

-- A new row at the end.
select-snoc-none :
    (id : String) (v : VisitorRow) (vs : List VisitorRow)
    → select_visitor id vs ≡ none
    → str_eq v.id id ≡ false
    → select_visitor id (vs ++ v ∷ []) ≡ none
unfolding select_visitor
select-snoc-none id v [] h ne = ground arith
select-snoc-none id v (w ∷ vs) h ne = ground (arith, select-snoc-none id v vs)

str_eq_sym : (a b : String) → str_eq a b ≡ false → str_eq b a ≡ false
str_eq_sym a b h = ground (arith, eq_iff a b, eq_iff b a)

select_head :
    (id : String) (w : VisitorRow) (vs : List VisitorRow)
    → select_visitor id (w ∷ vs) ≡ none
    → (str_eq w.id id ≡ false) × (select_visitor id vs ≡ none)
unfolding select_visitor
select_head id w vs h = ground arith

later-snoc :
    (n : ℕ) (v : VisitorRow) (vs : List VisitorRow)
    → All (λ w. n < w.sequence) vs
    → n < v.sequence
    → All (λ w. n < w.sequence) (vs ++ v ∷ [])
later-snoc n v [] a h = (h, tt)
later-snoc n v (w ∷ vs) a h = (a.0, later-snoc n v vs a.1 h)

pub Keyed-snoc :
    (v : VisitorRow) (vs : List VisitorRow)
    → select_visitor v.id vs ≡ none
    → Fresh v.sequence vs
    → Keyed vs
    → Keyed (vs ++ v ∷ [])
unfolding select_visitor
Keyed-snoc v [] h f u = (refl, tt, tt)
Keyed-snoc v (w ∷ vs) h f u =
    let (ne, rest) = select_head v.id w vs h in
    (
      select-snoc-none w.id v vs u.0 (str_eq_sym w.id v.id ne),
      later-snoc w.sequence v vs u.1 f.0,
      Keyed-snoc v vs rest f.1 u.2,
    )

pub Fresh-snoc :
    (n : ℕ) (v : VisitorRow) (vs : List VisitorRow)
    → Fresh n vs
    → v.sequence < n
    → Fresh n (vs ++ v ∷ [])
Fresh-snoc n v [] f h = (h, tt)
Fresh-snoc n v (w ∷ vs) f h = (f.0, Fresh-snoc n v vs f.1 h)
