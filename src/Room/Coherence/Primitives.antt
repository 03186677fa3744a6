-- ===== src/Room/Coherence/Primitives.antt =====
-- The caches of a room under changes of its table and of its counts.
use tide_guard.Base.{
  ℕ, ◌+◌, ◌≤◌, ◌<◌, ◌≡◌, inl, inr, refl, sym, subst, ◌∙◌, Option, none, some, List, [], ◌∷◌, ◌++◌,
  ◌==◌, count-append, Bool-cases, Option-cases, arith,
}
use tide_guard.Room.{Room, Meta, VisitorRow, Counts}
use tide_guard.Room.Table.{
  count_waiting_rows, count_admitted_rows, count_waiting_ahead, is_ahead_of,
}
use tide_guard.Room.Table.Rows.{Keyed, Fresh}
use tide_guard.Room.Depth.{
  depth, cached_counts, stored_counts, reconcile_depth, store_depth, find_ahead, waiting_ahead,
}
use tide_guard.Room.Coherence.{Coherent, Exact, DepthOk, StoredOk, CacheOk}

stored-Exact :
    (w a : Option ℕ) (vs : List VisitorRow) → StoredOk w a vs → Exact (stored_counts w a vs) vs
stored-Exact (some w) (some a) vs s = s
stored-Exact none a vs s = (refl, refl)
stored-Exact (some w) none vs s = (refl, refl)

cached-Exact :
    (d : Option Counts) (m : Meta) (vs : List VisitorRow)
    → DepthOk d vs
    → StoredOk m.count_waiting m.count_admitted vs
    → Exact (cached_counts d m vs) vs
cached-Exact (some d) m vs ok s = ok
cached-Exact none m vs ok s = stored-Exact m.count_waiting m.count_admitted vs s

-- What `countByStatus` answers is what a count of the table would.
pub depth-Exact : (r : Room) → Coherent r → Exact (depth r) r.visitors
unfolding depth
depth-Exact r c = cached-Exact r.depth r.meta r.visitors c.depth_ok c.stored_ok

-- The table changed, and the counts that are stored for it are the new ones.
pub store-Coherent :
    (r : Room) (d : Counts)
    → Exact d r.visitors
    → CacheOk r.ahead_cache r.meta.next_sequence r.visitors
    → Keyed r.visitors
    → Fresh r.meta.next_sequence r.visitors
    → Coherent (store_depth r d)
store-Coherent r d e cached u f = record {
  depth_ok = e;
  stored_ok = e;
  cache_ok = cached;
  keyed = u;
  fresh = f;
}

pub reconcile-Coherent :
    (r : Room)
    → Keyed r.visitors
    → Fresh r.meta.next_sequence r.visitors
    → Coherent (reconcile_depth r)
unfolding reconcile_depth
reconcile-Coherent r u f = record {
  depth_ok = (refl, refl);
  stored_ok = (refl, refl);
  cache_ok = tt;
  keyed = u;
  fresh = f;
}

DepthOk-counts :
    (d : Option Counts) (vs vs' : List VisitorRow)
    → count_waiting_rows vs' ≡ count_waiting_rows vs
    → count_admitted_rows vs' ≡ count_admitted_rows vs
    → DepthOk d vs
    → DepthOk d vs'
DepthOk-counts none vs vs' w a ok = tt
DepthOk-counts (some d) vs vs' w a ok = (ok.0 ∙ sym w, ok.1 ∙ sym a)

StoredOk-counts :
    (m n : Option ℕ) (vs vs' : List VisitorRow)
    → count_waiting_rows vs' ≡ count_waiting_rows vs
    → count_admitted_rows vs' ≡ count_admitted_rows vs
    → StoredOk m n vs
    → StoredOk m n vs'
StoredOk-counts (some m) (some n) vs vs' w a ok = (ok.0 ∙ sym w, ok.1 ∙ sym a)
StoredOk-counts none n vs vs' w a ok = tt
StoredOk-counts (some m) none vs vs' w a ok = tt

CacheOk-ahead :
    (cache : List (ℕ × ℕ)) (next : ℕ) (vs vs' : List VisitorRow)
    → ((s : ℕ) → s < next → count_waiting_ahead s vs' ≡ count_waiting_ahead s vs)
    → CacheOk cache next vs
    → CacheOk cache next vs'
CacheOk-ahead [] next vs vs' same ok = tt
CacheOk-ahead (e ∷ es) next vs vs' same ok =
    ((ok.0.0 ∙ sym (same e.0 ok.0.1), ok.0.1), CacheOk-ahead es next vs vs' same ok.1)

-- The table changed in ways that no count sees.
pub visitors-Coherent :
    (r : Room) (vs : List VisitorRow)
    → count_waiting_rows vs ≡ count_waiting_rows r.visitors
    → count_admitted_rows vs ≡ count_admitted_rows r.visitors
    → ((s : ℕ) → count_waiting_ahead s vs ≡ count_waiting_ahead s r.visitors)
    → Keyed vs
    → Fresh r.meta.next_sequence vs
    → Coherent r
    → Coherent (record r { visitors = vs })
visitors-Coherent r vs w a ahead u f c = record {
  depth_ok = DepthOk-counts r.depth r.visitors vs w a c.depth_ok;
  stored_ok =
      StoredOk-counts r.meta.count_waiting r.meta.count_admitted r.visitors vs w a c.stored_ok;
  cache_ok =
      CacheOk-ahead r.ahead_cache r.meta.next_sequence r.visitors vs (λ s _. ahead s) c.cache_ok;
  keyed = u;
  fresh = f;
}

found_ahead :
    (cache : List (ℕ × ℕ)) (next s n : ℕ) (vs : List VisitorRow)
    → CacheOk cache next vs
    → find_ahead s cache ≡ some n
    → n ≡ count_waiting_ahead s vs
unfolding find_ahead
found_ahead [] next s n vs ok h = cc
found_ahead (e ∷ es) next s n vs ok h = elim (Bool-cases (e.0 == s)) [
  | inl hit ↦
      let at : e.0 ≡ s = ground arith in
      let value : e.1 ≡ n = ground arith in
      subst (λ k. n ≡ count_waiting_ahead k vs) at (sym value ∙ ok.0.0)
  | inr miss ↦ found_ahead es next s n vs ok.1 (ground arith)
]

-- The position that the cache gives is the number of waiting rows ahead, and remembering it keeps
-- the room coherent.
pub waiting_ahead_lem :
    (r : Room) (s : ℕ)
    → s < r.meta.next_sequence
    → Coherent r
    → Coherent (waiting_ahead r s).0 × ((waiting_ahead r s).1 ≡ count_waiting_ahead s r.visitors)
unfolding waiting_ahead
waiting_ahead_lem r s h c = elim (Option-cases (find_ahead s r.ahead_cache)) [
  | inl e ↦
      rw (e, waiting_ahead)
        (
          record {
            depth_ok = c.depth_ok;
            stored_ok = c.stored_ok;
            cache_ok = ((refl, h), c.cache_ok);
            keyed = c.keyed;
            fresh = c.fresh;
          },
          refl,
        )
  | inr (n, e) ↦
      rw (e, waiting_ahead)
        (c, found_ahead r.ahead_cache r.meta.next_sequence s n r.visitors c.cache_ok e)
]

pub CacheOk-next :
    (cache : List (ℕ × ℕ)) (next : ℕ) (vs : List VisitorRow)
    → CacheOk cache next vs
    → CacheOk cache (next + 1) vs
CacheOk-next [] next vs ok = tt
CacheOk-next (e ∷ es) next vs ok = ((ok.0.0, omega arith), CacheOk-next es next vs ok.1)

ahead-snoc :
    (s : ℕ) (v : VisitorRow) (vs : List VisitorRow)
    → s ≤ v.sequence
    → count_waiting_ahead s (vs ++ v ∷ []) ≡ count_waiting_ahead s vs
ahead-snoc s v vs h = ground (arith, count-append (is_ahead_of s) vs (v ∷ []))

-- A row at the end of the line changes no cached position.
pub CacheOk-snoc :
    (cache : List (ℕ × ℕ)) (v : VisitorRow) (vs : List VisitorRow)
    → CacheOk cache v.sequence vs
    → CacheOk cache (v.sequence + 1) (vs ++ v ∷ [])
CacheOk-snoc cache v vs ok =
    CacheOk-next cache v.sequence (vs ++ v ∷ [])
      (CacheOk-ahead cache v.sequence vs (vs ++ v ∷ []) (λ s h. ahead-snoc s v vs (omega arith)) ok)

pub CacheOk-same :
    (cache : List (ℕ × ℕ)) (next : ℕ) (vs vs' : List VisitorRow)
    → ((s : ℕ) → count_waiting_ahead s vs' ≡ count_waiting_ahead s vs)
    → CacheOk cache next vs
    → CacheOk cache next vs'
CacheOk-same cache next vs vs' same ok = CacheOk-ahead cache next vs vs' (λ s _. same s) ok
