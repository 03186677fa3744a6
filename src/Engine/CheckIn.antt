-- ===== src/Engine/CheckIn.antt =====
-- The check-in timetable of src/queue/engine.ts.
use native.Mathlib.Decide.{dec_le, dec_lt}
use native.Mathlib.Nat.{
  add-mod_right, mod-mod, mod-lt, add-mod-mod, mod-add-mod, mod-eq_of_lt, mod-eq-sub-mod,
}
use tide_guard.Base.{
  ℕ, ◌+◌, ◌-◌, ◌*◌, ◌/◌, ◌%◌, ◌≤◌, ◌<◌, max, ◌≡◌, refl, sym, ap, ◌∙◌, ◌≢◌, ◌⊎◌, inl, inr, String,
  ceil_div, arith,
}
use tide_guard.Engine.{
  status_rps_budget, min_check_in_period_sec, check_in_period_seconds, stable_slot_index,
  next_check_at_ms,
}

tight :
    (waiting : ℕ)
    → let period = check_in_period_seconds waiting in
      (period ≡ min_check_in_period_sec) ⊎ (status_rps_budget * (period - 1) < waiting)
unfolding check_in_period_seconds
tight waiting = elim (dec_le (check_in_period_seconds waiting) min_check_in_period_sec) [
  | yes p ↦ inl (ground arith)
  | no p ↦ inr (ground arith)
]

-- When every one of `waiting` visitors checks in once per period, the room gets at most
-- `status_rps_budget` check-ins a second; the period is at least the minimum, and where it is
-- longer, one second less would break the budget.
pub check_in_period_budget :
    (waiting : ℕ)
    → let period = check_in_period_seconds waiting in
      (waiting ≤ status_rps_budget * period)
      × (min_check_in_period_sec ≤ period)
      × ((period ≡ min_check_in_period_sec) ⊎ (status_rps_budget * (period - 1) < waiting))
unfolding check_in_period_seconds
check_in_period_budget waiting = (ground arith, ground arith, tight waiting)

stable_slot_index-lt : (key : String) (p : ℕ) → 0 < p → stable_slot_index key p < p
unfolding stable_slot_index
stable_slot_index-lt key p h = grind arith

slot_delta : (e slot p : ℕ) → slot < p → (e + (slot + p - (e % p + p) % p) % p) % p ≡ slot
slot_delta e slot p h =
    let aligned : (e % p + p) % p ≡ e % p = add-mod_right (e % p) p ∙ mod-mod e p in
    let below : e % p < p = mod-lt e (omega arith) in
    let sum : e % p + (slot + p - e % p) ≡ slot + p = omega arith in
    rw aligned (
      add-mod-mod e _ p
      ∙ sym (mod-add-mod e p _)
      ∙ ap (λ n. n % p) sum
      ∙ add-mod_right slot p
      ∙ mod-eq_of_lt h)

apart_residue : (m k p : ℕ) → m < p → 0 < k → k < p → (m + k) % p ≢ m
apart_residue m k p b h l e = elim (dec_lt (m + k) p) [
  | yes small ↦ absurd (omega (arith, mod-eq_of_lt small))
  | no big ↦
      let over : p ≤ m + k = omega arith in
      let left : m + k - p < p = omega arith in
      absurd (omega (arith, mod-eq-sub-mod over, mod-eq_of_lt left))
]

-- Two instants less than a period apart are not in the same slot.
apart : (t k p : ℕ) → 0 < k → k < p → (t + k) % p ≢ t % p
apart t k p h l e =
    let below : t % p < p = mod-lt t (omega arith) in
    let same : (t % p + k) % p ≡ t % p = mod-add-mod t p k ∙ e in
    apart_residue (t % p) k p below h l same

module _ (key : String) (period now lead : ℕ) where
  abbrev earliest : ℕ
  earliest = ceil_div (now + lead) 1000

  abbrev slot : ℕ
  slot = stable_slot_index key (max 1 period)

  abbrev delta : ℕ
  delta =
      (slot + max 1 period - (earliest % max 1 period + max 1 period) % max 1 period) % max 1 period

  delta-lt : delta < max 1 period
  delta-lt = mod-lt _ (omega arith)

  slot_hit : (earliest + delta) % max 1 period ≡ slot
  slot_hit = slot_delta earliest slot (max 1 period) (stable_slot_index-lt key _ (omega arith))

  first_hit : (t : ℕ) → now + lead ≤ t * 1000 → t % max 1 period ≡ slot → earliest + delta ≤ t
  first_hit t h e = elim (dec_le (earliest + delta) t) [
    | yes p ↦ p
    | no late ↦
        let back : t + (earliest + delta - t) ≡ earliest + delta = omega arith in
        absurd (
          apart t (earliest + delta - t) (max 1 period) (omega arith) (omega (arith, delta-lt))
            (ap (λ n. n % max 1 period) back ∙ slot_hit ∙ sym e))
  ]

  -- The instant that `nextCheckAtMs` returns is a whole second in the visitor's slot of the period
  -- (a period of 0 counts as 1), at or after `now + minLead` and less than one period later, the
  -- rounding up to a whole second included.
  pub next_check_at_slot :
      let p = max 1 period in
      let at = next_check_at_ms now period key lead in
      (at ≡ at / 1000 * 1000)
      × (at / 1000 % p ≡ stable_slot_index key p)
      × (now + lead ≤ at)
      × (at < now + lead + p * 1000)
  unfolding next_check_at_ms
  next_check_at_slot =
      let cancel : (earliest + delta) * 1000 / 1000 ≡ earliest + delta = omega arith in
      rw cancel (refl, slot_hit, omega arith, omega (arith, delta-lt))

  -- It is the first such instant: every whole second at or after `now + minLead` that is in the
  -- visitor's slot of the period is at or after it.
  pub next_check_at_least :
      (t : ℕ)
      → now + lead ≤ t * 1000
      → t % max 1 period ≡ stable_slot_index key (max 1 period)
      → next_check_at_ms now period key lead ≤ t * 1000
  unfolding next_check_at_ms
  next_check_at_least t h e = omega (arith, first_hit t h e)
