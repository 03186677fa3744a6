-- ===== src/Engine/Budget.antt =====
-- The admission budget of src/queue/engine.ts over many ticks.
use tide_guard.Base.{
  ℕ, ◌+◌, ◌*◌, ◌<◌, ◌≤◌, ◌≡◌, ◌%◌, refl, List, [], ◌∷◌, All, leb, Bool-cases, inl, inr, arith,
}
use tide_guard.Engine.{admissions_for_tick, budget_unit, queue_alarm_interval_ms}

-- Ticks of the alarm in a row, each with its rate: the number admitted and the remainder left.
pub run_ticks : (ℕ → ℕ) → List ℕ → ℕ → ℕ → ℕ × ℕ
run_ticks round [] admitted remainder = (admitted, remainder)
run_ticks round (rate ∷ rates) admitted remainder =
    let t = admissions_for_tick round rate queue_alarm_interval_ms remainder in
    run_ticks round rates (admitted + t.admit_count) t.next_remainder

-- What the ticks earn, in budget units.
pub earned : List ℕ → ℕ
earned [] = 0
earned (rate ∷ rates) = rate * queue_alarm_interval_ms + earned rates

-- A sixty-fourth of an admission a second, and of an admission.
abbrev pub rate_grain : ℕ
rate_grain = 15_625_000_000

abbrev pub budget_grain : ℕ
budget_grain = 15_625_000_000_000

-- A million admissions a second.
abbrev pub top_rate : ℕ
top_rate = 1_000_000_000_000_000_000

-- A whole number of sixty-fourths, up to a million.
abbrev pub IsBinary : ℕ → Type 0
IsBinary rate = (rate % rate_grain ≡ 0) × (rate ≤ top_rate)

-- A double has 53 bits: whole numbers of sixty-fourths far above a million are doubles.
abbrev pub RoundsBinary : (ℕ → ℕ) → Type 0
RoundsBinary round =
    (n : ℕ)
    → n % budget_grain ≡ 0
    → n ≤ top_rate * queue_alarm_interval_ms + budget_unit
    → round n ≡ n

earned_binary : (rates : List ℕ) → All IsBinary rates → earned rates % budget_grain ≡ 0
unfolding earned
earned_binary [] h = refl
earned_binary (rate ∷ rates) h = omega (arith, h.0.0, earned_binary rates h.1)

module _ (round : ℕ → ℕ) (exact : RoundsBinary round) where
  -- A tick from a remainder of sixty-fourths loses nothing and leaves such a remainder.
  tick_exact :
      (rate remainder : ℕ)
      → IsBinary rate
      → remainder % budget_grain ≡ 0
      → remainder < budget_unit
      → let t = admissions_for_tick round rate queue_alarm_interval_ms remainder in
        (t.admit_count * budget_unit + t.next_remainder
          ≡ remainder + rate * queue_alarm_interval_ms)
        × (t.next_remainder < budget_unit)
        × (t.next_remainder % budget_grain ≡ 0)
  unfolding admissions_for_tick
  tick_exact rate remainder (whole, low) start small =
      let sum : round (remainder + rate * queue_alarm_interval_ms)
          ≡ remainder + rate * queue_alarm_interval_ms =
        exact (remainder + rate * queue_alarm_interval_ms) (omega (arith, whole, start))
          (omega (arith, low, small)) in
      elim (Bool-cases (leb rate 0)) [
        | inl e ↦
            let none_earned : rate ≡ 0 = ground arith in
            rw e (omega (arith, none_earned), small, start)
        | inr e ↦ rw (e, sum) (omega arith, omega arith, omega (arith, whole, start))
      ]

  ticks_exact :
      (rates : List ℕ) (admitted remainder : ℕ)
      → All IsBinary rates
      → remainder % budget_grain ≡ 0
      → remainder < budget_unit
      → let r = run_ticks round rates admitted remainder in
        (r.0 * budget_unit + r.1 ≡ admitted * budget_unit + remainder + earned rates)
        × (r.1 < budget_unit)
        × (r.1 % budget_grain ≡ 0)
  unfolding run_ticks earned
  ticks_exact [] admitted remainder binary start small = (omega arith, small, start)
  ticks_exact (rate ∷ rates) admitted remainder binary start small =
      let t = admissions_for_tick round rate queue_alarm_interval_ms remainder in
      let (kept, below, again) = tick_exact rate remainder binary.0 start small in
      let (all, last, whole) =
        ticks_exact rates (admitted + t.admit_count) t.next_remainder binary.1 again below in
      (omega (arith, kept, all), last, whole)

-- Ticks of the alarm whose rates are whole numbers of sixty-fourths up to a million, from a
-- remainder of sixty-fourths below one admission, with a rounding that keeps such numbers, as
-- doubles do: the number admitted is the whole part of the starting remainder and all that the
-- ticks earned, and what is left is again a whole number of sixty-fourths below one admission.
pub run_ticks_exact :
    (round : ℕ → ℕ) (rates : List ℕ) (remainder : ℕ)
    → RoundsBinary round
    → All IsBinary rates
    → remainder % budget_grain ≡ 0
    → remainder < budget_unit
    → let (admitted, left) = run_ticks round rates 0 remainder in
      (admitted * budget_unit ≤ remainder + earned rates)
      × (remainder + earned rates < (admitted + 1) * budget_unit)
      × (left % budget_grain ≡ 0)
      × (left < budget_unit)
run_ticks_exact round rates remainder exact binary start small =
    let (all, below, whole) = ticks_exact round exact rates 0 remainder binary start small in
    (omega arith, omega arith, whole, below)
