-- ===== src/Eta/Laws.antt =====
-- The wait estimate against the set point.
use native.Mathlib.Nat.{mul-le-mul_left}
use tide_guard.Base.{
  ℕ, ◌*◌, ◌≤◌, ◌≡◌, refl, max, inl, inr, Option, none, some, leb, ceil_div, Bool-cases, arith,
}
use tide_guard.Engine.{effective_unit}
use tide_guard.Eta.{least_rate, blended_rate, estimate_wait_seconds, simple_wait_seconds}

ceil_div-covers : (a b : ℕ) → 1 ≤ b → a ≤ ceil_div a b * b
ceil_div-covers a b h = grind arith

unscale :
    (n u q rate setpoint : ℕ)
    → n * (600 * u) ≤ q * rate
    → rate ≤ 600 * setpoint
    → n * u ≤ q * setpoint
unscale n u q rate setpoint h slow =
    let grown : q * rate ≤ q * (600 * setpoint) = mul-le-mul_left q slow in grind (arith, grown, h)

blended_rate-le :
    (setpoint : ℕ) (observed : Option ℕ) → blended_rate setpoint observed ≤ 600 * setpoint
blended_rate-le setpoint none = omega arith
blended_rate-le setpoint (some n) = ground arith

-- With a set point of at least the least rate, whatever was observed: in the estimated time the set
-- point admits everybody that waits, so the estimate is never shorter than the set point allows.
pub estimate-covers :
    (observed : Option ℕ) (waiting setpoint : ℕ)
    → least_rate ≤ setpoint
    → waiting * effective_unit ≤ estimate_wait_seconds observed waiting setpoint * setpoint
unfolding estimate_wait_seconds
estimate-covers observed waiting setpoint h =
    let rate = max (blended_rate setpoint observed) (600 * least_rate) in
    let slow : rate ≤ 600 * setpoint = omega (arith, blended_rate-le setpoint observed) in
    let q = ceil_div (waiting * (600 * effective_unit)) rate in
    let enough = ceil_div-covers (waiting * (600 * effective_unit)) rate (omega arith) in
    let paid : waiting * effective_unit ≤ q * setpoint =
      unscale waiting effective_unit q rate setpoint enough slow in
    elim (Bool-cases (leb waiting 0)) [ inl e ↦ rw e (ground arith) | inr e ↦ rw e paid ]

ceil_div-least : (a b q : ℕ) → 1 ≤ b → a ≤ q * b → ceil_div a b ≤ q
ceil_div-least a b q h k = grind arith

enlarge : (n u q s : ℕ) → n * u ≤ q * s → n * (600 * u) ≤ q * (600 * s)
enlarge n u q s h = grind (arith, h)

same_scale : (n u s : ℕ) → 1 ≤ s → ceil_div (n * (600 * u)) (600 * s) ≡ ceil_div (n * u) s
same_scale n u s h =
    let grown : n * u ≤ ceil_div (n * u) s * s = ceil_div-covers (n * u) s h in
    let whole : n * (600 * u) ≤ ceil_div (n * (600 * u)) (600 * s) * (600 * s) =
      ceil_div-covers (n * (600 * u)) (600 * s) (omega (arith, h)) in
    let down =
      ceil_div-least (n * (600 * u)) (600 * s) (ceil_div (n * u) s) (omega (arith, h))
        (enlarge n u (ceil_div (n * u) s) s grown) in
    let up =
      ceil_div-least (n * u) s (ceil_div (n * (600 * u)) (600 * s)) h
        (unscale n u (ceil_div (n * (600 * u)) (600 * s)) (600 * s) s whole (omega arith)) in
    omega (arith, down, up)

-- With a set point of at least the least rate, the estimate without an observation is that of
-- SimpleEtaCalculator, and with any observation it is never shorter.
pub never_faster :
    (observed : Option ℕ) (waiting setpoint : ℕ)
    → least_rate ≤ setpoint
    → (estimate_wait_seconds none waiting setpoint ≡ simple_wait_seconds waiting setpoint)
      × (simple_wait_seconds waiting setpoint ≤ estimate_wait_seconds observed waiting setpoint)
unfolding estimate_wait_seconds simple_wait_seconds
never_faster observed waiting setpoint h =
    let top : max (600 * setpoint) (600 * least_rate) ≡ 600 * setpoint = omega (arith, h) in
    let enough =
      ceil_div-covers (waiting * (600 * effective_unit))
        (max (blended_rate setpoint observed) (600 * least_rate)) (omega arith) in
    let slow : max (blended_rate setpoint observed) (600 * least_rate) ≤ 600 * setpoint =
      omega (arith, blended_rate-le setpoint observed) in
    elim (Bool-cases (leb waiting 0)) [
      | inl e ↦ rw e (refl, omega arith)
      | inr e ↦
          rw (e, top)
            (
              same_scale waiting effective_unit setpoint (omega (arith, h)),
              ceil_div-least (waiting * effective_unit) setpoint _ (omega (arith, h))
                  (unscale waiting effective_unit _ _ setpoint enough slow),
            )
    ]
