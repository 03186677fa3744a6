-- ===== src/Js.antt =====
-- JavaScript numbers where the program checks them: src/queue/traffic.ts parses a rate,
-- src/core/config.ts clamps a grace period, src/health/origin-probe.ts clamps probe settings.
use tide_guard.Base.{
  ℕ, ◌*◌, ◌/◌, ◌%◌, max, min, Bool, true, false, ◌&&◌, ◌||◌, Option, none, some, ltb, leb, ◌==◌,
  if◌then◌else◌, String, code,
}

-- A finite number is counted in millionths: `frac n` is n / 1,000,000 and `neg n` is
-- -(n + 1) / 1,000,000. Decimals with more digits, and the rounding of doubles, are not modelled.
pub data JsNumber : Type 0 where
  nan infinity neg_infinity : JsNumber
  frac : ℕ → JsNumber
  neg : ℕ → JsNumber

abbrev pub micros : ℕ
micros = 1_000_000

abbrev pub int : ℕ → JsNumber
int n = frac (n * micros)

abbrev pub is_finite : JsNumber → Bool
is_finite (frac n) = true
is_finite (neg n) = true
is_finite _ = false

-- `Number.isInteger(x) && x >= 0`: the guards that follow in the source refuse a negative one.
abbrev pub is_nat : JsNumber → Bool
is_nat (frac n) = n % micros == 0
is_nat _ = false

-- `Math.floor` of a finite number that is not negative; 0 stands for the others.
abbrev pub floor : JsNumber → ℕ
floor (frac n) = n / micros
floor _ = 0

abbrev pub default_missed_slot_grace_seconds : ℕ
default_missed_slot_grace_seconds = 120

abbrev pub min_missed_slot_grace_seconds : ℕ
min_missed_slot_grace_seconds = 30

abbrev pub max_missed_slot_grace_seconds : ℕ
max_missed_slot_grace_seconds = 900

abbrev pub clamp_grace : ℕ → ℕ
clamp_grace n = min max_missed_slot_grace_seconds (max min_missed_slot_grace_seconds n)

abbrev pub clamp_missed_slot_grace_seconds : JsNumber → ℕ
clamp_missed_slot_grace_seconds (frac n) = clamp_grace (n / micros)
clamp_missed_slot_grace_seconds (neg n) = min_missed_slot_grace_seconds
clamp_missed_slot_grace_seconds _ = default_missed_slot_grace_seconds

-- From 0.01 to 1000 admissions a second, in millionths.
abbrev pub parse_admit_per_second : JsNumber → Option ℕ
parse_admit_per_second (frac n) = if ltb n 10_000 || ltb 1_000_000_000 n then none else some n
parse_admit_per_second _ = none

-- The bounds are positive, so a negative number is below them.
abbrev pub clamp_int : JsNumber → ℕ → ℕ → ℕ → ℕ
clamp_int (frac n) lo hi fallback =
    if ltb (n / micros) lo || ltb hi (n / micros) then fallback else n / micros
clamp_int _ lo hi fallback = fallback

-- The bounds and the result in millionths.
abbrev pub clamp_float : JsNumber → ℕ → ℕ → ℕ → ℕ
clamp_float (frac n) lo hi fallback = if ltb n lo || ltb hi n then fallback else n
clamp_float _ lo hi fallback = fallback

-- The white space and line ends that `trim` removes.
abbrev pub is_space : ℕ → Bool
is_space c =
    (leb 9 c && leb c 13)
    || c == 32
    || c == 160
    || c == 0x1680
    || (leb 0x2000 c && leb c 0x200a)
    || c == 0x2028
    || c == 0x2029
    || c == 0x202f
    || c == 0x205f
    || c == 0x3000
    || c == 0xfeff

-- `raw.trim() === ""`.
abbrev pub is_blank : String → Bool
is_blank String.[] = true
is_blank (String.◌∷◌ c s) = is_space (code c) && is_blank s
