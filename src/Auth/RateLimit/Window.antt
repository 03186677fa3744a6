-- ===== src/Auth/RateLimit/Window.antt =====
-- How many attempts one window of src/auth/rate-limit.ts lets through.
use text.Mathlib.TextPositions.{eq_refl}
use tide_guard.Base.{
  ℕ, ◌+◌, ◌-◌, ◌≡◌, refl, sym, ◌∙◌, ap, min, max, Bool, true, false, ◌&&◌, Option, none, some, List,
  [], ◌∷◌, String, str_eq, eq_iff, ltb, leb, if◌then◌else◌, arith, Bool-cases, inl, inr,
}
use tide_guard.Auth.RateLimit.{
  Bucket, Buckets, LimitOptions, Attempt, set_bucket, count_attempt, rate_limit_or_throw, granted,
  is_over, open_window, tried, Before,
}

-- The bucket of a key after an attempt on another.
other_key :
    (o : Option Bucket) (key k : String) (options : LimitOptions) (now : ℕ) (buckets : Buckets)
    → str_eq k key ≡ false
    → (count_attempt o key options now buckets).0 k ≡ buckets k
other_key none key k options now buckets h = rw h refl
other_key (some b) key k options now buckets h = elim (Bool-cases (leb (b.reset_at) now)) [
  | inl e ↦ rw (e, h) refl
  | inr e ↦ rw (e, h) refl
]

-- The bucket of a key after one more attempt on it in its window.
same_key :
    (key k : String) (options : LimitOptions) (c end now : ℕ) (buckets : Buckets)
    → str_eq key k ≡ true
    → buckets k ≡ some (record { count = c; reset_at = end })
    → leb end now ≡ false
    → ((rate_limit_or_throw key options now buckets).0 k
        ≡ some (record { count = c + 1; reset_at = end }))
      × ((rate_limit_or_throw key options now buckets).1
          ≡ (if ltb (options.limit) (c + 1) then false else true))
unfolding rate_limit_or_throw
same_key key k options c end now buckets e h live =
    let p : key ≡ k = (eq_iff key k).0 e in
    let q : buckets key ≡ some (record { count = c; reset_at = end }) = ap buckets p ∙ h in
    let back : str_eq k key ≡ true = (eq_iff k key).1 (sym p) in rw (q, live, back) (refl, refl)

one_more :
    (limit c t rest : ℕ) (pass : Bool)
    → pass ≡ (if ltb limit (c + 1) then false else true)
    → rest ≡ min (limit - (c + 1)) t
    → (if pass then 1 else 0) + rest ≡ min (limit - c) (1 + t)
one_more limit c t rest pass h k = ground (arith, h, k)

passed_over : (limit c t rest : ℕ) → rest ≡ min (limit - c) t → 0 + rest ≡ min (limit - c) (0 + t)
passed_over limit c t rest h = omega (arith, h)

opened : (limit t rest : ℕ) → rest ≡ min (limit - 1) t → 1 + rest ≡ min (max 1 limit) (1 + t)
opened limit t rest h = omega (arith, h)

flipped : (a b : String) → str_eq a b ≡ false → str_eq b a ≡ false
flipped a b h = elim (Bool-cases (str_eq b a)) [
  | inl e ↦ cc ((eq_iff a b).1 (sym ((eq_iff b a).0 e)), h)
  | inr e ↦ e
]

other_bucket :
    (key k : String) (options : LimitOptions) (now : ℕ) (buckets : Buckets)
    → str_eq k key ≡ false
    → (rate_limit_or_throw key options now buckets).0 k ≡ buckets k
unfolding rate_limit_or_throw
other_bucket key k options now buckets h = other_key (buckets key) key k options now buckets h

running :
    (k : String) (options : LimitOptions) (c end : ℕ) (rest : List Attempt) (buckets : Buckets)
    → buckets k ≡ some (record { count = c; reset_at = end })
    → Before k end rest
    → granted k options rest buckets ≡ min (options.limit - c) (tried k rest)
unfolding granted tried Before
running k options c end [] buckets h before = omega arith
running k options c end (a ∷ rest) buckets h before = elim (Bool-cases (str_eq (a.key) k)) [
  | inl e ↦
      let (kept, pass) =
        same_key (a.key) k options c end (a.now) buckets e h
          (sym (ap (λ b. b && leb end (a.now)) e) ∙ before.0) in
      rw e (
        one_more (options.limit) c (tried k rest) _ _ pass
          (running k options (c + 1) end rest _ kept (before.1)))
  | inr e ↦ rw e (
      passed_over (options.limit) c _ _ (
        running k options c end rest ((rate_limit_or_throw (a.key) options (a.now) buckets).0)
          (other_bucket (a.key) k options (a.now) buckets (flipped (a.key) k e) ∙ h) (before.1)))
]

opens :
    (o : Option Bucket) (key : String) (options : LimitOptions) (now : ℕ) (buckets : Buckets)
    → is_over o now ≡ true
    → count_attempt o key options now buckets ≡ open_window key options now buckets
opens none key options now buckets h = refl
opens (some b) key options now buckets h = rw h refl

-- In one window, which the first attempt on a key opens, exactly as many attempts on the key go on
-- as the limit says, or all of them if there are fewer, however attempts on other keys come in
-- between. (A limit of 0 lets one through.) Before the first attempt the key has no
-- bucket or one whose window is over, and the others on it come before the new window is over.
pub window_limit :
    (k : String) (options : LimitOptions) (now : ℕ) (rest : List Attempt) (buckets : Buckets)
    → is_over (buckets k) now ≡ true
    → Before k (now + options.window_ms) rest
    → granted k options (record { key = k; now = now } ∷ rest) buckets
      ≡ min (max 1 (options.limit)) (1 + tried k rest)
unfolding granted rate_limit_or_throw
window_limit k options now rest buckets h before =
    rw (opens (buckets k) k options now buckets h, eq_refl k)
      (opened (options.limit) (tried k rest) _ (
        running k options 1 (now + options.window_ms) rest
          (set_bucket k (record { count = 1; reset_at = now + options.window_ms }) buckets)
          (rw (eq_refl k) refl) before))
