-- ===== src/Auth/RateLimit.antt =====
-- The limit on attempts at sensitive endpoints: src/auth/rate-limit.ts. The map of buckets is a
-- function of the key.
pub mod Window
use tide_guard.Base.{
  ℕ, ◌+◌, ◌≡◌, Bool, true, false, ◌&&◌, Option, none, some, List, [], ◌∷◌, String, str_eq, ltb, leb,
  if◌then◌else◌,
}

pub record Bucket : Type 0 where
  pub count : ℕ
  pub reset_at : ℕ

abbrev pub Buckets : Type 0
Buckets = String → Option Bucket

abbrev pub set_bucket : String → Bucket → Buckets → Buckets
set_bucket key b buckets k = if str_eq k key then some b else buckets k

pub record LimitOptions : Type 0 where
  pub limit : ℕ
  pub window_ms : ℕ

abbrev pub open_window : String → LimitOptions → ℕ → Buckets → Buckets × Bool
open_window key options now buckets =
    (set_bucket key (record { count = 1; reset_at = now + options.window_ms }) buckets, true)

-- With an existing bucket: a new window if it is over, one more attempt otherwise.
abbrev pub count_attempt : Option Bucket → String → LimitOptions → ℕ → Buckets → Buckets × Bool
count_attempt none key options now buckets = open_window key options now buckets
count_attempt (some b) key options now buckets =
    if leb (b.reset_at) now then open_window key options now buckets else (
      set_bucket key (record b { count = b.count + 1 }) buckets,
      if ltb (options.limit) (b.count + 1) then false else true,
    )

-- The result says whether the attempt goes on; the others are refused with "Too many attempts".
unfoldable pub rate_limit_or_throw : String → LimitOptions → ℕ → Buckets → Buckets × Bool
rate_limit_or_throw key options now buckets = count_attempt (buckets key) key options now buckets

pub record Attempt : Type 0 where
  pub key : String
  pub now : ℕ

-- The key has no bucket, or one whose window is over.
abbrev pub is_over : Option Bucket → ℕ → Bool
is_over none now = true
is_over (some b) now = leb (b.reset_at) now

-- How many attempts on a key go on, and how many there are, while others come in between.
unfoldable pub granted : String → LimitOptions → List Attempt → Buckets → ℕ
unfolding rate_limit_or_throw
granted k options [] buckets = 0
granted k options (a ∷ rest) buckets =
    let step = rate_limit_or_throw (a.key) options (a.now) buckets in
    (if str_eq (a.key) k && step.1 then 1 else 0) + granted k options rest (step.0)

unfoldable pub tried : String → List Attempt → ℕ
tried k [] = 0
tried k (a ∷ rest) = (if str_eq (a.key) k then 1 else 0) + tried k rest

-- Every attempt on the key comes before the time.
unfoldable pub Before : String → ℕ → List Attempt → Type 0
Before k end [] = Unit
Before k end (a ∷ rest) = ((str_eq (a.key) k && leb end (a.now)) ≡ false) × Before k end rest
