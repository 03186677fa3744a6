-- ===== src/Examples/Limits.antt =====
-- Attempts at a limited endpoint, and the theorem applied to them.
use tide_guard.Base.{◌+◌, min, max, ◌≡◌, refl, none, List, [], ◌∷◌}
use tide_guard.Auth.RateLimit.{
  Buckets, LimitOptions, Attempt, Before, granted, tried, set_bucket, rate_limit_or_throw,
}
use tide_guard.Auth.RateLimit.Window.{window_limit}

abbrev two_a_minute : LimitOptions
two_a_minute = record { limit = 2; window_ms = 60_000 }

abbrev attempts : List Attempt
attempts =
    record { key = "login:a"; now = 2_000 }
    ∷ record { key = "login:b"; now = 3_000 }
    ∷ record { key = "login:a"; now = 4_000 }
    ∷ record { key = "login:b"; now = 70_000 }
    ∷ []

-- The bucket of an older window.
abbrev old_buckets : Buckets
old_buckets = set_bucket "login:a" (record { count = 9; reset_at = 500 }) (λ key. none)

attempts-Before : Before "login:a" (1_000 + two_a_minute.window_ms) attempts
unfolding Before
attempts-Before = (refl, (refl, (refl, (refl, tt))))

window_limit_example :
    granted "login:a" two_a_minute (record { key = "login:a"; now = 1_000 } ∷ attempts) old_buckets
    ≡ min (max 1 2) (1 + tried "login:a" attempts)
window_limit_example =
    window_limit "login:a" two_a_minute 1_000 attempts old_buckets refl attempts-Before

two_of_three :
    granted "login:a" two_a_minute (record { key = "login:a"; now = 1_000 } ∷ attempts) old_buckets
    ≡ 2
unfolding granted rate_limit_or_throw
two_of_three = refl
