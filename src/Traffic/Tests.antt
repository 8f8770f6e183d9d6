-- ===== src/Traffic/Tests.antt =====
-- The theorem on the table of buckets, with whole tokens for those of float64.
use semrel_registry.Prelude.{ℕ, ◌≤◌, ◌+◌, ◌-◌, ◌*◌, ◌/◌, [], ◌∷◌, length, ltb, arith}
use semrel_registry.Prelude.Int.{pos}
use semrel_registry.Text.{text}
use semrel_registry.Auth.{second}
use semrel_registry.Traffic.RateLimit.{Floats, RateLimiter, max_buckets}
use semrel_registry.Traffic.Table.{after_requests, length-after_requests}

abbrev whole : Floats ℕ
whole = record {
  one = 1;
  seconds_between = λ s t. (t - s) / second;
  per_second = λ rate. rate / 60;
  add = λ a b. a + b;
  sub = λ a b. a - b;
  mul = λ a b. a * b;
  less = ltb;
  truncate = pos;
}

abbrev fresh : RateLimiter ℕ
fresh = record { buckets = []; rate_per_minute = 60; last_cleanup = 0 }

length-after_requests_example :
    length (after_requests whole ((1, text "192.0.2.1") ∷ (2, text "192.0.2.2") ∷ []) fresh).buckets
    ≤ max_buckets
length-after_requests_example =
    length-after_requests whole ((1, text "192.0.2.1") ∷ (2, text "192.0.2.2") ∷ []) fresh
      (omega arith)
