-- ===== src/Traffic/RateLimit.antt =====
-- The token buckets of api/middleware/ratelimit.go. The arithmetic of float64 is a parameter, and
-- the table of buckets is a list of its entries, in an order of its own.
use semrel_registry.Prelude.{
  ℕ, ◌-◌, ◌*◌, Bool, Option, none, some, List, [], ◌∷◌, keep_if, length, leb, ltb, not,
  if◌then◌else◌,
}
use semrel_registry.Prelude.Int.{ℤ}
use semrel_registry.Text.{Text, text_eq}
use semrel_registry.Models.{Time}
use semrel_registry.Auth.{second}

-- the operations on float64 that the limiter uses
pub record Floats (F : Type 0) : Type 0 where
  pub one : F
  -- the seconds of a duration in nanoseconds, negative where its second instant is the earlier one
  pub seconds_between : Time → Time → F
  pub per_second : F → F
  pub add : F → F → F
  pub sub : F → F → F
  pub mul : F → F → F
  pub less : F → F → Bool
  pub truncate : F → ℤ

-- maxBuckets
abbrev pub max_buckets : ℕ
max_buckets = 50000

abbrev pub minute : ℕ
minute = 60 * second

-- bucket
pub record Bucket (F : Type 0) : Type 0 where
  pub tokens : F
  pub last_refill : Time

-- rateLimiter
pub record RateLimiter (F : Type 0) : Type 0 where
  pub buckets : List (Text × Bucket F)
  pub rate_per_minute : F
  pub last_cleanup : Time

module _ {F : Type 0} (fl : Floats F) where
  -- the tokens behind the refill, at most a minute's worth
  abbrev pub refilled : Time → F → Bucket F → F
  refilled now rate b =
      let tokens =
        fl.add b.tokens (fl.mul (fl.seconds_between b.last_refill now) (fl.per_second rate)) in
      if fl.less rate tokens then rate else tokens

  -- allowWithRemaining, with the whole tokens that are left, or `none` where the request is refused
  unfoldable pub allow_with_remaining : Time → F → Bucket F → Option ℤ × Bucket F
  allow_with_remaining now rate b =
      let tokens = refilled now rate b in
      if fl.less tokens fl.one then (none, record { tokens = tokens; last_refill = now }) else (
        some (fl.truncate (fl.sub tokens fl.one)),
        record { tokens = fl.sub tokens fl.one; last_refill = now },
      )

  -- evictIdleLocked
  unfoldable pub evict_idle : Time → ℕ → List (Text × Bucket F) → List (Text × Bucket F)
  evict_idle now idle_for buckets =
      keep_if (λ e. not (ltb idle_for (now - e.1.last_refill))) buckets

  unfoldable pub bucket_of : Text → List (Text × Bucket F) → Option (Bucket F)
  bucket_of ip [] = none
  bucket_of ip ((i, b) ∷ m) = if text_eq i ip then some b else bucket_of ip m

  unfoldable pub set_bucket : Text → Bucket F → List (Text × Bucket F) → List (Text × Bucket F)
  set_bucket ip b [] = (ip, b) ∷ []
  set_bucket ip b ((i, c) ∷ m) =
      let rest = set_bucket ip b m in if text_eq i ip then (ip, b) ∷ m else (i, c) ∷ rest

  -- the periodic eviction at the start of getBucket
  unfoldable pub cleaned : Time → RateLimiter F → RateLimiter F
  unfolding evict_idle
  cleaned now rl =
      if ltb minute (now - rl.last_cleanup)
      then record rl { buckets = evict_idle now (5 * minute) rl.buckets; last_cleanup = now }
      else rl

  -- the room that getBucket makes for a new bucket
  unfoldable pub with_room : Time → List (Text × Bucket F) → List (Text × Bucket F)
  unfolding evict_idle
  with_room now buckets =
      let evicted = evict_idle now minute buckets in
      if leb max_buckets (length buckets)
      then if leb max_buckets (length evicted) then [] else evicted
      else buckets

  unfoldable pub found_or_new :
      Time → Text → Option (Bucket F) → RateLimiter F → Bucket F × RateLimiter F
  unfolding with_room set_bucket
  found_or_new now ip (some b) rl = (b, rl)
  found_or_new now ip none rl =
      let b : Bucket F = record { tokens = rl.rate_per_minute; last_refill = now } in
      (b, record rl { buckets = set_bucket ip b (with_room now rl.buckets) })

  -- getBucket
  unfoldable pub get_bucket : Time → Text → RateLimiter F → Bucket F × RateLimiter F
  unfolding cleaned bucket_of found_or_new
  get_bucket now ip rl = let c = cleaned now rl in found_or_new now ip (bucket_of ip c.buckets) c

  -- the middleware for a request of one address; the bucket is shared, so that its change is seen in
  -- the table
  unfoldable pub limit : Time → Text → RateLimiter F → Option ℤ × RateLimiter F
  unfolding get_bucket allow_with_remaining set_bucket
  limit now ip rl =
      let (b, rl') = get_bucket now ip rl in
      let (remaining, b') = allow_with_remaining now rl.rate_per_minute b in
      (remaining, record rl' { buckets = set_bucket ip b' rl'.buckets })
