-- ===== src/Traffic/Table.antt =====
-- The size of the table of buckets of api/middleware/ratelimit.go.
use semrel_registry.Prelude.{
  ◌≤◌, ◌+◌, ◌≡◌, refl, Bool, true, false, Option, none, some, List, [], ◌∷◌, length, length-keep_if,
  ◌-◌, ◌*◌, leb, leb-false, ltb, arith, if◌then◌else◌, Bool-cases, inl, inr,
}
use semrel_registry.Text.{Text, text_eq}
use semrel_registry.Text.Equality.{text_eq_refl}
use semrel_registry.Models.{Time}
use semrel_registry.Traffic.RateLimit.{
  Floats, Bucket, RateLimiter, max_buckets, minute, evict_idle, bucket_of, set_bucket, cleaned,
  with_room, found_or_new, get_bucket, allow_with_remaining, limit,
}

module _ {F : Type 0} (fl : Floats F) where
  length-set_bucket :
      (ip : Text) (b : Bucket F) (m : List (Text × Bucket F))
      → length (set_bucket fl ip b m) ≤ length m + 1
  unfolding set_bucket
  length-set_bucket ip b [] = omega arith
  length-set_bucket ip b ((i, c) ∷ m) = ground (arith, length-set_bucket ip b m)

  length-with_room :
      (now : Time) (m : List (Text × Bucket F)) → length (with_room fl now m) + 1 ≤ max_buckets
  unfolding with_room
  length-with_room now m =
      go (leb max_buckets (length m)) refl (leb max_buckets (length (evict_idle fl now minute m)))
        refl
    where
      go :
          (full : Bool)
          → leb max_buckets (length m) ≡ full
          → (still : Bool) → leb max_buckets (length (evict_idle fl now minute m)) ≡ still
          → length (if full then if still then [] else evict_idle fl now minute m else m) + 1
            ≤ max_buckets
      go false e still f = omega (arith, leb-false max_buckets (length m) e)
      go true e false f =
          omega (arith, leb-false max_buckets (length (evict_idle fl now minute m)) f)
      go true e true f = omega arith

  length-cleaned :
      (now : Time) (rl : RateLimiter F) → length (cleaned fl now rl).buckets ≤ length rl.buckets
  unfolding cleaned evict_idle
  length-cleaned now rl = go (ltb minute (now - rl.last_cleanup))
    where
      go :
          (due : Bool)
          → length
              (if due
                then record rl {
                  buckets = evict_idle fl now (5 * minute) rl.buckets;
                  last_cleanup = now;
                }
                else rl).buckets
            ≤ length rl.buckets
      go true = length-keep_if _ rl.buckets
      go false = omega arith

  -- the entry of an address, once it is there, is replaced
  length-set_bucket-found :
      (ip : Text) (b c : Bucket F) (m : List (Text × Bucket F))
      → bucket_of fl ip m ≡ some c
      → length (set_bucket fl ip b m) ≡ length m
  unfolding set_bucket bucket_of
  length-set_bucket-found ip b c [] e = cc
  length-set_bucket-found ip b c ((i, d) ∷ m) e = ground (arith, length-set_bucket-found ip b c m)

  bucket_of-set_bucket :
      (ip : Text) (b : Bucket F) (m : List (Text × Bucket F))
      → bucket_of fl ip (set_bucket fl ip b m) ≡ some b
  unfolding bucket_of set_bucket
  bucket_of-set_bucket ip b [] = rw (text_eq_refl ip) refl
  bucket_of-set_bucket ip b ((i, c) ∷ m) = elim (Bool-cases (text_eq i ip)) [
    | inl here ↦ rw (here, text_eq_refl ip) refl
    | inr other ↦ rw (other, other) (bucket_of-set_bucket ip b m)
  ]

  -- The bucket that is found or made is in the table, which stays within its bound.
  IsPlaced : Text → Bucket F × RateLimiter F → Type 0
  IsPlaced ip (b, rl) = (bucket_of fl ip rl.buckets ≡ some b) × (length rl.buckets ≤ max_buckets)

  found_or_new-IsPlaced :
      (now : Time) (ip : Text) (o : Option (Bucket F)) (rl : RateLimiter F)
      → bucket_of fl ip rl.buckets ≡ o
      → length rl.buckets ≤ max_buckets
      → IsPlaced ip (found_or_new fl now ip o rl)
  unfolding found_or_new IsPlaced
  found_or_new-IsPlaced now ip (some b) rl e h = (e, h)
  found_or_new-IsPlaced now ip none rl e h = (
    bucket_of-set_bucket ip _ _,
    omega (arith, length-set_bucket ip _ _, length-with_room now rl.buckets),
  )

  get_bucket-IsPlaced :
      (now : Time) (ip : Text) (rl : RateLimiter F)
      → length rl.buckets ≤ max_buckets
      → IsPlaced ip (get_bucket fl now ip rl)
  unfolding get_bucket
  get_bucket-IsPlaced now ip rl h =
      found_or_new-IsPlaced now ip _ (cleaned fl now rl) refl
        (omega (arith, length-cleaned now rl, h))

  limit-bounded :
      (now : Time) (ip : Text) (rl : RateLimiter F)
      → length rl.buckets ≤ max_buckets
      → length (limit fl now ip rl).1.buckets ≤ max_buckets
  unfolding limit IsPlaced
  limit-bounded now ip rl h =
      let (there, low) = get_bucket-IsPlaced now ip rl h in
      rw
        (length-set_bucket-found ip
          (allow_with_remaining fl now rl.rate_per_minute (get_bucket fl now ip rl).0).1 _ _ there)
        low

  -- The table behind requests, each at an instant and from an address.
  unfoldable pub after_requests : List (Time × Text) → RateLimiter F → RateLimiter F
  unfolding limit
  after_requests [] rl = rl
  after_requests ((now, ip) ∷ rs) rl = after_requests rs (limit fl now ip rl).1

  -- Requests at any instants and from any addresses leave at most 50000 buckets, if there were no
  -- more before.
  pub length-after_requests :
      (rs : List (Time × Text)) (rl : RateLimiter F)
      → length rl.buckets ≤ max_buckets
      → length (after_requests rs rl).buckets ≤ max_buckets
  unfolding after_requests
  length-after_requests [] rl h = h
  length-after_requests ((now, ip) ∷ rs) rl h =
      length-after_requests rs (limit fl now ip rl).1 (limit-bounded now ip rl h)
