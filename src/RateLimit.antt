-- ===== src/RateLimit.antt =====
-- internal/gateway/ratelimit.go: the token bucket, and the buckets of the users of an endpoint
-- (internal/gateway/handlers_upload.go). A rate of `per / unit` tokens a nanosecond is kept
-- as the two whole numbers, and tokens are counted in parts, `unit` to a token. The refill is exact,
-- where the source rounds each step to a `float64`: a bucket of the source may hold a rounding error
-- more or less, so what is said here of a single moment is not said of that moment in the source.
pub mod Bound
pub mod Sweeping
mod Tests
use aural_server.Base.{
  ℕ, ◌+◌, ◌-◌, ◌*◌, ◌/◌, ◌%◌, Bool, true, false, not, ◌&&◌, Option, none, some, List, [], ◌∷◌, min,
  ltb, leb, ◌==◌, if◌then◌else◌,
}

-- `rateLimiter`.
pub record RateLimiter : Type 0 where
  pub capacity : ℕ
  pub per : ℕ
  pub unit : ℕ
  pub tokens : ℕ
  pub last : ℕ

-- `newRateLimiter`.
unfoldable pub new_rate_limiter : ℕ → ℕ → ℕ → ℕ → RateLimiter
new_rate_limiter capacity per unit now = record {
  capacity = capacity;
  per = per;
  unit = unit;
  tokens = capacity * unit;
  last = now;
}

-- `messageBurst` and `messagesPerSecond`: one and a half a second, so three in two of them.
abbrev pub message_burst : ℕ
message_burst = 8

unfoldable pub new_message_limiter : ℕ → RateLimiter
unfolding new_rate_limiter
new_message_limiter now = new_rate_limiter message_burst 3 2000000000 now

-- The refill at the start of `take`. The clock does not go back.
unfoldable pub refill : ℕ → RateLimiter → RateLimiter
refill now r = record r {
  tokens = min (r.tokens + (now - r.last) * r.per) (r.capacity * r.unit);
  last = now;
}

-- A time of `parts / per` nanoseconds.
pub record Delay : Type 0 where
  pub parts : ℕ
  pub per : ℕ

-- What is missing over the rate; nothing where the bucket does not refill.
wait_for : ℕ → RateLimiter → Delay
wait_for parts r =
    if r.per == 0 then record { parts = 0; per = 1 } else record { parts = parts; per = r.per }

-- The answer of `take`: whether there was a token, how many are left, and how long the next one takes.
pub record Taken : Type 0 where
  pub allowed : Bool
  pub remaining : ℕ
  pub retry_after : Delay

-- `take`, once the bucket is refilled.
unfoldable pub take_from : RateLimiter → Taken × RateLimiter
unfolding wait_for
take_from r =
    if ltb r.tokens r.unit
    then (
      record { allowed = false; remaining = 0; retry_after = wait_for (r.unit - r.tokens) r },
      r,
    )
    else (let left = r.tokens - r.unit in
        (
          record {
            allowed = true;
            remaining = left / r.unit;
            retry_after =
                if ltb left (r.capacity * r.unit)
                then wait_for (r.unit - left % r.unit) r
                else record { parts = 0; per = 1 };
          },
          record r { tokens = left },
        ))

-- `take`.
unfoldable pub take_token : ℕ → RateLimiter → Taken × RateLimiter
unfolding refill take_from
take_token now r = take_from (refill now r)

-- `allow`.
unfoldable pub allow : ℕ → RateLimiter → Bool × RateLimiter
unfolding take_token
allow now r = let (taken, r') = take_token now r in (taken.allowed, r')

-- `spent`: idle for long enough, and full again.
unfoldable pub spent : ℕ → ℕ → RateLimiter → Bool
spent idle now r =
    if ltb (now - r.last) idle
    then false
    else leb (r.capacity * r.unit) (r.tokens + (now - r.last) * r.per)

-- `userLimiters`: the buckets by user, with the size and the rate of a new one.
pub record UserLimiters : Type 0 where
  pub burst : ℕ
  pub per : ℕ
  pub unit : ℕ
  pub by : List (ℕ × RateLimiter)

-- `newUserLimiters`.
unfoldable pub new_user_limiters : ℕ → ℕ → ℕ → UserLimiters
new_user_limiters burst per unit = record { burst = burst; per = per; unit = unit; by = [] }

unfoldable pub bucket : List (ℕ × RateLimiter) → ℕ → Option RateLimiter
bucket [] user_id = none
bucket ((id, r) ∷ rest) user_id = if id == user_id then some r else bucket rest user_id

unfoldable pub put_bucket : ℕ → RateLimiter → List (ℕ × RateLimiter) → List (ℕ × RateLimiter)
put_bucket user_id r [] = (user_id, r) ∷ []
put_bucket user_id r ((id, old) ∷ rest) =
    let later = put_bucket user_id r rest in
    if id == user_id then (id, r) ∷ rest else (id, old) ∷ later

-- A bucket, or a fresh one.
unfoldable pub or_fresh : ℕ → UserLimiters → Option RateLimiter → RateLimiter
or_fresh now u none = new_rate_limiter u.burst u.per u.unit now
or_fresh now u (some r) = r

unfoldable pub limiter_of : ℕ → ℕ → UserLimiters → RateLimiter
unfolding bucket or_fresh
limiter_of now user_id u = or_fresh now u (bucket u.by user_id)

-- `userLimiters.take`.
unfoldable pub take_of : ℕ → ℕ → UserLimiters → Taken × UserLimiters
unfolding limiter_of put_bucket
take_of now user_id u =
    let (taken, r) = take_token now (limiter_of now user_id u) in
    (taken, record u { by = put_bucket user_id r u.by })

sweep_each : ℕ → ℕ → List (ℕ × RateLimiter) → List (ℕ × RateLimiter)
unfolding spent
sweep_each idle now [] = []
sweep_each idle now ((id, r) ∷ rest) =
    let later = sweep_each idle now rest in if spent idle now r then later else (id, r) ∷ later

-- `userLimiters.sweep`.
unfoldable pub sweep : ℕ → ℕ → UserLimiters → UserLimiters
unfolding sweep_each
sweep idle now u = record u { by = sweep_each idle now u.by }

-- How many of the questions that are asked at some times, in their order, are allowed; and the bucket
-- afterwards.
unfoldable pub allow_each : List ℕ → RateLimiter → ℕ × RateLimiter
allow_each [] r = (0, r)
allow_each (now ∷ later) r =
    let (first, r') = allow now r in
    let (more, r'') = allow_each later r' in ((if first then more + 1 else more), r'')
