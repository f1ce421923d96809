-- ===== src/RateLimit/Tests.antt =====
-- Tests of internal/gateway/ratelimit.go: the bucket for messages, asked ten times at once and then
-- later.
use aural_server.Base.{ℕ, ◌+◌, ◌-◌, ◌*◌, ◌≤◌, ◌≡◌, refl, List, [], ◌∷◌, arith, contains}
use aural_server.RateLimit.{
  RateLimiter, new_message_limiter, allow, allow_each, UserLimiters, take_of, sweep,
}
use aural_server.RateLimit.Bound.{end, allow_each-bounded}
use aural_server.RateLimit.Sweeping.{IsUniform, user_ids, sweep-take_of}

abbrev at_once : List ℕ
at_once = 5 ∷ 5 ∷ 5 ∷ 5 ∷ 5 ∷ 5 ∷ 5 ∷ 5 ∷ 5 ∷ 5 ∷ []

-- Eight get through.
burst : (allow_each at_once (new_message_limiter 5)).0 ≡ 8
unfolding allow_each allow new_message_limiter
burst = refl

allow_each-bounded_example :
    (allow_each at_once (new_message_limiter 5)).0 * (new_message_limiter 5).unit
      + (allow_each at_once (new_message_limiter 5)).1.tokens
    ≤ (new_message_limiter 5).tokens
      + (end (new_message_limiter 5).last at_once - (new_message_limiter 5).last)
        * (new_message_limiter 5).per
unfolding new_message_limiter
allow_each-bounded_example = allow_each-bounded at_once (new_message_limiter 5) (omega arith)

-- One token at the start, and one a second from then on.
abbrev small_bucket : RateLimiter
small_bucket = record { capacity = 1; per = 1; unit = 1000; tokens = 200; last = 0 }

abbrev two_users : UserLimiters
two_users = record {
  burst = 1;
  per = 1;
  unit = 1000;
  by = (7, small_bucket) ∷ (8, record small_bucket { last = 1500 }) ∷ [];
}

two_users-IsUniform : IsUniform two_users 2000
unfolding user_ids contains
two_users-IsUniform = record {
  distinct = (refl, (refl, tt));
  alike = ((refl, refl, refl, omega arith), ((refl, refl, refl, omega arith), tt));
}

sweep-take_of_example :
    (take_of 2100 7 (sweep 1000 2000 two_users)).0 ≡ (take_of 2100 7 two_users).0
sweep-take_of_example = sweep-take_of 1000 2000 2100 7 two_users two_users-IsUniform (omega arith)
