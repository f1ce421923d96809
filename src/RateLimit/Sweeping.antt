-- ===== src/RateLimit/Sweeping.antt =====
-- internal/gateway/ratelimit.go: the buckets that are dropped.
use aural_server.Base.{
  ℕ, ◌-◌, ◌*◌, ◌≤◌, ◌≡◌, refl, ap, sym, subst, ==_iff, inl, inr, true, false, Option, none, some,
  List, [], ◌∷◌, arith, ◌==◌, if◌then◌else◌, Bool-cases, All, contains, IsDistinct,
}
use aural_server.RateLimit.{
  RateLimiter, new_rate_limiter, refill, take_from, take_token, spent, UserLimiters, bucket,
  or_fresh, limiter_of, take_of, sweep, sweep_each,
}

more_time : (a b c per : ℕ) → a ≤ b → b ≤ c → (b - a) * per ≤ (c - a) * per
more_time a b c per h k = grind arith

-- A bucket that is spent answers every later question as a fresh one does.
spent-refill :
    (idle now later : ℕ) (r : RateLimiter)
    → r.last ≤ now
    → now ≤ later
    → spent idle now r ≡ true
    → refill later r ≡ refill later (new_rate_limiter r.capacity r.per r.unit later)
unfolding spent new_rate_limiter refill
spent-refill idle now later r past h full =
    ap (λ n. record r { tokens = n; last = later })
      (ground (arith, more_time r.last now later r.per past h))

unfoldable pub user_ids : List (ℕ × RateLimiter) → List ℕ
user_ids [] = []
user_ids ((id, r) ∷ rest) = id ∷ user_ids rest

-- The buckets of an endpoint are each as its new ones are, and nobody has two.
pub record IsUniform (u : UserLimiters) (now : ℕ) : Type 0 where
  pub distinct : IsDistinct (user_ids u.by)
  pub alike :
      All
        (λ (p : ℕ × RateLimiter).
          (p.1.capacity ≡ u.burst) × (p.1.per ≡ u.per) × (p.1.unit ≡ u.unit) × (p.1.last ≤ now))
        u.by

no_bucket :
    (by : List (ℕ × RateLimiter)) (user_id : ℕ)
    → contains (user_ids by) user_id ≡ false
    → bucket by user_id ≡ none
unfolding bucket user_ids contains
no_bucket [] user_id h = refl
no_bucket ((id, r) ∷ rest) user_id h = ground (arith, no_bucket rest user_id (ground arith))

-- What a sweep leaves of a bucket.
swept : ℕ → ℕ → Option RateLimiter → Option RateLimiter
swept idle now none = none
swept idle now (some r) = if spent idle now r then none else some r

bucket-sweep :
    (idle now : ℕ) (by : List (ℕ × RateLimiter)) (user_id : ℕ)
    → IsDistinct (user_ids by)
    → bucket (sweep_each idle now by) user_id ≡ swept idle now (bucket by user_id)
unfolding bucket sweep_each swept user_ids
bucket-sweep idle now [] user_id d = refl
bucket-sweep idle now ((id, r) ∷ rest) user_id d = elim (Bool-cases (id == user_id)) [
  | inl here ↦
      let gone : bucket rest user_id ≡ none =
        no_bucket rest user_id
          (subst (λ k. contains (user_ids rest) k ≡ false) ((==_iff id user_id).0 here) d.0) in
      ground (arith, here, gone, bucket-sweep idle now rest user_id d.1)
  | inr other ↦ ground (arith, other, bucket-sweep idle now rest user_id d.1)
]

alike_bucket :
    (P : ℕ × RateLimiter → Type 0) (by : List (ℕ × RateLimiter)) (user_id : ℕ) (r : RateLimiter)
    → All P by
    → bucket by user_id ≡ some r
    → (id : ℕ) × P (id, r)
unfolding bucket
alike_bucket P [] user_id r h f = cc
alike_bucket P ((id, s) ∷ rest) user_id r h f = elim (Bool-cases (id == user_id)) [
  | inl here ↦ let same : s ≡ r = ground (arith, here, f) in (id, subst (λ k. P (id, k)) same h.0)
  | inr other ↦ alike_bucket P rest user_id r h.1 (ground (arith, other, f))
]

refill-swept :
    (idle now later : ℕ) (u : UserLimiters) (o : Option RateLimiter)
    → now ≤ later
    → ((r : RateLimiter)
        → o ≡ some r
        → (r.capacity ≡ u.burst) × (r.per ≡ u.per) × (r.unit ≡ u.unit) × (r.last ≤ now))
    → refill later (or_fresh later u (swept idle now o)) ≡ refill later (or_fresh later u o)
unfolding or_fresh swept
refill-swept idle now later u none h k = refl
refill-swept idle now later u (some r) h k = elim (Bool-cases (spent idle now r)) [
  | inl gone ↦
      let (capacity, per, unit, past) = k r refl in
      let fresh : refill later r ≡ refill later (new_rate_limiter u.burst u.per u.unit later) =
        rw (← capacity, ← per, ← unit) (spent-refill idle now later r past h gone) in
      rw gone (sym fresh)
  | inr stays ↦ rw stays refl
]

-- Dropping the buckets that have been idle and are full changes nothing that anybody is told
-- afterwards: every user gets the answer that they would have got, with the same number of tokens
-- left and the same wait. The buckets are of the endpoint's own size and rate, one to a user, and
-- none was used after the sweep.
pub sweep-take_of :
    (idle now later user_id : ℕ) (u : UserLimiters)
    → IsUniform u now
    → now ≤ later
    → (take_of later user_id (sweep idle now u)).0 ≡ (take_of later user_id u).0
unfolding take_of sweep limiter_of take_token
sweep-take_of idle now later user_id u i h =
    let same : refill later (or_fresh later u (swept idle now (bucket u.by user_id)))
        ≡ refill later (or_fresh later u (bucket u.by user_id)) =
      refill-swept idle now later u (bucket u.by user_id) h
        (λ r f. (alike_bucket _ u.by user_id r i.alike f).1) in
    rw (bucket-sweep idle now u.by user_id i.distinct) (ap (λ r. (take_from r).0) same)
