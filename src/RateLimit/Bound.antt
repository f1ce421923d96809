-- ===== src/RateLimit/Bound.antt =====
-- internal/gateway/ratelimit.go: how much gets through a bucket.
use aural_server.Base.{
  ℕ, ◌+◌, ◌-◌, ◌*◌, ◌≤◌, ◌≡◌, subst, Bool, true, false, List, [], ◌∷◌, arith, if◌then◌else◌,
}
use aural_server.RateLimit.{RateLimiter, refill, take_from, take_token, allow, allow_each}

-- Times that do not go back, from one on.
abbrev pub IsForward : ℕ → List ℕ → Type 0
IsForward start [] = Unit
IsForward start (now ∷ later) = (start ≤ now) × IsForward now later

-- The last of some times.
unfoldable pub end : ℕ → List ℕ → ℕ
end start [] = start
end start (now ∷ later) = end now later

pub end-le : (start : ℕ) (times : List ℕ) → IsForward start times → start ≤ end start times
unfolding end
end-le start [] f = omega arith
end-le start (now ∷ later) f = omega (arith, f.0, end-le now later f.1)

-- One question: what is taken and what is left was there, or came in since.
allow_lem :
    (now : ℕ) (r : RateLimiter)
    → ((if (allow now r).0 then r.unit else 0) + (allow now r).1.tokens
        ≤ r.tokens + (now - r.last) * r.per)
      × ((allow now r).1.last ≡ now)
      × ((allow now r).1.per ≡ r.per)
      × ((allow now r).1.unit ≡ r.unit)
unfolding allow take_token take_from refill
allow_lem now r = ground arith

-- Time that passes in two parts.
elapsed : (a b c per : ℕ) → a ≤ b → b ≤ c → (b - a) * per + (c - b) * per ≡ (c - a) * per
elapsed a b c per h k = grind arith

count_lem :
    (first : Bool) (more unit : ℕ)
    → (if first then more + 1 else more) * unit ≡ (if first then unit else 0) + more * unit
count_lem true more unit = grind arith
count_lem false more unit = omega arith

-- One question, and the questions after it.
combine :
    (first : Bool) (more unit t t' t'' a b c per : ℕ)
    → a ≤ b
    → b ≤ c
    → (if first then unit else 0) + t' ≤ t + (b - a) * per
    → more * unit + t'' ≤ t' + (c - b) * per
    → (if first then more + 1 else more) * unit + t'' ≤ t + (c - a) * per
combine first more unit t t' t'' a b c per h k once rest =
    omega (arith, elapsed a b c per h k, count_lem first more unit)

ap₃ : {a a' b b' c c' : ℕ} → a ≡ a' → b ≡ b' → c ≡ c' → ◌≡◌ {A = ℕ × ℕ × ℕ} (a, b, c) (a', b', c')
ap₃ p q r = cc

-- Whatever is asked of a bucket, at times that do not go back, the tokens that it gives out are no more
-- than it held at the start and what has come in from its last use to the last question.
pub allow_each-bounded :
    (times : List ℕ) (r : RateLimiter)
    → IsForward r.last times
    → (allow_each times r).0 * r.unit + (allow_each times r).1.tokens
      ≤ r.tokens + (end r.last times - r.last) * r.per
unfolding allow_each end
allow_each-bounded [] r f = omega arith
allow_each-bounded (now ∷ later) r f =
    let r' = (allow now r).1 in
    let (once, at, per, unit) = allow_lem now r in
    let rest : (allow_each later r').0 * r.unit + (allow_each later r').1.tokens
        ≤ r'.tokens + (end now later - now) * r.per =
      subst
        (λ (k : ℕ × ℕ × ℕ).
          (allow_each later r').0 * k.2 + (allow_each later r').1.tokens
          ≤ r'.tokens + (end k.0 later - k.0) * k.1)
        (ap₃ at per unit) (allow_each-bounded later r' (rw at f.1)) in
    combine (allow now r).0 (allow_each later r').0 r.unit r.tokens r'.tokens _ r.last now
      (end now later) r.per f.0 (end-le now later f.1) once rest
