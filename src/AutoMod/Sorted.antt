-- ===== src/AutoMod/Sorted.antt =====
-- internal/gateway/automod.go: messages in the order in which they were sent.
use aural_server.Base.{
  ℕ, zero, suc, ◌≤◌, inl, inr, Bool, List, [], ◌∷◌, ◌++◌, arith, drop, keep, Bool-cases, All,
}
use aural_server.AutoMod.{RecentMessage}

-- No message was sent before the one in front of it.
abbrev pub IsSorted : List RecentMessage → Type 0
IsSorted [] = Unit
IsSorted (e ∷ rest) = All (λ (x : RecentMessage). e.at ≤ x.at) rest × IsSorted rest

pub All-keep :
    (P : RecentMessage → Type 0) (p : RecentMessage → Bool) (zs : List RecentMessage)
    → All P zs
    → All P (keep p zs)
unfolding keep
All-keep P p [] h = tt
All-keep P p (e ∷ zs) h = elim (Bool-cases (p e)) [
  | inl stays ↦ rw stays (h.0, All-keep P p zs h.1)
  | inr goes ↦ rw goes (All-keep P p zs h.1)
]

pub All-drop :
    (P : RecentMessage → Type 0) (n : ℕ) (zs : List RecentMessage) → All P zs → All P (drop n zs)
All-drop P zero zs h = h
All-drop P (suc n) [] h = tt
All-drop P (suc n) (e ∷ zs) h = All-drop P n zs h.1

pub All-snoc :
    (P : RecentMessage → Type 0) (zs : List RecentMessage) (e : RecentMessage)
    → All P zs
    → P e
    → All P (zs ++ e ∷ [])
All-snoc P [] e h k = (k, tt)
All-snoc P (z ∷ zs) e h k = (h.0, All-snoc P zs e h.1 k)

pub All-later :
    (now later : ℕ) (zs : List RecentMessage)
    → now ≤ later
    → All (λ (x : RecentMessage). x.at ≤ now) zs
    → All (λ (x : RecentMessage). x.at ≤ later) zs
All-later now later [] h k = tt
All-later now later (e ∷ zs) h k = (omega (arith, k.0), All-later now later zs h k.1)

pub IsSorted-keep :
    (p : RecentMessage → Bool) (zs : List RecentMessage) → IsSorted zs → IsSorted (keep p zs)
unfolding keep
IsSorted-keep p [] h = tt
IsSorted-keep p (e ∷ zs) h = elim (Bool-cases (p e)) [
  | inl stays ↦ rw stays (All-keep _ p zs h.0, IsSorted-keep p zs h.1)
  | inr goes ↦ rw goes (IsSorted-keep p zs h.1)
]

pub IsSorted-drop : (n : ℕ) (zs : List RecentMessage) → IsSorted zs → IsSorted (drop n zs)
IsSorted-drop zero zs h = h
IsSorted-drop (suc n) [] h = tt
IsSorted-drop (suc n) (e ∷ zs) h = IsSorted-drop n zs h.1

pub IsSorted-snoc :
    (zs : List RecentMessage) (e : RecentMessage)
    → IsSorted zs
    → All (λ (x : RecentMessage). x.at ≤ e.at) zs
    → IsSorted (zs ++ e ∷ [])
IsSorted-snoc [] e h k = (tt, tt)
IsSorted-snoc (z ∷ zs) e h k = (All-snoc _ zs e h.0 k.0, IsSorted-snoc zs e h.1 k.1)
