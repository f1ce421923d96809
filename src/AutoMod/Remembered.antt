-- ===== src/AutoMod/Remembered.antt =====
-- internal/gateway/automod.go: what `rememberMessage` drops, against all that was said.
use aural_server.Base.{
  ℕ, zero, suc, ◌+◌, ◌-◌, ◌≤◌, ◌<◌, ◌≡◌, refl, inl, inr, Bool, List, [], ◌∷◌, ◌++◌, arith, ltb, min,
  if◌then◌else◌, length, drop, keep, Bool-cases, All,
}
use aural_server.Text.{Text}
use aural_server.AutoMod.{
  RecentMessage, max_recent, recent_window, newest, is_recent, remember_message, is_within,
  count_within,
}
use aural_server.AutoMod.Sorted.{
  IsSorted, All-keep, All-drop, All-snoc, All-later, IsSorted-keep, IsSorted-drop, IsSorted-snoc,
}

-- Later on, no more of the same messages are inside the window.
pub count_within_later :
    (now later window : ℕ) (recent : List RecentMessage)
    → now ≤ later
    → count_within later window recent ≤ count_within now window recent
unfolding count_within is_within
count_within_later now later window [] h = omega arith
count_within_later now later window (e ∷ recent) h =
    ground (arith, count_within_later now later window recent h)

module _ (t window : ℕ) where
  -- Where one is inside the window, all that were sent no earlier are.
  count_within_whole :
      (from : ℕ) (zs : List RecentMessage)
      → t < from + window
      → All (λ (x : RecentMessage). from ≤ x.at) zs
      → count_within t window zs ≡ length zs
  unfolding count_within is_within
  count_within_whole from [] h k = refl
  count_within_whole from (e ∷ zs) h k = ground (arith, count_within_whole from zs h k.1)

  count_within-le : (zs : List RecentMessage) → count_within t window zs ≤ length zs
  unfolding count_within
  count_within-le [] = omega arith
  count_within-le (e ∷ zs) = ground (arith, count_within-le zs)

  count_within-drop :
      (n : ℕ) (zs : List RecentMessage)
      → count_within t window (drop n zs) ≤ count_within t window zs
  unfolding count_within
  count_within-drop zero zs = omega arith
  count_within-drop (suc n) [] = omega arith
  count_within-drop (suc n) (e ∷ zs) = ground (arith, count_within-drop n zs)

  -- Dropping the oldest loses none inside the window, or leaves nothing that is outside.
  drop-count_within :
      (n : ℕ) (zs : List RecentMessage)
      → IsSorted zs
      → min (length zs - n) (count_within t window zs) ≤ count_within t window (drop n zs)
  unfolding count_within is_within
  drop-count_within zero zs h = omega (arith, count_within-le zs)
  drop-count_within (suc n) [] h = omega arith
  drop-count_within (suc n) (e ∷ zs) h = elim (Bool-cases (ltb t (e.at + window))) [
    | inl inside ↦ ground (
      arith,
      inside,
      drop-count_within n zs h.1,
      count_within_whole e.at zs (ground (arith, inside)) h.0,
    )
    | inr outside ↦ ground (arith, outside, drop-count_within n zs h.1)
  ]

  pub count_within-snoc :
      (zs : List RecentMessage) (e : RecentMessage)
      → count_within t window (zs ++ e ∷ [])
        ≡ count_within t window zs + (if is_within t window e then 1 else 0)
  unfolding count_within
  count_within-snoc [] e = ground arith
  count_within-snoc (z ∷ zs) e = ground (arith, count_within-snoc zs e)

  count_within-keep :
      (p : RecentMessage → Bool) (zs : List RecentMessage)
      → count_within t window (keep p zs) ≤ count_within t window zs
  unfolding count_within keep
  count_within-keep p [] = omega arith
  count_within-keep p (e ∷ zs) = ground (arith, count_within-keep p zs)

  -- What is too old to be remembered is outside every window that is no longer.
  keep-count_within :
      (now : ℕ) (zs : List RecentMessage)
      → now ≤ t
      → window ≤ recent_window
      → count_within t window (keep (is_recent now) zs) ≡ count_within t window zs
  unfolding count_within keep is_recent is_within
  keep-count_within now [] h k = refl
  keep-count_within now (e ∷ zs) h k = ground (arith, keep-count_within now zs h k)

  newest-count_within :
      (zs : List RecentMessage)
      → IsSorted zs
      → (min max_recent (count_within t window zs) ≤ count_within t window (newest zs))
        × (count_within t window (newest zs) ≤ count_within t window zs)
  unfolding newest
  newest-count_within zs h = (
    ground (arith, drop-count_within (length zs - max_recent) zs h),
    ground (arith, count_within-drop (length zs - max_recent) zs),
  )

IsSorted-newest : (zs : List RecentMessage) → IsSorted zs → IsSorted (newest zs)
unfolding newest
IsSorted-newest zs h = elim (Bool-cases (ltb max_recent (length zs))) [
  | inl more ↦ rw more (IsSorted-drop _ zs h)
  | inr few ↦ rw few h
]

All-newest : (P : RecentMessage → Type 0) (zs : List RecentMessage) → All P zs → All P (newest zs)
unfolding newest
All-newest P zs h = elim (Bool-cases (ltb max_recent (length zs))) [
  | inl more ↦ rw more (All-drop P _ zs h)
  | inr few ↦ rw few h
]

-- What a history keeps of all that was said up to a moment.
pub record IsKept (now : ℕ) (recent whole : List RecentMessage) : Type 0 where
  pub sorted : IsSorted recent
  pub past : All (λ (x : RecentMessage). x.at ≤ now) recent
  pub most :
      (t window : ℕ)
      → now ≤ t
      → window ≤ recent_window
      → min max_recent (count_within t window whole) ≤ count_within t window recent
  pub no_more : (t window : ℕ) → count_within t window recent ≤ count_within t window whole

pub IsKept-nothing : IsKept 0 [] []
unfolding count_within
IsKept-nothing = record {
  sorted = tt;
  past = tt;
  most = λ t window h k. omega arith;
  no_more = λ t window. omega arith;
}

pub IsKept-later :
    (now later : ℕ) (recent whole : List RecentMessage)
    → now ≤ later
    → IsKept now recent whole
    → IsKept later recent whole
IsKept-later now later recent whole h k = record {
  sorted = k.sorted;
  past = All-later now later recent h k.past;
  most = λ t window a b. k.most t window (omega (arith, h, a)) b;
  no_more = k.no_more;
}

pub IsKept-remember_message :
    (now later : ℕ) (folded : Text) (recent whole : List RecentMessage)
    → now ≤ later
    → IsKept now recent whole
    → IsKept later
        (remember_message later folded recent)
        (whole ++ record { at = later; folded = folded } ∷ [])
unfolding remember_message
IsKept-remember_message now later folded recent whole h k =
    let e : RecentMessage = record { at = later; folded = folded } in
    let fresh = keep (is_recent later) recent in
    let past = All-keep _ (is_recent later) recent (All-later now later recent h k.past) in
    let sorted = IsSorted-snoc fresh e (IsSorted-keep _ recent k.sorted) past in
    record {
      sorted = IsSorted-newest _ sorted;
      past = All-newest _ _ (All-snoc _ fresh e past (omega arith));
      most = λ t window a b. omega (
        arith,
        (newest-count_within t window (fresh ++ e ∷ []) sorted).0,
        count_within-snoc t window fresh e,
        count_within-snoc t window whole e,
        keep-count_within t window later recent a b,
        k.most t window (omega (arith, h, a)) b,
      );
      no_more = λ t window. omega (
        arith,
        (newest-count_within t window (fresh ++ e ∷ []) sorted).1,
        count_within-snoc t window fresh e,
        count_within-snoc t window whole e,
        count_within-keep t window (is_recent later) recent,
        k.no_more t window,
      );
    }
