-- ===== src/AutoMod/History.antt =====
-- internal/gateway/automod.go: `flooding` and `repeating`, against all that was said.
use aural_server.Base.{
  ℕ, zero, suc, ◌+◌, ◌*◌, ◌≤◌, ◌<◌, ◌≡◌, refl, ap, ◌∙◌, inl, inr, not, ◌&&◌, List, [], ◌∷◌, ◌++◌,
  arith, leb, ltb, if◌then◌else◌, length, keep, Bool-cases,
}
use mathlib.Core.List.{reverse}
use aural_server.Base.Int.{pos}
use aural_server.Text.{Text, text_eq}
use aural_server.AutoMod.{
  RecentMessage, recent_window, remember_message, is_within, count_within, flooding_past, flooding,
  second, repeats_from, repeating, repeating_times, is_empty,
}
use aural_server.AutoMod.Remembered.{IsKept, IsKept-nothing, IsKept-remember_message}

-- What a connection remembers, and all that it has said, oldest first, up to a moment, where each
-- message was sent no earlier than the one before.
pub data Said : ℕ → List RecentMessage → List RecentMessage → Type 0 where
  nothing : Said 0 [] []
  said :
      {now : ℕ} {recent whole : List RecentMessage}
      → Said now recent whole
      → (later : ℕ) (folded : Text) → now ≤ later
      → Said later
          (remember_message later folded recent)
          (whole ++ record { at = later; folded = folded } ∷ [])

Said-IsKept :
    {now : ℕ} {recent whole : List RecentMessage} → Said now recent whole → IsKept now recent whole
Said-IsKept nothing = IsKept-nothing
Said-IsKept (said earlier later folded h) =
    IsKept-remember_message _ later folded _ _ h (Said-IsKept earlier)

pub count_within_lem :
    (t window : ℕ) (zs : List RecentMessage)
    → count_within t window zs ≡ length (keep (λ e. ltb t (e.at + window)) zs)
unfolding count_within keep is_within
count_within_lem t window [] = refl
count_within_lem t window (e ∷ zs) = ground (arith, count_within_lem t window zs)

pub flooding-IsKept :
    (limit seconds now later : ℕ) (recent whole : List RecentMessage)
    → 1 ≤ limit
    → limit ≤ 32
    → 1 ≤ seconds
    → seconds ≤ 60
    → IsKept now recent whole
    → now ≤ later
    → flooding later (record { messages = pos limit; seconds = pos seconds }) recent
      ≡ leb limit (length (keep (λ e. ltb later (e.at + seconds * second)) whole))
unfolding flooding flooding_past
flooding-IsKept zero seconds now later recent whole a b c d k h = absurd (omega arith)
flooding-IsKept (suc limit) zero now later recent whole a b c d k h = absurd (omega arith)
flooding-IsKept (suc limit) (suc seconds) now later recent whole a b c d k h =
    let window : suc seconds * second ≤ recent_window = omega arith in
    ground (
      arith,
      k.most later (suc seconds * second) h window,
      k.no_more later (suc seconds * second),
      count_within_lem later (suc seconds * second) whole,
    )

-- The flood rule forgets nothing that it needs: for a rule of 1 to 32 messages in 1 to 60 seconds, what
-- it says of what a connection remembers is whether, of all that the connection has ever said, at
-- least so many messages were sent less than so many seconds ago.
pub flooding_lem :
    (limit seconds now later : ℕ) (recent whole : List RecentMessage)
    → 1 ≤ limit
    → limit ≤ 32
    → 1 ≤ seconds
    → seconds ≤ 60
    → Said now recent whole
    → now ≤ later
    → flooding later (record { messages = pos limit; seconds = pos seconds }) recent
      ≡ leb limit (length (keep (λ e. ltb later (e.at + seconds * second)) whole))
flooding_lem limit seconds now later recent whole a b c d s h =
    flooding-IsKept limit seconds now later recent whole a b c d (Said-IsKept s) h

-- How many of the newest messages say the same: of a list from the newest back, the entries up to
-- the first that says something else.
pub same_run : Text → List RecentMessage → ℕ
same_run folded [] = 0
same_run folded (e ∷ older) =
    let more = same_run folded older in if text_eq e.folded folded then suc more else 0

repeats_from_lem :
    (times run : ℕ) (folded : Text) (newest_first : List RecentMessage)
    → run < times
    → repeats_from times run folded newest_first ≡ leb times (run + same_run folded newest_first)
unfolding repeats_from same_run
repeats_from_lem times run folded [] h = ground arith
repeats_from_lem times run folded (e ∷ older) h = elim (Bool-cases (leb times (suc run))) [
  | inl enough ↦ ground (arith, enough)
  | inr short ↦ ground (arith, short, repeats_from_lem times (suc run) folded older (ground arith))
]

-- A message repeats, for a rule of at least one time, exactly when it says something and at least so
-- many of the newest messages say the same.
pub repeating_lem :
    (times : ℕ) (folded : Text) (recent : List RecentMessage)
    → 1 ≤ times
    → repeating (pos times) folded recent
      ≡ (not (is_empty folded) && leb times (same_run folded (reverse recent)))
unfolding repeating repeating_times
repeating_lem zero folded recent h = absurd (omega arith)
repeating_lem (suc times) folded recent h =
    ap (λ b. not (is_empty folded) && b)
      (repeats_from_lem (suc times) 0 folded (reverse recent) (omega arith)
        ∙ ap (leb (suc times)) (omega arith))
