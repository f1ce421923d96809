-- ===== src/AutoMod.antt =====
-- internal/gateway/automod.go: the bounds of a rule set, and what one connection has said recently.
-- A moment is a number of nanoseconds.
pub mod Bounds
mod Sorted
mod Remembered
pub mod History
pub mod Words
pub mod Rules
pub mod Screen
pub mod Normalise
mod Tests
use aural_server.Base.{
  ℕ, zero, suc, ◌+◌, ◌-◌, ◌*◌, Bool, true, false, not, ◌&&◌, List, [], ◌∷◌, ◌++◌, ltb, leb,
  if◌then◌else◌, length, drop, keep, contains,
}
use mathlib.Core.List.{reverse}
use aural_server.Base.Int.{ℤ, pos, negsuc, ltb_ℤ, eqb_ℤ}
use aural_server.Text.{Text, text_eq}

-- `clamp`.
unfoldable pub clamp : ℤ → ℤ → ℤ → ℤ → ℤ
clamp value low high fallback =
    if eqb_ℤ value (pos 0)
    then fallback
    else if ltb_ℤ value low
    then low
    else if ltb_ℤ high value
    then high
    else value

-- `maxAutoModExempt`.
abbrev pub max_exempt : ℕ
max_exempt = 64

-- The loop of `clampIDs`, after the ids that it has kept.
pub clamp_onto : List ℕ → List ℤ → List ℕ
clamp_onto kept [] = kept
clamp_onto kept (negsuc n ∷ rest) = clamp_onto kept rest
clamp_onto kept (pos zero ∷ rest) = clamp_onto kept rest
clamp_onto kept (pos (suc n) ∷ rest) =
    let longer = kept ++ suc n ∷ [] in
    let without = clamp_onto kept rest in
    let within = clamp_onto longer rest in
    if contains kept (suc n)
    then without
    else if leb max_exempt (length longer)
    then longer
    else within

-- `clampIDs`: what is left are ids above 0.
unfoldable pub clamp_ids : List ℤ → List ℕ
unfolding clamp_onto
clamp_ids ids = clamp_onto [] ids

-- `recentMessage`.
pub record RecentMessage : Type 0 where
  pub at : ℕ
  pub folded : Text

abbrev pub second : ℕ
second = 1000000000

-- `recentWindow`.
abbrev pub recent_window : ℕ
recent_window = 60000000000

-- `maxRecent`.
abbrev pub max_recent : ℕ
max_recent = 32

-- Whether an entry is at most as old as the window: `now.Sub(entry.at) <= recentWindow`.
pub is_recent : ℕ → RecentMessage → Bool
is_recent now entry = leb now (entry.at + recent_window)

-- The newest entries only.
newest : List RecentMessage → List RecentMessage
newest recent =
    if ltb max_recent (length recent) then drop (length recent - max_recent) recent else recent

-- `rememberMessage`.
unfoldable pub remember_message : ℕ → Text → List RecentMessage → List RecentMessage
unfolding newest is_recent keep
remember_message now folded recent =
    newest (keep (is_recent now) recent ++ record { at = now; folded = folded } ∷ [])

-- `AutoModFlood`, less the half that every rule has.
pub record AutoModFlood : Type 0 where
  pub messages : ℤ
  pub seconds : ℤ

-- `entry.at.After(cutoff)`.
pub is_within : ℕ → ℕ → RecentMessage → Bool
is_within now window entry = ltb now (entry.at + window)

pub count_within : ℕ → ℕ → List RecentMessage → ℕ
unfolding is_within
count_within now window [] = 0
count_within now window (entry ∷ rest) =
    let more = count_within now window rest in if is_within now window entry then suc more else more

flooding_past : ℕ → ℤ → ℤ → List RecentMessage → Bool
unfolding count_within
flooding_past now (pos (suc limit)) (pos (suc seconds)) recent =
    leb (suc limit) (count_within now (suc seconds * second) recent)
flooding_past now _ _ recent = false

-- `flooding`.
unfoldable pub flooding : ℕ → AutoModFlood → List RecentMessage → Bool
unfolding flooding_past
flooding now rule recent = flooding_past now rule.messages rule.seconds recent

-- The loop of `repeating`, from the newest entry back, after `run` equal ones.
pub repeats_from : ℕ → ℕ → Text → List RecentMessage → Bool
repeats_from times run folded [] = false
repeats_from times run folded (entry ∷ older) =
    let more = repeats_from times (suc run) folded older in
    if text_eq entry.folded folded then (if leb times (suc run) then true else more) else false

pub is_empty : Text → Bool
is_empty [] = true
is_empty (c ∷ rest) = false

repeating_times : ℤ → Text → List RecentMessage → Bool
unfolding is_empty repeats_from
repeating_times (pos (suc times)) folded recent =
    not (is_empty folded) && repeats_from (suc times) 0 folded (reverse recent)
repeating_times _ folded recent = false

-- `repeating`.
unfoldable pub repeating : ℤ → Text → List RecentMessage → Bool
unfolding repeating_times
repeating times folded recent = repeating_times times folded recent
