-- ===== src/AutoMod/Tests.antt =====
-- Tests of internal/gateway/automod.go as it is modelled in `AutoMod`.
use aural_server.Base.{
  ◌*◌, ◌+◌, leb, ltb, keep, ◌++◌, ◌≡◌, refl, true, List, [], ◌∷◌, arith, length, contains,
}
use aural_server.Base.Int.{ℤ, pos, negsuc}
use aural_server.Text.{Text, text_eq}
use aural_server.AutoMod.{clamp_ids, second, RecentMessage, remember_message, flooding, repeating}
use aural_server.AutoMod.History.{Said, nothing, said, flooding_lem}

abbrev raw_ids : List ℤ
raw_ids = pos 7 ∷ negsuc 2 ∷ pos 0 ∷ pos 7 ∷ pos 3 ∷ []

kept_ids : clamp_ids raw_ids ≡ 7 ∷ 3 ∷ []
unfolding clamp_ids contains
kept_ids = refl

abbrev hello : Text
hello = b'h' ∷ b'i' ∷ []

-- One message, after a second.
abbrev one_message : List RecentMessage
one_message = record { at = second; folded = hello } ∷ []

-- The second message, three seconds later.
abbrev two_messages : List RecentMessage
two_messages = one_message ++ record { at = 4 * second; folded = hello } ∷ []

two_said :
    Said
      (4 * second)
      (remember_message (4 * second) hello (remember_message second hello []))
      two_messages
two_said = said (said nothing second hello (omega arith)) (4 * second) hello (omega arith)

flooding_lem_example :
    flooding
      (5 * second)
      (record { messages = pos 2; seconds = pos 5 })
      (remember_message (4 * second) hello (remember_message second hello []))
    ≡ leb 2 (length (keep (λ e. ltb (5 * second) (e.at + 5 * second)) two_messages))
flooding_lem_example =
    flooding_lem 2 5 (4 * second) (5 * second)
      (remember_message (4 * second) hello (remember_message second hello [])) two_messages
      (omega arith) (omega arith) (omega arith) (omega arith) two_said (omega arith)

-- Which is a flood.
too_fast :
    flooding
      (5 * second)
      (record { messages = pos 2; seconds = pos 5 })
      (remember_message (4 * second) hello (remember_message second hello []))
    ≡ true
unfolding flooding remember_message
too_fast = refl

again : repeating (pos 1) hello one_message ≡ true
unfolding repeating text_eq
again = refl
