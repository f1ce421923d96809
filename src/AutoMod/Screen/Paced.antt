-- ===== src/AutoMod/Screen/Paced.antt =====
-- internal/gateway/automod.go: `screenMessage`, message after message of one connection, and the pace
-- that gets through.
use aural_server.Base.{
  ℕ, ◌+◌, ◌*◌, ◌≤◌, ◌≡◌, sym, subst, ◌∙◌, true, false, Option, List, [], ◌∷◌, ◌++◌, arith, leb, ltb,
  length, keep, contains,
}
use aural_server.Base.Int.{pos}
use aural_server.Text.{Text}
use aural_server.Permissions.{Permission}
use aural_server.Store.Fold.{fold}
use aural_server.AutoMod.{RecentMessage, flooding, second}
use aural_server.AutoMod.Remembered.{
  IsKept, IsKept-nothing, IsKept-later, IsKept-remember_message, count_within-snoc,
  count_within_later,
}
use aural_server.AutoMod.History.{flooding-IsKept, count_within_lem}
use aural_server.AutoMod.Words.{Tables}
use aural_server.AutoMod.Screen.{AutoModConfig, RuleName, refused, passed, Writer, screen}
use aural_server.AutoMod.Screen.Verdicts.{screen_refused}
use aural_server.AutoMod.Screen.Joins.{IsBound, screen-Joins, passed-flooding}

-- A connection under the rules: what it remembers, and the messages that got through, oldest first, up
-- to a moment, where no message was sent before the one in front of it.
pub data Sent (t : Tables) (cfg : AutoModConfig ℕ) (base : Permission) (role_ids : List ℕ)
    : ℕ → List RecentMessage → List RecentMessage → Type 0 where
  nothing : Sent t cfg base role_ids 0 [] []
  accepted :
      {now : ℕ} {recent whole : List RecentMessage}
      → Sent t cfg base role_ids now recent whole
      → (later channel_id : ℕ) (content text : Text) (o : Option RuleName) → now ≤ later
      → contains cfg.exempt_channels channel_id ≡ false
      → (screen t cfg
          (record { base = base; role_ids = role_ids; recent = recent; now = later })
          channel_id
          content
          true).verdict
        ≡ passed text o
      → Sent t cfg base role_ids later
          (screen t cfg
            (record { base = base; role_ids = role_ids; recent = recent; now = later })
            channel_id
            content
            true).recent
          (whole ++ record { at = later; folded = fold t.lower content } ∷ [])
  rejected :
      {now : ℕ} {recent whole : List RecentMessage}
      → Sent t cfg base role_ids now recent whole
      → (later channel_id : ℕ) (content : Text) (rule : RuleName) → now ≤ later
      → (screen t cfg
          (record { base = base; role_ids = role_ids; recent = recent; now = later })
          channel_id
          content
          true).verdict
        ≡ refused rule
      → Sent t cfg base role_ids later
          (screen t cfg
            (record { base = base; role_ids = role_ids; recent = recent; now = later })
            channel_id
            content
            true).recent
          whole

snoc_few :
    (t seconds limit : ℕ) (whole : List RecentMessage) (m : RecentMessage)
    → leb limit (length (keep (λ e. ltb t (e.at + seconds * second)) whole)) ≡ false
    → length (keep (λ e. ltb t (e.at + seconds * second)) (whole ++ m ∷ [])) ≤ limit
snoc_few t seconds limit whole m h = ground (
  arith,
  h,
  count_within_lem t (seconds * second) whole,
  count_within_lem t (seconds * second) (whole ++ m ∷ []),
  count_within-snoc t (seconds * second) whole m,
)

fewer_later :
    (now later seconds limit : ℕ) (whole : List RecentMessage)
    → now ≤ later
    → length (keep (λ e. ltb now (e.at + seconds * second)) whole) ≤ limit
    → length (keep (λ e. ltb later (e.at + seconds * second)) whole) ≤ limit
fewer_later now later seconds limit whole h k = ground (
  arith,
  k,
  count_within_lem now (seconds * second) whole,
  count_within_lem later (seconds * second) whole,
  count_within_later now later (seconds * second) whole h,
)

module _ (t : Tables) (cfg : AutoModConfig ℕ) (base : Permission) (role_ids : List ℕ)
    (limit seconds : ℕ) (b : IsBound cfg base role_ids)
    (rule : cfg.flood ≡ record { messages = pos limit; seconds = pos seconds }) (l : 1 ≤ limit)
    (l' : limit ≤ 32) (u : 1 ≤ seconds) (u' : seconds ≤ 60) where
  Sent-IsKept :
      {now : ℕ} {recent whole : List RecentMessage}
      → Sent t cfg base role_ids now recent whole
      → IsKept now recent whole
  Sent-IsKept nothing = IsKept-nothing
  Sent-IsKept (accepted {now} {recent} {whole} s later channel_id content text o h plain e) =
      let w : Writer = record { base = base; role_ids = role_ids; recent = recent; now = later } in
      subst
        (λ k. IsKept later k (whole ++ record { at = later; folded = fold t.lower content } ∷ []))
        (sym (screen-Joins t cfg w channel_id content b plain text o e))
        (IsKept-remember_message now later (fold t.lower content) recent whole h (Sent-IsKept s))
  Sent-IsKept (rejected {now} {recent} {whole} s later channel_id content rule' h e) =
      let w : Writer = record { base = base; role_ids = role_ids; recent = recent; now = later } in
      subst (λ k. IsKept later k whole)
        (sym (screen_refused t cfg w channel_id content true rule' e).1)
        (IsKept-later now later recent whole h (Sent-IsKept s))

  -- However a connection sends in the channels that the rules cover, and whatever else it tries, no more
  -- messages get through within the time of the flood rule, up to the last one that was tried, than
  -- the rule allows. The rules and the flood rule are on and do not spare the writer, and the flood
  -- rule allows 1 to 32 messages in 1 to 60 seconds.
  pub screen-paced :
      {now : ℕ} {recent whole : List RecentMessage}
      → Sent t cfg base role_ids now recent whole
      → length (keep (λ e. ltb now (e.at + seconds * second)) whole) ≤ limit
  unfolding keep
  screen-paced nothing = omega arith
  screen-paced (accepted {now} {recent} {whole} s later channel_id content text o h plain e) =
      let w : Writer = record { base = base; role_ids = role_ids; recent = recent; now = later } in
      let calm : flooding later (record { messages = pos limit; seconds = pos seconds }) recent
          ≡ false =
        subst (λ f. flooding later f recent ≡ false) rule
          (passed-flooding t cfg w channel_id content b plain text o e) in
      let few =
        sym (flooding-IsKept limit seconds now later recent whole l l' u u' (Sent-IsKept s) h)
        ∙ calm in
      snoc_few later seconds limit whole (record { at = later; folded = fold t.lower content }) few
  screen-paced (rejected {now} {recent} {whole} s later channel_id content rule' h e) =
      fewer_later now later seconds limit whole h (screen-paced s)
