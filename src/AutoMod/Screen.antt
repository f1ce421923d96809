-- ===== src/AutoMod/Screen.antt =====
-- internal/gateway/automod.go: the rules in their order, over what a session writes (`screen`) and over
-- what a bridge brings in (`screen_relayed`).
pub mod Verdicts
pub mod Joins
pub mod Paced
mod Tests
use aural_server.Base.{
  ℕ, String, Bool, true, false, not, ◌&&◌, ◌||◌, Option, none, some, List, [], ◌∷◌, ◌++◌,
  if◌then◌else◌, contains,
}
use text.Mathlib.Text.{◌==◌ as str_eq}
use aural_server.Base.Int.{ℤ}
use aural_server.Text.{Text}
use aural_server.Permissions.{Permission}
use aural_server.Store.Fold.{fold}
use aural_server.AutoMod.{RecentMessage, AutoModFlood, flooding, repeating, remember_message}
use aural_server.AutoMod.Words.{Tables, screen_words}
use aural_server.AutoMod.Rules.{screen_links, shouting, too_many_mentions, exempt_from_auto_mod}

-- `AutoModRule`, with ids of a kind: those that a client sends may be below 0.
pub record AutoModRule (Ident : Type 0) : Type 0 where
  pub enabled : Bool
  pub action : String
  pub exempt_roles : List Ident

-- `AutoModConfig`, with the parts of each rule beside it.
pub record AutoModConfig (Ident : Type 0) : Type 0 where
  pub enabled : Bool
  pub exempt_roles : List Ident
  pub exempt_channels : List Ident
  pub words_rule : AutoModRule Ident
  pub words : List Text
  pub whole_word : Bool
  pub links_rule : AutoModRule Ident
  pub allowed_domains : List Text
  pub mentions_rule : AutoModRule Ident
  pub mentions_limit : ℤ
  pub caps_rule : AutoModRule Ident
  pub caps_percent : ℤ
  pub caps_min_length : ℤ
  pub flood_rule : AutoModRule Ident
  pub flood : AutoModFlood
  pub repetition_rule : AutoModRule Ident
  pub repetition_times : ℤ

-- The names of the rules.
pub data RuleName : Type 0 where
  by_flood by_repetition by_mentions by_caps by_links by_words : RuleName

-- What came of a text: the rule that refused it, or the text to store with the rule that masked a
-- part of it, if one did.
pub data Verdict : Type 0 where
  refused : RuleName → Verdict
  passed : Text → Option RuleName → Verdict

-- A rule fired: what `auditAutoMod` records beside the writer and the channel, or `auditRelayAutoMod`
-- beside the channel, with the author as the bridge names them and the mark that the text was relayed.
pub data Fired : Type 0 where
  fired : RuleName → String → Fired
  fired_relayed : Text → RuleName → String → Fired

-- The session, as far as the rules read it, and the moment.
pub record Writer : Type 0 where
  pub base : Permission
  pub role_ids : List ℕ
  pub recent : List RecentMessage
  pub now : ℕ

-- A verdict, the entries of the audit log, and the history afterwards.
pub record Screened : Type 0 where
  pub verdict : Verdict
  pub log : List Fired
  pub recent : List RecentMessage

-- `AutoModCensor`.
censors : AutoModRule ℕ → Bool
censors rule = str_eq rule.action "censor"

applies : Writer → AutoModRule ℕ → Bool
applies w rule = rule.enabled && not (exempt_from_auto_mod w.base w.role_ids rule.exempt_roles)

unchanged : Writer → Text → Screened
unchanged w content = record { verdict = passed content none; log = []; recent = w.recent }

-- `autoModRefusal`.
refusal : Writer → RuleName → Screened
refusal w rule = record { verdict = refused rule; log = fired rule "block" ∷ []; recent = w.recent }

censor_log : Option RuleName → List Fired
censor_log none = []
censor_log (some rule) = fired rule "censor" ∷ []

-- The end of `screen`.
let_through : Writer → Bool → Text → Text → Option RuleName → Screened
unfolding censor_log
let_through w sending folded content censored = record {
  verdict = passed content censored;
  log = censor_log censored;
  recent = if sending then remember_message w.now folded w.recent else w.recent;
}

-- The rule on words, after what the rule on links came to.
words_step : Tables → AutoModConfig ℕ → Writer → Bool → Text → Text → Option RuleName → Screened
unfolding applies censors refusal let_through
words_step t cfg w sending folded content censored =
    if applies w cfg.words_rule
    then (elim (screen_words t content cfg.words cfg.whole_word (censors cfg.words_rule)) [
      | none ↦ let_through w sending folded content censored
      | some masked ↦
          if censors cfg.words_rule
          then let_through w sending folded masked (some by_words)
          else refusal w by_words
    ])
    else let_through w sending folded content censored

links_step : Tables → AutoModConfig ℕ → Writer → Bool → Text → Text → Screened
unfolding applies censors refusal words_step
links_step t cfg w sending folded content =
    if applies w cfg.links_rule
    then (elim (screen_links t content cfg.allowed_domains (censors cfg.links_rule)) [
      | none ↦ words_step t cfg w sending folded content none
      | some masked ↦
          if censors cfg.links_rule
          then words_step t cfg w sending folded masked (some by_links)
          else refusal w by_links
    ])
    else words_step t cfg w sending folded content none

-- `screen`: `sending` is whether the rules on pace apply.
unfoldable pub screen : Tables → AutoModConfig ℕ → Writer → ℕ → Text → Bool → Screened
unfolding links_step unchanged refusal applies
screen t cfg w channel_id content sending =
    let folded = fold t.lower content in
    if not cfg.enabled || exempt_from_auto_mod w.base w.role_ids cfg.exempt_roles
    then unchanged w content
    else if contains cfg.exempt_channels channel_id
    then unchanged w content
    else if sending && applies w cfg.flood_rule && flooding w.now cfg.flood w.recent
    then refusal w by_flood
    else if sending
        && applies w cfg.repetition_rule
        && repeating cfg.repetition_times folded w.recent
    then refusal w by_repetition
    else if applies w cfg.mentions_rule && too_many_mentions t content cfg.mentions_limit
    then refusal w by_mentions
    else if applies w cfg.caps_rule && shouting t content cfg.caps_percent cfg.caps_min_length
    then refusal w by_caps
    else links_step t cfg w sending folded content

-- `screenMessage` and `screenText`.
abbrev pub screen_message : Tables → AutoModConfig ℕ → Writer → ℕ → Text → Screened
screen_message t cfg w channel_id content = screen t cfg w channel_id content true

abbrev pub screen_text : Tables → AutoModConfig ℕ → Writer → ℕ → Text → Screened
screen_text t cfg w channel_id content = screen t cfg w channel_id content false

-- The verdict on a text from a bridge, with its entries of the audit log.
relay_log : Text → Option RuleName → List Fired
relay_log author none = []
relay_log author (some rule) = fired_relayed author rule "censor" ∷ []

relay_end : Text → Text → Option RuleName → Verdict × List Fired
unfolding relay_log
relay_end author content censored = (passed content censored, relay_log author censored)

relay_refusal : Text → RuleName → Verdict × List Fired
relay_refusal author rule = (refused rule, fired_relayed author rule "block" ∷ [])

relay_words : Tables → AutoModConfig ℕ → Text → Text → Option RuleName → Verdict × List Fired
unfolding relay_end relay_refusal censors
relay_words t cfg author content censored =
    if cfg.words_rule.enabled
    then (elim (screen_words t content cfg.words cfg.whole_word (censors cfg.words_rule)) [
      | none ↦ relay_end author content censored
      | some masked ↦
          if not (censors cfg.words_rule)
          then relay_refusal author by_words
          else relay_end author masked (some by_words)
    ])
    else relay_end author content censored

-- `screenRelayed`, with the author as the bridge names them.
unfoldable pub screen_relayed : Tables → AutoModConfig ℕ → ℕ → Text → Text → Verdict × List Fired
unfolding relay_words relay_end relay_refusal censors
screen_relayed t cfg channel_id content author =
    if not cfg.enabled
    then (passed content none, [])
    else if contains cfg.exempt_channels channel_id
    then (passed content none, [])
    else if cfg.mentions_rule.enabled && too_many_mentions t content cfg.mentions_limit
    then relay_refusal author by_mentions
    else if cfg.caps_rule.enabled && shouting t content cfg.caps_percent cfg.caps_min_length
    then relay_refusal author by_caps
    else if cfg.links_rule.enabled
    then (elim (screen_links t content cfg.allowed_domains (censors cfg.links_rule)) [
      | none ↦ relay_words t cfg author content none
      | some masked ↦
          if not (censors cfg.links_rule)
          then relay_refusal author by_links
          else relay_words t cfg author masked (some by_links)
    ])
    else relay_words t cfg author content none
