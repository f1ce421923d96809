-- ===== src/AutoMod/Screen/Verdicts.antt =====
-- internal/gateway/automod.go: what a verdict of `screen` says of the history and the audit log, and how
-- `screenRelayed` compares.
use aural_server.Base.{
  ℕ, ◌≡◌, refl, ap, Bool, true, false, not, ◌&&◌, ◌||◌, Option, none, some, List, [], ◌∷◌,
  if◌then◌else◌, contains, any, map, arith, Option-cases, inl, inr, bit_and, ◌==◌, ◌⊎◌,
}
use aural_server.Text.{Text}
use aural_server.Permissions.{administrator}
use aural_server.Store.Fold.{fold}
use aural_server.AutoMod.{flooding, repeating}
use aural_server.AutoMod.Words.{Tables, screen_words}
use aural_server.AutoMod.Rules.{screen_links, shouting, too_many_mentions, exempt_from_auto_mod}
use aural_server.AutoMod.Screen.{
  AutoModRule, AutoModConfig, RuleName, Verdict, refused, by_flood, by_repetition, by_mentions,
  by_caps, by_links, by_words, Fired, fired, fired_relayed, censor_log, relay_log, Writer, Screened,
  censors, applies, unchanged, refusal, let_through, words_step, links_step, screen, screen_text,
  relay_end, relay_refusal, relay_words, screen_relayed,
}

-- A refusal is logged once, under its rule, and joins no history.
record IsQuiet (w : Writer) (s : Screened) : Type 0 where
  logged : (rule : RuleName) → s.verdict ≡ refused rule → s.log ≡ fired rule "block" ∷ []
  kept : (rule : RuleName) → s.verdict ≡ refused rule → s.recent ≡ w.recent

refusal-IsQuiet : (w : Writer) (rule : RuleName) → IsQuiet w (refusal w rule)
unfolding refusal
refusal-IsQuiet w rule = record { logged = λ r e. ground (arith, e); kept = λ r e. refl }

unchanged-IsQuiet : (w : Writer) (content : Text) → IsQuiet w (unchanged w content)
unfolding unchanged
unchanged-IsQuiet w content = record { logged = λ r e. cc; kept = λ r e. cc }

let_through-IsQuiet :
    (w : Writer) (sending : Bool) (folded content : Text) (o : Option RuleName)
    → IsQuiet w (let_through w sending folded content o)
unfolding let_through
let_through-IsQuiet w sending folded content o = record { logged = λ r e. cc; kept = λ r e. cc }

if-IsQuiet :
    (w : Writer) (b : Bool) (s t : Screened)
    → IsQuiet w s
    → IsQuiet w t
    → IsQuiet w (if b then s else t)
if-IsQuiet w true s t h k = h
if-IsQuiet w false s t h k = k

module _ (t : Tables) (cfg : AutoModConfig ℕ) (w : Writer) (sending : Bool) (folded : Text) where
  words-IsQuiet :
      (content : Text) (o : Option RuleName)
      → IsQuiet w (words_step t cfg w sending folded content o)
  unfolding words_step
  words-IsQuiet content o =
      if-IsQuiet w _ _ _
        (go (screen_words t content cfg.words cfg.whole_word (censors cfg.words_rule)))
        (let_through-IsQuiet w sending folded content o)
    where
      go :
          (found : Option Text)
          → IsQuiet w (elim found [
            | none ↦ let_through w sending folded content o
            | some masked ↦
                if censors cfg.words_rule
                then let_through w sending folded masked (some by_words)
                else refusal w by_words
          ])
      go none = let_through-IsQuiet w sending folded content o
      go (some masked) =
          if-IsQuiet w _ _ _ (let_through-IsQuiet w sending folded masked (some by_words))
            (refusal-IsQuiet w by_words)

  links-IsQuiet : (content : Text) → IsQuiet w (links_step t cfg w sending folded content)
  unfolding links_step
  links-IsQuiet content =
      if-IsQuiet w _ _ _ (go (screen_links t content cfg.allowed_domains (censors cfg.links_rule)))
        (words-IsQuiet content none)
    where
      go :
          (found : Option Text)
          → IsQuiet w (elim found [
            | none ↦ words_step t cfg w sending folded content none
            | some masked ↦
                if censors cfg.links_rule
                then words_step t cfg w sending folded masked (some by_links)
                else refusal w by_links
          ])
      go none = words-IsQuiet content none
      go (some masked) =
          if-IsQuiet w _ _ _ (words-IsQuiet masked (some by_links)) (refusal-IsQuiet w by_links)

screen-IsQuiet :
    (t : Tables) (cfg : AutoModConfig ℕ) (w : Writer) (channel_id : ℕ) (content : Text)
    (sending : Bool)
    → IsQuiet w (screen t cfg w channel_id content sending)
unfolding screen
screen-IsQuiet t cfg w channel_id content sending =
    let folded = fold t.lower content in
    if-IsQuiet w (not cfg.enabled || exempt_from_auto_mod w.base w.role_ids cfg.exempt_roles) _ _
      (unchanged-IsQuiet w content)
      (if-IsQuiet w (contains cfg.exempt_channels channel_id) _ _ (unchanged-IsQuiet w content) (
        if-IsQuiet w (sending && applies w cfg.flood_rule && flooding w.now cfg.flood w.recent) _ _
          (refusal-IsQuiet w by_flood)
          (if-IsQuiet w
            (sending
              && applies w cfg.repetition_rule
              && repeating cfg.repetition_times folded w.recent)
            _ _ (refusal-IsQuiet w by_repetition)
            (if-IsQuiet w
              (applies w cfg.mentions_rule && too_many_mentions t content cfg.mentions_limit) _ _
              (refusal-IsQuiet w by_mentions)
              (if-IsQuiet w
                (applies w cfg.caps_rule && shouting t content cfg.caps_percent cfg.caps_min_length)
                _ _ (refusal-IsQuiet w by_caps) (links-IsQuiet t cfg w sending folded content))))))

-- A text that a rule refuses is logged exactly once, as blocked by that rule, and leaves the history
-- of the session as it was.
pub screen_refused :
    (t : Tables) (cfg : AutoModConfig ℕ) (w : Writer) (channel_id : ℕ) (content : Text)
    (sending : Bool) (rule : RuleName)
    → (screen t cfg w channel_id content sending).verdict ≡ refused rule
    → ((screen t cfg w channel_id content sending).log ≡ fired rule "block" ∷ [])
      × ((screen t cfg w channel_id content sending).recent ≡ w.recent)
screen_refused t cfg w channel_id content sending rule e =
    let q = screen-IsQuiet t cfg w channel_id content sending in (q.logged rule e, q.kept rule e)

-- An entry of the log as it reads for a text that was relayed under a name.
abbrev pub as_relayed : Text → Fired → Fired
as_relayed author (fired rule action) = fired_relayed author rule action
as_relayed author (fired_relayed other rule action) = fired_relayed author rule action

-- The verdict of a screening, and its log under that name.
abbrev pub seen : Text → Screened → Verdict × List Fired
seen author s = (s.verdict, map (as_relayed author) s.log)

-- A writer to whom no exemption applies.
unfoldable pub ordinary : Writer → Bool
ordinary w = elim w.role_ids [ [] ↦ bit_and w.base administrator == 0 | _ ↦ false ]

nobody-exempt : (ids : List ℕ) → any (λ want. contains [] want) ids ≡ false
unfolding any contains
nobody-exempt [] = refl
nobody-exempt (id ∷ ids) = nobody-exempt ids

list_cases : (ids : List ℕ) → (ids ≡ []) ⊎ ((r : ℕ) × (rest : List ℕ) × (ids ≡ r ∷ rest))
list_cases [] = inl refl
list_cases (r ∷ rest) = inr (r, rest, refl)

ordinary-exempt :
    (w : Writer) (ids : List ℕ)
    → ordinary w ≡ true
    → exempt_from_auto_mod w.base w.role_ids ids ≡ false
unfolding ordinary exempt_from_auto_mod
ordinary-exempt w ids h = elim (list_cases w.role_ids) [
  | inl bare ↦
      ground
        (arith, bare, h, nobody-exempt ids, ap (λ held. any (λ want. contains held want) ids) bare)
  | inr (r, rest, held) ↦ ground (arith, held, h)
]

module _ (t : Tables) (cfg : AutoModConfig ℕ) (w : Writer) (o : ordinary w ≡ true)
    (author : Text) where
  plain-applies : (rule : AutoModRule ℕ) → applies w rule ≡ rule.enabled
  unfolding applies
  plain-applies rule = ground (arith, ordinary-exempt w rule.exempt_roles o)

  logs-agree :
      (censored : Option RuleName)
      → map (as_relayed author) (censor_log censored) ≡ relay_log author censored
  unfolding censor_log relay_log
  logs-agree none = refl
  logs-agree (some rule) = refl

  words-agree :
      (folded content : Text) (censored : Option RuleName)
      → seen author (words_step t cfg w false folded content censored)
        ≡ relay_words t cfg author content censored
  unfolding words_step relay_words let_through refusal relay_end relay_refusal
  words-agree folded content censored =
      elim (Option-cases
        (screen_words t content cfg.words cfg.whole_word (censors cfg.words_rule))) [
          | inl absent ↦ ground (arith, plain-applies cfg.words_rule, absent, logs-agree censored)
          | inr (masked, found) ↦ ground (
            arith,
            plain-applies cfg.words_rule,
            found,
            logs-agree censored,
            logs-agree (some by_words),
          )
        ]

  links-agree :
      (folded content : Text)
      → seen author (links_step t cfg w false folded content) ≡ (
          if cfg.links_rule.enabled
          then (elim (screen_links t content cfg.allowed_domains (censors cfg.links_rule)) [
            | none ↦ relay_words t cfg author content none
            | some masked ↦
                if not (censors cfg.links_rule)
                then relay_refusal author by_links
                else relay_words t cfg author masked (some by_links)
          ])
          else relay_words t cfg author content none)
  unfolding links_step refusal relay_refusal
  links-agree folded content =
      elim (Option-cases (screen_links t content cfg.allowed_domains (censors cfg.links_rule))) [
        | inl absent ↦
            ground (arith, plain-applies cfg.links_rule, absent, words-agree folded content none)
        | inr (masked, found) ↦ ground (
          arith,
          plain-applies cfg.links_rule,
          found,
          words-agree folded content none,
          words-agree folded masked (some by_links),
        )
      ]

  -- A text from a bridge gets the verdict that the same text gets when somebody without the
  -- administrator bit and without roles sends it as an edit or a title, and the entries of the log are
  -- those of that case, for the same rules and actions, under the author's name and marked as relayed.
  pub screen_relayed_lem :
      (channel_id : ℕ) (content : Text)
      → seen author (screen_text t cfg w channel_id content)
        ≡ screen_relayed t cfg channel_id content author
  unfolding screen screen_relayed unchanged refusal relay_refusal
  screen_relayed_lem channel_id content = ground (
    arith,
    plain-applies cfg.mentions_rule,
    plain-applies cfg.caps_rule,
    ordinary-exempt w cfg.exempt_roles o,
    links-agree (fold t.lower content) content,
  )
