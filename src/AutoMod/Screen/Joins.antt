-- ===== src/AutoMod/Screen/Joins.antt =====
-- internal/gateway/automod.go: a text that passes `screenMessage` joins the history, and was no flood.
use aural_server.Base.{
  ℕ, ◌≡◌, refl, inl, inr, Bool, true, false, not, ◌&&◌, ◌||◌, Option, none, some, List, arith,
  if◌then◌else◌, contains, Bool-cases,
}
use aural_server.Text.{Text}
use aural_server.Permissions.{Permission}
use aural_server.Store.Fold.{fold}
use aural_server.AutoMod.{flooding, repeating, remember_message}
use aural_server.AutoMod.Words.{Tables, screen_words}
use aural_server.AutoMod.Rules.{screen_links, shouting, too_many_mentions, exempt_from_auto_mod}
use aural_server.AutoMod.Screen.{
  AutoModConfig, RuleName, passed, by_flood, by_repetition, by_mentions, by_caps, by_links,
  by_words, Writer, Screened, censors, applies, refusal, let_through, words_step, links_step,
  screen,
}

-- A text that passes joins the history.
abbrev pub Joins : Writer → Text → Screened → Type 0
Joins w folded s =
    (text : Text) (o : Option RuleName)
    → s.verdict ≡ passed text o
    → s.recent ≡ remember_message w.now folded w.recent

refusal-Joins : (w : Writer) (folded : Text) (rule : RuleName) → Joins w folded (refusal w rule)
unfolding refusal
refusal-Joins w folded rule text o e = cc

let_through-Joins :
    (w : Writer) (folded content : Text) (c : Option RuleName)
    → Joins w folded (let_through w true folded content c)
unfolding let_through
let_through-Joins w folded content c text o e = refl

if-Joins :
    (w : Writer) (folded : Text) (b : Bool) (s t : Screened)
    → Joins w folded s
    → Joins w folded t
    → Joins w folded (if b then s else t)
if-Joins w folded true s t h k = h
if-Joins w folded false s t h k = k

option-Joins :
    (w : Writer) (folded : Text) (o : Option Text) (n : Screened) (k : Text → Screened)
    → Joins w folded n
    → ((x : Text) → Joins w folded (k x))
    → Joins w folded (elim o [ none ↦ n | some x ↦ k x ])
option-Joins w folded none n k h j = h
option-Joins w folded (some x) n k h j = j x

module _ (t : Tables) (cfg : AutoModConfig ℕ) (w : Writer) (folded : Text) where
  words-Joins :
      (content : Text) (o : Option RuleName)
      → Joins w folded (words_step t cfg w true folded content o)
  unfolding words_step
  words-Joins content o =
      if-Joins w folded (applies w cfg.words_rule) _ _
        (option-Joins w folded
          (screen_words t content cfg.words cfg.whole_word (censors cfg.words_rule)) _ _
          (let_through-Joins w folded content o)
          (λ masked.
            if-Joins w folded (censors cfg.words_rule) _ _
              (let_through-Joins w folded masked (some by_words))
              (refusal-Joins w folded by_words)))
        (let_through-Joins w folded content o)

  links-Joins : (content : Text) → Joins w folded (links_step t cfg w true folded content)
  unfolding links_step
  links-Joins content =
      if-Joins w folded (applies w cfg.links_rule) _ _
        (option-Joins w folded (screen_links t content cfg.allowed_domains (censors cfg.links_rule))
          _ _ (words-Joins content none)
          (λ masked.
            if-Joins w folded (censors cfg.links_rule) _ _ (words-Joins masked (some by_links))
              (refusal-Joins w folded by_links)))
        (words-Joins content none)

-- The rules are on, the flood rule is among them, and neither spares the writer.
pub record IsBound (cfg : AutoModConfig ℕ) (base : Permission) (role_ids : List ℕ) : Type 0 where
  pub enabled : cfg.enabled ≡ true
  pub not_exempt : exempt_from_auto_mod base role_ids cfg.exempt_roles ≡ false
  pub paced : cfg.flood_rule.enabled ≡ true
  pub not_spared : exempt_from_auto_mod base role_ids cfg.flood_rule.exempt_roles ≡ false

module _ (t : Tables) (cfg : AutoModConfig ℕ) (w : Writer) (channel_id : ℕ) (content : Text)
    (b : IsBound cfg w.base w.role_ids)
    (plain : contains cfg.exempt_channels channel_id ≡ false) where
  bound : (not cfg.enabled || exempt_from_auto_mod w.base w.role_ids cfg.exempt_roles) ≡ false
  bound = ground (arith, b.enabled, b.not_exempt)

  flood_on : applies w cfg.flood_rule ≡ true
  unfolding applies
  flood_on = ground (arith, b.paced, b.not_spared)

  pub screen-Joins : Joins w (fold t.lower content) (screen t cfg w channel_id content true)
  unfolding screen
  screen-Joins =
      rw (bound, plain)
        (if-Joins w _ (true && applies w cfg.flood_rule && flooding w.now cfg.flood w.recent) _ _
          (refusal-Joins w _ by_flood)
          (if-Joins w _
            (true
              && applies w cfg.repetition_rule
              && repeating cfg.repetition_times (fold t.lower content) w.recent)
            _ _ (refusal-Joins w _ by_repetition)
            (if-Joins w _
              (applies w cfg.mentions_rule && too_many_mentions t content cfg.mentions_limit) _ _
              (refusal-Joins w _ by_mentions)
              (if-Joins w _
                (applies w cfg.caps_rule && shouting t content cfg.caps_percent cfg.caps_min_length)
                _ _ (refusal-Joins w _ by_caps) (links-Joins t cfg w _ content)))))

  -- A text that passes was no flood.
  pub passed-flooding :
      (text : Text) (o : Option RuleName)
      → (screen t cfg w channel_id content true).verdict ≡ passed text o
      → flooding w.now cfg.flood w.recent ≡ false
  unfolding screen refusal
  passed-flooding text o e = elim (Bool-cases (flooding w.now cfg.flood w.recent)) [
    | inl flood ↦ absurd (ground (arith, bound, plain, flood_on, flood, e))
    | inr calm ↦ calm
  ]
