-- ===== src/AutoMod/Normalise.antt =====
-- internal/gateway/automod.go: `normaliseAutoMod`, which every rule set goes through.
pub mod Bounded
use aural_server.Base.{
  ℕ, zero, suc, ◌+◌, String, Bool, true, false, not, ◌&&◌, ◌||◌, List, [], ◌∷◌, ◌++◌, map, any, ltb,
  leb, ◌==◌, if◌then◌else◌, length, contains,
}
use text.Mathlib.Text.{◌==◌ as str_eq}
use aural_server.Base.Int.{ℤ, pos}
use aural_server.Text.{Text, text_eq, trim_space}
use aural_server.Store.Fold.{fold}
use aural_server.AutoMod.{clamp, clamp_ids, is_empty, AutoModFlood}
use aural_server.AutoMod.Words.{Tables}
use aural_server.AutoMod.Rules.{trim_first}
use aural_server.AutoMod.Screen.{AutoModRule, AutoModConfig}

-- `maxAutoModWords`, `maxAutoModWordRunes` and `maxAutoModDomains`.
abbrev pub max_words : ℕ
max_words = 500

abbrev pub max_word_runes : ℕ
max_word_runes = 64

abbrev pub max_domains : ℕ
max_domains = 100

-- The action of a rule, as `normaliseRule` leaves it.
unfoldable pub normalise_action : String → String → Bool → String
normalise_action action fallback allow_censor =
    if str_eq action "block"
    then action
    else if str_eq action "censor"
    then (if not allow_censor then "block" else action)
    else fallback

-- `normaliseRule`.
unfoldable pub normalise_rule : AutoModRule ℤ → String → Bool → AutoModRule ℕ
normalise_rule rule fallback allow_censor = record {
  enabled = rule.enabled;
  action = normalise_action rule.action fallback allow_censor;
  exempt_roles = clamp_ids rule.exempt_roles;
}

-- A word that the loop of `normaliseAutoMod` passes over.
skips_word : List Text → Text → Text → Bool
skips_word seen word folded =
    is_empty word
    || ltb max_word_runes (length word)
    || is_empty folded
    || any (text_eq folded) seen

-- The words that are kept, after those that are, with their folded forms.
pub words_onto : Tables → List Text → List Text → List Text → List Text
unfolding skips_word
words_onto t kept seen [] = kept
words_onto t kept seen (raw ∷ rest) =
    let word = trim_space raw in
    let folded = fold t.lower word in
    let longer = kept ++ word ∷ [] in
    let without = words_onto t kept seen rest in
    let within = words_onto t longer (folded ∷ seen) rest in
    if skips_word seen word folded
    then without
    else if leb max_words (length longer)
    then longer
    else within

-- A domain that the loop passes over: `ContainsAny` of a blank and the slashes.
skips_domain : Text → Bool
skips_domain domain = is_empty domain || any (λ c. c == 32 || c == 47 || c == 92) domain

pub domains_onto : Tables → List Text → List Text → List Text
unfolding skips_domain
domains_onto t kept [] = kept
domains_onto t kept (raw ∷ rest) =
    let domain = map t.lower (trim_space (trim_first b'.' raw)) in
    let longer = kept ++ domain ∷ [] in
    let without = domains_onto t kept rest in
    let within = domains_onto t longer rest in
    if skips_domain domain
    then without
    else if leb max_domains (length longer)
    then longer
    else within

-- `normaliseAutoMod`.
unfoldable pub normalise_auto_mod : Tables → AutoModConfig ℤ → AutoModConfig ℕ
unfolding words_onto domains_onto
normalise_auto_mod t cfg = record {
  enabled = cfg.enabled;
  exempt_roles = clamp_ids cfg.exempt_roles;
  exempt_channels = clamp_ids cfg.exempt_channels;
  words_rule = normalise_rule cfg.words_rule "censor" true;
  words = words_onto t [] [] cfg.words;
  whole_word = cfg.whole_word;
  links_rule = normalise_rule cfg.links_rule "block" true;
  allowed_domains = domains_onto t [] cfg.allowed_domains;
  mentions_rule = normalise_rule cfg.mentions_rule "block" false;
  mentions_limit = clamp cfg.mentions_limit (pos 1) (pos 50) (pos 5);
  caps_rule = normalise_rule cfg.caps_rule "block" false;
  caps_percent = clamp cfg.caps_percent (pos 10) (pos 100) (pos 70);
  caps_min_length = clamp cfg.caps_min_length (pos 4) (pos 500) (pos 12);
  flood_rule = normalise_rule cfg.flood_rule "block" false;
  flood = record {
    messages = clamp cfg.flood.messages (pos 2) (pos 30) (pos 5);
    seconds = clamp cfg.flood.seconds (pos 1) (pos 60) (pos 5);
  };
  repetition_rule = normalise_rule cfg.repetition_rule "block" false;
  repetition_times = clamp cfg.repetition_times (pos 2) (pos 20) (pos 3);
}
