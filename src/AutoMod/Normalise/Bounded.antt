-- ===== src/AutoMod/Normalise/Bounded.antt =====
-- internal/gateway/automod.go: the bounds of a rule set that went through `normaliseAutoMod`.
use aural_server.Base.{
  ℕ, suc, ◌≤◌, ◌<◌, ◌≡◌, refl, ap, String, true, false, List, [], ◌∷◌, ◌++◌, map, leb, length, All,
  arith, Bool-cases, inl, inr,
}
use text.Mathlib.Text.{◌==◌ as str_eq}
use aural_server.Base.Int.{ℤ, pos}
use aural_server.Text.{Text, trim_space}
use aural_server.Store.Fold.{fold}
use aural_server.AutoMod.{clamp, max_exempt, is_empty}
use aural_server.AutoMod.Bounds.{clamp_lem, clamp_ids_lem}
use aural_server.AutoMod.Words.{Tables}
use aural_server.AutoMod.Rules.{trim_first}
use aural_server.AutoMod.Screen.{AutoModRule, AutoModConfig}
use aural_server.AutoMod.Normalise.{
  max_words, max_word_runes, max_domains, normalise_action, normalise_rule, skips_word, words_onto,
  skips_domain, domains_onto, normalise_auto_mod,
}

snoc_length : (xs : List Text) (a : Text) → length (xs ++ a ∷ []) ≡ suc (length xs)
snoc_length [] a = refl
snoc_length (x ∷ xs) a = ap suc (snoc_length xs a)

-- A word that may be looked for.
pub IsShort : Text → Type 0
IsShort word = (length word ≤ max_word_runes) × (is_empty word ≡ false)

All-snoc : (xs : List Text) (a : Text) → All IsShort xs → IsShort a → All IsShort (xs ++ a ∷ [])
All-snoc [] a h k = (k, tt)
All-snoc (x ∷ xs) a h k = (h.0, All-snoc xs a h.1 k)

record AreShort (words : List Text) : Type 0 where
  few : length words ≤ max_words
  short : All IsShort words

kept-IsShort :
    (seen : List Text) (word folded : Text) → skips_word seen word folded ≡ false → IsShort word
unfolding skips_word IsShort
kept-IsShort seen word folded h = (ground (arith, h), ground (arith, h))

words_onto-AreShort :
    (t : Tables) (kept seen rest : List Text)
    → length kept < max_words
    → All IsShort kept
    → AreShort (words_onto t kept seen rest)
unfolding words_onto
words_onto-AreShort t kept seen [] l h = record { few = omega (arith, l); short = h }
words_onto-AreShort t kept seen (raw ∷ rest) l h =
    let word = trim_space raw in
    let folded = fold t.lower word in
    elim (Bool-cases (skips_word seen word folded)) [
      | inl skipped ↦ rw skipped (words_onto-AreShort t kept seen rest l h)
      | inr kept_too ↦
          let longer : All IsShort (kept ++ word ∷ []) =
            All-snoc kept word h (kept-IsShort seen word folded kept_too) in
          elim (Bool-cases (leb max_words (length (kept ++ word ∷ [])))) [
            | inl full ↦
                rw (kept_too, full)
                  (record { few = omega (arith, l, snoc_length kept word); short = longer })
            | inr room ↦
                rw (kept_too, room)
                  (words_onto-AreShort t (kept ++ word ∷ []) (folded ∷ seen) rest
                    (ground (arith, room)) longer)
          ]
    ]

domains_onto-few :
    (t : Tables) (kept rest : List Text)
    → length kept < max_domains
    → length (domains_onto t kept rest) ≤ max_domains
unfolding domains_onto
domains_onto-few t kept [] l = omega (arith, l)
domains_onto-few t kept (raw ∷ rest) l =
    let domain = map t.lower (trim_space (trim_first b'.' raw)) in
    elim (Bool-cases (skips_domain domain)) [
      | inl skipped ↦ rw skipped (domains_onto-few t kept rest l)
      | inr new ↦ elim (Bool-cases (leb max_domains (length (kept ++ domain ∷ [])))) [
        | inl full ↦ rw (new, full) (omega (arith, l, snoc_length kept domain))
        | inr room ↦
            rw (new, room) (domains_onto-few t (kept ++ domain ∷ []) rest (ground (arith, room)))
      ]
    ]

normalise_action-block :
    (action : String) → str_eq (normalise_action action "block" false) "block" ≡ true
unfolding normalise_action
normalise_action-block action = elim (Bool-cases (str_eq action "block")) [
  | inl same ↦ rw same same
  | inr other ↦ elim (Bool-cases (str_eq action "censor")) [
    | inl censor ↦ rw (other, censor) refl
    | inr neither ↦ rw (other, neither) refl
  ]
]

-- A number that a rule may be set to.
unfoldable pub IsWithin : ℤ → ℕ → ℕ → Type 0
IsWithin value low high = (n : ℕ) × (value ≡ pos n) × (low ≤ n) × (n ≤ high)

clamp-IsWithin :
    (value : ℤ) (low high fallback : ℕ)
    → 1 ≤ low
    → low ≤ fallback
    → fallback ≤ high
    → IsWithin (clamp value (pos low) (pos high) (pos fallback)) low high
unfolding IsWithin
clamp-IsWithin value low high fallback a b c =
    let (n, e, l, h, again) = clamp_lem value low high fallback a b c in (n, e, l, h)

-- A rule that blocks, and that few roles are exempt from.
pub record IsPlain (rule : AutoModRule ℕ) : Type 0 where
  pub blocks : str_eq rule.action "block" ≡ true
  pub few_exempt : length rule.exempt_roles ≤ max_exempt

normalise_rule-IsPlain : (rule : AutoModRule ℤ) → IsPlain (normalise_rule rule "block" false)
unfolding normalise_rule
normalise_rule-IsPlain rule = record {
  blocks = normalise_action-block rule.action;
  few_exempt = (clamp_ids_lem rule.exempt_roles).0;
}

-- A rule set that the engine can run.
pub record IsBounded (cfg : AutoModConfig ℕ) : Type 0 where
  pub few_words : length cfg.words ≤ max_words
  pub short_words : All IsShort cfg.words
  pub few_domains : length cfg.allowed_domains ≤ max_domains
  pub few_roles : length cfg.exempt_roles ≤ max_exempt
  pub few_channels : length cfg.exempt_channels ≤ max_exempt
  pub mentions : IsPlain cfg.mentions_rule × IsWithin cfg.mentions_limit 1 50
  pub caps :
      IsPlain cfg.caps_rule × IsWithin cfg.caps_percent 10 100 × IsWithin cfg.caps_min_length 4 500
  pub flood :
      IsPlain cfg.flood_rule × IsWithin cfg.flood.messages 2 30 × IsWithin cfg.flood.seconds 1 60
  pub repetition : IsPlain cfg.repetition_rule × IsWithin cfg.repetition_times 2 20

-- Whatever rule set arrives, what is kept of it is within the bounds of the engine: at most 500 words,
-- none empty and none of more than 64 characters, at most 100 domains and at most 64 exempt roles and
-- channels; the rules on mentions, capitals, flooding and repetition block, with at most 64 exempt
-- roles each, and their numbers are in their ranges.
pub normalise_auto_mod-IsBounded :
    (t : Tables) (cfg : AutoModConfig ℤ) → IsBounded (normalise_auto_mod t cfg)
unfolding normalise_auto_mod
normalise_auto_mod-IsBounded t cfg =
    let words = words_onto-AreShort t [] [] cfg.words (omega arith) tt in
    record {
      few_words = words.few;
      short_words = words.short;
      few_domains = domains_onto-few t [] cfg.allowed_domains (omega arith);
      few_roles = (clamp_ids_lem cfg.exempt_roles).0;
      few_channels = (clamp_ids_lem cfg.exempt_channels).0;
      mentions = (
        normalise_rule-IsPlain cfg.mentions_rule,
        clamp-IsWithin cfg.mentions_limit 1 50 5 (omega arith) (omega arith) (omega arith),
      );
      caps = (
        normalise_rule-IsPlain cfg.caps_rule,
        clamp-IsWithin cfg.caps_percent 10 100 70 (omega arith) (omega arith) (omega arith),
        clamp-IsWithin cfg.caps_min_length 4 500 12 (omega arith) (omega arith) (omega arith),
      );
      flood = (
        normalise_rule-IsPlain cfg.flood_rule,
        clamp-IsWithin cfg.flood.messages 2 30 5 (omega arith) (omega arith) (omega arith),
        clamp-IsWithin cfg.flood.seconds 1 60 5 (omega arith) (omega arith) (omega arith),
      );
      repetition = (
        normalise_rule-IsPlain cfg.repetition_rule,
        clamp-IsWithin cfg.repetition_times 2 20 3 (omega arith) (omega arith) (omega arith),
      );
    }
