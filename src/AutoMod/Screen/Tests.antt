-- ===== src/AutoMod/Screen/Tests.antt =====
-- Tests of the rules of internal/gateway/automod.go, with small tables in place of those of Go.
use aural_server.Base.{
  ℕ, ◌≡◌, refl, Bool, true, false, ◌&&◌, ◌||◌, none, some, List, [], ◌∷◌, leb, ltb, ◌+◌, ◌*◌, ◌≤◌,
  length, keep, if◌then◌else◌, arith,
}
use aural_server.Base.Int.{ℤ, pos, negsuc}
use aural_server.Text.{Text, trim_space}
use aural_server.Store.Fold.{fold}
use aural_server.Store.Fold.Twice.{IsLower}
use aural_server.AutoMod.{RecentMessage, second, flooding, remember_message}
use aural_server.AutoMod.Screen.Joins.{IsBound}
use aural_server.AutoMod.Screen.Paced.{Sent, nothing, accepted, rejected, screen-paced}
use aural_server.AutoMod.Words.{Tables, screen_words, censor_mark}
use aural_server.AutoMod.Words.Shape.{IsMasking, screen_words-IsMasking}
use aural_server.AutoMod.Rules.{shouting, exempt_from_auto_mod}
use aural_server.AutoMod.Screen.{
  AutoModRule, AutoModConfig, Writer, by_caps, by_flood, fired, screen, screen_text, screen_relayed,
}
use aural_server.AutoMod.Screen.Verdicts.{screen_refused, screen_relayed_lem, seen, ordinary}
use aural_server.AutoMod.Normalise.{normalise_auto_mod}
use aural_server.AutoMod.Normalise.Bounded.{IsBounded, normalise_auto_mod-IsBounded}

is_capital : ℕ → Bool
is_capital c = leb 65 c && leb c 90

abbrev ascii_lower : ℕ → ℕ
ascii_lower c = if leb 65 c && leb c 90 then c + 32 else c

-- Letters as in Latin-1, without links and mentions.
abbrev small_tables : Tables
small_tables = record {
  lower = ascii_lower;
  is_letter = λ c. leb 97 (ascii_lower c) && leb (ascii_lower c) 122 || leb 192 c;
  is_digit = λ c. leb 48 c && leb c 57;
  is_upper = λ c. leb 65 c && leb c 90;
  is_lower = λ c. leb 97 c && leb c 122;
  urls = λ _. [];
  mentions = λ _. 0;
}

ascii_lower-IsLower : IsLower ascii_lower
ascii_lower-IsLower = record { again = λ c. ground arith; small = λ c l h. ground arith }

abbrev bad : List Text
bad = (b'b' ∷ b'a' ∷ b'd' ∷ []) ∷ []

-- "so BAD" as a whole word, and not "badge".
masked_word :
    screen_words small_tables (b's' ∷ b'o' ∷ 32 ∷ b'B' ∷ b'A' ∷ b'D' ∷ []) bad true true
    ≡ some (b's' ∷ b'o' ∷ 32 ∷ censor_mark ∷ censor_mark ∷ censor_mark ∷ [])
unfolding screen_words fold trim_space
masked_word = refl

inside_word : screen_words small_tables (b'b' ∷ b'a' ∷ b'd' ∷ b'g' ∷ b'e' ∷ []) bad true true ≡ none
unfolding screen_words fold trim_space
inside_word = refl

-- A word that ends inside what a letter is folded to is found, but the letter stays.
half_letter : screen_words small_tables (0xE6 ∷ []) ((b'a' ∷ []) ∷ []) false true ≡ some (0xE6 ∷ [])
unfolding screen_words fold trim_space
half_letter = refl

-- The bytes of a letter that is not Latin do not count as a letter in front of a word.
other_script :
    screen_words small_tables
      (0x441 ∷ 0x43A ∷ 0x43E ∷ 0x442 ∷ [])
      ((0x43A ∷ 0x43E ∷ 0x442 ∷ []) ∷ [])
      true
      false
    ≡ some (0x441 ∷ 0x43A ∷ 0x43E ∷ 0x442 ∷ [])
unfolding screen_words fold trim_space
other_script = refl

screen_words-IsMasking_example :
    IsMasking
      (b's' ∷ b'o' ∷ 32 ∷ b'B' ∷ b'A' ∷ b'D' ∷ [])
      (b's' ∷ b'o' ∷ 32 ∷ censor_mark ∷ censor_mark ∷ censor_mark ∷ [])
screen_words-IsMasking_example =
    screen_words-IsMasking small_tables (b's' ∷ b'o' ∷ 32 ∷ b'B' ∷ b'A' ∷ b'D' ∷ [])
      (b's' ∷ b'o' ∷ 32 ∷ censor_mark ∷ censor_mark ∷ censor_mark ∷ []) bad true true masked_word

abbrev idle : {Ident : Type 0} → AutoModRule Ident
idle = record { enabled = false; action = "block"; exempt_roles = [] }

-- Capitals are refused, and one word is masked.
abbrev raw_rules : AutoModConfig ℤ
raw_rules = record {
  enabled = true;
  exempt_roles = [];
  exempt_channels = [];
  words_rule = record { enabled = true; action = "censor"; exempt_roles = [] };
  words = bad;
  whole_word = true;
  links_rule = idle;
  allowed_domains = [];
  mentions_rule = idle;
  mentions_limit = pos 0;
  caps_rule = record { enabled = true; action = "censor"; exempt_roles = [] };
  caps_percent = pos 500;
  caps_min_length = pos 0;
  flood_rule = idle;
  flood = record { messages = pos 0; seconds = pos 0 };
  repetition_rule = idle;
  repetition_times = negsuc 3;
}

normalise_auto_mod-IsBounded_example : IsBounded (normalise_auto_mod small_tables raw_rules)
normalise_auto_mod-IsBounded_example = normalise_auto_mod-IsBounded small_tables raw_rules

abbrev quiet_please : AutoModConfig ℕ
quiet_please = record {
  enabled = true;
  exempt_roles = [];
  exempt_channels = [];
  words_rule = record { enabled = true; action = "censor"; exempt_roles = [] };
  words = bad;
  whole_word = true;
  links_rule = idle;
  allowed_domains = [];
  mentions_rule = idle;
  mentions_limit = pos 5;
  caps_rule = record { enabled = true; action = "block"; exempt_roles = [] };
  caps_percent = pos 70;
  caps_min_length = pos 4;
  flood_rule = idle;
  flood = record { messages = pos 5; seconds = pos 5 };
  repetition_rule = idle;
  repetition_times = pos 3;
}

abbrev newcomer : Writer
newcomer = record { base = 15; role_ids = []; recent = []; now = 0 }

abbrev shout : Text
shout = b'B' ∷ b'A' ∷ b'D' ∷ b'!' ∷ b'B' ∷ b'A' ∷ b'D' ∷ []

screen_refused_example :
    ((screen small_tables quiet_please newcomer 1 shout true).log ≡ fired by_caps "block" ∷ [])
    × ((screen small_tables quiet_please newcomer 1 shout true).recent ≡ [])
unfolding screen exempt_from_auto_mod shouting
screen_refused_example = screen_refused small_tables quiet_please newcomer 1 shout true by_caps refl

screen_relayed_lem_example :
    seen
      (b'j' ∷ b'o' ∷ [])
      (screen_text small_tables quiet_please newcomer 1 (b'B' ∷ b'A' ∷ b'D' ∷ []))
    ≡ screen_relayed small_tables quiet_please 1 (b'B' ∷ b'A' ∷ b'D' ∷ []) (b'j' ∷ b'o' ∷ [])
unfolding ordinary
screen_relayed_lem_example =
    screen_relayed_lem small_tables quiet_please newcomer refl (b'j' ∷ b'o' ∷ []) 1
      (b'B' ∷ b'A' ∷ b'D' ∷ [])

-- One message in five seconds.
abbrev slowly : AutoModConfig ℕ
slowly = record quiet_please {
  flood_rule = record { enabled = true; action = "block"; exempt_roles = [] };
  flood = record { messages = pos 1; seconds = pos 5 };
}

slowly-IsBound : IsBound slowly 15 []
unfolding exempt_from_auto_mod
slowly-IsBound = record { enabled = refl; not_exempt = refl; paced = refl; not_spared = refl }

abbrev said_hi : RecentMessage
said_hi = record { at = second; folded = b'h' ∷ b'i' ∷ [] }

-- The first is accepted, and one a second later is not.
one_of_two : Sent small_tables slowly 15 [] (2 * second) (said_hi ∷ []) (said_hi ∷ [])
unfolding screen exempt_from_auto_mod shouting flooding remember_message fold screen_words
    trim_space
one_of_two =
    rejected
      (accepted nothing second 1 (b'h' ∷ b'i' ∷ []) (b'h' ∷ b'i' ∷ []) none (omega arith) refl refl)
      (2 * second) 1 (b'y' ∷ b'o' ∷ []) by_flood (omega arith) refl

screen-paced_example : length (keep (λ e. ltb (2 * second) (e.at + 5 * second)) (said_hi ∷ [])) ≤ 1
screen-paced_example =
    screen-paced small_tables slowly 15 [] 1 5 slowly-IsBound refl (omega arith) (omega arith)
      (omega arith) (omega arith) one_of_two
