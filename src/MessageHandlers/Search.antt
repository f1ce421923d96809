-- ===== src/MessageHandlers/Search.antt =====
-- The search of messages, up to the query: `handleMessageSearch` of
-- internal/gateway/handlers_message.go reads what it asks the store from `searchFilter`, and
-- internal/store/search.go cuts the query into terms.

pub mod Visible
mod Tests
use text.Mathlib.Text.{◌==◌ as str_eq}
use aural_server.Base.{
  ℕ, zero, suc, ◌+◌, String, Bool, true, false, not, ◌&&◌, ◌||◌, Option, none, some, List, [], ◌∷◌,
  ◌++◌, min, ltb, leb, ◌==◌, if◌then◌else◌, keep, map, length, contains,
}
use aural_server.Base.Int.{ℤ, pos, negsuc, ltb_ℤ, eqb_ℤ}
use aural_server.Text.{Text, trim_space}
use aural_server.Store.Fold.{fold}
use aural_server.Hub.{Hub, Channel}
use aural_server.Protocol.{Result, ok, err, refuse, bad_request, ◌>>=◌, ◌>>◌, require}
use aural_server.Server.{Session}
use aural_server.Server.Sync.{session_can_view}
use aural_server.MessageHandlers.{is_text}

abbrev pub max_search_terms : ℕ
max_search_terms = 8

abbrev pub default_search_limit : ℕ
default_search_limit = 25

abbrev pub max_search_limit : ℕ
max_search_limit = 50

abbrev pub max_search_offset : ℕ
max_search_offset = 5000

abbrev pub max_search_authors : ℕ
max_search_authors = 16

-- The state of `SearchTerms`: the terms, what is being typed, and whether a phrase is open.
pub record Splitting : Type 0 where
  pub terms : List Text
  pub current : Text
  pub quoted : Bool

add_term : ℕ → Text → List Text → List Text
add_term most [] terms = terms
add_term most (c ∷ rest) terms = if ltb (length terms) most then terms ++ (c ∷ rest) ∷ [] else terms

-- `flush`.
flush : (ℕ → ℕ) → ℕ → Splitting → Splitting
unfolding add_term
flush lower most st = record st {
  terms = add_term most (fold lower (trim_space st.current)) st.terms;
  current = [];
}

-- A space, a tab, or the end of a line.
parts_terms : ℕ → Bool
parts_terms r = r == 32 || r == 9 || r == 10 || r == 13

next_rune : (ℕ → ℕ) → ℕ → ℕ → Splitting → Splitting
unfolding flush parts_terms
next_rune lower most r st =
    if r == 34
    then (let st' = flush lower most st in record st' { quoted = not st'.quoted })
    else if not st.quoted && parts_terms r
    then flush lower most st
    else record st { current = st.current ++ r ∷ [] }

split_query : (ℕ → ℕ) → ℕ → Text → Splitting → Splitting
unfolding next_rune
split_query lower most [] st = flush lower most st
split_query lower most (r ∷ rest) st = split_query lower most rest (next_rune lower most r st)

at_start : Splitting
at_start = record { terms = []; current = []; quoted = false }

-- `SearchTerms`.
unfoldable pub search_terms : (ℕ → ℕ) → Text → ℕ → List Text
unfolding split_query at_start
search_terms lower query most = (split_query lower most query at_start).terms

-- `MessageSearchRequest`.
pub record MessageSearchRequest : Type 0 where
  pub query : Text
  pub channel_ids : List ℕ
  pub author_ids : List ℕ
  pub has : List String
  pub after : ℤ
  pub before : ℤ
  pub sort : String
  pub limit : ℤ
  pub offset : ℤ

-- `SearchFilter`.
pub record SearchFilter : Type 0 where
  pub terms : List Text
  pub channel_ids : List ℕ
  pub author_ids : List ℕ
  pub has : List String
  pub after : ℤ
  pub before : ℤ
  pub sort : String
  pub limit : ℕ
  pub offset : ℕ

-- The first of each id that has not been seen.
unseen : List ℕ → List ℕ → List ℕ
unfolding contains
unseen seen [] = []
unseen seen (id ∷ rest) =
    let later = unseen (id ∷ seen) rest in if contains seen id then later else id ∷ later

-- `dedupe`.
unfoldable pub dedupe : List ℕ → List ℕ
unfolding unseen
dedupe ids = unseen [] ids

one_of : List String → String → Bool
one_of [] s = false
one_of (x ∷ rest) s = str_eq x s || one_of rest s

-- The kinds of content, each once, behind those that were asked for before.
unfoldable pub required : List String → List String → Result (List String)
unfolding one_of
required kept [] = ok kept
required kept (kind ∷ rest) = do
  require (one_of ("link" ∷ "file" ∷ "image" ∷ "video" ∷ "sound" ∷ []) kind) bad_request
      "a message can be required to have a link, file, image, video or sound"
  required (if one_of kept kind then kept else kept ++ kind ∷ []) rest

unfoldable pub sorting : String → Result String
unfolding one_of
sorting asked =
    if one_of ("" ∷ "newest" ∷ []) asked
    then ok "newest"
    else if one_of ("oldest" ∷ "relevance" ∷ []) asked
    then ok asked
    else refuse bad_request "results can be sorted newest, oldest or by relevance"

unfoldable pub search_limit : ℤ → ℕ
search_limit (pos zero) = default_search_limit
search_limit (pos (suc n)) = min (suc n) max_search_limit
search_limit (negsuc n) = default_search_limit

unfoldable pub search_offset : ℤ → Result ℕ
search_offset (pos n) =
    if ltb max_search_offset n
    then refuse bad_request "a search cannot be paged that far; narrow it instead"
    else ok n
search_offset (negsuc n) = refuse bad_request "a search cannot be paged that far; narrow it instead"

-- `SortedChannels`.
precedes : Channel → Channel → Bool
precedes a b = ltb_ℤ a.position b.position || eqb_ℤ a.position b.position && ltb a.id b.id

place_channel : Channel → List Channel → List Channel
unfolding precedes
place_channel c [] = c ∷ []
place_channel c (d ∷ rest) =
    let later = place_channel c rest in if precedes d c then d ∷ later else c ∷ d ∷ rest

unfoldable pub sort_channels : List Channel → List Channel
unfolding place_channel
sort_channels [] = []
sort_channels (c ∷ rest) = place_channel c (sort_channels rest)

-- `VisibleChannels`.
unfoldable pub visible_channels : Hub → Session → List Channel
unfolding sort_channels keep
visible_channels h s = keep (λ (c : Channel). session_can_view h s c.id) (sort_channels h.channels)

is_empty : {A : Type 0} → List A → Bool
is_empty [] = true
is_empty (x ∷ xs) = false

is_zero : ℤ → Bool
is_zero (pos zero) = true
is_zero (pos (suc n)) = false
is_zero (negsuc n) = false

-- A text channel that was asked for, or any where none was.
unfoldable pub is_wanted : List ℕ → Channel → Bool
unfolding is_empty is_text
is_wanted wanted c = is_text c.type && (is_empty wanted || contains wanted c.id)

unfoldable pub searched_channels : Hub → Session → List ℕ → List ℕ
unfolding visible_channels is_wanted
searched_channels h s wanted =
    map (λ (c : Channel). c.id) (keep (is_wanted wanted) (visible_channels h s))

-- Whether a request asks for anything.
unfoldable pub asks_nothing : MessageSearchRequest → List Text → List ℕ → List String → Bool
unfolding is_empty is_zero
asks_nothing req terms authors has =
    is_empty terms
    && is_empty authors
    && is_empty has
    && is_zero req.after
    && is_zero req.before
    && is_empty req.channel_ids

-- `searchFilter`, under the lower case of the tables.
unfoldable pub search_filter : (ℕ → ℕ) → Hub → Session → MessageSearchRequest → Result SearchFilter
search_filter lower h actor req =
    let terms = search_terms lower req.query max_search_terms in
    let authors = dedupe req.author_ids in
    require (leb (length req.author_ids) max_search_authors) bad_request
      "a search may name at most 16 authors"
    >> required [] req.has
    >>= λ has. sorting req.sort >>= λ sort. search_offset req.offset >>= λ offset.
        require (not (asks_nothing req terms authors has)) bad_request
          "a search needs something to look for"
        >> ok (record {
          terms = terms;
          channel_ids = searched_channels h actor req.channel_ids;
          author_ids = authors;
          has = has;
          after = req.after;
          before = req.before;
          sort = sort;
          limit = search_limit req.limit;
          offset = offset;
        })
