-- ===== src/MessageHandlers/Search/Tests.antt =====
-- internal/gateway/handlers_message.go: a search of one channel that the caller sees, and of one that
-- is no text channel.
use aural_server.Base.{◌≡◌, refl, [], ◌∷◌, contains}
use aural_server.Base.Int.{pos}
use aural_server.Permissions.{has, resolve_in_channel}
use aural_server.Hub.{channel_permissions}
use aural_server.Store.Fold.{fold}
use aural_server.Text.{Text, trim_space}
use aural_server.Server.Sync.{session_can_view}
use aural_server.MessageHandlers.Search.{
  MessageSearchRequest, SearchFilter, search_filter, search_terms, searched_channels, required,
  sorting, search_offset, asks_nothing, dedupe, search_limit,
}
use aural_server.MessageHandlers.Search.Visible.{IsSearchable, search_filter-visible}
use aural_server.Fixtures.{small_hub, moderator}

-- One word and one phrase.
abbrev asked : Text
asked = b'h' ∷ b'i' ∷ b' ' ∷ b'"' ∷ b'a' ∷ b' ' ∷ b'b' ∷ b'"' ∷ []

two_terms : search_terms (λ c. c) asked 8 ≡ (b'h' ∷ b'i' ∷ []) ∷ (b'a' ∷ b' ' ∷ b'b' ∷ []) ∷ []
unfolding search_terms fold trim_space
two_terms = refl

one_term : search_terms (λ c. c) asked 1 ≡ (b'h' ∷ b'i' ∷ []) ∷ []
unfolding search_terms fold trim_space
one_term = refl

abbrev in_staff : MessageSearchRequest
in_staff = record {
  query = asked;
  channel_ids = 11 ∷ 10 ∷ 99 ∷ [];
  author_ids = 2 ∷ 2 ∷ [];
  has = "link" ∷ "link" ∷ [];
  after = pos 0;
  before = pos 0;
  sort = "";
  limit = pos 80;
  offset = pos 0;
}

abbrev staff_filter : SearchFilter
staff_filter = record {
  terms = (b'h' ∷ b'i' ∷ []) ∷ (b'a' ∷ b' ' ∷ b'b' ∷ []) ∷ [];
  channel_ids = 11 ∷ [];
  author_ids = 2 ∷ [];
  has = "link" ∷ [];
  after = pos 0;
  before = pos 0;
  sort = "newest";
  limit = 50;
  offset = 0;
}

search_filter-visible_example :
    IsSearchable small_hub moderator (11 ∷ 10 ∷ 99 ∷ []) small_hub.channels 11
unfolding search_filter contains search_terms fold trim_space searched_channels session_can_view has
    channel_permissions resolve_in_channel required sorting search_offset asks_nothing dedupe
    search_limit
search_filter-visible_example =
    search_filter-visible (λ c. c) small_hub moderator in_staff staff_filter 11 refl refl
