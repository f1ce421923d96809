-- ===== src/MessageHandlers/Search/Visible.antt =====
-- internal/gateway/handlers_message.go: the channels that a search runs over.
use aural_server.Base.{
  ℕ, ◌≡◌, refl, ap, subst, sym, ◌∙◌, ◌⊎◌, inl, inr, Bool, true, ◌&&◌, ◌||◌, List, [], ◌∷◌, arith,
  ◌==◌, Bool-cases, keep, any, map, contains, leb, length, not,
}
use aural_server.Hub.{Hub, Channel}
use aural_server.Protocol.{Result, ok, err, bad_request, require, ◌>>◌, >>=-eq-ok}
use aural_server.Server.{Session}
use aural_server.Server.Sync.{session_can_view}
use aural_server.MessageHandlers.{is_text}
use aural_server.MessageHandlers.Search.{
  MessageSearchRequest, SearchFilter, max_search_authors, max_search_terms, search_filter,
  search_terms, searched_channels, visible_channels, sort_channels, place_channel, is_wanted,
  is_empty, required, sorting, search_offset, dedupe, asks_nothing,
}

-- A text channel with an id.
abbrev pub has_text : ℕ → List Channel → Bool
has_text id cs = any (λ (c : Channel). c.id == id && is_text c.type) cs

has_text-place_channel :
    (id : ℕ) (c : Channel) (cs : List Channel)
    → has_text id (place_channel c cs) ≡ has_text id (c ∷ cs)
unfolding any place_channel
has_text-place_channel id c [] = refl
has_text-place_channel id c (d ∷ cs) = ground (arith, has_text-place_channel id c cs)

has_text-sort_channels :
    (id : ℕ) (cs : List Channel) → has_text id (sort_channels cs) ≡ has_text id cs
unfolding any sort_channels
has_text-sort_channels id [] = refl
has_text-sort_channels id (c ∷ cs) =
    ground (arith, has_text-place_channel id c (sort_channels cs), has_text-sort_channels id cs)

-- What a channel of the search is.
pub record IsSearchable (h : Hub) (s : Session) (wanted : List ℕ) (cs : List Channel) (id : ℕ)
    : Type 0 where
  pub stands : has_text id cs ≡ true
  pub seen : session_can_view h s id ≡ true
  pub asked : (wanted ≡ []) ⊎ (contains wanted id ≡ true)

asked_for :
    (wanted : List ℕ) (id : ℕ)
    → (is_empty wanted || contains wanted id) ≡ true
    → (wanted ≡ []) ⊎ (contains wanted id ≡ true)
unfolding is_empty
asked_for [] id h = inl refl
asked_for (w ∷ wanted) id h = inr h

-- A kept id is that of a row that passed, under which it may be looked for.
kept_row :
    (p q : Channel → Bool) (cs : List Channel) (id : ℕ)
    → contains (map (λ (c : Channel). c.id) (keep p (keep q cs))) id ≡ true
    → (c : Channel) × (c.id ≡ id)
      × (p c ≡ true)
      × (q c ≡ true)
      × ((is_text c.type ≡ true) → has_text id cs ≡ true)
unfolding any keep contains
kept_row p q [] id e = cc
kept_row p q (c ∷ cs) id e = elim (Bool-cases (q c)) [
  | inl visible ↦ elim (Bool-cases (p c)) [
    | inl passed ↦ elim (Bool-cases (c.id == id)) [
      | inl here ↦ (c, ground (arith, here), passed, visible, λ text. ground (arith, here, text))
      | inr there ↦
          (let (d, named, good, seen, text) =
              kept_row p q cs id (ground (arith, e, visible, passed, there)) in
            (d, named, good, seen, λ t. ground (arith, text t)))
    ]
    | inr failed ↦
        (let (d, named, good, seen, text) =
            kept_row p q cs id (ground (arith, e, visible, failed)) in
          (d, named, good, seen, λ t. ground (arith, text t)))
  ]
  | inr hidden ↦
      (let (d, named, good, seen, text) = kept_row p q cs id (ground (arith, e, hidden)) in
        (d, named, good, seen, λ t. ground (arith, text t)))
]

IsSearchable-searched_channels :
    (h : Hub) (s : Session) (wanted : List ℕ) (id : ℕ)
    → contains (searched_channels h s wanted) id ≡ true
    → IsSearchable h s wanted h.channels id
unfolding searched_channels visible_channels is_wanted
IsSearchable-searched_channels h s wanted id e =
    let (c, named, passed, seen, text) =
      kept_row (is_wanted wanted) (λ (c : Channel). session_can_view h s c.id)
        (sort_channels h.channels) id e in
    record {
      stands = sym (has_text-sort_channels id h.channels) ∙ text (ground (arith, passed));
      seen = subst (λ k. session_can_view h s k ≡ true) named seen;
      asked = asked_for wanted id (
          subst (λ k. (is_empty wanted || contains wanted k) ≡ true) named
            (ground (arith, passed)));
    }

ids_of : Result SearchFilter → List ℕ
ids_of (ok f) = f.channel_ids
ids_of (err e) = []

search_filter-channels :
    (lower : ℕ → ℕ) (h : Hub) (actor : Session) (req : MessageSearchRequest) (f : SearchFilter)
    → search_filter lower h actor req ≡ ok f
    → f.channel_ids ≡ searched_channels h actor req.channel_ids
unfolding search_filter ids_of
search_filter-channels lower h actor req f e =
    let (kinds, _, e2) =
      >>=-eq-ok
        (require (leb (length req.author_ids) max_search_authors) bad_request
            "a search may name at most 16 authors"
          >> required [] req.has)
        _ e in
    let (sort, _, e3) = >>=-eq-ok (sorting req.sort) _ e2 in
    let (offset, _, e4) = >>=-eq-ok (search_offset req.offset) _ e3 in
    let (asks, _, e5) =
      >>=-eq-ok
        (require
          (not (
            asks_nothing req (search_terms lower req.query max_search_terms) (dedupe req.author_ids)
              kinds))
          bad_request "a search needs something to look for")
        _ e4 in
    sym (ap ids_of e5)

-- What a search runs over: every channel of a filter is the id of a text channel of the tree that the
-- caller may view, and that the request names if it names any.
pub search_filter-visible :
    (lower : ℕ → ℕ) (h : Hub) (actor : Session) (req : MessageSearchRequest) (f : SearchFilter)
    (id : ℕ)
    → search_filter lower h actor req ≡ ok f
    → contains f.channel_ids id ≡ true
    → IsSearchable h actor req.channel_ids h.channels id
search_filter-visible lower h actor req f id e m =
    IsSearchable-searched_channels h actor req.channel_ids id
      (subst (λ ids. contains ids id ≡ true) (search_filter-channels lower h actor req f e) m)
