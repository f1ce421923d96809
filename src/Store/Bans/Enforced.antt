-- ===== src/Store/Bans/Enforced.antt =====
-- internal/store/bans.go: which ban is found.
use aural_server.Base.{
  ℕ, ◌≡◌, refl, ap, subst, ◌∙◌, Bool, true, false, ◌&&◌, some, List, [], ◌∷◌, ◌++◌, ltb, keep, any,
  arith, Bool-cases, inl, inr, ◌⊎◌, ==_refl,
}
use aural_server.Text.{Text, text_eq}
use aural_server.Store.{done}
use aural_server.Store.Bans.{
  MatchKind, match_user, match_ip, match_device, same_kind, BanMatch, Ban, MatchRow, BanTables,
  active, same_handle, is_blank, upsert, record_matches, create_ban, catches, newer, newest_ban,
  found, find_in, find_ban,
}

text_eq_refl : (s : Text) → text_eq s s ≡ true
unfolding text_eq
text_eq_refl [] = refl
text_eq_refl (c ∷ s) = ground (arith, ==_refl c, text_eq_refl s)

same_kind_refl : (k : MatchKind) → same_kind k k ≡ true
unfolding same_kind
same_kind_refl match_user = refl
same_kind_refl match_ip = refl
same_kind_refl match_device = refl

same_handle_refl : (m : BanMatch) → same_handle m m ≡ true
unfolding same_handle
same_handle_refl m = ground (arith, same_kind_refl m.kind, text_eq_refl m.value)

upsert-catches :
    (id : ℕ) (m : BanMatch) (rows : List MatchRow) → catches (upsert id m rows) (m ∷ []) id ≡ true
unfolding upsert catches any
upsert-catches id m [] = ground (arith, ==_refl id, same_handle_refl m)
upsert-catches id m (r ∷ rows) = elim (Bool-cases (same_handle r.handle m)) [
  | inl same ↦ ground (arith, same, ==_refl id)
  | inr other ↦ ground (arith, other, upsert-catches id m rows)
]

upsert-kept :
    (id : ℕ) (n m : BanMatch) (rows : List MatchRow)
    → catches rows (m ∷ []) id ≡ true
    → catches (upsert id n rows) (m ∷ []) id ≡ true
unfolding upsert catches any
upsert-kept id n m [] h = ground (arith, h)
upsert-kept id n m (r ∷ rows) h = elim (Bool-cases (same_handle r.handle n)) [
  | inl same ↦ ground (arith, same, h, ==_refl id)
  | inr other ↦ elim (Bool-cases (catches rows (m ∷ []) id)) [
    | inl later ↦ ground (arith, other, upsert-kept id n m rows later)
    | inr here ↦ ground (arith, other, here, h)
  ]
]

matches-kept :
    (id : ℕ) (ms : List BanMatch) (m : BanMatch) (rows : List MatchRow)
    → catches rows (m ∷ []) id ≡ true
    → catches (record_matches id ms rows) (m ∷ []) id ≡ true
unfolding record_matches
matches-kept id [] m rows h = h
matches-kept id (n ∷ ms) m rows h = elim (Bool-cases (is_blank n)) [
  | inl blank ↦ rw blank (matches-kept id ms m rows h)
  | inr real ↦ rw real (matches-kept id ms m (upsert id n rows) (upsert-kept id n m rows h))
]

-- Whether an identifier is one of some.
abbrev pub Among : BanMatch → List BanMatch → Type 0
Among m [] = ⊥
Among m (n ∷ rest) = (n ≡ m) ⊎ Among m rest

matches-catch :
    (id : ℕ) (ms : List BanMatch) (m : BanMatch) (rows : List MatchRow)
    → Among m ms
    → is_blank m ≡ false
    → catches (record_matches id ms rows) (m ∷ []) id ≡ true
unfolding record_matches
matches-catch id [] m rows a b = absurd a
matches-catch id (n ∷ ms) m rows (inl here) b =
    let real : is_blank n ≡ false = ap is_blank here ∙ b in
    rw real (
      matches-kept id ms m (upsert id n rows) (
        subst (λ k. catches (upsert id n rows) (k ∷ []) id ≡ true) here (upsert-catches id n rows)))
matches-catch id (n ∷ ms) m rows (inr later) b = elim (Bool-cases (is_blank n)) [
  | inl blank ↦ rw blank (matches-catch id ms m rows later b)
  | inr real ↦ rw real (matches-catch id ms m (upsert id n rows) later b)
]

-- Every ban has an id that was given out.
unfoldable pub all_given : List Ban → ℕ → Bool
all_given [] next = true
all_given (b ∷ rest) next = let later = all_given rest next in ltb b.id next && later

newest-snoc :
    (p : Ban → Bool) (bans : List Ban) (b : Ban)
    → all_given bans b.id ≡ true
    → p b ≡ true
    → newest_ban (keep p (bans ++ b ∷ [])) ≡ some b
unfolding newest_ban newer keep all_given
newest-snoc p [] b g h = ground (arith, h)
newest-snoc p (c ∷ bans) b g h =
    let later = newest-snoc p bans b (ground (arith, g)) h in
    elim (Bool-cases (p c)) [
      | inl kept ↦ ground (arith, kept, later, g)
      | inr gone ↦ ground (arith, gone, later)
    ]

find_one :
    (at : ℕ) (m : BanMatch) (db : BanTables)
    → is_blank m ≡ false
    → find_ban at (m ∷ []) db
      ≡ found (newest_ban (keep (λ b. active at b && catches db.ban_matches (m ∷ []) b.id) db.bans))
unfolding find_ban find_in keep
find_one at m db real = ground (arith, real)

-- A ban that is in force is found from the moment it is made, under each identifier that it names and
-- that is not blank, in front of any older ban that catches the same identifier.
pub create_ban-find_ban :
    (ts at : ℕ) (b : Ban) (matches : List BanMatch) (db : BanTables) (m : BanMatch)
    → all_given db.bans db.next_ban_id ≡ true
    → Among m matches
    → is_blank m ≡ false
    → active at b ≡ true
    → find_ban at (m ∷ []) (create_ban ts b matches db).0 ≡ done (create_ban ts b matches db).1
unfolding create_ban active found
create_ban-find_ban ts at b matches db m g a real f =
    let row = (create_ban ts b matches db).1 in
    let newest =
      newest-snoc
        (λ c.
          active at c
          && catches (record_matches db.next_ban_id matches db.ban_matches) (m ∷ []) c.id)
        db.bans row g
        (ground (arith, f, matches-catch db.next_ban_id matches m db.ban_matches a real)) in
    find_one at m (create_ban ts b matches db).0 real ∙ ap found newest
