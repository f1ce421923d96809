-- ===== src/Store/Bans.antt =====
-- internal/store/bans.go: the bans and the identifiers that they catch, in two tables.
pub mod Enforced
mod Tests
use aural_server.Base.{
  ℕ, zero, suc, Bool, true, false, not, ◌&&◌, ◌||◌, Option, none, some, List, [], ◌∷◌, ◌++◌, ltb,
  ◌==◌, if◌then◌else◌, keep, any,
}
use aural_server.Text.{Text, text_eq}
use aural_server.Store.{Outcome, done, missing}

-- `MatchUser`, `MatchIP` and `MatchDevice`.
pub data MatchKind : Type 0 where
  match_user match_ip match_device : MatchKind

pub same_kind : MatchKind → MatchKind → Bool
same_kind match_user match_user = true
same_kind match_ip match_ip = true
same_kind match_device match_device = true
same_kind _ _ = false

-- `BanMatch`.
pub record BanMatch : Type 0 where
  pub kind : MatchKind
  pub value : Text

-- `Ban`, less its matches; `expires_at` is none for a permanent one.
pub record Ban : Type 0 where
  pub id : ℕ
  pub user_id : Option ℕ
  pub user_nickname : Text
  pub user_username : Option Text
  pub actor_id : Option ℕ
  pub actor_nickname : Text
  pub reason : Text
  pub created_at : ℕ
  pub expires_at : Option ℕ

-- A row of `ban_matches`, whose key is the kind and the value.
pub record MatchRow : Type 0 where
  pub ban_id : ℕ
  pub handle : BanMatch

pub record BanTables : Type 0 where
  pub bans : List Ban
  pub ban_matches : List MatchRow
  pub next_ban_id : ℕ

-- `Ban.Active`, which is also the test of the query of `FindBan`.
unfoldable pub active : ℕ → Ban → Bool
active at b = elim b.expires_at [ none ↦ true | some end ↦ ltb at end ]

pub same_handle : BanMatch → BanMatch → Bool
unfolding same_kind
same_handle a b = same_kind a.kind b.kind && text_eq a.value b.value

pub is_blank : BanMatch → Bool
is_blank m = elim m.value [ [] ↦ true | c ∷ rest ↦ false ]

-- `ON CONFLICT(kind, value) DO UPDATE SET ban_id`.
pub upsert : ℕ → BanMatch → List MatchRow → List MatchRow
unfolding same_handle
upsert id m [] = record { ban_id = id; handle = m } ∷ []
upsert id m (r ∷ rest) =
    let later = upsert id m rest in
    if same_handle r.handle m then record r { ban_id = id } ∷ rest else r ∷ later

pub record_matches : ℕ → List BanMatch → List MatchRow → List MatchRow
unfolding is_blank upsert
record_matches id [] rows = rows
record_matches id (m ∷ rest) rows =
    let with = record_matches id rest (upsert id m rows) in
    let without = record_matches id rest rows in if is_blank m then without else with

-- `CreateBan`, at a moment.
unfoldable pub create_ban : ℕ → Ban → List BanMatch → BanTables → BanTables × Ban
unfolding record_matches
create_ban ts b matches db =
    let row = record b { id = db.next_ban_id; created_at = ts } in
    (
      record {
        bans = db.bans ++ row ∷ [];
        ban_matches = record_matches db.next_ban_id matches db.ban_matches;
        next_ban_id = suc db.next_ban_id;
      },
      row,
    )

ban_row : List Ban → ℕ → Option Ban
ban_row [] id = none
ban_row (b ∷ rest) id = if b.id == id then some b else ban_row rest id

-- `DeleteBan`, with the matches that go by cascade.
unfoldable pub delete_ban : ℕ → BanTables → Outcome BanTables
unfolding ban_row keep
delete_ban id db = elim (ban_row db.bans id) [
  | none ↦ missing
  | some b ↦ done (record db {
    bans = keep (λ c. not (c.id == id)) db.bans;
    ban_matches = keep (λ r. not (r.ban_id == id)) db.ban_matches;
  })
]

-- Whether a ban catches one of some identifiers: the join of the two tables.
pub catches : List MatchRow → List BanMatch → ℕ → Bool
unfolding any same_handle
catches rows wanted id = any (λ r. r.ban_id == id && any (same_handle r.handle) wanted) rows

newer : Ban → Option Ban → Ban
newer b none = b
newer b (some c) = if ltb c.id b.id then b else c

-- `ORDER BY b.id DESC LIMIT 1`.
pub newest_ban : List Ban → Option Ban
unfolding newer
newest_ban [] = none
newest_ban (b ∷ rest) = some (newer b (newest_ban rest))

found : Option Ban → Outcome Ban
found none = missing
found (some b) = done b

-- The query of `FindBan`.
pub find_in : ℕ → List BanMatch → BanTables → Outcome Ban
unfolding keep catches newest_ban found
find_in at [] db = missing
find_in at (m ∷ more) db =
    found (newest_ban (keep (λ b. active at b && catches db.ban_matches (m ∷ more) b.id) db.bans))

-- `FindBan`.
unfoldable pub find_ban : ℕ → List BanMatch → BanTables → Outcome Ban
unfolding keep find_in is_blank
find_ban at matches db = find_in at (keep (λ m. not (is_blank m)) matches) db
