-- ===== src/Store/Bans/Tests.antt =====
-- Tests of internal/store/bans.go as it is modelled in `Store.Bans`.
use aural_server.Base.{◌≡◌, refl, inl, inr, none, List, [], ◌∷◌}
use aural_server.Store.{done}
use aural_server.Store.Bans.{
  BanMatch, match_ip, match_device, Ban, BanTables, active, is_blank, create_ban, find_ban,
}
use aural_server.Store.Bans.Enforced.{all_given, create_ban-find_ban}

abbrev old_ban : Ban
old_ban = record {
  id = 1;
  user_id = none;
  user_nickname = [];
  user_username = none;
  actor_id = none;
  actor_nickname = [];
  reason = [];
  created_at = 5;
  expires_at = none;
}

abbrev handles : List BanMatch
handles =
    record { kind = match_device; value = [] } ∷ record { kind = match_ip; value = b'7' ∷ [] } ∷ []

abbrev tables : BanTables
tables = record {
  bans = old_ban ∷ [];
  ban_matches = record { ban_id = 1; handle = record { kind = match_ip; value = b'7' ∷ [] } } ∷ [];
  next_ban_id = 2;
}

create_ban-find_ban_example :
    find_ban 10
      (record { kind = match_ip; value = b'7' ∷ [] } ∷ [])
      (create_ban 9 old_ban handles tables).0
    ≡ done (create_ban 9 old_ban handles tables).1
unfolding all_given active is_blank
create_ban-find_ban_example =
    create_ban-find_ban 9 10 old_ban handles tables (record { kind = match_ip; value = b'7' ∷ [] })
      refl (inr (inl refl)) refl refl
