-- ===== src/Store/Tests.antt =====
-- Tests of internal/store/roles.go as it is modelled in `Store`.
use aural_server.Base.{◌≡◌, refl, some, [], ◌∷◌, contains}
use aural_server.Hub.{Role}
use aural_server.Store.{Db, reorder_roles, done, row}
use aural_server.Store.Reorder.{place, reorder_roles_placed}
use aural_server.Fixtures.{small_db, everyone_role, helper_role, moderator_role, admin_role}

abbrev swapped : Db
swapped = record small_db {
  roles =
      everyone_role
      ∷ record helper_role { position = 2 }
      ∷ record moderator_role { position = 1 }
      ∷ admin_role
      ∷ [];
}

reordered : reorder_roles small_db (2 ∷ 4 ∷ []) ≡ done swapped
unfolding reorder_roles
reordered = refl

reorder_roles_placed_example :
    (r : Role) × (row small_db.roles 4 ≡ some r) × (row swapped.roles 4 ≡ some (place 2 r))
unfolding contains
reorder_roles_placed_example =
    reorder_roles_placed small_db swapped (2 ∷ 4 ∷ []) 1 4 reordered (refl, (refl, tt)) refl
