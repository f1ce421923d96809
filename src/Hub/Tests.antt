-- ===== src/Hub/Tests.antt =====
-- Tests of internal/gateway/hub.go as it is modelled in `Hub`.
use aural_server.Base.{◌≡◌, refl, ◌||◌, [], ◌∷◌, any, if◌then◌else◌, contains}
use aural_server.Base.Bits.{test_bit}
use aural_server.Permissions.{all, resolve, resolve_in_channel}
use aural_server.Hub.{
  role, rank_of, owner_rank, effective_role_ids, permissions_for, is_owner, channel_permissions,
}
use aural_server.Hub.Effective.{permissions_for-bits, role_bit}
use aural_server.Fixtures.{small_hub, moderator}

effective_of_guest : effective_role_ids small_hub moderator.user (2 ∷ 2 ∷ []) ≡ 1 ∷ 2 ∷ []
unfolding effective_role_ids contains
effective_of_guest = refl

base_of_moderator : permissions_for small_hub 5 (1 ∷ 2 ∷ []) ≡ 66063
unfolding permissions_for resolve
base_of_moderator = refl

rank_of_moderator : rank_of small_hub 5 (1 ∷ 2 ∷ []) ≡ 2
unfolding rank_of
rank_of_moderator = refl

rank_of_owner : rank_of small_hub 100 [] ≡ owner_rank
unfolding rank_of
rank_of_owner = refl

hidden_below : channel_permissions small_hub 15 (1 ∷ []) 11 ≡ 0
unfolding channel_permissions resolve_in_channel
hidden_below = refl

permissions_for-bits_example : test_bit (permissions_for small_hub 5 (1 ∷ 2 ∷ [])) 9 ≡ (
    if is_owner small_hub 5 || any (λ id. role_bit (role small_hub id) 31) (1 ∷ 2 ∷ [])
    then test_bit all 9
    else any (λ id. role_bit (role small_hub id) 9) (1 ∷ 2 ∷ []))
permissions_for-bits_example = permissions_for-bits small_hub 5 (1 ∷ 2 ∷ []) 9
