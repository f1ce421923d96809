-- ===== src/Roles/Tests.antt =====
-- Tests of internal/gateway/handlers_role.go as it is modelled in `Roles`.
use aural_server.Base.{◌≡◌, refl, true, false, none, some, List, [], ◌∷◌, contains}
use aural_server.Base.Int.{pos}
use aural_server.Text.{trim_space, parse_uint}
use aural_server.Permissions.{has, parse, all}
use aural_server.Hub.{
  Role, role, rank_of, sorted_roles, unmanaged, is_owner, is_unmanaged, auto_assigned,
}
use aural_server.Protocol.{ok, forbidden, Failure}
use aural_server.Validate.{validate_role_name, validate_color, clean_text}
use aural_server.Server.{Server}
use aural_server.Server.Exec.{◌>>=◌}
use aural_server.Roles.{
  RoleCreateRequest, RoleUpdateRequest, Patch, was_at, next_role_position, top_role_position,
  current_stack, reorder_ceiling, check_create, check_update, check_delete, check_reorder,
  check_membership,
}
use aural_server.Roles.Guards.{IsWithin, IsEdit, check_create-IsWithin, check_update-IsEdit}
use aural_server.Roles.Order.{IsRestack, check_reorder-IsRestack}
use aural_server.Roles.Handlers.{handle_role_delete, role_delete, handle_role_request}
use aural_server.Roles.Atomic.{handle_role_request_refused}
use aural_server.Fixtures.{small_hub, small_db, moderator, moderator_role, helper_role, admin_role}

-- A role named "x" with the permission to speak.
abbrev speakers : RoleCreateRequest
speakers = record { name = b'x' ∷ []; color = []; permissions = b'4' ∷ []; hoist = false }

abbrev speakers_role : Role
speakers_role = record {
  id = 0;
  name = b'x' ∷ [];
  color = [];
  permissions = 4;
  position = 1;
  hoist = false;
  managed = unmanaged;
  created_at = 0;
}

create_speakers : check_create small_hub moderator (some speakers) ≡ ok speakers_role
unfolding check_create has parse validate_role_name validate_color clean_text rank_of sorted_roles
    trim_space parse_uint all next_role_position
create_speakers = refl

check_create-IsWithin_example : IsWithin small_hub moderator speakers_role
check_create-IsWithin_example =
    check_create-IsWithin small_hub moderator (some speakers) speakers_role create_speakers

-- Lets the helpers kick users, and leaves the rest.
abbrev kicking : RoleUpdateRequest
kicking = record {
  role_id = 4;
  name = none;
  color = none;
  permissions = some (b'5' ∷ b'1' ∷ b'2' ∷ []);
  position = some (pos 1);
  hoist = none;
}

abbrev kicking_patch : Patch
kicking_patch = record {
  after = record helper_role { permissions = 512 };
  permissions_changed = true;
}

update_helpers : check_update small_hub moderator (some kicking) ≡ ok (helper_role, kicking_patch)
unfolding check_update has parse role rank_of sorted_roles trim_space parse_uint all
    top_role_position
update_helpers = refl

check_update-IsEdit_example : IsEdit small_hub moderator helper_role kicking_patch
check_update-IsEdit_example =
    check_update-IsEdit small_hub moderator (some kicking) helper_role kicking_patch update_helpers

delete_helpers : check_delete small_hub moderator (some 4) ≡ ok helper_role
unfolding check_delete has role is_unmanaged rank_of
delete_helpers = refl

hand_out_helper : check_membership small_hub moderator 4 ≡ ok helper_role
unfolding check_membership has role auto_assigned rank_of
hand_out_helper = refl

-- The helpers stay below the moderator, who may move nothing else.
abbrev small_stack : List Role
small_stack = helper_role ∷ moderator_role ∷ admin_role ∷ []

restack :
    check_reorder small_hub moderator (some (4 ∷ 2 ∷ 3 ∷ [])) ≡ ok (small_stack, 4 ∷ 2 ∷ 3 ∷ [])
unfolding check_reorder has sorted_roles rank_of is_owner current_stack reorder_ceiling was_at
    contains
restack = refl

check_reorder-IsRestack_example : IsRestack small_hub moderator small_stack (4 ∷ 2 ∷ 3 ∷ [])
check_reorder-IsRestack_example =
    check_reorder-IsRestack small_hub moderator (some (4 ∷ 2 ∷ 3 ∷ [])) small_stack (4 ∷ 2 ∷ 3 ∷ [])
      restack

-- The everyone role cannot be deleted.
abbrev small_server : Server
small_server = record {
  db = small_db;
  hub = small_hub;
  sessions = moderator ∷ [];
  outbox = [];
  left_voice = [];
  closed_voice = [];
  relayed = [];
  removed_files = [];
  faults = [];
}

built_in : Failure
built_in = record { code = forbidden; message = "built-in roles cannot be deleted" }

handle_role_request_refused_example :
    (handle_role_request moderator (role_delete (some 1)) small_server).1.db ≡ small_db
unfolding handle_role_request handle_role_delete ◌>>=◌ check_delete has role is_unmanaged built_in
handle_role_request_refused_example =
    handle_role_request_refused moderator (role_delete (some 1)) small_server built_in refl λ e. cc
