-- ===== src/Fixtures.antt =====
-- A small server that the tests of several modules share: an everyone role, a moderator role that
-- may manage roles and kick, an admin role above both, and two channels, one under the other.
use aural_server.Base.{false, none, some, List, [], ◌∷◌}
use aural_server.Permissions.{Overwrite, view_channel, administrator}
use aural_server.Base.Int.{pos}
use aural_server.Hub.{
  Hub, category_channel, text_channel, Role, Channel, unmanaged, everyone, admin,
}
use aural_server.RateLimit.{new_message_limiter}
use aural_server.Server.{Session}
use aural_server.Store.{Db, ChannelRow, OverwriteRow}
use aural_server.Store.MessageRows.{MessageTables}

abbrev pub everyone_role : Role
everyone_role = record {
  id = 1;
  name = b'e' ∷ [];
  color = [];
  permissions = 15;
  position = 0;
  hoist = false;
  managed = everyone;
  created_at = 0;
}

abbrev pub helper_role : Role
helper_role = record everyone_role {
  id = 4;
  name = b'h' ∷ [];
  permissions = 0;
  position = 1;
  managed = unmanaged;
}

-- manage_roles and kick_users
abbrev pub moderator_role : Role
moderator_role = record everyone_role {
  id = 2;
  name = b'm' ∷ [];
  permissions = 66048;
  position = 2;
  managed = unmanaged;
}

abbrev pub admin_role : Role
admin_role = record everyone_role {
  id = 3;
  name = b'a' ∷ [];
  permissions = administrator;
  position = 3;
  managed = admin;
}

-- Denies the everyone role the sight of a channel, and allows the moderators.
abbrev pub staff_only : List Overwrite
staff_only =
    record { role_id = 1; allow = 0; deny = view_channel }
    ∷ record { role_id = 2; allow = view_channel; deny = 0 }
    ∷ []

abbrev pub staff_category : Channel
staff_category = record {
  id = 10;
  parent_id = none;
  name = b's' ∷ [];
  type = category_channel;
  topic = [];
  position = pos 0;
  user_limit = 0;
  overwrites = staff_only;
}

abbrev pub staff_text : Channel
staff_text = record staff_category {
  id = 11;
  parent_id = some 10;
  type = text_channel;
  position = pos 1;
  overwrites = [];
}

abbrev pub small_hub : Hub
small_hub = record {
  roles = everyone_role ∷ helper_role ∷ moderator_role ∷ admin_role ∷ [];
  everyone_id = 1;
  registered_id = 0;
  admin_id = 3;
  owner_id = 100;
  channels = staff_category ∷ staff_text ∷ [];
}

abbrev pub staff_category_row : ChannelRow
staff_category_row = record {
  id = 10;
  parent_id = none;
  name = b's' ∷ [];
  type = category_channel;
  topic = [];
  position = pos 0;
  user_limit = 0;
}

abbrev pub staff_text_row : ChannelRow
staff_text_row = record staff_category_row {
  id = 11;
  parent_id = some 10;
  type = text_channel;
  position = pos 1;
}

abbrev pub staff_overwrites : List OverwriteRow
staff_overwrites =
    record { channel_id = 10; role_id = 1; allow = 0; deny = view_channel }
    ∷ record { channel_id = 10; role_id = 2; allow = view_channel; deny = 0 }
    ∷ []

abbrev pub moderator : Session
moderator = record {
  id = 7;
  user = record { id = 5; nickname = b'm' ∷ []; username = none; status = "online" };
  role_ids = 1 ∷ 2 ∷ [];
  base = 66063;
  channel_id = none;
  messages = new_message_limiter 0;
  recent = [];
}

abbrev pub no_messages : MessageTables
no_messages = record {
  messages = [];
  attachments = [];
  posts = [];
  channel_reads = [];
  unread_epoch = λ _. 0;
  next_message_id = 1;
  next_attachment_id = 1;
}

abbrev pub small_db : Db
small_db = record {
  roles = everyone_role ∷ helper_role ∷ moderator_role ∷ admin_role ∷ [];
  user_roles = record { user_id = 5; role_id = 2 } ∷ [];
  users = moderator.user ∷ [];
  audit_entries = [];
  next_role_id = 5;
  channels = staff_category_row ∷ staff_text_row ∷ [];
  channel_overwrites = staff_overwrites;
  next_channel_id = 12;
  messages = no_messages;
}
