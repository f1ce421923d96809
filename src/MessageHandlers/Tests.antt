-- ===== src/MessageHandlers/Tests.antt =====
-- Tests of internal/gateway/handlers_message.go, on a server with one moderator in one text channel.
use aural_server.Base.{ℕ, ◌+◌, ◌≡◌, refl, Option, none, some, [], ◌∷◌, arith, true, false}
use aural_server.Base.Int.{pos}
use aural_server.Fixtures.{small_db, small_hub, moderator}
use aural_server.Permissions.{attach_files, has, resolve_in_channel}
use aural_server.Hub.{channel_permissions, channel}
use aural_server.Protocol.{Failure, err, not_found, forbidden}
use aural_server.Store.MessageRows.{MessageRow, AttachmentRow}
use aural_server.Store.Messages.{message_row}
use aural_server.Store.Messages.Undone.{SameRows}
use aural_server.AutoMod.Screen.{AutoModRule, AutoModConfig}
use aural_server.Store.Messages.{insert_message, move_read_marker, message_by_id, delete_message}
use aural_server.Store.Messages.Claims.{claim_attachments}
use aural_server.AutoMod.Screen.{screen}
use aural_server.RateLimit.{allow, new_message_limiter}
use aural_server.Validate.{validate_message_content, clean_message}
use aural_server.Server.{Server, Session, query, write}
use aural_server.Server.Exec.{◌>>=◌}
use aural_server.MessageHandlers.{validate_attachment_ids, require_text_channel, positive}
use aural_server.MessageHandlers.Steps.{take_message_token, screened, insist}
use aural_server.MessageHandlers.Send.{create_message, attach_files_to, destination}
use aural_server.Channels.{require_channel_permission}
use aural_server.MessageHandlers.{Setting, MessageSendRequest, MessageEditRequest, written_by}
use aural_server.MessageHandlers.Send.{handle_message_send}
use aural_server.MessageHandlers.Send.Refused.{handle_message_send_refused}
use aural_server.MessageHandlers.Edit.{handle_message_edit, handle_message_delete}
use aural_server.MessageHandlers.Edit.Authors.{handle_message_edit-others}
use aural_server.MessageHandlers.Edit.Deleted.{handle_message_delete-others}

abbrev idle : AutoModRule ℕ
idle = record { enabled = false; action = "block"; exempt_roles = [] }

abbrev no_rules : AutoModConfig ℕ
no_rules = record {
  enabled = false;
  exempt_roles = [];
  exempt_channels = [];
  words_rule = idle;
  words = [];
  whole_word = false;
  links_rule = idle;
  allowed_domains = [];
  mentions_rule = idle;
  mentions_limit = pos 0;
  caps_rule = idle;
  caps_percent = pos 0;
  caps_min_length = pos 0;
  flood_rule = idle;
  flood = record { messages = pos 0; seconds = pos 0 };
  repetition_rule = idle;
  repetition_times = pos 0;
}

abbrev plain : Setting
plain = record {
  tables = record {
    lower = λ c. c;
    is_letter = λ _. true;
    is_digit = λ _. false;
    is_upper = λ _. false;
    is_lower = λ _. true;
    urls = λ _. [];
    mentions = λ _. 0;
  };
  auto_mod = no_rules;
  max_per_message = some 4;
  now = 0;
}

-- Somebody else's line, and an upload of the moderator's that another message carries.
abbrev their_line : MessageRow
their_line = record {
  id = 1;
  channel_id = 11;
  post_id = none;
  user_id = some 6;
  author = b'o' ∷ [];
  content = b'x' ∷ [];
  created_at = 0;
  edited_at = none;
  reply_to_id = none;
  webhook_id = none;
  webhook_avatar = none;
  webhook_source = none;
  embeds = none;
}

abbrev taken_file : AttachmentRow
taken_file = record {
  id = 1;
  message_id = some 1;
  user_id = some 5;
  channel_id = 11;
  storage_key = b'k' ∷ [];
  filename = [];
  content_type = [];
  size = 1;
  width = none;
  height = none;
  created_at = 0;
}

abbrev busy_server : Server
busy_server = record {
  db = record small_db {
    messages = record small_db.messages {
      messages = their_line ∷ [];
      attachments = taken_file ∷ [];
      next_message_id = 2;
      next_attachment_id = 2;
    };
  };
  hub = small_hub;
  sessions = moderator ∷ [];
  outbox = [];
  left_voice = [];
  closed_voice = [];
  relayed = [];
  removed_files = [];
  faults = [];
}

abbrev edit_theirs : Option MessageEditRequest
edit_theirs = some (record { message_id = 1; content = b'y' ∷ [] })

handle_message_edit-others_example :
    message_row
      (handle_message_edit plain moderator edit_theirs busy_server).1.db.messages.messages
      1
    ≡ some their_line
unfolding message_row written_by
handle_message_edit-others_example =
    handle_message_edit-others plain moderator edit_theirs busy_server 1 their_line refl refl

abbrev barred : Failure
barred = record { code = forbidden; message = "you are not allowed to do that here" }

handle_message_delete-others_example :
    message_row (handle_message_delete moderator (some 1) busy_server).1.db.messages.messages 1
    ≡ some their_line
unfolding message_row written_by require_channel_permission has channel_permissions
    resolve_in_channel
handle_message_delete-others_example =
    handle_message_delete-others moderator (some 1) busy_server 1 their_line barred refl refl refl

-- The moderator with the right to attach files.
abbrev uploader : Session
uploader = record moderator { base = 66063 + attach_files }

-- A message with a file that is posted already.
abbrev with_taken_file : Option MessageSendRequest
with_taken_file = some (record {
  channel_id = 11;
  content = b'h' ∷ b'i' ∷ [];
  post_id = 0;
  reply_to_id = none;
  attachments = 1 ∷ [];
})

abbrev unavailable : Failure
unavailable = record {
  code = not_found;
  message = "one of those uploads is gone, already posted, or not yours";
}

refusal_here : (handle_message_send plain uploader with_taken_file busy_server).0 ≡ err unavailable
unfolding handle_message_send ◌>>=◌ validate_attachment_ids validate_message_content clean_message
    destination require_text_channel require_channel_permission has channel_permissions
    resolve_in_channel channel take_message_token allow screened screen create_message insist query
    write insert_message move_read_marker message_by_id attach_files_to claim_attachments
    delete_message new_message_limiter positive
refusal_here = refl

handle_message_send_refused_example :
    SameRows busy_server.db.messages
      (handle_message_send plain uploader with_taken_file busy_server).1.db.messages
handle_message_send_refused_example =
    handle_message_send_refused plain uploader with_taken_file busy_server unavailable refl
      (record { started = omega arith; rising = omega arith; below = omega arith })
      (record { files = omega arith; bodies = tt }) refusal_here
