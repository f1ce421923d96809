-- ===== src/Store/Messages/Tests.antt =====
-- Tests of internal/store/messages.go, attachments.go and channelreads.go as they are modelled: four
-- lines of one channel and a comment, two files, and one reader.
use aural_server.Base.{ℕ, ◌≤◌, ◌≡◌, refl, none, some, [], ◌∷◌, arith, keep, length, true, contains}
use aural_server.Fixtures.{small_db, moderator}
use aural_server.Store.{Db, done, missing, user_row}
use aural_server.Store.MessageRows.{MessageRow, AttachmentRow}
use aural_server.Store.Messages.{
  scan_messages, delete_message, raise_marker, message_row, update_message_content,
}
use aural_server.Store.Messages.Timeline.{
  is_line, messages_around, messages_before, messages_after, has_messages_before,
}
use aural_server.Store.Messages.Ordered.{IsOrdered}
use aural_server.Store.Messages.Paged.{walk_back, walk_back_whole}
use aural_server.Store.Messages.Steps.{MessageSteps, here, next, deleted, edited}
use aural_server.Store.Messages.Replay.{rows_after, MessageSteps-rows_after}
use aural_server.Store.Messages.Reads.{
  unread_in, mark_read, newest_in, unread_channel_counts, unread_after, effective_marker,
}
use aural_server.Store.Messages.Marked.{mark_read-unread_in, mark_read-newest}
use aural_server.Store.Messages.Claims.{attachment_row, claim_attachments, is_claimable}
use aural_server.Store.Messages.Claimed.{attachment_ids, claim_attachments-all}

abbrev line_at : ℕ → MessageRow
line_at id = record {
  id = id;
  channel_id = 11;
  post_id = none;
  user_id = some 5;
  author = b'o' ∷ [];
  content = b'x' ∷ [];
  created_at = 0;
  edited_at = none;
  reply_to_id = none;
  webhook_id = none;
  webhook_avatar = none;
  webhook_source = none;
  embeds = none;
}

abbrev upload : ℕ → AttachmentRow
upload id = record {
  id = id;
  message_id = none;
  user_id = some 5;
  channel_id = 11;
  storage_key = id ∷ [];
  filename = [];
  content_type = [];
  size = 1;
  width = none;
  height = none;
  created_at = 0;
}

abbrev busy_db : Db
busy_db = record small_db {
  messages = record small_db.messages {
    messages =
        line_at 1
        ∷ line_at 2
        ∷ record (line_at 3) { post_id = some 1 }
        ∷ line_at 4
        ∷ line_at 6
        ∷ [];
    attachments = upload 1 ∷ upload 2 ∷ [];
    channel_reads = record { user_id = 5; channel_id = 11; last_read_id = 2 } ∷ [];
    next_message_id = 7;
    next_attachment_id = 3;
  };
}

busy_db-IsOrdered : IsOrdered busy_db.messages
busy_db-IsOrdered = record { started = omega arith; rising = omega arith; below = omega arith }

-- Two lines at a time, from the newest on.
walk_back_whole_example :
    walk_back 6 busy_db 11 2 0
    ≡ scan_messages busy_db.users (keep (is_line 11) busy_db.messages.messages)
walk_back_whole_example =
    walk_back_whole busy_db 11 2 6 busy_db-IsOrdered (omega arith) (omega arith)

walked : length (walk_back 6 busy_db 11 2 0) ≡ 4
unfolding walk_back messages_before has_messages_before scan_messages is_line
walked = refl

-- The message that was looked for is gone; its neighbours are there.
around_gone : length (messages_around busy_db 11 5 3) ≡ 3
unfolding messages_around messages_before messages_after scan_messages is_line
around_gone = refl

abbrev thinner_db : Db
thinner_db = record busy_db {
  messages = record busy_db.messages {
    messages = line_at 1 ∷ record (line_at 3) { post_id = some 1 } ∷ line_at 4 ∷ line_at 6 ∷ [];
  };
}

-- Then another is edited.
abbrev edited_db : Db
edited_db = record thinner_db {
  messages = record thinner_db.messages {
    messages =
        line_at 1
        ∷ record (line_at 3) { post_id = some 1 }
        ∷ record (line_at 4) { content = b'y' ∷ []; edited_at = some 9 }
        ∷ line_at 6
        ∷ [];
  };
}

two_steps : MessageSteps busy_db edited_db
unfolding delete_message update_message_content
two_steps = next (next here (deleted 2 refl)) (edited 4 (b'y' ∷ []) 9 refl)

MessageSteps-rows_after_example :
    message_row edited_db.messages.messages 4
    ≡ rows_after two_steps 4 (message_row busy_db.messages.messages 4)
MessageSteps-rows_after_example = MessageSteps-rows_after two_steps 4 busy_db-IsOrdered

mark_read-unread_in_example :
    length (unread_in (mark_read 5 11 1 busy_db).messages 5 11)
    ≤ length (unread_in busy_db.messages 5 11)
mark_read-unread_in_example = mark_read-unread_in 5 11 1 busy_db 5 11

mark_read-newest_example :
    unread_channel_counts
      (mark_read 5 11 (newest_in busy_db.messages.messages 11) busy_db)
      5
      (11 ∷ [])
    ≡ []
unfolding user_row
mark_read-newest_example = mark_read-newest busy_db 5 11 moderator.user refl

-- A client that has read message 6 marks message 2: nothing is unread, its marker stays at 6, and the
-- answer says 2.
stale_answer :
    ((unread_after 5 11 2 (mark_read 5 11 2 (mark_read 5 11 6 busy_db))).last_read_id ≡ 2)
    × (effective_marker (mark_read 5 11 2 (mark_read 5 11 6 busy_db)).messages 5 11 ≡ 6)
unfolding unread_after mark_read effective_marker unread_channel_counts user_row raise_marker
stale_answer = (refl, refl)

abbrev claimed_db : Db
claimed_db = record busy_db {
  messages = record busy_db.messages {
    attachments =
        record (upload 1) { message_id = some 6 } ∷ record (upload 2) { message_id = some 6 } ∷ [];
  };
}

both_claimed : claim_attachments 6 5 11 (2 ∷ 1 ∷ []) busy_db ≡ done claimed_db
unfolding claim_attachments
both_claimed = refl

claim_attachments-all_example :
    (a : AttachmentRow) × (attachment_row busy_db.messages.attachments 1 ≡ some a)
    × (is_claimable 5 11 a ≡ true)
    × (attachment_row claimed_db.messages.attachments 1 ≡ some (record a { message_id = some 6 }))
unfolding attachment_ids contains
claim_attachments-all_example =
    claim_attachments-all 6 5 11 (2 ∷ 1 ∷ []) busy_db claimed_db 1 (refl, (refl, tt))
      (refl, (refl, tt)) both_claimed refl

-- One of the files is somebody else's, so none is taken.
not_mine : claim_attachments 6 8 11 (1 ∷ []) busy_db ≡ missing
unfolding claim_attachments
not_mine = refl
