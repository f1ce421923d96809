-- ===== src/Store/Messages/Claims.antt =====
-- internal/store/attachments.go: the files of messages, from their upload on.
use aural_server.Base.{
  ℕ, suc, ◌+◌, Bool, true, false, not, ◌&&◌, Option, none, some, List, [], ◌∷◌, ◌++◌, ltb, ◌==◌,
  if◌then◌else◌, keep, take, length, contains, any,
}
use aural_server.Text.{Text, text_eq}
use aural_server.Store.{Db, Outcome, done, missing, broken}
use aural_server.Store.MessageRows.{AttachmentRow, names_one}

unfoldable pub attachment_row : List AttachmentRow → ℕ → Option AttachmentRow
attachment_row [] id = none
attachment_row (a ∷ rest) id = if a.id == id then some a else attachment_row rest id

-- `scanAttachment` of the row that a query for one finds.
scan_attachment : Option AttachmentRow → Outcome AttachmentRow
scan_attachment none = missing
scan_attachment (some a) = done a

-- `AttachmentByID`.
unfoldable pub attachment_by_id : Db → ℕ → Outcome AttachmentRow
unfolding scan_attachment attachment_row
attachment_by_id db id = scan_attachment (attachment_row db.messages.attachments id)

keyed : List AttachmentRow → Text → Option AttachmentRow
keyed [] key = none
keyed (a ∷ rest) key = if text_eq a.storage_key key then some a else keyed rest key

-- `AttachmentByStorageKey`.
unfoldable pub attachment_by_storage_key : Db → Text → Outcome AttachmentRow
unfolding scan_attachment keyed
attachment_by_storage_key db key = scan_attachment (keyed db.messages.attachments key)

-- The constraints of a new row: its storage key is new, and its message exists.
append_attachment : AttachmentRow → Db → Outcome (Db × ℕ)
append_attachment a db =
    if any (λ (b : AttachmentRow). text_eq b.storage_key a.storage_key) db.messages.attachments
    then broken
    else done (
      record db {
        messages = record db.messages {
          attachments =
              db.messages.attachments ++ (record a { id = db.messages.next_attachment_id }) ∷ [];
          next_attachment_id = suc db.messages.next_attachment_id;
        };
      },
      db.messages.next_attachment_id,
    )

-- `CreateAttachment`, the insert.
unfoldable pub create_attachment : ℕ → AttachmentRow → Db → Outcome (Db × ℕ)
unfolding append_attachment
create_attachment now a db = append_attachment (record a { message_id = none; created_at = now }) db

-- `CreatePostedAttachment`, the insert; a file without a message is refused.
unfoldable pub create_posted_attachment : ℕ → AttachmentRow → Db → Outcome (Db × ℕ)
unfolding append_attachment
create_posted_attachment now a db = elim a.message_id [
  | none ↦ broken
  | some m ↦
      if any (λ r. r.id == m) db.messages.messages
      then append_attachment (record a { created_at = now }) db
      else broken
]

-- `ORDER BY id`.
insert_attachment : AttachmentRow → List AttachmentRow → List AttachmentRow
insert_attachment a [] = a ∷ []
insert_attachment a (b ∷ rest) =
    let later = insert_attachment a rest in if ltb b.id a.id then b ∷ later else a ∷ b ∷ rest

sort_attachments : List AttachmentRow → List AttachmentRow
unfolding insert_attachment
sort_attachments [] = []
sort_attachments (a ∷ rest) = insert_attachment a (sort_attachments rest)

-- `AttachmentsForMessages`, before they are grouped by message.
unfoldable pub attachments_for_messages : Db → List ℕ → List AttachmentRow
unfolding sort_attachments names_one keep
attachments_for_messages db message_ids =
    sort_attachments (keep (λ a. names_one message_ids a.message_id) db.messages.attachments)

-- `AttachmentsForMessage`.
unfoldable pub attachments_for_message : Db → ℕ → List AttachmentRow
attachments_for_message db message_id = attachments_for_messages db (message_id ∷ [])

owned_by : ℕ → Option ℕ → Bool
owned_by user_id none = false
owned_by user_id (some owner) = owner == user_id

is_pending : Option ℕ → Bool
is_pending none = true
is_pending (some id) = false

-- A pending file of a user in a channel.
unfoldable pub is_claimable : ℕ → ℕ → AttachmentRow → Bool
unfolding owned_by is_pending
is_claimable user_id channel_id a =
    is_pending a.message_id && owned_by user_id a.user_id && a.channel_id == channel_id

-- The rows that the `UPDATE` of `ClaimAttachments` matches.
unfoldable pub matches : ℕ → ℕ → List ℕ → AttachmentRow → Bool
unfolding is_claimable contains
matches user_id channel_id ids a = contains ids a.id && is_claimable user_id channel_id a

unfoldable pub set_message_id : ℕ → (AttachmentRow → Bool) → List AttachmentRow → List AttachmentRow
set_message_id message_id hit [] = []
set_message_id message_id hit (a ∷ rest) =
    let later = set_message_id message_id hit rest in
    if hit a then record a { message_id = some message_id } ∷ later else a ∷ later

-- The transaction of `ClaimAttachments`, which is rolled back unless it reaches as many rows as there
-- are ids; `missing` stands for `ErrAttachmentUnavailable`.
unfoldable pub claim_attachments : ℕ → ℕ → ℕ → List ℕ → Db → Outcome Db
unfolding matches set_message_id keep
claim_attachments message_id user_id channel_id ids db =
    let hit = matches user_id channel_id ids in
    if length (keep hit db.messages.attachments) == length ids
    then done (record db {
      messages = record db.messages {
        attachments = set_message_id message_id hit db.messages.attachments;
      };
    })
    else missing

-- `AttachmentsForChannels`.
unfoldable pub attachments_for_channels : Db → List ℕ → List AttachmentRow
unfolding keep contains
attachments_for_channels db channel_ids =
    keep (λ a. contains channel_ids a.channel_id) db.messages.attachments

-- `DeleteAttachment`.
unfoldable pub delete_attachment : ℕ → Db → Outcome Db
unfolding attachment_row keep
delete_attachment id db = elim (attachment_row db.messages.attachments id) [
  | none ↦ missing
  | some a ↦ done (record db {
    messages = record db.messages {
      attachments = keep (λ b. not (b.id == id)) db.messages.attachments;
    };
  })
]

sum_sizes : List AttachmentRow → ℕ
sum_sizes [] = 0
sum_sizes (a ∷ rest) = a.size + sum_sizes rest

-- `TotalAttachmentBytes`.
unfoldable pub total_attachment_bytes : Db → ℕ
unfolding sum_sizes
total_attachment_bytes db = sum_sizes db.messages.attachments

keys_of : List AttachmentRow → List Text
keys_of [] = []
keys_of (a ∷ rest) = a.storage_key ∷ keys_of rest

-- `AttachmentKeys`.
unfoldable pub attachment_keys : Db → List Text
unfolding keys_of
attachment_keys db = keys_of db.messages.attachments

-- `PendingAttachmentsBefore`.
unfoldable pub pending_attachments_before : Db → ℕ → ℕ → List AttachmentRow
unfolding is_pending sort_attachments keep
pending_attachments_before db cutoff limit = take limit (
    sort_attachments
      (keep (λ a. is_pending a.message_id && ltb a.created_at cutoff) db.messages.attachments))
