-- ===== src/Store/MessageRows.antt =====
-- internal/store: the rows behind messages (internal/store/messages.go), their files
-- (internal/store/attachments.go), posts (internal/store/posts.go) and read markers
-- (internal/store/channelreads.go). The column that a search reads is not modelled.
use aural_server.Base.{
  ℕ, Bool, false, not, Option, none, some, List, [], ◌∷◌, if◌then◌else◌, contains, keep,
}
use aural_server.Text.{Text}

-- `Message`: a row of `messages`.
pub record MessageRow : Type 0 where
  pub id : ℕ
  pub channel_id : ℕ
  pub post_id : Option ℕ
  pub user_id : Option ℕ
  pub author : Text
  pub content : Text
  pub created_at : ℕ
  pub edited_at : Option ℕ
  pub reply_to_id : Option ℕ
  pub webhook_id : Option ℕ
  pub webhook_avatar : Option Text
  pub webhook_source : Option Text
  pub embeds : Option Text

-- `Attachment`; one that no message carries yet has no message.
pub record AttachmentRow : Type 0 where
  pub id : ℕ
  pub message_id : Option ℕ
  pub user_id : Option ℕ
  pub channel_id : ℕ
  pub storage_key : Text
  pub filename : Text
  pub content_type : Text
  pub size : ℕ
  pub width : Option ℕ
  pub height : Option ℕ
  pub created_at : ℕ

-- `Post`.
pub record PostRow : Type 0 where
  pub id : ℕ
  pub channel_id : ℕ
  pub user_id : Option ℕ
  pub author : Text
  pub title : Text
  pub root_message_id : Option ℕ
  pub locked : Bool
  pub pinned : Bool
  pub created_at : ℕ
  pub edited_at : Option ℕ
  pub starts_at : Option ℕ
  pub ends_at : Option ℕ
  pub all_day : Bool
  pub location : Text

-- A row of `channel_reads`.
pub record ReadRow : Type 0 where
  pub user_id : ℕ
  pub channel_id : ℕ
  pub last_read_id : ℕ

-- `unread_epoch` is the column of `users`, by the user's id; `next_message_id` and
-- `next_attachment_id` are the sequences of AUTOINCREMENT columns.
pub record MessageTables : Type 0 where
  pub messages : List MessageRow
  pub attachments : List AttachmentRow
  pub posts : List PostRow
  pub channel_reads : List ReadRow
  pub unread_epoch : ℕ → ℕ
  pub next_message_id : ℕ
  pub next_attachment_id : ℕ

-- Whether a column names one of some ids.
unfoldable pub names_one : List ℕ → Option ℕ → Bool
names_one ids none = false
names_one ids (some id) = contains ids id

unfoldable pub message_ids : List MessageRow → List ℕ
message_ids [] = []
message_ids (m ∷ rest) = m.id ∷ message_ids rest

-- `ON DELETE SET NULL` of a post whose body is gone.
unfoldable pub forget_body : List ℕ → List PostRow → List PostRow
unfolding names_one
forget_body gone [] = []
forget_body gone (p ∷ rest) =
    let later = forget_body gone rest in
    if names_one gone p.root_message_id
    then record p { root_message_id = none } ∷ later
    else p ∷ later

-- The messages that pass a test are deleted, with their files; a post may lose its body.
unfoldable pub delete_where : (MessageRow → Bool) → MessageTables → MessageTables
unfolding keep message_ids forget_body names_one
delete_where gone t =
    let ids = message_ids (keep gone t.messages) in
    record t {
      messages = keep (λ m. not (gone m)) t.messages;
      attachments = keep (λ a. not (names_one ids a.message_id)) t.attachments;
      posts = forget_body ids t.posts;
    }

-- What goes by cascade with some channels.
unfoldable pub cascade_channels : List ℕ → MessageTables → MessageTables
unfolding delete_where keep contains
cascade_channels gone t =
    let left = delete_where (λ m. contains gone m.channel_id) t in
    record left {
      attachments = keep (λ a. not (contains gone a.channel_id)) left.attachments;
      posts = keep (λ p. not (contains gone p.channel_id)) left.posts;
      channel_reads = keep (λ r. not (contains gone r.channel_id)) left.channel_reads;
    }
