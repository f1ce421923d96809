-- ===== src/Store/Messages/Reads.antt =====
-- internal/store/channelreads.go: how much of a channel somebody has read.
use mathlib.Core.List.{reverse}
use aural_server.Base.{
  ℕ, Bool, false, ◌&&◌, Option, none, some, List, [], ◌∷◌, ◌++◌, max, ltb, ◌==◌, if◌then◌else◌,
  keep, take, length, contains,
}
use aural_server.Text.{Text}
use aural_server.Hub.{User}
use aural_server.Store.{Db, user_row}
use aural_server.Store.MessageRows.{MessageRow, PostRow, ReadRow, MessageTables}
use aural_server.Store.Messages.{is_marker, raise_marker, message_row}
use aural_server.Store.Messages.Timeline.{by_id}

-- `ChannelUnread`.
pub record ChannelUnread : Type 0 where
  pub channel_id : ℕ
  pub count : ℕ
  pub last_read_id : ℕ

-- `COALESCE(cr.last_read_id, 0)`.
unfoldable pub marker : List ReadRow → ℕ → ℕ → ℕ
unfolding is_marker
marker [] user_id channel_id = 0
marker (r ∷ rest) user_id channel_id =
    if is_marker user_id channel_id r then r.last_read_id else marker rest user_id channel_id

-- `effectiveMarker`.
unfoldable pub effective_marker : MessageTables → ℕ → ℕ → ℕ
unfolding marker
effective_marker t user_id channel_id =
    max (marker t.channel_reads user_id channel_id) (t.unread_epoch user_id)

-- The messages of a channel past somebody's marker.
unfoldable pub unread_in : MessageTables → ℕ → ℕ → List MessageRow
unfolding effective_marker keep
unread_in t user_id channel_id =
    keep (λ m. m.channel_id == channel_id && ltb (effective_marker t user_id channel_id) m.id)
      t.messages

-- The group of a channel in front of others; one with nothing unread has none.
unfoldable pub with_entry :
    MessageTables → ℕ → ℕ → List MessageRow → List ChannelUnread → List ChannelUnread
unfolding effective_marker
with_entry t user_id c [] others = others
with_entry t user_id c (m ∷ more) others =
    record {
      channel_id = c;
      count = length (m ∷ more);
      last_read_id = effective_marker t user_id c;
    }
    ∷ others

unfoldable pub unread_entries : MessageTables → ℕ → List ℕ → List ChannelUnread
unfolding unread_in with_entry
unread_entries t user_id [] = []
unread_entries t user_id (c ∷ rest) =
    with_entry t user_id c (unread_in t user_id c) (unread_entries t user_id rest)

-- `UnreadChannelCounts`, of channels that are listed once each.
unfoldable pub unread_channel_counts : Db → ℕ → List ℕ → List ChannelUnread
unfolding unread_entries
unread_channel_counts db user_id channel_ids = elim (user_row db.users user_id) [
  | none ↦ []
  | some u ↦ unread_entries db.messages user_id channel_ids
]

-- `UnreadMention`.
pub record UnreadMention : Type 0 where
  pub channel_id : ℕ
  pub content : Text
  pub user_id : ℕ
  pub reply_to_user_id : ℕ

or_zero : Option ℕ → ℕ
or_zero none = 0
or_zero (some n) = n

is_root : ℕ → Option ℕ → Bool
is_root id none = false
is_root id (some root) = root == id

post_of : List PostRow → ℕ → Option PostRow
unfolding is_root
post_of [] id = none
post_of (p ∷ rest) id = if is_root id p.root_message_id then some p else post_of rest id

-- What is scanned for names: the title too, for the body of a post.
said : Option PostRow → Text → Text
said none content = content
said (some p) [] = p.title
said (some p) (c ∷ rest) = p.title ++ b':' ∷ 32 ∷ c ∷ rest

writer_of : Option MessageRow → ℕ
unfolding or_zero
writer_of none = 0
writer_of (some m) = or_zero m.user_id

answered : List MessageRow → Option ℕ → ℕ
unfolding writer_of message_row
answered rows none = 0
answered rows (some id) = writer_of (message_row rows id)

mentions_of : MessageTables → List MessageRow → List UnreadMention
unfolding post_of said or_zero answered
mentions_of t [] = []
mentions_of t (m ∷ rest) =
    record {
      channel_id = m.channel_id;
      content = said (post_of t.posts m.id) m.content;
      user_id = or_zero m.user_id;
      reply_to_user_id = answered t.messages m.reply_to_id;
    }
    ∷ mentions_of t rest

-- `UnreadChannelMentions`: newest first.
unfoldable pub unread_channel_mentions : Db → ℕ → List ℕ → ℕ → List UnreadMention
unfolding mentions_of effective_marker by_id keep contains
unread_channel_mentions db user_id channel_ids limit =
    let t = db.messages in
    let waiting =
      keep
        (λ m.
          contains channel_ids m.channel_id && ltb (effective_marker t user_id m.channel_id) m.id)
        t.messages in
    elim (user_row db.users user_id) [
      | none ↦ []
      | some u ↦ mentions_of t (take limit (reverse (by_id waiting)))
    ]

-- `COALESCE(MAX(id), 0)` over the messages of a channel.
unfoldable pub newest_in : List MessageRow → ℕ → ℕ
newest_in [] channel_id = 0
newest_in (m ∷ rest) channel_id =
    let later = newest_in rest channel_id in
    if m.channel_id == channel_id then max m.id later else later

-- The upsert of `MarkChannelRead`, whose floor is the member's epoch; nobody has no row.
unfoldable pub mark_row : Option User → ℕ → ℕ → ℕ → MessageTables → MessageTables
mark_row none user_id channel_id id t = t
mark_row (some u) user_id channel_id id t = record t {
  channel_reads = raise_marker user_id channel_id (max id (t.unread_epoch user_id)) t.channel_reads;
}

unfoldable pub mark_read : ℕ → ℕ → ℕ → Db → Db
unfolding mark_row
mark_read user_id channel_id id db = record db {
  messages = mark_row (user_row db.users user_id) user_id channel_id id db.messages;
}

-- What `MarkChannelRead` answers: the entry of the channel, or one without anything unread.
unfoldable pub unread_after : ℕ → ℕ → ℕ → Db → ChannelUnread
unread_after user_id channel_id id db = elim (unread_channel_counts db user_id (channel_id ∷ [])) [
  | [] ↦ record { channel_id = channel_id; count = 0; last_read_id = id }
  | entry ∷ rest ↦ entry
]
