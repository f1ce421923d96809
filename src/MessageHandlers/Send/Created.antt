-- ===== src/MessageHandlers/Send/Created.antt =====
-- internal/gateway/handlers_message.go: a message of `handleMessageSend`, once it is written.
use aural_server.Base.{ℕ, String, ◌≡◌, refl, ap, subst, sym, ◌∙◌, some, List, [], ◌∷◌, ◌++◌, arith}
use aural_server.Protocol.{ok}
use aural_server.Store.{Db, Outcome, done}
use aural_server.Store.MessageRows.{MessageRow}
use aural_server.Store.Messages.{
  NewMessage, new_row, append_row, insert_message, message_row, message_by_id, scan_message,
  move_read_marker, raise_marker,
}
use aural_server.Store.Messages.Ordered.{IsOrdered, IsBelow}
use aural_server.Store.Messages.Rows.{insert-done}
use aural_server.Store.Messages.Undone.{found_last}
use aural_server.Server.{Server}
use aural_server.Server.Quiet.{query-clean, write-done, bind-ok}
use aural_server.MessageHandlers.Steps.{insist, insisted}
use aural_server.MessageHandlers.Send.{create_message}

-- What `create_message` leaves when it succeeds: the new row at the end, and nothing else but markers.
pub record Created (n : NewMessage) (s : Server) : Type 0 where
  pub new : MessageRow
  pub db : Db
  pub numbered : new.id ≡ s.db.messages.next_message_id
  pub rows : db.messages.messages ≡ s.db.messages.messages ++ new ∷ []
  pub files : db.messages.attachments ≡ s.db.messages.attachments
  pub posts : db.messages.posts ≡ s.db.messages.posts
  pub made :
      create_message n s ≡ (ok (scan_message db.users new), record s { faults = []; db = db })

unfoldable pub store_it : String
store_it = "the server failed to store the message"

read_back :
    (db : Db) (rows : List MessageRow) (new : MessageRow)
    → db.messages.messages ≡ rows ++ new ∷ []
    → IsBelow new.id rows
    → message_by_id db new.id ≡ done (scan_message db.users new)
unfolding message_by_id
read_back db rows new e below =
    let found : message_row db.messages.messages new.id ≡ some new =
      subst (λ (l : List MessageRow). message_row l new.id ≡ some new) (sym e)
        (found_last new rows below) in
    ground (arith, found)

insist-done :
    {A : Type 0} (what : String) (call : Server → Outcome A × Server) (s s' : Server) (a : A)
    → call s ≡ (done a, s')
    → insist what call s ≡ (ok a, s')
unfolding insist insisted
insist-done what call s s' a h = rw h refl

pub insert-Created :
    (n : NewMessage) (s : Server) (db1 : Db) (id : ℕ)
    → s.faults ≡ []
    → IsOrdered s.db.messages
    → insert_message n s.db ≡ done (db1, id)
    → Created n s
unfolding create_message move_read_marker append_row new_row store_it
insert-Created n s db1 id c o h =
    let (author, numbered, grown) = insert-done n s.db db1 id h in
    let new = new_row s.db.messages.next_message_id author n in
    let db2 : Db = record db1 {
      messages = record db1.messages {
        channel_reads = raise_marker n.user_id n.channel_id id db1.messages.channel_reads;
      };
    } in
    let s1 : Server = record s { faults = []; db = db1 } in
    let s2 : Server = record s { faults = []; db = db2 } in
    let rows : db2.messages.messages ≡ s.db.messages.messages ++ new ∷ [] =
      ap (λ (d : Db). d.messages.messages) grown in
    let read : message_by_id db2 id ≡ done (scan_message db2.users new) =
      subst (λ k. message_by_id db2 k ≡ done (scan_message db2.users new)) (sym numbered)
        (read_back db2 s.db.messages.messages new rows o.below) in
    record {
      new = new;
      db = db2;
      numbered = refl;
      rows = rows;
      files = ap (λ (d : Db). d.messages.attachments) grown;
      posts = ap (λ (d : Db). d.messages.posts) grown;
      made =
          bind-ok _ _ s s1 id
            (insist-done store_it _ s s1 id (write-done s c (insert_message n) db1 id h))
          ∙ bind-ok _ _ s1 s2 tt
              (insist-done store_it _ s1 s2 tt (write-done s1 refl _ db2 tt refl))
          ∙ insist-done store_it _ s2 s2 _ (
              query-clean s2 refl (λ db. message_by_id db id)
              ∙ ap (λ (k : Outcome MessageRow). (k, s2)) read);
    }
