-- ===== src/MessageHandlers/Send/Refused.antt =====
-- internal/gateway/handlers_message.go: what a message that is refused leaves behind.
use aural_server.Base.{
  ℕ, zero, suc, String, ◌≡◌, refl, ap, subst, sym, inl, inr, ◌⊎◌, Option, none, some, List, [],
}
use aural_server.Protocol.{Failure, Result, ok, err, refuse, internal}
use aural_server.Store.{Db, Outcome, done, missing, broken}
use aural_server.Store.MessageRows.{MessageRow, MessageTables}
use aural_server.Store.Messages.{NewMessage, insert_message}
use aural_server.Store.Messages.Ordered.{IsOrdered}
use aural_server.Store.Messages.Undone.{IsReferenced, SameRows}
use aural_server.Server.{Server, Session, Handler, write, ReferencedMessage, MessageView}
use aural_server.Server.Exec.{◌>>=◌, continue}
use aural_server.Server.Quiet.{Same, Quiet, write-missing, write-broken, bind-ok, bind-err}
use aural_server.MessageHandlers.{Setting, MessageSendRequest}
use aural_server.MessageHandlers.Steps.{insist, insisted}
use aural_server.MessageHandlers.Steps.Quiet.{quiet_rules}
use aural_server.MessageHandlers.Send.{
  handle_message_send, create_message, publish, destination, reply_target,
}
use aural_server.MessageHandlers.Send.Created.{store_it, insert-Created}
use aural_server.MessageHandlers.Send.Withdrawn.{Outcome-cases, publish_refused}

SameRows-refl : (t t' : MessageTables) → t' ≡ t → SameRows t t'
SameRows-refl t t' e = record {
  messages = ap (λ (k : MessageTables). k.messages) e;
  attachments = ap (λ (k : MessageTables). k.attachments) e;
  posts = ap (λ (k : MessageTables). k.posts) e;
}

-- A refusal leaves the rows as they were, over a sound table and a store that does not fail.
record Safe {B : Type 0} (m : Handler B) : Type 0 where
  at :
      (s : Server) (e : Failure)
      → s.faults ≡ []
      → IsOrdered s.db.messages
      → IsReferenced s.db.messages
      → (m s).0 ≡ err e
      → SameRows s.db.messages (m s).1.db.messages

Safe-bind :
    {A B : Type 0} (m : Handler A) (f : A → Handler B)
    → Quiet m
    → ((a : A) → Safe (f a))
    → Safe (m >>= f)
unfolding ◌>>=◌ continue
Safe-bind {A = A} {B = B} m f q k = record { at = λ s e c o r h. go s e c o r (m s) (q.at s) h }
  where
    go :
        (s : Server) (e : Failure)
        → s.faults ≡ []
        → IsOrdered s.db.messages
        → IsReferenced s.db.messages
        → (p : Result A × Server) → Same s p.1
        → (continue p f).0 ≡ err e
        → SameRows s.db.messages (continue p f).1.db.messages
    go s e c o r (ok a, s') w h =
        subst (λ t. SameRows t (f a s').1.db.messages) w.same_messages
          ((k a).at s' e (w.sound c) (subst IsOrdered (sym w.same_messages) o)
            (subst IsReferenced (sym w.same_messages) r) h)
    go s e c o r (err e', s') w h = SameRows-refl s.db.messages s'.db.messages w.same_messages

Quiet-destination :
    (actor : Session) (channel_id post_id : ℕ) → Quiet (destination actor channel_id post_id)
unfolding destination
Quiet-destination actor channel_id zero = search quiet_rules depth 8
Quiet-destination actor channel_id (suc n) = search quiet_rules depth 10

Quiet-reply :
    (channel_id : ℕ) (post_id reply : Option ℕ) → Quiet (reply_target channel_id post_id reply)
unfolding reply_target
Quiet-reply channel_id post_id none = search quiet_rules depth 4
Quiet-reply channel_id post_id (some id) = search quiet_rules depth 8

insist-missing :
    {A : Type 0} (what : String) (call : Server → Outcome A × Server) (s s' : Server)
    → call s ≡ (missing, s')
    → insist what call s ≡ (refuse internal what, s')
unfolding insist insisted
insist-missing what call s s' h = rw h refl

insist-broken :
    {A : Type 0} (what : String) (call : Server → Outcome A × Server) (s s' : Server)
    → call s ≡ (broken, s')
    → insist what call s ≡ (refuse internal what, s')
unfolding insist insisted
insist-broken what call s s' h = rw h refl

-- An insert that fails has written nothing.
stopped :
    {B : Type 0} (n : NewMessage) (s : Server) (e : Failure)
    → insist store_it (write (insert_message n)) s ≡ (err e, record s { faults = [] })
    → (f : MessageRow → Handler B)
    → SameRows s.db.messages ((create_message n >>= f) s).1.db.messages
unfolding create_message store_it
stopped {B = B} n s e h f =
    subst (λ (p : Result B × Server). SameRows s.db.messages p.1.db.messages)
      (sym (bind-err (create_message n) f s _ e (bind-err _ _ s _ e h)))
      (SameRows-refl s.db.messages s.db.messages refl)

-- From the row on.
tail-Safe :
    (n : NewMessage) (actor : Session) (ids : List ℕ) (reply : Option ReferencedMessage)
    → Safe (create_message n >>= λ created. publish actor created ids reply)
tail-Safe n actor ids reply = record {
  at = λ s e c o r h. go s e c o r h (Outcome-cases (insert_message n s.db));
}
  where
    go :
        (s : Server) (e : Failure)
        → s.faults ≡ []
        → IsOrdered s.db.messages
        → IsReferenced s.db.messages
        → ((create_message n >>= λ created. publish actor created ids reply) s).0 ≡ err e
        → ((a : Db × ℕ) × (insert_message n s.db ≡ done a))
          ⊎ ((insert_message n s.db ≡ missing) ⊎ (insert_message n s.db ≡ broken))
        → SameRows s.db.messages
            ((create_message n >>= λ created. publish actor created ids reply) s).1.db.messages
    go s e c o r h (inl ((db1, id), inserted)) =
        let k = insert-Created n s db1 id c o inserted in
        let next =
          bind-ok (create_message n) (λ created. publish actor created ids reply) s _ _ k.made in
        subst (λ (p : Result MessageView × Server). SameRows s.db.messages p.1.db.messages)
          (sym next)
          (publish_refused n s o r k actor ids reply e
            (subst (λ (p : Result MessageView × Server). p.0 ≡ err e) next h))
    go s e c o r h (inr (inl absent)) =
        stopped n s _ (insist-missing store_it _ s _ (write-missing s c (insert_message n) absent))
          _
    go s e c o r h (inr (inr fails)) =
        stopped n s _ (insist-broken store_it _ s _ (write-broken s c (insert_message n) fails)) _

send-Safe :
    (cfg : Setting) (actor : Session) (raw : Option MessageSendRequest)
    → Safe (handle_message_send cfg actor raw)
unfolding handle_message_send
send-Safe cfg actor raw =
    search (quiet_rules, Safe-bind, Quiet-destination, Quiet-reply, tail-Safe) depth 14

-- A message that is refused, for whatever reason and at whatever point, is not there afterwards: the
-- rows of messages, files and posts are those that were there before, also where the message was
-- written and one of its files could not be attached. The store does not fail, the messages stand in
-- the order of their ids, and files and posts name only messages that have been.
pub handle_message_send_refused :
    (cfg : Setting) (actor : Session) (raw : Option MessageSendRequest) (s : Server) (e : Failure)
    → s.faults ≡ []
    → IsOrdered s.db.messages
    → IsReferenced s.db.messages
    → (handle_message_send cfg actor raw s).0 ≡ err e
    → SameRows s.db.messages (handle_message_send cfg actor raw s).1.db.messages
handle_message_send_refused cfg actor raw = (send-Safe cfg actor raw).at
