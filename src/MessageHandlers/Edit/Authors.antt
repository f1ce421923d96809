-- ===== src/MessageHandlers/Edit/Authors.antt =====
-- internal/gateway/handlers_message.go: `handleMessageEdit` changes the caller's own words only.
use aural_server.Base.{
  ℕ, String, ◌≡◌, refl, ap, subst, sym, ◌∙◌, inl, inr, Bool, true, false, Option, some, arith, ◌==◌,
  Bool-cases,
}
use aural_server.Text.{Text}
use aural_server.Protocol.{Code, ok, require, forbidden}
use aural_server.Store.MessageRows.{MessageRow}
use aural_server.Store.Messages.{message_row}
use aural_server.Store.Messages.Rows.{Words, row-set, update-done}
use aural_server.Server.{Server, Session}
use aural_server.Server.Quiet.{
  Quiet, quiet-holds, then-quiet, written-holds, no_value-done, Quiet-check, Quiet-attempt,
  QuietCall-query,
}
use aural_server.MessageHandlers.{Setting, MessageEditRequest, written_by}
use aural_server.MessageHandlers.Steps.Quiet.{
  quiet_rules, Quiet-load, Quiet-insist, Quiet-token, Quiet-screened, resolve-Same,
}
use aural_server.MessageHandlers.Steps.Loaded.{Loaded, load_visible_message-ok, Loaded-columns}
use aural_server.MessageHandlers.Edit.{handle_message_edit, edit_message, shown}

Quiet-shown : (m : MessageRow) (files : _) → Quiet (shown m files)
unfolding shown
Quiet-shown m files = record { at = λ s. resolve-Same m.reply_to_id s }

edit_message-Words :
    (id : ℕ) (content : Text) (now : ℕ) (s : Server) (x : ℕ) (m : MessageRow)
    → (id == x) ≡ false
    → Words x m s.db.messages
    → Words x m (edit_message id content now s).1.db.messages
unfolding edit_message
edit_message-Words id content now s x m other w =
    then-quiet (Words x m) s _ _ (λ u. Quiet-attempt _ _ _ (QuietCall-query _))
      (written-holds (Words x m) s _ _ _ w (λ db u h.
        subst (λ rows. message_row rows x ≡ some m)
          (sym (update-done id content now s.db db (no_value-done _ db u h)))
          (row-set id _ s.db.messages.messages x (λ k. refl) other ∙ w)))

require-ok : (b : Bool) (c : Code) (t : String) (u : Unit {0}) → require b c t ≡ ok u → b ≡ true
require-ok true c t u h = refl
require-ok false c t u h = cc

-- The message that was loaded for its author is not somebody else's.
not_asked :
    (actor : Session) (id : ℕ) (s : Server) (existing : MessageRow) (x : ℕ) (m : MessageRow)
    → Loaded actor id s existing
    → written_by actor.user.id existing.user_id ≡ true
    → Words x m s.db.messages
    → written_by actor.user.id m.user_id ≡ false
    → (id == x) ≡ false
not_asked actor id s existing x m l mine w stranger = elim (Bool-cases (id == x)) [
  | inl same ↦
      let (writer, place) = Loaded-columns actor id s existing x m l w same in
      absurd (ground (arith, mine, stranger, ap (written_by actor.user.id) writer))
  | inr other ↦ other
]

-- Editing a message changes nobody else's words: whatever is asked for, and whatever permissions the
-- caller has, a message that the caller did not write is afterwards as it was.
pub handle_message_edit-others :
    (cfg : Setting) (actor : Session) (raw : Option MessageEditRequest) (s : Server) (x : ℕ)
    (m : MessageRow)
    → message_row s.db.messages.messages x ≡ some m
    → written_by actor.user.id m.user_id ≡ false
    → message_row (handle_message_edit cfg actor raw s).1.db.messages.messages x ≡ some m
unfolding handle_message_edit
handle_message_edit-others cfg actor raw s x m there stranger =
    let Q = Words x m in
    quiet-holds Q s _ _ (Quiet-check _) there λ req s1 h1 e1 w1.
      quiet-holds Q s1 _ _ (Quiet-load actor req.message_id) w1 λ existing s2 h2 e2 w2.
        quiet-holds Q s2 _ _ (Quiet-check _) w2 λ u s3 h3 e3 w3.
          quiet-holds Q s3 _ _ (Quiet-insist _ _ (QuietCall-query _)) w3 λ files s4 h4 e4 w4.
            quiet-holds Q s4 _ _ (Quiet-check _) w4 λ content s5 h5 e5 w5.
              quiet-holds Q s5 _ _ (Quiet-token cfg actor _) w5 λ actor' s6 h6 e6 w6.
                quiet-holds Q s6 _ _ (Quiet-screened cfg actor' _ _ _) w6 λ text s7 h7 e7 w7.
                  let loaded = load_visible_message-ok actor req.message_id s1 existing e2 in
                  let mine = require-ok _ forbidden "you can only edit your own messages" u e3 in
                  let other =
                    not_asked actor req.message_id s1 existing x m loaded mine w1 stranger in
                  then-quiet Q s7 _ _ (λ updated. search (quiet_rules, Quiet-shown) depth 12)
                    (edit_message-Words req.message_id text cfg.now s7 x m other w7)
