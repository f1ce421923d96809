-- ===== src/MessageHandlers/Edit/Deleted.antt =====
-- internal/gateway/handlers_message.go: what `handleMessageDelete` may take.
use aural_server.Base.{
  ℕ, ◌≡◌, refl, ap, subst, sym, ◌∙◌, inl, inr, false, Option, none, some, List, arith, ◌==◌,
  Bool-cases,
}
use aural_server.Permissions.{manage_messages}
use aural_server.Protocol.{Failure, ok, err}
use aural_server.Store.{Outcome, done, missing, broken}
use aural_server.Store.MessageRows.{MessageRow, AttachmentRow, PostRow}
use aural_server.Store.Messages.{message_row}
use aural_server.Store.Messages.Rows.{Words, row-keep, delete-done}
use aural_server.Server.{Server, Session}
use aural_server.Server.Quiet.{
  Same, Same-refl, Quiet, QuietAct, quiet-holds, then-quiet, written-holds, no_value-done,
  Quiet-check, QuietCall-query, QuietAct-audit,
}
use aural_server.Channels.{require_channel_permission}
use aural_server.MessageHandlers.{written_by}
use aural_server.MessageHandlers.Steps.Quiet.{quiet_rules, Quiet-load, Quiet-insist}
use aural_server.MessageHandlers.Steps.Loaded.{Loaded, load_visible_message-ok, Loaded-columns}
use aural_server.MessageHandlers.Edit.{
  handle_message_delete, may_delete, not_body, unless_body, remove_files, log_deletion,
}

not_body-Same :
    (id : ℕ) (p : Outcome PostRow × Server) (s : Server) → Same s p.1 → Same s (not_body id p).1
unfolding not_body
not_body-Same id (done post, s') s h = h
not_body-Same id (missing, s') s h = h
not_body-Same id (broken, s') s h = h

Quiet-body : (m : MessageRow) (o : Option ℕ) → Quiet (unless_body m o)
unfolding unless_body
Quiet-body m none = record { at = λ s. Same-refl s }
Quiet-body m (some post_id) = record { at = λ s. not_body-Same m.id _ s ((QuietCall-query _).at s) }

QuietAct-remove : (files : List AttachmentRow) → QuietAct (remove_files files)
unfolding remove_files
QuietAct-remove files = record {
  at = λ s. record { same_messages = refl; same_hub = refl; sound = λ f. f };
}

QuietAct-log : (actor : Session) (m : MessageRow) → QuietAct (log_deletion actor m)
unfolding log_deletion
QuietAct-log actor m = elim (Bool-cases (written_by actor.user.id m.user_id)) [
  | inl own ↦ record { at = λ s. rw own (Same-refl s) }
  | inr other ↦ record { at = λ s. rw other ((QuietAct-audit actor _).at s) }
]

-- What was loaded for somebody who may delete it is not a message that they may not touch.
spared :
    (actor : Session) (id : ℕ) (s s' : Server) (existing : MessageRow) (x : ℕ) (m : MessageRow)
    (u : Unit {0}) (e : Failure)
    → Loaded actor id s existing
    → s'.hub ≡ s.hub
    → may_delete actor existing s' ≡ ok u
    → Words x m s.db.messages
    → written_by actor.user.id m.user_id ≡ false
    → require_channel_permission s.hub actor (some m.channel_id) manage_messages ≡ err e
    → (id == x) ≡ false
unfolding may_delete
spared actor id s s' existing x m u e l hub may w stranger barred = elim (Bool-cases (id == x)) [
  | inl same ↦
      let (writer, place) = Loaded-columns actor id s existing x m l w same in
      let shut : require_channel_permission s'.hub actor (some existing.channel_id) manage_messages
          ≡ err e =
        rw (hub, place) barred in
      absurd (ground (arith, may, stranger, shut, ap (written_by actor.user.id) writer))
  | inr other ↦ other
]

-- A message can be deleted by its author, or by somebody who manages messages in its channel: for
-- anybody else, whatever they ask for, it is afterwards as it was.
pub handle_message_delete-others :
    (actor : Session) (raw : Option ℕ) (s : Server) (x : ℕ) (m : MessageRow) (e : Failure)
    → message_row s.db.messages.messages x ≡ some m
    → written_by actor.user.id m.user_id ≡ false
    → require_channel_permission s.hub actor (some m.channel_id) manage_messages ≡ err e
    → message_row (handle_message_delete actor raw s).1.db.messages.messages x ≡ some m
unfolding handle_message_delete
handle_message_delete-others actor raw s x m e there stranger barred =
    let Q = Words x m in
    quiet-holds Q s _ _ (Quiet-check _) there λ id s1 h1 e1 w1.
      quiet-holds Q s1 _ _ (Quiet-load actor id) w1 λ existing s2 h2 e2 w2.
        quiet-holds Q s2 _ _ (Quiet-check _) w2 λ u s3 h3 e3 w3.
          quiet-holds Q s3 _ _ (Quiet-body existing existing.post_id) w3 λ v s4 h4 e4 w4.
            quiet-holds Q s4 _ _ (Quiet-insist _ _ (QuietCall-query _)) w4 λ files s5 h5 e5 w5.
              let loaded = load_visible_message-ok actor id s1 existing e2 in
              let barred1 : require_channel_permission s1.hub actor (some m.channel_id)
                    manage_messages
                  ≡ err e =
                rw h1.same_hub barred in
              let other =
                spared actor id s1 s2 existing x m u e loaded h2.same_hub e3 w1 stranger barred1 in
              then-quiet Q s5 _ _
                (λ t. search (quiet_rules, QuietAct-remove, QuietAct-log) depth 14)
                (written-holds Q s5 _ _ _ w5 (λ db t d.
                  subst (λ rows. message_row rows x ≡ some m)
                    (sym (delete-done id s5.db db (no_value-done _ db t d)))
                    (row-keep id s5.db.messages.messages x other ∙ w5)))
