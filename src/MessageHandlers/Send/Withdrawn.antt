-- ===== src/MessageHandlers/Send/Withdrawn.antt =====
-- internal/gateway/handlers_message.go: a written message of `handleMessageSend`, taken back when its
-- files cannot be attached.
use aural_server.Base.{
  ℕ, ◌≡◌, refl, ap, subst, sym, ◌∙◌, inl, inr, ◌⊎◌, Option, some, List, [], ◌∷◌, ◌==◌,
}
use aural_server.Protocol.{Failure, Result, ok, err}
use aural_server.Store.{Db, Outcome, done, missing, broken}
use aural_server.Store.MessageRows.{MessageRow, AttachmentRow, delete_where}
use aural_server.Store.Messages.{NewMessage, message_row, scan_message, delete_message}
use aural_server.Store.Messages.Ordered.{IsOrdered, IsBelow}
use aural_server.Store.Messages.Rows.{delete-lem}
use aural_server.Store.Messages.Scanned.{scan_message-id}
use aural_server.Store.Messages.Undone.{IsReferenced, SameRows, found_last, delete_where-SameRows}
use aural_server.Server.{Server, Session, no_value, ReferencedMessage, MessageView}
use aural_server.Store.Messages.Claims.{claim_attachments, attachments_for_message}
use aural_server.Server.Exec.{◌>>=◌, ◌>>◌, continue, act, pure}
use aural_server.Server.Quiet.{
  query-clean, write-done, write-missing, write-broken, bind-ok, bind-err,
}
use aural_server.MessageHandlers.Send.{publish, attach_files_to, attached, read_claimed, taken_back}
use aural_server.MessageHandlers.Send.Created.{Created}

-- Two acts and an answer are not refused.
acts-ne-err :
    {A : Type 0} (f g : Server → Server) (a : A) (s : Server) (e : Failure)
    → ((act f >> (act g >> pure a)) s).0 ≡ err e
    → ⊥
unfolding ◌>>=◌ continue
acts-ne-err f g a s e h = cc

pub Outcome-cases :
    {A : Type 0} (o : Outcome A) → ((a : A) × (o ≡ done a)) ⊎ ((o ≡ missing) ⊎ (o ≡ broken))
Outcome-cases (done a) = inl (a, refl)
Outcome-cases missing = inr (inl refl)
Outcome-cases broken = inr (inr refl)

module _ (n : NewMessage) (s : Server) (o : IsOrdered s.db.messages)
    (r : IsReferenced s.db.messages) (c : Created n s) (actor : Session) where
  abbrev pub made_state : Server
  made_state = record s { faults = []; db = c.db }

  abbrev pub created : MessageRow
  created = scan_message c.db.users c.new

  created_id : created.id ≡ c.new.id
  created_id = scan_message-id c.db.users c.new

  -- Taking the new row back.
  undone : SameRows s.db.messages (taken_back created made_state).db.messages
  unfolding taken_back
  undone =
      let found : message_row c.db.messages.messages created.id ≡ some c.new =
        subst (λ k. message_row c.db.messages.messages k ≡ some c.new) (sym created_id)
          (subst (λ (l : List MessageRow). message_row l c.new.id ≡ some c.new) (sym c.rows)
            (found_last c.new s.db.messages.messages
              (subst (λ k. IsBelow k s.db.messages.messages) (sym c.numbered) o.below))) in
      let left : Db = record c.db {
        messages = delete_where (λ m. m.id == created.id) c.db.messages;
      } in
      let gone : delete_message created.id c.db ≡ done left =
        delete-lem created.id c.db c.new found in
      let wrote =
        write-done made_state refl (λ db. no_value (delete_message created.id db)) left tt
          (ap no_value gone) in
      subst (λ (p : Outcome (Unit {0}) × Server). SameRows s.db.messages p.1.db.messages)
        (sym wrote)
        (subst (λ k. SameRows s.db.messages (delete_where (λ m. m.id == k) c.db.messages))
          (sym created_id)
          (delete_where-SameRows c.new s.db.messages c.db.messages c.numbered o r c.rows c.files
            c.posts))

  -- The attachment step: either it goes on, or the row is taken back.
  attach_cases :
      (ids : List ℕ)
      → ((files : List AttachmentRow) × (s' : Server) × (attach_files_to actor created ids
              made_state
            ≡ (ok files, s')))
        ⊎ ((e : Failure) × (attach_files_to actor created ids made_state
              ≡ (err e, taken_back created made_state)))
  unfolding attach_files_to attached read_claimed
  attach_cases [] = inl ([], made_state, refl)
  attach_cases (x ∷ rest) =
      let claim = claim_attachments created.id actor.user.id created.channel_id (x ∷ rest) in
      elim (Outcome-cases (claim c.db)) [
        | inl (db3, claimed) ↦
            let s3 : Server = record made_state { db = db3 } in
            inl (
              _,
              s3,
              ap (λ p. attached created (read_claimed created.id p))
                    (write-done made_state refl (λ db. no_value (claim db)) db3 tt
                      (ap no_value claimed))
                  ∙ ap (attached created)
                      (query-clean s3 refl (λ db. done (attachments_for_message db created.id))),
            )
        | inr (inl absent) ↦ inr (
          _,
          ap (λ p. attached created (read_claimed created.id p))
              (write-missing made_state refl (λ db. no_value (claim db)) (ap no_value absent)),
        )
        | inr (inr fails) ↦ inr (
          _,
          ap (λ p. attached created (read_claimed created.id p))
              (write-broken made_state refl (λ db. no_value (claim db)) (ap no_value fails)),
        )
      ]

  pub publish_refused :
      (ids : List ℕ) (reply : Option ReferencedMessage) (e : Failure)
      → (publish actor created ids reply made_state).0 ≡ err e
      → SameRows s.db.messages (publish actor created ids reply made_state).1.db.messages
  unfolding publish
  publish_refused ids reply e h = elim (attach_cases ids) [
    | inl (files, s', went) ↦ absurd (
        acts-ne-err _ _ _ s' e (
          subst (λ (p : Result MessageView × Server). p.0 ≡ err e)
            (bind-ok _ _ made_state s' files went) h))
    | inr (e', back) ↦
        subst (λ (p : Result MessageView × Server). SameRows s.db.messages p.1.db.messages)
          (sym (bind-err _ _ made_state _ e' back)) undone
  ]
