-- ===== src/Store/Messages/Undone.antt =====
-- internal/store/messages.go: taking a message back that was just written.
use aural_server.Base.{
  ℕ, ◌<◌, ◌≡◌, refl, ap, false, not, Option, none, some, List, [], ◌∷◌, ◌++◌, arith, ◌==◌, All,
  keep, contains, ==_refl,
}
use aural_server.Store.MessageRows.{
  MessageRow, AttachmentRow, PostRow, MessageTables, names_one, message_ids, forget_body,
  delete_where,
}
use aural_server.Store.Messages.{message_row}
use aural_server.Store.Messages.Ordered.{IsBelow, IsOrdered}

-- A column names a message below an id, or none.
abbrev pub NamesBelow : ℕ → Option ℕ → Type 0
NamesBelow high none = Unit
NamesBelow high (some id) = id < high

-- The files and the posts name messages that have been.
pub record IsReferenced (t : MessageTables) : Type 0 where
  pub files : All (λ (a : AttachmentRow). NamesBelow t.next_message_id a.message_id) t.attachments
  pub bodies : All (λ (p : PostRow). NamesBelow t.next_message_id p.root_message_id) t.posts

module _ (m : MessageRow) where
  others_stay :
      (rows : List MessageRow)
      → IsBelow m.id rows
      → keep (λ k. not (k.id == m.id)) (rows ++ m ∷ []) ≡ rows
  unfolding keep
  others_stay [] b = ground (arith, ==_refl m.id)
  others_stay (k ∷ rows) b = ground (arith, b.0, others_stay rows b.1)

  one_goes :
      (rows : List MessageRow)
      → IsBelow m.id rows
      → message_ids (keep (λ k. k.id == m.id) (rows ++ m ∷ [])) ≡ m.id ∷ []
  unfolding keep message_ids
  one_goes [] b = ground (arith, ==_refl m.id)
  one_goes (k ∷ rows) b = ground (arith, b.0, one_goes rows b.1)

  pub found_last :
      (rows : List MessageRow) → IsBelow m.id rows → message_row (rows ++ m ∷ []) m.id ≡ some m
  unfolding message_row
  found_last [] b = ground (arith, ==_refl m.id)
  found_last (k ∷ rows) b = ground (arith, b.0, found_last rows b.1)

not_named : (id : ℕ) (o : Option ℕ) → NamesBelow id o → names_one (id ∷ []) o ≡ false
unfolding names_one contains
not_named id none b = refl
not_named id (some k) b = ground (arith, b)

files_stay :
    (id : ℕ) (files : List AttachmentRow)
    → All (λ (a : AttachmentRow). NamesBelow id a.message_id) files
    → keep (λ a. not (names_one (id ∷ []) a.message_id)) files ≡ files
unfolding keep
files_stay id [] h = refl
files_stay id (a ∷ files) h =
    rw (not_named id a.message_id h.0)
      (ap (λ (l : List AttachmentRow). a ∷ l) (files_stay id files h.1))

bodies_stay :
    (id : ℕ) (posts : List PostRow)
    → All (λ (p : PostRow). NamesBelow id p.root_message_id) posts
    → forget_body (id ∷ []) posts ≡ posts
unfolding forget_body
bodies_stay id [] h = refl
bodies_stay id (p ∷ posts) h =
    rw (not_named id p.root_message_id h.0)
      (ap (λ (l : List PostRow). p ∷ l) (bodies_stay id posts h.1))

-- The tables, but for the markers and the sequences.
pub record SameRows (t : MessageTables) (t' : MessageTables) : Type 0 where
  pub messages : t'.messages ≡ t.messages
  pub attachments : t'.attachments ≡ t.attachments
  pub posts : t'.posts ≡ t.posts

-- Deleting the newest row, whatever has become of the markers since it was written.
pub delete_where-SameRows :
    (m : MessageRow) (t t' : MessageTables)
    → m.id ≡ t.next_message_id
    → IsOrdered t
    → IsReferenced t
    → t'.messages ≡ t.messages ++ m ∷ []
    → t'.attachments ≡ t.attachments
    → t'.posts ≡ t.posts
    → SameRows t (delete_where (λ k. k.id == m.id) t')
unfolding delete_where
delete_where-SameRows m t t' e o r rows files posts =
    let below : IsBelow m.id t.messages = rw e o.below in
    record {
      messages = rw rows (others_stay m t.messages below);
      attachments =
          rw (rows, one_goes m t.messages below, files)
            (files_stay m.id t.attachments (rw e r.files));
      posts =
          rw (rows, one_goes m t.messages below, posts) (bodies_stay m.id t.posts (rw e r.bodies));
    }
