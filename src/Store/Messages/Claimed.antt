-- ===== src/Store/Messages/Claimed.antt =====
-- internal/store/attachments.go: a message takes all of the files that it lists, or none of them.
use aural_server.Base.{
  ℕ, ◌+◌, ◌≤◌, ◌≡◌, refl, ap, subst, sym, ◌∙◌, inl, inr, Bool, true, false, some, List, [], ◌∷◌,
  arith, ◌==◌, Bool-cases, keep, length, contains, IsDistinct, ==_iff,
}
use aural_server.Store.{Db, done}
use aural_server.Store.MessageRows.{AttachmentRow}
use aural_server.Store.Messages.Claims.{
  attachment_row, is_claimable, matches, set_message_id, claim_attachments,
}

unfoldable pub attachment_ids : List AttachmentRow → List ℕ
attachment_ids [] = []
attachment_ids (a ∷ rest) = a.id ∷ attachment_ids rest

module _ (user_id channel_id : ℕ) where
  -- How many rows a list of ids claims.
  claimed : List ℕ → List AttachmentRow → ℕ
  claimed ids rows = length (keep (matches user_id channel_id ids) rows)

  claimed-nil : (rows : List AttachmentRow) → claimed [] rows ≡ 0
  unfolding claimed keep matches contains
  claimed-nil [] = refl
  claimed-nil (a ∷ rows) = claimed-nil rows

  claimed-cons :
      (x : ℕ) (ids : List ℕ) (rows : List AttachmentRow)
      → contains ids x ≡ false
      → claimed (x ∷ ids) rows ≡ claimed (x ∷ []) rows + claimed ids rows
  unfolding claimed keep matches contains
  claimed-cons x ids [] h = omega arith
  claimed-cons x ids (a ∷ rows) h = elim (Bool-cases (x == a.id)) [
    | inl here ↦
        ground
          (arith, here, h, ap (contains ids) ((==_iff x a.id).0 here), claimed-cons x ids rows h)
    | inr other ↦ ground (arith, other, claimed-cons x ids rows h)
  ]

  -- No row has the id.
  claimed-absent :
      (x : ℕ) (rows : List AttachmentRow)
      → contains (attachment_ids rows) x ≡ false
      → claimed (x ∷ []) rows ≡ 0
  unfolding claimed keep matches contains attachment_ids
  claimed-absent x [] h = refl
  claimed-absent x (a ∷ rows) h = ground (arith, h, claimed-absent x rows (ground (arith, h)))

  claimed-one :
      (x : ℕ) (rows : List AttachmentRow)
      → IsDistinct (attachment_ids rows)
      → claimed (x ∷ []) rows ≤ 1
  unfolding claimed keep matches contains attachment_ids
  claimed-one x [] d = omega arith
  claimed-one x (a ∷ rows) d = elim (Bool-cases (x == a.id)) [
    | inl here ↦
        let gone : contains (attachment_ids rows) x ≡ false =
          subst (λ k. contains (attachment_ids rows) k ≡ false) (sym ((==_iff x a.id).0 here))
            d.0 in
        ground (arith, here, claimed-absent x rows gone)
    | inr other ↦ ground (arith, other, claimed-one x rows d.1)
  ]

  claimed-le :
      (ids : List ℕ) (rows : List AttachmentRow)
      → IsDistinct ids
      → IsDistinct (attachment_ids rows)
      → claimed ids rows ≤ length ids
  claimed-le [] rows d e = omega (arith, claimed-nil rows)
  claimed-le (x ∷ ids) rows d e =
      omega (arith, claimed-cons x ids rows d.0, claimed-one x rows e, claimed-le ids rows d.1 e)

  claimed-each :
      (ids : List ℕ) (rows : List AttachmentRow) (x : ℕ)
      → IsDistinct ids
      → IsDistinct (attachment_ids rows)
      → claimed ids rows ≡ length ids
      → contains ids x ≡ true
      → 1 ≤ claimed (x ∷ []) rows
  unfolding contains
  claimed-each [] rows x d e h k = cc
  claimed-each (y ∷ ids) rows x d e h k =
      let first : claimed (y ∷ []) rows ≡ 1 =
        omega (
          arith,
          h,
          claimed-cons y ids rows d.0,
          claimed-one y rows e,
          claimed-le ids rows d.1 e,
        ) in
      elim (Bool-cases (y == x)) [
        | inl here ↦
            subst (λ z. 1 ≤ claimed (z ∷ []) rows) ((==_iff y x).0 here) (omega (arith, first))
        | inr other ↦
            claimed-each ids rows x d.1 e (omega (arith, h, first, claimed-cons y ids rows d.0))
              (ground (arith, other, k))
      ]

  found :
      (x : ℕ) (rows : List AttachmentRow)
      → IsDistinct (attachment_ids rows)
      → 1 ≤ claimed (x ∷ []) rows
      → (a : AttachmentRow) × (attachment_row rows x ≡ some a)
        × (is_claimable user_id channel_id a ≡ true)
  unfolding claimed keep matches contains attachment_ids attachment_row
  found x [] d h = absurd (omega arith)
  found x (a ∷ rows) d h = elim (Bool-cases (a.id == x)) [
    | inl here ↦ elim (Bool-cases (is_claimable user_id channel_id a)) [
      | inl fits ↦ (a, rw here refl, fits)
      | inr taken ↦
          let gone : contains (attachment_ids rows) x ≡ false =
            subst (λ k. contains (attachment_ids rows) k ≡ false) ((==_iff a.id x).0 here) d.0 in
          absurd (ground (arith, here, taken, claimed-absent x rows gone))
    ]
    | inr other ↦
        let (b, k, fits) = found x rows d.1 (ground (arith, other)) in (b, rw other k, fits)
  ]

found_id :
    (rows : List AttachmentRow) (x : ℕ) (a : AttachmentRow)
    → attachment_row rows x ≡ some a
    → a.id ≡ x
unfolding attachment_row
found_id [] x a f = cc
found_id (b ∷ rows) x a f = elim (Bool-cases (b.id == x)) [
  | inl here ↦
      let same : b ≡ a = ground (arith, here, f) in
      sym (ap (λ (c : AttachmentRow). c.id) same) ∙ (==_iff b.id x).0 here
  | inr other ↦ found_id rows x a (ground (arith, other, f))
]

module _ (message_id : ℕ) (hit : AttachmentRow → Bool) (x : ℕ) where
  set-hit :
      (rows : List AttachmentRow) (a : AttachmentRow)
      → attachment_row rows x ≡ some a
      → hit a ≡ true
      → attachment_row (set_message_id message_id hit rows) x
        ≡ some (record a { message_id = some message_id })
  unfolding attachment_row set_message_id
  set-hit [] a f h = cc
  set-hit (b ∷ rows) a f h = elim (Bool-cases (b.id == x)) [
    | inl here ↦
        let same : b ≡ a = ground (arith, here, f) in
        rw (subst (λ c. hit c ≡ true) (sym same) h, here)
          (ap (λ (c : AttachmentRow). some (record c { message_id = some message_id })) same)
    | inr other ↦ ground (arith, other, set-hit rows a (ground (arith, other, f)) h)
  ]

-- A row that is listed and claimable is matched.
hit_lem :
    (user_id channel_id : ℕ) (ids : List ℕ) (x : ℕ) (rows : List AttachmentRow) (a : AttachmentRow)
    → attachment_row rows x ≡ some a
    → is_claimable user_id channel_id a ≡ true
    → contains ids x ≡ true
    → matches user_id channel_id ids a ≡ true
unfolding matches
hit_lem user_id channel_id ids x rows a there fits k =
    let same : a.id ≡ x = found_id rows x a there in rw (same, k) fits

-- What a claim that succeeds has counted, and what it leaves.
claim-done :
    (message_id user_id channel_id : ℕ) (ids : List ℕ) (db db' : Db)
    → claim_attachments message_id user_id channel_id ids db ≡ done db'
    → (claimed user_id channel_id ids db.messages.attachments ≡ length ids)
      × (db'.messages.attachments
          ≡ set_message_id message_id (matches user_id channel_id ids) db.messages.attachments)
unfolding claim_attachments claimed
claim-done message_id user_id channel_id ids db db' h =
    elim (Bool-cases
      (length (keep (matches user_id channel_id ids) db.messages.attachments) == length ids)) [
        | inl all ↦ ground (arith, all, h)
        | inr short ↦ absurd (ground (arith, short, h))
      ]

-- A claim that succeeds takes every upload on its list: each was a pending file of that user in that
-- channel, and the message carries it now. The list and the keys of the table repeat no id.
pub claim_attachments-all :
    (message_id user_id channel_id : ℕ) (ids : List ℕ) (db db' : Db) (x : ℕ)
    → IsDistinct ids
    → IsDistinct (attachment_ids db.messages.attachments)
    → claim_attachments message_id user_id channel_id ids db ≡ done db'
    → contains ids x ≡ true
    → (a : AttachmentRow) × (attachment_row db.messages.attachments x ≡ some a)
      × (is_claimable user_id channel_id a ≡ true)
      × (attachment_row db'.messages.attachments x
          ≡ some (record a { message_id = some message_id }))
claim_attachments-all message_id user_id channel_id ids db db' x d e h k =
    let rows = db.messages.attachments in
    let (counted, after) = claim-done message_id user_id channel_id ids db db' h in
    let (a, there, fits) =
      found user_id channel_id x rows e
        (claimed-each user_id channel_id ids rows x d e counted k) in
    (
      a,
      there,
      fits,
      subst
          (λ (l : List AttachmentRow).
            attachment_row l x ≡ some (record a { message_id = some message_id }))
          (sym after)
          (set-hit message_id (matches user_id channel_id ids) x rows a there
            (hit_lem user_id channel_id ids x rows a there fits k)),
    )
