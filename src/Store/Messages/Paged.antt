-- ===== src/Store/Messages/Paged.antt =====
-- internal/store/messages.go: walking back through a channel a page at a time, as a client does that
-- asks for another page as long as it is told that there is one.
use mathlib.Core.List.{reverse, reverse-cons}
use aural_server.Base.{
  ℕ, zero, suc, ◌≤◌, ◌<◌, ◌≡◌, refl, ap, subst, sym, ◌∙◌, inl, inr, List, [], ◌∷◌, ◌++◌, arith, ltb,
  if◌then◌else◌, Bool-cases, Option-cases, keep, any, take, length, length-append, length-keep-le,
}
use aural_server.Hub.{User}
use aural_server.Store.{Db}
use aural_server.Store.MessageRows.{MessageRow}
use aural_server.Store.Messages.{scan_message, scan_messages, author_row}
use aural_server.Store.Messages.Timeline.{
  is_line, before_cursor, page_before, has_before, messages_before, has_messages_before,
}
use aural_server.Store.Messages.Ordered.{
  IsRising, IsBelow, IsOrdered, IsRising-keep, by_id-IsRising,
}
use aural_server.Store.Messages.Pages.{
  keep-keep, any-keep, keep-none, older, older-older, rising_past, older-split, IsBelow-older,
  below_past, last_page,
}

-- A page, after what stands before it if the store says that there is more.
walk_page : (ℕ → List MessageRow) → Db → ℕ → List MessageRow → List MessageRow
walk_page earlier db channel_id [] = []
walk_page earlier db channel_id (m ∷ rest) =
    if has_messages_before db channel_id m.id then earlier m.id ++ m ∷ rest else m ∷ rest

-- The walk from a cursor, oldest first.
unfoldable pub walk_back : ℕ → Db → ℕ → ℕ → ℕ → List MessageRow
unfolding walk_page
walk_back zero db channel_id limit before = []
walk_back (suc fuel) db channel_id limit before =
    walk_page (λ id. walk_back fuel db channel_id limit id) db channel_id
      (reverse (messages_before db channel_id before limit))

module _ (users : List User) where
  scan-append :
      (xs ys : List MessageRow)
      → scan_messages users (xs ++ ys) ≡ scan_messages users xs ++ scan_messages users ys
  unfolding scan_messages
  scan-append [] ys = refl
  scan-append (m ∷ xs) ys =
      ap (λ (l : List MessageRow). scan_message users m ∷ l) (scan-append xs ys)

  scan-reverse :
      (xs : List MessageRow) → scan_messages users (reverse xs) ≡ reverse (scan_messages users xs)
  unfolding scan_messages
  scan-reverse [] = refl
  scan-reverse (m ∷ xs) =
      ap (scan_messages users) (reverse-cons m xs)
      ∙ scan-append (reverse xs) (m ∷ [])
      ∙ ap (λ (l : List MessageRow). l ++ scan_message users m ∷ []) (scan-reverse xs)
      ∙ sym (reverse-cons (scan_message users m) (scan_messages users xs))

  scan-id : (m : MessageRow) → (scan_message users m).id ≡ m.id
  unfolding scan_message
  scan-id m = elim (Option-cases (author_row users m.user_id)) [
    | inl gone ↦ rw gone refl
    | inr (u, here) ↦ rw here refl
  ]

whole_run : (rows : List MessageRow) → keep (before_cursor 0) rows ≡ rows
unfolding keep before_cursor
whole_run [] = refl
whole_run (m ∷ rows) = ap (λ (l : List MessageRow). m ∷ l) (whole_run rows)

cursor-older : (b : ℕ) (rows : List MessageRow) → 1 ≤ b → keep (before_cursor b) rows ≡ older b rows
unfolding before_cursor
cursor-older zero rows h = absurd (omega arith)
cursor-older (suc b) rows h = refl

-- What has a lower id than a row before the cursor stands before the cursor.
older-cursor :
    (b : ℕ) (rows front : List MessageRow) (m : MessageRow) (rest : List MessageRow)
    → keep (before_cursor b) rows ≡ front ++ m ∷ rest
    → older m.id rows ≡ older m.id (keep (before_cursor b) rows)
unfolding before_cursor
older-cursor zero rows front m rest e = ap (older m.id) (sym (whole_run rows))
older-cursor (suc b) rows front m rest e = sym (
    older-older m.id (suc b) rows (
      omega (
        arith,
        below_past (suc b) front m rest (subst (IsBelow (suc b)) e (IsBelow-older (suc b) rows)),
      )))

module _ (db : Db) (channel_id n : ℕ) (t : IsOrdered db.messages) where
  abbrev line : List MessageRow
  line = keep (is_line channel_id) db.messages.messages

  abbrev upto : ℕ → List MessageRow
  upto before = keep (before_cursor before) line

  line-IsRising : IsRising 1 line
  line-IsRising = IsRising-keep (is_line channel_id) 1 db.messages.messages t.rising

  page_lem :
      (before : ℕ)
      → reverse (messages_before db channel_id before (suc n))
        ≡ scan_messages db.users (reverse (take (suc n) (reverse (upto before))))
  unfolding messages_before page_before
  page_lem before =
      rw
        (
          keep-keep (is_line channel_id) (before_cursor before) db.messages.messages,
          by_id-IsRising 1 (upto before)
              (IsRising-keep (before_cursor before) 1 line line-IsRising),
        )
        (sym (scan-reverse db.users (take (suc n) (reverse (upto before)))))

  has_lem : (id : ℕ) → has_messages_before db channel_id id ≡ any (λ m. ltb m.id id) line
  unfolding has_messages_before has_before
  has_lem id = any-keep (is_line channel_id) (λ m. ltb m.id id) db.messages.messages

  upto-IsRising : (before : ℕ) → IsRising 1 (upto before)
  upto-IsRising before = IsRising-keep (before_cursor before) 1 line line-IsRising

  -- What is left before a page.
  front_lem :
      (before : ℕ) (front : List MessageRow) (m : MessageRow) (rest : List MessageRow)
      → upto before ≡ front ++ m ∷ rest
      → (older m.id line ≡ front) × (1 ≤ m.id)
  front_lem before front m rest whole =
      let up : IsRising 1 (front ++ m ∷ rest) = subst (IsRising 1) whole (upto-IsRising before) in
      (
        older-cursor before line front m rest whole
            ∙ ap (older m.id) whole
            ∙ older-split 1 front m rest up,
        rising_past 1 front m rest up,
      )

  -- A page with rows before it.
  walk_page_lem :
      (earlier : ℕ → List MessageRow) (before : ℕ) (front : List MessageRow) (m : MessageRow)
      (rest : List MessageRow)
      → upto before ≡ front ++ m ∷ rest
      → earlier m.id ≡ scan_messages db.users front
      → walk_page earlier db channel_id (scan_messages db.users (m ∷ rest))
        ≡ scan_messages db.users (upto before)
  unfolding walk_page scan_messages
  walk_page_lem earlier before front m rest whole ih =
      let shape : scan_messages db.users (upto before)
          ≡ scan_messages db.users front ++ scan_message db.users m ∷ scan_messages db.users rest =
        ap (scan_messages db.users) whole ∙ scan-append db.users front (m ∷ rest) in
      elim (Bool-cases (any (λ k. ltb k.id m.id) line)) [
        | inl more ↦ rw (scan-id db.users m, has_lem m.id, more, ih, shape) refl
        | inr last ↦
            let nothing : front ≡ [] =
              sym (front_lem before front m rest whole).0
              ∙ keep-none (λ k. ltb k.id m.id) line last in
            rw (scan-id db.users m, has_lem m.id, last, shape, nothing) refl
      ]

  walk_back_from :
      (fuel before : ℕ)
      → length (upto before) < fuel
      → walk_back fuel db channel_id (suc n) before ≡ scan_messages db.users (upto before)
  unfolding walk_back scan_messages
  walk_back_from zero before h = absurd (omega arith)
  walk_back_from (suc fuel) before h = elim (last_page n (upto before)) [
    | inl empty ↦
        ap (walk_page (λ id. walk_back fuel db channel_id (suc n) id) db channel_id) (
          page_lem before
          ∙ ap (λ l. scan_messages db.users (reverse (take (suc n) (reverse l)))) empty)
        ∙ sym (ap (scan_messages db.users) empty)
    | inr (front, m, rest, whole, page) ↦
        let (split, positive) = front_lem before front m rest whole in
        let left : upto m.id ≡ front = cursor-older m.id line positive ∙ split in
        let shorter : length (upto m.id) < fuel =
          rw left (omega (arith, h, ap length whole, length-append front (m ∷ rest))) in
        ap (walk_page (λ id. walk_back fuel db channel_id (suc n) id) db channel_id)
          (page_lem before ∙ ap (scan_messages db.users) page)
        ∙ walk_page_lem (λ id. walk_back fuel db channel_id (suc n) id) before front m rest whole
            (walk_back_from fuel m.id shorter ∙ ap (scan_messages db.users) left)
  ]

-- Asking for a page of at least one line of a channel's history, and then for the page before it as
-- long as the server says that there is one, gives every line of the channel once, in the order of
-- the ids, and ends: there are at most as many pages as messages. The condition is the order of the
-- table.
pub walk_back_whole :
    (db : Db) (channel_id limit fuel : ℕ)
    → IsOrdered db.messages
    → 1 ≤ limit
    → length db.messages.messages < fuel
    → walk_back fuel db channel_id limit 0
      ≡ scan_messages db.users (keep (is_line channel_id) db.messages.messages)
walk_back_whole db channel_id zero fuel t h enough = absurd (omega arith)
walk_back_whole db channel_id (suc n) fuel t h enough =
    let rows = keep (is_line channel_id) db.messages.messages in
    walk_back_from db channel_id n t fuel 0 (
      omega (
        arith,
        length-keep-le (is_line channel_id) db.messages.messages,
        length-keep-le (before_cursor 0) rows,
      ))
    ∙ ap (scan_messages db.users) (whole_run rows)
