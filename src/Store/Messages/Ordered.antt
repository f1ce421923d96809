-- ===== src/Store/Messages/Ordered.antt =====
-- internal/store/messages.go: the order of the ids in the table of messages.
use aural_server.Base.{
  ℕ, suc, ◌≤◌, ◌<◌, ◌≡◌, refl, inl, inr, Bool, not, List, [], ◌∷◌, ◌++◌, arith, ◌==◌, Bool-cases,
  keep,
}
use aural_server.Store.MessageRows.{MessageRow, MessageTables, delete_where}
use aural_server.Store.Messages.{set_message, append_row}
use aural_server.Store.Messages.Timeline.{by_id, insert_by_id}

-- The ids rise, from a bound on.
abbrev pub IsRising : ℕ → List MessageRow → Type 0
IsRising low [] = Unit
IsRising low (m ∷ rest) = (low ≤ m.id) × IsRising (suc m.id) rest

-- The ids stay below a bound.
abbrev pub IsBelow : ℕ → List MessageRow → Type 0
IsBelow high [] = Unit
IsBelow high (m ∷ rest) = (m.id < high) × IsBelow high rest

-- The table stands in the order of its ids, which start at 1, and the next id is new.
pub record IsOrdered (t : MessageTables) : Type 0 where
  pub started : 1 ≤ t.next_message_id
  pub rising : IsRising 1 t.messages
  pub below : IsBelow t.next_message_id t.messages

pub IsRising-lower :
    (low low' : ℕ) (rows : List MessageRow) → low' ≤ low → IsRising low rows → IsRising low' rows
IsRising-lower low low' [] h r = tt
IsRising-lower low low' (m ∷ rows) h r = (omega (arith, r.0), r.1)

pub IsRising-keep :
    (p : MessageRow → Bool) (low : ℕ) (rows : List MessageRow)
    → IsRising low rows
    → IsRising low (keep p rows)
unfolding keep
IsRising-keep p low [] r = tt
IsRising-keep p low (m ∷ rows) r = elim (Bool-cases (p m)) [
  | inl stays ↦ rw stays (r.0, IsRising-keep p (suc m.id) rows r.1)
  | inr goes ↦ rw goes (
      IsRising-lower (suc m.id) low (keep p rows) (omega (arith, r.0))
        (IsRising-keep p (suc m.id) rows r.1))
]

pub IsBelow-keep :
    (p : MessageRow → Bool) (high : ℕ) (rows : List MessageRow)
    → IsBelow high rows
    → IsBelow high (keep p rows)
unfolding keep
IsBelow-keep p high [] b = tt
IsBelow-keep p high (m ∷ rows) b = elim (Bool-cases (p m)) [
  | inl stays ↦ rw stays (b.0, IsBelow-keep p high rows b.1)
  | inr goes ↦ rw goes (IsBelow-keep p high rows b.1)
]

-- Rows in the order of their ids stay as they are when sorted.
by_id-first :
    (m : MessageRow) (rows : List MessageRow)
    → IsRising (suc m.id) rows
    → insert_by_id m rows ≡ m ∷ rows
unfolding insert_by_id
by_id-first m [] r = refl
by_id-first m (n ∷ rows) r = ground (arith, r.0)

pub by_id-IsRising : (low : ℕ) (rows : List MessageRow) → IsRising low rows → by_id rows ≡ rows
unfolding by_id
by_id-IsRising low [] r = refl
by_id-IsRising low (m ∷ rows) r = rw (by_id-IsRising (suc m.id) rows r.1) (by_id-first m rows r.1)

IsRising-snoc :
    (low high : ℕ) (rows : List MessageRow) (m : MessageRow)
    → low ≤ high
    → m.id ≡ high
    → IsRising low rows
    → IsBelow high rows
    → IsRising low (rows ++ m ∷ [])
IsRising-snoc low high [] m h e r b = (omega arith, tt)
IsRising-snoc low high (n ∷ rows) m h e r b =
    (r.0, IsRising-snoc (suc n.id) high rows m (omega (arith, b.0)) e r.1 b.1)

IsBelow-snoc :
    (high : ℕ) (rows : List MessageRow) (m : MessageRow)
    → m.id ≡ high
    → IsBelow high rows
    → IsBelow (suc high) (rows ++ m ∷ [])
IsBelow-snoc high [] m e b = (omega arith, tt)
IsBelow-snoc high (n ∷ rows) m e b = (omega (arith, b.0), IsBelow-snoc high rows m e b.1)

module _ (id : ℕ) (f : MessageRow → MessageRow) (same : (m : MessageRow) → (f m).id ≡ m.id) where
  IsRising-set :
      (low : ℕ) (rows : List MessageRow) → IsRising low rows → IsRising low (set_message id f rows)
  unfolding set_message
  IsRising-set low [] r = tt
  IsRising-set low (m ∷ rows) r = elim (Bool-cases (m.id == id)) [
    | inl here ↦
        rw here (omega (arith, same m, r.0), rw (same m) (IsRising-set (suc m.id) rows r.1))
    | inr other ↦ rw other (r.0, IsRising-set (suc m.id) rows r.1)
  ]

  IsBelow-set :
      (high : ℕ) (rows : List MessageRow) → IsBelow high rows → IsBelow high (set_message id f rows)
  unfolding set_message
  IsBelow-set high [] b = tt
  IsBelow-set high (m ∷ rows) b = elim (Bool-cases (m.id == id)) [
    | inl here ↦ rw here (omega (arith, same m, b.0), IsBelow-set high rows b.1)
    | inr other ↦ rw other (b.0, IsBelow-set high rows b.1)
  ]

pub append_row-IsOrdered :
    (m : MessageRow) (t : MessageTables)
    → m.id ≡ t.next_message_id
    → IsOrdered t
    → IsOrdered (append_row m t)
unfolding append_row
append_row-IsOrdered m t e o = record {
  started = omega (arith, o.started);
  rising = IsRising-snoc 1 t.next_message_id t.messages m o.started e o.rising o.below;
  below = IsBelow-snoc t.next_message_id t.messages m e o.below;
}

pub delete_where-IsOrdered :
    (gone : MessageRow → Bool) (t : MessageTables) → IsOrdered t → IsOrdered (delete_where gone t)
unfolding delete_where
delete_where-IsOrdered gone t o = record {
  started = o.started;
  rising = IsRising-keep (λ m. not (gone m)) 1 t.messages o.rising;
  below = IsBelow-keep (λ m. not (gone m)) t.next_message_id t.messages o.below;
}

pub set_message-IsOrdered :
    (id : ℕ) (f : MessageRow → MessageRow) (t : MessageTables)
    → ((m : MessageRow) → (f m).id ≡ m.id)
    → IsOrdered t
    → IsOrdered (record t { messages = set_message id f t.messages })
set_message-IsOrdered id f t same o = record {
  started = o.started;
  rising = IsRising-set id f same 1 t.messages o.rising;
  below = IsBelow-set id f same t.next_message_id t.messages o.below;
}
