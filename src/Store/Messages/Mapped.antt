-- ===== src/Store/Messages/Mapped.antt =====
-- internal/store/messages.go: the row with an id, in a table that a statement appended to, changed or
-- thinned out.
use aural_server.Base.{
  ℕ, suc, ◌≡◌, refl, subst, inl, inr, Bool, false, not, Option, none, some, List, [], ◌∷◌, ◌++◌,
  arith, ◌==◌, ==_iff, if◌then◌else◌, Bool-cases, keep,
}
use aural_server.Store.MessageRows.{MessageRow}
use aural_server.Store.Messages.{message_row, set_message}
use aural_server.Store.Messages.Ordered.{IsRising, IsBelow, IsRising-lower}
use aural_server.Store.Messages.Rows.{row-keep}

unfoldable pub changed : (MessageRow → MessageRow) → Option MessageRow → Option MessageRow
changed f none = none
changed f (some m) = some (f m)

-- A row that passes a test.
unfoldable pub passing : (MessageRow → Bool) → Option MessageRow → Option MessageRow
passing p none = none
passing p (some m) = if p m then some m else none

pub row-append :
    (m : MessageRow) (rows : List MessageRow) (x : ℕ)
    → IsBelow m.id rows
    → message_row (rows ++ m ∷ []) x ≡ (if m.id == x then some m else message_row rows x)
unfolding message_row
row-append m [] x b = refl
row-append m (k ∷ rows) x b = elim (Bool-cases (k.id == x)) [
  | inl same ↦
      let other : (m.id == x) ≡ false = ground (arith, b.0, same) in ground (arith, same, other)
  | inr other ↦ ground (arith, other, row-append m rows x b.1)
]

pub row-changed :
    (id : ℕ) (f : MessageRow → MessageRow) (rows : List MessageRow) (x : ℕ)
    → ((m : MessageRow) → (f m).id ≡ m.id)
    → message_row (set_message id f rows) x
      ≡ (if id == x then changed f (message_row rows x) else message_row rows x)
unfolding message_row set_message changed
row-changed id f [] x same = ground arith
row-changed id f (m ∷ rows) x same = elim (Bool-cases (m.id == id)) [
  | inl hit ↦ ground (arith, hit, same m, row-changed id f rows x same)
  | inr other ↦ ground (arith, other, row-changed id f rows x same)
]

none_later : (id : ℕ) (rows : List MessageRow) → IsRising (suc id) rows → message_row rows id ≡ none
unfolding message_row
none_later id [] r = refl
none_later id (m ∷ rows) r = ground (
  arith,
  r.0,
  none_later id rows (IsRising-lower (suc m.id) (suc id) rows (omega (arith, r.0)) r.1),
)

pub row-passing :
    (p : MessageRow → Bool) (low : ℕ) (rows : List MessageRow) (x : ℕ)
    → IsRising low rows
    → message_row (keep p rows) x ≡ passing p (message_row rows x)
unfolding message_row keep passing
row-passing p low [] x r = refl
row-passing p low (m ∷ rows) x r =
    let rest = row-passing p (suc m.id) rows x r.1 in
    elim (Bool-cases (m.id == x)) [
      | inl same ↦
          let later : message_row rows x ≡ none =
            subst (λ k. message_row rows k ≡ none) ((==_iff m.id x).0 same)
              (none_later m.id rows r.1) in
          ground (arith, same, rest, later)
      | inr other ↦ ground (arith, other, rest)
    ]

row-gone :
    (id : ℕ) (rows : List MessageRow) → message_row (keep (λ m. not (m.id == id)) rows) id ≡ none
unfolding message_row keep
row-gone id [] = refl
row-gone id (m ∷ rows) = ground (arith, row-gone id rows)

pub delete-row :
    (id : ℕ) (rows : List MessageRow) (x : ℕ)
    → message_row (keep (λ m. not (m.id == id)) rows) x
      ≡ (if id == x then none else message_row rows x)
delete-row id rows x = elim (Bool-cases (id == x)) [
  | inl same ↦ rw same (
      subst (λ k. message_row (keep (λ m. not (m.id == id)) rows) k ≡ none) ((==_iff id x).0 same)
        (row-gone id rows))
  | inr other ↦ rw other (row-keep id rows x other)
]
