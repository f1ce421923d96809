-- ===== src/Store/Messages/Pages.antt =====
-- internal/store/messages.go: rows in the order of their ids, before and after a cursor.
use mathlib.Core.List.{reverse, reverse-append, reverse-cons, reverse-reverse}
use aural_server.Base.{
  ℕ, zero, suc, ◌≤◌, ◌<◌, ◌≡◌, refl, ap, subst, sym, ◌∙◌, ◌⊎◌, inl, inr, Bool, false, ◌&&◌, List,
  [], ◌∷◌, ◌++◌, arith, ltb, Bool-cases, keep, any, take, drop,
}
use aural_server.Store.MessageRows.{MessageRow}
use aural_server.Store.Messages.Ordered.{IsRising, IsBelow, IsRising-lower}

pub keep-keep :
    (p q : MessageRow → Bool) (rows : List MessageRow)
    → keep (λ m. p m && q m) rows ≡ keep q (keep p rows)
unfolding keep
keep-keep p q [] = refl
keep-keep p q (m ∷ rows) = ground (arith, keep-keep p q rows)

pub any-keep :
    (p q : MessageRow → Bool) (rows : List MessageRow)
    → any (λ m. p m && q m) rows ≡ any q (keep p rows)
unfolding keep any
any-keep p q [] = refl
any-keep p q (m ∷ rows) = ground (arith, any-keep p q rows)

pub keep-none :
    (q : MessageRow → Bool) (rows : List MessageRow) → any q rows ≡ false → keep q rows ≡ []
unfolding keep any
keep-none q [] h = refl
keep-none q (m ∷ rows) h = ground (arith, keep-none q rows)

-- The rows before an id.
abbrev pub older : ℕ → List MessageRow → List MessageRow
older id rows = keep (λ m. ltb m.id id) rows

pub older-older : (a b : ℕ) (rows : List MessageRow) → a ≤ b → older a (older b rows) ≡ older a rows
unfolding keep
older-older a b [] h = refl
older-older a b (m ∷ rows) h = ground (arith, older-older a b rows h)

pub older-low : (id : ℕ) (rows : List MessageRow) → IsRising id rows → older id rows ≡ []
unfolding keep
older-low id [] r = refl
older-low id (m ∷ rows) r =
    ground (arith, older-low id rows (IsRising-lower (suc m.id) id rows (omega (arith, r.0)) r.1))

pub rising_past :
    (low : ℕ) (rows : List MessageRow) (m : MessageRow) (rest : List MessageRow)
    → IsRising low (rows ++ m ∷ rest)
    → low ≤ m.id
rising_past low [] m rest r = r.0
rising_past low (n ∷ rows) m rest r = omega (arith, r.0, rising_past (suc n.id) rows m rest r.1)

-- What stands before a row is what has a lower id.
pub older-split :
    (low : ℕ) (rows : List MessageRow) (m : MessageRow) (rest : List MessageRow)
    → IsRising low (rows ++ m ∷ rest)
    → older m.id (rows ++ m ∷ rest) ≡ rows
unfolding keep
older-split low [] m rest r =
    ground (arith, older-low m.id rest (IsRising-lower (suc m.id) m.id rest (omega arith) r.1))
older-split low (n ∷ rows) m rest r =
    ground (arith, rising_past (suc n.id) rows m rest r.1, older-split (suc n.id) rows m rest r.1)

pub IsBelow-older : (b : ℕ) (rows : List MessageRow) → IsBelow b (older b rows)
unfolding keep
IsBelow-older b [] = tt
IsBelow-older b (m ∷ rows) = elim (Bool-cases (ltb m.id b)) [
  | inl before ↦ rw before (ground arith, IsBelow-older b rows)
  | inr past ↦ rw past (IsBelow-older b rows)
]

pub below_past :
    (b : ℕ) (rows : List MessageRow) (m : MessageRow) (rest : List MessageRow)
    → IsBelow b (rows ++ m ∷ rest)
    → m.id < b
below_past b [] m rest h = h.0
below_past b (n ∷ rows) m rest h = below_past b rows m rest h.1

pub take-drop : (n : ℕ) (xs : List MessageRow) → take n xs ++ drop n xs ≡ xs
take-drop zero xs = refl
take-drop (suc n) [] = refl
take-drop (suc n) (x ∷ xs) = ap (λ (l : List MessageRow). x ∷ l) (take-drop n xs)

pub snoc_first :
    (xs : List MessageRow) (y : MessageRow)
    → (m : MessageRow) × (rest : List MessageRow) × (xs ++ y ∷ [] ≡ m ∷ rest)
snoc_first [] y = (y, [], refl)
snoc_first (x ∷ xs) y = (x, xs ++ y ∷ [], refl)

-- A last page: what it leaves, and the page itself.
abbrev pub LastPage : ℕ → List MessageRow → Type 0
LastPage n xs =
    (xs ≡ [])
    ⊎ ((front : List MessageRow) × (m : MessageRow) × (rest : List MessageRow) × (xs
          ≡ front ++ m ∷ rest)
        × (reverse (take (suc n) (reverse xs)) ≡ m ∷ rest))

pub turned_page : (n : ℕ) (turned : List MessageRow) → LastPage n (reverse turned)
turned_page n [] = inl refl
turned_page n (y ∷ ys) =
    let (m, rest, e) = snoc_first (reverse (take n ys)) y in
    let page : reverse (y ∷ take n ys) ≡ m ∷ rest = reverse-cons y (take n ys) ∙ e in
    let whole : reverse (y ∷ ys) ≡ reverse (drop n ys) ++ m ∷ rest =
      ap (λ (l : List MessageRow). reverse (y ∷ l)) (sym (take-drop n ys))
      ∙ reverse-append (y ∷ take n ys) (drop n ys)
      ∙ ap (λ (l : List MessageRow). reverse (drop n ys) ++ l) page in
    inr (reverse (drop n ys), m, rest, whole, rw (reverse-reverse (y ∷ ys)) page)

pub last_page : (n : ℕ) (xs : List MessageRow) → LastPage n xs
last_page n xs = subst (LastPage n) (reverse-reverse xs) (turned_page n (reverse xs))
