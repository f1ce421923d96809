-- ===== src/Store/Channels/Tree.antt =====
-- internal/store/channels.go: what the table of channels holds, after each change of it.
use aural_server.Base.{
  ℕ, ◌≡◌, ◌≢◌, refl, ap, sym, subst, ◌∙◌, inl, inr, Bool, true, false, not, ◌&&◌, Option, none,
  some, List, [], ◌∷◌, ◌++◌, arith, ◌==◌, if◌then◌else◌, Bool-cases, Option-cases, contains,
  IsDistinct, ==_iff, IsDistinct-snoc,
}
use aural_server.Hub.{ChannelType, is_category}
use aural_server.Store.{ChannelRow}
use aural_server.Store.Channels.{channel_row, set_row, set_rows}
use aural_server.Store.Channels.Rows.{found_id, after_set, row_set, row_snoc}

-- Nothing above.
unfoldable pub is_root : Option ℕ → Bool
is_root none = true
is_root (some p) = false

unfoldable pub is_root_category : Option ChannelRow → Bool
unfolding is_category is_root
is_root_category none = false
is_root_category (some c) = is_category c.type && is_root c.parent_id

-- Whether a channel of a type may stand under a parent: a category only at the root, and anything
-- else at the root or under a category at the root.
unfoldable pub fits : List ChannelRow → ChannelType → Option ℕ → Bool
unfolding is_root_category
fits rows t none = true
fits rows t (some p) = not (is_category t) && is_root_category (channel_row rows p)

unfoldable pub row_ids : List ChannelRow → List ℕ
row_ids [] = []
row_ids (c ∷ rest) = c.id ∷ row_ids rest

-- A table of channels: ids are given out once, and every channel stands where it fits.
pub record IsTree (rows : List ChannelRow) : Type 0 where
  pub distinct : IsDistinct (row_ids rows)
  pub fitting :
      (id : ℕ) (c : ChannelRow) → channel_row rows id ≡ some c → fits rows c.type c.parent_id ≡ true

root_category :
    (c : ChannelRow)
    → is_root_category (some c) ≡ true
    → (is_category c.type ≡ true) × (is_root c.parent_id ≡ true)
unfolding is_root_category
root_category c h = ground arith

-- Where a category fits, there is nothing above.
fits_root :
    (rows : List ChannelRow) (t : ChannelType) (o : Option ℕ)
    → fits rows t o ≡ true
    → is_category t ≡ true
    → is_root o ≡ true
unfolding fits is_root
fits_root rows t none h k = refl
fits_root rows t (some p) h k = ground arith

-- A category is always a root.
pub category_root :
    (rows : List ChannelRow) (id : ℕ) (c : ChannelRow)
    → IsTree rows
    → channel_row rows id ≡ some c
    → is_category c.type ≡ true
    → is_root c.parent_id ≡ true
category_root rows id c t f k = fits_root rows c.type c.parent_id (t.fitting id c f) k

row_ids-set :
    (new : ChannelRow) (rows : List ChannelRow) → row_ids (set_rows new rows) ≡ row_ids rows
unfolding set_rows set_row row_ids
row_ids-set new [] = refl
row_ids-set new (c ∷ rows) = elim (Bool-cases (c.id == new.id)) [
  | inl target ↦ rw target (ap (λ l. c.id ∷ l) (row_ids-set new rows))
  | inr other ↦ rw other (ap (λ l. c.id ∷ l) (row_ids-set new rows))
]

set_root :
    (new r : ChannelRow) (rows : List ChannelRow)
    → fits rows r.type new.parent_id ≡ true
    → is_root_category (some r) ≡ true
    → is_root_category (some (set_row new r)) ≡ true
unfolding is_root_category set_row
set_root new r rows fit h =
    ground
      (arith, fits_root rows r.type new.parent_id fit (root_category r h).0, (root_category r h).0)

set_here :
    (new q : ChannelRow) → (q.id == new.id) ≡ true → after_set new (some q) ≡ some (set_row new q)
unfolding after_set
set_here new q h = ground arith

set_other : (new q : ChannelRow) → (q.id == new.id) ≡ false → after_set new (some q) ≡ some q
unfolding after_set
set_other new q h = ground arith

no_root : (o : Option ChannelRow) → o ≡ none → is_root_category o ≡ true → o ≢ none
unfolding is_root_category
no_root none e h = ground arith
no_root (some c) e h = ground (arith, e)

module _ (new q : ChannelRow) (rows : List ChannelRow) (f : channel_row rows new.id ≡ some q) where
  found_same :
      (p : ℕ) (r : ChannelRow) → channel_row rows p ≡ some r → (r.id == new.id) ≡ true → r ≡ q
  found_same p r g here =
      let at : p ≡ new.id = sym (found_id rows p r g) ∙ (==_iff r.id new.id).0 here in
      let e : some r ≡ some q = sym g ∙ ap (channel_row rows) at ∙ f in ground (arith, e)

  -- A root category stays one, when the row that is set fits.
  root_after_set :
      (p : ℕ)
      → fits rows q.type new.parent_id ≡ true
      → is_root_category (channel_row rows p) ≡ true
      → is_root_category (channel_row (set_rows new rows) p) ≡ true
  root_after_set p fit h = elim (Option-cases (channel_row rows p)) [
    | inl absent ↦ absurd (no_root (channel_row rows p) absent h absent)
    | inr (r, found) ↦
        let e = row_set new rows p ∙ ap (after_set new) found in
        let h' : is_root_category (some r) ≡ true = ap is_root_category (sym found) ∙ h in
        elim (Bool-cases (r.id == new.id)) [
          | inl here ↦
              let fit' : fits rows r.type new.parent_id ≡ true =
                ap (λ (k : ChannelRow). fits rows k.type new.parent_id) (found_same p r found here)
                ∙ fit in
              ap is_root_category (e ∙ set_here new r here) ∙ set_root new r rows fit' h'
          | inr other ↦ ap is_root_category (e ∙ set_other new r other) ∙ h'
        ]
  ]

  fits_after_set :
      (t : ChannelType) (o : Option ℕ)
      → fits rows q.type new.parent_id ≡ true
      → fits rows t o ≡ true
      → fits (set_rows new rows) t o ≡ true
  unfolding fits
  fits_after_set t none fit h = refl
  fits_after_set t (some p) fit h = ground (arith, root_after_set p fit (ground arith))

  -- Setting a row that fits keeps the tree.
  pub set_rows-IsTree :
      IsTree rows → fits rows q.type new.parent_id ≡ true → IsTree (set_rows new rows)
  unfolding after_set set_row
  set_rows-IsTree t fit = record {
    distinct = subst IsDistinct (sym (row_ids-set new rows)) t.distinct;
    fitting = λ id c g. elim (Option-cases (channel_row rows id)) [
      | inl absent ↦
          let e : none ≡ some c = ap (after_set new) (sym absent) ∙ sym (row_set new rows id) ∙ g in
          ground (arith, e)
      | inr (r, found) ↦
          let e = sym g ∙ row_set new rows id ∙ ap (after_set new) found in
          elim (Bool-cases (r.id == new.id)) [
            | inl here ↦
                let same : some c ≡ some (set_row new r) = e ∙ set_here new r here in
                let same' : c ≡ set_row new r = ground (arith, same) in
                let fit' : fits rows r.type new.parent_id ≡ true =
                  ap (λ (k : ChannelRow). fits rows k.type new.parent_id)
                    (found_same id r found here)
                  ∙ fit in
                subst (λ (k : ChannelRow). fits (set_rows new rows) k.type k.parent_id ≡ true)
                  (sym same') (fits_after_set r.type new.parent_id fit fit')
            | inr other ↦
                let same : some c ≡ some r = e ∙ set_other new r other in
                let same' : c ≡ r = ground (arith, same) in
                subst (λ (k : ChannelRow). fits (set_rows new rows) k.type k.parent_id ≡ true)
                  (sym same') (fits_after_set r.type r.parent_id fit (t.fitting id r found))
          ]
    ];
  }

row_ids-snoc :
    (rows : List ChannelRow) (c : ChannelRow) → row_ids (rows ++ c ∷ []) ≡ row_ids rows ++ c.id ∷ []
unfolding row_ids
row_ids-snoc [] c = refl
row_ids-snoc (x ∷ rows) c = ap (λ l. x.id ∷ l) (row_ids-snoc rows c)

module _ (c : ChannelRow) (rows : List ChannelRow) where
  root_after_snoc :
      (p : ℕ)
      → is_root_category (channel_row rows p) ≡ true
      → is_root_category (channel_row (rows ++ c ∷ []) p) ≡ true
  root_after_snoc p h = elim (Option-cases (channel_row rows p)) [
    | inl absent ↦ absurd (no_root (channel_row rows p) absent h absent)
    | inr (r, found) ↦
        ap is_root_category (row_snoc rows c p ∙ ground (arith, found))
        ∙ ap is_root_category (sym found)
        ∙ h
  ]

  fits_after_snoc :
      (t : ChannelType) (o : Option ℕ) → fits rows t o ≡ true → fits (rows ++ c ∷ []) t o ≡ true
  unfolding fits
  fits_after_snoc t none h = refl
  fits_after_snoc t (some p) h = ground (arith, root_after_snoc p (ground arith))

  -- A new row that fits keeps the tree.
  pub snoc-IsTree :
      IsTree rows
      → contains (row_ids rows) c.id ≡ false
      → fits rows c.type c.parent_id ≡ true
      → IsTree (rows ++ c ∷ [])
  snoc-IsTree t fresh fit = record {
    distinct =
        subst IsDistinct (sym (row_ids-snoc rows c))
          (IsDistinct-snoc (row_ids rows) c.id t.distinct fresh);
    fitting = λ id d g. elim (Option-cases (channel_row rows id)) [
      | inl absent ↦
          let e : (if c.id == id then some c else none) ≡ some d =
            ground (arith, absent, row_snoc rows c id, g) in
          let same : c ≡ d = ground (arith, e) in
          subst (λ (k : ChannelRow). fits (rows ++ c ∷ []) k.type k.parent_id ≡ true) same
            (fits_after_snoc c.type c.parent_id fit)
      | inr (r, found) ↦
          let e : some r ≡ some d = ground (arith, found, row_snoc rows c id, g) in
          let same : r ≡ d = ground (arith, e) in
          subst (λ (k : ChannelRow). fits (rows ++ c ∷ []) k.type k.parent_id ≡ true) same
            (fits_after_snoc r.type r.parent_id (t.fitting id r found))
    ];
  }
