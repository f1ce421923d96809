-- ===== src/Store/Channels/Subtree.antt =====
-- internal/store/channels.go: `DescendantIDs` and `DeleteChannel`.
use aural_server.Base.{
  ℕ, zero, suc, ◌≤◌, ◌≡◌, refl, ap, sym, ◌∙◌, inl, inr, true, false, some, List, [], ◌∷◌, ◌++◌,
  arith, ◌==◌, Bool-cases, Option-cases, contains, IsDistinct, length, ==_iff, ==_refl,
}
use aural_server.Store.{Db, ChannelRow}
use aural_server.Store.Channels.{channel_row, children_of, generations, descendant_ids}
use aural_server.Store.Channels.Tree.{IsTree, fits, is_root, is_root_category, row_ids}

row_in :
    (rows : List ChannelRow) (id : ℕ) (c : ChannelRow)
    → channel_row rows id ≡ some c
    → contains (row_ids rows) id ≡ true
unfolding channel_row row_ids contains
row_in [] id c f = cc
row_in (x ∷ rows) id c f = elim (Bool-cases (x.id == id)) [
  | inl here ↦ ground (arith, here)
  | inr later ↦ ground (arith, row_in rows id c (ground (arith, later, f)))
]

-- What makes a row a child of one of some channels.
pub record IsChild (parents : List ℕ) (rows : List ChannelRow) (id : ℕ) : Type 0 where
  pub row : ChannelRow
  pub parent : ℕ
  pub found : channel_row rows id ≡ some row
  pub under : row.parent_id ≡ some parent
  pub among : contains parents parent ≡ true

later-IsChild :
    (parents : List ℕ) (c : ChannelRow) (rows : List ChannelRow) (id : ℕ)
    → contains (row_ids rows) c.id ≡ false
    → IsChild parents rows id
    → IsChild parents (c ∷ rows) id
unfolding channel_row
later-IsChild parents c rows id fresh k = record {
  row = k.row;
  parent = k.parent;
  found = elim (Bool-cases (c.id == id)) [
    | inl same ↦ ground (
      arith,
      fresh,
      row_in rows id k.row k.found,
      ap (contains (row_ids rows)) ((==_iff c.id id).0 same),
    )
    | inr other ↦ rw other k.found
  ];
  under = k.under;
  among = k.among;
}

-- A child is a row with one of the parents above it.
pub IsChild-row :
    (parents : List ℕ) (rows : List ChannelRow) (id : ℕ)
    → IsDistinct (row_ids rows)
    → contains (children_of parents rows) id ≡ true
    → IsChild parents rows id
unfolding children_of contains row_ids channel_row
IsChild-row parents [] id d h = cc
IsChild-row parents (c ∷ rows) id d h = elim (Option-cases c.parent_id) [
  | inl root ↦
      later-IsChild parents c rows id d.0
        (IsChild-row parents rows id d.1 (ground (arith, root, h)))
  | inr (p, under) ↦ elim (Bool-cases (contains parents p)) [
    | inl among ↦ elim (Bool-cases (c.id == id)) [
      | inl here ↦ record {
        row = c;
        parent = p;
        found = ground (arith, here);
        under = under;
        among = among;
      }
      | inr other ↦
          later-IsChild parents c rows id d.0
            (IsChild-row parents rows id d.1 (ground (arith, under, among, other, h)))
    ]
    | inr apart ↦
        later-IsChild parents c rows id d.0
          (IsChild-row parents rows id d.1 (ground (arith, under, apart, h)))
  ]
]

-- A row with one of the parents above it is a child.
pub row_child :
    (parents : List ℕ) (rows : List ChannelRow) (id p : ℕ) (c : ChannelRow)
    → channel_row rows id ≡ some c
    → c.parent_id ≡ some p
    → contains parents p ≡ true
    → contains (children_of parents rows) id ≡ true
unfolding children_of contains channel_row
row_child parents [] id p c f u h = cc
row_child parents (x ∷ rows) id p c f u h = elim (Bool-cases (x.id == id)) [
  | inl here ↦
      let same : x ≡ c = ground (arith, here, f) in
      let under : x.parent_id ≡ some p = ap (λ (k : ChannelRow). k.parent_id) same ∙ u in
      ground (arith, under, h, here)
  | inr later ↦
      let below = row_child parents rows id p c (ground (arith, later, f)) u h in
      elim (Option-cases x.parent_id) [
        | inl root ↦ ground (arith, root, below)
        | inr (q, under) ↦ elim (Bool-cases (contains parents q)) [
          | inl among ↦ ground (arith, under, among, below)
          | inr apart ↦ ground (arith, under, apart, below)
        ]
      ]
]

nobody : (xs : List ℕ) → ((x : ℕ) → contains xs x ≡ false) → xs ≡ []
unfolding contains
nobody [] h = refl
nobody (x ∷ xs) h = ground (arith, h x, ==_refl x)

-- The parent of a row is a root category.
pub above_root :
    (rows : List ChannelRow) (id p : ℕ) (c : ChannelRow)
    → IsTree rows
    → channel_row rows id ≡ some c
    → c.parent_id ≡ some p
    → is_root_category (channel_row rows p) ≡ true
unfolding fits
above_root rows id p c t f u =
    let fit : fits rows c.type (some p) ≡ true = ap (fits rows c.type) (sym u) ∙ t.fitting id c f in
    ground (arith, fit)

-- A channel with something above it is no root category.
pub below_root :
    (rows : List ChannelRow) (id p : ℕ) (c : ChannelRow)
    → channel_row rows id ≡ some c
    → c.parent_id ≡ some p
    → is_root_category (channel_row rows id) ≡ false
unfolding is_root_category is_root
below_root rows id p c f u = ground (arith, f, u)

-- Nothing stands below a child.
grandchildren :
    (parents : List ℕ) (rows : List ChannelRow)
    → IsTree rows
    → children_of (children_of parents rows) rows ≡ []
grandchildren parents rows t = nobody _ (λ x.
    elim (Bool-cases (contains (children_of (children_of parents rows) rows) x)) [
      | inl there ↦
          let k = IsChild-row (children_of parents rows) rows x t.distinct there in
          let j = IsChild-row parents rows k.parent t.distinct k.among in
          ground (
            arith,
            above_root rows x k.parent k.row t k.found k.under,
            below_root rows k.parent j.parent j.row j.found j.under,
          )
      | inr absent ↦ absent
    ])

children_of-nil : (rows : List ChannelRow) → children_of [] rows ≡ []
unfolding children_of contains
children_of-nil [] = refl
children_of-nil (c ∷ rows) = elim (Option-cases c.parent_id) [
  | inl root ↦ ground (arith, root, children_of-nil rows)
  | inr (p, under) ↦ ground (arith, under, children_of-nil rows)
]

generations-nil : (fuel : ℕ) (rows : List ChannelRow) → generations fuel rows [] ≡ []
unfolding generations
generations-nil zero rows = refl
generations-nil (suc fuel) rows = rw (children_of-nil rows) (generations-nil fuel rows)

append_nil : (xs : List ℕ) → xs ++ [] ≡ xs
append_nil [] = refl
append_nil (x ∷ xs) = ap (λ l. x ∷ l) (append_nil xs)

one_generation :
    (fuel : ℕ) (parents : List ℕ) (rows : List ChannelRow)
    → IsTree rows
    → generations fuel rows (children_of parents rows) ≡ []
unfolding generations
one_generation zero parents rows t = refl
one_generation (suc fuel) parents rows t =
    rw (grandchildren parents rows t) (generations-nil fuel rows)

generations-children :
    (rows other : List ChannelRow) (parents : List ℕ)
    → IsTree rows
    → length rows ≤ length other
    → (length other ≡ 0 → rows ≡ [])
    → generations (length other) rows parents ≡ children_of parents rows
unfolding generations children_of
generations-children rows [] parents t l z = ap (children_of parents) (sym (z refl))
generations-children rows (c ∷ other) parents t l z =
    ap (λ l. children_of parents rows ++ l) (one_generation (length other) parents rows t)
    ∙ append_nil (children_of parents rows)

empty_rows : (rows : List ChannelRow) → length rows ≡ 0 → rows ≡ []
empty_rows [] h = refl
empty_rows (c ∷ rows) h = absurd (omega (arith, h))

-- In a tree, the query for what is below a channel gives its children, in the order of the rows.
pub descendant_ids_lem :
    (db : Db) (id : ℕ)
    → IsTree db.channels
    → descendant_ids db id ≡ children_of (id ∷ []) db.channels
unfolding descendant_ids
descendant_ids_lem db id t =
    generations-children db.channels db.channels (id ∷ []) t (omega arith) (empty_rows db.channels)
