-- ===== src/AutoMod/Bounds.antt =====
-- internal/gateway/automod.go: `clamp` and `clampIDs`.
use aural_server.Base.{
  ℕ, zero, suc, ◌+◌, ◌≤◌, ◌<◌, ◌≡◌, refl, ap, sym, subst, ◌∙◌, inl, inr, false, List, [], ◌∷◌, ◌++◌,
  map, arith, leb, ltb, ◌==◌, length, contains, IsDistinct, contains-append, IsDistinct-snoc,
  Bool-cases,
}
use aural_server.Base.Int.{ℤ, pos, negsuc}
use aural_server.AutoMod.{clamp, max_exempt, clamp_onto, clamp_ids}

clamp_fixed :
    (n low high fallback : ℕ)
    → 1 ≤ low
    → low ≤ n
    → n ≤ high
    → clamp (pos n) (pos low) (pos high) (pos fallback) ≡ pos n
unfolding clamp
clamp_fixed n low high fallback a b c = ground arith

-- Where a number comes out of the clamp.
record IsClamped (value : ℤ) (low high fallback : ℕ) : Type 0 where
  result : ℕ
  comes_out : clamp value (pos low) (pos high) (pos fallback) ≡ pos result
  above : low ≤ result
  below : result ≤ high

clamp-IsClamped :
    (value : ℤ) (low high fallback : ℕ)
    → 1 ≤ low
    → low ≤ fallback
    → fallback ≤ high
    → IsClamped value low high fallback
unfolding clamp
clamp-IsClamped (negsuc v) low high fallback a b c = record {
  result = low;
  comes_out = ground arith;
  above = omega arith;
  below = omega arith;
}
clamp-IsClamped (pos v) low high fallback a b c = elim (Bool-cases (v == 0)) [
  | inl absent ↦ record { result = fallback; comes_out = ground arith; above = b; below = c }
  | inr given ↦ elim (Bool-cases (ltb v low)) [
    | inl under ↦ record {
      result = low;
      comes_out = ground arith;
      above = omega arith;
      below = omega arith;
    }
    | inr not_under ↦ elim (Bool-cases (ltb high v)) [
      | inl over ↦ record {
        result = high;
        comes_out = ground arith;
        above = omega arith;
        below = omega arith;
      }
      | inr fits ↦ record {
        result = v;
        comes_out = ground arith;
        above = ground arith;
        below = ground arith;
      }
    ]
  ]
]

-- Between positive bounds, with a fallback between them, any number is clamped to one between them,
-- and clamping that one again leaves it alone.
pub clamp_lem :
    (value : ℤ) (low high fallback : ℕ)
    → 1 ≤ low
    → low ≤ fallback
    → fallback ≤ high
    → (n : ℕ) × (clamp value (pos low) (pos high) (pos fallback) ≡ pos n)
      × (low ≤ n)
      × (n ≤ high)
      × (clamp (pos n) (pos low) (pos high) (pos fallback) ≡ pos n)
clamp_lem value low high fallback a b c =
    let r = clamp-IsClamped value low high fallback a b c in
    (
      r.result,
      r.comes_out,
      r.above,
      r.below,
      clamp_fixed r.result low high fallback a r.above r.below,
    )

length-snoc : (xs : List ℕ) (a : ℕ) → length (xs ++ a ∷ []) ≡ suc (length xs)
length-snoc [] a = refl
length-snoc (x ∷ xs) a = ap suc (length-snoc xs a)

-- The ids that `clampIDs` may keep.
record AreClamped (ids : List ℕ) : Type 0 where
  distinct : IsDistinct ids
  few : length ids ≤ max_exempt
  positive : contains ids 0 ≡ false

positive_snoc :
    (kept : List ℕ) (n : ℕ) → contains kept 0 ≡ false → contains (kept ++ suc n ∷ []) 0 ≡ false
unfolding contains
positive_snoc kept n z = ground (arith, contains-append kept (suc n ∷ []) 0)

clamp_onto-AreClamped :
    (kept : List ℕ) (ids : List ℤ)
    → IsDistinct kept
    → length kept < max_exempt
    → contains kept 0 ≡ false
    → AreClamped (clamp_onto kept ids)
unfolding clamp_onto
clamp_onto-AreClamped kept [] d l z = record { distinct = d; few = omega arith; positive = z }
clamp_onto-AreClamped kept (negsuc n ∷ rest) d l z = clamp_onto-AreClamped kept rest d l z
clamp_onto-AreClamped kept (pos zero ∷ rest) d l z = clamp_onto-AreClamped kept rest d l z
clamp_onto-AreClamped kept (pos (suc n) ∷ rest) d l z = elim (Bool-cases (contains kept (suc n))) [
  | inl seen ↦ rw seen (clamp_onto-AreClamped kept rest d l z)
  | inr new ↦
      let d' = IsDistinct-snoc kept (suc n) d new in
      let l' = length-snoc kept (suc n) in
      let z' : contains (kept ++ suc n ∷ []) 0 ≡ false = positive_snoc kept n z in
      elim (Bool-cases (leb max_exempt (length (kept ++ suc n ∷ [])))) [
        | inl full ↦
            rw (new, full) (record { distinct = d'; few = omega (arith, l'); positive = z' })
        | inr room ↦
            rw (new, room)
              (clamp_onto-AreClamped (kept ++ suc n ∷ []) rest d' (ground (arith, l')) z')
      ]
]

-- What `clampIDs` leaves are at most 64 ids, none of them twice, none of them 0.
pub clamp_ids_lem :
    (ids : List ℤ)
    → (length (clamp_ids ids) ≤ max_exempt)
      × IsDistinct (clamp_ids ids)
      × (contains (clamp_ids ids) 0 ≡ false)
unfolding clamp_ids contains
clamp_ids_lem ids =
    let r = clamp_onto-AreClamped [] ids tt (omega arith) refl in (r.few, r.distinct, r.positive)

append_cons : (kept : List ℕ) (x : ℕ) (xs : List ℕ) → kept ++ x ∷ xs ≡ (kept ++ x ∷ []) ++ xs
append_cons [] x xs = refl
append_cons (k ∷ kept) x xs = ap (λ l. k ∷ l) (append_cons kept x xs)

append_nil : (kept : List ℕ) → kept ≡ kept ++ []
append_nil [] = refl
append_nil (k ∷ kept) = ap (λ l. k ∷ l) (append_nil kept)

length-append : (xs ys : List ℕ) → length (xs ++ ys) ≡ length xs + length ys
length-append [] ys = omega arith
length-append (x ∷ xs) ys = omega (arith, length-append xs ys)

-- In a distinct list, what stands in the middle does not stand before.
IsDistinct-middle :
    (kept : List ℕ) (x : ℕ) (xs : List ℕ) → IsDistinct (kept ++ x ∷ xs) → contains kept x ≡ false
unfolding contains
IsDistinct-middle [] x xs d = refl
IsDistinct-middle (k ∷ kept) x xs d =
    ground (arith, contains-append kept (x ∷ xs) k, d.0, IsDistinct-middle kept x xs d.1)

only : (xs : List ℕ) → length xs ≤ 0 → xs ≡ []
only [] h = refl
only (x ∷ xs) h = absurd (omega arith)

clamp_onto_fixed :
    (kept xs : List ℕ)
    → IsDistinct (kept ++ xs)
    → contains (kept ++ xs) 0 ≡ false
    → length (kept ++ xs) ≤ max_exempt
    → clamp_onto kept (map pos xs) ≡ kept ++ xs
unfolding clamp_onto contains
clamp_onto_fixed kept [] d z l = append_nil kept
clamp_onto_fixed kept (zero ∷ xs) d z l = ground (arith, contains-append kept (0 ∷ xs) 0)
clamp_onto_fixed kept (suc n ∷ xs) d z l =
    let new = IsDistinct-middle kept (suc n) xs d in
    let same = append_cons kept (suc n) xs in
    elim (Bool-cases (leb max_exempt (length (kept ++ suc n ∷ [])))) [
      | inl full ↦
          let none_left : xs ≡ [] =
            only xs (ground (arith, length-snoc kept (suc n), length-append kept (suc n ∷ xs))) in
          rw (new, full) (ap (λ l. kept ++ suc n ∷ l) (sym none_left))
      | inr room ↦
          rw (new, room)
            (clamp_onto_fixed (kept ++ suc n ∷ []) xs (subst IsDistinct same d)
                (subst (λ l. contains l 0 ≡ false) same z)
                (subst (λ l. length l ≤ max_exempt) same l)
              ∙ sym same)
    ]

-- Clamping ids that are clamped already changes nothing.
pub clamp_ids-clamp_ids : (ids : List ℤ) → clamp_ids (map pos (clamp_ids ids)) ≡ clamp_ids ids
unfolding clamp_ids contains
clamp_ids-clamp_ids ids =
    let (few, distinct, positive) = clamp_ids_lem ids in
    clamp_onto_fixed [] (clamp_ids ids) distinct positive few
