-- ===== src/Permissions/Has.antt =====
-- internal/permissions/permissions.go: `Has` in terms of single bits.
use aural_server.Base.{
  ℕ, bit_and, ◌≡◌, ◌↔◌, ◌⊎◌, inl, inr, true, not, ◌&&◌, arith, ◌==◌, ==_iff, Bool-cases, Bool-ext,
  ap, bit_or,
}
use aural_server.Base.Bits.{test_bit, test_bit-and, test_bit-or, bits_ext, bit_and_pow}
use aural_server.Permissions.{Permission, has, administrator}

-- Every bit of `want` is a bit of `p`.
abbrev pub Contains : Permission → Permission → Type 0
Contains p want = (i : ℕ) → test_bit want i ≡ true → test_bit p i ≡ true

-- The test of the administrator bit, as the code writes it.
pub admin_test : (p : Permission) → not (bit_and p administrator == 0) ≡ test_bit p 31
admin_test p = ground (arith, bit_and_pow p 31)

and-eq_of_Contains : (p want : Permission) → Contains p want → bit_and p want ≡ want
and-eq_of_Contains p want h = bits_ext _ _ λ i. ground (arith, test_bit-and p want i, h i)

Contains-of_bit_and : (p want : Permission) → bit_and p want ≡ want → Contains p want
Contains-of_bit_and p want e i b =
    ground (arith, test_bit-and p want i, ap (λ (m : ℕ). test_bit m i) e)

-- A mask passes `Has` exactly when it has the administrator bit or every bit that is asked for.
pub has_iff :
    (p want : Permission) → (has p want ≡ true) ↔ ((test_bit p 31 ≡ true) ⊎ Contains p want)
unfolding has
has_iff p want = (
  λ h. elim (Bool-cases (test_bit p 31)) [
    | inl admin ↦ inl admin
    | inr other ↦
        inr
          (Contains-of_bit_and p want (ground (arith, admin_test p, ==_iff (bit_and p want) want)))
  ],
  λ h. elim h [
    | inl admin ↦ ground (arith, admin_test p)
    | inr within ↦ ground (arith, and-eq_of_Contains p want within)
  ],
)

Contains-or : (p a b : Permission) → Contains p (bit_or a b) ↔ (Contains p a × Contains p b)
Contains-or p a b = (
  λ h. (
    λ i t. h i (ground (arith, test_bit-or a b i)),
    λ i t. h i (ground (arith, test_bit-or a b i)),
  ),
  λ h i t. ground (arith, test_bit-or a b i, h.0 i, h.1 i),
)

has_both : (p a b : Permission) → has p (bit_or a b) ≡ true → (has p a ≡ true) × (has p b ≡ true)
has_both p a b h = elim ((has_iff p (bit_or a b)).0 h) [
  | inl admin ↦ ((has_iff p a).1 (inl admin), (has_iff p b).1 (inl admin))
  | inr within ↦ (
    (has_iff p a).1 (inr ((Contains-or p a b).0 within).0),
    (has_iff p b).1 (inr ((Contains-or p a b).0 within).1),
  )
]

has_union : (p a b : Permission) → has p a ≡ true → has p b ≡ true → has p (bit_or a b) ≡ true
has_union p a b h k = (has_iff p (bit_or a b)).1 (join ((has_iff p a).0 h) ((has_iff p b).0 k))
  where
    join :
        (test_bit p 31 ≡ true) ⊎ Contains p a
        → (test_bit p 31 ≡ true) ⊎ Contains p b
        → (test_bit p 31 ≡ true) ⊎ Contains p (bit_or a b)
    join (inl admin) r = inl admin
    join (inr c) (inl admin) = inl admin
    join (inr c) (inr d) = inr ((Contains-or p a b).1 (c, d))

-- Two requests together are granted exactly when each one is.
pub has-or : (p a b : Permission) → has p (bit_or a b) ≡ (has p a && has p b)
has-or p a b =
    Bool-ext _ _ (λ h. ground (arith, has_both p a b h)) (λ h. ground (arith, has_union p a b))
