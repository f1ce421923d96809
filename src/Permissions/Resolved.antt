-- ===== src/Permissions/Resolved.antt =====
-- internal/permissions/permissions.go: `Resolve` and `ResolveInChannel` in terms of single bits.
use aural_server.Base.{
  ℕ, bit_or, ◌≡◌, refl, ap, ◌∙◌, Bool, true, false, not, ◌&&◌, ◌||◌, Option, some, none, arith,
  List, [], ◌∷◌, ◌==◌, if◌then◌else◌, any, any_same, ap₂, contains, Bool-cases, inl, inr, sym,
}
use aural_server.Base.Bits.{
  bit_clear, test_bit, test_bit-or, test_bit-clear, test_bit-zero, bits_ext, bit_and_pow,
}
use aural_server.Permissions.{
  Permission, Overwrite, all, or_masks, resolve, by_role, apply_masks, apply_everyone,
  add_overwrite, role_overwrites, overwritten, resolve_in_channel,
}
use aural_server.Permissions.Has.{admin_test}

test_bit-or_masks :
    (masks : List Permission) (base : Permission) (i : ℕ)
    → test_bit (or_masks base masks) i ≡ (test_bit base i || any (λ m. test_bit m i) masks)
unfolding or_masks any
test_bit-or_masks [] base i = ground arith
test_bit-or_masks (m ∷ rest) base i =
    test_bit-or_masks rest (bit_or base m) i ∙ ground (arith, test_bit-or base m i)

-- The server-wide mask holds a bit when some role has it; and when some role has the administrator
-- bit, it holds exactly the defined bits.
pub resolve-bits :
    (masks : List Permission) (i : ℕ)
    → test_bit (resolve masks) i
      ≡ (if any (λ m. test_bit m 31) masks then test_bit all i else any (λ m. test_bit m i) masks)
unfolding resolve
resolve-bits masks i = ground (
  arith,
  admin_test (or_masks 0 masks),
  test_bit-or_masks masks 0 31,
  test_bit-or_masks masks 0 i,
  test_bit-zero 31,
  test_bit-zero i,
)

-- What one overwrite, if there is one, says of bit `i`.
abbrev pub allows : Option Overwrite → ℕ → Bool
allows none i = false
allows (some ow) i = test_bit ow.allow i

abbrev pub denies : Option Overwrite → ℕ → Bool
denies none i = false
denies (some ow) i = test_bit ow.deny i

-- What the overwrite of one held role says of bit `i`, the everyone role aside.
abbrev pub role_allows : List Overwrite → ℕ → ℕ → ℕ → Bool
role_allows ows everyone i id = not (id == everyone) && allows (by_role ows id) i

abbrev pub role_denies : List Overwrite → ℕ → ℕ → ℕ → Bool
role_denies ows everyone i id = not (id == everyone) && denies (by_role ows id) i

-- The rule for one bit: an allow on any held role wins, then a deny on any held role, then the
-- allow and the deny of the everyone role, then the mask that was there.
abbrev pub granted : Permission → ℕ → List ℕ → List Overwrite → ℕ → Bool
granted base everyone ids ows i =
    any (role_allows ows everyone i) ids
    || not (any (role_denies ows everyone i) ids)
      && (allows (by_role ows everyone) i
          || not (denies (by_role ows everyone) i) && test_bit base i)

abbrev HasBits : Permission × Permission → ℕ → Bool → Bool → Type 0
HasBits r i a d = (test_bit r.0 i ≡ a) × (test_bit r.1 i ≡ d)

add_overwrite-bits :
    (o : Option Overwrite) (acc : Permission × Permission) (i : ℕ)
    → HasBits
        (add_overwrite o acc)
        i
        (test_bit acc.0 i || allows o i)
        (test_bit acc.1 i || denies o i)
unfolding add_overwrite
add_overwrite-bits none acc i = (ground arith, ground arith)
add_overwrite-bits (some ow) (a, d) i = (test_bit-or a ow.allow i, test_bit-or d ow.deny i)

module _ (ows : List Overwrite) (everyone i : ℕ) where
  role_overwrites-bits :
      (ids : List ℕ) (acc : Permission × Permission)
      → HasBits
          (role_overwrites ows everyone ids acc)
          i
          (test_bit acc.0 i || any (role_allows ows everyone i) ids)
          (test_bit acc.1 i || any (role_denies ows everyone i) ids)
  unfolding role_overwrites any
  role_overwrites-bits [] acc = (ground arith, ground arith)
  role_overwrites-bits (id ∷ rest) acc = elim (Bool-cases (id == everyone)) [
    | inl same ↦
        rw same (let ih = role_overwrites-bits rest acc in (ground (arith, ih), ground (arith, ih)))
    | inr other ↦ rw other (
        let step = add_overwrite-bits (by_role ows id) acc i in
        let ih = role_overwrites-bits rest (add_overwrite (by_role ows id) acc) in
        (ground (arith, ih, step), ground (arith, ih, step)))
  ]

apply_masks-bits :
    (base allow deny i : ℕ)
    → test_bit (apply_masks base allow deny) i
      ≡ (test_bit allow i || not (test_bit deny i) && test_bit base i)
unfolding apply_masks
apply_masks-bits base allow deny i =
    ground (arith, test_bit-or (bit_clear base deny) allow i, test_bit-clear base deny i)

apply_everyone-bits :
    (base : ℕ) (o : Option Overwrite) (i : ℕ)
    → test_bit (apply_everyone base o) i ≡ (allows o i || not (denies o i) && test_bit base i)
unfolding apply_everyone
apply_everyone-bits base none i = refl
apply_everyone-bits base (some ow) i = apply_masks-bits base ow.allow ow.deny i

-- Before its last test, the resolution follows the rule for each bit.
overwritten-bits :
    (base everyone : ℕ) (ids : List ℕ) (ows : List Overwrite) (i : ℕ)
    → test_bit (overwritten base everyone ids ows) i ≡ granted base everyone ids ows i
unfolding overwritten
overwritten-bits base everyone ids ows i =
    let masks = role_overwrites ows everyone ids (0, 0) in
    let under = apply_everyone base (by_role ows everyone) in
    let both = role_overwrites-bits ows everyone i ids (0, 0) in
    ground (
      arith,
      apply_masks-bits under masks.0 masks.1 i,
      apply_everyone-bits base (by_role ows everyone) i,
      both,
      test_bit-zero i,
    )

-- Without the administrator bit, what the rule grants, if that has the sight of the channel.
ordinary-bits :
    (base everyone : ℕ) (ids : List ℕ) (ows : List Overwrite) (i : ℕ)
    → test_bit base 31 ≡ false
    → test_bit (resolve_in_channel base everyone ids ows) i
      ≡ (granted base everyone ids ows 0 && granted base everyone ids ows i)
unfolding resolve_in_channel
ordinary-bits base everyone ids ows i h = ground (
  arith,
  admin_test base,
  bit_and_pow (overwritten base everyone ids ows) 0,
  overwritten-bits base everyone ids ows 0,
  overwritten-bits base everyone ids ows i,
  test_bit-zero i,
)

-- A holder of the administrator bit has every defined permission in every channel.
pub resolve_in_channel_admin :
    (base everyone : ℕ) (ids : List ℕ) (ows : List Overwrite)
    → test_bit base 31 ≡ true
    → resolve_in_channel base everyone ids ows ≡ all
unfolding resolve_in_channel
resolve_in_channel_admin base everyone ids ows h = ground (arith, admin_test base)

-- The effective mask in a channel, bit by bit. Whoever holds the administrator bit has every defined
-- permission, whatever the overwrites say. Anybody else has nothing at all when the rule leaves them
-- without the sight of the channel, and otherwise, for each bit, an allow on any held role, else no
-- deny on any, else the allow and the deny of the everyone role, else the mask that was there.
pub resolve_in_channel-bits :
    (base everyone : ℕ) (ids : List ℕ) (ows : List Overwrite) (i : ℕ)
    → test_bit (resolve_in_channel base everyone ids ows) i ≡ (
        if test_bit base 31
        then test_bit all i
        else granted base everyone ids ows 0 && granted base everyone ids ows i)
resolve_in_channel-bits base everyone ids ows i = elim (Bool-cases (test_bit base 31)) [
  | inl admin ↦
      rw admin (ap (λ m. test_bit m i) (resolve_in_channel_admin base everyone ids ows admin))
  | inr other ↦ rw other (ordinary-bits base everyone ids ows i other)
]

granted_same_roles :
    (base everyone : ℕ) (xs ys : List ℕ) (ows : List Overwrite) (i : ℕ)
    → ((a : ℕ) → contains xs a ≡ contains ys a)
    → granted base everyone xs ows i ≡ granted base everyone ys ows i
granted_same_roles base everyone xs ys ows i h =
    rw
      (any_same (role_allows ows everyone i) xs ys h, any_same (role_denies ows everyone i) xs ys h)

-- Two lists that hold the same roles, in any order and any number of times, resolve to the same mask
-- in a channel.
pub resolve_in_channel_same_roles :
    (base everyone : ℕ) (xs ys : List ℕ) (ows : List Overwrite)
    → ((a : ℕ) → contains xs a ≡ contains ys a)
    → resolve_in_channel base everyone xs ows ≡ resolve_in_channel base everyone ys ows
resolve_in_channel_same_roles base everyone xs ys ows h = elim (Bool-cases (test_bit base 31)) [
  | inl admin ↦
      resolve_in_channel_admin base everyone xs ows admin
      ∙ sym (resolve_in_channel_admin base everyone ys ows admin)
  | inr other ↦ bits_ext _ _ λ i.
      ordinary-bits base everyone xs ows i other
      ∙ ap₂ (λ a b. a && b) (granted_same_roles base everyone xs ys ows 0 h)
          (granted_same_roles base everyone xs ys ows i h)
      ∙ sym (ordinary-bits base everyone ys ows i other)
]
