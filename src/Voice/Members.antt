-- ===== src/Voice/Members.antt =====
-- internal/gateway/voice.go: the members of a room, after `voiceAttach` and after `voiceDetach`.
use aural_server.Base.{
  ℕ, ◌≡◌, refl, ap, ◌∙◌, inl, inr, not, ◌&&◌, ◌||◌, Option, none, some, List, [], ◌∷◌, ◌++◌, ◌==◌,
  if◌then◌else◌, arith, Bool-cases, contains, IsDistinct, contains-append, ==_iff, ==_refl,
}
use aural_server.Voice.{
  Room, Rooms, is_empty, put_room, next_epoch, room_or_new, join_room, voice_attach, index_of,
  delete_at, leave_at, leave_room, voice_detach, members_of, voice_members,
}
use aural_server.Voice.Places.{index_of-none, contains-delete_at}
use aural_server.Voice.Tidy.{IsTidy, AreTidy}

module _ (user channel : ℕ) where
  joined_members :
      (r : Room) (s : Rooms)
      → members_of ((join_room user channel r s).room_at channel)
        ≡ (if contains r.members user then r.members else r.members ++ user ∷ [])
  unfolding join_room put_room next_epoch members_of
  joined_members r s = elim (Bool-cases (contains r.members user)) [
    | inl there ↦ rw (there, ==_refl channel) refl
    | inr new ↦ elim (Bool-cases (is_empty r.members)) [
      | inl first ↦ rw (new, first, ==_refl channel) refl
      | inr later ↦ rw (new, later, ==_refl channel) refl
    ]
  ]

  newcomer :
      (xs : List ℕ) (v : ℕ)
      → contains (if contains xs user then xs else xs ++ user ∷ []) v ≡ (contains xs v || user == v)
  unfolding contains
  newcomer xs v = elim (Bool-cases (contains xs user)) [
    | inl there ↦ elim (Bool-cases (user == v)) [
      | inl same ↦ ground (arith, there, same, ap (contains xs) ((==_iff user v).0 same))
      | inr other ↦ ground (arith, there, other)
    ]
    | inr new ↦ rw new (contains-append xs (user ∷ []) v ∙ tail xs v)
  ]
    where
      tail :
          (xs : List ℕ) (v : ℕ)
          → (contains xs v || contains (user ∷ []) v) ≡ (contains xs v || user == v)
      tail xs v = ground arith

  members_of-room_or_new : (o : Option Room) → (room_or_new channel o).members ≡ members_of o
  unfolding room_or_new members_of
  members_of-room_or_new none = refl
  members_of-room_or_new (some r) = refl

-- Once somebody's media is up in a channel, its members are those it had and that user.
pub voice_members-attach :
    (user channel v : ℕ) (s : Rooms)
    → contains (voice_members channel (voice_attach user channel s).1) v
      ≡ (contains (voice_members channel s) v || user == v)
unfolding voice_members voice_attach
voice_members-attach user channel v s =
    let r = room_or_new channel (s.room_at channel) in
    ap (λ xs. contains xs v) (joined_members user channel r s)
    ∙ newcomer user channel r.members v
    ∙ ap (λ xs. contains xs v || user == v)
        (members_of-room_or_new user channel (s.room_at channel))

module _ (user channel v : ℕ) where
  left_members :
      (r : Room) (o : Option ℕ) (s : Rooms)
      → s.room_at channel ≡ some r
      → members_of ((leave_at channel r o s).1.room_at channel)
        ≡ (leave_at channel r o s).0.remaining
  unfolding leave_at put_room next_epoch members_of is_empty
  left_members r none s h = ap members_of h
  left_members r (some i) s h = elim (Bool-cases (i == 0)) [
    | inl elected ↦ rw (elected, ==_refl channel) (shrunk r (delete_at r.members i))
    | inr other ↦ rw (other, ==_refl channel) (shrunk r (delete_at r.members i))
  ]
    where
      shrunk :
          (r : Room) (rest : List ℕ)
          → members_of (if is_empty rest then none else some (record r { members = rest })) ≡ rest
      shrunk r [] = refl
      shrunk r (m ∷ rest) = refl

  left_remaining :
      (r : Room) (o : Option ℕ) (s : Rooms)
      → index_of r.members user ≡ o
      → IsDistinct r.members
      → contains (leave_at channel r o s).0.remaining v ≡ (contains r.members v && not (v == user))
  unfolding leave_at
  left_remaining r none s h d = elim (Bool-cases (v == user)) [
    | inl same ↦ ground (
      arith,
      same,
      index_of-none r.members user h,
      ap (contains r.members) ((==_iff v user).0 same),
    )
    | inr other ↦ ground (arith, other)
  ]
  left_remaining r (some i) s h d = contains-delete_at r.members i user v d h

  left_lem :
      (o : Option Room) (s : Rooms)
      → s.room_at channel ≡ o
      → IsTidy channel o
      → (members_of ((leave_room user channel o s).1.room_at channel)
          ≡ (leave_room user channel o s).0.remaining)
        × (contains (leave_room user channel o s).0.remaining v
            ≡ (contains (members_of o) v && not (v == user)))
  unfolding leave_room members_of contains
  left_lem none s h t = (ap members_of h, refl)
  left_lem (some r) s h t = (
    left_members r (index_of r.members user) s h,
    left_remaining r (index_of r.members user) s refl t.2,
  )

-- In tidy rooms, once somebody's media is down in a channel, the members that are reported are those
-- of the channel, and they are those it had without that user.
pub voice_members-detach :
    (user channel v : ℕ) (s : Rooms)
    → AreTidy s
    → (voice_members channel (voice_detach user channel s).1
        ≡ (voice_detach user channel s).0.remaining)
      × (contains (voice_members channel (voice_detach user channel s).1) v
          ≡ (contains (voice_members channel s) v && not (v == user)))
unfolding voice_members voice_detach
voice_members-detach user channel v s h =
    let (reported, left) = left_lem user channel v (s.room_at channel) s refl (h.at channel) in
    (reported, ap (λ xs. contains xs v) reported ∙ left)
