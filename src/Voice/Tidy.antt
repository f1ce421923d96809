-- ===== src/Voice/Tidy.antt =====
-- internal/gateway/voice.go: what the map of rooms holds.
use aural_server.Base.{
  ℕ, ◌≡◌, refl, sym, subst, inl, inr, false, Option, none, some, List, [], ◌∷◌, ◌++◌, ◌==◌,
  if◌then◌else◌, Bool-cases, contains, IsDistinct, IsDistinct-snoc, ==_iff,
}
use aural_server.Voice.{
  Room, Rooms, is_empty, put_room, next_epoch, room_or_new, join_room, voice_attach, index_of,
  delete_at, leave_at, leave_room, voice_detach, voice_drop_room, members_of, reset_voice_room,
  forget_voice_channel,
}
use aural_server.Voice.Places.{contains-is_empty, IsDistinct-delete_at}

-- What the map of rooms holds for a channel: nothing, or the room of that channel, with somebody in
-- it and nobody twice.
abbrev pub IsTidy : ℕ → Option Room → Type 0
IsTidy channel none = Unit
IsTidy channel (some r) =
    (r.channel_id ≡ channel) × (is_empty r.members ≡ false) × IsDistinct r.members

-- The same of every channel.
pub record AreTidy (s : Rooms) : Type 0 where
  pub at : (channel : ℕ) → IsTidy channel (s.room_at channel)

put_room-AreTidy :
    (channel : ℕ) (o : Option Room) (s : Rooms)
    → AreTidy s
    → IsTidy channel o
    → AreTidy (put_room channel o s)
unfolding put_room
put_room-AreTidy channel o s h t = record {
  at = λ k. elim (Bool-cases (k == channel)) [
    | inl same ↦ rw same (subst (λ j. IsTidy j o) (sym ((==_iff k channel).0 same)) t)
    | inr other ↦ rw other (h.at k)
  ];
}

-- Who hosts in which epoch is nothing to the members.
next_epoch-AreTidy : (channel : ℕ) (s : Rooms) → AreTidy s → AreTidy (next_epoch channel s)
unfolding next_epoch
next_epoch-AreTidy channel s h = record { at = h.at }

is_empty-snoc : (xs : List ℕ) (a : ℕ) → is_empty (xs ++ a ∷ []) ≡ false
unfolding is_empty
is_empty-snoc [] a = refl
is_empty-snoc (x ∷ xs) a = refl

joined-AreTidy :
    (user channel : ℕ) (r : Room) (s : Rooms)
    → AreTidy s
    → r.channel_id ≡ channel
    → IsDistinct r.members
    → AreTidy (join_room user channel r s)
unfolding join_room
joined-AreTidy user channel r s h c d = elim (Bool-cases (contains r.members user)) [
  | inl there ↦
      rw there
        (put_room-AreTidy channel (some r) s h (c, contains-is_empty r.members user there, d))
  | inr new ↦
      let t =
        put_room-AreTidy channel (some (record r { members = r.members ++ user ∷ [] })) s h
          (c, is_empty-snoc r.members user, IsDistinct-snoc r.members user d new) in
      elim (Bool-cases (is_empty r.members)) [
        | inl first ↦ rw (new, first) (next_epoch-AreTidy channel _ t)
        | inr later ↦ rw (new, later) t
      ]
]

attach-AreTidy :
    (user channel : ℕ) (o : Option Room) (s : Rooms)
    → AreTidy s
    → IsTidy channel o
    → AreTidy (join_room user channel (room_or_new channel o) s)
unfolding room_or_new
attach-AreTidy user channel none s h t = joined-AreTidy user channel _ s h refl tt
attach-AreTidy user channel (some r) s h t = joined-AreTidy user channel r s h t.0 t.2

shrunk-IsTidy :
    (channel : ℕ) (r : Room) (rest : List ℕ)
    → r.channel_id ≡ channel
    → IsDistinct rest
    → IsTidy channel (if is_empty rest then none else some (record r { members = rest }))
unfolding is_empty
shrunk-IsTidy channel r [] c d = tt
shrunk-IsTidy channel r (m ∷ rest) c d = (c, refl, d)

left-AreTidy :
    (channel : ℕ) (r : Room) (o : Option ℕ) (s : Rooms)
    → AreTidy s
    → r.channel_id ≡ channel
    → IsDistinct r.members
    → AreTidy (leave_at channel r o s).1
unfolding leave_at
left-AreTidy channel r none s h c d = h
left-AreTidy channel r (some i) s h c d =
    let rest =
      shrunk-IsTidy channel r (delete_at r.members i) c (IsDistinct-delete_at r.members i d) in
    elim (Bool-cases (i == 0)) [
      | inl elected ↦
          rw elected (put_room-AreTidy channel _ _ (next_epoch-AreTidy channel s h) rest)
      | inr other ↦ rw other (put_room-AreTidy channel _ s h rest)
    ]

leave_room-AreTidy :
    (user channel : ℕ) (o : Option Room) (s : Rooms)
    → AreTidy s
    → IsTidy channel o
    → AreTidy (leave_room user channel o s).1
unfolding leave_room
leave_room-AreTidy user channel none s h t = h
leave_room-AreTidy user channel (some r) s h t =
    left-AreTidy channel r (index_of r.members user) s h t.0 t.2

reset-AreTidy : (channel : ℕ) (s : Rooms) → AreTidy s → AreTidy (reset_voice_room channel s).1
unfolding reset_voice_room voice_drop_room
reset-AreTidy channel s h =
    let dropped = put_room-AreTidy channel none s h tt in
    elim (Bool-cases (is_empty (members_of (s.room_at channel)))) [
      | inl nobody ↦ rw nobody dropped
      | inr somebody ↦ rw somebody (next_epoch-AreTidy channel _ dropped)
    ]

-- Where every room has somebody in it and nobody twice, so it is after somebody's media comes up in
-- a channel, after it goes down, after a channel starts over, and after one is forgotten.
pub rooms-AreTidy :
    (user channel : ℕ) (s : Rooms)
    → AreTidy s
    → AreTidy (voice_attach user channel s).1
      × AreTidy (voice_detach user channel s).1
      × AreTidy (reset_voice_room channel s).1
      × AreTidy (forget_voice_channel channel s)
unfolding voice_attach voice_detach forget_voice_channel
rooms-AreTidy user channel s h = (
  attach-AreTidy user channel (s.room_at channel) s h (h.at channel),
  leave_room-AreTidy user channel (s.room_at channel) s h (h.at channel),
  reset-AreTidy channel s h,
  record { at = (put_room-AreTidy channel none s h tt).at },
)
