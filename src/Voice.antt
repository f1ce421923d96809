-- ===== src/Voice.antt =====
-- internal/gateway/voice.go: the rooms of the audio plane. The two maps of the hub, `voiceRooms` and
-- `voiceEpochs`, are functions of the channel; an epoch that is missing reads as 0, as in Go.
pub mod Epochs
pub mod Places
pub mod Tidy
pub mod Members
mod Tests
use aural_server.Base.{
  ℕ, zero, suc, Bool, true, false, Option, none, some, List, [], ◌∷◌, ◌++◌, ◌==◌, if◌then◌else◌,
  length, contains,
}

-- `voiceRoom`.
pub record Room : Type 0 where
  pub channel_id : ℕ
  pub members : List ℕ

pub record Rooms : Type 0 where
  pub room_at : ℕ → Option Room
  pub epoch_at : ℕ → ℕ

first_of : List ℕ → ℕ
first_of [] = 0
first_of (m ∷ rest) = m

-- `host`.
unfoldable pub host : Room → ℕ
unfolding first_of
host r = first_of r.members

pub is_empty : List ℕ → Bool
is_empty [] = true
is_empty (m ∷ rest) = false

-- `voiceRooms[channel] = room`, and `delete` for `none`.
put_room : ℕ → Option Room → Rooms → Rooms
put_room channel room s = record s { room_at = λ k. if k == channel then room else s.room_at k }

-- `voiceEpochs[channel]++`.
next_epoch : ℕ → Rooms → Rooms
next_epoch channel s = record s {
  epoch_at = λ k. if k == channel then suc (s.epoch_at k) else s.epoch_at k;
}

-- The host, the epoch and the number of members that the source returns together.
pub record Seat : Type 0 where
  pub host_id : ℕ
  pub epoch : ℕ
  pub count : ℕ

seat : Option Room → ℕ → Seat
seat none epoch = record { host_id = 0; epoch = 0; count = 0 }
seat (some r) epoch = record { host_id = host r; epoch = epoch; count = length r.members }

-- `voiceRoomState`.
unfoldable pub voice_room_state : ℕ → Rooms → Seat
unfolding seat
voice_room_state channel s = seat (s.room_at channel) (s.epoch_at channel)

members_of : Option Room → List ℕ
members_of none = []
members_of (some r) = r.members

-- `voiceMembers`.
unfoldable pub voice_members : ℕ → Rooms → List ℕ
unfolding members_of
voice_members channel s = members_of (s.room_at channel)

room_or_new : ℕ → Option Room → Room
room_or_new channel none = record { channel_id = channel; members = [] }
room_or_new channel (some r) = r

-- The room with a newcomer at its end; the first to arrive is an election.
join_room : ℕ → ℕ → Room → Rooms → Rooms
unfolding put_room next_epoch is_empty
join_room user channel r s =
    if contains r.members user
    then put_room channel (some r) s
    else (let joined = put_room channel (some (record r { members = r.members ++ user ∷ [] })) s in
        if is_empty r.members then next_epoch channel joined else joined)

-- `voiceAttach`.
unfoldable pub voice_attach : ℕ → ℕ → Rooms → Seat × Rooms
unfolding join_room room_or_new
voice_attach user channel s =
    let joined = join_room user channel (room_or_new channel (s.room_at channel)) s in
    (voice_room_state channel joined, joined)

-- What `voiceDetach` reports.
pub record Departure : Type 0 where
  pub was_host : Bool
  pub remaining : List ℕ
  pub epoch : ℕ

-- `slices.Index`.
pub index_of : List ℕ → ℕ → Option ℕ
index_of [] user = none
index_of (m ∷ rest) user =
    let later = index_of rest user in
    if m == user then some 0 else elim later [ none ↦ none | some i ↦ some (suc i) ]

-- `slices.Delete` of one place.
pub delete_at : List ℕ → ℕ → List ℕ
delete_at [] i = []
delete_at (m ∷ rest) zero = rest
delete_at (m ∷ rest) (suc i) = m ∷ delete_at rest i

leave_at : ℕ → Room → Option ℕ → Rooms → Departure × Rooms
unfolding put_room next_epoch is_empty delete_at
leave_at channel r none s =
    (record { was_host = false; remaining = r.members; epoch = s.epoch_at channel }, s)
leave_at channel r (some i) s =
    let rest = delete_at r.members i in
    let elected = if i == 0 then next_epoch channel s else s in
    let left =
      put_room channel (if is_empty rest then none else some (record r { members = rest }))
        elected in
    (record { was_host = i == 0; remaining = rest; epoch = left.epoch_at channel }, left)

leave_room : ℕ → ℕ → Option Room → Rooms → Departure × Rooms
unfolding leave_at index_of
leave_room user channel none s =
    (record { was_host = false; remaining = []; epoch = s.epoch_at channel }, s)
leave_room user channel (some r) s = leave_at channel r (index_of r.members user) s

-- `voiceDetach`.
unfoldable pub voice_detach : ℕ → ℕ → Rooms → Departure × Rooms
unfolding leave_room
voice_detach user channel s = leave_room user channel (s.room_at channel) s

-- `voiceDropRoom`.
unfoldable pub voice_drop_room : ℕ → Rooms → List ℕ × Rooms
unfolding put_room members_of
voice_drop_room channel s = (members_of (s.room_at channel), put_room channel none s)

-- What `resetVoiceRoom` does to the rooms, with the members that it asks to start again.
unfoldable pub reset_voice_room : ℕ → Rooms → List ℕ × Rooms
unfolding next_epoch is_empty
reset_voice_room channel s =
    let (members, dropped) = voice_drop_room channel s in
    (members, if is_empty members then dropped else next_epoch channel dropped)

-- `forgetVoiceChannel`.
unfoldable pub forget_voice_channel : ℕ → Rooms → Rooms
unfolding put_room
forget_voice_channel channel s =
    let dropped = put_room channel none s in
    record dropped { epoch_at = λ k. if k == channel then 0 else s.epoch_at k }

-- What `resetAllVoice` does to the rooms, over the channels in the order the map yields them.
unfoldable pub reset_all_voice : List ℕ → Rooms → Rooms
reset_all_voice [] s = s
reset_all_voice (channel ∷ rest) s = reset_all_voice rest (reset_voice_room channel s).1
