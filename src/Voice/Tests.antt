-- ===== src/Voice/Tests.antt =====
-- Tests of internal/gateway/voice.go as it is modelled in `Voice`.
use aural_server.Base.{
  ◌≡◌, refl, ◌==◌, none, some, [], ◌∷◌, contains, if◌then◌else◌, Bool-cases, ==_iff, sym, inl, inr,
}
use aural_server.Voice.{
  Rooms, host, is_empty, voice_drop_room, voice_room_state, voice_members, voice_attach,
  voice_detach, reset_voice_room, forget_voice_channel,
}
use aural_server.Voice.Epochs.{Run, still, step, attach, detach, run-host}
use aural_server.Voice.Tidy.{AreTidy, rooms-AreTidy}

-- No rooms yet.
abbrev quiet : Rooms
quiet = record { room_at = λ k. none; epoch_at = λ k. 0 }

abbrev one_room : Rooms
one_room = record {
  room_at = λ k. if k == 7 then some (record { channel_id = 7; members = 1 ∷ 2 ∷ [] }) else none;
  epoch_at = λ k. 4;
}

second_arrives : voice_members 7 (voice_attach 3 7 one_room).1 ≡ 1 ∷ 2 ∷ 3 ∷ []
unfolding voice_members voice_attach contains
second_arrives = refl

host_leaves : (voice_room_state 7 (voice_detach 1 7 one_room).1).host_id ≡ 2
unfolding voice_room_state voice_detach host
host_leaves = refl

all_leave : (voice_room_state 7 (reset_voice_room 7 one_room).1).count ≡ 0
unfolding voice_room_state reset_voice_room voice_drop_room
all_leave = refl

one_room-AreTidy : AreTidy one_room
unfolding contains is_empty
one_room-AreTidy = record {
  at = λ k. elim (Bool-cases (k == 7)) [
    | inl same ↦ rw same (sym ((==_iff k 7).0 same), refl, (refl, (refl, tt)))
    | inr other ↦ rw other tt
  ];
}

rooms-AreTidy_example :
    AreTidy (voice_attach 3 7 one_room).1
    × AreTidy (voice_detach 3 7 one_room).1
    × AreTidy (reset_voice_room 7 one_room).1
    × AreTidy (forget_voice_channel 7 one_room)
rooms-AreTidy_example = rooms-AreTidy 3 7 one_room one_room-AreTidy

-- The third member comes and the second goes.
abbrev coming_and_going : Run 7 one_room (voice_detach 2 7 (voice_attach 3 7 one_room).1).1
coming_and_going = step (step still (attach 3 7)) (detach 2 7)

run-host_example :
    (voice_room_state 7 one_room).host_id
    ≡ (voice_room_state 7 (voice_detach 2 7 (voice_attach 3 7 one_room).1).1).host_id
unfolding voice_detach voice_attach contains
run-host_example =
    run-host 7 one_room (voice_detach 2 7 (voice_attach 3 7 one_room).1).1 coming_and_going refl
