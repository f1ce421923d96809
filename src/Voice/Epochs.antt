-- ===== src/Voice/Epochs.antt =====
-- internal/gateway/voice.go: the epochs of a channel against its hosts.
use aural_server.Base.{
  ℕ, zero, suc, ◌≤◌, ◌≡◌, refl, sym, ap, ==_iff, ◌∙◌, inl, inr, true, false, Option, none, some,
  List, [], ◌∷◌, ◌++◌, ◌==◌, if◌then◌else◌, arith, Bool-cases, contains,
}
use aural_server.Voice.{
  Room, Rooms, host, first_of, is_empty, put_room, next_epoch, seat, voice_room_state, room_or_new,
  join_room, voice_attach, index_of, delete_at, leave_at, leave_room, voice_detach, voice_drop_room,
  members_of, reset_voice_room, forget_voice_channel,
}

-- The host of a channel, or 0.
host_of : Option Room → ℕ
host_of none = 0
host_of (some r) = host r

-- Between two states a channel either keeps its host and its epoch, or moves on to a later epoch.
record Moves (k : ℕ) (s t : Rooms) : Type 0 where
  later : s.epoch_at k ≤ t.epoch_at k
  same : s.epoch_at k ≡ t.epoch_at k → host_of (s.room_at k) ≡ host_of (t.room_at k)

Moves-refl : (k : ℕ) (s : Rooms) → Moves k s s
Moves-refl k s = record { later = omega arith; same = λ e. refl }

Moves-trans : (k : ℕ) (s t u : Rooms) → Moves k s t → Moves k t u → Moves k s u
Moves-trans k s t u a b = record {
  later = omega (arith, a.later, b.later);
  same = λ e. a.same (omega (arith, a.later, b.later)) ∙ b.same (omega (arith, a.later, b.later));
}

-- A room that changes without a change of host.
put_room-Moves :
    (channel k : ℕ) (room : Option Room) (s : Rooms)
    → host_of (s.room_at channel) ≡ host_of room
    → Moves k s (put_room channel room s)
unfolding put_room
put_room-Moves channel k room s h = elim (Bool-cases (k == channel)) [
  | inl here ↦ record {
    later = ground arith;
    same =
        λ e. ground (arith, here, h, ap (λ j. host_of (s.room_at j)) ((==_iff k channel).0 here));
  }
  | inr there ↦ record { later = ground arith; same = λ e. ground (arith, there) }
]

-- An election, whoever is elected.
elected-Moves :
    (channel k : ℕ) (room : Option Room) (s : Rooms)
    → Moves k s (next_epoch channel (put_room channel room s))
unfolding put_room next_epoch
elected-Moves channel k room s = elim (Bool-cases (k == channel)) [
  | inl here ↦ record { later = ground (arith, here); same = λ e. ground (arith, here, e) }
  | inr there ↦ record { later = ground (arith, there); same = λ e. ground (arith, there) }
]

first_of-snoc : (xs : List ℕ) (a : ℕ) → is_empty xs ≡ false → first_of (xs ++ a ∷ []) ≡ first_of xs
unfolding is_empty first_of
first_of-snoc [] a h = cc
first_of-snoc (x ∷ xs) a h = refl

joined-Moves :
    (user channel k : ℕ) (o : Option Room) (s : Rooms)
    → s.room_at channel ≡ o
    → Moves k s (join_room user channel (room_or_new channel o) s)
unfolding join_room room_or_new is_empty host first_of contains host_of
joined-Moves user channel k none s h = elected-Moves channel k _ s
joined-Moves user channel k (some r) s h = elim (Bool-cases (contains r.members user)) [
  | inl there ↦ rw there (put_room-Moves channel k (some r) s (ap host_of h))
  | inr new ↦ elim (Bool-cases (is_empty r.members)) [
    | inl first ↦ rw (new, first) (elected-Moves channel k _ s)
    | inr later ↦
        rw (new, later)
          (put_room-Moves channel k _ s (ap host_of h ∙ sym (first_of-snoc r.members user later)))
  ]
]

first_of-delete_at : (xs : List ℕ) (i : ℕ) → first_of (delete_at xs (suc i)) ≡ first_of xs
unfolding delete_at first_of
first_of-delete_at [] i = refl
first_of-delete_at (x ∷ xs) i = refl

host_of-kept :
    (r : Room) (rest : List ℕ)
    → first_of rest ≡ first_of r.members
    → host_of (if is_empty rest then none else some (record r { members = rest })) ≡ host r
unfolding host first_of is_empty host_of
host_of-kept r [] h = h
host_of-kept r (m ∷ rest) h = h

left-Moves :
    (channel k : ℕ) (r : Room) (o : Option ℕ) (s : Rooms)
    → s.room_at channel ≡ some r
    → Moves k s (leave_at channel r o s).1
unfolding leave_at host_of
left-Moves channel k r none s h = Moves-refl k s
left-Moves channel k r (some zero) s h = elected-Moves channel k _ s
left-Moves channel k r (some (suc i)) s h =
    let later : (suc i == 0) ≡ false = ground arith in
    rw later (
      put_room-Moves channel k _ s (
        ap host_of h
        ∙ sym (host_of-kept r (delete_at r.members (suc i)) (first_of-delete_at r.members i))))

leave_room-Moves :
    (user channel k : ℕ) (o : Option Room) (s : Rooms)
    → s.room_at channel ≡ o
    → Moves k s (leave_room user channel o s).1
unfolding leave_room
leave_room-Moves user channel k none s h = Moves-refl k s
leave_room-Moves user channel k (some r) s h = left-Moves channel k r (index_of r.members user) s h

host_of-empty : (o : Option Room) → is_empty (members_of o) ≡ true → host_of o ≡ 0
unfolding members_of host first_of is_empty host_of
host_of-empty none h = refl
host_of-empty (some r) h = empty r.members h
  where
    empty : (xs : List ℕ) → is_empty xs ≡ true → first_of xs ≡ 0
    empty [] h = refl
    empty (x ∷ xs) h = cc

reset-Moves : (channel k : ℕ) (s : Rooms) → Moves k s (reset_voice_room channel s).1
unfolding reset_voice_room voice_drop_room host_of
reset-Moves channel k s = elim (Bool-cases (is_empty (members_of (s.room_at channel)))) [
  | inl nobody ↦
      rw nobody (put_room-Moves channel k none s (host_of-empty (s.room_at channel) nobody))
  | inr somebody ↦ rw somebody (elected-Moves channel k none s)
]

-- One change of the rooms that does not delete the channel `k`: deleting a channel is what forgets
-- its epoch.
pub data Step (k : ℕ) (s : Rooms) : Rooms → Type 0 where
  attach : (user channel : ℕ) → Step k s (voice_attach user channel s).1
  detach : (user channel : ℕ) → Step k s (voice_detach user channel s).1
  reset : (channel : ℕ) → Step k s (reset_voice_room channel s).1
  forget : (channel : ℕ) → (channel == k) ≡ false → Step k s (forget_voice_channel channel s)

-- Any number of changes in a row.
pub data Run (k : ℕ) (s : Rooms) : Rooms → Type 0 where
  still : Run k s s
  step : {t u : Rooms} → Run k s t → Step k t u → Run k s u

Step-Moves : (k : ℕ) {s t : Rooms} → Step k s t → Moves k s t
unfolding voice_attach voice_detach forget_voice_channel put_room host_of
Step-Moves k {s = s} (attach user channel) = joined-Moves user channel k (s.room_at channel) s refl
Step-Moves k {s = s} (detach user channel) =
    leave_room-Moves user channel k (s.room_at channel) s refl
Step-Moves k {s = s} (reset channel) = reset-Moves channel k s
Step-Moves k {s = s} (forget channel other) =
    let apart : (k == channel) ≡ false = ground (arith, other) in
    record { later = ground (arith, apart); same = λ e. ground (arith, apart) }

Run-Moves : (k : ℕ) {s t : Rooms} → Run k s t → Moves k s t
Run-Moves k {s = s} still = Moves-refl k s
Run-Moves k (step before last) = Moves-trans k _ _ _ (Run-Moves k before) (Step-Moves k last)

-- However the rooms change, as long as a channel is not deleted, its epoch never goes back.
pub run-epoch : (k : ℕ) (s t : Rooms) → Run k s t → s.epoch_at k ≤ t.epoch_at k
run-epoch k s t changes = (Run-Moves k changes).later

host_id-host_of : (k : ℕ) (s : Rooms) → (voice_room_state k s).host_id ≡ host_of (s.room_at k)
unfolding voice_room_state seat host_of
host_id-host_of k s = go (s.room_at k)
  where
    go : (o : Option Room) → (seat o (s.epoch_at k)).host_id ≡ host_of o
    go none = refl
    go (some r) = refl

-- However the rooms change, as long as a channel is not deleted: when its epoch is the same at the
-- end, so is its host. A client that sees the epoch it knows is talking to the host it knows.
pub run-host :
    (k : ℕ) (s t : Rooms)
    → Run k s t
    → s.epoch_at k ≡ t.epoch_at k
    → (voice_room_state k s).host_id ≡ (voice_room_state k t).host_id
run-host k s t changes e =
    host_id-host_of k s ∙ (Run-Moves k changes).same e ∙ sym (host_id-host_of k t)
