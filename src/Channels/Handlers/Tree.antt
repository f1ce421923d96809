-- ===== src/Channels/Handlers/Tree.antt =====
-- internal/gateway/handlers_channel.go: the table of channels after each handler.
use aural_server.Base.{ℕ, ◌≡◌, ap, sym, subst, ◌∙◌, Option, arith}
use aural_server.Hub.{Channel}
use aural_server.Protocol.{ok}
use aural_server.Store.{Db, Outcome, done}
use aural_server.Store.Channels.{channel_row, create_channel, update_channel}
use aural_server.Store.Channels.Tree.{fits}
use aural_server.Store.Channels.Sound.{
  IsSound, IsSound-same, create_channel-IsSound, update_channel-IsSound, delete_channel-IsSound,
}
use aural_server.Server.{Server, Session, Handler, no_value}
use aural_server.Server.Exec.{◌>>=◌, pure}
use aural_server.Server.Table.{SameTable, then-state, step-holds, check-holds, write-holds}
use aural_server.Server.Settled.{
  Settled, check-settled, step-settled, write-settled, reload-Settles, Settled-then,
}
use aural_server.Channels.{
  ChannelCreateRequest, ChannelUpdateRequest, ChannelPatch, check_channel_create,
  check_channel_update, check_channel_delete,
}
use aural_server.Store.Channels.Cached.{Agrees}
use aural_server.Channels.Checked.{check_channel_create-fits, check_channel_update-fits}
use aural_server.Channels.Handlers.{
  handle_channel_create, handle_channel_update, handle_channel_delete, ChannelRequest,
  channel_create, channel_update, channel_delete, handle_channel_request, row_of,
}
use aural_server.Channels.Handlers.Table.{table_rules}

IsSound-stable : (t t' : Server) → SameTable t t' → IsSound t.db → IsSound t'.db
IsSound-stable t t' h sound = IsSound-same h.same_rows h.same_next sound

no_value-done : (o : Outcome Db) (db : Db) (u : Unit {0}) → no_value o ≡ done (db, u) → o ≡ done db
no_value-done o db u e = ground (arith, e)

module _ (actor : Session) (s : Server) (sound : IsSound s.db) where
  create-IsSound :
      (raw : Option ChannelCreateRequest)
      → Agrees s.hub s.db.channels
      → IsSound (handle_channel_create actor raw s).1.db
  unfolding handle_channel_create
  create-IsSound raw a =
      check-holds (λ t. IsSound t.db) s (λ t. check_channel_create t.hub actor raw) _ sound
        (λ c e.
          write-holds IsSound s "" "the server failed to create the channel"
            (λ db. create_channel db c) _ IsSound-stable (search table_rules depth 14) sound
            (λ db d made.
              create_channel-IsSound s.db db c d sound
                (check_channel_create-fits s.hub s.db.channels actor raw c sound.tree a e) made))

  updated :
      (raw : Option ChannelUpdateRequest) (a : Agrees s.hub s.db.channels)
      (checked : Channel × ChannelPatch) (e : check_channel_update s.hub actor raw ≡ ok checked)
      (s' : Server) (t : SameTable s s') (db : Db) (v : Unit {0})
      → no_value (update_channel s'.db (row_of checked.1.after)) ≡ done (db, v)
      → IsSound db
  unfolding row_of
  updated raw a checked e s' t db v saved =
      let (q, row, fit) =
        check_channel_update-fits s.hub s.db.channels actor raw checked.0 checked.1 sound.tree a
          e in
      update_channel-IsSound s'.db db (row_of checked.1.after) q (IsSound-stable s s' t sound)
        (ap (λ rows. channel_row rows checked.1.after.id) t.same_rows ∙ row)
        (ap (λ rows. fits rows q.type checked.1.after.parent_id) t.same_rows ∙ fit)
        (no_value-done _ db v saved)

  update-IsSound :
      (raw : Option ChannelUpdateRequest)
      → Agrees s.hub s.db.channels
      → IsSound (handle_channel_update actor raw s).1.db
  unfolding handle_channel_update row_of
  update-IsSound raw a =
      check-holds (λ t. IsSound t.db) s (λ t. check_channel_update t.hub actor raw) _ sound
        (λ checked e.
          step-holds (λ t. IsSound t.db) s _ _ (search table_rules depth 14)
            (λ s' t. IsSound-stable s s' t sound)
            (λ u s' t.
              write-holds IsSound s' "no such channel" "the server failed to update the channel" _ _
                IsSound-stable (search table_rules depth 14) (IsSound-stable s s' t sound)
                (updated raw a checked e s' t)))

  delete-IsSound : (raw : Option ℕ) → IsSound (handle_channel_delete actor raw s).1.db
  unfolding handle_channel_delete
  delete-IsSound raw =
      check-holds (λ t. IsSound t.db) s (λ t. check_channel_delete t.hub actor raw) _ sound
        (λ existing e.
          step-holds (λ t. IsSound t.db) s _ _ (search table_rules depth 14)
            (λ s' t. IsSound-stable s s' t sound)
            (λ doomed s' t.
              step-holds (λ t. IsSound t.db) s' _ _ (search table_rules depth 14)
                (λ s'' t'. IsSound-stable s' s'' t' (IsSound-stable s s' t sound))
                (λ files s'' t'.
                  let sound' = IsSound-stable s' s'' t' (IsSound-stable s s' t sound) in
                  write-holds IsSound s'' "no such channel"
                    "the server failed to delete the channel" _ _ IsSound-stable
                    (search table_rules depth 14) sound'
                    (λ db below gone.
                      delete_channel-IsSound s''.db db existing.id below sound' gone))))

  create-Settled :
      (raw : Option ChannelCreateRequest)
      → Agrees s.hub s.db.channels
      → Settled (handle_channel_create actor raw s)
  unfolding handle_channel_create
  create-Settled raw a =
      check-settled s (λ t. check_channel_create t.hub actor raw) _ a
        (λ c e.
          write-settled s "" "the server failed to create the channel" (λ db. create_channel db c) _
            (λ d. reload-Settles _ _ _ (search table_rules depth 14)) a
            (λ db d made.
              (create_channel-IsSound s.db db c d sound
                (check_channel_create-fits s.hub s.db.channels actor raw c sound.tree a e)
                made).tree))

  update-Settled :
      (raw : Option ChannelUpdateRequest)
      → Agrees s.hub s.db.channels
      → Settled (handle_channel_update actor raw s)
  unfolding handle_channel_update row_of
  update-Settled raw a =
      check-settled s (λ t. check_channel_update t.hub actor raw) _ a
        (λ checked e. step-settled s _ _ (search table_rules depth 14) sound.tree a (λ u s' t.
          write-settled s' "no such channel" "the server failed to update the channel" _ _
            (λ d. reload-Settles _ _ _ (search table_rules depth 14)) (t.agrees sound.tree a)
            (λ db v saved. (updated raw a checked e s' t db v saved).tree)))

  delete-Settled :
      (raw : Option ℕ) → Agrees s.hub s.db.channels → Settled (handle_channel_delete actor raw s)
  unfolding handle_channel_delete
  delete-Settled raw a =
      check-settled s (λ t. check_channel_delete t.hub actor raw) _ a
        (λ existing e. step-settled s _ _ (search table_rules depth 14) sound.tree a (λ doomed s' t.
          let sound' = IsSound-stable s s' t sound in
          step-settled s' _ _ (search table_rules depth 14) sound'.tree (t.agrees sound.tree a)
            (λ files s'' t'.
              let sound'' = IsSound-stable s' s'' t' sound' in
              write-settled s'' "no such channel" "the server failed to delete the channel" _ _
                (λ d. reload-Settles _ _ _ (search table_rules depth 14))
                (t'.agrees sound'.tree (t.agrees sound.tree a))
                (λ db below gone.
                  (delete_channel-IsSound s''.db db existing.id below sound'' gone).tree))))

forget :
    {A : Type 0} (m : Handler A) (s : Server)
    → IsSound (m s).1.db
    → IsSound ((m >>= λ _. pure tt) s).1.db
forget m s h = subst IsSound (sym (ap (λ (x : Server). x.db) (then-state m s tt))) h

-- Creating, editing and deleting channels: from a server whose cache shows of every channel the kind
-- and the parent that its table has, every request, refused or not and whatever call of the store
-- fails, leaves a table of channels that is a tree of two levels, with distinct ids, and whose next id
-- is new, if the table was one before.
pub handle_channel_request-IsSound :
    (actor : Session) (req : ChannelRequest) (s : Server)
    → IsSound s.db
    → Agrees s.hub s.db.channels
    → IsSound (handle_channel_request actor req s).1.db
unfolding handle_channel_request
handle_channel_request-IsSound actor (channel_create raw) s sound a =
    forget _ s (create-IsSound actor s sound raw a)
handle_channel_request-IsSound actor (channel_update raw) s sound a =
    forget _ s (update-IsSound actor s sound raw a)
handle_channel_request-IsSound actor (channel_delete raw) s sound a =
    forget _ s (delete-IsSound actor s sound raw)

-- Creating, editing and deleting channels: from a server whose table of channels is a tree of two
-- levels with distinct ids and a new next id, and whose cache shows of every channel the kind and the
-- parent that the table has, a request that is not answered by an internal error leaves a cache that
-- shows of every channel the kind and the parent that the table then has.
pub handle_channel_request-Settled :
    (actor : Session) (req : ChannelRequest) (s : Server)
    → IsSound s.db
    → Agrees s.hub s.db.channels
    → Settled (handle_channel_request actor req s)
unfolding handle_channel_request
handle_channel_request-Settled actor (channel_create raw) s sound a =
    Settled-then _ s tt (create-Settled actor s sound raw a)
handle_channel_request-Settled actor (channel_update raw) s sound a =
    Settled-then _ s tt (update-Settled actor s sound raw a)
handle_channel_request-Settled actor (channel_delete raw) s sound a =
    Settled-then _ s tt (delete-Settled actor s sound raw a)
