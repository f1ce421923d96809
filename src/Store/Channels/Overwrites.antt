-- ===== src/Store/Channels/Overwrites.antt =====
-- internal/store/channels.go: what `SetOverwrites` touches.
use aural_server.Base.{ℕ, ◌≡◌, List, arith}
use aural_server.Permissions.{Overwrite}
use aural_server.Store.{Db, done}
use aural_server.Store.Channels.{set_overwrites}

-- The overwrites are rows of their own.
pub set_overwrites-same :
    (db db' : Db) (id : ℕ) (list : List Overwrite)
    → set_overwrites db id list ≡ done db'
    → (db'.channels ≡ db.channels) × (db'.next_channel_id ≡ db.next_channel_id)
unfolding set_overwrites
set_overwrites-same db db' id list e = (ground (arith, e), ground (arith, e))
