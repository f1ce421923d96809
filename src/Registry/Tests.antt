-- ===== src/Registry/Tests.antt =====
-- Tests of internal/gateway/hub.go as it is modelled in `Registry`.
use aural_server.Base.{◌≤◌, ◌≡◌, refl, some, [], ◌∷◌, arith, length, contains}
use aural_server.Registry.{Connection, Registry, add, remove, drop_user}
use aural_server.Registry.Consistent.{IsConsistent, ids_of, users_of}
use aural_server.Registry.Capacity.{add-IsConsistent}
use aural_server.Registry.Removal.{remove-IsConsistent}

abbrev old : Connection
old = record { id = 1; user_id = 5 }

-- The same identity, connected again.
abbrev again : Connection
again = record { id = 2; user_id = 5 }

abbrev only_old : Registry
only_old = record { sessions = old ∷ []; by_user = old ∷ [] }

only_old-IsConsistent : IsConsistent only_old
unfolding ids_of users_of contains
only_old-IsConsistent = record { same = refl; ids = (refl, tt); users = (refl, tt) }

-- A server that is full lets it in, and closes the old session.
displaces : (add 1 again only_old).0.displaced ≡ some old
unfolding add
displaces = refl

add-IsConsistent_example :
    IsConsistent (add 1 again only_old).1 × (length (add 1 again only_old).1.sessions ≤ 1)
unfolding ids_of drop_user contains
add-IsConsistent_example =
    add-IsConsistent 1 again only_old only_old-IsConsistent refl (omega arith)

remove-IsConsistent_example : IsConsistent (remove old only_old)
unfolding ids_of drop_user contains
remove-IsConsistent_example = remove-IsConsistent old only_old only_old-IsConsistent refl
