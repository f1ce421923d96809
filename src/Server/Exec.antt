-- ===== src/Server/Exec.antt =====
-- The handlers of internal/gateway as chains of steps over the server, each of which may refuse the
-- request. What was done before a refusal stays done.
use aural_server.Base.{String}
use aural_server.Protocol.{Result, ok, err, refuse, internal, not_found}
use aural_server.Store.{Outcome, done, missing, broken}
use aural_server.Server.{Server, Handler}

unfoldable pub continue : {A B : Type 0} → Result A × Server → (A → Handler B) → Result B × Server
continue (ok a, s) f = f a s
continue (err e, s) f = (err e, s)

infixl 5 ◌>>=◌ ◌>>◌
unfoldable pub ◌>>=◌ : {A B : Type 0} → Handler A → (A → Handler B) → Handler B
unfolding continue
◌>>=◌ m f s = continue (m s) f

abbrev pub ◌>>◌ : {A B : Type 0} → Handler A → Handler B → Handler B
m >> k = m >>= λ _. k

abbrev pub pure : {A : Type 0} → A → Handler A
pure a s = (ok a, s)

-- A check against the state as it stands.
abbrev pub check : {A : Type 0} → (Server → Result A) → Handler A
check f s = (f s, s)

-- A step that cannot refuse.
abbrev pub act : (Server → Server) → Handler (Unit {0})
act f s = (ok tt, f s)

-- What a failed call of the store is answered with: `ErrNotFound` by the first message, anything
-- else by `internalError`.
unfoldable pub answer : {A : Type 0} → String → String → Outcome A × Server → Result A × Server
answer absent what (done a, s) = (ok a, s)
answer absent what (missing, s) = (refuse not_found absent, s)
answer absent what (broken, s) = (refuse internal what, s)

unfoldable pub attempt : {A : Type 0} → String → String → (Server → Outcome A × Server) → Handler A
unfolding answer
attempt absent what call s = answer absent what (call s)
