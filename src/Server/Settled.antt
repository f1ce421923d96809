-- ===== src/Server/Settled.antt =====
-- internal/gateway: when the cache agrees with the table of channels after a chain of steps.
use aural_server.Base.{String, ◌≡◌, refl, ◌⊎◌, inl, inr, Bool, true, false, List, arith}
use aural_server.Protocol.{Failure, Result, ok, err, internal}
use aural_server.Store.{Db, Outcome, done, missing, broken}
use aural_server.Store.Channels.{all_channels}
use aural_server.Store.Channels.Tree.{IsTree}
use aural_server.Store.Channels.Cached.{Agrees, reload_channels-Agrees}
use aural_server.Server.{
  Server, Handler, write, next_fault, after_fault, write_rows, apply_write, read_rows,
  tree_reloaded, reload_tree, query,
}
use aural_server.Server.Exec.{◌>>=◌, check, pure, attempt, continue, answer}
use aural_server.Server.Table.{SameTable, LeavesTable}

abbrev pub InStep : Server → Type 0
InStep s = Agrees s.hub s.db.channels

-- The cache agrees with the table, or the request was answered by an internal error.
unfoldable pub Settled : {A : Type 0} → Result A × Server → Type 0
Settled p = InStep p.1 ⊎ ((e : Failure) × (p.0 ≡ err e) × (e.code ≡ internal))

pub record Settles {A : Type 0} (m : Handler A) : Type 0 where
  pub at : (s : Server) → IsTree s.db.channels → Settled (m s)

module _ {A B : Type 0} where
  pub check-settled :
      (s : Server) (g : Server → Result A) (f : A → Handler B)
      → InStep s
      → ((a : A) → g s ≡ ok a → Settled (f a s))
      → Settled ((check g >>= f) s)
  unfolding ◌>>=◌ Settled
  check-settled s g f stop next = go (g s) refl
    where
      go : (r : Result A) → g s ≡ r → Settled (continue (r, s) f)
      go (ok a) e = next a e
      go (err e') e = inl stop

  pub step-settled :
      (s : Server) (m : Handler A) (f : A → Handler B)
      → LeavesTable m
      → IsTree s.db.channels
      → InStep s
      → ((a : A) (s' : Server) → SameTable s s' → Settled (f a s'))
      → Settled ((m >>= f) s)
  unfolding ◌>>=◌ Settled
  step-settled s m f h t c next = go (m s) (h.at s)
    where
      go : (p : Result A × Server) → SameTable s p.1 → Settled (continue p f)
      go (ok a, s') k = next a s' k
      go (err e, s') k = inl (k.agrees t c)

  pub write-settled :
      (s : Server) (absent what : String) (g : Db → Outcome (Db × A)) (f : A → Handler B)
      → ((a : A) → Settles (f a))
      → InStep s
      → ((db : Db) (a : A) → g s.db ≡ done (db, a) → IsTree db.channels)
      → Settled ((attempt absent what (write g) >>= f) s)
  unfolding ◌>>=◌ attempt answer write Settled
  write-settled s absent what g f later c tree = go (next_fault s.faults)
    where
      finish :
          (rest : List Bool) (o : Outcome (Db × A))
          → g s.db ≡ o
          → Settled (continue (answer absent what (apply_write o (record s { faults = rest }))) f)
      finish rest (done (db, a)) e =
          (later a).at (record s { faults = rest; db = db }) (tree db a e)
      finish rest missing e = inl c
      finish rest broken e = inl c

      go :
          (p : Bool × List Bool)
          → Settled (continue (answer absent what (write_rows g (after_fault p s))) f)
      go (true, rest) = inl c
      go (false, rest) = finish rest (g s.db) refl

-- The state after a chain whose steps leave the table alone.
kept :
    {B : Type 0} (m : Handler B) (s : Server)
    → LeavesTable m
    → IsTree s.db.channels
    → InStep s
    → Settled (m s)
unfolding Settled
kept m s h t c = inl ((h.at s).agrees t c)

pub reload-Settles :
    {B : Type 0} (absent what : String) (f : Unit {0} → Handler B)
    → ((u : Unit {0}) → LeavesTable (f u))
    → Settles (attempt absent what reload_tree >>= f)
unfolding ◌>>=◌ attempt answer reload_tree query Settled
reload-Settles absent what f h = record { at = λ s t. go s t (next_fault s.faults) }
  where
    go :
        (s : Server)
        → IsTree s.db.channels
        → (p : Bool × List Bool)
        → Settled (
            continue
              (answer absent what
                (tree_reloaded (read_rows (λ db. done (all_channels db)) (after_fault p s))))
              f)
    go s t (true, rest) = inr (record { code = internal; message = what }, refl, refl)
    go s t (false, rest) = kept (f tt) _ (h tt) t (reload_channels-Agrees s.hub s.db t)

-- Forgetting the value of a handler.
pub Settled-then :
    {A B : Type 0} (m : Handler A) (s : Server) (b : B)
    → Settled (m s)
    → Settled ((m >>= λ _. pure b) s)
unfolding ◌>>=◌ Settled
Settled-then {A = A} {B = B} m s b h = go (m s) h
  where
    go : (p : Result A × Server) → Settled p → Settled (continue {A = A} {B = B} p (λ _. pure b))
    go (ok a, s') (inl c) = inl c
    go (ok a, s') (inr (e, k, i)) = ground (arith, k)
    go (err e, s') (inl c) = inl c
    go (err e, s') (inr (e', k, i)) = inr (e, refl, ground (arith, k, i))
