-- ===== src/Server/Keeps.antt =====
-- Handlers of internal/gateway that leave the database alone when they refuse: a predicate, with a
-- rule for each way to build a handler.
use aural_server.Base.{String, ◌≡◌, refl, ◌≢◌, Bool, true, false, arith, List}
use aural_server.Protocol.{Failure, Result, ok, err, internal}
use aural_server.Store.{Db, Outcome, done, missing, broken, all_roles}
use aural_server.Server.{
  Server, Handler, write, query, reload, next_fault, after_fault, write_rows, apply_write,
  read_rows, reloaded,
}
use aural_server.Server.Exec.{◌>>=◌, check, act, pure, attempt, continue, answer}

-- A refusal that is not an internal error has written nothing.
pub record Atomic {A : Type 0} (m : Handler A) : Type 0 where
  pub at : (s : Server) (e : Failure) → (m s).0 ≡ err e → e.code ≢ internal → (m s).1.db ≡ s.db

-- Past the write: the only refusal left is an internal error.
pub record IsCommitted {A : Type 0} (m : Handler A) : Type 0 where
  pub at : (s : Server) (e : Failure) → (m s).0 ≡ err e → e.code ≡ internal

module _ {A B : Type 0} where
  continue-IsCommitted :
      (f : A → Handler B) (p : Result A × Server) (e : Failure)
      → ((a : A) → IsCommitted (f a))
      → (p.0 ≡ err e → e.code ≡ internal)
      → (continue p f).0 ≡ err e
      → e.code ≡ internal
  unfolding continue
  continue-IsCommitted f (ok a, s) e k h q = (k a).at s e q
  continue-IsCommitted f (err e', s) e k h q = h (ground (arith, q))

  pub IsCommitted-bind :
      (m : Handler A) (f : A → Handler B)
      → IsCommitted m
      → ((a : A) → IsCommitted (f a))
      → IsCommitted (m >>= f)
  unfolding ◌>>=◌
  IsCommitted-bind m f h k = record { at = λ s e q. continue-IsCommitted f (m s) e k (h.at s e) q }

  -- A check in front changes nothing.
  pub Atomic-check :
      (g : Server → Result A) (f : A → Handler B)
      → ((a : A) → Atomic (f a))
      → Atomic (check g >>= f)
  unfolding ◌>>=◌
  Atomic-check g f k = record { at = λ s e q n. go s (g s) e q n }
    where
      go :
          (s : Server) (r : Result A) (e : Failure)
          → (continue (r, s) f).0 ≡ err e
          → e.code ≢ internal
          → (continue (r, s) f).1.db ≡ s.db
      go s (ok a) e q n = (k a).at s e q n
      go s (err e') e q n = refl

  -- A write that fails has written nothing; after it, only internal errors are left.
  pub Atomic-write :
      (absent what : String) (g : Db → Outcome (Db × A)) (f : A → Handler B)
      → ((a : A) → IsCommitted (f a))
      → Atomic (attempt absent what (write g) >>= f)
  unfolding ◌>>=◌ attempt answer write
  Atomic-write absent what g f k = record { at = λ s e q n. go s (next_fault s.faults) e q n }
    where
      finish :
          (s : Server) (o : Outcome (Db × A)) (e : Failure)
          → (continue (answer absent what (apply_write o s)) f).0 ≡ err e
          → e.code ≢ internal
          → (continue (answer absent what (apply_write o s)) f).1.db ≡ s.db
      finish s (done (db, a)) e q n = absurd (n ((k a).at (record s { db = db }) e q))
      finish s missing e q n = refl
      finish s broken e q n = refl

      go :
          (s : Server) (p : Bool × List Bool) (e : Failure)
          → (continue (answer absent what (write_rows g (after_fault p s))) f).0 ≡ err e
          → e.code ≢ internal
          → (continue (answer absent what (write_rows g (after_fault p s))) f).1.db ≡ s.db
      go s (true, rest) e q n = refl
      go s (false, rest) e q n = finish (record s { faults = rest }) (g s.db) e q n

-- Forgetting the value of a handler.
pub Atomic-then : {A B : Type 0} (m : Handler A) (b : B) → Atomic m → Atomic (m >>= λ _. pure b)
unfolding ◌>>=◌
Atomic-then {A = A} {B = B} m b h = record { at = λ s e q n. go (m s) s e q n (h.at s e) }
  where
    go :
        (p : Result A × Server) (s : Server) (e : Failure)
        → (continue {A = A} {B = B} p (λ _. pure b)).0 ≡ err e
        → e.code ≢ internal
        → (p.0 ≡ err e → e.code ≢ internal → p.1.db ≡ s.db)
        → (continue {A = A} {B = B} p (λ _. pure b)).1.db ≡ s.db
    go (ok a, s') s e q n k = cc
    go (err e', s') s e q n k = k (ground (arith, q)) n

pub IsCommitted-act : (f : Server → Server) → IsCommitted (act f)
IsCommitted-act f = record { at = λ s e q. cc }

pub IsCommitted-pure : {A : Type 0} (a : A) → IsCommitted (pure a)
IsCommitted-pure a = record { at = λ s e q. cc }

pub IsCommitted-view : {A : Type 0} (f : Server → A) → IsCommitted (check (λ s. ok (f s)))
IsCommitted-view f = record { at = λ s e q. cc }

pub IsCommitted-reload : (absent what : String) → IsCommitted (attempt absent what reload)
unfolding attempt answer reload query
IsCommitted-reload absent what = record { at = λ s e q. go s (next_fault s.faults) e q }
  where
    go :
        (s : Server) (p : Bool × List Bool) (e : Failure)
        → (answer absent what
            (reloaded (read_rows (λ db. done (all_roles db)) (after_fault p s)))).0
          ≡ err e
        → e.code ≡ internal
    go s (true, rest) e q = ground (arith, q)
    go s (false, rest) e q = cc

pub ruleset atomic_rules = (
  Atomic-check, Atomic-write, IsCommitted-bind, IsCommitted-act, IsCommitted-pure, IsCommitted-view,
  IsCommitted-reload,
)
