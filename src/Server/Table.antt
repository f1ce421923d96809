-- ===== src/Server/Table.antt =====
-- Steps of the handlers of internal/gateway that leave the table of channels alone: a predicate, with
-- a rule for each way to build a handler.
use aural_server.Base.{String, ◌≡◌, refl, sym, subst, ◌∙◌, Bool, true, false, some, List}
use aural_server.Protocol.{Result, ok, err}
use aural_server.Store.{Db, AuditEntry, Outcome, done, missing, broken, record_audit}
use aural_server.Store.Channels.Tree.{IsTree}
use aural_server.Store.Channels.{all_channels}
use aural_server.Store.Channels.Cached.{Agrees, reload_channels-Agrees}
use aural_server.Server.{
  Server, Session, Handler, Event, write, query, next_fault, after_fault, write_rows, apply_write,
  read_rows, tree_reloaded, reload_tree, audit, recorded, broadcast, broadcast_to,
}
use aural_server.Server.Exec.{◌>>=◌, check, act, pure, attempt, continue, answer}

-- The table of channels and its sequence, as they were; and the cache agrees with the table if it did.
pub record SameTable (s s' : Server) : Type 0 where
  pub same_rows : s'.db.channels ≡ s.db.channels
  pub same_next : s'.db.next_channel_id ≡ s.db.next_channel_id
  pub agrees : IsTree s.db.channels → Agrees s.hub s.db.channels → Agrees s'.hub s'.db.channels

pub SameTable-refl : (s : Server) → SameTable s s
SameTable-refl s = record { same_rows = refl; same_next = refl; agrees = λ t a. a }

pub SameTable-trans : {s t u : Server} → SameTable s t → SameTable t u → SameTable s u
SameTable-trans h k = record {
  same_rows = k.same_rows ∙ h.same_rows;
  same_next = k.same_next ∙ h.same_next;
  agrees = λ t a. k.agrees (subst IsTree (sym h.same_rows) t) (h.agrees t a);
}

pub record LeavesTable {A : Type 0} (m : Handler A) : Type 0 where
  pub at : (s : Server) → SameTable s (m s).1

module _ {A B : Type 0} where
  continue-SameTable :
      (f : A → Handler B) (p : Result A × Server) (s : Server)
      → ((a : A) → LeavesTable (f a))
      → SameTable s p.1
      → SameTable s (continue p f).1
  unfolding continue
  continue-SameTable f (ok a, s') s k h = SameTable-trans h ((k a).at s')
  continue-SameTable f (err e, s') s k h = h

  pub LeavesTable-bind :
      (m : Handler A) (f : A → Handler B)
      → LeavesTable m
      → ((a : A) → LeavesTable (f a))
      → LeavesTable (m >>= f)
  unfolding ◌>>=◌
  LeavesTable-bind m f h k = record { at = λ s. continue-SameTable f (m s) s k (h.at s) }

pub LeavesTable-check : {A : Type 0} (g : Server → Result A) → LeavesTable (check g)
LeavesTable-check g = record { at = λ s. SameTable-refl s }

pub LeavesTable-pure : {A : Type 0} (a : A) → LeavesTable (pure a)
LeavesTable-pure a = record { at = λ s. SameTable-refl s }

pub record Leaves (f : Server → Server) : Type 0 where
  pub at : (s : Server) → SameTable s (f s)

pub LeavesTable-act : (f : Server → Server) → Leaves f → LeavesTable (act f)
LeavesTable-act f h = record { at = λ s. h.at s }

answer-same :
    {A : Type 0} (absent what : String) (p : Outcome A × Server) → (answer absent what p).1 ≡ p.1
unfolding answer
answer-same absent what (done a, s) = refl
answer-same absent what (missing, s) = refl
answer-same absent what (broken, s) = refl

pub record LeavesCall {A : Type 0} (f : Server → Outcome A × Server) : Type 0 where
  pub at : (s : Server) → SameTable s (f s).1

pub LeavesTable-attempt :
    {A : Type 0} (absent what : String) (f : Server → Outcome A × Server)
    → LeavesCall f
    → LeavesTable (attempt absent what f)
unfolding attempt
LeavesTable-attempt absent what f h = record {
  at = λ s. subst (SameTable s) (sym (answer-same absent what (f s))) (h.at s);
}

pub query-SameTable : {A : Type 0} (g : Db → Outcome A) (s : Server) → SameTable s (query g s).1
unfolding query
query-SameTable g s = go (next_fault s.faults)
  where
    go : (p : Bool × List Bool) → SameTable s (read_rows g (after_fault p s)).1
    go (true, rest) = record { same_rows = refl; same_next = refl; agrees = λ t a. a }
    go (false, rest) = record { same_rows = refl; same_next = refl; agrees = λ t a. a }

pub LeavesCall-query : {A : Type 0} (g : Db → Outcome A) → LeavesCall (query g)
LeavesCall-query g = record { at = query-SameTable g }

pub Leaves-broadcast_to : (e : Event) (want : Session → Bool) → Leaves (broadcast_to e want)
unfolding broadcast_to
Leaves-broadcast_to e want = record {
  at = λ s. record { same_rows = refl; same_next = refl; agrees = λ t a. a };
}

pub Leaves-broadcast : (e : Event) → Leaves (broadcast e)
unfolding broadcast
Leaves-broadcast e = Leaves-broadcast_to e (λ _. true)

pub Leaves-audit : (actor : Session) (e : AuditEntry) → Leaves (audit actor e)
unfolding audit write record_audit
Leaves-audit actor e = record { at = λ s. go s (next_fault s.faults) }
  where
    go :
        (s : Server) (p : Bool × List Bool)
        → SameTable s (
            recorded
              (record e { actor_id = some actor.user.id; actor_name = actor.user.nickname })
              (write_rows
                (λ db. done (
                  record_audit db (record e {
                    actor_id = some actor.user.id;
                    actor_name = actor.user.nickname;
                  }),
                  tt,
                ))
                (after_fault p s)))
    go s (true, rest) = record { same_rows = refl; same_next = refl; agrees = λ t a. a }
    go s (false, rest) = record { same_rows = refl; same_next = refl; agrees = λ t a. a }

-- A write that keeps the table when it succeeds.
pub LeavesCall-write :
    {A : Type 0} (g : Db → Outcome (Db × A))
    → ((db db' : Db) (a : A)
        → g db ≡ done (db', a)
        → (db'.channels ≡ db.channels) × (db'.next_channel_id ≡ db.next_channel_id))
    → LeavesCall (write g)
unfolding write
LeavesCall-write {A = A} g k = record { at = λ s. go s (next_fault s.faults) }
  where
    finish : (s : Server) (o : Outcome (Db × A)) → g s.db ≡ o → SameTable s (apply_write o s).1
    finish s (done (db, a)) e = record {
      same_rows = (k s.db db a e).0;
      same_next = (k s.db db a e).1;
      agrees = λ t c. subst (Agrees s.hub) (sym (k s.db db a e).0) c;
    }
    finish s missing e = SameTable-refl s
    finish s broken e = SameTable-refl s

    go : (s : Server) (p : Bool × List Bool) → SameTable s (write_rows g (after_fault p s)).1
    go s (true, rest) = record { same_rows = refl; same_next = refl; agrees = λ t a. a }
    go s (false, rest) =
        SameTable-trans (record { same_rows = refl; same_next = refl; agrees = λ t a. a })
          (finish (record s { faults = rest }) (g s.db) refl)

module _ {A B : Type 0} (P : Server → Type 0) (s : Server) where
  -- What holds after a chain whose first step leaves the table alone.
  pub step-holds :
      (m : Handler A) (f : A → Handler B)
      → LeavesTable m
      → ((s' : Server) → SameTable s s' → P s')
      → ((a : A) (s' : Server) → SameTable s s' → P (f a s').1)
      → P ((m >>= f) s).1
  unfolding ◌>>=◌
  step-holds m f h stop next = go (m s) (h.at s)
    where
      go : (p : Result A × Server) → SameTable s p.1 → P (continue p f).1
      go (ok a, s') t = next a s' t
      go (err e, s') t = stop s' t

  -- The same for a check, which changes nothing.
  pub check-holds :
      (g : Server → Result A) (f : A → Handler B)
      → P s
      → ((a : A) → g s ≡ ok a → P (f a s).1)
      → P ((check g >>= f) s).1
  unfolding ◌>>=◌
  check-holds g f stop next = go (g s) refl
    where
      go : (r : Result A) → g s ≡ r → P (continue (r, s) f).1
      go (ok a) e = next a e
      go (err e') e = stop

-- What a table keeps, when a write and all that comes after it does.
pub write-holds :
    {A B : Type 0} (P : Db → Type 0) (s : Server) (absent what : String) (g : Db → Outcome (Db × A))
    (f : A → Handler B)
    → ((t t' : Server) → SameTable t t' → P t.db → P t'.db)
    → ((a : A) → LeavesTable (f a))
    → P s.db
    → ((db : Db) (a : A) → g s.db ≡ done (db, a) → P db)
    → P ((attempt absent what (write g) >>= f) s).1.db
unfolding ◌>>=◌ attempt answer write
write-holds {A = A} P s absent what g f stable later before now = go (next_fault s.faults)
  where
    finish :
        (s' : Server) (o : Outcome (Db × A))
        → g s.db ≡ o
        → s'.db ≡ s.db
        → P (continue (answer absent what (apply_write o s')) f).1.db
    finish s' (done (db, a)) e d = stable _ _ ((later a).at (record s' { db = db })) (now db a e)
    finish s' missing e d = subst P (sym d) before
    finish s' broken e d = subst P (sym d) before

    go :
        (p : Bool × List Bool)
        → P (continue (answer absent what (write_rows g (after_fault p s))) f).1.db
    go (true, rest) = before
    go (false, rest) = finish (record s { faults = rest }) (g s.db) refl refl

-- Forgetting the value of a handler leaves the state.
pub then-state :
    {A B : Type 0} (m : Handler A) (s : Server) (b : B) → ((m >>= λ _. pure b) s).1 ≡ (m s).1
unfolding ◌>>=◌
then-state {A = A} {B = B} m s b = go (m s)
  where
    go : (p : Result A × Server) → (continue {A = A} {B = B} p (λ _. pure b)).1 ≡ p.1
    go (ok a, s') = refl
    go (err e, s') = refl

-- A read of the table that succeeds makes the cache agree with it; one that fails leaves the cache.
reloaded-SameTable :
    (s : Server) (p : Bool × List Bool)
    → SameTable s (tree_reloaded (read_rows (λ db. done (all_channels db)) (after_fault p s))).1
unfolding tree_reloaded read_rows after_fault
reloaded-SameTable s (true, rest) = record { same_rows = refl; same_next = refl; agrees = λ t a. a }
reloaded-SameTable s (false, rest) = record {
  same_rows = refl;
  same_next = refl;
  agrees = λ t a. reload_channels-Agrees s.hub s.db t;
}

pub LeavesCall-reload : LeavesCall reload_tree
unfolding reload_tree query
LeavesCall-reload = record { at = λ s. reloaded-SameTable s (next_fault s.faults) }
