-- ===== src/Server/Quiet.antt =====
-- Steps of a handler that leave the messages alone, with a rule for each way to build a handler.
use aural_server.Base.{
  String, ◌≡◌, refl, ap, subst, sym, ◌∙◌, Bool, true, false, List, [], ◌∷◌, arith,
}
use aural_server.Protocol.{Failure, Result, ok, err}
use aural_server.Store.{Db, AuditEntry, Outcome, done, missing, broken, record_audit}
use aural_server.Store.MessageRows.{MessageTables}
use aural_server.Server.{
  Server, Session, Handler, query, write, no_value, audit, audit_unattended, broadcast_to, recorded,
  next_fault, after_fault, read_rows, write_rows, apply_write,
}
use aural_server.Server.Exec.{◌>>=◌, check, act, pure, attempt, answer, continue}

-- The messages and the cache are as they were, and a store that does not fail still does not.
pub record Same (s s' : Server) : Type 0 where
  pub same_messages : s'.db.messages ≡ s.db.messages
  pub same_hub : s'.hub ≡ s.hub
  pub sound : s.faults ≡ [] → s'.faults ≡ []

pub Same-refl : (s : Server) → Same s s
Same-refl s = record { same_messages = refl; same_hub = refl; sound = λ f. f }

pub Same-trans : {s s' s'' : Server} → Same s s' → Same s' s'' → Same s s''
Same-trans h k = record {
  same_messages = k.same_messages ∙ h.same_messages;
  same_hub = k.same_hub ∙ h.same_hub;
  sound = λ f. k.sound (h.sound f);
}

pub record Quiet {A : Type 0} (m : Handler A) : Type 0 where
  pub at : (s : Server) → Same s (m s).1

pub record QuietAct (f : Server → Server) : Type 0 where
  pub at : (s : Server) → Same s (f s)

pub record QuietCall {A : Type 0} (f : Server → Outcome A × Server) : Type 0 where
  pub at : (s : Server) → Same s (f s).1

module _ {A B : Type 0} where
  continue-Same :
      (f : A → Handler B) (p : Result A × Server) (s : Server)
      → ((a : A) → Quiet (f a))
      → Same s p.1
      → Same s (continue p f).1
  unfolding continue
  continue-Same f (ok a, s') s k h = Same-trans h ((k a).at s')
  continue-Same f (err e, s') s k h = h

  pub Quiet-bind :
      (m : Handler A) (f : A → Handler B) → Quiet m → ((a : A) → Quiet (f a)) → Quiet (m >>= f)
  unfolding ◌>>=◌
  Quiet-bind m f h k = record { at = λ s. continue-Same f (m s) s k (h.at s) }

pub Quiet-check : {A : Type 0} (g : Server → Result A) → Quiet (check g)
Quiet-check g = record { at = λ s. Same-refl s }

pub Quiet-pure : {A : Type 0} (a : A) → Quiet (pure a)
Quiet-pure a = record { at = λ s. Same-refl s }

pub Quiet-act : (f : Server → Server) → QuietAct f → Quiet (act f)
Quiet-act f h = record { at = λ s. h.at s }

answer-state :
    {A : Type 0} (absent what : String) (p : Outcome A × Server) → (answer absent what p).1 ≡ p.1
unfolding answer
answer-state absent what (done a, s) = refl
answer-state absent what (missing, s) = refl
answer-state absent what (broken, s) = refl

pub Quiet-attempt :
    {A : Type 0} (absent what : String) (f : Server → Outcome A × Server)
    → QuietCall f
    → Quiet (attempt absent what f)
unfolding attempt
Quiet-attempt absent what f h = record {
  at = λ s. subst (Same s) (sym (answer-state absent what (f s))) (h.at s);
}

-- The list of faults only gets shorter.
next_fault_sound : (faults : List Bool) → faults ≡ [] → (next_fault faults).1 ≡ []
unfolding next_fault
next_fault_sound [] f = refl
next_fault_sound (b ∷ rest) f = cc

read-Same :
    {A : Type 0} (g : Db → Outcome A) (s : Server) (p : Bool × List Bool)
    → (s.faults ≡ [] → p.1 ≡ [])
    → Same s (read_rows g (after_fault p s)).1
unfolding read_rows after_fault
read-Same g s (true, rest) h = record { same_messages = refl; same_hub = refl; sound = h }
read-Same g s (false, rest) h = record { same_messages = refl; same_hub = refl; sound = h }

pub QuietCall-query : {A : Type 0} (g : Db → Outcome A) → QuietCall (query g)
unfolding query
QuietCall-query g = record {
  at = λ s. read-Same g s (next_fault s.faults) (next_fault_sound s.faults);
}

audited-Same :
    (e : AuditEntry) (s : Server) (p : Bool × List Bool)
    → (s.faults ≡ [] → p.1 ≡ [])
    → Same s (recorded e (write_rows (λ db. done (record_audit db e, tt)) (after_fault p s)))
unfolding recorded write_rows after_fault apply_write record_audit broadcast_to
audited-Same e s (true, rest) h = record { same_messages = refl; same_hub = refl; sound = h }
audited-Same e s (false, rest) h = record { same_messages = refl; same_hub = refl; sound = h }

pub QuietAct-audit : (actor : Session) (e : AuditEntry) → QuietAct (audit actor e)
unfolding audit write
QuietAct-audit actor e = record {
  at = λ s. audited-Same _ s (next_fault s.faults) (next_fault_sound s.faults);
}

pub audit_unattended-Same : (e : AuditEntry) (s : Server) → Same s (audit_unattended e s)
unfolding audit_unattended write
audit_unattended-Same e s = audited-Same _ s (next_fault s.faults) (next_fault_sound s.faults)

module _ {A B : Type 0} (Q : MessageTables → Type 0) (s : Server) where
  -- What holds of the messages after a chain whose first step leaves them alone.
  pub quiet-holds :
      (m : Handler A) (f : A → Handler B)
      → Quiet m
      → Q s.db.messages
      → ((a : A) (s' : Server)
          → Same s s'
          → (m s).0 ≡ ok a
          → Q s'.db.messages
          → Q (f a s').1.db.messages)
      → Q ((m >>= f) s).1.db.messages
  unfolding ◌>>=◌
  quiet-holds m f h before next = go (m s) refl (h.at s)
    where
      go : (p : Result A × Server) → m s ≡ p → Same s p.1 → Q (continue p f).1.db.messages
      go (ok a, s') e k = next a s' k (ap (λ q. q.0) e) (subst Q (sym k.same_messages) before)
      go (err e', s') e k = subst Q (sym k.same_messages) before

  -- What holds after a step still holds after a chain that goes on with steps which leave them alone.
  pub then-quiet :
      (m : Handler A) (f : A → Handler B)
      → ((a : A) → Quiet (f a))
      → Q (m s).1.db.messages
      → Q ((m >>= f) s).1.db.messages
  unfolding ◌>>=◌
  then-quiet m f h after = go (m s) after
    where
      go : (p : Result A × Server) → Q p.1.db.messages → Q (continue p f).1.db.messages
      go (ok a, s') q = subst Q (sym ((h a).at s').same_messages) q
      go (err e', s') q = q

-- What holds after a write.
pub written-holds :
    {A : Type 0} (Q : MessageTables → Type 0) (s : Server) (absent what : String)
    (g : Db → Outcome (Db × A))
    → Q s.db.messages
    → ((db : Db) (a : A) → g s.db ≡ done (db, a) → Q db.messages)
    → Q (attempt absent what (write g) s).1.db.messages
unfolding attempt write
written-holds {A = A} Q s absent what g before now =
    subst (λ (s' : Server). Q s'.db.messages) (sym (answer-state absent what _))
      (go (next_fault s.faults))
  where
    finish :
        (rest : List Bool) (o : Outcome (Db × A))
        → g s.db ≡ o
        → Q (apply_write o (record s { faults = rest })).1.db.messages
    finish rest (done (db, a)) e = now db a e
    finish rest missing e = before
    finish rest broken e = before

    go : (p : Bool × List Bool) → Q (write_rows g (after_fault p s)).1.db.messages
    go (true, rest) = before
    go (false, rest) = finish rest (g s.db) refl

-- A read that succeeds has read the rows.
pub query-ok :
    {A : Type 0} (absent what : String) (g : Db → Outcome A) (s : Server) (a : A)
    → (attempt absent what (query g) s).0 ≡ ok a
    → g s.db ≡ done a
unfolding attempt query answer
query-ok {A = A} absent what g s a h = go (next_fault s.faults) h
  where
    finish : (s' : Server) (o : Outcome A) → (answer absent what (o, s')).0 ≡ ok a → o ≡ done a
    finish s' (done b) k = ground (arith, k)
    finish s' missing k = cc
    finish s' broken k = cc

    go :
        (p : Bool × List Bool)
        → (answer absent what (read_rows g (after_fault p s))).0 ≡ ok a
        → g s.db ≡ done a
    go (true, rest) k = cc
    go (false, rest) k = finish (record s { faults = rest }) (g s.db) k

-- A chain that succeeds got past its first step.
pub step-ok :
    {A B : Type 0} (m : Handler A) (f : A → Handler B) (s : Server) (b : B)
    → ((m >>= f) s).0 ≡ ok b
    → (a : A) × ((m s).0 ≡ ok a) × ((f a (m s).1).0 ≡ ok b)
unfolding ◌>>=◌
step-ok {A = A} {B = B} m f s b h = go (m s) h
  where
    go :
        (p : Result A × Server)
        → (continue p f).0 ≡ ok b
        → (a : A) × (p.0 ≡ ok a) × ((f a p.1).0 ≡ ok b)
    go (ok a, s') k = (a, refl, k)
    go (err e, s') k = cc

-- A statement without a value.
pub no_value-done :
    (o : Outcome Db) (db : Db) (u : Unit {0}) → no_value o ≡ done (db, u) → o ≡ done db
no_value-done (done db') db u h = ground (arith, h)
no_value-done missing db u h = cc
no_value-done broken db u h = cc

-- The calls of a store that does not fail.
module _ {A : Type 0} (s : Server) (clean : s.faults ≡ []) where
  pub query-clean : (g : Db → Outcome A) → query g s ≡ (g s.db, record s { faults = [] })
  unfolding query read_rows next_fault after_fault
  query-clean g = rw clean refl

  pub write-done :
      (g : Db → Outcome (Db × A)) (db : Db) (a : A)
      → g s.db ≡ done (db, a)
      → write g s ≡ (done a, record s { faults = []; db = db })
  unfolding write write_rows next_fault after_fault apply_write
  write-done g db a h = rw (clean, h) refl

  pub write-missing :
      (g : Db → Outcome (Db × A))
      → g s.db ≡ missing
      → write g s ≡ (missing, record s { faults = [] })
  unfolding write write_rows next_fault after_fault apply_write
  write-missing g h = rw (clean, h) refl

  pub write-broken :
      (g : Db → Outcome (Db × A)) → g s.db ≡ broken → write g s ≡ (broken, record s { faults = [] })
  unfolding write write_rows next_fault after_fault apply_write
  write-broken g h = rw (clean, h) refl

-- The first step of a chain, by what it comes to.
module _ {A B : Type 0} (m : Handler A) (f : A → Handler B) (s s' : Server) where
  pub bind-ok : (a : A) → m s ≡ (ok a, s') → (m >>= f) s ≡ f a s'
  unfolding ◌>>=◌ continue
  bind-ok a h = rw h refl

  pub bind-err : (e : Failure) → m s ≡ (err e, s') → (m >>= f) s ≡ (err e, s')
  unfolding ◌>>=◌ continue
  bind-err e h = rw h refl
