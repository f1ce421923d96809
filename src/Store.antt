-- ===== src/Store.antt =====
-- internal/store: the tables behind roles and their grants (internal/store/roles.go), users and the
-- audit log (internal/store/audit.go). A table is the list of its rows. The SQL engine is no part of
-- the repository: a statement is what it says of the rows, and a statement that fails leaves them
-- alone.
pub mod MessageRows
pub mod Reorder
pub mod Channels
pub mod Fold
pub mod Bans
pub mod Messages
mod Tests
use aural_server.Base.{
  ℕ, zero, suc, ◌+◌, String, Bool, true, false, not, ◌&&◌, ◌||◌, Option, none, some, List, [], ◌∷◌,
  ◌++◌, ltb, ◌==◌, if◌then◌else◌, keep, any,
}
use aural_server.Text.{Text}
use aural_server.Store.MessageRows.{MessageTables}
use aural_server.Base.Int.{ℤ}
use aural_server.Permissions.{Permission, all}
use aural_server.Base.{bit_and}
use aural_server.Hub.{
  Role, User, ChannelType, Managed, unmanaged, everyone, registered, admin, sort_roles,
  is_unmanaged,
}

-- A row of `user_roles`.
pub record Grant : Type 0 where
  pub user_id : ℕ
  pub role_id : ℕ

-- `AuditChange`.
pub record AuditChange : Type 0 where
  pub key : String
  pub before : Text
  pub after : Text

-- `AuditEntry`, without the number and the time that the table gives it; an actor or a target that
-- is missing is `none`.
pub record AuditEntry : Type 0 where
  pub actor_id : Option ℕ
  pub actor_name : Text
  pub action : String
  pub target_type : String
  pub target_id : Option ℕ
  pub target_name : Text
  pub reason : Text
  pub changes : List AuditChange

-- A row of `channels`.
pub record ChannelRow : Type 0 where
  pub id : ℕ
  pub parent_id : Option ℕ
  pub name : Text
  pub type : ChannelType
  pub topic : Text
  pub position : ℤ
  pub user_limit : ℕ

-- A row of `channel_overwrites`.
pub record OverwriteRow : Type 0 where
  pub channel_id : ℕ
  pub role_id : ℕ
  pub allow : Permission
  pub deny : Permission

-- `next_role_id` and `next_channel_id` are the sequences of AUTOINCREMENT columns.
pub record Db : Type 0 where
  pub roles : List Role
  pub user_roles : List Grant
  pub users : List User
  pub audit_entries : List AuditEntry
  pub next_role_id : ℕ
  pub channels : List ChannelRow
  pub channel_overwrites : List OverwriteRow
  pub next_channel_id : ℕ
  pub messages : MessageTables

-- The outcome of a call: its value, `ErrNotFound`, or any other error.
pub data Outcome {ℓ} (A : Type ℓ) : Type ℓ where
  done : A → Outcome A
  missing : Outcome A
  broken : Outcome A

-- `scanRole`: a mask that an older build wrote keeps only the bits that are defined.
unfoldable pub scan_role : Role → Role
scan_role r = record r { permissions = bit_and r.permissions all }

scan_roles : List Role → List Role
unfolding scan_role
scan_roles [] = []
scan_roles (r ∷ rest) = scan_role r ∷ scan_roles rest

-- `AllRoles`.
unfoldable pub all_roles : Db → List Role
unfolding scan_roles
all_roles db = sort_roles (scan_roles db.roles)

-- `MAX(position)` over the rows that are not the admin role.
highest_position : List Role → ℕ → ℕ
highest_position [] n = n
highest_position (r ∷ rest) n =
    highest_position rest
      (elim r.managed [ admin ↦ n | _ ↦ if ltb n r.position then r.position else n ])

-- `CreateRole`: the row that is inserted.
unfoldable pub create_role : Db → Role → Db × Role
unfolding highest_position
create_role db r =
    let position = if r.position == 0 then highest_position db.roles 0 + 1 else r.position in
    let row = record r { id = db.next_role_id; position = position } in
    (record db { roles = db.roles ++ row ∷ []; next_role_id = suc db.next_role_id }, row)

-- The row with an id.
pub row : List Role → ℕ → Option Role
row [] id = none
row (r ∷ rest) id = if r.id == id then some r else row rest id

-- `SET name, color, permissions, position, hoist`.
overwrite_row : Role → Role → Role
overwrite_row new r = record r {
  name = new.name;
  color = new.color;
  permissions = new.permissions;
  position = new.position;
  hoist = new.hoist;
}

pub update_rows : ℕ → (Role → Role) → List Role → List Role
update_rows id f [] = []
update_rows id f (r ∷ rest) =
    let later = update_rows id f rest in if r.id == id then f r ∷ later else r ∷ later

-- `requireOneRow`: whether a statement on the row with an id reached one.
one_row : Option Role → Db → Outcome Db
one_row none db = missing
one_row (some r) db = done db

-- `UpdateRole`.
unfoldable pub update_role : Db → Role → Outcome Db
unfolding overwrite_row update_rows row one_row
update_role db new =
    one_row (row db.roles new.id)
      (record db { roles = update_rows new.id (overwrite_row new) db.roles })

-- The loop of `ReorderRoles` inside its transaction, from position `i + 1`.
pub renumber : ℕ → List ℕ → List Role → Outcome (List Role)
renumber i [] rows = done rows
renumber i (id ∷ rest) rows = elim (row rows id) [
  | none ↦ missing
  | some r ↦ renumber (suc i) rest (update_rows id (λ s. record s { position = suc i }) rows)
]

commit : Db → Outcome (List Role) → Outcome Db
commit db (done rows) = done (record db { roles = rows })
commit db missing = missing
commit db broken = broken

-- `ReorderRoles`.
unfoldable pub reorder_roles : Db → List ℕ → Outcome Db
unfolding commit renumber row update_rows
reorder_roles db ordered = commit db (renumber 0 ordered db.roles)

-- `WHERE id = ? AND managed = ''`.
deletes : ℕ → Role → Bool
deletes id r = r.id == id && is_unmanaged r.managed

-- `DeleteRole`, with the grants and the overwrites that go by cascade.
unfoldable pub delete_role : Db → ℕ → Outcome Db
unfolding deletes keep any
delete_role db id =
    if any (deletes id) db.roles
    then done (record db {
      roles = keep (λ r. not (deletes id r)) db.roles;
      user_roles = keep (λ g. not (g.role_id == id)) db.user_roles;
      channel_overwrites = keep (λ o. not (o.role_id == id)) db.channel_overwrites;
    })
    else missing

grants : ℕ → ℕ → Grant → Bool
grants user_id role_id g = g.user_id == user_id && g.role_id == role_id

pub user_row : List User → ℕ → Option User
user_row [] id = none
user_row (u ∷ rest) id = if u.id == id then some u else user_row rest id

-- The foreign keys of `user_roles`.
references : Option User → Option Role → Bool
references (some u) (some r) = true
references _ _ = false

-- `AssignRole`. A grant of nobody or of no role breaks a foreign key, which `OR IGNORE` does not
-- ignore.
unfoldable pub assign_role : Db → ℕ → ℕ → Outcome Db
unfolding grants references user_row row any
assign_role db user_id role_id =
    if any (grants user_id role_id) db.user_roles
    then done db
    else if references (user_row db.users user_id) (row db.roles role_id)
    then done (record db {
      user_roles = db.user_roles ++ record { user_id = user_id; role_id = role_id } ∷ [];
    })
    else broken

-- `UnassignRole`.
unfoldable pub unassign_role : Db → ℕ → ℕ → Outcome Db
unfolding grants keep
unassign_role db user_id role_id =
    done (record db { user_roles = keep (λ g. not (grants user_id role_id g)) db.user_roles })

granted_ids : List Role → List Grant → ℕ → List ℕ
granted_ids [] gs user_id = []
granted_ids (r ∷ rest) gs user_id =
    let later = granted_ids rest gs user_id in
    if any (grants user_id r.id) gs then r.id ∷ later else later

-- `RoleIDsForUser`: lowest position first.
unfoldable pub role_ids_for_user : Db → ℕ → List ℕ
unfolding granted_ids grants any
role_ids_for_user db user_id = granted_ids (sort_roles db.roles) db.user_roles user_id

-- `UserByID`.
unfoldable pub user_by_id : Db → ℕ → Outcome User
unfolding user_row
user_by_id db id = elim (user_row db.users id) [ none ↦ missing | some u ↦ done u ]

-- `RecordAudit`.
unfoldable pub record_audit : Db → AuditEntry → Db
record_audit db e = record db { audit_entries = db.audit_entries ++ e ∷ [] }
