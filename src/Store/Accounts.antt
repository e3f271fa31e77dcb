-- ===== src/Store/Accounts.antt =====
-- internal/store/users.go, groups.go and group_membership.go: the writes of users, of groups and of
-- who is in them. `hash` is bcrypt, `none` where it fails; the hashes and the accounts of other
-- servers are columns that are not modelled.
pub mod Joined
pub mod Permitted
pub mod Changed
pub mod Grouped
pub mod Cached
use tileserve_go.Prelude.{
  ℕ, Bool, true, false, not, ◌&&◌, ◌||◌, Option, none, some, List, [], ◌∷◌, ◌++◌, Text, codes, ◌==◌,
  nat_eq, text_eq, pair_eq, if◌then◌else◌, any, keep_if,
}
use tileserve_go.Prelude.Assoc.{lookup, insert, remove}
use tileserve_go.Prelude.Monad.{
  Result, ok, err, Exec, pure, raise, gets, modify, handle, ◌>>=◌, ◌>>◌,
}
use tileserve_go.Store.Cache.{invalidate, clear}
use tileserve_go.Store.Database.{Database, Permissions, UserRow, GroupRow}
use tileserve_go.Store.State.{
  Store, StoreError, db_failed, user_not_found, user_exists, user_owns_maps, group_exists,
  group_not_found, row_or, query, execute, transaction,
}
use tileserve_go.Store.Grants.{is_some, clear_grants}

abbrev pub has_user : Text → Database → Bool
has_user username db = is_some (lookup username db.users)

abbrev pub has_group : Text → Database → Bool
has_group id db = is_some (lookup id db.groups)

-- An INSERT with a sentinel for SQLSTATE 23505, or 23503.
unfoldable pub execute_or :
    (Database → Bool) → StoreError → (Database → Database) → Exec Store StoreError (Unit {0})
unfolding execute
execute_or refused e f = do r ← gets (λ s. refused s.db); if r then raise e else execute f

unfoldable pub invalidate_permissions : Text → Exec Store StoreError (Unit {0})
unfolding invalidate
invalidate_permissions username =
    modify (λ s. record s { perms_cache = invalidate username s.perms_cache })

unfoldable pub clear_permissions : Exec Store StoreError (Unit {0})
unfolding clear
clear_permissions = modify (λ s. record s { perms_cache = clear s.perms_cache })

abbrev pub put_user : Text → ℕ → Permissions → Database → Database
put_user username id perms db = record db {
  users = insert username (record { id = id; permissions = perms }) db.users;
}

-- CreateUser, with the id that the database gives
unfoldable pub create_user : Option Text → ℕ → Text → Permissions → Exec Store StoreError UserRow
unfolding execute_or
create_user hash id username perms = do
  row_or db_failed hash
  execute_or (has_user username) user_exists (put_user username id perms)
  pure (record { id = id; permissions = perms })

-- INSERT ... ON CONFLICT DO NOTHING
abbrev pub add_unless_user : Text → ℕ → Permissions → Database → Database
add_unless_user username id perms db =
    if has_user username db then db else put_user username id perms db

abbrev pub no_permissions : Permissions
no_permissions = record {
  can_create = false;
  can_edit = false;
  can_delete = false;
  can_edit_geo_objects = false;
  can_delete_geo_objects = false;
  can_view_all = false;
  is_admin = false;
}

abbrev pub seed_permissions : Permissions
seed_permissions = record {
  can_create = true;
  can_edit = true;
  can_delete = true;
  can_edit_geo_objects = true;
  can_delete_geo_objects = true;
  can_view_all = false;
  is_admin = true;
}

-- SeedUser
unfoldable pub seed_user : Option Text → ℕ → Text → Exec Store StoreError (Unit {0})
unfolding execute
seed_user hash id username = do
  row_or db_failed hash
  execute (add_unless_user username id seed_permissions)

-- SyncUsername
abbrev pub sync_username : Text
sync_username = codes "sync"

-- EnsureSyncUser
unfoldable pub ensure_sync_user : ℕ → Exec Store StoreError (Unit {0})
unfolding execute
ensure_sync_user id = execute (add_unless_user sync_username id no_permissions)

abbrev pub set_user_permissions : Text → Permissions → Option UserRow → Database → Database
set_user_permissions username perms none db = db
set_user_permissions username perms (some u) db = record db {
  users = insert username (record u { permissions = perms }) db.users;
}

abbrev pub update_user_row : Text → Permissions → Database → Database
update_user_row username perms db =
    set_user_permissions username perms (lookup username db.users) db

-- The hash of a new password, if there is one.
abbrev pub hash_if_given : Option Text → Text → Exec Store StoreError (Unit {0})
hash_if_given hash [] = pure tt
hash_if_given hash (c ∷ password) = row_or db_failed hash >> pure tt

-- UpdateUser
unfoldable pub update_user : Option Text → Text → Permissions → Text → Exec Store StoreError UserRow
unfolding execute query invalidate_permissions
update_user hash username perms new_password = do
  hash_if_given hash new_password
  found ← gets (λ s. has_user username s.db)
  execute (update_user_row username perms)
  if found then pure tt else raise user_not_found
  row ← query (λ db. lookup username db.users)
  u ← row_or db_failed row
  invalidate_permissions username
  pure u

abbrev pub owned_by : Option UserRow → Database → Bool
owned_by none db = false
owned_by (some u) db = any (λ m. m.1.owner_id == u.id) db.maps

abbrev pub owns_maps : Text → Database → Bool
owns_maps username db = owned_by (lookup username db.users) db

-- The keys of one user, whose scopes go with them.
abbrev pub key_of_user : Text → Database → Text → Bool
key_of_user username db key = any (λ k. k.0 == key && k.1.username == username) db.api_keys

-- DELETE FROM users, with what the foreign keys cascade to
abbrev pub delete_user_row : Text → Database → Database
delete_user_row username db = record db {
  users = remove username db.users;
  members = keep_if (λ e. not (e.1 == username)) db.members;
  map_permissions = keep_if (λ e. not (e.0.1 == username)) db.map_permissions;
  refresh_tokens = keep_if (λ e. not (e.1.username == username)) db.refresh_tokens;
  api_keys = keep_if (λ e. not (e.1.username == username)) db.api_keys;
  scopes = keep_if (λ e. not (key_of_user username db e.0.0)) db.scopes;
}

-- DeleteUser
unfoldable pub delete_user : Text → Exec Store StoreError (Unit {0})
unfolding execute_or invalidate_permissions
delete_user username = do
  found ← gets (λ s. has_user username s.db)
  execute_or (owns_maps username) user_owns_maps (delete_user_row username)
  if found then invalidate_permissions username else raise user_not_found

-- The unique indexes of `groups`, against the rows of other ids.
abbrev pub clashes : Text → GroupRow → Text × GroupRow → Bool
clashes id g (other, h) =
    not (other == id)
    && (h.name == g.name
        || (not (g.ldap_group_dn == []) && h.ldap_group_dn == g.ldap_group_dn)
        || (not (g.oidc_group_claim == []) && h.oidc_group_claim == g.oidc_group_claim))

abbrev pub breaks_unique : Text → GroupRow → Database → Bool
breaks_unique id g db = any (clashes id g) db.groups

abbrev pub put_group : Text → GroupRow → Database → Database
put_group id g db = record db { groups = insert id g db.groups }

-- CreateGroup, with the id that uuid.New gives
unfoldable pub create_group : Text → GroupRow → Exec Store StoreError GroupRow
unfolding execute_or
create_group id g = do
  execute_or (λ db. has_group id db || breaks_unique id g db) group_exists (put_group id g)
  pure g

abbrev pub replace_group : Text → GroupRow → Database → Database
replace_group id g db = if has_group id db then put_group id g db else db

-- UpdateGroup
unfoldable pub update_group : Text → GroupRow → Exec Store StoreError GroupRow
unfolding execute_or query clear_permissions clear_grants
update_group id g = do
  found ← gets (λ s. has_group id s.db)
  execute_or (λ db. has_group id db && breaks_unique id g db) group_exists (replace_group id g)
  if found then pure tt else raise group_not_found
  row ← query (λ db. lookup id db.groups)
  h ← row_or db_failed row
  clear_permissions
  clear_grants
  pure h

-- DELETE FROM groups, with what the foreign keys cascade to
abbrev pub delete_group_row : Text → Database → Database
delete_group_row id db = record db {
  groups = remove id db.groups;
  members = keep_if (λ e. not (e.0 == id)) db.members;
  group_map_permissions = keep_if (λ e. not (e.0.1 == id)) db.group_map_permissions;
}

-- DeleteGroup
unfoldable pub delete_group : Text → Exec Store StoreError (Unit {0})
unfolding execute clear_permissions clear_grants
delete_group id = do
  found ← gets (λ s. has_group id s.db)
  execute (delete_group_row id)
  if found then pure tt else raise group_not_found
  clear_permissions
  clear_grants
