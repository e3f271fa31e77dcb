-- ===== src/Store/Grants.antt =====
-- internal/store/store.go, map_permissions.go and group_map_permissions.go: the permissions of
-- users and groups, global and for each map, and the two caches of them.
pub mod Joined
pub mod Cached
use tileserve_go.Prelude.{
  Bool, true, false, Option, none, some, List, [], ◌∷◌, Text, ◌==◌, nat_eq, text_eq, pair_eq,
  if◌then◌else◌,
}
use tileserve_go.Prelude.Assoc.{lookup, insert, remove}
use tileserve_go.Prelude.Monad.{Result, ok, err, Exec, pure, raise, gets, modify, ◌>>=◌, ◌>>◌}
use tileserve_go.Store.Cache.{get, set, invalidate, clear}
use tileserve_go.Store.Database.{
  Database, Permissions, MapPermission, UserRow, MapRow, select_permissions, select_map_permission,
}
use tileserve_go.Store.State.{
  Store, StoreError, db_failed, map_permission_invalid, cache_ttl, row_or, query, execute,
}
use tileserve_go.Store.Maps.{or_else, has_map}

-- The part of GetPermissions behind the cache. A row of NULL fails to scan.
unfoldable pub get_permissions_uncached : Text → Exec Store StoreError Permissions
unfolding query set
get_permissions_uncached username = do
  row ← query (select_permissions username)
  p ← row_or db_failed row
  modify (λ s. record s { perms_cache = set cache_ttl s.now username p s.perms_cache })
  pure p

-- GetPermissions
unfoldable pub get_permissions : Text → Exec Store StoreError Permissions
unfolding get get_permissions_uncached
get_permissions username = do
  hit ← gets (λ s. get s.now username s.perms_cache)
  or_else hit (get_permissions_uncached username)

unfoldable pub get_map_permission_uncached : Text → Text → Exec Store StoreError MapPermission
unfolding query set
get_map_permission_uncached map_id username = do
  mp ← query (select_map_permission map_id username)
  modify (λ s. record s {
    map_perm_cache = set cache_ttl s.now (map_id, username) mp s.map_perm_cache;
  })
  pure mp

-- GetMapPermission
unfoldable pub get_map_permission : Text → Text → Exec Store StoreError MapPermission
unfolding get get_map_permission_uncached
get_map_permission map_id username = do
  hit ← gets (λ s. get s.now (map_id, username) s.map_perm_cache)
  or_else hit (get_map_permission_uncached map_id username)

abbrev pub is_some {ℓ} : {A : Type ℓ} → Option A → Bool
is_some none = false
is_some (some a) = true

-- The foreign keys of map_permissions and of group_map_permissions.
abbrev pub knows_grantee : Text → Text → Database → Bool
knows_grantee map_id username db =
    if has_map map_id db then is_some (lookup username db.users) else false

abbrev pub knows_group : Text → Text → Database → Bool
knows_group map_id group db = if has_map map_id db then is_some (lookup group db.groups) else false

-- An INSERT whose foreign keys are checked: a violation is SQLSTATE 23503.
unfoldable pub execute_with_keys :
    (Database → Bool) → StoreError → (Database → Database) → Exec Store StoreError (Unit {0})
unfolding execute
execute_with_keys valid e f = do
  known ← gets (λ s. valid s.db)
  if known then execute f else raise e

unfoldable pub invalidate_grant : Text → Text → Exec Store StoreError (Unit {0})
unfolding invalidate
invalidate_grant map_id username =
    modify (λ s. record s { map_perm_cache = invalidate (map_id, username) s.map_perm_cache })

unfoldable pub clear_grants : Exec Store StoreError (Unit {0})
unfolding clear
clear_grants = modify (λ s. record s { map_perm_cache = clear s.map_perm_cache })

-- SetMapPermission
unfoldable pub set_map_permission : Text → Text → MapPermission → Exec Store StoreError (Unit {0})
unfolding execute_with_keys invalidate_grant
set_map_permission map_id username mp = do
  execute_with_keys (knows_grantee map_id username) map_permission_invalid
      (λ db. record db { map_permissions = insert (map_id, username) mp db.map_permissions })
  invalidate_grant map_id username

-- DeleteMapPermission
unfoldable pub delete_map_permission : Text → Text → Exec Store StoreError (Unit {0})
unfolding execute invalidate_grant
delete_map_permission map_id username = do
  execute (λ db. record db { map_permissions = remove (map_id, username) db.map_permissions })
  invalidate_grant map_id username

-- SetGroupMapPermission
unfoldable pub set_group_map_permission :
    Text → Text → MapPermission → Exec Store StoreError (Unit {0})
unfolding execute_with_keys clear_grants
set_group_map_permission map_id group mp = do
  execute_with_keys (knows_group map_id group) map_permission_invalid (λ db. record db {
    group_map_permissions = insert (map_id, group) mp db.group_map_permissions;
  })
  clear_grants

-- DeleteGroupMapPermission
unfoldable pub delete_group_map_permission : Text → Text → Exec Store StoreError (Unit {0})
unfolding execute clear_grants
delete_group_map_permission map_id group = do
  execute
      (λ db. record db { group_map_permissions = remove (map_id, group) db.group_map_permissions })
  clear_grants
