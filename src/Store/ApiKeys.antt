-- ===== src/Store/ApiKeys.antt =====
-- internal/store/api_keys.go and api_key_scopes.go: the keys, the maps and versions that a scoped
-- key may access, and the two caches of them.
pub mod Entries
pub mod Scoped
pub mod Decided
pub mod Registered
pub mod Revoked
pub mod Ended
pub mod Runs
use tileserve_go.Prelude.{
  Bool, true, false, not, ◌&&◌, ◌||◌, Option, none, some, List, [], ◌∷◌, Text, ◌==◌, nat_eq,
  text_eq, pair_eq, if◌then◌else◌, any, keep_if,
}
use tileserve_go.Prelude.Assoc.{lookup, insert, remove}
use tileserve_go.Prelude.Monad.{Result, ok, err, Exec, pure, raise, gets, modify, ◌>>=◌, ◌>>◌}
use tileserve_go.Store.Cache.{get, set, invalidate}
use tileserve_go.Store.Database.{Database, ApiKeyRow}
use tileserve_go.Store.State.{
  Store, StoreError, invalid_api_key, api_key_not_found, api_key_scope_invalid, cache_ttl, row_or,
  query, execute, transaction, ApiKeySigningKey, ApiKeyScopeEntry,
}
use tileserve_go.Store.Maps.{or_else, has_map}
use tileserve_go.Store.Grants.{execute_with_keys}

-- WHERE id = ? AND revoked_at IS NULL
abbrev pub if_active : Option ApiKeyRow → Option ApiKeyRow
if_active none = none
if_active (some k) = if k.revoked then none else some k

unfoldable pub active_key : Text → Database → Option ApiKeyRow
active_key id db = if_active (lookup id db.api_keys)

abbrev pub signing_key_of : Option ApiKeyRow → Option ApiKeySigningKey
signing_key_of none = none
signing_key_of (some k) =
    some (record { username = k.username; public_key_pem = k.public_key_pem; scoped = k.scoped })

unfoldable pub resolve_uncached : Text → Exec Store StoreError ApiKeySigningKey
unfolding query active_key set
resolve_uncached id = do
  row ← query (λ db. signing_key_of (active_key id db))
  k ← row_or invalid_api_key row
  modify (λ s. record s { api_key_cache = set cache_ttl s.now id k s.api_key_cache })
  pure k

-- ResolveAPIKeySigningKey, without the time of the last use
unfoldable pub resolve_api_key_signing_key : Text → Exec Store StoreError ApiKeySigningKey
unfolding get resolve_uncached
resolve_api_key_signing_key id = do
  hit ← gets (λ s. get s.now id s.api_key_cache)
  or_else hit (resolve_uncached id)

unfoldable pub scoped_of : Option ApiKeySigningKey → Text → Exec Store StoreError Bool
unfolding query active_key
scoped_of (some k) id = pure k.scoped
scoped_of none id = do
  row ← query (λ db. signing_key_of (active_key id db))
  k ← row_or invalid_api_key row
  pure k.scoped

-- apiKeyScopedFlag, which does not fill the cache
unfoldable pub api_key_scoped_flag : Text → Exec Store StoreError Bool
unfolding get scoped_of
api_key_scoped_flag id = do hit ← gets (λ s. get s.now id s.api_key_cache); scoped_of hit id

abbrev pub entry_of : Option (List Text) → ApiKeyScopeEntry
entry_of none = record { in_scope = false; versions = [] }
entry_of (some versions) = record { in_scope = true; versions = versions }

-- The query of resolveAPIKeyMapScope.
unfoldable pub select_scope : Text → Text → Database → ApiKeyScopeEntry
select_scope key map_id db = entry_of (lookup (key, map_id) db.scopes)

unfoldable pub scope_uncached : Text → Text → Exec Store StoreError ApiKeyScopeEntry
unfolding query select_scope set
scope_uncached key map_id = do
  entry ← query (select_scope key map_id)
  modify (λ s. record s {
    api_key_scope_cache = set cache_ttl s.now (key, map_id) entry s.api_key_scope_cache;
  })
  pure entry

unfoldable pub scope_entry : Text → Text → Exec Store StoreError ApiKeyScopeEntry
unfolding get scope_uncached
scope_entry key map_id = do
  hit ← gets (λ s. get s.now (key, map_id) s.api_key_scope_cache)
  or_else hit (scope_uncached key map_id)

-- resolveAPIKeyMapScope: the entry of a scoped key, or `none` for an unscoped one
unfoldable pub resolve_api_key_map_scope :
    Text → Text → Exec Store StoreError (Option ApiKeyScopeEntry)
unfolding api_key_scoped_flag scope_entry
resolve_api_key_map_scope key map_id = do
  scoped ← api_key_scoped_flag key
  if scoped then (do entry ← scope_entry key map_id; pure (some entry)) else pure none

abbrev pub allows_map : Option ApiKeyScopeEntry → Bool
allows_map none = true
allows_map (some e) = e.in_scope

-- APIKeyCanAccessMap
unfoldable pub api_key_can_access_map : Text → Text → Exec Store StoreError Bool
unfolding resolve_api_key_map_scope
api_key_can_access_map key map_id = do
  entry ← resolve_api_key_map_scope key map_id
  pure (allows_map entry)

abbrev pub whitelists : List Text → Text → Bool
whitelists [] version = true
whitelists (v ∷ vs) version = any (λ w. w == version) (v ∷ vs)

abbrev pub allows_version : Option ApiKeyScopeEntry → Text → Bool
allows_version none version = true
allows_version (some e) version = if e.in_scope then whitelists e.versions version else false

-- APIKeyCanAccessMapVersion
unfoldable pub api_key_can_access_map_version : Text → Text → Text → Exec Store StoreError Bool
unfolding resolve_api_key_map_scope
api_key_can_access_map_version key map_id version = do
  entry ← resolve_api_key_map_scope key map_id
  pure (allows_version entry version)

-- UPDATE api_keys SET scoped = ? WHERE id = ? AND username = ? AND revoked_at IS NULL
abbrev pub owned_key : Text → Option ApiKeyRow → Bool
owned_key username none = false
owned_key username (some k) = k.username == username

unfoldable pub owns_key : Text → Text → Database → Bool
unfolding active_key
owns_key username id db = owned_key username (active_key id db)

abbrev pub set_scoped : Bool → Text → Option ApiKeyRow → Database → Database
set_scoped b id none db = db
set_scoped b id (some k) db = record db {
  api_keys = insert id (record k { scoped = b }) db.api_keys;
}

unfoldable pub mark_scoped : Bool → Text → Text → Exec Store StoreError (Unit {0})
unfolding owns_key active_key execute
mark_scoped b username id = do
  owned ← gets (λ s. owns_key username id s.db)
  execute (λ db. if owned then set_scoped b id (active_key id db) db else db)
  if owned then pure tt else raise api_key_not_found

unfoldable pub invalidate_api_key : Text → Exec Store StoreError (Unit {0})
unfolding invalidate
invalidate_api_key id = modify (λ s. record s { api_key_cache = invalidate id s.api_key_cache })

unfoldable pub invalidate_scope : Text → Text → Exec Store StoreError (Unit {0})
unfolding invalidate
invalidate_scope id map_id =
    modify (λ s. record s { api_key_scope_cache = invalidate (id, map_id) s.api_key_scope_cache })

-- SetAPIKeyScope
unfoldable pub set_api_key_scope : Text → Text → Text → List Text → Exec Store StoreError (Unit {0})
unfolding transaction mark_scoped execute_with_keys invalidate_api_key invalidate_scope
set_api_key_scope username id map_id versions = do
  transaction (do
    mark_scoped true username id
    execute_with_keys (has_map map_id) api_key_scope_invalid
        (λ db. record db { scopes = insert (id, map_id) versions db.scopes }))
  invalidate_api_key id
  invalidate_scope id map_id

abbrev pub has_scope : Text → Text → Database → Bool
has_scope id map_id db = any (λ e. e.0 == (id, map_id)) db.scopes

-- DeleteAPIKeyScope
unfoldable pub delete_api_key_scope : Text → Text → Text → Exec Store StoreError (Unit {0})
unfolding owns_key execute invalidate_scope
delete_api_key_scope username id map_id = do
  found ← gets (λ s. has_scope id map_id s.db && owns_key username id s.db)
  execute (λ db. if found then record db { scopes = remove (id, map_id) db.scopes } else db)
  if found then invalidate_scope id map_id else raise api_key_not_found

-- ClearAPIKeyScope, which leaves apiKeyScopeCache as it is
unfoldable pub clear_api_key_scope : Text → Text → Exec Store StoreError (Unit {0})
unfolding transaction mark_scoped execute invalidate_api_key
clear_api_key_scope username id = do
  transaction (do
    mark_scoped false username id
    execute (λ db. record db { scopes = keep_if (λ e. not (e.0.0 == id)) db.scopes }))
  invalidate_api_key id
