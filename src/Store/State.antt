-- ===== src/Store/State.antt =====
-- internal/store/store.go: Store, the errors of its methods, and how a call on the database fails.
pub mod Cases
use tileserve_go.Prelude.{ℕ, ◌*◌, Bool, true, false, Option, none, some, List, [], ◌∷◌, Text}
use tileserve_go.Prelude.Monad.{Result, ok, err, Exec, pure, raise, gets, modify, ◌>>=◌, ◌>>◌}
use tileserve_go.Store.Cache.{Cache}
use tileserve_go.Store.Database.{Database, MapRecord, Permissions, MapPermission}

-- cacheTTL and mapVersionTTL, in nanoseconds
abbrev pub cache_ttl : ℕ
cache_ttl = 15 * 1000000000

abbrev pub map_version_ttl : ℕ
map_version_ttl = 30 * 60 * 1000000000

-- apiKeySigningKey
pub record ApiKeySigningKey : Type 0 where
  pub username : Text
  pub public_key_pem : Text
  pub scoped : Bool

-- apiKeyScopeEntry
pub record ApiKeyScopeEntry : Type 0 where
  pub in_scope : Bool
  pub versions : List Text

pub record Store : Type 0 where
  pub db : Database
  pub now : ℕ
  pub map_cache : Cache Text MapRecord
  pub current_version_cache : Cache Text Text
  pub perms_cache : Cache Text Permissions
  pub map_perm_cache : Cache (Text × Text) MapPermission
  pub map_alias_cache : Cache (Text × Text) Text
  pub api_key_cache : Cache Text ApiKeySigningKey
  pub api_key_scope_cache : Cache (Text × Text) ApiKeyScopeEntry
  -- for each call on the database, whether it fails
  pub faults : List Bool

-- `db_failed` is every error that the code only wraps; the others are its sentinels.
pub data StoreError : Type 0 where
  db_failed map_not_found user_not_found map_permission_invalid alias_invalid alias_not_found
        invalid_api_key api_key_not_found api_key_scope_invalid invalid_refresh_token user_exists
        user_owns_maps group_exists group_not_found invalid_public_key_pem :
      StoreError

unfoldable pub take_fault : List Bool → Store → Result StoreError (Unit {0}) × Store
take_fault [] s = (ok tt, s)
take_fault (true ∷ rest) s = (err db_failed, record s { faults = rest })
take_fault (false ∷ rest) s = (ok tt, record s { faults = rest })

-- A statement that reads or writes the database.
unfoldable pub statement : Exec Store StoreError (Unit {0})
unfolding take_fault
statement s = take_fault s.faults s

-- A row, or the sentinel for its absence.
abbrev pub row_or : {A : Type 0} → StoreError → Option A → Exec Store StoreError A
row_or e none = raise e
row_or e (some a) = pure a

-- SELECT
unfoldable pub query : {A : Type 0} → (Database → A) → Exec Store StoreError A
unfolding statement
query f = do statement; gets (λ s. f s.db)

-- INSERT, UPDATE and DELETE
unfoldable pub execute : (Database → Database) → Exec Store StoreError (Unit {0})
unfolding statement
execute f = do statement; modify (λ s. record s { db = f s.db })

abbrev pub roll_back :
    {A : Type 0} → Database → Result StoreError A × Store → Result StoreError A × Store
roll_back db (ok a, s) = (ok a, s)
roll_back db (err e, s) = (err e, record s { db = db })

-- A transaction: what a failed one has written to the database is undone.
unfoldable pub transaction : {A : Type 0} → Exec Store StoreError A → Exec Store StoreError A
transaction m s = roll_back s.db (m s)
