-- ===== src/Store/ApiKeys/Registered.antt =====
-- internal/store/api_keys.go: the registration and the revocation of a key. Whether
-- validateRSAPublicKeyPEM, which is crypto/x509, accepts the key is an argument.
use tileserve_go.Prelude.{
  Bool, true, false, not, Option, none, some, Text, nat_eq, text_eq, pair_eq, if◌then◌else◌,
}
use tileserve_go.Prelude.Assoc.{lookup, insert}
use tileserve_go.Prelude.Monad.{Exec, pure, raise, gets, ◌>>=◌, ◌>>◌}
use tileserve_go.Store.Database.{Database, ApiKeyRow}
use tileserve_go.Store.State.{
  Store, StoreError, db_failed, user_not_found, api_key_not_found, invalid_public_key_pem, execute,
}
use tileserve_go.Store.Grants.{is_some}
use tileserve_go.Store.Accounts.{has_user, execute_or}
use tileserve_go.Store.ApiKeys.{owns_key}

abbrev pub has_key : Text → Database → Bool
has_key id db = is_some (lookup id db.api_keys)

abbrev pub put_key : Text → ApiKeyRow → Database → Database
put_key id k db = record db { api_keys = insert id k db.api_keys }

abbrev pub new_key : Text → Text → ApiKeyRow
new_key username pem = record {
  username = username;
  public_key_pem = pem;
  revoked = false;
  scoped = false;
}

-- CreateAPIKey, with the id that uuid.New gives
unfoldable pub create_api_key :
    (is_valid : Bool) → Text → Text → Text → Exec Store StoreError ApiKeyRow
unfolding execute_or
create_api_key is_valid id username pem = do
  if is_valid then pure tt else raise invalid_public_key_pem
  taken ← gets (λ s. has_key id s.db)
  if taken
      then raise db_failed
      else execute_or (λ db. not (has_user username db)) user_not_found
          (put_key id (new_key username pem))
  pure (new_key username pem)

abbrev pub set_revoked : Text → Option ApiKeyRow → Database → Database
set_revoked id none db = db
set_revoked id (some k) db = put_key id (record k { revoked = true }) db

unfoldable pub revoke_row : Text → Text → Database → Database
unfolding owns_key
revoke_row username id db =
    if owns_key username id db then set_revoked id (lookup id db.api_keys) db else db

-- RevokeAPIKey
unfoldable pub revoke_api_key : Text → Text → Exec Store StoreError (Unit {0})
unfolding owns_key execute revoke_row
revoke_api_key username id = do
  owned ← gets (λ s. owns_key username id s.db)
  execute (revoke_row username id)
  if owned then pure tt else raise api_key_not_found
