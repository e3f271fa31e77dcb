-- ===== src/Store/RefreshTokens.antt =====
-- internal/store/refresh_tokens.go: tokens that are redeemed once. `hash` is SHA3-256 in hex, and
-- `fresh` the token that crypto/rand gives, `none` where it fails.
pub mod Revoked
pub mod SingleUse
mod Tests
use tileserve_go.Prelude.{
  ℕ, ◌+◌, Bool, true, false, not, ◌||◌, Option, none, some, List, [], ◌∷◌, Text, ◌==◌, nat_eq,
  text_eq, if◌then◌else◌, ltb,
}
use tileserve_go.Prelude.Assoc.{lookup, insert}
use tileserve_go.Prelude.Monad.{Result, ok, err, Exec, pure, raise, gets, ◌>>=◌, ◌>>◌}
use tileserve_go.Store.Database.{Database, RefreshTokenRow}
use tileserve_go.Store.State.{
  Store, StoreError, db_failed, invalid_refresh_token, row_or, query, execute, transaction,
}
use tileserve_go.Store.Maps.{insert_unless}
use tileserve_go.Store.Grants.{is_some}

-- AND revoked_at IS NULL
abbrev pub if_unrevoked : Option RefreshTokenRow → Option RefreshTokenRow
if_unrevoked none = none
if_unrevoked (some t) = if t.revoked then none else some t

unfoldable pub usable_token : Text → Database → Option RefreshTokenRow
usable_token h db = if_unrevoked (lookup h db.refresh_tokens)

abbrev pub revoke_row : Text → Option RefreshTokenRow → Database → Database
revoke_row h none db = db
revoke_row h (some t) db = record db {
  refresh_tokens = insert h (record t { revoked = true }) db.refresh_tokens;
}

abbrev pub revoke : Text → Database → Database
revoke h db = revoke_row h (lookup h db.refresh_tokens) db

abbrev pub has_token : Text → Database → Bool
has_token h db = is_some (lookup h db.refresh_tokens)

abbrev pub add_token : Text → RefreshTokenRow → Database → Database
add_token h t db = record db { refresh_tokens = insert h t db.refresh_tokens }

-- The row of a new token.
abbrev pub new_token : Text → ℕ → ℕ → RefreshTokenRow
new_token username now ttl = record { username = username; expires_at = now + ttl; revoked = false }

-- The key of the table, and its reference to the users
abbrev pub refuses_token : Text → Text → Database → Bool
refuses_token h username db = has_token h db || not (is_some (lookup username db.users))

-- CreateRefreshToken, without the time that it returns
unfoldable pub create_refresh_token :
    (hash : Text → Text) → Option Text → Text → ℕ → Exec Store StoreError Text
unfolding insert_unless
create_refresh_token hash fresh username ttl = do
  token ← row_or db_failed fresh
  now ← gets (λ s. s.now)
  insert_unless (refuses_token (hash token) username)
      (add_token (hash token) (new_token username now ttl))
  pure token

-- The end of the transaction: the new token, after the old one is revoked.
unfoldable pub issue_rotated :
    (hash : Text → Text) → Option Text → Text → ℕ → ℕ → Exec Store StoreError (Text × Text)
unfolding insert_unless
issue_rotated hash fresh username now ttl = do
  token ← row_or db_failed fresh
  insert_unless (refuses_token (hash token) username)
      (add_token (hash token) (new_token username now ttl))
  pure (username, token)

-- The transaction behind the lookup of the old token.
unfoldable pub redeem :
    (hash : Text → Text)
    → Option Text
    → Text
    → ℕ
    → ℕ
    → RefreshTokenRow
    → Exec Store StoreError (Text × Text)
unfolding issue_rotated execute
redeem hash fresh old_hash now ttl t =
    if ltb t.expires_at now
    then raise invalid_refresh_token
    else (do execute (revoke old_hash); issue_rotated hash fresh t.username now ttl)

-- RotateRefreshToken: the username and the new token
unfoldable pub rotate_refresh_token :
    (hash : Text → Text) → Option Text → Text → ℕ → Exec Store StoreError (Text × Text)
unfolding transaction query usable_token redeem
rotate_refresh_token hash fresh old ttl = do
  now ← gets (λ s. s.now)
  transaction (do
    row ← query (usable_token (hash old))
    t ← row_or invalid_refresh_token row
    redeem hash fresh (hash old) now ttl t)
