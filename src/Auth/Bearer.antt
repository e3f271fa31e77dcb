-- ===== src/Auth/Bearer.antt =====
-- internal/auth/jwt/verify.go and issue.go: the bearer token of a request. `jwt` is golang-jwt and
-- `parse_uuid` is uuid.Parse.
pub mod Resolved
pub mod Authentic
pub mod Issued
use tileserve_go.Prelude.{
  ℕ, ◌+◌, ◌*◌, ◌/◌, Bool, true, false, not, ◌||◌, Option, none, some, List, [], ◌∷◌, Text, codes,
  ◌==◌, nat_eq, text_eq, if◌then◌else◌, leb, length, drop,
}
use tileserve_go.Prelude.Strings.{has_prefix}
use tileserve_go.Prelude.Monad.{Result, ok, err, Exec, pure, raise, gets, modify, ◌>>=◌, ◌>>◌}
use tileserve_go.Store.State.{Store, StoreError, ApiKeySigningKey}
use tileserve_go.Store.ApiKeys.{resolve_api_key_signing_key}
use tileserve_go.Auth.Jwt.{
  SigningMethod, hs256, rs256, other_method, Kid, no_kid, not_text, kid_text, Claims, Token, Key,
  secret_key, public_key, KeyError, signature_invalid, malformed, bad_pem, resolver_failed, Parsing,
  Jwt,
}

-- uuid.Nil
abbrev pub nil_uuid : Text
nil_uuid = codes "00000000-0000-0000-0000-000000000000"

-- maxAPIKeyTokenLifetime and defaultTokenTTL
abbrev pub max_api_key_token_lifetime : ℕ
max_api_key_token_lifetime = 15 * 60 * 1000000000

abbrev pub default_token_ttl : ℕ
default_token_ttl = 60 * 60 * 1000000000

-- jwt.NewNumericDate, which cuts a time off to whole seconds
abbrev pub new_numeric_date : ℕ → ℕ
new_numeric_date t = t / 1000000000 * 1000000000

abbrev pub within : Option ℕ → Option ℕ → Bool
within (some issued) (some expires) = leb expires (issued + max_api_key_token_lifetime)
within _ _ = false

-- TokenWithinLifetime
unfoldable pub token_within_lifetime : Claims → Bool
token_within_lifetime c = within c.issued_at c.expires_at

-- strings.CutPrefix
unfoldable pub cut_prefix : Text → Text → Option Text
unfolding has_prefix
cut_prefix s p = if has_prefix s p then some (drop (length p) s) else none

-- The header Authorization and the query parameter `token`, each empty where it is missing.
pub record Credentials : Type 0 where
  pub authorization : Text
  pub query_token : Text

abbrev pub token_or_query : Option Text → Text → Text
token_or_query none query = query
token_or_query (some []) query = query
token_or_query (some (c ∷ t)) query = c ∷ t

-- The token that a request presents, if any.
unfoldable pub token_string : Credentials → Text
unfolding cut_prefix
token_string r = token_or_query (cut_prefix r.authorization (codes "Bearer ")) r.query_token

-- The results of ParseBearerToken.
pub record Bearer : Type 0 where
  pub username : Text
  pub api_key_id : Text
  pub had_token : Bool
  pub valid : Bool

abbrev pub no_token : Bearer
no_token = record { username = []; api_key_id = nil_uuid; had_token = false; valid = false }

abbrev pub invalid_token : Bearer
invalid_token = record { username = []; api_key_id = nil_uuid; had_token = true; valid = false }

abbrev pub or_error : {A : Type 0} → KeyError → Option A → Exec Parsing KeyError A
or_error e none = raise e
or_error e (some a) = pure a

abbrev pub with_store :
    {A : Type 0} → Parsing → Result StoreError A × Store → Result KeyError A × Parsing
with_store p (ok a, s) = (ok a, record p { store = s })
with_store p (err e, s) = (err (resolver_failed e), record p { store = s })

-- resolver.ResolveAPIKeySigningKey
unfoldable pub resolve_key : Text → Exec Parsing KeyError ApiKeySigningKey
resolve_key id p = with_store p (resolve_api_key_signing_key id p.store)

abbrev pub is_hs256 : SigningMethod → Bool
is_hs256 hs256 = true
is_hs256 rs256 = false
is_hs256 other_method = false

abbrev pub is_rs256 : SigningMethod → Bool
is_rs256 hs256 = false
is_rs256 rs256 = true
is_rs256 other_method = false

-- What ParseBearerToken makes of the outcome of the parse.
unfoldable pub conclude : Result (Unit {0}) (Claims × Bool) × Parsing → Bearer
unfolding token_within_lifetime
conclude (err e, p) = invalid_token
conclude (ok (claims, valid), p) =
    if not valid
    then invalid_token
    else if not p.is_api_key_token
    then record { username = claims.subject; api_key_id = nil_uuid; had_token = true; valid = true }
    else if not (token_within_lifetime claims)
    then invalid_token
    else record {
      username = p.resolved_username;
      api_key_id = p.resolved_api_key_id;
      had_token = true;
      valid = true;
    }

abbrev pub start_parsing : Store → Parsing
start_parsing s = record {
  store = s;
  resolved_username = [];
  is_api_key_token = false;
  resolved_api_key_id = nil_uuid;
}

module _ {K : Type 0} (jwt : Jwt K) where
  -- The writes of the Keyfunc, behind the last error.
  unfoldable pub record_identity : Text → ApiKeySigningKey → K → Exec Parsing KeyError (Key K)
  record_identity key_id k key = do
    modify (λ p. record p {
      is_api_key_token = true;
      resolved_username = k.username;
      resolved_api_key_id = key_id;
    })
    pure (public_key key)

  module _ (parse_uuid : Text → Option Text) where
    -- The Keyfunc on a `kid` that is a text.
    unfoldable pub api_key_of_kid : Text → Exec Parsing KeyError (Key K)
    unfolding resolve_key record_identity
    api_key_of_kid kid = do
      key_id ← or_error malformed (parse_uuid kid)
      k ← resolve_key key_id
      key ← or_error bad_pem (jwt.parse_public_key k.public_key_pem)
      record_identity key_id k key

    unfoldable pub key_for : Text → SigningMethod → Kid → Exec Parsing KeyError (Key K)
    unfolding api_key_of_kid
    key_for secret m no_kid =
        if is_hs256 m then pure (secret_key secret) else raise signature_invalid
    key_for secret m not_text = if is_rs256 m then raise malformed else raise signature_invalid
    key_for secret m (kid_text kid) =
        if is_rs256 m then api_key_of_kid kid else raise signature_invalid

    -- The Keyfunc of resolveTokenKey.
    unfoldable pub resolve_token_key : Text → Token → Exec Parsing KeyError (Key K)
    unfolding key_for
    resolve_token_key secret t = key_for secret t.method t.kid

    unfoldable pub parse_token : Text → Text → Store → Bearer × Store
    unfolding resolve_token_key conclude
    parse_token secret text s =
        let r = jwt.parse_with_claims (resolve_token_key secret) text (start_parsing s) in
        (conclude r, r.1.store)

    -- ParseBearerToken
    unfoldable pub parse_bearer_token : Text → Credentials → Store → Bearer × Store
    unfolding token_string parse_token
    parse_bearer_token secret r s =
        if token_string r == [] then (no_token, s) else parse_token secret (token_string r) s

  -- IssueLoginToken, which reads the clock for the expiry at `first` and for the time of issue at
  -- `second`
  unfoldable pub issue_login_token : Text → Text → ℕ → ℕ → Option Text
  issue_login_token secret username first second =
      jwt.signed_string
        (record {
          subject = username;
          issued_at = some (new_numeric_date second);
          expires_at = some (new_numeric_date (first + default_token_ttl));
          not_before = none;
        })
        secret
