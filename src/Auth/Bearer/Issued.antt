-- ===== src/Auth/Bearer/Issued.antt =====
-- internal/auth/jwt: a token that IssueLoginToken gives is accepted until it expires.
use tileserve_go.Prelude.{
  ℕ, ◌+◌, ◌*◌, ◌/◌, ◌<◌, true, Option, none, some, [], ◌∷◌, ◌++◌, Text, codes, nat_eq, text_eq, ◌≡◌,
  ◌≢◌, refl, ap,
}
use tileserve_go.Store.State.{Store}
use tileserve_go.Auth.Jwt.{
  hs256, no_kid, Claims, Token, secret_key, Jwt, IsVerified, IsWhole, IsDocumentedForIssue,
}
use tileserve_go.Auth.Bearer.{
  nil_uuid, new_numeric_date, default_token_ttl, token_string, conclude, start_parsing, key_for,
  resolve_token_key, parse_token, parse_bearer_token, issue_login_token,
}

-- A time whose seconds a float64 holds exactly.
abbrev pub IsExact : ℕ → Type 0
IsExact t = t / 1000000000 < 9007199254740992

new_numeric_date-IsWhole : (t : ℕ) → IsExact t → IsWhole (some (new_numeric_date t))
new_numeric_date-IsWhole t h = (t / 1000000000, refl, h)

module _ {K : Type 0} (jwt : Jwt K) (d : IsDocumentedForIssue jwt)
    (parse_uuid : Text → Option Text) where
  parse_token-issue :
      (secret username text : Text) (first second : ℕ) (s : Store)
      → issue_login_token jwt secret username first second ≡ some text
      → IsExact (first + default_token_ttl)
      → IsExact second
      → s.now < new_numeric_date (first + default_token_ttl)
      → parse_token jwt parse_uuid secret text s
        ≡ (record { username = username; api_key_id = nil_uuid; had_token = true; valid = true }, s)
  unfolding issue_login_token parse_token resolve_token_key key_for conclude
  parse_token-issue secret username text first second s e x y fresh =
      let claims : Claims = record {
        subject = username;
        issued_at = some (new_numeric_date second);
        expires_at = some (new_numeric_date (first + default_token_ttl));
        not_before = none;
      } in
      let token : Token = record { method = hs256; kid = no_kid; claims = claims } in
      let facts =
        d.signed claims secret text (new_numeric_date-IsWhole second y)
          (new_numeric_date-IsWhole (first + default_token_ttl) x) tt e in
      let verified : IsVerified jwt (resolve_token_key jwt parse_uuid secret) text (start_parsing s)
          claims (start_parsing s) =
        record {
          token = token;
          key = secret_key secret;
          decoded = facts.0;
          resolved = refl;
          signed = facts.1;
          claims = refl;
          current = (new_numeric_date (first + default_token_ttl), refl, fresh);
        } in
      let parsed =
        d.accepts (resolve_token_key jwt parse_uuid secret) text (start_parsing s) (start_parsing s)
          claims verified tt in
      ap (λ r. (conclude r, r.1.store)) parsed

-- Where golang-jwt does as documented, the token that IssueLoginToken gave for a user is valid in
-- the header Authorization before the end of an hour from its first reading of the clock, cut off to
-- a whole second: ParseBearerToken gives that user, no API key, and leaves the store as it is. The
-- two times in the token are less than 2^53 seconds.
pub parse_bearer_token-issue :
    {K : Type 0} (jwt : Jwt K) (parse_uuid : Text → Option Text) (secret username text query : Text)
    (first second : ℕ) (s : Store)
    → IsDocumentedForIssue jwt
    → issue_login_token jwt secret username first second ≡ some text
    → text ≢ []
    → IsExact (first + default_token_ttl)
    → IsExact second
    → s.now < (first + default_token_ttl) / 1000000000 * 1000000000
    → parse_bearer_token jwt parse_uuid secret
        (record { authorization = codes "Bearer " ++ text; query_token = query })
        s
      ≡ (record { username = username; api_key_id = nil_uuid; had_token = true; valid = true }, s)
unfolding parse_bearer_token token_string
parse_bearer_token-issue jwt parse_uuid secret username [] query first second s d e present x y
      fresh =
    absurd (present refl)
parse_bearer_token-issue jwt parse_uuid secret username (a ∷ text) query first second s d e present
      x y fresh =
    parse_token-issue jwt d parse_uuid secret username (a ∷ text) first second s e x y fresh
