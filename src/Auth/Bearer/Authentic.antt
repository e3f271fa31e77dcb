-- ===== src/Auth/Bearer/Authentic.antt =====
-- internal/auth/jwt/verify.go: who a request with a valid token is from.
use tileserve_go.Prelude.{
  Bool, true, false, Option, none, some, Text, nat_eq, text_eq, ◌≡◌, ◌⊎◌, inl, inr, refl, sym, ap,
  ◌∙◌, subst, Bool-cases, arith,
}
use tileserve_go.Prelude.Monad.{Result, ok, err, continue, ◌>>=◌}
use tileserve_go.Store.State.{Store, StoreError, ApiKeySigningKey}
use tileserve_go.Store.ApiKeys.{resolve_api_key_signing_key}
use tileserve_go.Store.ApiKeys.Entries.{keys_of}
use tileserve_go.Store.Reads.{HasTrueCaches, Reads}
use tileserve_go.Auth.Jwt.{
  SigningMethod, hs256, rs256, other_method, Kid, no_kid, not_text, kid_text, Claims, Token, Key,
  secret_key, public_key, KeyError, bad_pem, malformed, Parsing, Jwt, IsCurrent, IsVerified,
  ParsedOrNot, IsDocumented,
}
use tileserve_go.Auth.Bearer.{
  nil_uuid, within, token_within_lifetime, Bearer, invalid_token, or_error, with_store, resolve_key,
  is_hs256, is_rs256, conclude, start_parsing, record_identity, api_key_of_kid, key_for,
  resolve_token_key, parse_token,
}
use tileserve_go.Auth.Bearer.Resolved.{resolve-Reads}

-- A store with the same tables and true caches.
pub record IsIntact (s t : Store) : Type 0 where
  pub db : t.db ≡ s.db
  pub coherent : HasTrueCaches t

module _ {K : Type 0} (jwt : Jwt K) (parse_uuid : Text → Option Text) (s : Store) where
  -- The key that the Keyfunc gives for an API key's token, and the identity that it records.
  pub record IsKeyOfRow (t : Token) (key : Key K) (q : Parsing) : Type 0 where
    pub kid : Text
    pub id : Text
    pub row : ApiKeySigningKey
    pub public : K
    pub kid_is : t.kid ≡ kid_text kid
    pub method_is : is_rs256 t.method ≡ true
    pub parsed : parse_uuid kid ≡ some id
    pub registered : keys_of s.db id ≡ some row
    pub pem : jwt.parse_public_key row.public_key_pem ≡ some public
    pub key_is : key ≡ public_key public
    pub flagged : q.is_api_key_token ≡ true
    pub username_is : q.resolved_username ≡ row.username
    pub id_is : q.resolved_api_key_id ≡ id

  -- The shared secret, for a token without a `kid`.
  pub record IsSharedKey (secret : Text) (t : Token) (key : Key K) (q : Parsing) : Type 0 where
    pub kid_is : t.kid ≡ no_kid
    pub method_is : is_hs256 t.method ≡ true
    pub key_is : key ≡ secret_key secret
    pub unflagged : q.is_api_key_token ≡ false

  abbrev pub IsKeyed : Text → Token → Result KeyError (Key K) × Parsing → Type 0
  IsKeyed secret t (ok key, q) =
      IsIntact s q.store × (IsSharedKey secret t key q ⊎ IsKeyOfRow t key q)
  IsKeyed secret t (err e, q) = IsIntact s q.store

  IsKeyed-registered :
      (secret kid id : Text) (m : SigningMethod) (cl : Claims) (row : ApiKeySigningKey)
      (q : Parsing) (o : Option K)
      → IsIntact s q.store
      → is_rs256 m ≡ true
      → parse_uuid kid ≡ some id
      → keys_of s.db id ≡ some row
      → jwt.parse_public_key row.public_key_pem ≡ o
      → IsKeyed secret
          (record { method = m; kid = kid_text kid; claims = cl })
          ((or_error bad_pem o >>= record_identity jwt id row) q)
  unfolding record_identity
  IsKeyed-registered secret kid id m cl row q none i r u k e = i
  IsKeyed-registered secret kid id m cl row q (some public) i r u k e = (
    record { db = i.db; coherent = i.coherent },
    inr (record {
      kid = kid;
      id = id;
      row = row;
      public = public;
      kid_is = refl;
      method_is = r;
      parsed = u;
      registered = k;
      pem = e;
      key_is = refl;
      flagged = refl;
      username_is = refl;
      id_is = refl;
    }),
  )

  IsKeyed-resolved :
      (secret kid id : Text) (m : SigningMethod) (cl : Claims) (p : Parsing)
      (r : Result StoreError ApiKeySigningKey × Store)
      → Reads (λ k. keys_of s.db id ≡ some k) s r
      → is_rs256 m ≡ true
      → parse_uuid kid ≡ some id
      → IsKeyed secret
          (record { method = m; kid = kid_text kid; claims = cl })
          (continue
            (λ k.
              or_error bad_pem (jwt.parse_public_key k.public_key_pem) >>= record_identity jwt id k)
            (with_store p r))
  IsKeyed-resolved secret kid id m cl p (ok row, t) i r u =
      IsKeyed-registered secret kid id m cl row (record p { store = t })
        (jwt.parse_public_key row.public_key_pem) (record { db = i.db; coherent = i.coherent }) r u
        (i.right row refl) refl
  IsKeyed-resolved secret kid id m cl p (err e, t) i r u = record {
    db = i.db;
    coherent = i.coherent;
  }

  module _ (c : HasTrueCaches s) (secret : Text) where
    intact : IsIntact s s
    intact = record { db = refl; coherent = c }

    IsKeyed-kid :
        (kid : Text) (m : SigningMethod) (cl : Claims) (o : Option Text)
        → is_rs256 m ≡ true
        → parse_uuid kid ≡ o
        → IsKeyed secret
            (record { method = m; kid = kid_text kid; claims = cl })
            ((or_error malformed o >>= λ id. resolve_key id >>= λ k.
                or_error bad_pem (jwt.parse_public_key k.public_key_pem)
                >>= record_identity jwt id k)
              (start_parsing s))
    unfolding resolve_key
    IsKeyed-kid kid m cl none r e = intact
    IsKeyed-kid kid m cl (some id) r e =
        IsKeyed-resolved secret kid id m cl (start_parsing s) (resolve_api_key_signing_key id s)
          (resolve-Reads id s c) r e

    IsKeyed-key_for :
        (m : SigningMethod) (kid : Kid) (cl : Claims)
        → IsKeyed secret
            (record { method = m; kid = kid; claims = cl })
            (key_for jwt parse_uuid secret m kid (start_parsing s))
    unfolding key_for api_key_of_kid
    IsKeyed-key_for hs256 no_kid cl =
        (intact, inl (record { kid_is = refl; method_is = refl; key_is = refl; unflagged = refl }))
    IsKeyed-key_for rs256 no_kid cl = intact
    IsKeyed-key_for other_method no_kid cl = intact
    IsKeyed-key_for hs256 not_text cl = intact
    IsKeyed-key_for rs256 not_text cl = intact
    IsKeyed-key_for other_method not_text cl = intact
    IsKeyed-key_for hs256 (kid_text kid) cl = intact
    IsKeyed-key_for rs256 (kid_text kid) cl = IsKeyed-kid kid rs256 cl (parse_uuid kid) refl refl
    IsKeyed-key_for other_method (kid_text kid) cl = intact

    IsKeyed-resolve :
        (t : Token) → IsKeyed secret t (resolve_token_key jwt parse_uuid secret t (start_parsing s))
    unfolding resolve_token_key
    IsKeyed-resolve t = IsKeyed-key_for t.method t.kid t.claims

  -- The text is a login token, which the shared secret verifies.
  pub record IsLogin (secret text username id : Text) : Type 0 where
    pub token : Token
    pub decoded : jwt.decode text ≡ some token
    pub kid_is : token.kid ≡ no_kid
    pub method_is : is_hs256 token.method ≡ true
    pub signed : jwt.verifies token.method (secret_key secret) text ≡ true
    pub current : IsCurrent s.now token.claims
    pub username_is : username ≡ token.claims.subject
    pub no_key : id ≡ nil_uuid

  -- The text is a token of a registered key, which that key verifies, and which lives no longer
  -- than the limit; the user is the key's, whatever the token's subject.
  pub record IsOfApiKey (text username id : Text) : Type 0 where
    pub token : Token
    pub kid : Text
    pub row : ApiKeySigningKey
    pub public : K
    pub decoded : jwt.decode text ≡ some token
    pub kid_is : token.kid ≡ kid_text kid
    pub method_is : is_rs256 token.method ≡ true
    pub parsed : parse_uuid kid ≡ some id
    pub registered : keys_of s.db id ≡ some row
    pub pem : jwt.parse_public_key row.public_key_pem ≡ some public
    pub signed : jwt.verifies token.method (public_key public) text ≡ true
    pub current : IsCurrent s.now token.claims
    pub short : within token.claims.issued_at token.claims.expires_at ≡ true
    pub username_is : username ≡ row.username

  -- What a ParseBearerToken on `text` may return.
  pub record IsParsed (secret text : Text) (r : Bearer × Store) : Type 0 where
    pub intact : IsIntact s r.1
    pub had_token : r.0.had_token ≡ true
    pub authentic :
        r.0.valid ≡ true
        → IsLogin secret text r.0.username r.0.api_key_id
          ⊎ IsOfApiKey text r.0.username r.0.api_key_id

  module _ (secret text : Text) (cl : Claims) where
    conclude-shared :
        (q : Parsing)
        (v : IsVerified jwt (resolve_token_key jwt parse_uuid secret) text (start_parsing s) cl q)
        → IsIntact s q.store
        → IsSharedKey secret v.token v.key q
        → (valid : Bool) → IsParsed secret text (conclude (ok (cl, valid), q), q.store)
    unfolding conclude
    conclude-shared q v i h false = record {
      intact = i;
      had_token = refl;
      authentic = λ e. absurd (ground arith);
    }
    conclude-shared q v i h true = rw h.unflagged (record {
      intact = i;
      had_token = refl;
      authentic = λ e. inl (record {
        token = v.token;
        decoded = v.decoded;
        kid_is = h.kid_is;
        method_is = h.method_is;
        signed = subst (λ k. jwt.verifies v.token.method k text ≡ true) h.key_is v.signed;
        current = v.current;
        username_is = ap (λ x. x.subject) v.claims;
        no_key = refl;
      });
    })

    conclude-row :
        (q : Parsing)
        (v : IsVerified jwt (resolve_token_key jwt parse_uuid secret) text (start_parsing s) cl q)
        → IsIntact s q.store
        → IsKeyOfRow v.token v.key q
        → (valid : Bool) → IsParsed secret text (conclude (ok (cl, valid), q), q.store)
    unfolding conclude token_within_lifetime
    conclude-row q v i h false = record {
      intact = i;
      had_token = refl;
      authentic = λ e. absurd (ground arith);
    }
    conclude-row q v i h true = elim (Bool-cases (within cl.issued_at cl.expires_at)) [
      | inr long ↦
          rw (h.flagged, long)
            (record { intact = i; had_token = refl; authentic = λ e. absurd (ground arith) })
      | inl short ↦
          rw (h.flagged, short)
            (record {
              intact = i;
              had_token = refl;
              authentic = λ e. inr (record {
                token = v.token;
                kid = h.kid;
                row = h.row;
                public = h.public;
                decoded = v.decoded;
                kid_is = h.kid_is;
                method_is = h.method_is;
                parsed = h.parsed ∙ ap some (sym h.id_is);
                registered = ap (keys_of s.db) h.id_is ∙ h.registered;
                pem = h.pem;
                signed = subst (λ k. jwt.verifies v.token.method k text ≡ true) h.key_is v.signed;
                current = v.current;
                short = ap (λ (x : Claims). within x.issued_at x.expires_at) (sym v.claims) ∙ short;
                username_is = h.username_is;
              });
            })
    ]

    conclude-ok :
        (q : Parsing)
        (v : IsVerified jwt (resolve_token_key jwt parse_uuid secret) text (start_parsing s) cl q)
        → IsKeyed secret v.token (ok v.key, q)
        → (valid : Bool) → IsParsed secret text (conclude (ok (cl, valid), q), q.store)
    conclude-ok q v (i, inl h) valid = conclude-shared q v i h valid
    conclude-ok q v (i, inr h) valid = conclude-row q v i h valid

  IsIntact-of_keyed :
      (secret : Text) (t : Token) (r : Result KeyError (Key K) × Parsing)
      → IsKeyed secret t r
      → IsIntact s r.1.store
  IsIntact-of_keyed secret t (ok key, q) h = h.0
  IsIntact-of_keyed secret t (err e, q) h = h

  module _ (c : HasTrueCaches s) (secret text : Text) where
    invalid-IsParsed : (t : Store) → IsIntact s t → IsParsed secret text (invalid_token, t)
    invalid-IsParsed t i = record {
      intact = i;
      had_token = refl;
      authentic = λ e. absurd (ground arith);
    }

    conclude-IsParsed :
        (r : Result (Unit {0}) (Claims × Bool) × Parsing)
        → ParsedOrNot jwt (resolve_token_key jwt parse_uuid secret) text (start_parsing s) r
        → IsParsed secret text (conclude r, r.1.store)
    unfolding conclude
    conclude-IsParsed (ok (cl, valid), q) v =
        conclude-ok secret text cl q v
          (subst (IsKeyed secret v.token) v.resolved (IsKeyed-resolve c secret v.token)) valid
    conclude-IsParsed (err e, q) (inl same) = invalid-IsParsed q.store (rw same (intact c secret))
    conclude-IsParsed (err e, q) (inr (t, same)) = invalid-IsParsed q.store (
        rw same (
          IsIntact-of_keyed secret t (resolve_token_key jwt parse_uuid secret t (start_parsing s))
            (IsKeyed-resolve c secret t)))

    pub parse_token-IsParsed :
        IsDocumented jwt → IsParsed secret text (parse_token jwt parse_uuid secret text s)
    unfolding parse_token
    parse_token-IsParsed d =
        conclude-IsParsed
          (jwt.parse_with_claims (resolve_token_key jwt parse_uuid secret) text (start_parsing s))
          (d.parsed (resolve_token_key jwt parse_uuid secret) text (start_parsing s))
