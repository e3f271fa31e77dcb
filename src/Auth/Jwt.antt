-- ===== src/Auth/Jwt.antt =====
-- golang-jwt, as internal/auth/jwt uses it: what the library offers, and what it documents of that.
use tileserve_go.Prelude.{ℕ, ◌*◌, ◌<◌, ◌≤◌, Bool, true, Option, none, some, Text, ◌≡◌, ◌⊎◌}
use tileserve_go.Prelude.Monad.{Result, ok, err, Exec}
use tileserve_go.Store.State.{Store, StoreError}

-- t.Method
pub data SigningMethod : Type 0 where
  hs256 rs256 other_method : SigningMethod

-- t.Header["kid"]
pub data Kid : Type 0 where
  no_kid not_text : Kid
  kid_text : Text → Kid

-- jwt.RegisteredClaims, with times in nanoseconds
pub record Claims : Type 0 where
  pub subject : Text
  pub issued_at : Option ℕ
  pub expires_at : Option ℕ
  pub not_before : Option ℕ

pub record Token : Type 0 where
  pub method : SigningMethod
  pub kid : Kid
  pub claims : Claims

-- What a jwt.Keyfunc returns: the shared secret, or a parsed public key.
pub data Key (K : Type 0) : Type 0 where
  secret_key : Text → Key K
  public_key : K → Key K

pub data KeyError : Type 0 where
  signature_invalid malformed bad_pem : KeyError
  resolver_failed : StoreError → KeyError

-- The variables that the Keyfunc of resolveTokenKey writes, and the store behind it.
pub record Parsing : Type 0 where
  pub store : Store
  pub resolved_username : Text
  pub is_api_key_token : Bool
  pub resolved_api_key_id : Text

-- The library: ParseWithClaims with WithExpirationRequired gives the claims and token.Valid.
pub record Jwt (K : Type 0) : Type 0 where
  pub parse_with_claims :
      (Token → Exec Parsing KeyError (Key K)) → Text → Exec Parsing (Unit {0}) (Claims × Bool)
  pub signed_string : Claims → Text → Option Text
  pub parse_public_key : Text → Option K
  -- the token of a text before anything is verified, and method.Verify
  pub decode : Text → Option Token
  pub verifies : SigningMethod → Key K → Text → Bool

-- The token has an expiry, which is not over.
abbrev pub IsCurrent : ℕ → Claims → Type 0
IsCurrent now c = (e : ℕ) × (c.expires_at ≡ some e) × (now < e)

-- The time before which a token is refused has come, if there is one.
abbrev pub HasBegun : ℕ → Option ℕ → Type 0
HasBegun now none = Unit
HasBegun now (some t) = t ≤ now

-- A time of whole seconds, which the number of a token, a float64, holds exactly.
abbrev pub IsWhole : Option ℕ → Type 0
IsWhole none = Unit
IsWhole (some t) = (n : ℕ) × (t ≡ n * 1000000000) × (n < 9007199254740992)

module _ {K : Type 0} (jwt : Jwt K) where
  -- The Keyfunc `f` gave a key, which verifies the text.
  pub record IsVerified (f : Token → Exec Parsing KeyError (Key K)) (text : Text) (p : Parsing)
      (c : Claims) (q : Parsing) : Type 0 where
    pub token : Token
    pub key : Key K
    pub decoded : jwt.decode text ≡ some token
    pub resolved : f token p ≡ (ok key, q)
    pub signed : jwt.verifies token.method key text ≡ true
    pub claims : c ≡ token.claims
    pub current : IsCurrent p.store.now token.claims

  -- Where parsing fails, the Keyfunc was called once or not at all.
  abbrev pub ParsedOrNot :
      (Token → Exec Parsing KeyError (Key K))
      → Text
      → Parsing
      → Result (Unit {0}) (Claims × Bool) × Parsing
      → Type 0
  ParsedOrNot f text p (ok (c, valid), q) = IsVerified f text p c q
  ParsedOrNot f text p (err e, q) = (q ≡ p) ⊎ ((token : Token) × (q ≡ (f token p).1))

  -- What the library documents of a token that it accepts: the signature and the expiry were
  -- verified.
  pub record IsDocumented : Type 0 where
    pub parsed :
        (f : Token → Exec Parsing KeyError (Key K)) (text : Text) (p : Parsing)
        → ParsedOrNot f text p (jwt.parse_with_claims f text p)

  -- What it documents of a token that it signs and of one that is in order: a token that is verified
  -- and not before its time is accepted; and a token that was signed with a secret, with times of
  -- whole seconds, is one of HS256 without a `kid`, with its claims, which the secret verifies.
  pub record IsDocumentedForIssue : Type 0 where
    pub accepts :
        (f : Token → Exec Parsing KeyError (Key K)) (text : Text) (p q : Parsing) (c : Claims)
        → IsVerified f text p c q
        → HasBegun p.store.now c.not_before
        → jwt.parse_with_claims f text p ≡ (ok (c, true), q)
    pub signed :
        (c : Claims) (secret text : Text)
        → IsWhole c.issued_at
        → IsWhole c.expires_at
        → IsWhole c.not_before
        → jwt.signed_string c secret ≡ some text
        → (jwt.decode text ≡ some (record { method = hs256; kid = no_kid; claims = c }))
          × (jwt.verifies hs256 (secret_key secret) text ≡ true)
