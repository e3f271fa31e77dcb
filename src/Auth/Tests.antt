-- ===== src/Auth/Tests.antt =====
-- internal/auth: a small library of tokens in place of golang-jwt, and the theorems at it.
use tileserve_go.Prelude.{
  some_same, ℕ, Bool, true, false, ◌&&◌, Option, none, some, [], ◌∷◌, ◌++◌, Text, codes, nat_eq,
  text_eq, ltb, ltb→lt, if◌then◌else◌, ◌≡◌, inl, inr, refl, subst, Bool-cases, arith,
}
use tileserve_go.Prelude.Assoc.{lookup}
use tileserve_go.Prelude.Monad.{Result, ok, err, Exec}
use tileserve_go.Store.Database.{Database}
use tileserve_go.Store.ApiKeys.{active_key, resolve_api_key_signing_key}
use tileserve_go.Store.ApiKeys.Entries.{keys_of}
use tileserve_go.Store.Reads.{opened, opened-HasTrueCaches}
use tileserve_go.Auth.Jwt.{
  SigningMethod, hs256, rs256, no_kid, kid_text, Claims, Token, Key, secret_key, public_key,
  KeyError, Parsing, Jwt, IsCurrent, IsVerified, ParsedOrNot, IsDocumented, IsDocumentedForIssue,
}
use tileserve_go.Auth.Bearer.{
  nil_uuid, Credentials, token_string, parse_bearer_token, issue_login_token,
}
use tileserve_go.Auth.Bearer.Issued.{parse_bearer_token-issue}
use tileserve_go.Auth.Middleware.{middleware}
use tileserve_go.Auth.Middleware.Admitted.{IsAdmission, middleware-IsAdmission}

-- A text of one code point is a token of the key "k"; others hold their times and the subject.
abbrev toy_decode : Text → Option Token
toy_decode [] = none
toy_decode (e ∷ []) = some (record {
  method = rs256;
  kid = kid_text (codes "k");
  claims = record { subject = []; issued_at = some 0; expires_at = some e; not_before = none };
})
toy_decode (i ∷ e ∷ subject) = some (record {
  method = hs256;
  kid = no_kid;
  claims = record { subject = subject; issued_at = some i; expires_at = some e; not_before = none };
})

-- Only claims with both times and without `nbf` are signed.
abbrev toy_text : Option ℕ → Option ℕ → Option ℕ → Text → Option Text
toy_text (some i) (some e) none subject = some (i ∷ e ∷ subject)
toy_text _ _ _ subject = none

abbrev toy_verifies : SigningMethod → Key Text → Text → Bool
toy_verifies hs256 (secret_key k) text = true
toy_verifies rs256 (public_key k) text = true
toy_verifies _ k text = false

abbrev is_current : ℕ → Option ℕ → Bool
is_current now none = false
is_current now (some e) = ltb now e

module _ (f : Token → Exec Parsing KeyError (Key Text)) (text : Text) (p : Parsing) where
  abbrev toy_check :
      Token → Result KeyError (Key Text) × Parsing → Result (Unit {0}) (Claims × Bool) × Parsing
  toy_check t (err e, q) = (err tt, q)
  toy_check t (ok key, q) =
      if toy_verifies t.method key text && is_current p.store.now t.claims.expires_at
      then (ok (t.claims, true), q)
      else (err tt, q)

  abbrev toy_parse : Option Token → Result (Unit {0}) (Claims × Bool) × Parsing
  toy_parse none = (err tt, p)
  toy_parse (some t) = toy_check t (f t p)

abbrev toy : Jwt Text
toy = record {
  parse_with_claims = λ f text p. toy_parse f text p (toy_decode text);
  signed_string = λ c secret. toy_text c.issued_at c.expires_at c.not_before c.subject;
  parse_public_key = λ pem. some pem;
  decode = toy_decode;
  verifies = toy_verifies;
}

IsCurrent-of :
    (now : ℕ) (c : Claims) (o : Option ℕ)
    → c.expires_at ≡ o
    → is_current now o ≡ true
    → IsCurrent now c
IsCurrent-of now c none h e = absurd (ground arith)
IsCurrent-of now c (some x) h e = (x, h, ltb→lt now x e)

current_test : (now : ℕ) (c : Claims) → IsCurrent now c → is_current now c.expires_at ≡ true
current_test now c (e, h, l) = rw h (ground arith)

module _ (f : Token → Exec Parsing KeyError (Key Text)) (text : Text) (p : Parsing) where
  toy_checked :
      (t : Token) (r : Result KeyError (Key Text) × Parsing)
      → toy_decode text ≡ some t
      → f t p ≡ r
      → ParsedOrNot toy f text p (toy_check f text p t r)
  toy_checked t (err e, q) h g = inr (t, rw g refl)
  toy_checked t (ok key, q) h g = elim (Bool-cases (toy_verifies t.method key text)) [
    | inr bad ↦ rw bad (inr (t, rw g refl))
    | inl good ↦ elim (Bool-cases (is_current p.store.now t.claims.expires_at)) [
      | inr old ↦ rw (good, old) (inr (t, rw g refl))
      | inl new ↦
          rw (good, new)
            (record {
              token = t;
              key = key;
              decoded = h;
              resolved = g;
              signed = good;
              claims = refl;
              current = IsCurrent-of p.store.now t.claims t.claims.expires_at refl new;
            })
    ]
  ]

  toy_parsed :
      (o : Option Token) → toy_decode text ≡ o → ParsedOrNot toy f text p (toy_parse f text p o)
  toy_parsed none h = inl refl
  toy_parsed (some t) h = toy_checked t (f t p) h refl

  toy_parses :
      (q : Parsing) (c : Claims)
      → IsVerified toy f text p c q
      → toy_parse f text p (toy_decode text) ≡ (ok (c, true), q)
  toy_parses q c v =
      rw
        (
          v.decoded,
          v.resolved,
          v.signed,
          current_test p.store.now v.token.claims v.current,
          v.claims,
        )
        refl

toy_signed :
    (c : Claims) (i e b : Option ℕ) (secret text : Text)
    → c.issued_at ≡ i
    → c.expires_at ≡ e
    → c.not_before ≡ b
    → toy_text i e b c.subject ≡ some text
    → (toy_decode text ≡ some (record { method = hs256; kid = no_kid; claims = c }))
      × (toy_verifies hs256 (secret_key secret) text ≡ true)
toy_signed c (some i) (some e) none secret text h g f s =
    subst
      (λ t.
        (toy_decode t ≡ some (record { method = hs256; kid = no_kid; claims = c }))
        × (toy_verifies hs256 (secret_key secret) t ≡ true))
      (some_same s) (ground arith, refl)
toy_signed c none e b secret text h g f s = absurd (ground arith)
toy_signed c (some i) none b secret text h g f s = absurd (ground arith)
toy_signed c (some i) (some e) (some b) secret text h g f s = absurd (ground arith)

toy-IsDocumented : IsDocumented toy
toy-IsDocumented = record { parsed = λ f text p. toy_parsed f text p (toy_decode text) refl }

toy-IsDocumentedForIssue : IsDocumentedForIssue toy
toy-IsDocumentedForIssue = record {
  accepts = λ f text p q c v begun. toy_parses f text p q c v;
  signed = λ c secret text i e b s.
      toy_signed c c.issued_at c.expires_at c.not_before secret text refl refl refl s;
}

abbrev tables : Database
tables = record {
  users = [];
  groups = [];
  members = [];
  maps = [];
  versions = [];
  map_permissions = [];
  group_map_permissions = [];
  aliases = [];
  api_keys =
      (
        codes "k",
        record {
          username = codes "ann";
          public_key_pem = codes "pem";
          revoked = false;
          scoped = true;
        },
      )
      ∷ [];
  scopes = [];
  refresh_tokens = [];
}

abbrev bearing : Text → Credentials
bearing t = record { authorization = codes "Bearer " ++ t; query_token = [] }

no_nil_key : keys_of tables nil_uuid ≡ none
unfolding active_key lookup
no_nil_key = refl

middleware-IsAdmission_example :
    IsAdmission toy
      (λ t. some t)
      (codes "s")
      (token_string (bearing (9 ∷ [])))
      (opened tables)
      true
      (middleware toy (λ t. some t) (codes "s") true (bearing (9 ∷ [])) (opened tables))
middleware-IsAdmission_example =
    middleware-IsAdmission toy (λ t. some t) (codes "s") (bearing (9 ∷ [])) true (opened tables)
      toy-IsDocumented (opened-HasTrueCaches tables) no_nil_key

-- The token of the key is taken for ann's, with the key's id.
key_of_ann :
    (middleware toy (λ t. some t) (codes "s") true (bearing (9 ∷ [])) (opened tables)).0
    ≡ ok (record { username = codes "ann"; api_key = some (codes "k") })
unfolding middleware resolve_api_key_signing_key lookup
key_of_ann = refl

-- The times are cut off to seconds.
issued :
    issue_login_token toy (codes "s") (codes "ann") 1700000000 1700000001
    ≡ some (1000000000 ∷ 3601000000000 ∷ codes "ann")
unfolding issue_login_token
issued = refl

parse_bearer_token-issue_example :
    parse_bearer_token toy
      (λ t. some t)
      (codes "s")
      (bearing (1000000000 ∷ 3601000000000 ∷ codes "ann"))
      (opened tables)
    ≡ (
      record { username = codes "ann"; api_key_id = nil_uuid; had_token = true; valid = true },
      opened tables,
    )
parse_bearer_token-issue_example =
    parse_bearer_token-issue toy (λ t. some t) (codes "s") (codes "ann")
      (1000000000 ∷ 3601000000000 ∷ codes "ann") [] 1700000000 1700000001 (opened tables)
      toy-IsDocumentedForIssue issued (λ h. absurd (ground arith)) (omega arith) (omega arith)
      (omega arith)
