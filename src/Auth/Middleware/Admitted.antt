-- ===== src/Auth/Middleware/Admitted.antt =====
-- internal/auth/middleware.go: whom a request that passes is from.
use tileserve_go.Prelude.{
  none-some, Bool, true, false, ◌&&◌, Option, none, some, [], Text, ◌==◌, nat_eq, text_eq, eq_iff,
  true-false, subst, if◌then◌else◌, ◌≡◌, ◌≢◌, ◌⊎◌, inl, inr, refl, sym, ap, ◌∙◌, Bool-cases, arith,
}
use tileserve_go.Prelude.Monad.{Result, ok, err}
use tileserve_go.Store.State.{Store}
use tileserve_go.Store.ApiKeys.Entries.{keys_of}
use tileserve_go.Store.Reads.{HasTrueCaches, ok_injective}
use tileserve_go.Webserver.Request.{Request, Refusal, unauthorized}
use tileserve_go.Auth.Jwt.{Jwt, IsDocumented}
use tileserve_go.Auth.Bearer.{
  nil_uuid, Credentials, token_string, Bearer, no_token, parse_token, parse_bearer_token,
}
use tileserve_go.Auth.Bearer.Authentic.{
  IsIntact, IsLogin, IsOfApiKey, IsParsed, parse_token-IsParsed,
}
use tileserve_go.Auth.Middleware.{request_of, admit, middleware}

and_false : (b : Bool) → (b && false) ≡ false
and_false true = refl
and_false false = refl

module _ {K : Type 0} (jwt : Jwt K) (parse_uuid : Text → Option Text) (secret text : Text)
    (s : Store) where
  -- Whom a request with the token `text` is from, and with which key.
  abbrev pub IsFrom : Request → Type 0
  IsFrom r =
      (IsLogin jwt parse_uuid s secret text r.username nil_uuid × (r.api_key ≡ none))
      ⊎ ((id : Text) × IsOfApiKey jwt parse_uuid s text r.username id × (r.api_key ≡ some id))

  -- The outcome of the middleware: no table is changed, the caches stay true, a refusal is a 401,
  -- and a request without a token passes without a name, where no token is required.
  pub record IsAdmission (require_token : Bool) (r : Result Refusal Request × Store) : Type 0 where
    pub intact : IsIntact s r.1
    pub refused : (e : Refusal) → r.0 ≡ err e → e ≡ unauthorized
    pub anonymous :
        text ≡ []
        → r.0 ≡ (
            if require_token
            then err unauthorized
            else ok (record { username = []; api_key = none }))
    pub from : (q : Request) → r.0 ≡ ok q → text ≢ [] → IsFrom q

  IsFrom-request_of :
      (b : Bearer)
      → keys_of s.db nil_uuid ≡ none
      → IsLogin jwt parse_uuid s secret text b.username b.api_key_id
        ⊎ IsOfApiKey jwt parse_uuid s text b.username b.api_key_id
      → IsFrom (request_of b)
  unfolding request_of
  IsFrom-request_of b free (inl h) =
      inl (
        subst (λ i. IsLogin jwt parse_uuid s secret text b.username i) h.no_key h,
        rw h.no_key refl,
      )
  IsFrom-request_of b free (inr h) = elim (Bool-cases (b.api_key_id == nil_uuid)) [
    | inl nil ↦ absurd (
        none-some (
          sym free ∙ ap (keys_of s.db) (sym ((eq_iff b.api_key_id nil_uuid).0 nil)) ∙ h.registered))
    | inr other ↦ inr (b.api_key_id, h, rw other refl)
  ]

  IsAdmission-of_parsed :
      (require_token : Bool) (b : Bearer) (t : Store)
      → keys_of s.db nil_uuid ≡ none
      → text ≢ []
      → IsParsed jwt parse_uuid s secret text (b, t)
      → IsAdmission require_token (admit require_token b t)
  unfolding admit
  IsAdmission-of_parsed require_token b t free present p = elim (Bool-cases b.valid) [
    | inl valid ↦
        rw (p.had_token, valid, and_false require_token)
          (record {
            intact = p.intact;
            refused = λ e h. absurd (ground arith);
            anonymous = λ h. absurd (present h);
            from = λ q h ne.
                subst IsFrom (ok_injective (request_of b) q h)
                  (IsFrom-request_of b free (p.authentic valid));
          })
    | inr invalid ↦
        rw (p.had_token, invalid, and_false require_token)
          (record {
            intact = p.intact;
            refused = λ e h. ground arith;
            anonymous = λ h. absurd (present h);
            from = λ q h ne. absurd (ground arith);
          })
  ]

  IsAdmission-of_none :
      (require_token : Bool)
      → HasTrueCaches s
      → text ≡ []
      → IsAdmission require_token (admit require_token no_token s)
  unfolding admit request_of
  IsAdmission-of_none true c e = record {
    intact = record { db = refl; coherent = c };
    refused = λ x h. ground arith;
    anonymous = λ h. refl;
    from = λ q h ne. absurd (ne e);
  }
  IsAdmission-of_none false c e = record {
    intact = record { db = refl; coherent = c };
    refused = λ x h. absurd (ground arith);
    anonymous = λ h. refl;
    from = λ q h ne. absurd (ne e);
  }

-- Where golang-jwt accepts only tokens that it verified, the caches are true and no API key has the id uuid.Nil:
-- a request with a token that passes Middleware is the named user's, by a login token without a
-- `kid` that the shared secret verifies by HS256, and then it has no key; or the user's of a
-- registered key, whose token that key verifies by RS256, with the key's id, and at most 15
-- minutes between its times; both are not expired. Without a token it is anonymous, or a 401 where
-- one is required. Nothing but a 401 is answered, no table is changed and the caches stay true.
pub middleware-IsAdmission :
    {K : Type 0} (jwt : Jwt K) (parse_uuid : Text → Option Text) (secret : Text) (r : Credentials)
    (require_token : Bool) (s : Store)
    → IsDocumented jwt
    → HasTrueCaches s
    → keys_of s.db nil_uuid ≡ none
    → IsAdmission jwt parse_uuid secret
        (token_string r)
        s
        require_token
        (middleware jwt parse_uuid secret require_token r s)
unfolding middleware parse_bearer_token
middleware-IsAdmission jwt parse_uuid secret r require_token s d c free =
    elim (Bool-cases (token_string r == [])) [
      | inl missing ↦ rw missing (
          IsAdmission-of_none jwt parse_uuid secret (token_string r) s require_token c
            ((eq_iff (token_string r) []).0 missing))
      | inr present ↦ rw present (
          IsAdmission-of_parsed jwt parse_uuid secret (token_string r) s require_token
            (parse_token jwt parse_uuid secret (token_string r) s).0
            (parse_token jwt parse_uuid secret (token_string r) s).1 free
            (λ e. true-false (sym ((eq_iff (token_string r) []).1 e) ∙ present))
            (parse_token-IsParsed jwt parse_uuid s c secret (token_string r) d))
    ]
