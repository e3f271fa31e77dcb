-- ===== src/Store/RefreshTokens/SingleUse.antt =====
-- internal/store/refresh_tokens.go: a token that was redeemed is of no further use.
use tileserve_go.Prelude.{
  both_false, ℕ, Bool, true, false, Option, none, some, List, Text, ◌==◌, nat_eq, text_eq, eq_iff,
  ltb, ◌≡◌, refl, sym, ap, ◌∙◌, Bool-cases, inl, inr, arith,
}
use tileserve_go.Prelude.Assoc.{lookup, insert, lookup-insert, lookup-insert_self}
use tileserve_go.Prelude.Monad.{Result, ok, err, continue, pure, ◌>>=◌}
use tileserve_go.Store.Database.{Database, RefreshTokenRow}
use tileserve_go.Store.State.{
  Store, StoreError, invalid_refresh_token, row_or, transaction, roll_back,
}
use tileserve_go.Store.State.Cases.{execute_cases, query_cases}
use tileserve_go.Store.Maps.{insert_unless}
use tileserve_go.Store.Grants.{is_some}
use tileserve_go.Store.RefreshTokens.Revoked.{IsRevokedRow, IsRevoked, TokenRun, IsRevoked-run}
use tileserve_go.Store.RefreshTokens.{
  if_unrevoked, usable_token, revoke_row, revoke, has_token, refuses_token, add_token, new_token,
  issue_rotated, redeem, rotate_refresh_token,
}

-- The hash of no usable token.
abbrev pub IsSpent : Text → Database → Type 0
IsSpent h db = usable_token h db ≡ none

abbrev pub HasFailed : {A : Type 0} → Result StoreError A → Type 0
HasFailed (ok a) = ⊥
HasFailed (err e) = Unit

-- The row of a token of this user that has not expired.
abbrev pub IsOwner : Text → ℕ → Option RefreshTokenRow → Type 0
IsOwner username now none = ⊥
IsOwner username now (some t) = (t.username ≡ username) × (ltb t.expires_at now ≡ false)

IsRevokedRow-unusable : (o : Option RefreshTokenRow) → IsRevokedRow o → if_unrevoked o ≡ none
IsRevokedRow-unusable none p = refl
IsRevokedRow-unusable (some t) p = rw p refl

unknown_apart :
    (h k : Text) (t : RefreshTokenRow) (rows : List (Text × RefreshTokenRow))
    → is_some (lookup k (insert h t rows)) ≡ false
    → (k == h) ≡ false
unknown_apart h k t rows new = ground (arith, lookup-insert h k t rows, eq_iff h k, eq_iff k h)

module _ (hash : Text → Text) (old : Text) (now ttl : ℕ) where
  -- What a successful rotation has done to the database.
  pub record IsRotation (before : Database) (username token : Text) (after : Database)
      : Type 0 where
    pub owned : IsOwner username now (usable_token (hash old) before)
    pub spent : IsRevoked (hash old) after
    pub issued : usable_token (hash token) after ≡ some (new_token username now ttl)

  -- A rotation that fails leaves the database as it was.
  abbrev pub RotatesOrNot : Database → Result StoreError (Text × Text) × Store → Type 0
  RotatesOrNot before (ok (username, token), s) = IsRotation before username token s.db
  RotatesOrNot before (err e, s) = s.db ≡ before

  IsRotation-of_rows :
      (db : Database) (t u : RefreshTokenRow) (token : Text)
      → lookup (hash old) db.refresh_tokens ≡ some u
      → if_unrevoked (some u) ≡ some t
      → ltb t.expires_at now ≡ false
      → has_token (hash token) (revoke_row (hash old) (some u) db) ≡ false
      → IsRotation db t.username token (
          add_token (hash token) (new_token t.username now ttl) (revoke_row (hash old) (some u) db))
  unfolding usable_token
  IsRotation-of_rows db t u token known usable valid new = record {
    owned = rw known (rw usable (refl, valid));
    spent =
        rw
          (
            lookup-insert (hash token) (hash old) (new_token t.username now ttl)
                (insert (hash old) (record u { revoked = true }) db.refresh_tokens),
            unknown_apart (hash old) (hash token) (record u { revoked = true }) db.refresh_tokens
                new,
            lookup-insert_self (hash old) (record u { revoked = true }) db.refresh_tokens,
          )
          refl;
    issued =
        rw
          (lookup-insert_self (hash token) (new_token t.username now ttl)
            (insert (hash old) (record u { revoked = true }) db.refresh_tokens))
          refl;
  }

  issue_rotated_outcome :
      (db : Database) (t u : RefreshTokenRow) (fresh : Option Text) (s : Store)
      → lookup (hash old) db.refresh_tokens ≡ some u
      → if_unrevoked (some u) ≡ some t
      → ltb t.expires_at now ≡ false
      → s.db ≡ revoke_row (hash old) (some u) db
      → RotatesOrNot db (roll_back db (issue_rotated hash fresh t.username now ttl s))
  unfolding issue_rotated insert_unless
  issue_rotated_outcome db t u none s known usable valid e = refl
  issue_rotated_outcome db t u (some token) s known usable valid e =
      elim (Bool-cases (refuses_token (hash token) t.username s.db)) [
        | inl taken ↦ rw taken refl
        | inr new ↦ rw new (
            execute_cases s (add_token (hash token) (new_token t.username now ttl))
              (λ r. RotatesOrNot db (roll_back db (continue (λ _. pure (t.username, token)) r)))
              (λ gs. refl)
              (λ gs. rw e (
                IsRotation-of_rows db t u token known usable valid
                  (ap (has_token (hash token)) (sym e) ∙ (both_false _ _ new).0))))
      ]

  redeem_outcome :
      (fresh : Option Text) (s : Store) (gs : List Bool) (o : Option RefreshTokenRow)
      (u : Option RefreshTokenRow)
      → lookup (hash old) s.db.refresh_tokens ≡ u
      → if_unrevoked u ≡ o
      → RotatesOrNot s.db (
          roll_back s.db (
            (row_or invalid_refresh_token o >>= λ t. redeem hash fresh (hash old) now ttl t)
              (record s { faults = gs })))
  unfolding redeem
  redeem_outcome fresh s gs none u known usable = refl
  redeem_outcome fresh s gs (some t) none known usable = absurd (ground arith)
  redeem_outcome fresh s gs (some t) (some u) known usable =
      elim (Bool-cases (ltb t.expires_at now)) [
        | inl expired ↦ rw expired refl
        | inr valid ↦ rw valid (
            execute_cases (record s { faults = gs }) (revoke (hash old))
              (λ r.
                RotatesOrNot s.db
                  (roll_back s.db (continue (λ _. issue_rotated hash fresh t.username now ttl) r)))
              (λ gs2. refl)
              (λ gs2.
                issue_rotated_outcome s.db t u fresh
                  (record s { db = revoke (hash old) s.db; faults = gs2 }) known usable valid
                  (ap (λ v. revoke_row (hash old) v s.db) known)))
      ]

module _ (hash : Text → Text) where
  -- If RotateRefreshToken succeeds, the old token was one of the user whose name it returns,
  -- neither revoked nor expired; the old token is now revoked, and the new token is usable, by that user and
  -- until `ttl` from now. If it fails, also through the database, the database is as before.
  pub rotate_refresh_token-RotatesOrNot :
      (fresh : Option Text) (old : Text) (ttl : ℕ) (s : Store)
      → RotatesOrNot hash old s.now ttl s.db (rotate_refresh_token hash fresh old ttl s)
  unfolding rotate_refresh_token transaction usable_token
  rotate_refresh_token-RotatesOrNot fresh old ttl s =
      query_cases s (usable_token (hash old))
        (λ r. RotatesOrNot hash old s.now ttl s.db (
          roll_back s.db (
            continue
              (λ row. row_or invalid_refresh_token row >>= redeem hash fresh (hash old) s.now ttl)
              r)))
        (λ gs. refl)
        (λ gs.
          redeem_outcome hash old s.now ttl fresh s gs (usable_token (hash old) s.db)
            (lookup (hash old) s.db.refresh_tokens) refl refl)

  rotate_of_spent :
      (fresh : Option Text) (old : Text) (ttl : ℕ) (s : Store)
      → IsSpent (hash old) s.db
      → HasFailed (rotate_refresh_token hash fresh old ttl s).0
  unfolding rotate_refresh_token transaction usable_token
  rotate_of_spent fresh old ttl s e =
      query_cases s (usable_token (hash old))
        (λ r.
          HasFailed
            (roll_back s.db (
              continue
                (λ row. row_or invalid_refresh_token row >>= redeem hash fresh (hash old) s.now ttl)
                r)).0)
        (λ gs. tt) (λ gs. rw e tt)

  IsRevoked-of_success :
      (old : Text) (now ttl : ℕ) (before : Database) (r : Result StoreError (Text × Text) × Store)
      → RotatesOrNot hash old now ttl before r
      → ¬ (HasFailed r.0)
      → IsRevoked (hash old) r.1.db
  IsRevoked-of_success old now ttl before (ok (u, t), s) h ne = h.spent
  IsRevoked-of_success old now ttl before (err e, s) h ne = absurd (ne tt)

  IsSpent-of_revoked : (h : Text) (db : Database) → IsRevoked h db → IsSpent h db
  unfolding usable_token
  IsSpent-of_revoked h db p = IsRevokedRow-unusable (lookup h db.refresh_tokens) p

  -- A refresh token is redeemed once: after a RotateRefreshToken that succeeds and any calls of
  -- CreateRefreshToken and RotateRefreshToken and any changes that leave the table of the refresh
  -- tokens alone, RotateRefreshToken with the same old token fails, whatever random tokens
  -- are drawn, also when they repeat, and whether or not calls on the database fail.
  pub rotate_refresh_token_once :
      (fresh again : Option Text) (old : Text) (ttl ttl2 : ℕ) (s later : Store)
      → ¬ (HasFailed (rotate_refresh_token hash fresh old ttl s).0)
      → TokenRun hash (rotate_refresh_token hash fresh old ttl s).1 later
      → HasFailed (rotate_refresh_token hash again old ttl2 later).0
  rotate_refresh_token_once fresh again old ttl ttl2 s later succeeds run =
      rotate_of_spent again old ttl2 later (
        IsSpent-of_revoked (hash old) later.db (
          IsRevoked-run hash (hash old) run (
            IsRevoked-of_success old s.now ttl s.db (rotate_refresh_token hash fresh old ttl s)
              (rotate_refresh_token-RotatesOrNot fresh old ttl s) succeeds)))
