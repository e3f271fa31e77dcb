-- ===== src/Store/RefreshTokens/Revoked.antt =====
-- internal/store/refresh_tokens.go: a revoked token stays revoked, whatever is created or rotated.
use tileserve_go.Prelude.{
  both_false, ℕ, true, false, Option, none, some, List, Text, ◌==◌, nat_eq, text_eq, eq_iff, ◌≡◌,
  refl, sym, ap, subst, Bool-cases, inl, inr, arith,
}
use tileserve_go.Prelude.Assoc.{lookup, insert, lookup-insert}
use tileserve_go.Prelude.Monad.{Result, ok, err, Exec}
use tileserve_go.Prelude.Monad.Keeps.{Keeps, keeps_rules}
use tileserve_go.Store.Database.{Database, RefreshTokenRow}
use tileserve_go.Store.State.{Store, StoreError, row_or, query, execute, transaction, roll_back}
use tileserve_go.Store.State.Cases.{execute_cases, query_cases}
use tileserve_go.Store.Maps.{insert_unless}
use tileserve_go.Store.Grants.{is_some}
use tileserve_go.Store.RefreshTokens.{
  revoke_row, revoke, has_token, refuses_token, add_token, create_refresh_token, issue_rotated,
  redeem, rotate_refresh_token,
}

abbrev pub IsRevokedRow : Option RefreshTokenRow → Type 0
IsRevokedRow none = ⊥
IsRevokedRow (some t) = t.revoked ≡ true

-- The database has the token of this hash, revoked.
abbrev pub IsRevoked : Text → Database → Type 0
IsRevoked h db = IsRevokedRow (lookup h db.refresh_tokens)

IsRevokedRow-insert :
    (h k : Text) (t : RefreshTokenRow) (rows : List (Text × RefreshTokenRow))
    → IsRevokedRow (lookup h rows)
    → ((k == h) ≡ true → t.revoked ≡ true)
    → IsRevokedRow (lookup h (insert k t rows))
IsRevokedRow-insert h k t rows p q =
    rw (lookup-insert k h t rows)
      (elim (Bool-cases (k == h)) [ inl same ↦ rw same (q same) | inr other ↦ rw other p ])

IsRevoked-revoke_row :
    (h k : Text) (o : Option RefreshTokenRow) (db : Database)
    → IsRevoked h db
    → IsRevoked h (revoke_row k o db)
IsRevoked-revoke_row h k none db p = p
IsRevoked-revoke_row h k (some t) db p =
    IsRevokedRow-insert h k (record t { revoked = true }) db.refresh_tokens p (λ e. refl)

IsRevokedRow-some : (o : Option RefreshTokenRow) → IsRevokedRow o → is_some o ≡ true
IsRevokedRow-some none p = absurd p
IsRevokedRow-some (some t) p = refl

IsRevoked-add_token :
    (h k : Text) (t : RefreshTokenRow) (db : Database)
    → has_token k db ≡ false
    → IsRevoked h db
    → IsRevoked h (add_token k t db)
IsRevoked-add_token h k t db new p = IsRevokedRow-insert h k t db.refresh_tokens p (λ same. absurd (
    ground (
      arith,
      ap (λ j. is_some (lookup j db.refresh_tokens)) ((eq_iff k h).0 same),
      IsRevokedRow-some (lookup h db.refresh_tokens) p,
    )))

module _ (h : Text) where
  abbrev pub HasRevoked : Store → Type 0
  HasRevoked s = IsRevoked h s.db

  Keeps-execute-revoke : (k : Text) → Keeps HasRevoked (execute (revoke k))
  Keeps-execute-revoke k = record {
    at = λ s p.
        execute_cases s (revoke k) (λ r. HasRevoked r.1) (λ gs. p)
          (λ gs. IsRevoked-revoke_row h k (lookup k s.db.refresh_tokens) s.db p);
  }

  Keeps-query : {A : Type 0} (f : Database → A) → Keeps HasRevoked (query f)
  Keeps-query f = record { at = λ s p. query_cases s f (λ r. HasRevoked r.1) (λ gs. p) (λ gs. p) }

  Keeps-row_or : {A : Type 0} (e : StoreError) (o : Option A) → Keeps HasRevoked (row_or e o)
  Keeps-row_or e none = record { at = λ s p. p }
  Keeps-row_or e (some a) = record { at = λ s p. p }

  Keeps-insert_unless :
      (k username : Text) (t : RefreshTokenRow)
      → Keeps HasRevoked (insert_unless (refuses_token k username) (add_token k t))
  unfolding insert_unless
  Keeps-insert_unless k username t = record {
    at = λ s p. elim (Bool-cases (refuses_token k username s.db)) [
      | inl taken ↦ rw taken p
      | inr new ↦ rw new (
          execute_cases s (add_token k t) (λ r. HasRevoked r.1) (λ gs. p)
            (λ gs. IsRevoked-add_token h k t s.db (both_false _ _ new).0 p))
    ];
  }

  roll_back-HasRevoked :
      {A : Type 0} (db : Database) (r : Result StoreError A × Store)
      → IsRevoked h db
      → HasRevoked r.1
      → HasRevoked (roll_back db r).1
  roll_back-HasRevoked db (ok a, s) p q = q
  roll_back-HasRevoked db (err e, s) p q = p

  Keeps-transaction :
      {A : Type 0} (m : Exec Store StoreError A)
      → Keeps HasRevoked m
      → Keeps HasRevoked (transaction m)
  unfolding transaction
  Keeps-transaction m k = record { at = λ s p. roll_back-HasRevoked s.db (m s) p (k.at s p) }

  ruleset token_rules = (
    keeps_rules, Keeps-execute-revoke, Keeps-query, Keeps-row_or, Keeps-insert_unless,
    Keeps-transaction,
  )

  module _ (hash : Text → Text) (fresh : Option Text) where
    Keeps-create_refresh_token :
        (username : Text) (ttl : ℕ)
        → Keeps HasRevoked (create_refresh_token hash fresh username ttl)
    unfolding create_refresh_token
    Keeps-create_refresh_token username ttl = search token_rules

    Keeps-issue_rotated :
        (username : Text) (now ttl : ℕ)
        → Keeps HasRevoked (issue_rotated hash fresh username now ttl)
    unfolding issue_rotated
    Keeps-issue_rotated username now ttl = search token_rules

    Keeps-redeem :
        (k : Text) (now ttl : ℕ) (t : RefreshTokenRow)
        → Keeps HasRevoked (redeem hash fresh k now ttl t)
    unfolding redeem
    Keeps-redeem k now ttl t = search (token_rules, Keeps-issue_rotated)

    Keeps-rotate_refresh_token :
        (old : Text) (ttl : ℕ) → Keeps HasRevoked (rotate_refresh_token hash fresh old ttl)
    unfolding rotate_refresh_token
    Keeps-rotate_refresh_token old ttl = search (token_rules, Keeps-redeem)

module _ (hash : Text → Text) where
  -- What may happen to the tokens: the two methods, and whatever leaves the table alone, such as
  -- the other methods and the passing of time.
  pub data TokenStep (s : Store) : Store → Type 0 where
    creates :
        (fresh : Option Text) (username : Text) (ttl : ℕ)
        → TokenStep s (create_refresh_token hash fresh username ttl s).1
    rotates :
        (fresh : Option Text) (old : Text) (ttl : ℕ)
        → TokenStep s (rotate_refresh_token hash fresh old ttl s).1
    leaves : {t : Store} → t.db.refresh_tokens ≡ s.db.refresh_tokens → TokenStep s t

  pub data TokenRun (s : Store) : Store → Type 0 where
    no_step : TokenRun s s
    and_then : {t u : Store} → TokenRun s t → TokenStep t u → TokenRun s u

  IsRevoked-step : (h : Text) {s t : Store} → TokenStep s t → HasRevoked h s → HasRevoked h t
  IsRevoked-step h {s} (creates fresh username ttl) p =
      (Keeps-create_refresh_token h hash fresh username ttl).at s p
  IsRevoked-step h {s} (rotates fresh old ttl) p =
      (Keeps-rotate_refresh_token h hash fresh old ttl).at s p
  IsRevoked-step h (leaves e) p = subst (λ rows. IsRevokedRow (lookup h rows)) (sym e) p

  pub IsRevoked-run : (h : Text) {s t : Store} → TokenRun s t → HasRevoked h s → HasRevoked h t
  IsRevoked-run h no_step p = p
  IsRevoked-run h (and_then run step) p = IsRevoked-step h step (IsRevoked-run h run p)
