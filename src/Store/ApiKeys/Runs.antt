-- ===== src/Store/ApiKeys/Runs.antt =====
-- internal/store/api_keys.go: runs of calls about keys, and when a revoked key is refused.
use tileserve_go.Prelude.{
  ℕ, ◌+◌, ◌<◌, Bool, true, false, not, Option, none, some, List, [], ◌∷◌, Text, ◌==◌, nat_eq,
  text_eq, pair_eq, eq_iff, if◌then◌else◌, ◌≡◌, refl, sym, ap, ◌∙◌, inl, inr, Bool-cases, arith,
  none-some, true-false,
}
use tileserve_go.Prelude.Assoc.{lookup, lookup-insert_self}
use tileserve_go.Prelude.Monad.{ok, continue, pure, raise}
use tileserve_go.Prelude.Monad.Keeps.{Keeps}
use tileserve_go.Store.Database.{Database, ApiKeyRow}
use tileserve_go.Store.State.{Store, api_key_not_found, cache_ttl, ApiKeySigningKey, execute}
use tileserve_go.Store.State.Cases.{execute_cases}
use tileserve_go.Store.Accounts.{has_user, execute_or}
use tileserve_go.Store.ApiKeys.{
  if_active, active_key, resolve_api_key_signing_key, owned_key, owns_key,
}
use tileserve_go.Store.ApiKeys.Registered.{
  has_key, put_key, new_key, create_api_key, set_revoked, revoke_row, revoke_api_key,
}
use tileserve_go.Store.Reads.{opened}
use tileserve_go.Store.ApiKeys.Revoked.{
  Ends, Ends-faults, Ends-put, Keeps-Ends_resolve, late_refused,
}
use tileserve_go.Prelude.Assoc.{lookup-nil}
use tileserve_go.Store.ApiKeys.Ended.{
  IsBounded, known_key, Keeps-IsBounded_resolve, Keeps-IsBounded_revoke, Keeps-IsBounded_create,
  Keeps-Ends_revoke,
}

known_other :
    (id j : Text) (s : Store) (deadline : ℕ)
    → Ends id deadline s
    → has_key j s.db ≡ false
    → (j == id) ≡ false
known_other id j s deadline h free = elim (Bool-cases (j == id)) [
  | inl same ↦ absurd (
      true-false (
        sym (known_key id s deadline h)
        ∙ ap (λ i. has_key i s.db) (sym ((eq_iff j id).0 same))
        ∙ free))
  | inr other ↦ other
]

module _ (id : Text) (deadline : ℕ) where
  put-Ends :
      (j username pem : Text) (s : Store)
      → has_key j s.db ≡ false
      → Ends id deadline s
      → Ends id deadline
          (continue
            (λ _. pure (new_key username pem))
            (execute (put_key j (new_key username pem)) s)).1
  put-Ends j username pem s free h =
      execute_cases s (put_key j (new_key username pem))
        (λ r. Ends id deadline (continue (λ _. pure (new_key username pem)) r).1)
        (λ gs. Ends-faults id deadline s gs h)
        (λ gs.
          Ends-put id deadline j (new_key username pem) s gs (known_other id j s deadline h free) h)

  Keeps-Ends_create :
      (is_valid : Bool) (j username pem : Text)
      → Keeps (Ends id deadline) (create_api_key is_valid j username pem)
  unfolding create_api_key execute_or
  Keeps-Ends_create false j username pem = record { at = λ s h. h }
  Keeps-Ends_create true j username pem = record {
    at = λ s h. elim (Bool-cases (has_key j s.db)) [
      | inl taken ↦ rw taken h
      | inr free ↦ rw free (elim (Bool-cases (not (has_user username s.db))) [
        | inl unknown ↦ rw unknown h
        | inr known ↦ rw known (put-Ends j username pem s free h)
      ])
    ];
  }

-- What happens to the keys: a request that names one, the passing of time, and the two writes.
pub data KeyStep : Type 0 where
  resolving : Text → KeyStep
  waiting : ℕ → KeyStep
  creating : Bool → Text → Text → Text → KeyStep
  revoking : Text → Text → KeyStep

unfoldable pub step_key : KeyStep → Store → Store
unfolding resolve_api_key_signing_key create_api_key revoke_api_key
step_key (resolving j) s = (resolve_api_key_signing_key j s).1
step_key (waiting n) s = record s { now = s.now + n }
step_key (creating is_valid j username pem) s = (create_api_key is_valid j username pem s).1
step_key (revoking username j) s = (revoke_api_key username j s).1

unfoldable pub run_keys : List KeyStep → Store → Store
unfolding step_key
run_keys [] s = s
run_keys (k ∷ ks) s = run_keys ks (step_key k s)

step-IsBounded : (k : KeyStep) (s : Store) → IsBounded s → IsBounded (step_key k s)
unfolding step_key
step-IsBounded (resolving j) s h = (Keeps-IsBounded_resolve j).at s h
step-IsBounded (waiting n) s h = record { within = λ j e l. omega (arith, h.within j e l) }
step-IsBounded (creating is_valid j username pem) s h =
    (Keeps-IsBounded_create is_valid j username pem).at s h
step-IsBounded (revoking username j) s h = (Keeps-IsBounded_revoke username j).at s h

run-IsBounded : (ks : List KeyStep) (s : Store) → IsBounded s → IsBounded (run_keys ks s)
unfolding run_keys
run-IsBounded [] s h = h
run-IsBounded (k ∷ ks) s h = run-IsBounded ks (step_key k s) (step-IsBounded k s h)

module _ (id : Text) (deadline : ℕ) where
  step-Ends : (k : KeyStep) (s : Store) → Ends id deadline s → Ends id deadline (step_key k s)
  unfolding step_key
  step-Ends (resolving j) s h = (Keeps-Ends_resolve id deadline j).at s h
  step-Ends (waiting n) s h = record { row = h.row; cached = h.cached }
  step-Ends (creating is_valid j username pem) s h =
      (Keeps-Ends_create id deadline is_valid j username pem).at s h
  step-Ends (revoking username j) s h = (Keeps-Ends_revoke id deadline username j).at s h

  run-Ends : (ks : List KeyStep) (s : Store) → Ends id deadline s → Ends id deadline (run_keys ks s)
  unfolding run_keys
  run-Ends [] s h = h
  run-Ends (k ∷ ks) s h = run-Ends ks (step_key k s) (step-Ends k s h)

module _ (username id : Text) (s : Store) (b : IsBounded s) where
  Ends-set :
      (o : Option ApiKeyRow) (gs : List Bool)
      → lookup id s.db.api_keys ≡ o
      → owned_key username (if_active o) ≡ true
      → Ends id (s.now + cache_ttl) (record s { db = set_revoked id o s.db; faults = gs })
  Ends-set none gs e owned = absurd (true-false (sym owned))
  Ends-set (some k) gs e owned = record {
    row = (
      record k { revoked = true },
      lookup-insert_self id (record k { revoked = true }) s.db.api_keys,
      refl,
    );
    cached = b.within id;
  }

  Ends-of_revoked :
      (owned : Bool)
      → owns_key username id s.db ≡ owned
      → (continue
          (λ _. if owned then pure tt else raise api_key_not_found)
          (execute (revoke_row username id) s)).0
        ≡ ok tt
      → Ends id
          (s.now + cache_ttl)
          (continue
            (λ _. if owned then pure tt else raise api_key_not_found)
            (execute (revoke_row username id) s)).1
  unfolding revoke_row owns_key active_key
  Ends-of_revoked owned o =
      execute_cases s (revoke_row username id)
        (λ r.
          (continue (λ _. if owned then pure tt else raise api_key_not_found) r).0 ≡ ok tt
          → Ends id (s.now + cache_ttl)
              (continue (λ _. if owned then pure tt else raise api_key_not_found) r).1)
        (λ gs e. absurd (ground arith))
        (λ gs.
          elim owned
              as (λ c.
                owns_key username id s.db ≡ c
                → ((if c then pure tt else raise api_key_not_found)
                    (record s { db = revoke_row username id s.db; faults = gs })).0
                  ≡ ok tt
                → Ends id (s.now + cache_ttl)
                    ((if c then pure tt else raise api_key_not_found)
                      (record s { db = revoke_row username id s.db; faults = gs })).1) [
                        | true ↦ λ mine e. rw mine (Ends-set (lookup id s.db.api_keys) gs refl mine)
                        | false ↦ λ mine e. absurd (ground arith)
                      ]
            o)

empty-IsBounded : (db : Database) (gs : List Bool) → IsBounded (record (opened db) { faults = gs })
empty-IsBounded db gs = record { within = λ k e l. absurd (none-some (sym (lookup-nil k) ∙ l)) }

-- From an empty cache on, wherever calls on the database fail: once RevokeAPIKey has returned for a
-- key, and more than the fifteen seconds of the cache have gone by since, no request with the key
-- is admitted any more, whatever requests, registrations and revocations came before and since.
pub revoke_api_key_lasting :
    (db : Database) (gs : List Bool) (before after : List KeyStep) (username id : Text)
    → (revoke_api_key username id (run_keys before (record (opened db) { faults = gs }))).0 ≡ ok tt
    → (run_keys before (record (opened db) { faults = gs })).now + cache_ttl
      < (run_keys after
          (revoke_api_key username id (run_keys before (record (opened db) { faults = gs }))).1).now
    → (k : ApiKeySigningKey)
    → ¬ (
        (resolve_api_key_signing_key id (
          run_keys after
            (revoke_api_key username id
              (run_keys before (record (opened db) { faults = gs }))).1)).0
        ≡ ok k)
unfolding revoke_api_key
revoke_api_key_lasting db gs before after username id returns late k =
    let s = run_keys before (record (opened db) { faults = gs }) in
    let b = run-IsBounded before (record (opened db) { faults = gs }) (empty-IsBounded db gs) in
    let deadline = s.now + cache_ttl in
    late_refused id deadline (run_keys after (revoke_api_key username id s).1)
      (run-Ends id deadline after (revoke_api_key username id s).1
        (Ends-of_revoked username id s b (owns_key username id s.db) refl returns))
      late k
