-- ===== src/Store/ApiKeys/Ended.antt =====
-- internal/store/api_keys.go: a run of calls about keys, with a revocation in it.
use tileserve_go.Prelude.{
  ℕ, ◌+◌, ◌≤◌, Bool, true, false, Option, none, some, List, Text, ◌==◌, nat_eq, text_eq, pair_eq,
  eq_iff, if◌then◌else◌, ◌≡◌, refl, sym, ap, ◌∙◌, inl, inr, Bool-cases, arith,
}
use tileserve_go.Prelude.Assoc.{lookup, lookup-insert}
use tileserve_go.Prelude.Monad.{pure, raise, modify}
use tileserve_go.Prelude.Monad.Keeps.{Keeps, keeps_rules, Keeps-pure, Keeps-raise}
use tileserve_go.Store.Cache.{Entry, set}
use tileserve_go.Store.Database.{Database, ApiKeyRow}
use tileserve_go.Store.State.{
  Store, StoreError, cache_ttl, ApiKeySigningKey, row_or, query, execute,
}
use tileserve_go.Store.State.Cases.{execute_cases, query_cases}
use tileserve_go.Store.Accounts.{execute_or}
use tileserve_go.Store.ApiKeys.{
  active_key, resolve_uncached, resolve_api_key_signing_key, owned_key, owns_key,
}
use tileserve_go.Store.ApiKeys.Registered.{
  has_key, create_api_key, set_revoked, revoke_row, revoke_api_key,
}
use tileserve_go.Store.ApiKeys.Revoked.{Ends, Ends-inactive, Ends-faults, Ends-put, Keeps-or_else}

-- No entry of the cache lives longer than the ttl from now.
pub record IsBounded (s : Store) : Type 0 where
  pub within :
      (k : Text) (e : Entry ApiKeySigningKey)
      → lookup k s.api_key_cache ≡ some e
      → e.expires ≤ s.now + cache_ttl

IsBounded-faults : (s : Store) (gs : List Bool) → IsBounded s → IsBounded (record s { faults = gs })
IsBounded-faults s gs h = record { within = h.within }

IsBounded-written :
    (s : Store) (db : Database) (gs : List Bool)
    → IsBounded s
    → IsBounded (record s { db = db; faults = gs })
IsBounded-written s db gs h = record { within = h.within }

fresh_within :
    (s : Store) (j k : Text) (v : ApiKeySigningKey) (e : Entry ApiKeySigningKey) (b : Bool)
    → (if b
        then some (record { value = v; expires = s.now + cache_ttl })
        else lookup k s.api_key_cache)
      ≡ some e
    → ((f : Entry ApiKeySigningKey)
        → lookup k s.api_key_cache ≡ some f
        → f.expires ≤ s.now + cache_ttl)
    → e.expires ≤ s.now + cache_ttl
fresh_within s j k v e true l h = ground (arith, l)
fresh_within s j k v e false l h = h e l

IsBounded-cached :
    (s : Store) (j : Text) (v : ApiKeySigningKey)
    → IsBounded s
    → IsBounded (record s { api_key_cache = set cache_ttl s.now j v s.api_key_cache })
unfolding set
IsBounded-cached s j v h = record {
  within = λ k e l.
      fresh_within s j k v e (j == k)
        (sym (lookup-insert j k (record { value = v; expires = s.now + cache_ttl }) s.api_key_cache)
          ∙ l)
        (h.within k);
}

row-IsBounded : {A : Type 0} (e : StoreError) (o : Option A) → Keeps IsBounded (row_or e o)
row-IsBounded e none = Keeps-raise e
row-IsBounded e (some a) = Keeps-pure a

query-IsBounded : {A : Type 0} (f : Database → A) → Keeps IsBounded (query f)
query-IsBounded f = record {
  at = λ s h.
      query_cases s f (λ r. IsBounded r.1) (λ gs. IsBounded-faults s gs h)
        (λ gs. IsBounded-faults s gs h);
}

execute-IsBounded : (f : Database → Database) → Keeps IsBounded (execute f)
execute-IsBounded f = record {
  at = λ s h.
      execute_cases s f (λ r. IsBounded r.1) (λ gs. IsBounded-faults s gs h)
        (λ gs. IsBounded-written s (f s.db) gs h);
}

cached-IsBounded :
    (j : Text) (v : ApiKeySigningKey)
    → Keeps {E = StoreError} IsBounded
        (modify (λ s. record s { api_key_cache = set cache_ttl s.now j v s.api_key_cache }))
cached-IsBounded j v = record { at = λ s h. IsBounded-cached s j v h }

pub Keeps-IsBounded_resolve : (j : Text) → Keeps IsBounded (resolve_api_key_signing_key j)
unfolding resolve_api_key_signing_key resolve_uncached
Keeps-IsBounded_resolve j =
    search (keeps_rules, query-IsBounded, row-IsBounded, cached-IsBounded, Keeps-or_else) depth 12

Keeps-found :
    (P : Store → Type 0) (b : Bool) (e : StoreError) → Keeps P (if b then pure tt else raise e)
Keeps-found P true e = Keeps-pure tt
Keeps-found P false e = Keeps-raise e

pub Keeps-IsBounded_revoke : (username j : Text) → Keeps IsBounded (revoke_api_key username j)
unfolding revoke_api_key
Keeps-IsBounded_revoke username j = search (keeps_rules, execute-IsBounded, Keeps-found) depth 12

pub Keeps-IsBounded_create :
    (is_valid : Bool) (j username pem : Text)
    → Keeps IsBounded (create_api_key is_valid j username pem)
unfolding create_api_key execute_or
Keeps-IsBounded_create is_valid j username pem =
    search (keeps_rules, execute-IsBounded, Keeps-found) depth 14

pub known_key : (id : Text) (s : Store) (deadline : ℕ) → Ends id deadline s → has_key id s.db ≡ true
known_key id s deadline h = rw h.row.1 refl

module _ (id : Text) (deadline : ℕ) where
  not_owned :
      (username j : Text) (s : Store)
      → (j == id) ≡ true
      → Ends id deadline s
      → owns_key username j s.db ≡ false
  unfolding owns_key
  not_owned username j s same h =
      ap (λ i. owned_key username (active_key i s.db)) ((eq_iff j id).0 same)
      ∙ rw (Ends-inactive id deadline s h) refl

  set_revoked-Ends :
      (j : Text) (o : Option ApiKeyRow) (s : Store) (gs : List Bool)
      → (j == id) ≡ false
      → Ends id deadline s
      → Ends id deadline (record s { db = set_revoked j o s.db; faults = gs })
  set_revoked-Ends j none s gs other h = Ends-faults id deadline s gs h
  set_revoked-Ends j (some k) s gs other h =
      Ends-put id deadline j (record k { revoked = true }) s gs other h

  revoke_row-Ends :
      (username j : Text) (s : Store) (gs : List Bool)
      → Ends id deadline s
      → Ends id deadline (record s { db = revoke_row username j s.db; faults = gs })
  unfolding revoke_row
  revoke_row-Ends username j s gs h = elim (Bool-cases (j == id)) [
    | inl same ↦ rw (not_owned username j s same h) (Ends-faults id deadline s gs h)
    | inr other ↦ elim (Bool-cases (owns_key username j s.db)) [
      | inl owned ↦ rw owned (set_revoked-Ends j (lookup j s.db.api_keys) s gs other h)
      | inr free ↦ rw free (Ends-faults id deadline s gs h)
    ]
  ]

  execute-Ends : (username j : Text) → Keeps (Ends id deadline) (execute (revoke_row username j))
  execute-Ends username j = record {
    at = λ s h.
        execute_cases s (revoke_row username j) (λ r. Ends id deadline r.1)
          (λ gs. Ends-faults id deadline s gs h) (λ gs. revoke_row-Ends username j s gs h);
  }

  found-Ends :
      (b : Bool) (e : StoreError) → Keeps (Ends id deadline) (if b then pure tt else raise e)
  found-Ends = Keeps-found (Ends id deadline)

  pub Keeps-Ends_revoke : (username j : Text) → Keeps (Ends id deadline) (revoke_api_key username j)
  unfolding revoke_api_key
  Keeps-Ends_revoke username j = search (keeps_rules, execute-Ends, found-Ends) depth 12
