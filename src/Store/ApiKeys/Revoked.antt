-- ===== src/Store/ApiKeys/Revoked.antt =====
-- internal/store/api_keys.go: how long a revoked key is still resolved.
use tileserve_go.Prelude.{
  ℕ, ◌+◌, ◌≤◌, ◌<◌, Bool, true, false, Option, none, some, List, Text, ◌==◌, nat_eq, text_eq,
  pair_eq, eq_iff, ◌≡◌, refl, sym, ap, ◌∙◌, inl, inr, Bool-cases, arith, none-some,
}
use tileserve_go.Prelude.Assoc.{lookup}
use tileserve_go.Prelude.Assoc.Entries.{lookup_other}
use tileserve_go.Prelude.Monad.{ok, Exec, continue, pure, modify, ◌>>=◌, ◌>>◌}
use tileserve_go.Prelude.Monad.Keeps.{Keeps, Keeps-bind, Keeps-gets, Keeps-pure}
use tileserve_go.Store.Cache.{Entry, live_value, get, set}
use tileserve_go.Store.Database.{ApiKeyRow}
use tileserve_go.Store.State.{
  Store, StoreError, invalid_api_key, cache_ttl, ApiKeySigningKey, row_or,
}
use tileserve_go.Store.State.Cases.{query_cases}
use tileserve_go.Store.Maps.{or_else}
use tileserve_go.Store.ApiKeys.{
  if_active, active_key, signing_key_of, resolve_uncached, resolve_api_key_signing_key,
}
use tileserve_go.Store.ApiKeys.Registered.{put_key}

-- The key is revoked, and its entry in the cache ends by `deadline`.
pub record Ends (id : Text) (deadline : ℕ) (s : Store) : Type 0 where
  pub row : (k : ApiKeyRow) × (lookup id s.db.api_keys ≡ some k) × (k.revoked ≡ true)
  pub cached :
      (e : Entry ApiKeySigningKey) → lookup id s.api_key_cache ≡ some e → e.expires ≤ deadline

pub Keeps-or_else :
    {A : Type 0} (P : Store → Type 0) (o : Option A) (m : Exec Store StoreError A)
    → Keeps P m
    → Keeps P (or_else o m)
Keeps-or_else P none m k = k
Keeps-or_else P (some a) m k = Keeps-pure a

revoked_inactive :
    (o : Option ApiKeyRow) (k : ApiKeyRow) → o ≡ some k → k.revoked ≡ true → if_active o ≡ none
revoked_inactive o k e r = rw (e, r) refl

module _ (id : Text) (deadline : ℕ) where
  pub Ends-inactive : (s : Store) → Ends id deadline s → active_key id s.db ≡ none
  unfolding active_key
  Ends-inactive s h = revoked_inactive (lookup id s.db.api_keys) h.row.0 h.row.1 h.row.2

  pub Ends-faults :
      (s : Store) (gs : List Bool)
      → Ends id deadline s
      → Ends id deadline (record s { faults = gs })
  Ends-faults s gs h = record { row = h.row; cached = h.cached }

  Ends-cached :
      (j : Text) (k : ApiKeySigningKey) (s : Store)
      → (j == id) ≡ false
      → Ends id deadline s
      → Ends id deadline (record s { api_key_cache = set cache_ttl s.now j k s.api_key_cache })
  unfolding set
  Ends-cached j k s other h = record {
    row = h.row;
    cached = λ e l. h.cached e (
        sym (
          lookup_other j id (record { value = k; expires = s.now + cache_ttl }) s.api_key_cache
            other)
        ∙ l);
  }

  pub Ends-put :
      (j : Text) (k : ApiKeyRow) (s : Store) (gs : List Bool)
      → (j == id) ≡ false
      → Ends id deadline s
      → Ends id deadline (record s { db = put_key j k s.db; faults = gs })
  Ends-put j k s gs other h = record {
    row = (h.row.0, lookup_other j id k s.db.api_keys other ∙ h.row.1, h.row.2);
    cached = h.cached;
  }

  row-Ends :
      (j : Text) (o : Option ApiKeySigningKey) (s : Store)
      → ((j == id) ≡ true → o ≡ none)
      → Ends id deadline s
      → Ends id deadline
          (continue
            (λ k.
              modify (λ t. record t { api_key_cache = set cache_ttl t.now j k t.api_key_cache })
              >> pure k)
            (row_or invalid_api_key o s)).1
  row-Ends j none s n h = h
  row-Ends j (some k) s n h = elim (Bool-cases (j == id)) [
    | inl same ↦ absurd (none-some (sym (n same)))
    | inr other ↦ Ends-cached j k s other h
  ]

  Keeps-Ends_uncached : (j : Text) → Keeps (Ends id deadline) (resolve_uncached j)
  unfolding resolve_uncached
  Keeps-Ends_uncached j = record {
    at = λ s h.
        query_cases s (λ db. signing_key_of (active_key j db))
          (λ r.
            Ends id deadline
              (continue
                (λ row. row_or invalid_api_key row >>= λ k.
                  modify (λ t. record t { api_key_cache = set cache_ttl t.now j k t.api_key_cache })
                  >> pure k)
                r).1)
          (λ gs. Ends-faults s gs h)
          (λ gs.
            row-Ends j (signing_key_of (active_key j s.db)) (record s { faults = gs })
              (λ same.
                ap (λ i. signing_key_of (active_key i s.db)) ((eq_iff j id).0 same)
                ∙ ap signing_key_of (Ends-inactive s h))
              (Ends-faults s gs h));
  }

  pub Keeps-Ends_resolve : (j : Text) → Keeps (Ends id deadline) (resolve_api_key_signing_key j)
  unfolding resolve_api_key_signing_key
  Keeps-Ends_resolve j =
      Keeps-bind _ _ (Keeps-gets _)
        (λ hit. Keeps-or_else (Ends id deadline) hit (resolve_uncached j) (Keeps-Ends_uncached j))

  -- Past the deadline the cache has no live entry, so the tables decide.
  expired :
      (now : ℕ) (o : Option (Entry ApiKeySigningKey))
      → deadline < now
      → ((e : Entry ApiKeySigningKey) → o ≡ some e → e.expires ≤ deadline)
      → live_value now o ≡ none
  unfolding live_value
  expired now none l h = refl
  expired now (some e) l h = ground (arith, h e refl)

  refused :
      (s : Store)
      → Ends id deadline s
      → (k : ApiKeySigningKey) → ¬ ((resolve_uncached id s).0 ≡ ok k)
  unfolding resolve_uncached
  refused s h k =
      query_cases s (λ db. signing_key_of (active_key id db))
        (λ r. ¬ (
          (continue
            (λ row. row_or invalid_api_key row >>= λ k.
              modify (λ t. record t { api_key_cache = set cache_ttl t.now id k t.api_key_cache })
              >> pure k)
            r).0
          ≡ ok k))
        (λ gs e. ground arith) (λ gs. rw (Ends-inactive s h) (λ e. ground arith))

  pub late_refused :
      (s : Store)
      → Ends id deadline s
      → deadline < s.now
      → (k : ApiKeySigningKey) → ¬ ((resolve_api_key_signing_key id s).0 ≡ ok k)
  unfolding resolve_api_key_signing_key get
  late_refused s h l k = rw (expired s.now (lookup id s.api_key_cache) l h.cached) (refused s h k)
