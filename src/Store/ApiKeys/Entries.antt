-- ===== src/Store/ApiKeys/Entries.antt =====
-- internal/store: what the two caches of keys serve.
use tileserve_go.Prelude.{
  Bool, Option, none, some, List, Text, nat_eq, text_eq, pair_eq, if◌then◌else◌, ◌≡◌, refl, ◌∙◌,
  arith,
}
use tileserve_go.Prelude.Monad.{Result, ok, err, continue, pure, modify, ◌>>=◌, ◌>>◌}
use tileserve_go.Store.Cache.{get, set}
use tileserve_go.Store.Cache.Coherent.{IsCoherent, IsCoherent-set}
use tileserve_go.Store.Database.{Database}
use tileserve_go.Store.State.{
  Store, StoreError, invalid_api_key, cache_ttl, row_or, ApiKeySigningKey, ApiKeyScopeEntry,
}
use tileserve_go.Store.State.Cases.{query_cases}
use tileserve_go.Store.Maps.{or_else}
use tileserve_go.Store.ApiKeys.{
  active_key, signing_key_of, scoped_of, api_key_scoped_flag, select_scope, scope_uncached,
  scope_entry,
}

abbrev pub keys_of : Database → Text → Option ApiKeySigningKey
keys_of db id = signing_key_of (active_key id db)

abbrev pub scopes_of : Database → Text × Text → Option ApiKeyScopeEntry
scopes_of db k = some (select_scope k.0 k.1 db)

-- The two caches serve what the tables say.
pub record HasTrueKeys (s : Store) : Type 0 where
  pub keys : IsCoherent (keys_of s.db) s.now s.api_key_cache
  pub scopes : IsCoherent (scopes_of s.db) s.now s.api_key_scope_cache

-- What the tables say of a key and a map: `none` for a key that is unknown or revoked, and no
-- entry for an unscoped one.
abbrev pub scope_of_key :
    Option ApiKeySigningKey → ApiKeyScopeEntry → Option (Option ApiKeyScopeEntry)
scope_of_key none e = none
scope_of_key (some k) e = if k.scoped then some (some e) else some none

abbrev pub scope_in : Text → Text → Database → Option (Option ApiKeyScopeEntry)
scope_in key map_id db = scope_of_key (keys_of db key) (select_scope key map_id db)

-- An action on keys leaves the tables and returns what `f` says of them, `none` for an invalid key.
pub record IsReadOf {A : Type 0} (f : Option A) (s : Store) (r : Result StoreError A × Store)
    : Type 0 where
  pub db : r.1.db ≡ s.db
  pub coherent : HasTrueKeys r.1
  pub right : (a : A) → r.0 ≡ ok a → f ≡ some a
  pub invalid : r.0 ≡ err invalid_api_key → f ≡ none

abbrev pub flag_in : Option ApiKeySigningKey → Option Bool
flag_in none = none
flag_in (some k) = some k.scoped

module _ (key : Text) (s : Store) (c : HasTrueKeys s) where
  flag_row-IsReadOf :
      (gs : List Bool) (row : Option ApiKeySigningKey)
      → keys_of s.db key ≡ row
      → IsReadOf
          (flag_in (keys_of s.db key))
          s
          ((row_or invalid_api_key row >>= λ k. pure k.scoped) (record s { faults = gs }))
  flag_row-IsReadOf gs none e = record {
    db = refl;
    coherent = record { keys = c.keys; scopes = c.scopes };
    right = λ b h. absurd (ground arith);
    invalid = λ h. rw e refl;
  }
  flag_row-IsReadOf gs (some k) e = record {
    db = refl;
    coherent = record { keys = c.keys; scopes = c.scopes };
    right = λ b h. rw e (ground arith);
    invalid = λ h. absurd (ground arith);
  }

  flag-IsReadOf :
      (hit : Option ApiKeySigningKey)
      → get s.now key s.api_key_cache ≡ hit
      → IsReadOf (flag_in (keys_of s.db key)) s (scoped_of hit key s)
  unfolding scoped_of
  flag-IsReadOf (some k) e = record {
    db = refl;
    coherent = c;
    right = λ b h. rw (c.keys.agrees key k e) (ground arith);
    invalid = λ h. absurd (ground arith);
  }
  flag-IsReadOf none e =
      query_cases s (λ db. signing_key_of (active_key key db))
        (λ r.
          IsReadOf (flag_in (keys_of s.db key)) s
            (continue (λ row. row_or invalid_api_key row >>= λ k. pure k.scoped) r))
        (λ gs. record {
          db = refl;
          coherent = record { keys = c.keys; scopes = c.scopes };
          right = λ b h. absurd (ground arith);
          invalid = λ h. absurd (ground arith);
        })
        (λ gs. flag_row-IsReadOf gs (keys_of s.db key) refl)

  pub api_key_scoped_flag-IsReadOf :
      IsReadOf (flag_in (keys_of s.db key)) s (api_key_scoped_flag key s)
  unfolding api_key_scoped_flag
  api_key_scoped_flag-IsReadOf = flag-IsReadOf (get s.now key s.api_key_cache) refl

module _ (key map_id : Text) (s : Store) (c : HasTrueKeys s) where
  entry-IsReadOf :
      (hit : Option ApiKeyScopeEntry)
      → get s.now (key, map_id) s.api_key_scope_cache ≡ hit
      → IsReadOf (some (select_scope key map_id s.db)) s (or_else hit (scope_uncached key map_id) s)
  unfolding scope_uncached
  entry-IsReadOf (some e) h = record {
    db = refl;
    coherent = c;
    right = λ a g. c.scopes.agrees (key, map_id) e h ∙ (ground arith);
    invalid = λ g. absurd (ground arith);
  }
  entry-IsReadOf none h =
      query_cases s (select_scope key map_id)
        (λ r. IsReadOf (some (select_scope key map_id s.db)) s (
          continue
            (λ entry.
              modify (λ t. record t {
                api_key_scope_cache = set cache_ttl t.now (key, map_id) entry t.api_key_scope_cache;
              })
              >> pure entry)
            r))
        (λ gs. record {
          db = refl;
          coherent = record { keys = c.keys; scopes = c.scopes };
          right = λ b g. absurd (ground arith);
          invalid = λ g. absurd (ground arith);
        })
        (λ gs. record {
          db = refl;
          coherent = record {
            keys = c.keys;
            scopes =
                IsCoherent-set (scopes_of s.db) cache_ttl s.now (key, map_id)
                  (select_scope key map_id s.db) s.api_key_scope_cache refl c.scopes;
          };
          right = λ b g. ground arith;
          invalid = λ g. absurd (ground arith);
        })

  pub scope_entry-IsReadOf :
      IsReadOf (some (select_scope key map_id s.db)) s (scope_entry key map_id s)
  unfolding scope_entry
  scope_entry-IsReadOf = entry-IsReadOf (get s.now (key, map_id) s.api_key_scope_cache) refl
