-- ===== src/Auth/Bearer/Resolved.antt =====
-- internal/store/api_keys.go: the key that ResolveAPIKeySigningKey finds, for ParseBearerToken.
use tileserve_go.Prelude.{Option, none, some, Text, nat_eq, text_eq, ◌≡◌, refl, ap, ◌∙◌}
use tileserve_go.Store.State.{Store, query, invalid_api_key, ApiKeySigningKey, row_or, cache_ttl}
use tileserve_go.Store.Cache.{get, set}
use tileserve_go.Store.Cache.Coherent.{IsCoherent-set}
use tileserve_go.Store.Maps.{or_else}
use tileserve_go.Store.ApiKeys.{
  active_key, signing_key_of, resolve_uncached, resolve_api_key_signing_key,
}
use tileserve_go.Store.ApiKeys.Entries.{keys_of}
use tileserve_go.Store.Reads.{
  HasTrueCaches, Reads, Reads-pure, Reads-bind, Reads-query, Reads-row_or,
}
use tileserve_go.Store.Reads.Methods.{Reads-kept}

module _ (id : Text) (s : Store) (c : HasTrueCaches s) where
  resolve_hit :
      (hit : Option ApiKeySigningKey)
      → get s.now id s.api_key_cache ≡ hit
      → Reads (λ k. keys_of s.db id ≡ some k) s (or_else hit (resolve_uncached id) s)
  unfolding resolve_uncached
  resolve_hit (some k) h = Reads-pure k s s refl c (c.keys.agrees id k h)
  resolve_hit none h =
      Reads-bind (λ o. keys_of s.db id ≡ o) s (query (λ db. signing_key_of (active_key id db)) s) _
        (Reads-query (λ db. signing_key_of (active_key id db)) s s refl c)
        (λ o t e2 c2 p.
          Reads-bind (λ k. o ≡ some k) s (row_or invalid_api_key o t) _
            (Reads-row_or invalid_api_key o s t e2 c2)
            (λ k u e3 c3 q.
              Reads-kept
                (λ k u. record u { api_key_cache = set cache_ttl u.now id k u.api_key_cache }) k s u
                e3
                (record {
                  maps = c3.maps;
                  current = c3.current;
                  permissions = c3.permissions;
                  grants = c3.grants;
                  aliases = c3.aliases;
                  keys =
                      IsCoherent-set (keys_of u.db) cache_ttl u.now id k u.api_key_cache
                        (ap (λ db. keys_of db id) e3 ∙ p ∙ q) c3.keys;
                  scopes = c3.scopes;
                })
                (p ∙ q)))

  pub resolve-Reads : Reads (λ k. keys_of s.db id ≡ some k) s (resolve_api_key_signing_key id s)
  unfolding resolve_api_key_signing_key
  resolve-Reads = resolve_hit (get s.now id s.api_key_cache) refl
