-- ===== src/Store/Reads/Keys.antt =====
-- internal/store: with true caches, the tests of an API key and the lookup of an alias fail or
-- return what the tables say.
use tileserve_go.Prelude.{
  some_same, Option, none, some, Bool, true, false, Text, nat_eq, text_eq, pair_eq, if◌then◌else◌,
  ◌≡◌, refl, sym, ap, ◌∙◌,
}
use tileserve_go.Prelude.Monad.{pure, ◌>>=◌}
use tileserve_go.Store.Cache.{get, set}
use tileserve_go.Store.Cache.Coherent.{IsCoherent-set}
use tileserve_go.Store.State.{
  Store, alias_not_found, invalid_api_key, cache_ttl, row_or, query, ApiKeySigningKey,
  ApiKeyScopeEntry,
}
use tileserve_go.Store.Maps.{or_else}
use tileserve_go.Store.Aliases.{select_alias, get_map_version_alias, get_alias_uncached}
use tileserve_go.Store.ApiKeys.{
  active_key, signing_key_of, scoped_of, api_key_scoped_flag, select_scope, scope_uncached,
  scope_entry, resolve_api_key_map_scope, api_key_can_access_map, allows_map,
  api_key_can_access_map_version, allows_version,
}
use tileserve_go.Store.Aliases.Cached.{aliases_of}
use tileserve_go.Store.ApiKeys.Entries.{keys_of, scopes_of, flag_in, scope_in}
use tileserve_go.Store.ApiKeys.Scoped.{flag_some, option_map}
use tileserve_go.Store.Reads.{
  HasTrueCaches, Reads, Reads-pure, Reads-bind, Reads-query, Reads-row_or,
}
use tileserve_go.Store.Reads.Methods.{Reads-kept}

module _ (s t : Store) (e : t.db ≡ s.db) (c : HasTrueCaches t) where
  module _ (map_id alias : Text) where
    alias_hit :
        (hit : Option Text)
        → get t.now (map_id, alias) t.map_alias_cache ≡ hit
        → Reads
            (λ v. select_alias map_id alias s.db ≡ some v)
            s
            (or_else hit (get_alias_uncached map_id alias) t)
    unfolding get_alias_uncached
    alias_hit (some v) h =
        Reads-pure v s t e c
          (ap (select_alias map_id alias) (sym e) ∙ c.aliases.agrees (map_id, alias) v h)
    alias_hit none h =
        Reads-bind (λ o. select_alias map_id alias s.db ≡ o) s (query (select_alias map_id alias) t)
          _ (Reads-query (select_alias map_id alias) s t e c)
          (λ o u e2 c2 p.
            Reads-bind (λ v. o ≡ some v) s (row_or alias_not_found o u) _
              (Reads-row_or alias_not_found o s u e2 c2)
              (λ v w e3 c3 q.
                Reads-kept
                  (λ v w. record w {
                    map_alias_cache = set cache_ttl w.now (map_id, alias) v w.map_alias_cache;
                  })
                  v s w e3
                  (record {
                    maps = c3.maps;
                    current = c3.current;
                    permissions = c3.permissions;
                    grants = c3.grants;
                    aliases =
                        IsCoherent-set (aliases_of w.db) cache_ttl w.now (map_id, alias) v
                          w.map_alias_cache (ap (select_alias map_id alias) e3 ∙ p ∙ q) c3.aliases;
                    keys = c3.keys;
                    scopes = c3.scopes;
                  })
                  (p ∙ q)))

    pub get_map_version_alias-Reads :
        Reads
          (λ v. select_alias map_id alias s.db ≡ some v)
          s
          (get_map_version_alias map_id alias t)
    unfolding get_map_version_alias
    get_map_version_alias-Reads = alias_hit (get t.now (map_id, alias) t.map_alias_cache) refl

  module _ (key : Text) where
    flag_hit :
        (hit : Option ApiKeySigningKey)
        → get t.now key t.api_key_cache ≡ hit
        → Reads (λ b. flag_in (keys_of s.db key) ≡ some b) s (scoped_of hit key t)
    unfolding scoped_of
    flag_hit (some k) h =
        Reads-pure k.scoped s t e c
          (ap (λ db. flag_in (keys_of db key)) (sym e) ∙ ap flag_in (c.keys.agrees key k h))
    flag_hit none h =
        Reads-bind (λ o. keys_of s.db key ≡ o) s
          (query (λ db. signing_key_of (active_key key db)) t) _
          (Reads-query (λ db. signing_key_of (active_key key db)) s t e c)
          (λ o u e2 c2 p.
            Reads-bind (λ v. o ≡ some v) s (row_or invalid_api_key o u) (λ k. pure k.scoped)
              (Reads-row_or invalid_api_key o s u e2 c2)
              (λ k w e3 c3 q. Reads-pure k.scoped s w e3 c3 (ap flag_in (p ∙ q))))

    flag-Reads : Reads (λ b. flag_in (keys_of s.db key) ≡ some b) s (api_key_scoped_flag key t)
    unfolding api_key_scoped_flag
    flag-Reads = flag_hit (get t.now key t.api_key_cache) refl

    module _ (map_id : Text) where
      entry_hit :
          (hit : Option ApiKeyScopeEntry)
          → get t.now (key, map_id) t.api_key_scope_cache ≡ hit
          → Reads
              (λ x. select_scope key map_id s.db ≡ x)
              s
              (or_else hit (scope_uncached key map_id) t)
      unfolding scope_uncached
      entry_hit (some x) h =
          Reads-pure x s t e c
            (ap (select_scope key map_id) (sym e) ∙ some_same (c.scopes.agrees (key, map_id) x h))
      entry_hit none h =
          Reads-bind (λ x. select_scope key map_id s.db ≡ x) s (query (select_scope key map_id) t) _
            (Reads-query (select_scope key map_id) s t e c)
            (λ x u e2 c2 p.
              Reads-kept
                (λ v w. record w {
                  api_key_scope_cache = set cache_ttl w.now (key, map_id) v w.api_key_scope_cache;
                })
                x s u e2
                (record {
                  maps = c2.maps;
                  current = c2.current;
                  permissions = c2.permissions;
                  grants = c2.grants;
                  aliases = c2.aliases;
                  keys = c2.keys;
                  scopes =
                      IsCoherent-set (scopes_of u.db) cache_ttl u.now (key, map_id) x
                        u.api_key_scope_cache
                        (ap (λ db. some (select_scope key map_id db)) e2 ∙ ap some p) c2.scopes;
                })
                p)

      entry-Reads : Reads (λ x. select_scope key map_id s.db ≡ x) s (scope_entry key map_id t)
      unfolding scope_entry
      entry-Reads = entry_hit (get t.now (key, map_id) t.api_key_scope_cache) refl

module _ (key map_id : Text) (s : Store) where
  scope_branch :
      (b : Bool) (t : Store)
      → t.db ≡ s.db
      → HasTrueCaches t
      → scope_in key map_id s.db ≡ some (if b then some (select_scope key map_id s.db) else none)
      → Reads
          (λ o. scope_in key map_id s.db ≡ some o)
          s
          ((if b then (scope_entry key map_id >>= λ entry. pure (some entry)) else pure none) t)
  scope_branch false t e c h = Reads-pure none s t e c h
  scope_branch true t e c h =
      Reads-bind (λ x. select_scope key map_id s.db ≡ x) s (scope_entry key map_id t) _
        (entry-Reads s t e c key map_id)
        (λ x u e2 c2 p. Reads-pure (some x) s u e2 c2 (h ∙ ap (λ y. some (some y)) p))

  scope-Reads :
      (t : Store)
      → t.db ≡ s.db
      → HasTrueCaches t
      → Reads (λ o. scope_in key map_id s.db ≡ some o) s (resolve_api_key_map_scope key map_id t)
  unfolding resolve_api_key_map_scope
  scope-Reads t e c =
      Reads-bind (λ b. flag_in (keys_of s.db key) ≡ some b) s (api_key_scoped_flag key t) _
        (flag-Reads s t e c key)
        (λ b u e2 c2 p.
          scope_branch b u e2 c2 (flag_some (keys_of s.db key) (select_scope key map_id s.db) b p))

  tested :
      (f : Option ApiKeyScopeEntry → Bool) (t : Store)
      → t.db ≡ s.db
      → HasTrueCaches t
      → Reads
          (λ b. option_map f (scope_in key map_id s.db) ≡ some b)
          s
          ((resolve_api_key_map_scope key map_id >>= λ entry. pure (f entry)) t)
  tested f t e c =
      Reads-bind (λ o. scope_in key map_id s.db ≡ some o) s (resolve_api_key_map_scope key map_id t)
        _ (scope-Reads t e c) (λ o u e2 c2 p. Reads-pure (f o) s u e2 c2 (ap (option_map f) p))

  pub can_access_map-Reads :
      (t : Store)
      → t.db ≡ s.db
      → HasTrueCaches t
      → Reads
          (λ b. option_map allows_map (scope_in key map_id s.db) ≡ some b)
          s
          (api_key_can_access_map key map_id t)
  unfolding api_key_can_access_map
  can_access_map-Reads t e c = tested allows_map t e c

  pub can_access_map_version-Reads :
      (version : Text) (t : Store)
      → t.db ≡ s.db
      → HasTrueCaches t
      → Reads
          (λ b. option_map (λ x. allows_version x version) (scope_in key map_id s.db) ≡ some b)
          s
          (api_key_can_access_map_version key map_id version t)
  unfolding api_key_can_access_map_version
  can_access_map_version-Reads version t e c = tested (λ x. allows_version x version) t e c
