-- ===== src/Store/Reads/Methods.antt =====
-- internal/store: with true caches, each reading method fails or returns what the tables say.
use tileserve_go.Prelude.{
  some_same, Option, none, some, Text, nat_eq, text_eq, pair_eq, ◌≡◌, refl, sym, ap, ◌∙◌, arith,
}
use tileserve_go.Prelude.Monad.{err, continue, pure, modify, ◌>>=◌, ◌>>◌}
use tileserve_go.Store.Cache.{get, set}
use tileserve_go.Store.Cache.Coherent.{IsCoherent-set}
use tileserve_go.Store.Database.{
  MapRecord, Permissions, MapPermission, select_map, select_current_version, select_permissions,
  select_map_permission,
}
use tileserve_go.Store.State.{
  Store, StoreError, db_failed, map_not_found, cache_ttl, map_version_ttl, row_or, query,
}
use tileserve_go.Store.State.Cases.{query_cases}
use tileserve_go.Store.Maps.{
  or_else, load_map_with_owner, get_map, get_map_uncached, get_current_version,
  get_current_version_uncached,
}
use tileserve_go.Store.Grants.{
  get_permissions, get_permissions_uncached, get_map_permission, get_map_permission_uncached,
}
use tileserve_go.Store.Grants.Cached.{grants_of}
use tileserve_go.Store.Reads.{
  HasTrueCaches, Reads, Reads-pure, Reads-bind, Reads-query, Reads-row_or, Reads-weaken,
}

-- A value that goes into a cache and is returned.
pub Reads-kept :
    {V : Type 0} {P : V → Type 0} (put : V → Store → Store) (v : V) (s t : Store)
    → (put v t).db ≡ s.db
    → HasTrueCaches (put v t)
    → P v
    → Reads {E = StoreError} P s ((modify (put v) >> pure v) t)
Reads-kept put v s t e c p = Reads-pure v s (put v t) e c p

module _ (s t : Store) (e : t.db ≡ s.db) (c : HasTrueCaches t) where
  module _ (id : Text) where
    load-Reads : Reads (λ m. select_map id s.db ≡ some m) s (load_map_with_owner id t)
    unfolding load_map_with_owner
    load-Reads =
        Reads-bind (λ o. select_map id s.db ≡ o) s (query (select_map id) t) (row_or map_not_found)
          (Reads-query (select_map id) s t e c)
          (λ o u e2 c2 p.
            Reads-weaken (λ m. o ≡ some m) s s (row_or map_not_found o u) refl (λ m q. p ∙ q)
              (Reads-row_or map_not_found o s u e2 c2))

    map_hit :
        (hit : Option MapRecord)
        → get t.now id t.map_cache ≡ hit
        → Reads (λ m. select_map id s.db ≡ some m) s (or_else hit (get_map_uncached id) t)
    unfolding get_map_uncached
    map_hit (some m) h = Reads-pure m s t e c (ap (select_map id) (sym e) ∙ c.maps.agrees id m h)
    map_hit none h =
        Reads-bind (λ m. select_map id s.db ≡ some m) s (load_map_with_owner id t)
          (λ m.
            modify (λ u. record u { map_cache = set cache_ttl u.now id m u.map_cache }) >> pure m)
          load-Reads
          (λ m u e2 c2 p.
            Reads-kept (λ m u. record u { map_cache = set cache_ttl u.now id m u.map_cache }) m s u
              e2
              (record {
                maps =
                    IsCoherent-set (λ i. select_map i u.db) cache_ttl u.now id m u.map_cache
                      (ap (select_map id) e2 ∙ p) c2.maps;
                current = c2.current;
                permissions = c2.permissions;
                grants = c2.grants;
                aliases = c2.aliases;
                keys = c2.keys;
                scopes = c2.scopes;
              })
              p)

    pub get_map-Reads : Reads (λ m. select_map id s.db ≡ some m) s (get_map id t)
    unfolding get_map
    get_map-Reads = map_hit (get t.now id t.map_cache) refl

    version_hit :
        (hit : Option Text)
        → get t.now id t.current_version_cache ≡ hit
        → Reads
            (λ v. select_current_version id s.db ≡ some v)
            s
            (or_else hit (get_current_version_uncached id) t)
    unfolding get_current_version_uncached
    version_hit (some v) h =
        Reads-pure v s t e c (ap (select_current_version id) (sym e) ∙ c.current.agrees id v h)
    version_hit none h =
        Reads-bind (λ o. select_current_version id s.db ≡ o) s (query (select_current_version id) t)
          (λ o. row_or map_not_found o >>= λ v.
            modify (λ u. record u {
              current_version_cache = set map_version_ttl u.now id v u.current_version_cache;
            })
            >> pure v)
          (Reads-query (select_current_version id) s t e c)
          (λ o u e2 c2 p.
            Reads-bind (λ v. o ≡ some v) s (row_or map_not_found o u) _
              (Reads-row_or map_not_found o s u e2 c2)
              (λ v w e3 c3 q.
                Reads-kept
                  (λ v w. record w {
                    current_version_cache = set map_version_ttl w.now id v w.current_version_cache;
                  })
                  v s w e3
                  (record {
                    maps = c3.maps;
                    current =
                        IsCoherent-set (λ i. select_current_version i w.db) map_version_ttl w.now id
                          v w.current_version_cache (ap (select_current_version id) e3 ∙ p ∙ q)
                          c3.current;
                    permissions = c3.permissions;
                    grants = c3.grants;
                    aliases = c3.aliases;
                    keys = c3.keys;
                    scopes = c3.scopes;
                  })
                  (p ∙ q)))

    pub get_current_version-Reads :
        Reads (λ v. select_current_version id s.db ≡ some v) s (get_current_version id t)
    unfolding get_current_version
    get_current_version-Reads = version_hit (get t.now id t.current_version_cache) refl

  module _ (username : Text) where
    permissions_hit :
        (hit : Option Permissions)
        → get t.now username t.perms_cache ≡ hit
        → Reads
            (λ p. select_permissions username s.db ≡ some p)
            s
            (or_else hit (get_permissions_uncached username) t)
    unfolding get_permissions_uncached
    permissions_hit (some p) h =
        Reads-pure p s t e c
          (ap (select_permissions username) (sym e) ∙ c.permissions.agrees username p h)
    permissions_hit none h =
        Reads-bind (λ o. select_permissions username s.db ≡ o) s
          (query (select_permissions username) t)
          (λ o. row_or db_failed o >>= λ p.
            modify (λ u. record u { perms_cache = set cache_ttl u.now username p u.perms_cache })
            >> pure p)
          (Reads-query (select_permissions username) s t e c)
          (λ o u e2 c2 p.
            Reads-bind (λ v. o ≡ some v) s (row_or db_failed o u) _
              (Reads-row_or db_failed o s u e2 c2)
              (λ v w e3 c3 q.
                Reads-kept
                  (λ v w. record w { perms_cache = set cache_ttl w.now username v w.perms_cache }) v
                  s w e3
                  (record {
                    maps = c3.maps;
                    current = c3.current;
                    permissions =
                        IsCoherent-set (λ i. select_permissions i w.db) cache_ttl w.now username v
                          w.perms_cache (ap (select_permissions username) e3 ∙ p ∙ q)
                          c3.permissions;
                    grants = c3.grants;
                    aliases = c3.aliases;
                    keys = c3.keys;
                    scopes = c3.scopes;
                  })
                  (p ∙ q)))

    pub get_permissions-Reads :
        Reads (λ p. select_permissions username s.db ≡ some p) s (get_permissions username t)
    unfolding get_permissions
    get_permissions-Reads = permissions_hit (get t.now username t.perms_cache) refl

    module _ (map_id : Text) where
      grant_hit :
          (hit : Option MapPermission)
          → get t.now (map_id, username) t.map_perm_cache ≡ hit
          → Reads
              (λ mp. select_map_permission map_id username s.db ≡ mp)
              s
              (or_else hit (get_map_permission_uncached map_id username) t)
      unfolding get_map_permission_uncached
      grant_hit (some mp) h = Reads-pure mp s t e c (
          ap (select_map_permission map_id username) (sym e)
          ∙ some_same (c.grants.agrees (map_id, username) mp h))
      grant_hit none h =
          Reads-bind (λ mp. select_map_permission map_id username s.db ≡ mp) s
            (query (select_map_permission map_id username) t) _
            (Reads-query (select_map_permission map_id username) s t e c)
            (λ mp u e2 c2 p.
              Reads-kept
                (λ v w. record w {
                  map_perm_cache = set cache_ttl w.now (map_id, username) v w.map_perm_cache;
                })
                mp s u e2
                (record {
                  maps = c2.maps;
                  current = c2.current;
                  permissions = c2.permissions;
                  grants =
                      IsCoherent-set (grants_of u.db) cache_ttl u.now (map_id, username) mp
                        u.map_perm_cache
                        (ap (λ db. some (select_map_permission map_id username db)) e2 ∙ ap some p)
                        c2.grants;
                  aliases = c2.aliases;
                  keys = c2.keys;
                  scopes = c2.scopes;
                })
                p)

      pub get_map_permission-Reads :
          Reads
            (λ mp. select_map_permission map_id username s.db ≡ mp)
            s
            (get_map_permission map_id username t)
      unfolding get_map_permission
      get_map_permission-Reads = grant_hit (get t.now (map_id, username) t.map_perm_cache) refl

absent_row :
    (o : Option MapRecord) (t : Store) (put : MapRecord → Store → Store)
    → (continue (λ m. modify (put m) >> pure m) (row_or map_not_found o t)).0 ≡ err map_not_found
    → o ≡ none
absent_row none t put h = refl
absent_row (some m) t put h = absurd (ground arith)

absent_hit :
    (id : Text) (t : Store) (hit : Option MapRecord)
    → (or_else hit (get_map_uncached id) t).0 ≡ err map_not_found
    → select_map id t.db ≡ none
unfolding get_map_uncached load_map_with_owner
absent_hit id t (some m) h = absurd (ground arith)
absent_hit id t none h =
    query_cases t (select_map id)
      (λ r.
        (continue
            (λ m.
              modify (λ u. record u { map_cache = set cache_ttl u.now id m u.map_cache }) >> pure m)
            (continue (row_or map_not_found) r)).0
          ≡ err map_not_found
        → select_map id t.db ≡ none)
      (λ gs g. absurd (ground arith))
      (λ gs g.
        absent_row (select_map id t.db) (record t { faults = gs })
          (λ m u. record u { map_cache = set cache_ttl u.now id m u.map_cache }) g)
      h

-- GetMap fails with ErrMapNotFound only if the table has no such row.
pub get_map-absent :
    (id : Text) (t : Store) → (get_map id t).0 ≡ err map_not_found → select_map id t.db ≡ none
unfolding get_map
get_map-absent id t h = absent_hit id t (get t.now id t.map_cache) h
