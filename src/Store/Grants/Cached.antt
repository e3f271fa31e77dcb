-- ===== src/Store/Grants/Cached.antt =====
-- internal/store: the cached grants of GetMapPermission against the tables.
use tileserve_go.Prelude.{
  false, Option, none, some, List, Text, ◌==◌, nat_eq, text_eq, pair_eq, ◌≡◌, refl, inl, inr,
  Bool-cases, arith,
}
use tileserve_go.Prelude.Assoc.{lookup, insert, remove, lookup-insert, lookup-remove}
use tileserve_go.Prelude.Monad.{Result, ok, Exec, continue, pure, modify, ◌>>◌}
use tileserve_go.Prelude.Monad.Keeps.{Keeps}
use tileserve_go.Store.Cache.{get, set}
use tileserve_go.Store.Cache.Coherent.{
  IsCoherent, IsCoherent-set, IsCoherent-invalidate, IsCoherent-clear,
}
use tileserve_go.Store.Database.{Database, MapPermission, select_map_permission, grant_rows}
use tileserve_go.Store.State.{Store, StoreError, cache_ttl, execute}
use tileserve_go.Store.Grants.Joined.{IsUnionOf, IsUnionOf-same}
use tileserve_go.Store.State.Cases.{execute_cases, query_cases}
use tileserve_go.Store.Maps.{or_else}
use tileserve_go.Store.Grants.{
  get_map_permission, get_map_permission_uncached, set_map_permission, delete_map_permission,
  set_group_map_permission, delete_group_map_permission, execute_with_keys, invalidate_grant,
  clear_grants, knows_grantee, knows_group,
}

-- The grants that the tables give, as the function behind the cache.
abbrev pub grants_of : Database → Text × Text → Option MapPermission
grants_of db k = some (select_map_permission k.0 k.1 db)

abbrev pub HasTrueGrants : Store → Type 0
HasTrueGrants s = IsCoherent (grants_of s.db) s.now s.map_perm_cache

-- What GetMapPermission does: it fails and changes no table, or it returns the union of the
-- grants that the tables have.
pub record IsGrantOf (map_id username : Text) (s : Store)
    (r : Result StoreError MapPermission × Store) : Type 0 where
  pub db : r.1.db ≡ s.db
  pub coherent : HasTrueGrants r.1
  pub right : (mp : MapPermission) → r.0 ≡ ok mp → IsUnionOf map_id username s.db mp

uncached-IsGrantOf :
    (map_id username : Text) (s : Store)
    → HasTrueGrants s
    → IsGrantOf map_id username s (get_map_permission_uncached map_id username s)
unfolding get_map_permission_uncached
uncached-IsGrantOf map_id username s c =
    query_cases s (select_map_permission map_id username)
      (λ r. IsGrantOf map_id username s (
        continue
          (λ mp.
            modify (λ t. record t {
              map_perm_cache = set cache_ttl t.now (map_id, username) mp t.map_perm_cache;
            })
            >> pure mp)
          r))
      (λ gs. record { db = refl; coherent = c; right = λ mp e. absurd (ground arith) })
      (λ gs. record {
        db = refl;
        coherent =
            IsCoherent-set (grants_of s.db) cache_ttl s.now (map_id, username)
              (select_map_permission map_id username s.db) s.map_perm_cache refl c;
        right = λ mp e. IsUnionOf-same map_id username s.db mp (ground arith);
      })

hit-IsGrantOf :
    (map_id username : Text) (s : Store) (hit : Option MapPermission)
    → get s.now (map_id, username) s.map_perm_cache ≡ hit
    → HasTrueGrants s
    → IsGrantOf map_id username s (or_else hit (get_map_permission_uncached map_id username) s)
hit-IsGrantOf map_id username s none e c = uncached-IsGrantOf map_id username s c
hit-IsGrantOf map_id username s (some mp) e c = record {
  db = refl;
  coherent = c;
  right = λ v h.
      IsUnionOf-same map_id username s.db v (ground (arith, c.agrees (map_id, username) mp e));
}

-- While the cache serves only true grants, each flag of what GetMapPermission returns is true
-- exactly if the user's own grant for the map has it, or the grant of a group that the user is a
-- member of. It writes no table and keeps the cache true.
pub get_map_permission-IsGrantOf :
    (map_id username : Text) (s : Store)
    → HasTrueGrants s
    → IsGrantOf map_id username s (get_map_permission map_id username s)
unfolding get_map_permission
get_map_permission-IsGrantOf map_id username s c =
    hit-IsGrantOf map_id username s (get s.now (map_id, username) s.map_perm_cache) refl c

-- A write of one user's own grant leaves what the tables say of the others.
own_grant_only :
    (db : Database) (rows : List ((Text × Text) × MapPermission)) (k j : Text × Text)
    → lookup j rows ≡ lookup j db.map_permissions
    → grants_of (record db { map_permissions = rows }) j ≡ grants_of db j
unfolding select_map_permission grant_rows
own_grant_only db rows k j e = rw e refl

inserted_elsewhere :
    (k j : Text × Text) (mp : MapPermission) (rows : List ((Text × Text) × MapPermission))
    → (k == j) ≡ false
    → lookup j (insert k mp rows) ≡ lookup j rows
inserted_elsewhere k j mp rows e = rw (lookup-insert k j mp rows, e) refl

removed_elsewhere :
    (k j : Text × Text) (rows : List ((Text × Text) × MapPermission))
    → (k == j) ≡ false
    → lookup j (remove k rows) ≡ lookup j rows
removed_elsewhere k j rows e = rw (lookup-remove k j rows, e) refl

-- A write to the tables, behind which the grant of one user, or every grant, is dropped.
write_then_drop :
    (f : Database → Database) (k : Text × Text) (s : Store)
    → ((j : Text × Text) → (k == j) ≡ false → grants_of (f s.db) j ≡ grants_of s.db j)
    → HasTrueGrants s
    → HasTrueGrants (continue (λ _. invalidate_grant k.0 k.1) (execute f s)).1
unfolding invalidate_grant
write_then_drop f k s h c =
    execute_cases s f (λ r. HasTrueGrants (continue (λ _. invalidate_grant k.0 k.1) r).1) (λ gs. c)
      (λ gs.
        IsCoherent-invalidate (grants_of s.db) (grants_of (f s.db)) s.now k s.map_perm_cache h c)

write_then_clear :
    (f : Database → Database) (s : Store)
    → HasTrueGrants s
    → HasTrueGrants (continue (λ _. clear_grants) (execute f s)).1
unfolding clear_grants
write_then_clear f s c =
    execute_cases s f (λ r. HasTrueGrants (continue (λ _. clear_grants) r).1) (λ gs. c)
      (λ gs. IsCoherent-clear (grants_of (f s.db)) s.now s.map_perm_cache)

Keeps-set :
    (map_id username : Text) (mp : MapPermission)
    → Keeps HasTrueGrants (set_map_permission map_id username mp)
unfolding set_map_permission execute_with_keys
Keeps-set map_id username mp = record {
  at = λ s c. elim (Bool-cases (knows_grantee map_id username s.db)) [
    | inl known ↦ rw known (
        write_then_drop
          (λ db. record db { map_permissions = insert (map_id, username) mp db.map_permissions })
          (map_id, username) s
          (λ j e.
            own_grant_only s.db (insert (map_id, username) mp s.db.map_permissions)
              (map_id, username) j
              (inserted_elsewhere (map_id, username) j mp s.db.map_permissions e))
          c)
    | inr unknown ↦ rw unknown c
  ];
}

Keeps-delete :
    (map_id username : Text) → Keeps HasTrueGrants (delete_map_permission map_id username)
unfolding delete_map_permission
Keeps-delete map_id username = record {
  at = λ s c.
      write_then_drop
        (λ db. record db { map_permissions = remove (map_id, username) db.map_permissions })
        (map_id, username) s
        (λ j e.
          own_grant_only s.db (remove (map_id, username) s.db.map_permissions) (map_id, username) j
            (removed_elsewhere (map_id, username) j s.db.map_permissions e))
        c;
}

Keeps-set_group :
    (map_id group : Text) (mp : MapPermission)
    → Keeps HasTrueGrants (set_group_map_permission map_id group mp)
unfolding set_group_map_permission execute_with_keys
Keeps-set_group map_id group mp = record {
  at = λ s c. elim (Bool-cases (knows_group map_id group s.db)) [
    | inl known ↦ rw known (
        write_then_clear
          (λ db. record db {
            group_map_permissions = insert (map_id, group) mp db.group_map_permissions;
          })
          s c)
    | inr unknown ↦ rw unknown c
  ];
}

Keeps-delete_group :
    (map_id group : Text) → Keeps HasTrueGrants (delete_group_map_permission map_id group)
unfolding delete_group_map_permission
Keeps-delete_group map_id group = record {
  at = λ s c.
      write_then_clear
        (λ db. record db {
          group_map_permissions = remove (map_id, group) db.group_map_permissions;
        })
        s c;
}

-- The four writes of grants.
pub data GrantWrite : Type 0 where
  set_own : Text → Text → MapPermission → GrantWrite
  delete_own : Text → Text → GrantWrite
  set_of_group : Text → Text → MapPermission → GrantWrite
  delete_of_group : Text → Text → GrantWrite

unfoldable pub write_grant : GrantWrite → Exec Store StoreError (Unit {0})
unfolding set_map_permission delete_map_permission set_group_map_permission
    delete_group_map_permission
write_grant (set_own m u mp) = set_map_permission m u mp
write_grant (delete_own m u) = delete_map_permission m u
write_grant (set_of_group m g mp) = set_group_map_permission m g mp
write_grant (delete_of_group m g) = delete_group_map_permission m g

Keeps-write_grant : (w : GrantWrite) → Keeps HasTrueGrants (write_grant w)
unfolding write_grant
Keeps-write_grant (set_own m u mp) = Keeps-set m u mp
Keeps-write_grant (delete_own m u) = Keeps-delete m u
Keeps-write_grant (set_of_group m g mp) = Keeps-set_group m g mp
Keeps-write_grant (delete_of_group m g) = Keeps-delete_group m g

-- Setting or deleting a grant of a user or of a group keeps the cache of grants true, also when the
-- call fails.
pub write_grant-HasTrueGrants :
    (w : GrantWrite) (s : Store) → HasTrueGrants s → HasTrueGrants (write_grant w s).1
write_grant-HasTrueGrants w s c = (Keeps-write_grant w).at s c
