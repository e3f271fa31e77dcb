-- ===== src/Store/Aliases/Cached.antt =====
-- internal/store/map_version_aliases.go: the cached aliases against the table.
use tileserve_go.Prelude.{
  Bool, false, Option, none, some, List, Text, ◌==◌, nat_eq, text_eq, pair_eq, ◌≡◌, refl, inl, inr,
  Bool-cases, arith,
}
use tileserve_go.Prelude.Assoc.{insert, remove, lookup-insert, lookup-remove}
use tileserve_go.Prelude.Monad.{Result, ok, err, Exec, continue, pure, modify, ◌>>=◌, ◌>>◌}
use tileserve_go.Prelude.Monad.Keeps.{Keeps}
use tileserve_go.Store.Cache.{get, set}
use tileserve_go.Store.Cache.Coherent.{IsCoherent, IsCoherent-set, IsCoherent-invalidate}
use tileserve_go.Store.Database.{Database}
use tileserve_go.Store.State.{Store, StoreError, alias_not_found, cache_ttl, row_or, execute}
use tileserve_go.Store.State.Cases.{execute_cases, query_cases}
use tileserve_go.Store.Maps.{or_else}
use tileserve_go.Store.Grants.{execute_with_keys}
use tileserve_go.Store.Aliases.{
  select_alias, get_map_version_alias, get_alias_uncached, set_map_version_alias,
  delete_map_version_alias, invalidate_alias, knows_version,
}

abbrev pub aliases_of : Database → Text × Text → Option Text
aliases_of db k = select_alias k.0 k.1 db

abbrev pub HasTrueAliases : Store → Type 0
HasTrueAliases s = IsCoherent (aliases_of s.db) s.now s.map_alias_cache

-- What GetMapVersionAlias does: it changes no table, and returns the version of the table, or the
-- sentinel for a name without one.
pub record IsAliasOf (map_id alias : Text) (s : Store) (r : Result StoreError Text × Store)
    : Type 0 where
  pub db : r.1.db ≡ s.db
  pub coherent : HasTrueAliases r.1
  pub right : (v : Text) → r.0 ≡ ok v → select_alias map_id alias s.db ≡ some v
  pub missing : r.0 ≡ err alias_not_found → select_alias map_id alias s.db ≡ none

store_alias : Text → Text → Option Text → Exec Store StoreError Text
store_alias map_id alias found = row_or alias_not_found found >>= λ version.
    modify (λ s. record s {
      map_alias_cache = set cache_ttl s.now (map_id, alias) version s.map_alias_cache;
    })
    >> pure version

stored-IsAliasOf :
    (map_id alias : Text) (s : Store) (gs : List Bool) (found : Option Text)
    → select_alias map_id alias s.db ≡ found
    → HasTrueAliases s
    → IsAliasOf map_id alias s (store_alias map_id alias found (record s { faults = gs }))
unfolding store_alias
stored-IsAliasOf map_id alias s gs none e c = record {
  db = refl;
  coherent = c;
  right = λ v h. absurd (ground arith);
  missing = λ h. e;
}
stored-IsAliasOf map_id alias s gs (some v) e c = record {
  db = refl;
  coherent =
      IsCoherent-set (aliases_of s.db) cache_ttl s.now (map_id, alias) v s.map_alias_cache e c;
  right = λ w h. ground (arith, e);
  missing = λ h. absurd (ground arith);
}

hit-IsAliasOf :
    (map_id alias : Text) (s : Store) (hit : Option Text)
    → get s.now (map_id, alias) s.map_alias_cache ≡ hit
    → HasTrueAliases s
    → IsAliasOf map_id alias s (or_else hit (get_alias_uncached map_id alias) s)
unfolding get_alias_uncached store_alias
hit-IsAliasOf map_id alias s none e c =
    query_cases s (select_alias map_id alias)
      (λ r. IsAliasOf map_id alias s (continue (store_alias map_id alias) r))
      (λ gs. record {
        db = refl;
        coherent = c;
        right = λ v h. absurd (ground arith);
        missing = λ h. absurd (ground arith);
      })
      (λ gs. stored-IsAliasOf map_id alias s gs (select_alias map_id alias s.db) refl c)
hit-IsAliasOf map_id alias s (some v) e c = record {
  db = refl;
  coherent = c;
  right = λ w h. ground (arith, c.agrees (map_id, alias) v e);
  missing = λ h. absurd (ground arith);
}

-- While the cache serves only true aliases, GetMapVersionAlias returns only the version in the
-- table, gives the not-found sentinel only for a name that is not there, writes no table and keeps
-- the cache true.
pub get_map_version_alias-IsAliasOf :
    (map_id alias : Text) (s : Store)
    → HasTrueAliases s
    → IsAliasOf map_id alias s (get_map_version_alias map_id alias s)
unfolding get_map_version_alias
get_map_version_alias-IsAliasOf map_id alias s c =
    hit-IsAliasOf map_id alias s (get s.now (map_id, alias) s.map_alias_cache) refl c

write_then_drop :
    (f : Database → Database) (k : Text × Text) (s : Store)
    → ((j : Text × Text) → (k == j) ≡ false → aliases_of (f s.db) j ≡ aliases_of s.db j)
    → HasTrueAliases s
    → HasTrueAliases (continue (λ _. invalidate_alias k.0 k.1) (execute f s)).1
unfolding invalidate_alias
write_then_drop f k s h c =
    execute_cases s f (λ r. HasTrueAliases (continue (λ _. invalidate_alias k.0 k.1) r).1) (λ gs. c)
      (λ gs.
        IsCoherent-invalidate (aliases_of s.db) (aliases_of (f s.db)) s.now k s.map_alias_cache h c)

-- The two writes of aliases.
pub data AliasWrite : Type 0 where
  set_alias : Text → Text → Text → AliasWrite
  delete_alias : Text → Text → AliasWrite

unfoldable pub write_alias : AliasWrite → Exec Store StoreError (Unit {0})
unfolding set_map_version_alias delete_map_version_alias
write_alias (set_alias m a v) = set_map_version_alias m a v
write_alias (delete_alias m a) = delete_map_version_alias m a

Keeps-write_alias : (w : AliasWrite) → Keeps HasTrueAliases (write_alias w)
unfolding write_alias execute_with_keys
Keeps-write_alias (set_alias m a v) = record {
  at = λ s c. elim (Bool-cases (knows_version m v s.db)) [
    | inl known ↦ rw known (
        write_then_drop (λ db. record db { aliases = insert (m, a) v db.aliases }) (m, a) s
          (λ j e. rw (lookup-insert (m, a) j v s.db.aliases, e) refl) c)
    | inr unknown ↦ rw unknown c
  ];
}
Keeps-write_alias (delete_alias m a) = record {
  at = λ s c.
      write_then_drop (λ db. record db { aliases = remove (m, a) db.aliases }) (m, a) s
        (λ j e. rw (lookup-remove (m, a) j s.db.aliases, e) refl) c;
}

-- Setting or deleting an alias keeps the cache of aliases true, also when the call fails.
pub write_alias-HasTrueAliases :
    (w : AliasWrite) (s : Store) → HasTrueAliases s → HasTrueAliases (write_alias w s).1
write_alias-HasTrueAliases w s c = (Keeps-write_alias w).at s c
