-- ===== src/Store/Aliases.antt =====
-- internal/store/map_version_aliases.go: the names of versions, and the cache of them.
pub mod Cached
use tileserve_go.Prelude.{
  Bool, true, false, Option, none, some, List, [], ◌∷◌, Text, ◌==◌, nat_eq, text_eq, pair_eq,
  if◌then◌else◌, any,
}
use tileserve_go.Prelude.Assoc.{lookup, insert, remove}
use tileserve_go.Prelude.Monad.{Result, ok, err, Exec, pure, raise, gets, modify, ◌>>=◌, ◌>>◌}
use tileserve_go.Store.Cache.{get, set, invalidate}
use tileserve_go.Store.Database.{Database}
use tileserve_go.Store.State.{
  Store, StoreError, alias_invalid, alias_not_found, cache_ttl, row_or, query, execute,
}
use tileserve_go.Store.Maps.{or_else}
use tileserve_go.Store.Grants.{execute_with_keys}

-- The query of GetMapVersionAlias.
abbrev pub select_alias : Text → Text → Database → Option Text
select_alias map_id alias db = lookup (map_id, alias) db.aliases

unfoldable pub get_alias_uncached : Text → Text → Exec Store StoreError Text
unfolding query set
get_alias_uncached map_id alias = do
  found ← query (select_alias map_id alias)
  version ← row_or alias_not_found found
  modify (λ s. record s {
    map_alias_cache = set cache_ttl s.now (map_id, alias) version s.map_alias_cache;
  })
  pure version

-- GetMapVersionAlias
unfoldable pub get_map_version_alias : Text → Text → Exec Store StoreError Text
unfolding get get_alias_uncached
get_map_version_alias map_id alias = do
  hit ← gets (λ s. get s.now (map_id, alias) s.map_alias_cache)
  or_else hit (get_alias_uncached map_id alias)

unfoldable pub invalidate_alias : Text → Text → Exec Store StoreError (Unit {0})
unfolding invalidate
invalidate_alias map_id alias =
    modify (λ s. record s { map_alias_cache = invalidate (map_id, alias) s.map_alias_cache })

-- The foreign key of map_version_aliases.
abbrev pub knows_version : Text → Text → Database → Bool
knows_version map_id version db = any (λ v. v == (map_id, version)) db.versions

-- SetMapVersionAlias
unfoldable pub set_map_version_alias : Text → Text → Text → Exec Store StoreError (Unit {0})
unfolding execute_with_keys invalidate_alias
set_map_version_alias map_id alias version = do
  execute_with_keys (knows_version map_id version) alias_invalid
      (λ db. record db { aliases = insert (map_id, alias) version db.aliases })
  invalidate_alias map_id alias

-- DeleteMapVersionAlias
unfoldable pub delete_map_version_alias : Text → Text → Exec Store StoreError (Unit {0})
unfolding execute invalidate_alias
delete_map_version_alias map_id alias = do
  execute (λ db. record db { aliases = remove (map_id, alias) db.aliases })
  invalidate_alias map_id alias
