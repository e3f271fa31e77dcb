-- ===== src/Store/Maps.antt =====
-- internal/store/maps.go: the maps, their versions, and the two caches of them.
pub mod Versions
pub mod Pending
pub mod Reread
pub mod Cached
use tileserve_go.Prelude.{
  ℕ, suc, ◌+◌, ◌*◌, ◌^◌, Bool, true, false, ◌&&◌, ◌||◌, Option, none, some, List, [], ◌∷◌, ◌++◌,
  Text, codes, ◌==◌, nat_eq, text_eq, pair_eq, if◌then◌else◌, ltb, leb, any, keep_if, not, max,
}
use tileserve_go.Prelude.Assoc.{lookup, insert, remove}
use tileserve_go.Prelude.Decimal.{itoa, parse_digits}
use tileserve_go.Prelude.Monad.{Result, ok, err, Exec, pure, raise, gets, modify, ◌>>=◌, ◌>>◌}
use tileserve_go.Store.Cache.{Cache, get, set, invalidate}
use tileserve_go.Store.Database.{
  Database, MapRow, MapRecord, UserRow, select_map, select_current_version,
}
use tileserve_go.Store.State.{
  Store, StoreError, db_failed, map_not_found, user_not_found, cache_ttl, map_version_ttl, row_or,
  query, execute, transaction,
}

-- loadMapWithOwner
unfoldable pub load_map_with_owner : Text → Exec Store StoreError MapRecord
unfolding query
load_map_with_owner id = do m ← query (select_map id); row_or map_not_found m

abbrev pub id_of_row : Option UserRow → Option ℕ
id_of_row none = none
id_of_row (some u) = some u.id

-- lookupUserID
unfoldable pub lookup_user_id : Text → Exec Store StoreError ℕ
unfolding query
lookup_user_id username = do
  id ← query (λ db. id_of_row (lookup username db.users))
  row_or user_not_found id

-- RowsAffected of an UPDATE or DELETE by the primary key, or EXISTS
abbrev pub has_map : Text → Database → Bool
has_map id db = any (λ e. e.0 == id) db.maps

-- An INSERT, which fails if the row's primary key is taken.
unfoldable pub insert_unless :
    (Database → Bool) → (Database → Database) → Exec Store StoreError (Unit {0})
unfolding execute
insert_unless taken f = do
  conflict ← gets (λ s. taken s.db)
  if conflict then raise db_failed else execute f

-- The record of CreateMap, but for the owner's id.
abbrev pub new_map : Text → Text → Bool → Bool → Text → ℕ → MapRow
new_map name current_version visible_to_all anonymous_allowed created_by owner_id = record {
  name = name;
  current_version = current_version;
  visible_to_all = visible_to_all;
  anonymous_allowed = anonymous_allowed;
  created_by = created_by;
  updated_by = created_by;
  owner_id = owner_id;
}

-- CreateMap, with the uuid that uuid.New gives
unfoldable pub create_map :
    Text → Text → Text → Bool → Bool → Text → Exec Store StoreError MapRecord
unfolding lookup_user_id insert_unless
create_map uuid name current_version visible_to_all anonymous_allowed created_by = do
  owner_id ← lookup_user_id created_by
  let row = new_map name current_version visible_to_all anonymous_allowed created_by owner_id
  insert_unless (has_map uuid) (λ db. record db { maps = insert uuid row db.maps })
  pure (record { uuid = uuid; row = row; owner = created_by })

-- The part of GetMap behind the cache.
unfoldable pub get_map_uncached : Text → Exec Store StoreError MapRecord
unfolding load_map_with_owner set
get_map_uncached id = do
  m ← load_map_with_owner id
  modify (λ s. record s { map_cache = set cache_ttl s.now id m s.map_cache })
  pure m

abbrev pub or_else : {A : Type 0} → Option A → Exec Store StoreError A → Exec Store StoreError A
or_else none m = m
or_else (some a) m = pure a

-- GetMap
unfoldable pub get_map : Text → Exec Store StoreError MapRecord
unfolding get get_map_uncached
get_map id = do hit ← gets (λ s. get s.now id s.map_cache); or_else hit (get_map_uncached id)

unfoldable pub get_current_version_uncached : Text → Exec Store StoreError Text
unfolding query set
get_current_version_uncached id = do
  found ← query (select_current_version id)
  version ← row_or map_not_found found
  modify (λ s. record s {
    current_version_cache = set map_version_ttl s.now id version s.current_version_cache;
  })
  pure version

-- GetCurrentVersion
unfoldable pub get_current_version : Text → Exec Store StoreError Text
unfolding get get_current_version_uncached
get_current_version id = do
  hit ← gets (λ s. get s.now id s.current_version_cache)
  or_else hit (get_current_version_uncached id)

-- An UPDATE of one row.
abbrev pub update_row : (MapRow → MapRow) → Text → Option MapRow → Database → Database
update_row f id none db = db
update_row f id (some m) db = record db { maps = insert id (f m) db.maps }

abbrev pub update_maps : (MapRow → MapRow) → Text → Database → Database
update_maps f id db = update_row f id (lookup id db.maps) db

unfoldable pub invalidate_map : Text → Exec Store StoreError (Unit {0})
unfolding invalidate
invalidate_map id = modify (λ s. record s { map_cache = invalidate id s.map_cache })

unfoldable pub invalidate_current_version : Text → Exec Store StoreError (Unit {0})
unfolding invalidate
invalidate_current_version id =
    modify (λ s. record s { current_version_cache = invalidate id s.current_version_cache })

-- UPDATE maps SET ... WHERE uuid = id, with the number of rows as a test
unfoldable pub update_where : (MapRow → MapRow) → Text → Exec Store StoreError Bool
unfolding execute
update_where f id = do found ← gets (λ s. has_map id s.db); execute (update_maps f id); pure found

-- UpdateMap
unfoldable pub update_map :
    Text → Text → Text → Bool → Bool → Text → Exec Store StoreError MapRecord
unfolding update_where invalidate_map invalidate_current_version load_map_with_owner
update_map id name current_version visible_to_all anonymous_allowed updated_by = do
  found ←
      update_where
        (λ m. record m {
          name = name;
          current_version = current_version;
          visible_to_all = visible_to_all;
          anonymous_allowed = anonymous_allowed;
          updated_by = updated_by;
        })
        id
  if found
      then (do invalidate_map id; invalidate_current_version id; load_map_with_owner id)
      else raise map_not_found

-- UpdateMapOwner
unfoldable pub update_map_owner : Text → Text → Exec Store StoreError MapRecord
unfolding lookup_user_id update_where invalidate_map load_map_with_owner
update_map_owner id new_owner = do
  owner_id ← lookup_user_id new_owner
  found ← update_where (λ m. record m { owner_id = owner_id }) id
  if found then (do invalidate_map id; load_map_with_owner id) else raise map_not_found

-- The versions of one map.
unfoldable pub versions_of : Text → List (Text × Text) → List Text
versions_of id [] = []
versions_of id ((m, v) ∷ rest) =
    let more = versions_of id rest in if m == id then v ∷ more else more

abbrev pub max_int4 : ℕ
max_int4 = 2147483647

-- version::int, for texts without a sign or spaces: none where Postgres refuses the cast
abbrev pub in_int4 : Option ℕ → Option ℕ
in_int4 none = none
in_int4 (some n) = if leb n max_int4 then some n else none

abbrev pub version_int : Text → Option ℕ
version_int [] = none
version_int (c ∷ s) = in_int4 (parse_digits 0 (c ∷ s))

abbrev pub max_of : Option ℕ → Option ℕ → Option ℕ
max_of (some a) (some b) = some (max a b)
max_of _ _ = none

-- COALESCE(MAX(version::int), 0)
unfoldable pub max_version : List Text → Option ℕ
unfolding parse_digits
max_version [] = some 0
max_version (v ∷ vs) = max_of (version_int v) (max_version vs)

-- The transaction of IncrementMapVersion.
unfoldable pub assign_next_version : Text → Text → Exec Store StoreError MapRecord
unfolding query execute insert_unless load_map_with_owner
assign_next_version id updated_by = do
  exists ← query (has_map id)
  if exists
      then (do
        last ← query (λ db. max_version (versions_of id db.versions))
        last_version ← row_or db_failed last
        let next_version = itoa (last_version + 1)
        execute (
            update_maps (λ m. record m { current_version = next_version; updated_by = updated_by })
              id)
        insert_unless (λ db. any (λ v. v == (id, next_version)) db.versions)
            (λ db. record db { versions = (id, next_version) ∷ db.versions })
        load_map_with_owner id)
      else raise map_not_found

-- IncrementMapVersion
unfoldable pub increment_map_version : Text → Text → Exec Store StoreError MapRecord
unfolding transaction assign_next_version invalidate_map invalidate_current_version
increment_map_version id updated_by = do
  m ← transaction (assign_next_version id updated_by)
  invalidate_map id
  invalidate_current_version id
  pure m

-- DELETE FROM maps, with what the foreign keys cascade to
unfoldable pub delete_cascade : Text → Database → Database
delete_cascade id db = record db {
  maps = remove id db.maps;
  versions = keep_if (λ v. not (v.0 == id)) db.versions;
  map_permissions = keep_if (λ e. not (e.0.0 == id)) db.map_permissions;
  group_map_permissions = keep_if (λ e. not (e.0.0 == id)) db.group_map_permissions;
  aliases = keep_if (λ e. not (e.0.0 == id)) db.aliases;
  scopes = keep_if (λ e. not (e.0.1 == id)) db.scopes;
}

-- DeleteMap
unfoldable pub delete_map : Text → Exec Store StoreError (Unit {0})
unfolding execute delete_cascade invalidate_map invalidate_current_version
delete_map id = do
  found ← gets (λ s. has_map id s.db)
  execute (delete_cascade id)
  if found then (do invalidate_map id; invalidate_current_version id) else raise map_not_found
