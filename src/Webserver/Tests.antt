-- ===== src/Webserver/Tests.antt =====
-- internal/webserver: each theorem applied to a small database.
use tileserve_go.Prelude.{ℕ, ◌+◌, ◌-◌, ◌*◌, none-some, refl, sym, ◌∙◌}
use tileserve_go.Prelude.Assoc.{lookup-nil}
use tileserve_go.Prelude.Decimal.{ℤ, pos, negsuc}
use tileserve_go.Disk.{Tree, dir, file}
use tileserve_go.TileArchive.Index.Scan.{healthy}
use tileserve_go.Webserver.Bounds.{Floats}
use tileserve_go.Webserver.Bounds.Served.{BoundsState, cached_tile_bounds}
use tileserve_go.Webserver.Bounds.Answered.{IsAnswer, cached_tile_bounds-IsAnswer}
use tileserve_go.Prelude.{
  Bool, true, false, ◌&&◌, ◌||◌, some, [], ◌∷◌, codes, nat_eq, text_eq, pair_eq, ◌≡◌, ◌≢◌, ◌↔◌,
}
use tileserve_go.Prelude.Monad.{ok}
use tileserve_go.Store.Database.{Database, Permissions, MapPermission, MapRow, select_permissions}
use tileserve_go.Store.State.{Store}
use tileserve_go.Store.Reads.{Reads, opened, opened-HasTrueCaches}
use tileserve_go.Webserver.Request.{Request}
use tileserve_go.Webserver.Authz.{require_map_permission, require_map_admin, get_viewable_map}
use tileserve_go.Webserver.Authz.Sound.{
  Decides, holds_of, owns, key_may, key_may_version, user_may_act,
}
use tileserve_go.Webserver.Authz.Decided.{require_map_permission-Decides, require_map_admin-Decides}
use tileserve_go.Webserver.Authz.Viewed.{IsViewOf, get_viewable_map-IsViewOf}
use tileserve_go.Webserver.Versions.{
  classify_version_segment, resolve_version_segment, validate_alias_name, version_segment_alias,
}
use tileserve_go.Webserver.Versions.Resolved.{
  StandsFor, resolve_version_segment-Reads, validate_alias_name_iff,
}

abbrev nobody : Permissions
nobody = record {
  can_create = false;
  can_edit = false;
  can_delete = false;
  can_edit_geo_objects = false;
  can_delete_geo_objects = false;
  can_view_all = false;
  is_admin = false;
}

abbrev hill : MapRow
hill = record {
  name = codes "hill";
  current_version = codes "2";
  visible_to_all = false;
  anonymous_allowed = false;
  created_by = codes "ann";
  updated_by = codes "ann";
  owner_id = 1;
}

abbrev tables : Database
tables = record {
  users = (codes "ann", record { id = 1; permissions = nobody }) ∷ [];
  groups = [];
  members = [];
  maps = (codes "m", hill) ∷ [];
  versions = (codes "m", codes "2") ∷ (codes "m", codes "1") ∷ [];
  map_permissions = [];
  group_map_permissions = [];
  aliases = ((codes "m", codes "stable"), codes "1") ∷ [];
  api_keys =
      (
        codes "k",
        record {
          username = codes "ann";
          public_key_pem = codes "pem";
          revoked = false;
          scoped = true;
        },
      )
      ∷ [];
  scopes = ((codes "k", codes "m"), codes "1" ∷ []) ∷ [];
  refresh_tokens = [];
}

abbrev store : Store
store = opened tables

abbrev request : Request
request = record { username = codes "ann"; api_key = some (codes "k") }

abbrev edits_all : Permissions → Bool
edits_all p = p.can_edit

abbrev edits_map : MapPermission → Bool
edits_map mp = mp.can_edit

require_map_permission-Decides_example :
    Decides
      (user_may_act (codes "m") request.username edits_all edits_map store.db
        && key_may request.api_key (codes "m") store.db)
      store
      (require_map_permission request (codes "m") edits_all edits_map store)
require_map_permission-Decides_example =
    require_map_permission-Decides request (codes "m") store edits_all edits_map
      (opened-HasTrueCaches tables)

require_map_admin-Decides_example :
    Decides
      (holds_of (λ p. p.is_admin) (select_permissions request.username store.db)
        || owns (codes "m") request.username store.db)
      store
      (require_map_admin request (codes "m") store)
require_map_admin-Decides_example =
    require_map_admin-Decides request (codes "m") store (opened-HasTrueCaches tables)

get_viewable_map-IsViewOf_example :
    IsViewOf request (codes "m") store (get_viewable_map request (codes "m") store)
get_viewable_map-IsViewOf_example =
    get_viewable_map-IsViewOf request (codes "m") store (opened-HasTrueCaches tables)

resolve_version_segment-Reads_example :
    Reads
      (λ v.
        StandsFor (codes "m") (codes "stable") v store.db
        × (key_may_version request.api_key (codes "m") v store.db ≡ true))
      store
      (resolve_version_segment request (codes "m") (codes "stable") store)
resolve_version_segment-Reads_example =
    resolve_version_segment-Reads request (codes "m") (codes "stable") store
      (opened-HasTrueCaches tables)

validate_alias_name_iff_example :
    ((validate_alias_name (codes "stable") store).0 ≡ ok tt)
    ↔ ((codes "stable" ≢ []) × (classify_version_segment (codes "stable") ≡ version_segment_alias))
validate_alias_name_iff_example = validate_alias_name_iff (codes "stable") store

abbrev pyramid : Tree
pyramid =
    (codes "d/m", dir)
    ∷ (codes "d/m/1", dir)
    ∷ (codes "d/m/1/3", dir)
    ∷ (codes "d/m/1/3/4", dir)
    ∷ (codes "d/m/1/3/4/5.png", file [])
    ∷ []

abbrev magnitude : ℤ → ℕ
magnitude (pos n) = n
magnitude (negsuc n) = n

abbrev rough : Floats ℕ
rough = record {
  float = magnitude;
  pi = 3;
  add = λ a b. a + b;
  sub = λ a b. a - b;
  mul = λ a b. a * b;
  div = λ a b. a;
  pow = λ a b. a;
  sinh = λ a. a;
  atan = λ a. a;
}

abbrev server : BoundsState ℕ
server = record { disk = healthy pyramid; bounds_cache = [] }

cached_tile_bounds-IsAnswer_example :
    IsAnswer rough pyramid
      (codes "d")
      (codes "m")
      (codes "1")
      (cached_tile_bounds rough (codes "d") (codes "m") (codes "1") server)
cached_tile_bounds-IsAnswer_example =
    cached_tile_bounds-IsAnswer rough pyramid (codes "d") (codes "m") (codes "1") server
      (record { disk = refl; agrees = λ k b e. absurd (none-some (sym (lookup-nil k) ∙ e)) })
