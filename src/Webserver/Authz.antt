-- ===== src/Webserver/Authz.antt =====
-- internal/webserver/authz.go and maps.go: the checks before a handler acts on a map.
pub mod Sound
pub mod Decided
pub mod Viewed
use tileserve_go.Prelude.{
  Bool, true, false, not, ◌&&◌, ◌||◌, Option, none, some, List, [], ◌∷◌, Text, ◌==◌, nat_eq,
  text_eq, if◌then◌else◌,
}
use tileserve_go.Prelude.Monad.{Result, ok, err, Exec, pure, raise, handle, ◌>>=◌, ◌>>◌}
use tileserve_go.Store.Database.{
  MapRecord, Permissions, MapPermission, grants_map_visibility, grants_visibility,
}
use tileserve_go.Store.State.{Store, StoreError, map_not_found}
use tileserve_go.Store.Maps.{get_map}
use tileserve_go.Store.Grants.{get_permissions, get_map_permission}
use tileserve_go.Store.ApiKeys.{api_key_can_access_map, api_key_can_access_map_version}
use tileserve_go.Webserver.Request.{
  Request, Refusal, unauthorized, forbidden, not_found, internal_error, or_refuse, internal,
  require,
}

-- RequireAuthenticated
unfoldable pub require_authenticated : Request → Exec Store Refusal (Unit {0})
require_authenticated r = if r.username == [] then raise unauthorized else pure tt

-- GetPermissionsOrFail
unfoldable pub get_permissions_or_fail : Request → Exec Store Refusal Permissions
unfolding get_permissions or_refuse
get_permissions_or_fail r = or_refuse internal (get_permissions r.username)

-- RequirePermission
unfoldable pub require_permission : (Permissions → Bool) → Request → Exec Store Refusal (Unit {0})
unfolding get_permissions_or_fail
require_permission allowed r = do
  perms ← get_permissions_or_fail r
  require (allowed perms) forbidden

-- RequireAdmin
unfoldable pub require_admin : Request → Exec Store Refusal (Unit {0})
unfolding require_permission
require_admin r = require_permission (λ p. p.is_admin) r

abbrev pub key_allowed : Option Text → Text → Exec Store StoreError Bool
key_allowed none map_id = pure true
key_allowed (some key) map_id = api_key_can_access_map key map_id

-- apiKeyMapAllowed
unfoldable pub api_key_map_allowed : Request → Text → Exec Store StoreError Bool
api_key_map_allowed r map_id = key_allowed r.api_key map_id

abbrev pub key_version_allowed : Option Text → Text → Text → Exec Store StoreError Bool
key_version_allowed none map_id version = pure true
key_version_allowed (some key) map_id version = api_key_can_access_map_version key map_id version

-- apiKeyMapVersionAllowed
unfoldable pub api_key_map_version_allowed : Request → Text → Text → Exec Store StoreError Bool
api_key_map_version_allowed r map_id version = key_version_allowed r.api_key map_id version

-- A map that does not exist has no owner.
abbrev pub no_owner : StoreError → Exec Store StoreError Bool
no_owner map_not_found = pure false
no_owner e = raise e

-- isMapOwner
unfoldable pub is_map_owner : Text → Text → Exec Store StoreError Bool
unfolding get_map
is_map_owner map_id username = handle (do m ← get_map map_id; pure (m.owner == username)) no_owner

-- ownerOrMapAllowed
unfoldable pub owner_or_map_allowed :
    Text → Text → (MapPermission → Bool) → Exec Store StoreError Bool
unfolding is_map_owner get_map_permission
owner_or_map_allowed map_id username map_allowed = do
  owner ← is_map_owner map_id username
  if owner then pure true else (do mp ← get_map_permission map_id username; pure (map_allowed mp))

-- A check that may fail: an error is a 500, and a false answer is a 403.
unfoldable pub require_allowed : Exec Store StoreError Bool → Exec Store Refusal (Unit {0})
unfolding or_refuse
require_allowed m = do allowed ← or_refuse internal m; require allowed forbidden

-- requireMapPermission
unfoldable pub require_map_permission :
    Request → Text → (Permissions → Bool) → (MapPermission → Bool) → Exec Store Refusal (Unit {0})
unfolding get_permissions_or_fail owner_or_map_allowed require_allowed api_key_map_allowed
require_map_permission r map_id global_allowed map_allowed = do
  perms ← get_permissions_or_fail r
  if not perms.is_admin && not (global_allowed perms)
      then require_allowed (owner_or_map_allowed map_id r.username map_allowed)
      else pure tt
  require_allowed (api_key_map_allowed r map_id)

-- requireMapAdmin
unfoldable pub require_map_admin : Request → Text → Exec Store Refusal (Unit {0})
unfolding get_permissions_or_fail require_allowed is_map_owner
require_map_admin r map_id = do
  perms ← get_permissions_or_fail r
  if perms.is_admin then pure tt else require_allowed (is_map_owner map_id r.username)

-- userCanViewMap
unfoldable pub user_can_view_map : MapRecord → Text → Exec Store StoreError Bool
unfolding get_permissions get_map_permission
user_can_view_map m username =
    if m.row.visible_to_all || m.owner == username then pure true else (do
      perms ← get_permissions username
      if grants_map_visibility perms
          then pure true
          else (do mp ← get_map_permission m.uuid username; pure (grants_visibility mp)))

-- canViewMap
unfoldable pub can_view_map : Request → MapRecord → Exec Store StoreError Bool
unfolding user_can_view_map api_key_map_allowed
can_view_map r m = do
  visible ← user_can_view_map m r.username
  if visible then api_key_map_allowed r m.uuid else pure false

-- requireMapView
unfoldable pub require_map_view : Request → MapRecord → Exec Store Refusal (Unit {0})
unfolding can_view_map require_allowed
require_map_view r m = require_allowed (can_view_map r m)

-- writeStoreError of ErrMapNotFound
abbrev pub map_error : StoreError → Refusal
map_error map_not_found = not_found
map_error e = internal_error

-- getViewableMap
unfoldable pub get_viewable_map : Request → Text → Exec Store Refusal MapRecord
unfolding get_map or_refuse require_map_view
get_viewable_map r id = do m ← or_refuse map_error (get_map id); require_map_view r m; pure m
