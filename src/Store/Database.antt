-- ===== src/Store/Database.antt =====
-- internal/store: the rows of the tables that the authorization of a request reads, and the
-- queries on them. Postgres is the language of these queries; a table is keyed by its primary key.
use tileserve_go.Prelude.{
  ℕ, Bool, ◌||◌, Option, none, some, List, [], ◌∷◌, Text, ◌==◌, nat_eq, text_eq, pair_eq,
  if◌then◌else◌, any,
}
use tileserve_go.Prelude.Assoc.{lookup}

-- Permissions
pub record Permissions : Type 0 where
  pub can_create : Bool
  pub can_edit : Bool
  pub can_delete : Bool
  pub can_edit_geo_objects : Bool
  pub can_delete_geo_objects : Bool
  pub can_view_all : Bool
  pub is_admin : Bool

-- Permissions.GrantsMapVisibility
unfoldable pub grants_map_visibility : Permissions → Bool
grants_map_visibility p =
    p.is_admin || p.can_edit || p.can_delete || p.can_edit_geo_objects || p.can_delete_geo_objects
    || p.can_view_all

-- MapPermission
pub record MapPermission : Type 0 where
  pub can_view : Bool
  pub can_edit : Bool
  pub can_delete : Bool
  pub can_edit_geo_objects : Bool
  pub can_delete_geo_objects : Bool

-- MapPermission.GrantsVisibility
unfoldable pub grants_visibility : MapPermission → Bool
grants_visibility mp =
    mp.can_view || mp.can_edit || mp.can_delete || mp.can_edit_geo_objects
    || mp.can_delete_geo_objects

-- The columns of `users` that are read here; the username is the key.
pub record UserRow : Type 0 where
  pub id : ℕ
  pub permissions : Permissions

-- The columns of `groups` but for who wrote them and when; the id is the key.
pub record GroupRow : Type 0 where
  pub name : Text
  pub permissions : Permissions
  pub ldap_group_dn : Text
  pub oidc_group_claim : Text

-- The columns of `maps` but for the times and the sync remote; the uuid is the key.
pub record MapRow : Type 0 where
  pub name : Text
  pub current_version : Text
  pub visible_to_all : Bool
  pub anonymous_allowed : Bool
  pub created_by : Text
  pub updated_by : Text
  pub owner_id : ℕ

-- MapRecord: the row with its key and the owner's username.
pub record MapRecord : Type 0 where
  pub uuid : Text
  pub row : MapRow
  pub owner : Text

-- The columns of `api_keys` that are read here.
pub record ApiKeyRow : Type 0 where
  pub username : Text
  pub public_key_pem : Text
  pub revoked : Bool
  pub scoped : Bool

-- refreshTokenModel, whose key is the token's hash
pub record RefreshTokenRow : Type 0 where
  pub username : Text
  pub expires_at : ℕ
  pub revoked : Bool

pub record Database : Type 0 where
  pub users : List (Text × UserRow)
  pub groups : List (Text × GroupRow)
  -- group_members: group_id and username
  pub members : List (Text × Text)
  pub maps : List (Text × MapRow)
  -- map_versions: map_uuid and version
  pub versions : List (Text × Text)
  -- map_permissions: map_uuid and username
  pub map_permissions : List ((Text × Text) × MapPermission)
  -- group_map_permissions: map_uuid and group_id
  pub group_map_permissions : List ((Text × Text) × MapPermission)
  -- map_version_aliases: map_uuid and alias
  pub aliases : List ((Text × Text) × Text)
  pub api_keys : List (Text × ApiKeyRow)
  -- api_key_scopes: api_key_id and map_uuid; the NULL of `versions` is the empty list
  pub scopes : List ((Text × Text) × List Text)
  pub refresh_tokens : List (Text × RefreshTokenRow)

-- JOIN users owner_user ON owner_user.id = maps.owner_id
unfoldable pub username_of : ℕ → List (Text × UserRow) → Option Text
username_of id [] = none
username_of id ((name, u) ∷ users) = if u.id == id then some name else username_of id users

abbrev pub joined_owner : Text → MapRow → Option Text → Option MapRecord
joined_owner id m none = none
joined_owner id m (some owner) = some (record { uuid = id; row = m; owner = owner })

abbrev pub joined_map : Text → Database → Option MapRow → Option MapRecord
joined_map id db none = none
joined_map id db (some m) = joined_owner id m (username_of m.owner_id db.users)

-- The query of loadMapWithOwner.
unfoldable pub select_map : Text → Database → Option MapRecord
unfolding username_of
select_map id db = joined_map id db (lookup id db.maps)

abbrev pub version_of_row : Option MapRow → Option Text
version_of_row none = none
version_of_row (some m) = some m.current_version

-- The query of GetCurrentVersion.
unfoldable pub select_current_version : Text → Database → Option Text
select_current_version id db = version_of_row (lookup id db.maps)

abbrev pub cons_some {ℓ} : {A : Type ℓ} → Option A → List A → List A
cons_some none l = l
cons_some (some a) l = a ∷ l

-- The join of a user's memberships with a table that a group's id leads to.
unfoldable pub join_members : {A : Type 0} → (Text → Option A) → Text → List (Text × Text) → List A
join_members find username [] = []
join_members find username ((group, user) ∷ members) =
    let rest = join_members find username members in
    if user == username then cons_some (find group) rest else rest

abbrev pub permissions_of_row : Option UserRow → Option Permissions
permissions_of_row none = none
permissions_of_row (some u) = some u.permissions

abbrev pub permissions_of_group : Option GroupRow → Option Permissions
permissions_of_group none = none
permissions_of_group (some g) = some g.permissions

-- The rows of `combined` in GetPermissions.
unfoldable pub permission_rows : Text → Database → List Permissions
unfolding join_members
permission_rows username db =
    cons_some (permissions_of_row (lookup username db.users))
      (join_members (λ g. permissions_of_group (lookup g db.groups)) username db.members)

-- bool_or of each column
unfoldable pub permissions_or : List Permissions → Permissions
permissions_or rows = record {
  can_create = any (λ p. p.can_create) rows;
  can_edit = any (λ p. p.can_edit) rows;
  can_delete = any (λ p. p.can_delete) rows;
  can_edit_geo_objects = any (λ p. p.can_edit_geo_objects) rows;
  can_delete_geo_objects = any (λ p. p.can_delete_geo_objects) rows;
  can_view_all = any (λ p. p.can_view_all) rows;
  is_admin = any (λ p. p.is_admin) rows;
}

-- Without a row bool_or is NULL, which does not scan into a bool.
abbrev pub scanned : List Permissions → Option Permissions
scanned [] = none
scanned (p ∷ rows) = some (permissions_or (p ∷ rows))

-- The query of GetPermissions.
unfoldable pub select_permissions : Text → Database → Option Permissions
unfolding permission_rows permissions_or
select_permissions username db = scanned (permission_rows username db)

-- The rows of `combined` in GetMapPermission.
unfoldable pub grant_rows : Text → Text → Database → List MapPermission
unfolding join_members
grant_rows map_id username db =
    cons_some (lookup (map_id, username) db.map_permissions)
      (join_members (λ g. lookup (map_id, g) db.group_map_permissions) username db.members)

-- The query of GetMapPermission: NullBool turns the NULL of no row into false.
unfoldable pub select_map_permission : Text → Text → Database → MapPermission
unfolding grant_rows
select_map_permission map_id username db =
    let rows = grant_rows map_id username db in
    record {
      can_view = any (λ mp. mp.can_view) rows;
      can_edit = any (λ mp. mp.can_edit) rows;
      can_delete = any (λ mp. mp.can_delete) rows;
      can_edit_geo_objects = any (λ mp. mp.can_edit_geo_objects) rows;
      can_delete_geo_objects = any (λ mp. mp.can_delete_geo_objects) rows;
    }
