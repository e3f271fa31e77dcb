-- ===== src/Webserver/Versions.antt =====
-- internal/webserver/maps.go and map_aliases.go: the version that a path segment stands for, and the
-- names that an alias may have.
pub mod Resolved
use tileserve_go.Prelude.{
  Bool, true, false, not, ◌&&◌, ◌||◌, Option, none, some, List, [], ◌∷◌, Text, codes, ◌==◌, nat_eq,
  text_eq, if◌then◌else◌,
}
use tileserve_go.Prelude.Monad.{Result, ok, err, Exec, pure, raise, handle, ◌>>=◌, ◌>>◌}
use tileserve_go.Store.State.{Store, StoreError, map_not_found, alias_not_found}
use tileserve_go.Store.Maps.{get_current_version}
use tileserve_go.Store.Aliases.{get_map_version_alias}
use tileserve_go.TileArchive.Names.{numeric_segment}
use tileserve_go.Webserver.Request.{
  Request, Refusal, bad_request, forbidden, not_found, internal_error, or_refuse, internal, require,
}
use tileserve_go.Webserver.Authz.{map_error, api_key_map_version_allowed, require_allowed}

-- currentVersionKeyword
abbrev pub current_version_keyword : Text
current_version_keyword = codes "current"

-- versionSegmentKind
pub data VersionSegmentKind : Type 0 where
  version_segment_current version_segment_numeric version_segment_alias : VersionSegmentKind

-- classifyVersionSegment
unfoldable pub classify_version_segment : Text → VersionSegmentKind
classify_version_segment segment =
    if segment == current_version_keyword
    then version_segment_current
    else if numeric_segment segment
    then version_segment_numeric
    else version_segment_alias

-- validateAliasName
unfoldable pub validate_alias_name : Text → Exec Store Refusal (Unit {0})
validate_alias_name alias =
    if alias == []
    then raise bad_request
    else if alias == current_version_keyword
    then raise bad_request
    else if numeric_segment alias
    then raise bad_request
    else pure tt

-- resolveCurrentVersion
unfoldable pub resolve_current_version : Text → Exec Store Refusal Text
unfolding get_current_version or_refuse
resolve_current_version id = do
  version ← or_refuse map_error (get_current_version id)
  if version == [] then raise not_found else pure version

-- writeStoreError of ErrMapVersionAliasNotFound
abbrev pub alias_error : StoreError → Refusal
alias_error alias_not_found = not_found
alias_error e = internal_error

-- The switch of resolveVersionSegment.
unfoldable pub resolve_segment : VersionSegmentKind → Text → Text → Exec Store Refusal Text
unfolding resolve_current_version get_map_version_alias or_refuse
resolve_segment version_segment_current id segment = resolve_current_version id
resolve_segment version_segment_numeric id segment = pure segment
resolve_segment version_segment_alias id segment =
    or_refuse alias_error (get_map_version_alias id segment)

-- resolveVersionSegment
unfoldable pub resolve_version_segment : Request → Text → Text → Exec Store Refusal Text
unfolding resolve_segment classify_version_segment api_key_map_version_allowed require_allowed
resolve_version_segment r id segment = do
  version ← resolve_segment (classify_version_segment segment) id segment
  require_allowed (api_key_map_version_allowed r id version)
  pure version
