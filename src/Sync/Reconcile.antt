-- ===== src/Sync/Reconcile.antt =====
-- internal/sync/sync.go: the comparisons of the remote's state with the local one.
pub mod Applied
pub mod Selected
use tileserve_go.Prelude.{
  ℕ, Bool, true, false, not, ◌&&◌, ◌||◌, Option, none, some, List, [], ◌∷◌, Text, ◌==◌, nat_eq,
  text_eq, if◌then◌else◌, keep_if, ltb, map,
}
use tileserve_go.Prelude.Assoc.{lookup, insert}
use tileserve_go.Prelude.Sorting.{sort_slice}

-- store.MapVersionRecord, without who created it
pub record VersionRecord : Type 0 where
  pub version : Text
  pub created_at : ℕ

-- store.GeoObjectRecord: the id, the time of the last change, and the rest
pub record GeoObject : Type 0 where
  pub updated_at : ℕ
  pub content : Text

-- A map of Go that says yes to a key: m[k] is false for a key that is not there.
abbrev pub is_set : Option Bool → Bool
is_set none = false
is_set (some b) = b

abbrev pub earlier : VersionRecord → VersionRecord → Bool
earlier a b = ltb a.created_at b.created_at

-- versionsToPull
unfoldable pub versions_to_pull : List (Text × Bool) → List VersionRecord → List VersionRecord
unfolding lookup sort_slice
versions_to_pull already_local remote =
    sort_slice earlier (keep_if (λ v. not (is_set (lookup v.version already_local))) remote)

-- The loop that fills a map of Go from a list: a later entry replaces an earlier one.
unfoldable pub index_from : {V : Type 0} → List (Text × V) → List (Text × V) → List (Text × V)
unfolding insert
index_from acc [] = acc
index_from acc ((k, v) ∷ l) = index_from (insert k v acc) l

abbrev pub missing {ℓ} : {V : Type ℓ} → Option V → Bool
missing none = true
missing (some v) = false

abbrev pub differs : {V : Type 0} → (V → V → Bool) → V → Option V → Bool
differs changed r none = true
differs changed r (some l) = changed l r

module _ {V : Type 0} (changed : V → V → Bool) where
  -- The remote entries that are new or changed.
  unfoldable pub to_write : List (Text × V) → List (Text × V) → List (Text × V)
  unfolding index_from lookup
  to_write local remote =
      keep_if (λ r. differs changed r.1 (lookup r.0 (index_from [] local))) remote

-- The local keys that the remote does not have.
unfoldable pub to_delete : {V : Type 0} → List (Text × V) → List (Text × V) → List Text
unfolding index_from lookup
to_delete local remote =
    map (λ l. l.0) (keep_if (λ l. missing (lookup l.0 (index_from [] remote))) local)

-- reconcileAliases, on pairs of an alias and its version
unfoldable pub reconcile_aliases :
    List (Text × Text) → List (Text × Text) → List (Text × Text) × List Text
unfolding to_write to_delete
reconcile_aliases local remote =
    (to_write (λ l r. not (l == r)) local remote, to_delete local remote)

-- reconcileGeoObjects, on pairs of an id and the object
unfoldable pub reconcile_geo_objects :
    List (Text × GeoObject) → List (Text × GeoObject) → List (Text × GeoObject) × List Text
unfolding to_write to_delete
reconcile_geo_objects local remote =
    (to_write (λ l r. not (l.updated_at == r.updated_at)) local remote, to_delete local remote)

-- mapsToSync, on the maps' ids
unfoldable pub maps_to_sync : List Text → Bool → List (Text × Bool) → List (Text × Bool) → List Text
unfolding lookup
maps_to_sync maps sync_new_maps selected known_locally =
    keep_if
      (λ m. is_set (lookup m selected) || (sync_new_maps && not (is_set (lookup m known_locally))))
      maps
