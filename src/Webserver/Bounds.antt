-- ===== src/Webserver/Bounds.antt =====
-- internal/webserver/map_bounds.go: the extent of a version's tiles. Numbers of float64 are a type
-- that the operations of Floats compute with; a version's directory is cleaned.
pub mod Order
pub mod Extents
pub mod Columns
pub mod Enclosed
pub mod Computed
pub mod Served
pub mod Answered
use tileserve_go.Prelude.{
  ℕ, zero, suc, Bool, true, false, not, ◌&&◌, Option, none, some, List, [], ◌∷◌, ◌++◌, Text, codes,
  ◌==◌, nat_eq, text_eq, pair_eq, if◌then◌else◌,
}
use tileserve_go.Prelude.Assoc.{lookup, insert}
use tileserve_go.Prelude.Decimal.{ℤ, pos, negsuc, less, max_int, atoi}
use tileserve_go.Prelude.Sorting.{sort_slice}
use tileserve_go.Prelude.Strings.{has_suffix}
use tileserve_go.Prelude.Monad.{
  Result, ok, err, Exec, pure, raise, gets, modify, handle, recover, ◌>>=◌, ◌>>◌,
}
use tileserve_go.Disk.{Disk, DiskError, not_exist, child_path, is_dir_at, read_dir}
use tileserve_go.TileArchive.Names.{numeric_segment}
use tileserve_go.TileArchive.Index.{trim_png, marshal_int}

-- errNoTiles, and every other error
pub data BoundsError : Type 0 where
  no_tiles read_failed : BoundsError

-- The extremes of the tiles seen so far.
pub record Extent : Type 0 where
  pub min_x : ℤ
  pub max_x : ℤ
  pub min_y : ℤ
  pub max_y : ℤ

-- Go's min and max
abbrev pub lesser : ℤ → ℤ → ℤ
lesser a b = if less b a then b else a

abbrev pub greater : ℤ → ℤ → ℤ
greater a b = if less a b then b else a

-- The body of the innermost loop; `none` is !found.
abbrev pub grow : ℤ → ℤ → Option Extent → Option Extent
grow x y none = some (record { min_x = x; max_x = x; min_y = y; max_y = y })
grow x y (some e) = some (record {
  min_x = lesser e.min_x x;
  max_x = greater e.max_x x;
  min_y = lesser e.min_y y;
  max_y = greater e.max_y y;
})

abbrev pub grow_if : Bool → ℤ → Option ℤ → Option Extent → Option Extent
grow_if png x none acc = acc
grow_if png x (some y) acc = if png then grow x y acc else acc

-- The loop over yEntries.
unfoldable pub grow_names : ℤ → List Text → Option Extent → Option Extent
unfolding trim_png has_suffix
grow_names x [] acc = acc
grow_names x (name ∷ names) acc =
    grow_names x names (grow_if (has_suffix name (codes ".png")) x (atoi (trim_png name)) acc)

-- A column that cannot be read is left out.
unfoldable pub extend_column :
    Text → Option ℤ → Option Extent → Exec Disk BoundsError (Option Extent)
unfolding grow_names
extend_column path none acc = pure acc
extend_column path (some x) acc =
    handle (do names ← read_dir path; pure (grow_names x names acc)) (λ e. pure acc)

-- The loop over xEntries.
unfoldable pub extend_columns :
    Text → List Text → Option Extent → Exec Disk BoundsError (Option Extent)
unfolding extend_column
extend_columns path [] acc = pure acc
extend_columns path (name ∷ names) acc = do
  is_dir ← gets (is_dir_at (child_path path name))
  next ← if is_dir then extend_column (child_path path name) (atoi name) acc else pure acc
  extend_columns path names next

abbrev pub failed : DiskError → BoundsError
failed e = read_failed

abbrev pub missing_is_empty : DiskError → BoundsError
missing_is_empty not_exist = no_tiles
missing_is_empty e = read_failed

unfoldable pub read_or : (DiskError → BoundsError) → Text → Exec Disk BoundsError (List Text)
unfolding read_dir
read_or f path = handle (read_dir path) (λ e. raise (f e))

abbrev pub found_or : Option Extent → Exec Disk BoundsError Extent
found_or none = raise no_tiles
found_or (some e) = pure e

-- tileExtentAtZoom; strconv.Itoa writes an int as json.Marshal does
unfoldable pub tile_extent_at_zoom : Text → ℤ → Exec Disk BoundsError Extent
unfolding read_or extend_columns marshal_int
tile_extent_at_zoom version_dir z = do
  let zoom_dir = child_path version_dir (marshal_int z)
  names ← read_or failed zoom_dir
  e ← extend_columns zoom_dir names none
  found_or e

abbrev pub cons_zoom : Bool → Option ℤ → List ℤ → List ℤ
cons_zoom is_dir none zooms = zooms
cons_zoom is_dir (some z) zooms = if is_dir then z ∷ zooms else zooms

-- The loop of computeTileBounds.
unfoldable pub zooms_of : Text → List Text → Exec Disk BoundsError (List ℤ)
zooms_of path [] = pure []
zooms_of path (name ∷ names) = do
  is_dir ← gets (is_dir_at (child_path path name))
  zooms ← zooms_of path names
  pure (cons_zoom is_dir (atoi name) zooms)

abbrev pub last_of : ℤ → List ℤ → ℤ
last_of z [] = z
last_of z (y ∷ zs) = last_of y zs

-- zooms[0] and zooms[len(zooms)-1]
abbrev pub ends_of : List ℤ → Exec Disk BoundsError (ℤ × ℤ)
ends_of [] = raise no_tiles
ends_of (z ∷ zs) = pure (z, last_of z zs)

-- The part of computeTileBounds that finds minZoom and maxZoom.
unfoldable pub zoom_range : Text → Exec Disk BoundsError (ℤ × ℤ)
unfolding read_or zooms_of
zoom_range version_dir = do
  names ← read_or missing_is_empty version_dir
  zooms ← zooms_of version_dir names
  ends_of (sort_slice less zooms)

-- float64 and the functions of package math
pub record Floats (F : Type 0) : Type 0 where
  pub float : ℤ → F
  pub pi : F
  pub add : F → F → F
  pub sub : F → F → F
  pub mul : F → F → F
  pub div : F → F → F
  pub pow : F → F → F
  pub sinh : F → F
  pub atan : F → F

-- tileBounds
pub record TileBounds (F : Type 0) : Type 0 where
  pub min_zoom : ℤ
  pub max_zoom : ℤ
  pub west : F
  pub south : F
  pub east : F
  pub north : F
  pub center_lng : F
  pub center_lat : F

-- a + 1 on 64 bits
abbrev pub next_int : ℤ → ℤ
next_int (pos n) = if n == max_int then negsuc max_int else pos (suc n)
next_int (negsuc zero) = pos 0
next_int (negsuc (suc n)) = negsuc n

module _ {F : Type 0} (fl : Floats F) where
  -- tileToLonLat
  unfoldable pub tile_to_lon_lat : ℤ → ℤ → ℤ → F × F
  tile_to_lon_lat x y z =
      let n = fl.pow (fl.float (pos 2)) (fl.float z) in
      let lon = fl.sub (fl.mul (fl.div (fl.float x) n) (fl.float (pos 360))) (fl.float (pos 180)) in
      let lat_rad = fl.atan (
        fl.sinh (
          fl.mul fl.pi
            (fl.sub (fl.float (pos 1)) (fl.div (fl.mul (fl.float (pos 2)) (fl.float y)) n)))) in
      (lon, fl.div (fl.mul lat_rad (fl.float (pos 180))) fl.pi)

  unfoldable pub bounds_of : ℤ → ℤ → Extent → TileBounds F
  unfolding tile_to_lon_lat
  bounds_of min_zoom max_zoom e =
      let first = tile_to_lon_lat e.min_x e.min_y min_zoom in
      let last = tile_to_lon_lat (next_int e.max_x) (next_int e.max_y) min_zoom in
      record {
        min_zoom = min_zoom;
        max_zoom = max_zoom;
        west = first.0;
        south = last.1;
        east = last.0;
        north = first.1;
        center_lng = fl.div (fl.add first.0 last.0) (fl.float (pos 2));
        center_lat = fl.div (fl.add last.1 first.1) (fl.float (pos 2));
      }

  -- computeTileBounds
  unfoldable pub compute_tile_bounds : Text → Exec Disk BoundsError (TileBounds F)
  unfolding zoom_range tile_extent_at_zoom bounds_of
  compute_tile_bounds version_dir = do
    zooms ← zoom_range version_dir
    e ← tile_extent_at_zoom version_dir zooms.0
    pure (bounds_of zooms.0 zooms.1 e)
