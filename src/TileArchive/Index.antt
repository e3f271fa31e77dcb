-- ===== src/TileArchive/Index.antt =====
-- internal/tilearchive/index.go: the list of a version's tiles, and its backfill.
pub mod Scan
pub mod Written
use tileserve_go.Prelude.{
  ℕ, suc, ◌+◌, Bool, true, false, not, ◌&&◌, ◌||◌, Option, none, some, List, [], ◌∷◌, ◌++◌, Text,
  codes, ◌==◌, nat_eq, text_eq, if◌then◌else◌,
}
use tileserve_go.Prelude.Decimal.{ℤ, pos, negsuc, less, itoa, atoi}
use tileserve_go.Prelude.Sorting.{sort_slice}
use tileserve_go.Prelude.Monad.{Result, ok, err, Exec, pure, raise, gets, handle, ◌>>=◌, ◌>>◌}
use tileserve_go.Disk.{
  Disk, DiskError, not_exist, child_path, cut_prefix, is_dir_at, read_dir, write_file, stat,
}
use tileserve_go.TileArchive.Names.{numeric_segment, numeric_png}

-- tileCoord
pub record TileCoord : Type 0 where
  pub z : ℤ
  pub x : ℤ
  pub y : ℤ

-- strings.TrimSuffix(name, ".png"), of a name that ends so
unfoldable pub trim_png : Text → Text
trim_png [] = []
trim_png (c ∷ s) = if c ∷ s == codes ".png" then [] else c ∷ trim_png s

-- The body of the innermost loop: one entry of an x directory.
abbrev pub tile_of : Bool → ℤ → ℤ → Option ℤ → List TileCoord
tile_of true z x (some y) = record { z = z; x = x; y = y } ∷ []
tile_of true z x none = []
tile_of false z x o = []

unfoldable pub tiles_of_names : ℤ → ℤ → List Text → List TileCoord
unfolding trim_png
tiles_of_names z x [] = []
tiles_of_names z x (name ∷ names) =
    tile_of (numeric_png name) z x (atoi (trim_png name)) ++ tiles_of_names z x names

unfoldable pub scan_x_dir : Text → ℤ → Option ℤ → Exec Disk DiskError (List TileCoord)
unfolding tiles_of_names
scan_x_dir path z none = pure []
scan_x_dir path z (some x) = do names ← read_dir path; pure (tiles_of_names z x names)

-- The loop over xEntries.
unfoldable pub scan_x_dirs : Text → ℤ → List Text → Exec Disk DiskError (List TileCoord)
unfolding scan_x_dir
scan_x_dirs path z [] = pure []
scan_x_dirs path z (name ∷ names) = do
  is_dir ← gets (is_dir_at (child_path path name))
  tiles ← if is_dir then scan_x_dir (child_path path name) z (atoi name) else pure []
  more ← scan_x_dirs path z names
  pure (tiles ++ more)

-- scanZoomTiles
unfoldable pub scan_zoom_tiles : Text → ℤ → Exec Disk DiskError (List TileCoord)
unfolding scan_x_dirs
scan_zoom_tiles path z = do names ← read_dir path; scan_x_dirs path z names

unfoldable pub scan_z_dir : Text → Option ℤ → Exec Disk DiskError (List TileCoord)
unfolding scan_zoom_tiles
scan_z_dir path none = pure []
scan_z_dir path (some z) = scan_zoom_tiles path z

-- The loop over zEntries.
unfoldable pub scan_z_dirs : Text → List Text → Exec Disk DiskError (List TileCoord)
unfolding scan_z_dir
scan_z_dirs path [] = pure []
scan_z_dirs path (name ∷ names) = do
  is_dir ← gets (is_dir_at (child_path path name))
  tiles ← if is_dir then scan_z_dir (child_path path name) (atoi name) else pure []
  more ← scan_z_dirs path names
  pure (tiles ++ more)

-- scanTileCoords
unfoldable pub scan_tile_coords : Text → Exec Disk DiskError (List TileCoord)
unfolding scan_z_dirs
scan_tile_coords dest = do names ← read_dir dest; scan_z_dirs dest names

abbrev pub same : ℤ → ℤ → Bool
same a b = not (less a b) && not (less b a)

-- The order that WriteTileIndex sorts by.
unfoldable pub tile_less : TileCoord → TileCoord → Bool
tile_less a b =
    if not (same a.z b.z)
    then less a.z b.z
    else if not (same a.x b.x)
    then less a.x b.x
    else less a.y b.y

-- What json.Marshal writes.
unfoldable pub marshal_int : ℤ → Text
unfolding itoa
marshal_int (pos n) = itoa n
marshal_int (negsuc n) = b'-' ∷ itoa (suc n)

unfoldable pub marshal_coord : TileCoord → Text
unfolding marshal_int
marshal_coord t =
    codes "{\"z\":"
    ++ (marshal_int t.z
        ++ (codes ",\"x\":"
            ++ (marshal_int t.x ++ (codes ",\"y\":" ++ (marshal_int t.y ++ codes "}")))))

unfoldable pub marshal_coords : List TileCoord → Text
unfolding marshal_coord
marshal_coords [] = []
marshal_coords (t ∷ []) = marshal_coord t
marshal_coords (t ∷ u ∷ ts) = marshal_coord t ++ b',' ∷ marshal_coords (u ∷ ts)

-- No tile was appended to the nil slice `tiles`, which is marshalled as null.
unfoldable pub marshal_index : List TileCoord → Text
unfolding marshal_coords
marshal_index [] = codes "{\"tiles\":null}"
marshal_index (t ∷ ts) = codes "{\"tiles\":[" ++ (marshal_coords (t ∷ ts) ++ codes "]}")

-- WriteTileIndex
unfoldable pub write_tile_index : Text → Exec Disk DiskError (Unit {0})
unfolding scan_tile_coords tile_less marshal_index
write_tile_index dest = do
  tiles ← scan_tile_coords dest
  write_file (child_path dest (codes "index.json")) (marshal_index (sort_slice tile_less tiles))

-- A missing index.json is written; any other error of os.Stat is returned.
unfoldable pub write_if_missing : Text → DiskError → Exec Disk DiskError (Unit {0})
unfolding write_tile_index
write_if_missing version_dir not_exist = write_tile_index version_dir
write_if_missing version_dir e = raise e

unfoldable pub ensure_version_index : Text → Exec Disk DiskError (Unit {0})
unfolding write_if_missing
ensure_version_index version_dir =
    handle (do stat (child_path version_dir (codes "index.json")); pure tt)
      (write_if_missing version_dir)

-- The loop of ensureOverlayTileIndexes.
unfoldable pub ensure_versions : Text → List Text → Exec Disk DiskError (Unit {0})
unfolding ensure_version_index
ensure_versions overlay_dir [] = pure tt
ensure_versions overlay_dir (name ∷ names) = do
  is_dir ← gets (is_dir_at (child_path overlay_dir name))
  if is_dir && numeric_segment name
      then ensure_version_index (child_path overlay_dir name)
      else pure tt
  ensure_versions overlay_dir names

-- ensureOverlayTileIndexes
unfoldable pub ensure_overlay_tile_indexes : Text → Exec Disk DiskError (Unit {0})
unfolding ensure_versions
ensure_overlay_tile_indexes overlay_dir = do
  names ← read_dir overlay_dir
  ensure_versions overlay_dir names
