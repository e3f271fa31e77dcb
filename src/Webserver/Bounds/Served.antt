-- ===== src/Webserver/Bounds/Served.antt =====
-- internal/webserver/map_bounds.go: the cache of bounds and the handler of a map's bounds.
use tileserve_go.Prelude.{Option, none, some, List, Text, nat_eq, text_eq, pair_eq, if◌then◌else◌}
use tileserve_go.Prelude.Assoc.{lookup, insert}
use tileserve_go.Prelude.Monad.{Result, Exec, pure, raise, gets, modify, handle, ◌>>=◌, ◌>>◌}
use tileserve_go.Disk.{Disk, child_path}
use tileserve_go.Store.State.{Store}
use tileserve_go.TileArchive.Names.{numeric_segment}
use tileserve_go.Webserver.Request.{Request, Refusal, bad_request, not_found, internal_error}
use tileserve_go.Webserver.Authz.{get_viewable_map}
use tileserve_go.Webserver.Versions.{resolve_version_segment}
use tileserve_go.Webserver.Bounds.{
  BoundsError, no_tiles, read_failed, Floats, TileBounds, compute_tile_bounds,
}

-- The disk and boundsCache.
pub record BoundsState (F : Type 0) : Type 0 where
  pub disk : Disk
  pub bounds_cache : List ((Text × Text) × TileBounds F)

-- MapVersionDir; `data_root` is cleaned
abbrev pub map_version_dir : Text → Text → Text → Text
map_version_dir data_root id version = child_path (child_path data_root id) version

module _ {F : Type 0} where
  abbrev pub with_disk :
      {E A : Type 0} → BoundsState F → Result E A × Disk → Result E A × BoundsState F
  with_disk s (r, d) = (r, record s { disk = d })

  -- A part of the handler that works on the disk.
  abbrev pub on_disk : {E A : Type 0} → Exec Disk E A → Exec (BoundsState F) E A
  on_disk m s = with_disk s (m s.disk)

  abbrev pub put_bounds : Text → Text → TileBounds F → BoundsState F → BoundsState F
  put_bounds id version b s = record s { bounds_cache = insert (id, version) b s.bounds_cache }

  abbrev pub bounds_or :
      Option (TileBounds F)
      → Exec (BoundsState F) BoundsError (TileBounds F)
      → Exec (BoundsState F) BoundsError (TileBounds F)
  bounds_or none m = m
  bounds_or (some b) m = pure b

  abbrev with_store :
      {A : Type 0}
      → BoundsState F
      → Result Refusal A × Store
      → Result Refusal A × (Store × BoundsState F)
  with_store b (r, s) = (r, (s, b))

  abbrev with_files :
      {A : Type 0}
      → Store
      → Result Refusal A × BoundsState F
      → Result Refusal A × (Store × BoundsState F)
  with_files s (r, b) = (r, (s, b))

abbrev bounds_refusal : BoundsError → Refusal
bounds_refusal no_tiles = not_found
bounds_refusal read_failed = internal_error

module _ {F : Type 0} (fl : Floats F) where
  unfoldable pub uncached_tile_bounds :
      Text → Text → Text → Exec (BoundsState F) BoundsError (TileBounds F)
  unfolding compute_tile_bounds
  uncached_tile_bounds data_root id version = do
    b ← on_disk (compute_tile_bounds fl (map_version_dir data_root id version))
    modify (put_bounds id version b)
    pure b

  -- cachedTileBounds
  unfoldable pub cached_tile_bounds :
      Text → Text → Text → Exec (BoundsState F) BoundsError (TileBounds F)
  unfolding uncached_tile_bounds
  cached_tile_bounds data_root id version = do
    hit ← gets (λ s. lookup (id, version) s.bounds_cache)
    bounds_or hit (uncached_tile_bounds data_root id version)

  -- mapVersionBoundsHandler
  unfoldable pub map_version_bounds :
      Text → Text → Text → Exec (BoundsState F) Refusal (TileBounds F)
  unfolding cached_tile_bounds
  map_version_bounds data_root id version =
      if numeric_segment version
      then handle (cached_tile_bounds data_root id version) (λ e. raise (bounds_refusal e))
      else raise bad_request

  -- MapVersionBoundsHandler, of a path with a map's id
  unfoldable pub map_version_bounds_handler :
      Text → Request → Text → Text → Exec (Store × BoundsState F) Refusal (TileBounds F)
  unfolding map_version_bounds get_viewable_map resolve_version_segment
  map_version_bounds_handler data_root r id segment = do
    λ s. with_store s.1 (get_viewable_map r id s.0)
    version ← λ s. with_store s.1 (resolve_version_segment r id segment s.0)
    λ s. with_files s.0 (map_version_bounds data_root id version s.1)
