-- ===== src/Webserver/Bounds/Answered.antt =====
-- internal/webserver/map_bounds.go: cachedTileBounds against the disk, while a version's directory
-- stays as it is.
use tileserve_go.Prelude.{
  Option, none, some, List, Text, ◌==◌, nat_eq, text_eq, pair_eq, eq_iff, ◌≡◌, refl, sym, ap, subst,
  ◌∙◌, inl, inr, Bool-cases, arith,
}
use tileserve_go.Prelude.Assoc.{lookup, insert, lookup-insert_self}
use tileserve_go.Prelude.Assoc.Entries.{lookup_other}
use tileserve_go.Prelude.Monad.{Result, ok, err, continue, pure, modify, ◌>>◌}
use tileserve_go.Disk.{Disk, Tree}
use tileserve_go.TileArchive.Index.Scan.{healthy}
use tileserve_go.Webserver.Bounds.{BoundsError, Floats, TileBounds, compute_tile_bounds}
use tileserve_go.Webserver.Bounds.Computed.{
  AreBoundsOf, IsBoundsResult, compute_tile_bounds-IsBoundsResult,
}
use tileserve_go.Webserver.Bounds.Served.{
  BoundsState, map_version_dir, with_disk, put_bounds, bounds_or, uncached_tile_bounds,
  cached_tile_bounds,
}

module _ {F : Type 0} (fl : Floats F) (t : Tree) (data_root : Text) where
  -- Every cached value is the bounds of its version.
  pub record HasTrueBounds (s : BoundsState F) : Type 0 where
    pub disk : s.disk ≡ healthy t
    pub agrees :
        (k : Text × Text) (b : TileBounds F)
        → lookup k s.bounds_cache ≡ some b
        → AreBoundsOf fl t (map_version_dir data_root k.0 k.1) b

  -- What a request for bounds gets, and the cache behind it.
  pub record IsAnswer (id version : Text) (r : Result BoundsError (TileBounds F) × BoundsState F)
      : Type 0 where
    pub after : HasTrueBounds r.1
    pub result : IsBoundsResult fl t (map_version_dir data_root id version) (r.0, r.1.disk)

  same_bounds :
      (k : Text × Text) (b c : TileBounds F) (m : List ((Text × Text) × TileBounds F))
      → lookup k (insert k b m) ≡ some c
      → b ≡ c
  same_bounds k b c m e = ground (arith, lookup-insert_self k b m)

  known_bounds :
      (k j : Text × Text) (b c : TileBounds F) (s : BoundsState F)
      → HasTrueBounds s
      → AreBoundsOf fl t (map_version_dir data_root k.0 k.1) b
      → lookup j (insert k b s.bounds_cache) ≡ some c
      → AreBoundsOf fl t (map_version_dir data_root j.0 j.1) c
  known_bounds k j b c s h true_b e = elim (Bool-cases (k == j)) [
    | inl same ↦
        let here : k ≡ j = (eq_iff k j).0 same in
        let f : lookup k (insert k b s.bounds_cache) ≡ some c =
          ap (λ i. lookup i (insert k b s.bounds_cache)) here ∙ e in
        subst (λ i. AreBoundsOf fl t (map_version_dir data_root i.0 i.1) c) here
          (subst (AreBoundsOf fl t (map_version_dir data_root k.0 k.1))
            (same_bounds k b c s.bounds_cache f) true_b)
    | inr other ↦ h.agrees j c (sym (lookup_other k j b s.bounds_cache other) ∙ e)
  ]

  computed-IsAnswer :
      (id version : Text) (s : BoundsState F) (r : Result BoundsError (TileBounds F) × Disk)
      → HasTrueBounds s
      → IsBoundsResult fl t (map_version_dir data_root id version) r
      → IsAnswer id version
          (continue (λ b. modify (put_bounds id version b) >> pure b) (with_disk s r))
  computed-IsAnswer id version s (ok b, d) h k = record {
    after = record { disk = k.0; agrees = λ j c. known_bounds (id, version) j b c s h k.1 };
    result = k;
  }
  computed-IsAnswer id version s (err e, d) h k = record {
    after = record { disk = k.0; agrees = h.agrees };
    result = k;
  }

  uncached-IsAnswer :
      (id version : Text) (s : BoundsState F)
      → HasTrueBounds s
      → IsAnswer id version (uncached_tile_bounds fl data_root id version s)
  unfolding uncached_tile_bounds
  uncached-IsAnswer id version s h =
      computed-IsAnswer id version s
        (compute_tile_bounds fl (map_version_dir data_root id version) s.disk) h
        (rw h.disk (compute_tile_bounds-IsBoundsResult fl t (map_version_dir data_root id version)))

  hit-IsAnswer :
      (id version : Text) (s : BoundsState F) (o : Option (TileBounds F))
      → lookup (id, version) s.bounds_cache ≡ o
      → HasTrueBounds s
      → IsAnswer id version (bounds_or o (uncached_tile_bounds fl data_root id version) s)
  hit-IsAnswer id version s none e h = uncached-IsAnswer id version s h
  hit-IsAnswer id version s (some b) e h = record {
    after = h;
    result = (h.disk, h.agrees (id, version) b e);
  }

-- While the disk has no faults and every cached value is the bounds of its version's directory,
-- cachedTileBounds leaves it so, and returns the lowest and the highest zoom level of the version
-- and the edges and the center, in degrees, of the least rectangle around the tiles of the lowest
-- level: every tile of the directory that has the level's number in decimal lies in the rectangle,
-- each side has a tile, and the east and south edges are those behind the last column and row. It
-- fails only where that directory has no tile. It leaves the disk as it was.
pub cached_tile_bounds-IsAnswer :
    {F : Type 0} (fl : Floats F) (t : Tree) (data_root id version : Text) (s : BoundsState F)
    → HasTrueBounds fl t data_root s
    → IsAnswer fl t data_root id version (cached_tile_bounds fl data_root id version s)
unfolding cached_tile_bounds
cached_tile_bounds-IsAnswer fl t data_root id version s h =
    hit-IsAnswer fl t data_root id version s (lookup (id, version) s.bounds_cache) refl h
