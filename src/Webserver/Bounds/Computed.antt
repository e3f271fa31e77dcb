-- ===== src/Webserver/Bounds/Computed.antt =====
-- internal/webserver/map_bounds.go: the whole of computeTileBounds on a disk without faults.
use tileserve_go.Prelude.{
  ℕ, zero, suc, false, List, [], ◌∷◌, Text, ◌==◌, nat_eq, eq_iff, ◌≢◌, text_eq, In, ◌≡◌, refl, sym,
  subst, ◌∙◌, ◌↔◌, inl, inr, Bool-cases, true-false, iff_trans,
}
use tileserve_go.Prelude.Assoc.{lookup}
use tileserve_go.Prelude.Decimal.{ℤ, pos, negsuc, max_int, less, less_asym, less_antisym}
use tileserve_go.Prelude.Sorting.{sort_slice, sort_slice-IsSorted, sort_slice-In, IsSorted}
use tileserve_go.Prelude.Monad.{Result, ok, err, continue, pure, ◌>>=◌}
use tileserve_go.Disk.{Disk, Tree, child_path, names_in, is_dir_node}
use tileserve_go.TileArchive.Index.{marshal_int}
use tileserve_go.TileArchive.Index.Scan.{healthy}
use tileserve_go.Webserver.Bounds.{
  BoundsError, Extent, missing_is_empty, tile_extent_at_zoom, last_of, ends_of, zoom_range, Floats,
  TileBounds, next_int, tile_to_lon_lat, bounds_of, compute_tile_bounds,
}
use tileserve_go.Webserver.Bounds.Order.{IsSorted-first, IsSorted-last, In-last_of}
use tileserve_go.Webserver.Bounds.Extents.{IsExtentOf}
use tileserve_go.Webserver.Bounds.Enclosed.{
  IsTileAt, IsLevelOf, IsLowest, IsExtentResult, tile_extent-IsExtentResult, read_failure,
  read_success, zooms_found, levels_iff,
}

module _ (t : Tree) where
  pub record IsHighest (path : Text) (z : ℤ) : Type 0 where
    pub level : IsLevelOf t path z
    pub greatest : (y : ℤ) → IsLevelOf t path y → less z y ≡ false

  abbrev IsRange : Text → Result BoundsError (ℤ × ℤ) × Disk → Type 0
  IsRange path (ok (a, b), d) = (d ≡ healthy t) × IsLowest t path a × IsHighest path b
  IsRange path (err e, d) = (d ≡ healthy t) × ((z : ℤ) → ¬ IsLevelOf t path z)

  ends_of-IsRange :
      (path : Text) (zooms : List ℤ)
      → IsSorted less zooms
      → ((z : ℤ) → In z zooms ↔ IsLevelOf t path z)
      → IsRange path (ends_of zooms (healthy t))
  ends_of-IsRange path [] s m = (refl, λ z l. (m z).1 l)
  ends_of-IsRange path (z ∷ zs) s m = (
    refl,
    record { level = (m z).0 (inl refl); least = λ y l. IsSorted-first z zs s y ((m y).1 l) },
    record {
      level = (m (last_of z zs)).0 (In-last_of z zs);
      greatest = λ y l. IsSorted-last z zs s y ((m y).1 l);
    },
  )

  zoom_range-IsRange : (path : Text) → IsRange path (zoom_range path (healthy t))
  unfolding zoom_range
  zoom_range-IsRange path = elim (Bool-cases (is_dir_node (lookup path t))) [
    | inl d ↦
        let found = zooms_found t path (names_in path t) in
        rw (read_success t path missing_is_empty d, found.returns)
          (ends_of-IsRange path (sort_slice less found.zooms)
            (sort_slice-IsSorted less less_asym found.zooms)
            (λ z.
              iff_trans (sort_slice-In less z found.zooms)
                (iff_trans (found.member z) (levels_iff t path z d))))
    | inr absent ↦
        let bad = read_failure t path missing_is_empty absent in
        rw bad.1 (refl, λ z l. true-false (sym l.0 ∙ absent))
  ]

  IsLowest-unique : (path : Text) (a b : ℤ) → IsLowest t path a → IsLowest t path b → a ≡ b
  IsLowest-unique path a b p q = less_antisym a b (q.least a p.level) (p.least b q.level)

-- The int behind an int, on 64 bits: the greatest is followed by the least.
pub data IsNext : ℤ → ℤ → Type 0 where
  counted : (n : ℕ) → n ≢ max_int → IsNext (pos n) (pos (suc n))
  wrapped : IsNext (pos max_int) (negsuc max_int)
  to_zero : IsNext (negsuc 0) (pos 0)
  towards_zero : (n : ℕ) → IsNext (negsuc (suc n)) (negsuc n)

next_int-IsNext : (a : ℤ) → IsNext a (next_int a)
next_int-IsNext (pos n) = elim (Bool-cases (n == max_int)) [
  | inl last ↦
      rw last
        (subst (λ m. IsNext (pos m) (negsuc max_int)) (sym ((eq_iff n max_int).0 last)) wrapped)
  | inr other ↦ rw other (counted n (λ e. true-false (sym ((eq_iff n max_int).1 e) ∙ other)))
]
next_int-IsNext (negsuc zero) = to_zero
next_int-IsNext (negsuc (suc n)) = towards_zero n

module _ {F : Type 0} (fl : Floats F) (t : Tree) where
  -- The number of columns, and of rows, on a level.
  abbrev breadth : ℤ → F
  breadth zoom = fl.pow (fl.float (pos 2)) (fl.float zoom)

  -- x / 2^z * 360 - 180, in degrees
  abbrev pub longitude : ℤ → ℤ → F
  longitude zoom x =
      fl.sub (fl.mul (fl.div (fl.float x) (breadth zoom)) (fl.float (pos 360))) (fl.float (pos 180))

  -- atan (sinh (π * (1 - 2 * y / 2^z))), in degrees
  abbrev pub latitude : ℤ → ℤ → F
  latitude zoom y =
      let angle = fl.mul fl.pi (
        fl.sub (fl.float (pos 1))
          (fl.div (fl.mul (fl.float (pos 2)) (fl.float y)) (breadth zoom))) in
      fl.div (fl.mul (fl.atan (fl.sinh angle)) (fl.float (pos 180))) fl.pi

  abbrev pub middle : F → F → F
  middle a b = fl.div (fl.add a b) (fl.float (pos 2))

  -- What the bounds say: the lowest and the highest level, and the edges of the extent of the tiles
  -- of the lowest: the west and north edges of its first column and row, and the east and south
  -- edges of its last, which are the west and north edges of the ones behind them.
  pub record AreBoundsOf (path : Text) (b : TileBounds F) : Type 0 where
    pub min_zoom : ℤ
    pub max_zoom : ℤ
    pub extent : Extent
    pub min_zoom_is : b.min_zoom ≡ min_zoom
    pub max_zoom_is : b.max_zoom ≡ max_zoom
    -- the column and the row behind the last ones
    pub column : ℤ
    pub row : ℤ
    pub column_next : IsNext extent.max_x column
    pub row_next : IsNext extent.max_y row
    pub west : b.west ≡ longitude min_zoom extent.min_x
    pub east : b.east ≡ longitude min_zoom column
    pub north : b.north ≡ latitude min_zoom extent.min_y
    pub south : b.south ≡ latitude min_zoom row
    pub center_lng : b.center_lng ≡ middle b.west b.east
    pub center_lat : b.center_lat ≡ middle b.south b.north
    pub lowest : IsLowest t path min_zoom
    pub highest : IsHighest t path max_zoom
    pub encloses : IsExtentOf (IsTileAt t (child_path path (marshal_int min_zoom))) extent

  -- The bounds, or an error where the directory named by the lowest level has no tile.
  abbrev pub IsBoundsResult : Text → Result BoundsError (TileBounds F) × Disk → Type 0
  IsBoundsResult path (ok b, d) = (d ≡ healthy t) × AreBoundsOf path b
  IsBoundsResult path (err e, d) =
      (d ≡ healthy t)
      × ((z x y : ℤ) → IsLowest t path z → ¬ IsTileAt t (child_path path (marshal_int z)) x y)

  extent-IsBoundsResult :
      (path : Text) (a b : ℤ) (r : Result BoundsError Extent × Disk)
      → IsLowest t path a
      → IsHighest t path b
      → IsExtentResult t (child_path path (marshal_int a)) r
      → IsBoundsResult path (continue (λ e. pure (bounds_of fl a b e)) r)
  unfolding bounds_of tile_to_lon_lat
  extent-IsBoundsResult path a b (ok e, d) low high h = (
    h.0,
    record {
      min_zoom = a;
      max_zoom = b;
      extent = e;
      min_zoom_is = refl;
      max_zoom_is = refl;
      column = next_int e.max_x;
      row = next_int e.max_y;
      column_next = next_int-IsNext e.max_x;
      row_next = next_int-IsNext e.max_y;
      west = refl;
      east = refl;
      north = refl;
      south = refl;
      center_lng = refl;
      center_lat = refl;
      lowest = low;
      highest = high;
      encloses = h.1;
    },
  )
  extent-IsBoundsResult path a b (err e, d) low high h = (
    h.0,
    λ z x y l i. h.1 x y (
        subst (λ w. IsTileAt t (child_path path (marshal_int w)) x y)
          (IsLowest-unique t path z a l low) i),
  )

  range-IsBoundsResult :
      (path : Text) (r : Result BoundsError (ℤ × ℤ) × Disk)
      → IsRange t path r
      → IsBoundsResult path (
          continue
            (λ zooms.
              tile_extent_at_zoom path zooms.0 >>= λ e. pure (bounds_of fl zooms.0 zooms.1 e))
            r)
  range-IsBoundsResult path (ok (a, b), d) h = rw h.0 (
      extent-IsBoundsResult path a b (tile_extent_at_zoom path a (healthy t)) h.1 h.2
        (tile_extent-IsExtentResult t path a))
  range-IsBoundsResult path (err e, d) h = (h.0, λ z x y l i. h.1 z l.level)

-- On a disk whose calls do not fail, computeTileBounds of a version returns the numbers of its
-- lowest and its highest zoom level and the edges, in degrees, of the least rectangle around the tiles of the lowest
-- level: every tile of the directory that has the level's number in decimal lies in the rectangle,
-- and each side has a tile. It fails only where that directory has no tile. It leaves the disk as
-- it was.
pub compute_tile_bounds-IsBoundsResult :
    {F : Type 0} (fl : Floats F) (t : Tree) (version_dir : Text)
    → IsBoundsResult fl t version_dir (compute_tile_bounds fl version_dir (healthy t))
unfolding compute_tile_bounds
compute_tile_bounds-IsBoundsResult fl t version_dir =
    range-IsBoundsResult fl t version_dir (zoom_range version_dir (healthy t))
      (zoom_range-IsRange t version_dir)
