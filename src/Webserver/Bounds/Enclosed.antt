-- ===== src/Webserver/Bounds/Enclosed.antt =====
-- internal/webserver/map_bounds.go: what computeTileBounds says of a version's directory.
use tileserve_go.Prelude.{
  Bool, true, false, Option, none, some, List, [], ◌∷◌, Text, nat_eq, text_eq, In, Some, Some-cons,
  ◌≡◌, refl, sym, ◌∙◌, ◌↔◌, ◌⊎◌, inl, inr, Bool-cases, arith, true-false, iff_trans, either_iff,
  id_iff,
}
use tileserve_go.Prelude.Assoc.{lookup}
use tileserve_go.Prelude.Decimal.{ℤ, less, atoi}
use tileserve_go.Prelude.Monad.{Result, ok, err, raise, handle}
use tileserve_go.Disk.{
  Disk, DiskError, Node, dir, file, not_exist, not_a_directory, Tree, child_path, names_in,
  is_dir_node, read_dir, list_dir,
}
use tileserve_go.Disk.Entries.{names_in_iff}
use tileserve_go.TileArchive.Index.{marshal_int}
use tileserve_go.TileArchive.Index.Scan.{
  healthy, read_dir-healthy, IsEntry, IsDirEntry, entry_of, dir_listed,
}
use tileserve_go.Webserver.Bounds.{
  BoundsError, Extent, failed, read_or, found_or, tile_extent_at_zoom, cons_zoom, zooms_of,
}
use tileserve_go.Webserver.Bounds.Extents.{IsExtentOf, Spans, Spans-iff, IsRowName}
use tileserve_go.Webserver.Bounds.Columns.{IsColumnName, Extends-columns}

module _ (t : Tree) where
  -- A directory that os.ReadDir reads.
  abbrev pub IsDir : Text → Type 0
  IsDir path = is_dir_node (lookup path t) ≡ true

  -- The column `x` of a zoom level has a file for `y`.
  abbrev pub IsTileAt : Text → ℤ → ℤ → Type 0
  IsTileAt path x y =
      IsDir path
      × ((column : Text) × IsDirEntry t path column
          × (atoi column ≡ some x)
          × ((row : Text) × IsEntry t (child_path path column) row × IsRowName y row))

  -- The version has a directory for the zoom level.
  abbrev pub IsLevelOf : Text → ℤ → Type 0
  IsLevelOf path z = IsDir path × ((name : Text) × IsDirEntry t path name × (atoi name ≡ some z))

  pub record IsLowest (path : Text) (z : ℤ) : Type 0 where
    pub level : IsLevelOf path z
    pub least : (y : ℤ) → IsLevelOf path y → less y z ≡ false

  columns_iff :
      (path : Text) (x y : ℤ)
      → IsDir path
      → (⊥ ⊎ Some (IsColumnName t path x y) (names_in path t)) ↔ IsTileAt path x y
  columns_iff path x y d = (
    λ s. elim s [
      | inl b ↦ absurd b
      | inr (column, i, r) ↦
          let (row, j, k) = r.1.1 in
          (
            d,
            (
              column,
              ((entry_of t path column i).0, r.0),
              r.1.0,
              (row, entry_of t (child_path path column) row j, k),
            ),
          )
    ],
    λ h.
        let (column, e, a, f) = h.1 in
        let (row, j, k) = f in
        inr (
          column,
          dir_listed t path column e,
          (e.1, (a, (row, (names_in_iff (child_path path column) row t).1 j, k))),
        ),
  )

  -- What tileExtentAtZoom returns.
  abbrev pub IsExtentResult : Text → Result BoundsError Extent × Disk → Type 0
  IsExtentResult path (ok e, d) = (d ≡ healthy t) × IsExtentOf (IsTileAt path) e
  IsExtentResult path (err e, d) = (d ≡ healthy t) × ((x y : ℤ) → ¬ IsTileAt path x y)

  found_or-IsExtentResult :
      (path : Text) (o : Option Extent)
      → Spans o (IsTileAt path)
      → IsExtentResult path (found_or o (healthy t))
  found_or-IsExtentResult path none s = (refl, s)
  found_or-IsExtentResult path (some e) s = (refl, s)

  list_failure :
      (path : Text) (f : DiskError → BoundsError) (n : Option Node)
      → is_dir_node n ≡ false
      → (e : BoundsError) × (handle (list_dir path n) (λ e. raise {A = List Text} (f e)) (healthy t)
          ≡ (err e, healthy t))
  unfolding list_dir
  list_failure path f none h = (f not_exist, refl)
  list_failure path f (some (file c)) h = (f not_a_directory, refl)
  list_failure path f (some dir) h = absurd (true-false h)

  pub read_failure :
      (path : Text) (f : DiskError → BoundsError)
      → is_dir_node (lookup path t) ≡ false
      → (e : BoundsError) × (read_or f path (healthy t) ≡ (err e, healthy t))
  unfolding read_or read_dir
  read_failure path f h = list_failure path f (lookup path t) h

  pub read_success :
      (path : Text) (f : DiskError → BoundsError)
      → IsDir path
      → read_or f path (healthy t) ≡ (ok (names_in path t), healthy t)
  unfolding read_or
  read_success path f h = rw (read_dir-healthy path t h) refl

  pub tile_extent-IsExtentResult :
      (version_dir : Text) (z : ℤ)
      → IsExtentResult
          (child_path version_dir (marshal_int z))
          (tile_extent_at_zoom version_dir z (healthy t))
  unfolding tile_extent_at_zoom
  tile_extent-IsExtentResult version_dir z =
      let path = child_path version_dir (marshal_int z) in
      elim (Bool-cases (is_dir_node (lookup path t))) [
        | inl d ↦
            let found = Extends-columns t path (names_in path t) none (λ x y. ⊥) (λ x y b. b) in
            rw (read_success path failed d, found.returns)
              (found_or-IsExtentResult path found.next (
                Spans-iff found.next _ (IsTileAt path) (λ x y. columns_iff path x y d) found.spans))
        | inr absent ↦
            let bad = read_failure path failed absent in
            rw bad.1 (refl, λ x y h. true-false (sym h.0 ∙ absent))
      ]

  pub IsLevelName : Text → ℤ → Text → Type 0
  IsLevelName path z name =
      (is_dir_node (lookup (child_path path name) t) ≡ true) × (atoi name ≡ some z)

  cons_zoom-In :
      (b : Bool) (o : Option ℤ) (zooms : List ℤ) (z : ℤ)
      → In z (cons_zoom b o zooms) ↔ (((b ≡ true) × (o ≡ some z)) ⊎ In z zooms)
  cons_zoom-In true (some y) zooms z = ground arith
  cons_zoom-In false (some y) zooms z = ground arith
  cons_zoom-In b none zooms z = ground arith

  pub record AreZooms (path : Text) (names : List Text) : Type 0 where
    pub zooms : List ℤ
    pub returns : zooms_of path names (healthy t) ≡ (ok zooms, healthy t)
    pub member : (z : ℤ) → In z zooms ↔ Some (IsLevelName path z) names

  pub zooms_found : (path : Text) (names : List Text) → AreZooms path names
  unfolding zooms_of IsLevelName
  zooms_found path [] = record {
    zooms = [];
    returns = refl;
    member = λ z. (λ i. absurd i, λ s. absurd s.1);
  }
  zooms_found path (name ∷ names) =
      let rest = zooms_found path names in
      let b = is_dir_node (lookup (child_path path name) t) in
      record {
        zooms = cons_zoom b (atoi name) rest.zooms;
        returns = rw rest.returns refl;
        member = λ z. iff_trans (cons_zoom-In b (atoi name) rest.zooms z) (
            iff_trans (either_iff (id_iff _) (rest.member z))
              (Some-cons (IsLevelName path z) name names));
      }

  pub levels_iff :
      (path : Text) (z : ℤ)
      → IsDir path
      → Some (IsLevelName path z) (names_in path t) ↔ IsLevelOf path z
  unfolding IsLevelName
  levels_iff path z d = (
    λ s. (d, (s.0, ((entry_of t path s.0 s.1).0, s.2.0), s.2.1)),
    λ h. let (name, e, a) = h.1 in (name, dir_listed t path name e, (e.1, a)),
  )
