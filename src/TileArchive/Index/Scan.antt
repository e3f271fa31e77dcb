-- ===== src/TileArchive/Index/Scan.antt =====
-- internal/tilearchive/index.go: what scanTileCoords finds.
use tileserve_go.Prelude.{
  Bool, true, false, Option, none, some, List, [], ◌∷◌, ◌++◌, Text, nat_eq, text_eq, if◌then◌else◌,
  In, ◌≡◌, refl, sym, ap, ◌↔◌, ◌⊎◌, arith, iff_trans, either_iff, and_either_iff, Some, Some-cons,
  and_iff, In-append,
}
use tileserve_go.Prelude.Assoc.{lookup}
use tileserve_go.Prelude.Decimal.{ℤ, atoi}
use tileserve_go.Prelude.Monad.{ok, Exec, pure, gets, ◌>>=◌}
use tileserve_go.Disk.{
  Disk, DiskError, Node, dir, file, Tree, child_path, names_in, is_dir_at, is_dir_node, is_element,
  read_dir, list_dir, syscall, take_fault,
}
use tileserve_go.Disk.Entries.{names_in_iff, is_present}
use tileserve_go.TileArchive.Names.{numeric_png}
use tileserve_go.TileArchive.Index.{
  TileCoord, trim_png, tile_of, tiles_of_names, scan_x_dir, scan_x_dirs, scan_zoom_tiles,
  scan_z_dir, scan_z_dirs, scan_tile_coords,
}

-- A disk whose calls do not fail.
abbrev pub healthy : Tree → Disk
healthy t = record { nodes = t; faults = [] }

list_dir-healthy :
    (path : Text) (n : Option Node) (t : Tree)
    → is_dir_node n ≡ true
    → list_dir path n (healthy t) ≡ (ok (names_in path t), healthy t)
unfolding list_dir syscall take_fault
list_dir-healthy path none t h = absurd (ground arith)
list_dir-healthy path (some (file c)) t h = absurd (ground arith)
list_dir-healthy path (some dir) t h = refl

pub read_dir-healthy :
    (path : Text) (t : Tree)
    → is_dir_node (lookup path t) ≡ true
    → read_dir path (healthy t) ≡ (ok (names_in path t), healthy t)
unfolding read_dir
read_dir-healthy path t h = list_dir-healthy path (lookup path t) t h

In-append_both :
    {P Q : Type 0} (c : TileCoord) (xs ys : List TileCoord)
    → In c xs ↔ P
    → In c ys ↔ Q
    → In c (xs ++ ys) ↔ (P ⊎ Q)
In-append_both c xs ys p q = iff_trans (In-append c xs ys) (either_iff p q)

dir_is_present : (n : Option Node) → is_dir_node n ≡ true → is_present n ≡ true
dir_is_present none h = absurd (ground arith)
dir_is_present (some n) h = refl

module _ (t : Tree) where
  -- The directory `path` has an entry of that name.
  abbrev pub IsEntry : Text → Text → Type 0
  IsEntry path name =
      (is_element name ≡ true) × (is_present (lookup (child_path path name) t) ≡ true)

  abbrev pub IsDirEntry : Text → Text → Type 0
  IsDirEntry path name =
      (is_element name ≡ true) × (is_dir_node (lookup (child_path path name) t) ≡ true)

  -- The tile's file in the directory of its column.
  unfoldable pub IsTileIn : Text → TileCoord → Type 0
  IsTileIn path c =
      (name : Text) × IsEntry path name
      × (numeric_png name ≡ true)
      × (atoi (trim_png name) ≡ some c.y)

  -- The tile's column in the directory of its zoom level.
  unfoldable pub IsColumnIn : Text → TileCoord → Type 0
  unfolding IsTileIn
  IsColumnIn path c =
      (name : Text) × IsDirEntry path name
      × (atoi name ≡ some c.x)
      × IsTileIn (child_path path name) c

  -- The tile's zoom level in a version's directory.
  unfoldable pub IsTile : Text → TileCoord → Type 0
  unfolding IsColumnIn
  IsTile dest c =
      (name : Text) × IsDirEntry dest name
      × (atoi name ≡ some c.z)
      × IsColumnIn (child_path dest name) c

  abbrev Scan : Type 0
  Scan = Exec Disk DiskError (List TileCoord)

  -- The scan returns, leaves the disk as it is, and finds what `R` describes.
  pub record Found (m : Scan) (R : TileCoord → Type 0) : Type 0 where
    pub tiles : List TileCoord
    pub returns : m (healthy t) ≡ (ok tiles, healthy t)
    pub member : (c : TileCoord) → In c tiles ↔ R c

  Found-nothing : {R : TileCoord → Type 0} → ((c : TileCoord) → ¬ R c) → Found (pure []) R
  Found-nothing f = record {
    tiles = [];
    returns = refl;
    member = λ c. (λ i. absurd i, λ r. absurd (f c r));
  }

  Found-if :
      (b : Bool) (m : Scan) {R : TileCoord → Type 0}
      → (b ≡ true → Found m R)
      → Found (if b then m else pure []) (λ c. (b ≡ true) × R c)
  Found-if true m f =
      let found = f refl in
      record {
        tiles = found.tiles;
        returns = found.returns;
        member = λ c. (λ i. (refl, (found.member c).0 i), λ r. (found.member c).1 r.1);
      }
  Found-if false m f = Found-nothing (λ c r. ground arith)

  Found-append :
      (m n : Scan) {R Q : TileCoord → Type 0}
      → Found m R
      → Found n Q
      → Found (m >>= λ a. n >>= λ b. pure (a ++ b)) (λ c. R c ⊎ Q c)
  Found-append m n f g = record {
    tiles = f.tiles ++ g.tiles;
    returns = rw (f.returns, g.returns) refl;
    member = λ c. In-append_both c f.tiles g.tiles (f.member c) (g.member c);
  }

  Found-iff :
      {m : Scan} {R Q : TileCoord → Type 0} → Found m R → ((c : TileCoord) → R c ↔ Q c) → Found m Q
  Found-iff f h = record {
    tiles = f.tiles;
    returns = f.returns;
    member = λ c. iff_trans (f.member c) (h c);
  }

  tile_of-In :
      (b : Bool) (o : Option ℤ) (zoom column : ℤ) (c : TileCoord)
      → In c (tile_of b zoom column o)
        ↔ (((b ≡ true) × (o ≡ some c.y)) × ((c.x ≡ column) × (c.z ≡ zoom)))
  tile_of-In true (some y) zoom column c = ground arith
  tile_of-In true none zoom column c = ground arith
  tile_of-In false o zoom column c = ground arith

  abbrev IsRow : ℤ → Text → Type 0
  IsRow row name = (numeric_png name ≡ true) × (atoi (trim_png name) ≡ some row)

  tiles_of_names-In :
      (zoom column : ℤ) (names : List Text) (c : TileCoord)
      → In c (tiles_of_names zoom column names)
        ↔ (Some (IsRow c.y) names × ((c.x ≡ column) × (c.z ≡ zoom)))
  unfolding tiles_of_names
  tiles_of_names-In zoom column [] c = ground arith
  tiles_of_names-In zoom column (name ∷ names) c =
      iff_trans
        (iff_trans
          (In-append_both c (tile_of (numeric_png name) zoom column (atoi (trim_png name)))
            (tiles_of_names zoom column names)
            (tile_of-In (numeric_png name) (atoi (trim_png name)) zoom column c)
            (tiles_of_names-In zoom column names c))
          (and_either_iff {A = IsRow c.y name} {B = Some (IsRow c.y) names}
            {K = (c.x ≡ column) × (c.z ≡ zoom)}))
        (and_iff (Some-cons (IsRow c.y) name names))

  -- What a loop finds that goes into the directories among `names` only.
  abbrev OfDirs : Text → (Text → TileCoord → Type 0) → TileCoord → Text → Type 0
  OfDirs path R c name = (is_dir_node (lookup (child_path path name) t) ≡ true) × R name c

  column_found :
      (column zoom : ℤ) (c : TileCoord) (K : Type 0)
      → (K × ((c.x ≡ column) × (c.z ≡ zoom))) ↔ ((some column ≡ some c.x) × (c.z ≡ zoom) × K)
  column_found column zoom c K = ground arith

  -- One round of a loop over the entries of a directory.
  Found-round :
      (path : Text) (m rest : Scan) {R Q : TileCoord → Type 0}
      → (is_dir_node (lookup path t) ≡ true → Found m R)
      → Found rest Q
      → Found
          (gets (is_dir_at path) >>= λ is_dir.
            (if is_dir then m else pure []) >>= λ tiles. rest >>= λ more. pure (tiles ++ more))
          (λ c. ((is_dir_node (lookup path t) ≡ true) × R c) ⊎ Q c)
  Found-round path m rest f g =
      let both = Found-append _ rest (Found-if (is_dir_node (lookup path t)) m f) g in
      record { tiles = both.tiles; returns = both.returns; member = both.member }

  Found-scan_x_dir :
      (path : Text) (zoom : ℤ) (column : Option ℤ)
      → is_dir_node (lookup path t) ≡ true
      → Found
          (scan_x_dir path zoom column)
          (λ c. (column ≡ some c.x) × (c.z ≡ zoom) × Some (IsRow c.y) (names_in path t))
  unfolding scan_x_dir
  Found-scan_x_dir path zoom none h = Found-nothing (λ c r. ground arith)
  Found-scan_x_dir path zoom (some column) h = record {
    tiles = tiles_of_names zoom column (names_in path t);
    returns = rw (read_dir-healthy path t h) refl;
    member = λ c.
        iff_trans (tiles_of_names-In zoom column (names_in path t) c)
          (column_found column zoom c _);
  }

  abbrev IsColumn : Text → ℤ → Text → TileCoord → Type 0
  IsColumn path zoom name c =
      (atoi name ≡ some c.x) × (c.z ≡ zoom) × Some (IsRow c.y) (names_in (child_path path name) t)

  Found-scan_x_dirs :
      (path : Text) (zoom : ℤ) (names : List Text)
      → Found (scan_x_dirs path zoom names) (λ c. Some (OfDirs path (IsColumn path zoom) c) names)
  unfolding scan_x_dirs
  Found-scan_x_dirs path zoom [] = Found-nothing (λ c r. ground arith)
  Found-scan_x_dirs path zoom (name ∷ names) =
      Found-iff
        (Found-round (child_path path name) (scan_x_dir (child_path path name) zoom (atoi name))
          (scan_x_dirs path zoom names) (Found-scan_x_dir (child_path path name) zoom (atoi name))
          (Found-scan_x_dirs path zoom names))
        (λ c. Some-cons (OfDirs path (IsColumn path zoom) c) name names)

  Found-scan_zoom_tiles :
      (path : Text) (zoom : ℤ)
      → is_dir_node (lookup path t) ≡ true
      → Found
          (scan_zoom_tiles path zoom)
          (λ c. Some (OfDirs path (IsColumn path zoom) c) (names_in path t))
  unfolding scan_zoom_tiles
  Found-scan_zoom_tiles path zoom h =
      let found = Found-scan_x_dirs path zoom (names_in path t) in
      record {
        tiles = found.tiles;
        returns = rw (read_dir-healthy path t h) found.returns;
        member = found.member;
      }

  abbrev IsLevel : Text → Text → TileCoord → Type 0
  IsLevel path name c =
      (atoi name ≡ some c.z)
      × Some (OfDirs (child_path path name) (IsColumn (child_path path name) c.z) c)
          (names_in (child_path path name) t)

  Found-scan_z_dir :
      (path : Text) (zoom : Option ℤ)
      → is_dir_node (lookup path t) ≡ true
      → Found
          (scan_z_dir path zoom)
          (λ c. (zoom ≡ some c.z) × Some (OfDirs path (IsColumn path c.z) c) (names_in path t))
  unfolding scan_z_dir
  Found-scan_z_dir path none h = Found-nothing (λ c r. ground arith)
  Found-scan_z_dir path (some zoom) h = Found-iff (Found-scan_zoom_tiles path zoom h) (λ c. (
    λ s.
        let (x, i, r) = s in
        let (d, col) = r in let (a, e, k) = col in (ap some (sym e), (x, i, (d, (a, refl, k)))),
    λ p.
        let (z, s) = p in
        let (x, i, r) = s in
        let (d, col) = r in let (a, e, k) = col in (x, i, (d, (a, ground arith, k))),
  ))

  Found-scan_z_dirs :
      (path : Text) (names : List Text)
      → Found (scan_z_dirs path names) (λ c. Some (OfDirs path (IsLevel path) c) names)
  unfolding scan_z_dirs
  Found-scan_z_dirs path [] = Found-nothing (λ c r. ground arith)
  Found-scan_z_dirs path (name ∷ names) =
      Found-iff
        (Found-round (child_path path name) (scan_z_dir (child_path path name) (atoi name))
          (scan_z_dirs path names) (Found-scan_z_dir (child_path path name) (atoi name))
          (Found-scan_z_dirs path names))
        (λ c. Some-cons (OfDirs path (IsLevel path) c) name names)

  pub entry_of : (path name : Text) → In name (names_in path t) → IsEntry path name
  entry_of path name i = (names_in_iff path name t).0 i

  pub dir_listed : (path name : Text) → IsDirEntry path name → In name (names_in path t)
  dir_listed path name d =
      (names_in_iff path name t).1 (d.0, dir_is_present (lookup (child_path path name) t) d.1)

  IsRow-iff : (path : Text) (c : TileCoord) → Some (IsRow c.y) (names_in path t) ↔ IsTileIn path c
  unfolding IsTileIn
  IsRow-iff path c = (
    λ s. let (n, i, r) = s in let (p, q) = r in (n, entry_of path n i, p, q),
    λ s. let (n, e, p, q) = s in (n, (names_in_iff path n t).1 e, (p, q)),
  )

  IsColumn-iff :
      (path : Text) (c : TileCoord)
      → Some (OfDirs path (IsColumn path c.z) c) (names_in path t) ↔ IsColumnIn path c
  unfolding IsColumnIn
  IsColumn-iff path c = (
    λ s.
        let (n, i, r) = s in
        let (d, col) = r in
        let (a, e, k) = col in
        (n, ((entry_of path n i).0, d), a, (IsRow-iff (child_path path n) c).0 k),
    λ s.
        let (n, e, a, k) = s in
        (n, dir_listed path n e, (e.1, (a, refl, (IsRow-iff (child_path path n) c).1 k))),
  )

  IsTile-iff :
      (dest : Text) (c : TileCoord)
      → Some (OfDirs dest (IsLevel dest) c) (names_in dest t) ↔ IsTile dest c
  unfolding IsTile
  IsTile-iff dest c = (
    λ s.
        let (n, i, r) = s in
        let (d, col) = r in
        let (a, k) = col in
        (n, ((entry_of dest n i).0, d), a, (IsColumn-iff (child_path dest n) c).0 k),
    λ s.
        let (n, e, a, k) = s in
        (n, dir_listed dest n e, (e.1, (a, (IsColumn-iff (child_path dest n) c).1 k))),
  )

  -- scanTileCoords returns the tiles of the pyramid and no others.
  pub Found-scan_tile_coords :
      (dest : Text)
      → is_dir_node (lookup dest t) ≡ true
      → Found (scan_tile_coords dest) (IsTile dest)
  unfolding scan_tile_coords
  Found-scan_tile_coords dest h =
      let found = Found-scan_z_dirs dest (names_in dest t) in
      record {
        tiles = found.tiles;
        returns = rw (read_dir-healthy dest t h) found.returns;
        member = λ c. iff_trans (found.member c) (IsTile-iff dest c);
      }
