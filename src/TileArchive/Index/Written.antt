-- ===== src/TileArchive/Index/Written.antt =====
-- internal/tilearchive/index.go: the index.json that WriteTileIndex leaves.
use tileserve_go.Prelude.{
  Bool, true, false, Option, none, some, List, [], ◌∷◌, Text, codes, ◌==◌, nat_eq, text_eq,
  if◌then◌else◌, In, ◌≡◌, refl, ◌↔◌, ◌⊎◌, inl, inr, arith, iff_trans, Bool-cases,
}
use tileserve_go.Prelude.Assoc.{lookup, insert, lookup-insert, lookup-insert_self}
use tileserve_go.Prelude.Decimal.{less, less_asym, less_antisym}
use tileserve_go.Prelude.Sorting.{
  sort_slice, IsSorted, none_left, one, more, sort_slice-IsSorted, sort_slice-In,
}
use tileserve_go.Prelude.Monad.{Result, ok}
use tileserve_go.Prelude.FilePath.{dir_of, IsDirectory, dir_of_child}
use tileserve_go.Disk.{
  Disk, DiskError, Node, dir, file, Tree, child_path, is_dir_node, write_file, open_truncated,
  open_node, syscall, take_fault, put_node,
}
use tileserve_go.TileArchive.Index.{TileCoord, tile_less, marshal_index, write_tile_index}
use tileserve_go.TileArchive.Index.Scan.{healthy, IsTile, Found-scan_tile_coords}

chosen : Bool → Bool → Bool → Bool
chosen different first second = if different then first else second

tile_less_asym : (a b : TileCoord) → tile_less a b ≡ true → tile_less b a ≡ false
unfolding tile_less
tile_less_asym a b h = ground (arith, less_asym a.z b.z, less_asym a.x b.x, less_asym a.y b.y)

open_node-healthy :
    (path : Text) (p n : Option Node) (t : Tree)
    → is_dir_node p ≡ true
    → is_dir_node n ≡ false
    → open_node path p n (healthy t) ≡ (ok tt, healthy (insert path (file []) t))
unfolding open_node syscall take_fault put_node
open_node-healthy path none n t p h = absurd (ground arith)
open_node-healthy path (some (file c)) n t p h = absurd (ground arith)
open_node-healthy path (some dir) none t p h = refl
open_node-healthy path (some dir) (some (file c)) t p h = refl
open_node-healthy path (some dir) (some dir) t p h = absurd (ground arith)

write_file-healthy :
    (path content : Text) (t : Tree)
    → is_dir_node (lookup (dir_of path) t) ≡ true
    → is_dir_node (lookup path t) ≡ false
    → write_file path content (healthy t)
      ≡ (ok tt, healthy (insert path (file content) (insert path (file []) t)))
unfolding write_file open_truncated syscall take_fault put_node
write_file-healthy path content t p n =
    rw (open_node-healthy path (lookup (dir_of path) t) (lookup path t) t p n) refl

abbrev index_path : Text → Text
index_path dest = child_path dest (codes "index.json")

-- A tile stands before another: its level is lower; or the same, and its column is lower; or both
-- are the same, and its row is not higher.
abbrev pub StandsBefore : TileCoord → TileCoord → Type 0
StandsBefore a b =
    (less a.z b.z ≡ true)
    ⊎ ((a.z ≡ b.z) × (less a.x b.x ≡ true))
    ⊎ ((a.z ≡ b.z) × (a.x ≡ b.x) × (less b.y a.y ≡ false))

pub data AreInOrder : List TileCoord → Type 0 where
  nothing : AreInOrder []
  single : (a : TileCoord) → AreInOrder (a ∷ [])
  followed :
      {a b : TileCoord} {l : List TileCoord}
      → StandsBefore a b
      → AreInOrder (b ∷ l)
      → AreInOrder (a ∷ b ∷ l)

not_later : (a b : TileCoord) → tile_less b a ≡ false → StandsBefore a b
unfolding tile_less
not_later a b h = elim (Bool-cases (less a.z b.z)) [
  | inl l ↦ inl l
  | inr g ↦ elim (Bool-cases (less b.z a.z)) [
    | inl k ↦ absurd (ground arith)
    | inr k ↦
        let e = less_antisym a.z b.z g k in
        elim (Bool-cases (less a.x b.x)) [
          | inl l ↦ inr (inl (e, l))
          | inr g2 ↦ elim (Bool-cases (less b.x a.x)) [
            | inl k2 ↦ absurd (ground arith)
            | inr k2 ↦ inr (inr (e, less_antisym a.x b.x g2 k2, ground arith))
          ]
        ]
  ]
]

IsSorted-AreInOrder : {l : List TileCoord} → IsSorted tile_less l → AreInOrder l
IsSorted-AreInOrder none_left = nothing
IsSorted-AreInOrder (one a) = single a
IsSorted-AreInOrder (more {x} {y} h s) = followed (not_later x y h) (IsSorted-AreInOrder s)

-- What WriteTileIndex leaves: nothing changed but index.json, which lists the tiles of the
-- pyramid in order.
pub record IsIndexed (dest : Text) (before : Tree) (after : Result DiskError (Unit {0}) × Disk)
    : Type 0 where
  pub tiles : List TileCoord
  pub tree : Tree
  pub returns : after ≡ (ok tt, healthy tree)
  pub index : lookup (index_path dest) tree ≡ some (file (marshal_index tiles))
  pub others : (p : Text) → (index_path dest == p) ≡ false → lookup p tree ≡ lookup p before
  pub sorted : AreInOrder tiles
  pub complete : (c : TileCoord) → In c tiles ↔ IsTile before dest c

written_others :
    (q p : Text) (n m : Node) (t : Tree)
    → (q == p) ≡ false
    → lookup p (insert q n (insert q m t)) ≡ lookup p t
written_others q p n m t h =
    rw (lookup-insert q p n (insert q m t), h, lookup-insert q p m t, h) refl

-- On a disk without faults, for a cleaned directory that is there and no directory at index.json,
-- WriteTileIndex succeeds, changes index.json only, and writes there the JSON of a list that is
-- ordered by z, then x, then y and has exactly the tiles z/x/y.png below the directory.
pub write_tile_index-IsIndexed :
    (dest : Text) (t : Tree)
    → is_dir_node (lookup dest t) ≡ true
    → IsDirectory dest
    → is_dir_node (lookup (index_path dest) t) ≡ false
    → IsIndexed dest t (write_tile_index dest (healthy t))
unfolding write_tile_index
write_tile_index-IsIndexed dest t d is_dest free =
    let found = Found-scan_tile_coords t dest d in
    let sorted_tiles = sort_slice tile_less found.tiles in
    let content = marshal_index sorted_tiles in
    record {
      tiles = sorted_tiles;
      tree = insert (index_path dest) (file content) (insert (index_path dest) (file []) t);
      returns = rw (found.returns) (
          write_file-healthy (index_path dest) content t
            (rw (dir_of_child dest (codes "index.json") is_dest (ground arith)) d) free);
      index =
          lookup-insert_self (index_path dest) (file content)
            (insert (index_path dest) (file []) t);
      others = λ p h. written_others (index_path dest) p (file content) (file []) t h;
      sorted = IsSorted-AreInOrder (sort_slice-IsSorted tile_less tile_less_asym found.tiles);
      complete = λ c. iff_trans (sort_slice-In tile_less c found.tiles) (found.member c);
    }
