-- ===== src/TileArchive/Extract/Safety.antt =====
-- Zip-slip safety of extractZip and extractTar.
use tileserve_go.Prelude.{
  ◌≡◌, refl, inl, Bool, Option, none, some, List, [], ◌∷◌, Text, codes, nat_eq, text_eq, All,
}
use tileserve_go.Prelude.Strings.{has_suffix}
use tileserve_go.Disk.{Disk}
use tileserve_go.TileArchive.Extract.{
  ZipFile, TarStream, extract_zip, extract_tar, end, corrupt, entry,
}
use tileserve_go.TileArchive.Extract.Confined.{Confined, IsReady}
use tileserve_go.TileArchive.Extract.Entries.{
  AllHeaders, extract_zip_loop-Confined, extract_tar_loop-Confined,
}

-- No relation between the name's kind and the node's.
abbrev pub AnyKind : Bool → Bool → Type 0
AnyKind a b = Unit

-- A directory's name stands for a directory, a file's for a file.
abbrev pub SameKind : Bool → Bool → Type 0
SameKind a b = a ≡ b

All-kinds : (files : List ZipFile) → All (λ f. Unit {0}) files
All-kinds [] = tt
All-kinds (f ∷ files) = (tt, All-kinds files)

all_headers : (stream : TarStream) → AllHeaders (λ f. Unit {0}) stream
all_headers end = tt
all_headers corrupt = tt
all_headers (entry hdr rest) = (tt, all_headers rest)

Confined-refl :
    (Fits : Bool → Bool → Type 0) (dest : Text) (d : Disk) → Confined Fits dest d.nodes d
Confined-refl Fits dest d = record { at_path = λ p. inl refl }

-- Extracting any zip archive, also one that fails half way, leaves every path as it was, except
-- for paths that are the destination, a slash and either numbers joined by slashes, or such
-- numbers and <number>.png at the end. The destination is cleaned, neither "." nor "/", and it
-- and its ancestors are directories.
pub extract_zip-Confined :
    (archive : Option (List ZipFile)) (dest : Text) (d : Disk)
    → IsReady dest d.nodes
    → Confined AnyKind dest d.nodes (extract_zip archive dest d).1
unfolding extract_zip
extract_zip-Confined none dest d ready = Confined-refl AnyKind dest d
extract_zip-Confined (some files) dest d ready = rw ready.0.0 (
    (extract_zip_loop-Confined AnyKind tt dest d.nodes ready files (All-kinds files)).at d
      (Confined-refl AnyKind dest d))

-- The same of any tar archive, compressed or not.
pub extract_tar-Confined :
    (archive : Option TarStream) (dest : Text) (d : Disk)
    → IsReady dest d.nodes
    → Confined AnyKind dest d.nodes (extract_tar archive dest d).1
unfolding extract_tar
extract_tar-Confined none dest d ready = Confined-refl AnyKind dest d
extract_tar-Confined (some stream) dest d ready = rw ready.0.0 (
    (extract_tar_loop-Confined AnyKind tt dest d.nodes ready stream (all_headers stream)).at d
      (Confined-refl AnyKind dest d))

-- Where every entry of a zip archive is a directory exactly if its name ends in a slash, the new
-- directories are named by numbers alone and the new files end in <number>.png.
pub extract_zip-SameKind :
    (files : List ZipFile) (dest : Text) (d : Disk)
    → IsReady dest d.nodes
    → All (λ f. has_suffix f.name (codes "/") ≡ f.is_dir) files
    → Confined SameKind dest d.nodes (extract_zip (some files) dest d).1
unfolding extract_zip
extract_zip-SameKind files dest d ready same = rw ready.0.0 (
    (extract_zip_loop-Confined SameKind refl dest d.nodes ready files same).at d
      (Confined-refl SameKind dest d))
