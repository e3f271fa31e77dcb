-- ===== src/TileArchive/Tests.antt =====
-- internal/tilearchive: runs on small archives, and each theorem applied to one.
use tileserve_go.Prelude.{
  ◌≡◌, refl, inr, ◌↔◌, true, false, none, some, List, [], ◌∷◌, ◌++◌, Text, codes, nat_eq, text_eq,
  All, arith,
}
use tileserve_go.Prelude.Strings.{has_suffix, has_prefix, split, trim, join}
use tileserve_go.Prelude.Assoc.{lookup}
use tileserve_go.Prelude.FilePath.{IsDirectory, clean}
use tileserve_go.Disk.{Disk, dir, file, Reader, ancestors_from, Tree, is_dir_node, child_path}
use tileserve_go.TileArchive.Names.{validate_extracted_entry_name}
use tileserve_go.TileArchive.Names.Grammar.{IsEntryName, validate-IsEntryName}
use tileserve_go.TileArchive.Target.{resolve_extract_target, resolve_iff}
use tileserve_go.TileArchive.Extract.{
  ZipFile, TarStream, end, entry, type_reg, extract_zip, extract_tar,
}
use tileserve_go.TileArchive.Extract.Confined.{Confined, IsReady}
use tileserve_go.TileArchive.Extract.Safety.{
  AnyKind, SameKind, extract_zip-Confined, extract_tar-Confined, extract_zip-SameKind,
}
use tileserve_go.TileArchive.Archive.{Decoders, sniff_archive_format, extract_archive, zip_magic}
use tileserve_go.TileArchive.Archive.Sniffing.{Describes, sniff-Describes}
use tileserve_go.TileArchive.Archive.Cleanup.{Extracted, extract_archive-Extracted}
use tileserve_go.TileArchive.Index.{write_tile_index}
use tileserve_go.TileArchive.Index.Scan.{healthy}
use tileserve_go.TileArchive.Index.Written.{IsIndexed, write_tile_index-IsIndexed}

abbrev dest : Text
dest = codes "d"

abbrev before : Tree
before = (codes "d", dir) ∷ (codes "d/secret", file (codes "s")) ∷ []

abbrev disk : Disk
disk = record { nodes = before; faults = [] }

abbrev picture : Reader
picture = record { content = codes "png"; intact = true }

abbrev files : List ZipFile
files =
    record { name = codes "3/"; is_symlink = false; is_dir = true; body = none }
    ∷ record { name = codes "3/1/2.png"; is_symlink = false; is_dir = false; body = some picture }
    ∷ []

abbrev slipping : List ZipFile
slipping =
    record { name = codes "../secret"; is_symlink = false; is_dir = false; body = some picture }
    ∷ record { name = codes "3/1/2.png"; is_symlink = false; is_dir = false; body = some picture }
    ∷ record { name = codes "secret"; is_symlink = false; is_dir = false; body = some picture }
    ∷ []

dest-IsDirectory : IsDirectory dest
unfolding clean has_prefix split join
dest-IsDirectory = (refl, (λ h. ground arith), (λ h. ground arith))

dest-IsReady : IsReady dest before
unfolding ancestors_from lookup
dest-IsReady = (dest-IsDirectory, ((inr refl), tt))

extract_zip-Confined_example :
    Confined AnyKind dest before (extract_zip (some slipping) dest disk).1
extract_zip-Confined_example = extract_zip-Confined (some slipping) dest disk dest-IsReady

files-SameKind : All (λ f. has_suffix f.name (codes "/") ≡ f.is_dir) files
unfolding has_suffix has_prefix
files-SameKind = (refl, (refl, tt))

extract_zip-SameKind_example : Confined SameKind dest before (extract_zip (some files) dest disk).1
extract_zip-SameKind_example = extract_zip-SameKind files dest disk dest-IsReady files-SameKind

abbrev stream : TarStream
stream =
    entry (record { name = codes "../secret"; typeflag = type_reg; body = picture })
      (entry (record { name = codes "3/1/2.png"; typeflag = type_reg; body = picture }) end)

extract_tar-Confined_example : Confined AnyKind dest before (extract_tar (some stream) dest disk).1
extract_tar-Confined_example = extract_tar-Confined (some stream) dest disk dest-IsReady

validate-IsEntryName_example :
    (validate_extracted_entry_name (codes "3/1/2.png") ≡ none) ↔ IsEntryName (codes "3/1/2.png")
validate-IsEntryName_example = validate-IsEntryName (codes "3/1/2.png")

resolve_iff_example :
    (resolve_extract_target dest (codes "3/1/2.png") ≡ some (codes "d/3/1/2.png")) ↔ (
      IsEntryName (codes "3/1/2.png")
      × (codes "d/3/1/2.png" ≡ dest ++ b'/' ∷ trim b'/' (codes "3/1/2.png")))
resolve_iff_example = resolve_iff dest (codes "3/1/2.png") (codes "d/3/1/2.png") dest-IsDirectory

sniff-Describes_example : Describes (sniff_archive_format zip_magic) zip_magic
sniff-Describes_example = sniff-Describes zip_magic

abbrev decoders : Decoders
decoders = record { open_zip = λ bytes. some slipping; open_tar = λ gzipped bytes. none }

extract_archive-Extracted_example :
    Extracted decoders
      (some zip_magic)
      dest
      (codes "7")
      disk
      (extract_archive decoders (some zip_magic) dest (codes "7") disk)
extract_archive-Extracted_example =
    extract_archive-Extracted decoders (some zip_magic) dest (codes "7") disk refl

abbrev pyramid : Tree
pyramid =
    (codes "d", dir)
    ∷ (codes "d/3", dir)
    ∷ (codes "d/3/1", dir)
    ∷ (codes "d/3/1/2.png", file (codes "png"))
    ∷ []

pyramid-has_dir : is_dir_node (lookup dest pyramid) ≡ true
unfolding lookup
pyramid-has_dir = refl

pyramid-has_no_index : is_dir_node (lookup (child_path dest (codes "index.json")) pyramid) ≡ false
unfolding lookup
pyramid-has_no_index = refl

write_tile_index-IsIndexed_example :
    IsIndexed dest pyramid (write_tile_index dest (healthy pyramid))
write_tile_index-IsIndexed_example =
    write_tile_index-IsIndexed dest pyramid pyramid-has_dir dest-IsDirectory pyramid-has_no_index
