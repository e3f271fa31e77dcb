-- ===== src/TileArchive/Extract.antt =====
-- internal/tilearchive/extract.go: extracting the entries of a zip or tar archive.
pub mod Ancestors
pub mod Generic
pub mod Confined
pub mod Entries
pub mod Safety
use tileserve_go.Prelude.{
  ℕ, Bool, true, false, not, ◌&&◌, ◌||◌, Option, none, some, List, [], ◌∷◌, ◌++◌, Text, codes, ◌==◌,
  nat_eq, text_eq, if◌then◌else◌,
}
use tileserve_go.Prelude.Strings.{has_suffix, contains}
use tileserve_go.Prelude.FilePath.{dir_of, clean}
use tileserve_go.Prelude.Monad.{Result, ok, err, Exec, pure, raise, gets, modify, ◌>>=◌, ◌>>◌}
use tileserve_go.Disk.{
  Disk, DiskError, Reader, io_failed, syscall, mkdir_all, open_truncated, copy_into,
}
use tileserve_go.TileArchive.Target.{resolve_extract_target}

-- writeExtractedFile: the file is overwritten if it exists.
unfoldable pub write_extracted_file : Reader → Text → Exec Disk DiskError (Unit {0})
unfolding open_truncated copy_into syscall
write_extracted_file r target = do open_truncated target; copy_into target r; syscall

-- What archive/zip reports of an entry; `body` is none where f.Open fails.
pub record ZipFile : Type 0 where
  pub name : Text
  pub is_symlink : Bool
  pub is_dir : Bool
  pub body : Option Reader

unfoldable pub extract_zip_file : Option Reader → Text → Exec Disk DiskError (Unit {0})
unfolding write_extracted_file
extract_zip_file none target = raise io_failed
extract_zip_file (some rc) target = write_extracted_file rc target

-- The part of the loop of extractZip behind resolveExtractTarget; `none` is its `continue`.
unfoldable pub place_zip_entry : ZipFile → Option Text → Exec Disk DiskError (Unit {0})
unfolding extract_zip_file mkdir_all
place_zip_entry f none = pure tt
place_zip_entry f (some target) =
    if f.is_dir
    then mkdir_all target
    else do mkdir_all (dir_of target); extract_zip_file f.body target

-- One round of the loop of extractZip.
unfoldable pub extract_zip_entry : Text → ZipFile → Exec Disk DiskError (Unit {0})
unfolding place_zip_entry resolve_extract_target
extract_zip_entry clean_dest f =
    if f.is_symlink
    then pure tt
    else if contains f.name (codes "..")
    then pure tt
    else place_zip_entry f (resolve_extract_target clean_dest f.name)

unfoldable pub extract_zip_loop : Text → List ZipFile → Exec Disk DiskError (Unit {0})
unfolding extract_zip_entry
extract_zip_loop clean_dest [] = pure tt
extract_zip_loop clean_dest (f ∷ fs) = do
  extract_zip_entry clean_dest f
  extract_zip_loop clean_dest fs

-- extractZip, where `none` is a file that zip.OpenReader rejects
unfoldable pub extract_zip : Option (List ZipFile) → Text → Exec Disk DiskError (Unit {0})
unfolding extract_zip_loop clean
extract_zip none dest_dir = raise io_failed
extract_zip (some files) dest_dir = extract_zip_loop (clean dest_dir) files

pub data TypeFlag : Type 0 where
  type_reg type_dir type_symlink type_link type_other : TypeFlag

pub record TarHeader : Type 0 where
  pub name : Text
  pub typeflag : TypeFlag
  pub body : Reader

abbrev pub is_link : TypeFlag → Bool
is_link type_symlink = true
is_link type_link = true
is_link _ = false

abbrev pub is_type_dir : TypeFlag → Bool
is_type_dir type_dir = true
is_type_dir _ = false

abbrev pub is_type_reg : TypeFlag → Bool
is_type_reg type_reg = true
is_type_reg _ = false

-- A directory's name ends in a slash for resolveExtractTarget.
unfoldable pub entry_name : TarHeader → Text
entry_name hdr =
    if is_type_dir hdr.typeflag && not (has_suffix hdr.name (codes "/"))
    then hdr.name ++ codes "/"
    else hdr.name

unfoldable pub place_tar_entry : TarHeader → Option Text → Exec Disk DiskError (Unit {0})
unfolding write_extracted_file mkdir_all
place_tar_entry hdr none = pure tt
place_tar_entry hdr (some target) =
    if is_type_dir hdr.typeflag
    then mkdir_all target
    else if not (is_type_reg hdr.typeflag)
    then pure tt
    else do mkdir_all (dir_of target); write_extracted_file hdr.body target

-- extractTarEntry
unfoldable pub extract_tar_entry : Text → TarHeader → Exec Disk DiskError (Unit {0})
unfolding place_tar_entry resolve_extract_target entry_name
extract_tar_entry clean_dest hdr =
    if is_link hdr.typeflag
    then pure tt
    else if contains hdr.name (codes "..")
    then pure tt
    else place_tar_entry hdr (resolve_extract_target clean_dest (entry_name hdr))

-- What tr.Next returns, call by call.
pub data TarStream : Type 0 where
  end : TarStream
  corrupt : TarStream
  entry : TarHeader → TarStream → TarStream

-- The loop of extractTar.
unfoldable pub extract_tar_loop : Text → TarStream → Exec Disk DiskError (Unit {0})
unfolding extract_tar_entry
extract_tar_loop clean_dest end = pure tt
extract_tar_loop clean_dest corrupt = raise io_failed
extract_tar_loop clean_dest (entry hdr rest) = do
  if not (contains hdr.name (codes "..")) then extract_tar_entry clean_dest hdr else pure tt
  extract_tar_loop clean_dest rest

-- extractTar; `none` is a file that cannot be opened, or that gzip rejects
unfoldable pub extract_tar : Option TarStream → Text → Exec Disk DiskError (Unit {0})
unfolding extract_tar_loop clean
extract_tar none dest_dir = raise io_failed
extract_tar (some stream) dest_dir = extract_tar_loop (clean dest_dir) stream
