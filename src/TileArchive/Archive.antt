-- ===== src/TileArchive/Archive.antt =====
-- internal/tilearchive/extract.go: ExtractArchive and sniffArchiveFormat.
pub mod Sniffing
pub mod Prepared
pub mod Swept
pub mod Cleanup
use tileserve_go.Prelude.{
  ℕ, zero, suc, Bool, true, false, not, ◌&&◌, ◌||◌, Option, none, some, List, [], ◌∷◌, ◌++◌, Text,
  codes, ◌==◌, nat_eq, text_eq, if◌then◌else◌, leb, length, take, drop,
}
use tileserve_go.Prelude.Strings.{has_prefix}
use tileserve_go.Prelude.Assoc.{lookup}
use tileserve_go.Prelude.FilePath.{join_path}
use tileserve_go.Prelude.Monad.{Result, ok, err, Exec, pure, raise, gets, handle, ◌>>=◌, ◌>>◌}
use tileserve_go.Disk.{
  Disk, DiskError, Node, io_failed, mkdir_all, make_dir, remove_all, mkdir_temp,
}
use tileserve_go.TileArchive.Extract.{ZipFile, TarStream, extract_zip, extract_tar}

-- archiveFormat
pub data ArchiveFormat : Type 0 where
  archive_unknown archive_zip archive_tar_gz archive_tar : ArchiveFormat

abbrev pub zip_magic : Text
zip_magic = b'P' ∷ b'K' ∷ 3 ∷ 4 ∷ []

abbrev pub zip_empty_magic : Text
zip_empty_magic = b'P' ∷ b'K' ∷ 5 ∷ 6 ∷ []

abbrev pub gzip_magic : Text
gzip_magic = 0x1f ∷ 0x8b ∷ []

abbrev pub tar_magic : Text
tar_magic = codes "ustar"

-- The switch of sniffArchiveFormat, over header[:n].
unfoldable pub classify_header : Text → ArchiveFormat
unfolding has_prefix
classify_header header =
    if has_prefix header zip_magic || has_prefix header zip_empty_magic
    then archive_zip
    else if has_prefix header gzip_magic
    then archive_tar_gz
    else if leb 262 (length header) && drop 257 header == tar_magic
    then archive_tar
    else archive_unknown

-- sniffArchiveFormat: the first 262 bytes of the file are read, or all of a shorter one.
unfoldable pub sniff_archive_format : Text → ArchiveFormat
unfolding classify_header
sniff_archive_format bytes = classify_header (take 262 bytes)

pub data ArchiveError : Type 0 where
  inspect_failed : ArchiveError
  unsupported_format : ArchiveError
  prepare_failed : DiskError → ArchiveError
  invalid_archive : DiskError → ArchiveError

-- What archive/zip, archive/tar and compress/gzip make of a file's bytes.
pub record Decoders : Type 0 where
  pub open_zip : Text → Option (List ZipFile)
  pub open_tar : (gzipped : Bool) → Text → Option TarStream

-- The switch over the format.
unfoldable pub extract_format :
    Decoders → ArchiveFormat → Text → Text → Exec Disk DiskError (Unit {0})
unfolding extract_zip extract_tar
extract_format dec archive_zip bytes dest = extract_zip (dec.open_zip bytes) dest
extract_format dec archive_tar_gz bytes dest = extract_tar (dec.open_tar true bytes) dest
extract_format dec archive_tar bytes dest = extract_tar (dec.open_tar false bytes) dest
extract_format dec archive_unknown bytes dest = raise io_failed

-- os.MkdirAll and os.MkdirTemp; `random` is what replaces the star of the pattern ".upload-*".
unfoldable pub prepare_staging : Text → Text → Exec Disk ArchiveError Text
unfolding mkdir_all mkdir_temp
prepare_staging dest random = do
  handle (mkdir_all dest) (λ e. raise (prepare_failed e))
  handle (mkdir_temp dest (codes ".upload-" ++ random)) (λ e. raise (prepare_failed e))

-- _ = os.RemoveAll(stagingDir) and the return of the wrapped error
unfoldable pub clean_up : Text → DiskError → Exec Disk ArchiveError (Unit {0})
unfolding remove_all
clean_up staging e = do handle (remove_all staging) (λ _. pure tt); raise (invalid_archive e)

unfoldable pub fill_staging : Decoders → ArchiveFormat → Text → Text → Exec Disk ArchiveError Text
unfolding extract_format clean_up
fill_staging dec format bytes staging = do
  handle (extract_format dec format bytes staging) (clean_up staging)
  pure staging

unfoldable pub extract_sniffed :
    Decoders → ArchiveFormat → Text → Text → Text → Exec Disk ArchiveError Text
unfolding prepare_staging fill_staging
extract_sniffed dec archive_unknown bytes dest random = raise unsupported_format
extract_sniffed dec format bytes dest random = do
  staging ← prepare_staging dest random
  fill_staging dec format bytes staging

-- ExtractArchive, on the bytes of the file at tmpPath, or `none` if it cannot be read.
unfoldable pub extract_archive : Decoders → Option Text → Text → Text → Exec Disk ArchiveError Text
unfolding extract_sniffed sniff_archive_format
extract_archive dec none dest random = raise inspect_failed
extract_archive dec (some bytes) dest random =
    extract_sniffed dec (sniff_archive_format bytes) bytes dest random
