-- ===== src/TileArchive/Extract/Generic.antt =====
-- What every file system call and every written node keeps, an extraction keeps.
use tileserve_go.Prelude.{
  not, Option, none, some, List, [], ◌∷◌, Text, codes, text_eq, if◌then◌else◌,
}
use tileserve_go.Prelude.Strings.{contains}
use tileserve_go.Prelude.Assoc.{lookup}
use tileserve_go.Prelude.FilePath.{dir_of}
use tileserve_go.Prelude.Monad.{pure, raise}
use tileserve_go.Prelude.Monad.Keeps.{
  Keeps, Keeps-bind, Keeps-if, Keeps-pure, Keeps-raise, keeps_rules,
}
use tileserve_go.Disk.{
  Node, dir, file, Disk, Reader, syscall, put_node, make_dir, mkdir_unless, make_dirs,
  ancestors_from, mkdir_all, open_node, open_truncated, copy_into, io_failed,
}
use tileserve_go.TileArchive.Extract.{
  write_extracted_file, extract_zip_file, ZipFile, place_zip_entry, extract_zip_entry,
  extract_zip_loop, extract_zip, TarHeader, TarStream, end, corrupt, entry, place_tar_entry,
  extract_tar_entry, extract_tar_loop, extract_tar,
}

module _ (P : Disk → Type 0) (call : Keeps P syscall)
    (put : (path : Text) (n : Node) → Keeps P (put_node path n)) where
  mkdir_unless-Keeps : (path : Text) (o : Option Node) → Keeps P (mkdir_unless path o)
  unfolding mkdir_unless
  mkdir_unless-Keeps path none = search (keeps_rules, call, put)
  mkdir_unless-Keeps path (some dir) = Keeps-pure tt
  mkdir_unless-Keeps path (some (file c)) = Keeps-raise _

  make_dirs-Keeps : (paths : List Text) → Keeps P (make_dirs paths)
  unfolding make_dirs
  make_dirs-Keeps [] = Keeps-pure tt
  make_dirs-Keeps ([] ∷ ps) = make_dirs-Keeps ps
  make_dirs-Keeps ((c ∷ p) ∷ ps) =
      Keeps-bind (make_dir (c ∷ p)) (λ _. make_dirs ps)
        (record { at = λ d h. (mkdir_unless-Keeps (c ∷ p) (lookup (c ∷ p) d.nodes)).at d h })
        (λ _. make_dirs-Keeps ps)

  mkdir_all-Keeps : (path : Text) → Keeps P (mkdir_all path)
  unfolding mkdir_all
  mkdir_all-Keeps path = make_dirs-Keeps (ancestors_from [] path)

  open_node-Keeps : (path : Text) (o n : Option Node) → Keeps P (open_node path o n)
  unfolding open_node
  open_node-Keeps path (some dir) (some dir) = Keeps-raise _
  open_node-Keeps path (some dir) (some (file c)) = search (keeps_rules, call, put)
  open_node-Keeps path (some dir) none = search (keeps_rules, call, put)
  open_node-Keeps path (some (file c)) n = Keeps-raise _
  open_node-Keeps path none n = Keeps-raise _

  open_truncated-Keeps : (path : Text) → Keeps P (open_truncated path)
  unfolding open_truncated
  open_truncated-Keeps path = record {
    at = λ d h. (open_node-Keeps path (lookup (dir_of path) d.nodes) (lookup path d.nodes)).at d h;
  }

  copy_into-Keeps : (path : Text) (r : Reader) → Keeps P (copy_into path r)
  unfolding copy_into
  copy_into-Keeps path r = Keeps-bind syscall _ call (λ _.
      Keeps-bind (put_node path (file r.content)) _ (put path _) (λ _.
        Keeps-if r.intact (pure tt) (raise io_failed) (λ _. Keeps-pure tt) (λ _. Keeps-raise _)))

  write-Keeps : (r : Reader) (path : Text) → Keeps P (write_extracted_file r path)
  unfolding write_extracted_file
  write-Keeps r path =
      Keeps-bind (open_truncated path) _ (open_truncated-Keeps path)
        (λ _. Keeps-bind (copy_into path r) _ (copy_into-Keeps path r) (λ _. call))

  zip_file-Keeps : (o : Option Reader) (path : Text) → Keeps P (extract_zip_file o path)
  unfolding extract_zip_file
  zip_file-Keeps none path = Keeps-raise _
  zip_file-Keeps (some r) path = write-Keeps r path

  place_zip-Keeps : (f : ZipFile) (o : Option Text) → Keeps P (place_zip_entry f o)
  unfolding place_zip_entry
  place_zip-Keeps f none = Keeps-pure tt
  place_zip-Keeps f (some t) = search (keeps_rules, mkdir_all-Keeps, zip_file-Keeps)

  zip_entry-Keeps : (dest : Text) (f : ZipFile) → Keeps P (extract_zip_entry dest f)
  unfolding extract_zip_entry
  zip_entry-Keeps dest f = search (keeps_rules, place_zip-Keeps)

  zip_loop-Keeps : (dest : Text) (files : List ZipFile) → Keeps P (extract_zip_loop dest files)
  unfolding extract_zip_loop
  zip_loop-Keeps dest [] = Keeps-pure tt
  zip_loop-Keeps dest (f ∷ files) =
      Keeps-bind (extract_zip_entry dest f) (λ _. extract_zip_loop dest files)
        (zip_entry-Keeps dest f) (λ _. zip_loop-Keeps dest files)

  pub extract_zip-Keeps :
      (archive : Option (List ZipFile)) (dest : Text) → Keeps P (extract_zip archive dest)
  unfolding extract_zip
  extract_zip-Keeps none dest = Keeps-raise _
  extract_zip-Keeps (some files) dest = zip_loop-Keeps _ files

  place_tar-Keeps : (hdr : TarHeader) (o : Option Text) → Keeps P (place_tar_entry hdr o)
  unfolding place_tar_entry
  place_tar-Keeps hdr none = Keeps-pure tt
  place_tar-Keeps hdr (some t) = search (keeps_rules, mkdir_all-Keeps, write-Keeps)

  tar_entry-Keeps : (dest : Text) (hdr : TarHeader) → Keeps P (extract_tar_entry dest hdr)
  unfolding extract_tar_entry
  tar_entry-Keeps dest hdr = search (keeps_rules, place_tar-Keeps)

  tar_loop-Keeps : (dest : Text) (stream : TarStream) → Keeps P (extract_tar_loop dest stream)
  unfolding extract_tar_loop
  tar_loop-Keeps dest end = Keeps-pure tt
  tar_loop-Keeps dest corrupt = Keeps-raise _
  tar_loop-Keeps dest (entry hdr rest) =
      Keeps-bind
        (if not (contains hdr.name (codes "..")) then extract_tar_entry dest hdr else pure tt)
        (λ _. extract_tar_loop dest rest) (search (keeps_rules, tar_entry-Keeps))
        (λ _. tar_loop-Keeps dest rest)

  pub extract_tar-Keeps :
      (archive : Option TarStream) (dest : Text) → Keeps P (extract_tar archive dest)
  unfolding extract_tar
  extract_tar-Keeps none dest = Keeps-raise _
  extract_tar-Keeps (some stream) dest = tar_loop-Keeps _ stream

  pub make_all-Keeps : (path : Text) → Keeps P (mkdir_all path)
  make_all-Keeps path = mkdir_all-Keeps path
