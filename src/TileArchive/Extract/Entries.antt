-- ===== src/TileArchive/Extract/Entries.antt =====
-- extractZip and extractTar: every entry of an archive, good or bad, keeps within the pyramid.
use tileserve_go.Prelude.{
  ◌≡◌, refl, subst, Bool, true, false, not, Option, none, some, List, [], ◌∷◌, ◌++◌, Text, codes,
  nat_eq, text_eq, All, if◌then◌else◌,
}
use tileserve_go.Prelude.Strings.{has_suffix, contains, trim, join}
use tileserve_go.Prelude.FilePath.{dir_of}
use tileserve_go.Prelude.Monad.{Exec, pure, raise, ◌>>◌}
use tileserve_go.Prelude.Monad.Keeps.{Keeps, Keeps-bind, Keeps-if, Keeps-pure, Keeps-raise}
use tileserve_go.TileArchive.Extract.Confined.{
  Confined, IsReady, write-Confined, mkdir_all-Confined, mkdir_all_of_dir-Confined,
}
use tileserve_go.Disk.{io_failed, Tree, Disk, DiskError, Reader, mkdir_all}
use tileserve_go.TileArchive.Names.Grammar.{IsEntryName}
use tileserve_go.TileArchive.Target.{resolve_extract_target, resolve_iff}
use tileserve_go.TileArchive.Extract.{
  write_extracted_file, extract_zip_file, ZipFile, place_zip_entry, extract_zip_entry,
  extract_zip_loop, TarHeader, TarStream, end, corrupt, entry, place_tar_entry, extract_tar_entry,
  extract_tar_loop, entry_name, is_type_dir, is_type_reg, is_link,
}

Keeps-skip :
    {P : Disk → Type 0} (b : Bool) (m : Exec Disk DiskError (Unit {0}))
    → Keeps P m
    → Keeps P (if b then pure tt else m)
Keeps-skip true m k = Keeps-pure tt
Keeps-skip false m k = k

abbrev pub AllHeaders : (TarHeader → Type 0) → TarStream → Type 0
AllHeaders P end = Unit
AllHeaders P corrupt = Unit
AllHeaders P (entry hdr rest) = P hdr × AllHeaders P rest

module _ (Fits : Bool → Bool → Type 0) (fits_dir : Fits true true) (dest : Text) (before : Tree)
    (ready : IsReady dest before) where
  -- A target as the grammar gives it.
  abbrev IsTarget : Text → Text → Type 0
  IsTarget name target = IsEntryName name × (target ≡ dest ++ b'/' ∷ trim b'/' name)

  write_below-Confined :
      (name target : Text) (r : Reader)
      → Fits (has_suffix name (codes "/")) false
      → IsTarget name target
      → Keeps
          (Confined Fits dest before)
          (mkdir_all (dir_of target) >> write_extracted_file r target)
  write_below-Confined name target r fits ((segs, n, a, e), te) =
      rw (te, e)
        (Keeps-bind (mkdir_all (dir_of (dest ++ b'/' ∷ join b'/' segs)))
          (λ _. write_extracted_file r (dest ++ b'/' ∷ join b'/' segs))
          (mkdir_all_of_dir-Confined Fits fits_dir dest before ready _ segs n a)
          (λ _. write-Confined Fits dest before r _ (λ c. (_, segs, n, a, fits, refl))))

  make_below-Confined :
      (name target : Text)
      → Fits (has_suffix name (codes "/")) true
      → IsTarget name target
      → Keeps (Confined Fits dest before) (mkdir_all target)
  make_below-Confined name target fits ((segs, n, a, e), te) =
      rw (te, e) (mkdir_all-Confined Fits fits_dir dest before ready _ segs n a fits)

  dir_only-Confined :
      (name target : Text) (o : Option Reader)
      → Fits (has_suffix name (codes "/")) false
      → IsTarget name target
      → Keeps (Confined Fits dest before) (mkdir_all (dir_of target) >> extract_zip_file o target)
  unfolding extract_zip_file
  dir_only-Confined name target (some r) fits t = write_below-Confined name target r fits t
  dir_only-Confined name target none fits ((segs, n, a, e), te) =
      rw (te, e)
        (Keeps-bind (mkdir_all (dir_of (dest ++ b'/' ∷ join b'/' segs))) (λ _. raise _)
          (mkdir_all_of_dir-Confined Fits fits_dir dest before ready _ segs n a)
          (λ _. Keeps-raise _))

  place_zip_entry-Confined :
      (f : ZipFile) (o : Option Text)
      → Fits (has_suffix f.name (codes "/")) f.is_dir
      → resolve_extract_target dest f.name ≡ o
      → Keeps (Confined Fits dest before) (place_zip_entry f o)
  unfolding place_zip_entry
  place_zip_entry-Confined f none fits e = Keeps-pure tt
  place_zip_entry-Confined f (some target) fits e =
      let t = (resolve_iff dest f.name target ready.0).0 e in
      Keeps-if f.is_dir _ _ (λ d. make_below-Confined f.name target (subst (Fits _) d fits) t)
        (λ d. dir_only-Confined f.name target f.body (subst (Fits _) d fits) t)

  extract_zip_entry-Confined :
      (f : ZipFile)
      → Fits (has_suffix f.name (codes "/")) f.is_dir
      → Keeps (Confined Fits dest before) (extract_zip_entry dest f)
  unfolding extract_zip_entry
  extract_zip_entry-Confined f fits =
      let place = place_zip_entry f (resolve_extract_target dest f.name) in
      let skip = if contains f.name (codes "..") then pure tt else place in
      Keeps-skip f.is_symlink skip
        (Keeps-skip (contains f.name (codes "..")) place (place_zip_entry-Confined f _ fits refl))

  pub extract_zip_loop-Confined :
      (files : List ZipFile)
      → All (λ f. Fits (has_suffix f.name (codes "/")) f.is_dir) files
      → Keeps (Confined Fits dest before) (extract_zip_loop dest files)
  unfolding extract_zip_loop
  extract_zip_loop-Confined [] h = Keeps-pure tt
  extract_zip_loop-Confined (f ∷ files) h =
      Keeps-bind (extract_zip_entry dest f) (λ _. extract_zip_loop dest files)
        (extract_zip_entry-Confined f h.0) (λ _. extract_zip_loop-Confined files h.1)

  place_tar_entry-Confined :
      (hdr : TarHeader) (o : Option Text)
      → Fits (has_suffix (entry_name hdr) (codes "/")) (is_type_dir hdr.typeflag)
      → resolve_extract_target dest (entry_name hdr) ≡ o
      → Keeps (Confined Fits dest before) (place_tar_entry hdr o)
  unfolding place_tar_entry
  place_tar_entry-Confined hdr none fits e = Keeps-pure tt
  place_tar_entry-Confined hdr (some target) fits e =
      let t = (resolve_iff dest (entry_name hdr) target ready.0).0 e in
      let write = mkdir_all (dir_of target) >> write_extracted_file hdr.body target in
      Keeps-if (is_type_dir hdr.typeflag) _ _
        (λ d. make_below-Confined (entry_name hdr) target (subst (Fits _) d fits) t)
        (λ d.
          Keeps-skip (not (is_type_reg hdr.typeflag)) write
            (write_below-Confined (entry_name hdr) target hdr.body (subst (Fits _) d fits) t))

  extract_tar_entry-Confined :
      (hdr : TarHeader)
      → Fits (has_suffix (entry_name hdr) (codes "/")) (is_type_dir hdr.typeflag)
      → Keeps (Confined Fits dest before) (extract_tar_entry dest hdr)
  unfolding extract_tar_entry
  extract_tar_entry-Confined hdr fits =
      let place = place_tar_entry hdr (resolve_extract_target dest (entry_name hdr)) in
      let skip = if contains hdr.name (codes "..") then pure tt else place in
      Keeps-skip (is_link hdr.typeflag) skip (
        Keeps-skip (contains hdr.name (codes "..")) place
          (place_tar_entry-Confined hdr _ fits refl))

  pub extract_tar_loop-Confined :
      (stream : TarStream)
      → AllHeaders
          (λ hdr. Fits (has_suffix (entry_name hdr) (codes "/")) (is_type_dir hdr.typeflag))
          stream
      → Keeps (Confined Fits dest before) (extract_tar_loop dest stream)
  unfolding extract_tar_loop
  extract_tar_loop-Confined end h = Keeps-pure tt
  extract_tar_loop-Confined corrupt h = Keeps-raise io_failed
  extract_tar_loop-Confined (entry hdr rest) h =
      let one = extract_tar_entry dest hdr in
      let two = extract_tar_loop dest rest in
      Keeps-bind (if not (contains hdr.name (codes "..")) then one else pure tt) (λ _. two)
        (Keeps-if (not (contains hdr.name (codes ".."))) one (pure tt)
          (λ _. extract_tar_entry-Confined hdr h.0) (λ _. Keeps-pure tt))
        (λ _. extract_tar_loop-Confined rest h.1)
