-- ===== src/TileArchive/Archive/Cleanup.antt =====
-- internal/tilearchive/extract.go: ExtractArchive, and what a rejected archive leaves.
use tileserve_go.Prelude.{
  ◌≡◌, ◌≢◌, refl, sym, subst, ◌⊎◌, inl, inr, true, false, Option, none, some, Text, nat_eq, text_eq,
  arith,
}
use tileserve_go.Prelude.Assoc.{lookup}
use tileserve_go.Prelude.Monad.{Result, ok, err, pure, continue, recover}
use tileserve_go.Disk.{Disk, DiskError, is_within}
use tileserve_go.TileArchive.Extract.{extract_zip, extract_tar}
use tileserve_go.TileArchive.Archive.Prepared.{
  NoFaults, staging_path, IsReady, IsUnready, Prepared, prepare_lem,
}
use tileserve_go.TileArchive.Archive.{
  ArchiveFormat, archive_unknown, archive_zip, archive_tar_gz, archive_tar, ArchiveError,
  invalid_archive, inspect_failed, unsupported_format, prepare_failed, sniff_archive_format,
  Decoders, extract_format, clean_up, fill_staging, extract_sniffed, extract_archive,
}
use tileserve_go.TileArchive.Archive.Swept.{
  lookup-keep_if, lookup-kept, extract_format-NoFaults, swept, clean_up_lem,
}

-- A format that is known.
abbrev pub IsKnown : ArchiveFormat → Type 0
IsKnown format = format ≢ archive_unknown

-- The loop over the entries that a format asks for ends so.
pub data Extracts (dec : Decoders) (bytes dest : Text) (d : Disk)
    (r : Result DiskError (Unit {0}) × Disk) : ArchiveFormat → Type 0 where
  of_zip : extract_zip (dec.open_zip bytes) dest d ≡ r → Extracts dec bytes dest d r archive_zip
  of_tar_gz :
      extract_tar (dec.open_tar true bytes) dest d ≡ r → Extracts dec bytes dest d r archive_tar_gz
  of_tar :
      extract_tar (dec.open_tar false bytes) dest d ≡ r → Extracts dec bytes dest d r archive_tar

extract_format-Extracts :
    (dec : Decoders) (format : ArchiveFormat) (bytes dest : Text) (d : Disk)
    (r : Result DiskError (Unit {0}) × Disk)
    → IsKnown format
    → extract_format dec format bytes dest d ≡ r
    → Extracts dec bytes dest d r format
unfolding extract_format
extract_format-Extracts dec archive_zip bytes dest d r k e = of_zip e
extract_format-Extracts dec archive_tar_gz bytes dest d r k e = of_tar_gz e
extract_format-Extracts dec archive_tar bytes dest d r k e = of_tar e
extract_format-Extracts dec archive_unknown bytes dest d r k e = absurd (k refl)

module _ (dec : Decoders) (dest random bytes : Text) (format : ArchiveFormat) (before : Disk) where
  -- The archive was extracted without an error into a new staging directory.
  pub record IsFilled (s : Result ArchiveError Text × Disk) : Type 0 where
    pub ready : Disk
    pub prepared : IsReady dest random before ready
    pub filled : Extracts dec bytes (staging_path dest random) ready (ok tt, s.1) format
    pub returns : s.0 ≡ ok (staging_path dest random)

  -- Extracting into a new staging directory failed; nothing of that directory is left, and the
  -- rest of the disk is as the failure left it.
  pub record IsRejected (s : Result ArchiveError Text × Disk) : Type 0 where
    pub error : DiskError
    pub ready : Disk
    pub failed : Disk
    pub prepared : IsReady dest random before ready
    pub fails : Extracts dec bytes (staging_path dest random) ready (err error, failed) format
    pub returns : s.0 ≡ err (invalid_archive error)
    pub gone :
        (p : Text) → is_within (staging_path dest random) p ≡ true → lookup p s.1.nodes ≡ none
    pub rest :
        (p : Text)
        → is_within (staging_path dest random) p ≡ false
        → lookup p s.1.nodes ≡ lookup p failed.nodes

  after_fill :
      (ready : Disk) (r : Result DiskError (Unit {0}) × Disk)
      → IsReady dest random before ready
      → Extracts dec bytes (staging_path dest random) ready r format
      → NoFaults r.1
      → (IsFilled (
            continue
              (λ _. pure (staging_path dest random))
              (recover (clean_up (staging_path dest random)) r))
          ⊎ IsRejected (
              continue
                (λ _. pure (staging_path dest random))
                (recover (clean_up (staging_path dest random)) r)))
  unfolding swept
  after_fill ready (ok tt, d) v e n =
      inl (record { ready = ready; prepared = v; filled = e; returns = refl })
  after_fill ready (err x, d) v e n = rw (clean_up_lem (staging_path dest random) x d n) (
      inr (record {
        error = x;
        ready = ready;
        failed = d;
        prepared = v;
        fails = e;
        returns = refl;
        gone = λ p h. lookup-keep_if (staging_path dest random) p d.nodes h;
        rest = λ p h. lookup-kept (staging_path dest random) p d.nodes h;
      }))

-- What ExtractArchive may do when no file system call fails.
pub data Extracted (dec : Decoders) (file : Option Text) (dest random : Text) (d : Disk)
    (s : Result ArchiveError Text × Disk) : Type 0 where
  extracted :
      (b : Text)
      → file ≡ some b
      → IsKnown (sniff_archive_format b)
      → IsFilled dec dest random b (sniff_archive_format b) d s
      → Extracted dec file dest random d s
  rejected :
      (b : Text)
      → file ≡ some b
      → IsKnown (sniff_archive_format b)
      → IsRejected dec dest random b (sniff_archive_format b) d s
      → Extracted dec file dest random d s
  unprepared :
      (b : Text) (e : DiskError)
      → file ≡ some b
      → IsKnown (sniff_archive_format b)
      → s.0 ≡ err (prepare_failed e)
      → IsUnready dest random d s.1 e
      → Extracted dec file dest random d s
  unsupported :
      (b : Text)
      → file ≡ some b
      → sniff_archive_format b ≡ archive_unknown
      → s ≡ (err unsupported_format, d)
      → Extracted dec file dest random d s
  unreadable : file ≡ none → s ≡ (err inspect_failed, d) → Extracted dec file dest random d s

module _ (dec : Decoders) (dest random bytes : Text) (d : Disk) (n : NoFaults d) where
  of_known :
      (format : ArchiveFormat) (s : Result ArchiveError Text × Disk)
      → sniff_archive_format bytes ≡ format
      → IsKnown format
      → IsFilled dec dest random bytes format d s ⊎ IsRejected dec dest random bytes format d s
      → Extracted dec (some bytes) dest random d s
  of_known format s e k (inl f) =
      extracted bytes refl (subst IsKnown (sym e) k)
        (subst (λ g. IsFilled dec dest random bytes g d s) (sym e) f)
  of_known format s e k (inr f) =
      rejected bytes refl (subst IsKnown (sym e) k)
        (subst (λ g. IsRejected dec dest random bytes g d s) (sym e) f)

  after_prepare :
      (format : ArchiveFormat) (r : Result ArchiveError Text × Disk)
      → sniff_archive_format bytes ≡ format
      → IsKnown format
      → Prepared dest random d r
      → Extracted dec
          (some bytes)
          dest
          random
          d
          (continue (λ staging. fill_staging dec format bytes staging) r)
  unfolding fill_staging
  after_prepare format (ok staging, ready) e k (inl (x, v)) =
      let same : staging ≡ staging_path dest random = cc in
      let whole = extract_format dec format bytes (staging_path dest random) ready in
      rw same (
        of_known format _ e k (
          after_fill dec dest random bytes format d ready whole v
            (extract_format-Extracts dec format bytes (staging_path dest random) ready whole k refl)
            ((extract_format-NoFaults dec format bytes (staging_path dest random)).at ready
              v.no_faults)))
  after_prepare format (err x, ready) e k (inl (y, v)) = cc
  after_prepare format (ok staging, ready) e k (inr (x, y, u)) = cc
  after_prepare format (err y, after) e k (inr (x, same, u)) =
      unprepared bytes x refl (subst IsKnown (sym e) k) same u

  extract_sniffed_lem :
      (format : ArchiveFormat)
      → sniff_archive_format bytes ≡ format
      → Extracted dec (some bytes) dest random d (extract_sniffed dec format bytes dest random d)
  unfolding extract_sniffed
  extract_sniffed_lem archive_unknown e = unsupported bytes refl e refl
  extract_sniffed_lem archive_zip e =
      after_prepare archive_zip _ e (λ h. absurd (ground arith)) (prepare_lem dest random d n)
  extract_sniffed_lem archive_tar_gz e =
      after_prepare archive_tar_gz _ e (λ h. absurd (ground arith)) (prepare_lem dest random d n)
  extract_sniffed_lem archive_tar e =
      after_prepare archive_tar _ e (λ h. absurd (ground arith)) (prepare_lem dest random d n)

-- If no file system call fails for reasons outside the program, ExtractArchive on a file of known
-- format either extracts the archive without an error into a staging directory that was not there,
-- and returns its path; or the extraction there fails, and it returns that error with nothing left at
-- any path in the directory, and the rest as the extraction left it; or os.MkdirAll or
-- os.MkdirTemp fails, and it returns that error. Before it extracts it creates nothing but
-- directories. A file that is of unknown format or cannot be read changes nothing on the disk.
pub extract_archive-Extracted :
    (dec : Decoders) (bytes : Option Text) (dest random : Text) (d : Disk)
    → NoFaults d
    → Extracted dec bytes dest random d (extract_archive dec bytes dest random d)
unfolding extract_archive
extract_archive-Extracted dec none dest random d n = unreadable refl refl
extract_archive-Extracted dec (some bytes) dest random d n =
    extract_sniffed_lem dec dest random bytes d n (sniff_archive_format bytes) refl
