-- ===== src/TileArchive/Archive/Swept.antt =====
-- internal/tilearchive/extract.go: what clean_up leaves on a disk whose calls do not fail.
use tileserve_go.Prelude.{
  ◌≡◌, refl, true, false, not, none, [], ◌∷◌, Text, nat_eq, text_eq, text_beq_iff, arith, keep_if,
}
use tileserve_go.Prelude.Assoc.{lookup}
use tileserve_go.Prelude.Monad.{err}
use tileserve_go.Prelude.Monad.Keeps.{Keeps, Keeps-raise}
use tileserve_go.TileArchive.Extract.Generic.{extract_zip-Keeps, extract_tar-Keeps}
use tileserve_go.Disk.{Disk, DiskError, Node, Tree, is_within, syscall, put_node, take_fault}
use tileserve_go.TileArchive.Archive.Prepared.{NoFaults}
use tileserve_go.TileArchive.Archive.{
  ArchiveFormat, archive_unknown, archive_zip, archive_tar_gz, archive_tar, invalid_archive,
  Decoders, extract_format, clean_up,
}

pub lookup-keep_if :
    (path p : Text) (t : Tree)
    → is_within path p ≡ true
    → lookup p (keep_if (λ e. not (is_within path e.0)) t) ≡ none
unfolding lookup
lookup-keep_if path p [] h = refl
lookup-keep_if path p ((q, n) ∷ t) h = ground (arith, lookup-keep_if path p t h, text_beq_iff q p)

syscall-NoFaults : Keeps NoFaults syscall
unfolding syscall
syscall-NoFaults = record { at = λ d n. rw (n, take_fault) refl }

put_node-NoFaults : (path : Text) (n : Node) → Keeps NoFaults (put_node path n)
unfolding put_node
put_node-NoFaults path n = record { at = λ d h. h }

pub extract_format-NoFaults :
    (dec : Decoders) (format : ArchiveFormat) (bytes dest : Text)
    → Keeps NoFaults (extract_format dec format bytes dest)
unfolding extract_format
extract_format-NoFaults dec archive_zip bytes dest =
    extract_zip-Keeps NoFaults syscall-NoFaults put_node-NoFaults (dec.open_zip bytes) dest
extract_format-NoFaults dec archive_tar_gz bytes dest =
    extract_tar-Keeps NoFaults syscall-NoFaults put_node-NoFaults (dec.open_tar true bytes) dest
extract_format-NoFaults dec archive_tar bytes dest =
    extract_tar-Keeps NoFaults syscall-NoFaults put_node-NoFaults (dec.open_tar false bytes) dest
extract_format-NoFaults dec archive_unknown bytes dest = Keeps-raise _

unfoldable pub swept : Text → Disk → Disk
swept staging d = record d { nodes = keep_if (λ e. not (is_within staging e.0)) d.nodes }

pub clean_up_lem :
    (staging : Text) (e : DiskError) (d : Disk)
    → NoFaults d
    → clean_up staging e d ≡ (err (invalid_archive e), swept staging d)
unfolding clean_up swept
clean_up_lem staging e d n = ground arith

pub lookup-kept :
    (path p : Text) (t : Tree)
    → is_within path p ≡ false
    → lookup p (keep_if (λ e. not (is_within path e.0)) t) ≡ lookup p t
unfolding lookup
lookup-kept path p [] h = refl
lookup-kept path p ((q, n) ∷ t) h = ground (arith, lookup-kept path p t h, text_beq_iff q p)
