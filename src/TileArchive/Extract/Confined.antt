-- ===== src/TileArchive/Extract/Confined.antt =====
-- Extraction writes nothing but numbered directories and numbered .png files below the
-- destination, whatever the archive holds and whichever file system calls fail.
use tileserve_go.Prelude.{
  ◌≡◌, refl, ◌≢◌, ◌⊎◌, inl, inr, Bool, true, false, Option, none, some, List, [], ◌∷◌, ◌++◌, Text,
  ◌==◌, nat_eq, text_eq, text_beq_iff, All, Bool-cases,
}
use tileserve_go.Prelude.Strings.{join}
use tileserve_go.Prelude.Assoc.{lookup, lookup-insert}
use tileserve_go.Prelude.FilePath.{dir_of, IsDirectory}
use tileserve_go.Prelude.Monad.{◌>>◌}
use tileserve_go.Prelude.Monad.Keeps.{Keeps, Keeps-bind, keeps_rules}
use tileserve_go.Disk.{
  Node, dir, file, is_directory, take_fault, Tree, Disk, Reader, syscall, put_node, make_dir,
  mkdir_unless, open_node, make_dirs, ancestors_from, mkdir_all, open_truncated, copy_into,
}
use tileserve_go.TileArchive.Names.Grammar.{AreSegments}
use tileserve_go.TileArchive.Extract.Ancestors.{All-ancestors, All-ancestors_of_dir}
use tileserve_go.TileArchive.Extract.{write_extracted_file}

-- A node that belongs to a tile pyramid below `dest`. `Fits` relates the kind that the name
-- stands for (true for a directory) to the kind of the node.
abbrev pub IsTileNode : (Bool → Bool → Type 0) → Text → Text → Node → Type 0
IsTileNode Fits dest path n =
    (is_dir : Bool) × (segs : List Text) × (segs ≢ [])
    × AreSegments is_dir segs
    × Fits is_dir (is_directory n)
    × (path ≡ dest ++ b'/' ∷ join b'/' segs)

module _ (Fits : Bool → Bool → Type 0) (dest : Text) (before : Tree) where
  -- At each path: what was there before, or a node of the pyramid.
  pub record Confined (d : Disk) : Type 0 where
    pub at_path :
        (path : Text)
        → (lookup path d.nodes ≡ lookup path before)
          ⊎ ((n : Node) × (lookup path d.nodes ≡ some n) × IsTileNode Fits dest path n)

  pub syscall-Confined : Keeps Confined syscall
  unfolding syscall
  syscall-Confined = record { at = λ d h. go d.faults d h }
    where
      go : (fs : List Bool) (d : Disk) → Confined d → Confined (take_fault fs d).1
      go [] d h = h
      go (true ∷ fs) d h = record { at_path = h.at_path }
      go (false ∷ fs) d h = record { at_path = h.at_path }

  pub put_node-Confined :
      (path : Text) (n : Node) → IsTileNode Fits dest path n → Keeps Confined (put_node path n)
  unfolding put_node
  put_node-Confined path n t = record {
    at = λ d h. record {
      at_path = λ p. elim (Bool-cases (path == p)) [
        | inl same ↦ inr (
          n,
          rw (lookup-insert path p n d.nodes, same) refl,
          rw (← (text_beq_iff path p).0 same) t,
        )
        | inr other ↦ rw (lookup-insert path p n d.nodes, other) (h.at_path p)
      ];
    };
  }

  -- A directory that is there before, or that belongs to the pyramid.
  abbrev IsAllowed : Text → Type 0
  IsAllowed path = (path ≡ []) ⊎ (lookup path before ≡ some dir) ⊎ IsTileNode Fits dest path dir

  mkdir_unless-Confined :
      (path : Text) (o : Option Node) (d : Disk)
      → IsAllowed path
      → path ≢ []
      → lookup path d.nodes ≡ o
      → Confined d
      → Confined (mkdir_unless path o d).1
  unfolding mkdir_unless
  mkdir_unless-Confined path (some dir) d a ne e h = h
  mkdir_unless-Confined path (some (file c)) d a ne e h = h
  mkdir_unless-Confined path none d (inl a) ne e h = absurd (ne a)
  mkdir_unless-Confined path none d (inr (inl a)) ne e h = absurd (go (h.at_path path))
    where
      go :
          (lookup path d.nodes ≡ lookup path before)
            ⊎ ((n : Node) × (lookup path d.nodes ≡ some n) × IsTileNode Fits dest path n)
          → ⊥
      go (inl same) = cc
      go (inr (n, found, _)) = cc
  mkdir_unless-Confined path none d (inr (inr t)) ne e h =
      (Keeps-bind syscall (λ _. put_node path dir) syscall-Confined
          (λ _. put_node-Confined path dir t)).at
        d h

  make_dir-Confined : (path : Text) → IsAllowed path → Keeps Confined (make_dir path)
  unfolding make_dir
  make_dir-Confined [] a = record { at = λ d h. h }
  make_dir-Confined (c ∷ path) a = record {
    at = λ d h. mkdir_unless-Confined (c ∷ path) _ d a (cc) refl h;
  }

  make_dirs-Confined : (paths : List Text) → All IsAllowed paths → Keeps Confined (make_dirs paths)
  unfolding make_dirs
  make_dirs-Confined [] a = record { at = λ d h. h }
  make_dirs-Confined (p ∷ ps) a =
      Keeps-bind (make_dir p) (λ _. make_dirs ps) (make_dir-Confined p a.0)
        (λ _. make_dirs-Confined ps a.1)

  open_node-Confined :
      (path : Text) (o n : Option Node)
      → IsTileNode Fits dest path (file [])
      → Keeps Confined (open_node path o n)
  unfolding open_node
  open_node-Confined path (some dir) (some dir) t = record { at = λ d h. h }
  open_node-Confined path (some dir) (some (file c)) t =
      Keeps-bind syscall _ syscall-Confined (λ _. put_node-Confined path (file []) t)
  open_node-Confined path (some dir) none t =
      Keeps-bind syscall _ syscall-Confined (λ _. put_node-Confined path (file []) t)
  open_node-Confined path (some (file c)) n t = record { at = λ d h. h }
  open_node-Confined path none n t = record { at = λ d h. h }

  copy_into-Confined :
      (path : Text) (r : Reader)
      → IsTileNode Fits dest path (file r.content)
      → Keeps Confined (copy_into path r)
  unfolding copy_into
  copy_into-Confined path r t = search (keeps_rules, syscall-Confined, put_node-Confined, t)

  open_truncated-Confined :
      (path : Text) → IsTileNode Fits dest path (file []) → Keeps Confined (open_truncated path)
  unfolding open_truncated
  open_truncated-Confined path t = record {
    at = λ d h.
        (open_node-Confined path (lookup (dir_of path) d.nodes) (lookup path d.nodes) t).at d h;
  }

  pub write-Confined :
      (r : Reader) (path : Text)
      → ((c : Text) → IsTileNode Fits dest path (file c))
      → Keeps Confined (write_extracted_file r path)
  unfolding write_extracted_file
  write-Confined r path t =
      Keeps-bind (open_truncated path) (λ _. do copy_into path r; syscall)
        (open_truncated-Confined path (t []))
        (λ _.
          Keeps-bind (copy_into path r) (λ _. syscall) (copy_into-Confined path r (t r.content))
            (λ _. syscall-Confined))

-- The destination is a cleaned path whose ancestors are directories before the extraction.
abbrev pub IsReady : Text → Tree → Type 0
IsReady dest before =
    IsDirectory dest × All (λ p. (p ≡ []) ⊎ (lookup p before ≡ some dir)) (ancestors_from [] dest)

weaken :
    (Fits : Bool → Bool → Type 0) (dest : Text) (before : Tree) (ps : List Text)
    → All (λ p. (p ≡ []) ⊎ (lookup p before ≡ some dir)) ps
    → All (IsAllowed Fits dest before) ps
weaken Fits dest before [] h = tt
weaken Fits dest before (p ∷ ps) h = (go h.0, weaken Fits dest before ps h.1)
  where
    go : (p ≡ []) ⊎ (lookup p before ≡ some dir) → IsAllowed Fits dest before p
    go (inl e) = inl e
    go (inr e) = inr (inl e)

module _ (Fits : Bool → Bool → Type 0) (fits_dir : Fits true true) (dest : Text) (before : Tree)
    (ready : IsReady dest before) where
  pub mkdir_all-Confined :
      (is_dir : Bool) (segs : List Text)
      → segs ≢ []
      → AreSegments is_dir segs
      → Fits is_dir true
      → Keeps (Confined Fits dest before) (mkdir_all (dest ++ b'/' ∷ join b'/' segs))
  unfolding mkdir_all
  mkdir_all-Confined is_dir segs n a f = make_dirs-Confined Fits dest before _ (
      All-ancestors dest (IsAllowed Fits dest before) is_dir
        (λ pre ne nums. inr (inr (true, pre, ne, nums, fits_dir, refl)))
        (λ ss ne shape. inr (inr (is_dir, ss, ne, shape, f, refl))) segs
        (weaken Fits dest before _ ready.1) n a)

  pub mkdir_all_of_dir-Confined :
      (is_dir : Bool) (segs : List Text)
      → segs ≢ []
      → AreSegments is_dir segs
      → Keeps (Confined Fits dest before) (mkdir_all (dir_of (dest ++ b'/' ∷ join b'/' segs)))
  unfolding mkdir_all
  mkdir_all_of_dir-Confined is_dir segs n a = make_dirs-Confined Fits dest before _ (
      All-ancestors_of_dir dest (IsAllowed Fits dest before) is_dir segs ready.0
        (λ pre ne nums. inr (inr (true, pre, ne, nums, fits_dir, refl)))
        (weaken Fits dest before _ ready.1) n a)
