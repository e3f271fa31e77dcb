-- ===== src/TileArchive/Archive/Prepared.antt =====
-- internal/tilearchive: the staging directory that ExtractArchive creates.
use tileserve_go.Prelude.{
  ◌≡◌, refl, sym, ap, ◌∙◌, ◌⊎◌, inl, inr, none-some, Bool-cases, Option, none, some, List, [], ◌∷◌,
  ◌++◌, Text, codes, ◌==◌, nat_eq, text_eq, eq_iff,
}
use tileserve_go.Prelude.Assoc.{lookup, insert, lookup-insert, lookup-insert_self}
use tileserve_go.Prelude.Monad.{Result, ok, err, pure, raise, handle, continue, recover}
use tileserve_go.Prelude.Monad.Keeps.{Keeps, Keeps-pure, Keeps-bind}
use tileserve_go.Disk.{
  Disk, DiskError, Node, Tree, dir, file, syscall, put_node, take_fault, mkdir_unless, make_dir,
  ancestors_from, make_dirs, mkdir_all, mkdir_new, mkdir_temp,
}
use tileserve_go.TileArchive.Archive.{ArchiveError, prepare_failed, prepare_staging}

-- No file system call fails.
abbrev pub NoFaults : Disk → Type 0
NoFaults d = d.faults ≡ []

-- Each path is as it was, or is a directory where nothing was.
abbrev pub GainsDirectories : Tree → Tree → Type 0
GainsDirectories before after =
    (q : Text)
    → (lookup q after ≡ lookup q before) ⊎ ((lookup q before ≡ none) × (lookup q after ≡ some dir))

GainsDirectories-insert :
    (path : Text) (t u : Tree)
    → lookup path u ≡ none
    → GainsDirectories t u
    → GainsDirectories t (insert path dir u)
GainsDirectories-insert path t u free g q = elim (Bool-cases (path == q)) [
  | inr other ↦ rw (lookup-insert path q dir u, other) (g q)
  | inl here ↦
      let gone : lookup q u ≡ none = ap (λ i. lookup i u) (sym ((eq_iff path q).0 here)) ∙ free in
      elim (g q) [
        | inl same ↦ inr (sym same ∙ gone, rw (lookup-insert path q dir u, here) refl)
        | inr made ↦ absurd (none-some (sym gone ∙ made.1))
      ]
]

abbrev IsPreparing : Disk → Disk → Type 0
IsPreparing before d = GainsDirectories before.nodes d.nodes × NoFaults d

mkdir_new_lem :
    (path : Text) (d : Disk)
    → NoFaults d
    → mkdir_new path (some dir) none d ≡ (ok tt, record d { nodes = insert path dir d.nodes })
unfolding mkdir_new syscall put_node
mkdir_new_lem path d n = rw (n, take_fault) refl

mkdir_unless_lem :
    (path : Text) (d : Disk)
    → NoFaults d
    → mkdir_unless path none d ≡ (ok tt, record d { nodes = insert path dir d.nodes })
unfolding mkdir_unless syscall put_node
mkdir_unless_lem path d n = rw (n, take_fault) refl

module _ (before : Disk) where
  mkdir_unless-IsPreparing :
      (path : Text) (o : Option Node) (d : Disk)
      → lookup path d.nodes ≡ o
      → IsPreparing before d
      → IsPreparing before (mkdir_unless path o d).1
  unfolding mkdir_unless
  mkdir_unless-IsPreparing path none d e p =
      rw (mkdir_unless_lem path d p.1)
        (GainsDirectories-insert path before.nodes d.nodes e p.0, p.1)
  mkdir_unless-IsPreparing path (some dir) d e p = p
  mkdir_unless-IsPreparing path (some (file c)) d e p = p

  make_dir-IsPreparing : (path : Text) → Keeps (IsPreparing before) (make_dir path)
  unfolding make_dir
  make_dir-IsPreparing [] = Keeps-pure tt
  make_dir-IsPreparing (c ∷ path) = record {
    at = λ d p. mkdir_unless-IsPreparing (c ∷ path) (lookup (c ∷ path) d.nodes) d refl p;
  }

  make_dirs-IsPreparing : (paths : List Text) → Keeps (IsPreparing before) (make_dirs paths)
  unfolding make_dirs
  make_dirs-IsPreparing [] = Keeps-pure tt
  make_dirs-IsPreparing (p ∷ ps) =
      Keeps-bind (make_dir p) (λ _. make_dirs ps) (make_dir-IsPreparing p)
        (λ _. make_dirs-IsPreparing ps)

  mkdir_all-IsPreparing : (path : Text) → Keeps (IsPreparing before) (mkdir_all path)
  unfolding mkdir_all
  mkdir_all-IsPreparing path = make_dirs-IsPreparing (ancestors_from [] path)

abbrev pub staging_path : Text → Text → Text
staging_path dest random = dest ++ b'/' ∷ (codes ".upload-" ++ random)

-- The staging directory is new, and nothing but directories was created.
pub record IsReady (dest random : Text) (before ready : Disk) : Type 0 where
  pub gained : GainsDirectories before.nodes ready.nodes
  pub free : lookup (staging_path dest random) before.nodes ≡ none
  pub made : lookup (staging_path dest random) ready.nodes ≡ some dir
  pub no_faults : NoFaults ready

-- os.MkdirAll or os.MkdirTemp failed, and nothing but directories was created.
pub record IsUnready (dest random : Text) (before after : Disk) (e : DiskError) : Type 0 where
  pub gained : GainsDirectories before.nodes after.nodes
  pub failed :
      (mkdir_all dest before ≡ (err e, after))
      ⊎ ((d : Disk) × (mkdir_all dest before ≡ (ok tt, d))
          × (mkdir_temp dest (codes ".upload-" ++ random) d ≡ (err e, after)))

-- The staging directory's path, or an error of the preparation.
abbrev pub Prepared : Text → Text → Disk → Result ArchiveError Text × Disk → Type 0
Prepared dest random before s =
    ((s.0 ≡ ok (staging_path dest random)) × IsReady dest random before s.1)
    ⊎ ((e : DiskError) × (s.0 ≡ err (prepare_failed e)) × IsUnready dest random before s.1 e)

module _ (dest random : Text) (before : Disk) where
  after_lookups :
      (d : Disk) (parent n : Option Node)
      → mkdir_all dest before ≡ (ok tt, d)
      → mkdir_temp dest (codes ".upload-" ++ random) d
        ≡ continue
            (λ _. pure (staging_path dest random))
            (mkdir_new (staging_path dest random) parent n d)
      → lookup (staging_path dest random) d.nodes ≡ n
      → IsPreparing before d
      → Prepared dest random before (
          recover
            (λ e. raise (prepare_failed e))
            (continue
              (λ _. pure (staging_path dest random))
              (mkdir_new (staging_path dest random) parent n d)))
  unfolding mkdir_new
  after_lookups d (some dir) none all temp free p =
      rw (mkdir_new_lem (staging_path dest random) d p.1) (inl (refl, ready))
    where
      absent : lookup (staging_path dest random) before.nodes ≡ none
      absent = elim (p.0 (staging_path dest random)) [
        | inl same ↦ sym same ∙ free
        | inr made ↦ made.0
      ]

      ready :
          IsReady dest random before
            (record d { nodes = insert (staging_path dest random) dir d.nodes })
      ready = record {
        gained = GainsDirectories-insert (staging_path dest random) before.nodes d.nodes free p.0;
        free = absent;
        made = lookup-insert_self (staging_path dest random) dir d.nodes;
        no_faults = p.1;
      }
  after_lookups d (some dir) (some n) all temp free p =
      inr (_, refl, record { gained = p.0; failed = inr (d, all, temp) })
  after_lookups d (some (file c)) n all temp free p =
      inr (_, refl, record { gained = p.0; failed = inr (d, all, temp) })
  after_lookups d none n all temp free p =
      inr (_, refl, record { gained = p.0; failed = inr (d, all, temp) })

  after_parent :
      (r : Result DiskError (Unit {0}) × Disk)
      → mkdir_all dest before ≡ r
      → IsPreparing before r.1
      → Prepared dest random before (
          continue
            (λ _.
              handle (mkdir_temp dest (codes ".upload-" ++ random)) (λ e. raise (prepare_failed e)))
            (recover (λ e. raise (prepare_failed e)) r))
  unfolding mkdir_temp
  after_parent (err e, d) all p = inr (e, refl, record { gained = p.0; failed = inl all })
  after_parent (ok tt, d) all p =
      after_lookups d (lookup dest d.nodes) (lookup (staging_path dest random) d.nodes) all refl
        refl p

  pub prepare_lem :
      NoFaults before → Prepared dest random before (prepare_staging dest random before)
  unfolding prepare_staging
  prepare_lem n =
      after_parent (mkdir_all dest before) refl
        ((mkdir_all-IsPreparing before dest).at before (λ q. inl refl, n))
