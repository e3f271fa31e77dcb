-- ===== src/Disk.antt =====
-- The file system calls of Go's `os` that the program makes, on a flat map from cleaned paths to
-- nodes. Each call takes one entry off `faults`: where that is true, the call fails.
pub mod Entries
use tileserve_go.Prelude.{
  Bool, true, false, not, Option, none, some, List, [], ◌∷◌, ◌++◌, Text, codes, ◌==◌, nat_eq,
  text_eq, keep_if, if◌then◌else◌,
}
use tileserve_go.Prelude.Strings.{has_prefix, contains}
use tileserve_go.Prelude.Assoc.{lookup, insert}
use tileserve_go.Prelude.FilePath.{dir_of}
use tileserve_go.Prelude.Monad.{Result, ok, err, Exec, pure, raise, gets, modify, ◌>>=◌, ◌>>◌}

pub data Node : Type 0 where
  dir : Node
  file : Text → Node

abbrev pub is_directory : Node → Bool
is_directory dir = true
is_directory (file c) = false

abbrev pub Tree : Type 0
Tree = List (Text × Node)

pub record Disk : Type 0 where
  pub nodes : Tree
  pub faults : List Bool

pub data DiskError : Type 0 where
  io_failed not_exist already_exists not_a_directory is_a_directory : DiskError

unfoldable pub take_fault : List Bool → Disk → Result DiskError (Unit {0}) × Disk
take_fault [] d = (ok tt, d)
take_fault (true ∷ rest) d = (err io_failed, record d { faults = rest })
take_fault (false ∷ rest) d = (ok tt, record d { faults = rest })

-- The part of every call that may fail for reasons outside the program.
unfoldable pub syscall : Exec Disk DiskError (Unit {0})
unfolding take_fault
syscall d = take_fault d.faults d

unfoldable pub put_node : Text → Node → Exec Disk DiskError (Unit {0})
put_node path n = modify (λ d. record d { nodes = insert path n d.nodes })

unfoldable pub mkdir_unless : Text → Option Node → Exec Disk DiskError (Unit {0})
unfolding syscall put_node
mkdir_unless path none = do syscall; put_node path dir
mkdir_unless path (some dir) = pure tt
mkdir_unless path (some (file c)) = raise not_a_directory

-- One step of os.MkdirAll. The empty path is the root or the working directory.
unfoldable pub make_dir : Text → Exec Disk DiskError (Unit {0})
unfolding mkdir_unless
make_dir [] = pure tt
make_dir (c ∷ path) = do n ← gets (λ d. lookup (c ∷ path) d.nodes); mkdir_unless (c ∷ path) n

-- Every ancestor of a path, from the top down, and the path itself.
unfoldable pub ancestors_from : Text → Text → List Text
ancestors_from acc [] = acc ∷ []
ancestors_from acc (c ∷ s) =
    let rest = ancestors_from (acc ++ c ∷ []) s in if c == b'/' then acc ∷ rest else rest

unfoldable pub make_dirs : List Text → Exec Disk DiskError (Unit {0})
unfolding make_dir
make_dirs [] = pure tt
make_dirs (p ∷ ps) = do make_dir p; make_dirs ps

-- os.MkdirAll
unfoldable pub mkdir_all : Text → Exec Disk DiskError (Unit {0})
unfolding make_dirs ancestors_from
mkdir_all path = make_dirs (ancestors_from [] path)

-- os.Mkdir, which wants the path to be free and its parent to be a directory
unfoldable pub mkdir_new : Text → Option Node → Option Node → Exec Disk DiskError (Unit {0})
unfolding syscall put_node
mkdir_new path (some dir) none = do syscall; put_node path dir
mkdir_new path (some dir) (some n) = raise already_exists
mkdir_new path _ n = raise not_exist

-- os.MkdirTemp, for the name that its random part finally gives
unfoldable pub mkdir_temp : Text → Text → Exec Disk DiskError Text
unfolding mkdir_new
mkdir_temp parent name = do
  let path = parent ++ b'/' ∷ name
  p ← gets (λ d. lookup parent d.nodes)
  n ← gets (λ d. lookup path d.nodes)
  mkdir_new path p n
  pure path

-- Opening for writing needs the parent, and no directory of that name.
unfoldable pub open_node : Text → Option Node → Option Node → Exec Disk DiskError (Unit {0})
unfolding syscall put_node
open_node path (some dir) (some dir) = raise is_a_directory
open_node path (some dir) n = do syscall; put_node path (file [])
open_node path (some (file c)) n = raise not_a_directory
open_node path none n = raise not_exist

-- os.OpenFile with O_WRONLY, O_CREATE and O_TRUNC
unfoldable pub open_truncated : Text → Exec Disk DiskError (Unit {0})
unfolding open_node
open_truncated path = do
  parent ← gets (λ d. lookup (dir_of path) d.nodes)
  n ← gets (λ d. lookup path d.nodes)
  open_node path parent n

-- What a reader yields, and whether it ends without an error.
pub record Reader : Type 0 where
  pub content : Text
  pub intact : Bool

-- io.Copy into an open file
unfoldable pub copy_into : Text → Reader → Exec Disk DiskError (Unit {0})
unfolding syscall put_node
copy_into path r = do
  syscall
  put_node path (file r.content)
  if r.intact then pure tt else raise io_failed

-- `path` or something below it.
unfoldable pub is_within : Text → Text → Bool
is_within path p = if p == path then true else has_prefix p (path ++ codes "/")

-- os.RemoveAll
unfoldable pub remove_all : Text → Exec Disk DiskError (Unit {0})
unfolding syscall is_within
remove_all path = do
  syscall
  modify (λ d. record d { nodes = keep_if (λ e. not (is_within path e.0)) d.nodes })

-- strings.CutPrefix
unfoldable pub cut_prefix : Text → Text → Option Text
cut_prefix s [] = some s
cut_prefix [] (b ∷ p) = none
cut_prefix (a ∷ s) (b ∷ p) = if a == b then cut_prefix s p else none

-- A path element: not empty, without a separator.
unfoldable pub is_element : Text → Bool
unfolding contains
is_element [] = false
is_element (c ∷ s) = not (contains (c ∷ s) (codes "/"))

-- filepath.Join of a cleaned directory and a path element
abbrev pub child_path : Text → Text → Text
child_path path name = path ++ b'/' ∷ name

abbrev pub cons_element : Option Text → List Text → List Text
cons_element none names = names
cons_element (some name) names = if is_element name then name ∷ names else names

-- The names in a directory, in no stated order.
unfoldable pub names_in : Text → Tree → List Text
unfolding cut_prefix is_element
names_in path [] = []
names_in path ((p, n) ∷ rest) = cons_element (cut_prefix p (path ++ codes "/")) (names_in path rest)

unfoldable pub list_dir : Text → Option Node → Exec Disk DiskError (List Text)
unfolding syscall names_in
list_dir path none = raise not_exist
list_dir path (some (file c)) = raise not_a_directory
list_dir path (some dir) = do syscall; gets (λ d. names_in path d.nodes)

-- os.ReadDir
unfoldable pub read_dir : Text → Exec Disk DiskError (List Text)
unfolding list_dir
read_dir path = do n ← gets (λ d. lookup path d.nodes); list_dir path n

abbrev pub is_dir_node : Option Node → Bool
is_dir_node none = false
is_dir_node (some n) = is_directory n

-- IsDir of the entry that os.ReadDir gave
abbrev pub is_dir_at : Text → Disk → Bool
is_dir_at path d = is_dir_node (lookup path d.nodes)

-- os.WriteFile
unfoldable pub write_file : Text → Text → Exec Disk DiskError (Unit {0})
unfolding open_truncated syscall put_node
write_file path content = do open_truncated path; syscall; put_node path (file content)

unfoldable pub stat_node : Option Node → Exec Disk DiskError Node
unfolding syscall
stat_node none = do syscall; raise not_exist
stat_node (some n) = do syscall; pure n

-- os.Stat
unfoldable pub stat : Text → Exec Disk DiskError Node
unfolding stat_node
stat path = do n ← gets (λ d. lookup path d.nodes); stat_node n
