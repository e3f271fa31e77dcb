-- ===== src/TileArchive/Target.antt =====
-- internal/tilearchive/extract.go, resolveExtractTarget: where an entry is written.
use tileserve_go.Prelude.{
  ◌≡◌, refl, sym, ◌∙◌, ap, ◌↔◌, Bool, true, false, not, ◌&&◌, Option, none, some, List, [], ◌∷◌,
  ◌++◌, Text, codes, ◌==◌, text_eq, All, arith, if◌then◌else◌, append_assoc,
}
use tileserve_go.Prelude.Strings.{has_prefix, trim}
use tileserve_go.Prelude.Strings.Laws.{has_prefix-append}
use tileserve_go.Prelude.FilePath.{join_path, IsPlain, IsDirectory, join_path_of_IsPlain}
use tileserve_go.TileArchive.Names.{validate_extracted_entry_name}
use tileserve_go.TileArchive.Names.Grammar.{
  IsNumber, IsPng, IsEntryName, AreSegments, IsPng-Free, IsNumber-Free, validate-IsEntryName,
}

-- A target that is neither cleanDest nor below it.
abbrev escapes : Text → Text → Bool
escapes clean_dest target =
    not (target == clean_dest) && not (has_prefix target (clean_dest ++ codes "/"))

-- `none` is ok = false: the entry is skipped.
unfoldable pub resolve_extract_target : Text → Text → Option Text
resolve_extract_target clean_dest name = elim (validate_extracted_entry_name name) [
  | some err ↦ none
  | none ↦
      let target = join_path clean_dest (trim b'/' name) in
      if escapes clean_dest target then none else some target
]

IsNumber-IsPlain : (s : Text) → IsNumber s → IsPlain s
IsNumber-IsPlain [] h = absurd (h.0 refl)
IsNumber-IsPlain (a ∷ s) h = (ground arith, ground arith, ground arith, IsNumber-Free (a ∷ s) h.1)

IsPng-IsPlain : (s : Text) → IsPng s → IsPlain s
IsPng-IsPlain s ([], h, e) = absurd (h.0 refl)
IsPng-IsPlain s (a ∷ n, h, e) =
    rw e (ground arith, ground arith, ground arith, IsPng-Free _ (a ∷ n, h, refl))

pub AreSegments-IsPlain :
    (is_dir : Bool) (segs : List Text) → AreSegments is_dir segs → All IsPlain segs
AreSegments-IsPlain true [] h = tt
AreSegments-IsPlain true (s ∷ segs) h = (IsNumber-IsPlain s h.0, AreSegments-IsPlain true segs h.1)
AreSegments-IsPlain false [] h = tt
AreSegments-IsPlain false (s ∷ []) h = (IsPng-IsPlain s h.1, tt)
AreSegments-IsPlain false (s ∷ t ∷ ts) h =
    (IsNumber-IsPlain s h.0.0, AreSegments-IsPlain false (t ∷ ts) (h.0.1, h.1))

below : Text → Text → Text
below dir name = dir ++ b'/' ∷ trim b'/' name

join_path_of_IsEntryName :
    (dir name : Text)
    → IsDirectory dir
    → IsEntryName name
    → join_path dir (trim b'/' name) ≡ dir ++ b'/' ∷ trim b'/' name
join_path_of_IsEntryName dir name d (segs, n, a, e) =
    rw e (join_path_of_IsPlain dir segs d n (AreSegments-IsPlain _ segs a))

escapes_below : (dir rest : Text) → escapes dir (dir ++ b'/' ∷ rest) ≡ false
escapes_below dir rest =
    let h : has_prefix (dir ++ b'/' ∷ rest) (dir ++ codes "/") ≡ true =
      rw (← append_assoc dir (codes "/") rest) (has_prefix-append (dir ++ codes "/") rest) in
    ground arith

resolve_of_IsEntryName :
    (dir name : Text)
    → IsDirectory dir
    → IsEntryName name
    → resolve_extract_target dir name ≡ some (dir ++ b'/' ∷ trim b'/' name)
unfolding resolve_extract_target
resolve_of_IsEntryName dir name d g =
    let ok = (validate-IsEntryName name).1 g in
    rw
      (
        ok,
        resolve_extract_target,
        join_path_of_IsEntryName dir name d g,
        escapes_below dir (trim b'/' name),
      )
      refl

IsEntryName-of_resolve :
    (dir name target : Text) → resolve_extract_target dir name ≡ some target → IsEntryName name
unfolding resolve_extract_target
IsEntryName-of_resolve dir name target e = (validate-IsEntryName name).0 (ground arith)

-- An entry is extracted exactly if its name is in the grammar, and then to that name below the
-- destination, which must be a cleaned path other than "." and "/".
pub resolve_iff :
    (dir name target : Text)
    → IsDirectory dir
    → (resolve_extract_target dir name ≡ some target)
      ↔ (IsEntryName name × (target ≡ dir ++ b'/' ∷ trim b'/' name))
resolve_iff dir name target d = (
  λ e.
      let g = IsEntryName-of_resolve dir name target e in
      (g, cc (resolve_of_IsEntryName dir name d g)),
  λ e. resolve_of_IsEntryName dir name d e.0 ∙ ap some (sym e.1),
)
