-- ===== src/TileArchive/Names.antt =====
-- internal/tilearchive/extract.go and paths.go: the names that an archive entry may have.
pub mod Grammar
use tileserve_go.Prelude.{
  ℕ, Bool, true, false, not, ◌&&◌, Option, none, some, List, [], ◌∷◌, Text, codes, ◌==◌, nat_eq,
  text_eq, all, if◌then◌else◌,
}
use tileserve_go.Prelude.Strings.{is_digit, has_suffix, trim, split}

-- NumericSegmentRE, ^[0-9]+$ (`$` without the flag m matches at the end of the text only)
unfoldable pub numeric_segment : Text → Bool
numeric_segment [] = false
numeric_segment (a ∷ s) = is_digit a && all is_digit s

unfoldable pub drop_digits : Text → Text
drop_digits [] = []
drop_digits (a ∷ s) = if is_digit a then drop_digits s else a ∷ s

-- numericPNGRE, ^[0-9]+\.png$: a dot is no digit, so the digits are taken greedily
unfoldable pub numeric_png : Text → Bool
unfolding drop_digits
numeric_png [] = false
numeric_png (a ∷ s) = is_digit a && drop_digits s == codes ".png"

pub data EntryError : Type 0 where
  invalid_entry_name : Text → EntryError
  invalid_directory : Text → EntryError
  invalid_file : Text → EntryError

-- The loop over dirSegments: the first directory that is not numeric.
unfoldable pub check_dirs : List Text → Option EntryError
unfolding numeric_segment
check_dirs [] = none
check_dirs (seg ∷ segs) =
    if numeric_segment seg then check_dirs segs else some (invalid_directory seg)

-- segments[:len(segments)-1] and segments[len(segments)-1]
abbrev pub init_segments : List Text → List Text
init_segments [] = []
init_segments (s ∷ []) = []
init_segments (s ∷ t ∷ ts) = s ∷ init_segments (t ∷ ts)

abbrev pub last_segment : List Text → Text
last_segment [] = []
last_segment (s ∷ []) = s
last_segment (s ∷ t ∷ ts) = last_segment (t ∷ ts)

abbrev pub first_is_empty : List Text → Bool
first_is_empty [] = true
first_is_empty (s ∷ ss) = s == []

-- The part of validateExtractedEntryName behind the split.
unfoldable pub check_segments : Bool → List Text → Option EntryError
unfolding check_dirs numeric_png
check_segments true segments = check_dirs segments
check_segments false segments = elim (check_dirs (init_segments segments)) [
  | some e ↦ some e
  | none ↦
      if numeric_png (last_segment segments)
      then none
      else some (invalid_file (last_segment segments))
]

-- `none` is Go's nil error.
unfoldable pub validate_extracted_entry_name : Text → Option EntryError
unfolding check_segments
validate_extracted_entry_name name =
    let is_dir = has_suffix name (codes "/") in
    let segments = split b'/' (trim b'/' name) in
    if first_is_empty segments
    then some (invalid_entry_name name)
    else check_segments is_dir segments
