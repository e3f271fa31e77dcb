-- ===== src/TileArchive/Names/Grammar.antt =====
-- What validateExtractedEntryName accepts, as a grammar stated without its code.
use tileserve_go.Prelude.{
  ◌≡◌, refl, sym, ap, ◌↔◌, inl, inr, ◌≢◌, Bool, true, false, none, List, [], ◌∷◌, ◌++◌, Text, codes,
  All, all, arith, Bool-cases, nat_eq, text_eq, text_beq_iff,
}
use tileserve_go.Prelude.Strings.{is_digit, has_suffix, trim, split, join}
use tileserve_go.Prelude.Strings.Laws.{Free, join-split, split-join}
use tileserve_go.TileArchive.Names.{
  numeric_segment, numeric_png, drop_digits, check_dirs, check_segments, init_segments,
  last_segment, first_is_empty, validate_extracted_entry_name,
}

-- One or more decimal digits.
abbrev pub IsNumber : Text → Type 0
IsNumber s = (s ≢ []) × All (λ a. is_digit a ≡ true) s

all-All : (s : Text) → (all is_digit s ≡ true) ↔ All (λ a. is_digit a ≡ true) s
all-All [] = ground arith
all-All (a ∷ s) = ground (arith, all-All s)

pub numeric_segment_iff : (s : Text) → (numeric_segment s ≡ true) ↔ IsNumber s
unfolding numeric_segment
numeric_segment_iff [] = ground arith
numeric_segment_iff (a ∷ s) = ground (arith, all-All s)

pub IsNumber-Free : (s : Text) → All (λ a. is_digit a ≡ true) s → Free b'/' s
IsNumber-Free [] h = tt
IsNumber-Free (a ∷ s) h = (ground arith, IsNumber-Free s h.1)

abbrev pub png : Text
png = codes ".png"

drop_digits-append : (n : Text) → All (λ a. is_digit a ≡ true) n → drop_digits (n ++ png) ≡ png
unfolding drop_digits
drop_digits-append [] h = refl
drop_digits-append (a ∷ n) h = ground (arith, drop_digits-append n h.1)

drop_digits_split :
    (s : Text) → (n : Text) × All (λ a. is_digit a ≡ true) n × (s ≡ n ++ drop_digits s)
unfolding drop_digits
drop_digits_split [] = ([], tt, refl)
drop_digits_split (a ∷ s) = elim (Bool-cases (is_digit a)) [
  | inl d ↦ let (n, h, e) = drop_digits_split s in (a ∷ n, (d, h), rw d (ap (λ t. a ∷ t) e))
  | inr d ↦ ([], tt, rw d refl)
]

-- <number>.png
abbrev pub IsPng : Text → Type 0
IsPng s = (n : Text) × IsNumber n × (s ≡ n ++ png)

pub numeric_png_iff : (s : Text) → (numeric_png s ≡ true) ↔ IsPng s
unfolding numeric_png
numeric_png_iff s = (to s, from s)
  where
    to : (s : Text) → numeric_png s ≡ true → IsPng s
    to [] h = cc
    to (a ∷ s) h =
        let (n, d, e) = drop_digits_split s in
        (a ∷ n, (cc, (ground arith, d)), ground (arith, text_beq_iff (drop_digits s) png))

    from : (s : Text) → IsPng s → numeric_png s ≡ true
    from s ([], (h, _), e) = absurd (h refl)
    from s (a ∷ n, (h, (d, ds)), e) = rw e (ground (arith, drop_digits-append n ds))

check_dirs_iff : (segs : List Text) → (check_dirs segs ≡ none) ↔ All IsNumber segs
unfolding check_dirs
check_dirs_iff [] = ground arith
check_dirs_iff (seg ∷ segs) = ground (arith, check_dirs_iff segs, numeric_segment_iff seg)

-- <number>/…/<number>, or <number>/…/<number>.png if `is_dir` is false.
abbrev pub AreSegments : Bool → List Text → Type 0
AreSegments true segs = All IsNumber segs
AreSegments false segs = All IsNumber (init_segments segs) × IsPng (last_segment segs)

pub check_segments_iff :
    (is_dir : Bool) (segs : List Text)
    → (check_segments is_dir segs ≡ none) ↔ AreSegments is_dir segs
unfolding check_segments
check_segments_iff true segs = check_dirs_iff segs
check_segments_iff false segs =
    ground (arith, check_dirs_iff (init_segments segs), numeric_png_iff (last_segment segs))

pub IsPng-Free : (s : Text) → IsPng s → Free b'/' s
IsPng-Free s (n, (_, d), e) = rw e (go n d)
  where
    go : (n : Text) → All (λ a. is_digit a ≡ true) n → Free b'/' (n ++ png)
    go [] h = omega arith
    go (a ∷ n) h = (ground arith, go n h.1)

pub AreSegments-Free :
    (is_dir : Bool) (segs : List Text) → AreSegments is_dir segs → All (Free b'/') segs
AreSegments-Free true [] h = tt
AreSegments-Free true (s ∷ segs) h = (IsNumber-Free s h.0.1, AreSegments-Free true segs h.1)
AreSegments-Free false [] h = tt
AreSegments-Free false (s ∷ []) h = (IsPng-Free s h.1, tt)
AreSegments-Free false (s ∷ t ∷ ts) h =
    (IsNumber-Free s h.0.0.1, AreSegments-Free false (t ∷ ts) (h.0.1, h.1))

-- The accepted names: some number of slashes, the segments with one slash between two, and some
-- number of slashes, where a slash at the end makes it a directory.
abbrev pub IsEntryName : Text → Type 0
IsEntryName name =
    (segs : List Text) × (segs ≢ [])
    × AreSegments (has_suffix name (codes "/")) segs
    × (trim b'/' name ≡ join b'/' segs)

AreSegments-first :
    (is_dir : Bool) (segs : List Text)
    → segs ≢ []
    → AreSegments is_dir segs
    → first_is_empty segs ≡ false
AreSegments-first is_dir [] h a = absurd (h refl)
AreSegments-first true ([] ∷ segs) h a = absurd (a.0.0 refl)
AreSegments-first true ((x ∷ s) ∷ segs) h a = refl
AreSegments-first false ([] ∷ []) h (_, ([], (k, _), e)) = absurd (k refl)
AreSegments-first false ([] ∷ []) h (_, (d ∷ n, _, e)) = cc
AreSegments-first false ((x ∷ s) ∷ []) h a = refl
AreSegments-first false ([] ∷ t ∷ ts) h a = absurd (a.0.0.0 refl)
AreSegments-first false ((x ∷ s) ∷ t ∷ ts) h a = refl

-- An entry name is accepted exactly when it is in the grammar.
pub validate-IsEntryName :
    (name : Text) → (validate_extracted_entry_name name ≡ none) ↔ IsEntryName name
unfolding validate_extracted_entry_name
validate-IsEntryName name = (to, from)
  where
    to : validate_extracted_entry_name name ≡ none → IsEntryName name
    to h = elim (Bool-cases (first_is_empty (split b'/' (trim b'/' name)))) [
      | inl e ↦ cc
      | inr e ↦ (
        split b'/' (trim b'/' name),
        ground arith,
        (check_segments_iff _ _).0 (ground arith),
        sym (join-split b'/' (trim b'/' name)),
      )
    ]

    from : IsEntryName name → validate_extracted_entry_name name ≡ none
    from (segs, h, a, e) =
        rw (e, split-join b'/' segs h (AreSegments-Free _ segs a), AreSegments-first _ segs h a)
          ((check_segments_iff _ segs).1 a)
