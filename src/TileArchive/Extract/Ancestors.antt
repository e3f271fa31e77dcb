-- ===== src/TileArchive/Extract/Ancestors.antt =====
-- The directories that os.MkdirAll visits for a path below the destination.
use tileserve_go.Prelude.{
  ℕ, ◌≡◌, refl, sym, ◌∙◌, ap, ◌≢◌, Bool, true, false, List, [], ◌∷◌, ◌++◌, Text, All, arith,
  append_assoc, append-nil, nat_eq,
}
use tileserve_go.Prelude.Strings.{join}
use tileserve_go.Prelude.Strings.Laws.{Free}
use tileserve_go.Prelude.FilePath.{dir_of, IsDirectory, dir_of_child, dir_of-append, clean_below}
use tileserve_go.Disk.{ancestors_from}
use tileserve_go.TileArchive.Target.{AreSegments-IsPlain}
use tileserve_go.TileArchive.Names.{init_segments, last_segment}
use tileserve_go.TileArchive.Names.Grammar.{IsNumber, AreSegments, IsNumber-Free, AreSegments-Free}

All-append {ℓ κ} :
    {A : Type ℓ} (P : A → Type κ) (xs ys : List A) → All P xs → All P ys → All P (xs ++ ys)
All-append P [] ys hx hy = hy
All-append P (x ∷ xs) ys hx hy = (hx.0, All-append P xs ys hx.1 hy)

ancestors_of_Free : (acc s : Text) → Free b'/' s → ancestors_from acc s ≡ (acc ++ s) ∷ []
unfolding ancestors_from
ancestors_of_Free acc [] h = rw append-nil
ancestors_of_Free acc (c ∷ s) h =
    ground (arith, ancestors_of_Free (acc ++ c ∷ []) s h.1, append_assoc acc (c ∷ []) s)

ancestors-append :
    (acc s t : Text)
    → ancestors_from acc (s ++ b'/' ∷ t)
      ≡ ancestors_from acc s ++ ancestors_from (acc ++ (s ++ b'/' ∷ [])) t
unfolding ancestors_from
ancestors-append acc [] t = refl
ancestors-append acc (c ∷ s) t =
    ground (arith, ancestors-append (acc ++ c ∷ []) s t, append_assoc acc (c ∷ []) (s ++ b'/' ∷ []))

-- The segments, each followed by a slash.
slashed : List Text → Text
slashed [] = []
slashed (s ∷ ss) = s ++ b'/' ∷ slashed ss

slashed-snoc :
    (pre : List Text) (s : Text) → slashed pre ++ (s ++ b'/' ∷ []) ≡ slashed (pre ++ s ∷ [])
unfolding slashed
slashed-snoc [] s = refl
slashed-snoc (p ∷ pre) s =
    append_assoc p (b'/' ∷ slashed pre) (s ++ b'/' ∷ [])
    ∙ ap (λ t. p ++ b'/' ∷ t) (slashed-snoc pre s)

join-cons :
    (p : Text) (pre : List Text) (s : Text)
    → join b'/' (p ∷ pre ++ s ∷ []) ≡ p ++ b'/' ∷ join b'/' (pre ++ s ∷ [])
unfolding join
join-cons p [] s = refl
join-cons p (q ∷ pre) s = refl

slashed-join : (pre : List Text) (s : Text) → slashed pre ++ s ≡ join b'/' (pre ++ s ∷ [])
unfolding slashed
slashed-join [] s = unfold join in refl
slashed-join (p ∷ pre) s =
    append_assoc p (b'/' ∷ slashed pre) s
    ∙ ap (λ t. p ++ b'/' ∷ t) (slashed-join pre s)
    ∙ sym (join-cons p pre s)

AreSegments-snoc :
    (is_dir : Bool) (pre : List Text) (s : Text)
    → All IsNumber pre
    → AreSegments is_dir (s ∷ [])
    → AreSegments is_dir (pre ++ s ∷ [])
AreSegments-snoc true pre s h a = All-append IsNumber pre (s ∷ []) h a
AreSegments-snoc false [] s h a = a
AreSegments-snoc false (p ∷ []) s h a = ((h.0, tt), a.1)
AreSegments-snoc false (p ∷ q ∷ pre) s h a =
    let rest = AreSegments-snoc false (q ∷ pre) s h.1 a in ((h.0, rest.0), rest.1)

snoc-ne-nil : (pre : List Text) (s : Text) → pre ++ s ∷ [] ≢ []
snoc-ne-nil [] s = cc
snoc-ne-nil (p ∷ pre) s = cc

AreSegments-tail :
    (is_dir : Bool) (s t : Text) (ts : List Text)
    → AreSegments is_dir (s ∷ t ∷ ts)
    → IsNumber s × AreSegments is_dir (t ∷ ts)
AreSegments-tail true s t ts a = (a.0, a.1)
AreSegments-tail false s t ts a = (a.0.0, (a.0.1, a.1))

-- What holds of every path with some of the segments holds of the ancestors below `dest`.
module _ (dest : Text) (P : Text → Type 0) (is_dir : Bool)
    (dirs : (pre : List Text) → pre ≢ [] → All IsNumber pre → P (dest ++ b'/' ∷ join b'/' pre))
    (leaf : (segs : List Text)
      → segs ≢ []
      → AreSegments is_dir segs
      → P (dest ++ b'/' ∷ join b'/' segs)) where
  All-ancestors_from :
      (pre segs : List Text)
      → All IsNumber pre
      → segs ≢ []
      → AreSegments is_dir segs
      → All P (ancestors_from (dest ++ b'/' ∷ slashed pre) (join b'/' segs))
  unfolding ancestors_from join
  All-ancestors_from pre [] h n a = absurd (n refl)
  All-ancestors_from pre (s ∷ []) h n a =
      rw
        (
          ancestors_of_Free (dest ++ b'/' ∷ slashed pre) s (AreSegments-Free is_dir (s ∷ []) a).0,
          append_assoc dest (b'/' ∷ slashed pre) s,
          slashed-join pre s,
        )
        (leaf (pre ++ s ∷ []) (snoc-ne-nil pre s) (AreSegments-snoc is_dir pre s h a), tt)
  All-ancestors_from pre (s ∷ t ∷ ts) h n a =
      let (num, rest) = AreSegments-tail is_dir s t ts a in
      let snoc = All-append IsNumber pre (s ∷ []) h (num, tt) in
      rw
        (
          ancestors-append (dest ++ b'/' ∷ slashed pre) s (join b'/' (t ∷ ts)),
          ancestors_of_Free (dest ++ b'/' ∷ slashed pre) s (IsNumber-Free s num.1),
          append_assoc dest (b'/' ∷ slashed pre) s,
          append_assoc dest (b'/' ∷ slashed pre) (s ++ b'/' ∷ []),
          slashed-join pre s,
          slashed-snoc pre s,
        )
        (
          dirs (pre ++ s ∷ []) (snoc-ne-nil pre s) snoc,
          All-ancestors_from (pre ++ s ∷ []) (t ∷ ts) snoc (cc) rest,
        )

  -- The ancestors of a path below `dest` are those of `dest` and paths of a pyramid.
  pub All-ancestors :
      (segs : List Text)
      → All P (ancestors_from [] dest)
      → segs ≢ []
      → AreSegments is_dir segs
      → All P (ancestors_from [] (dest ++ b'/' ∷ join b'/' segs))
  unfolding slashed
  All-ancestors segs above n a =
      rw (ancestors-append [] dest (join b'/' segs))
        (All-append P _ _ above (All-ancestors_from [] segs tt n a))

append-ne-nil : (xs : Text) (y : ℕ) (ys : Text) → xs ++ y ∷ ys ≢ []
append-ne-nil [] y ys = cc
append-ne-nil (x ∷ xs) y ys = cc

-- The directory of a target: `dest`, or the numbered directories above the last segment.
join-init :
    (s t : Text) (ts : List Text)
    → join b'/' (s ∷ t ∷ ts)
      ≡ join b'/' (init_segments (s ∷ t ∷ ts)) ++ b'/' ∷ last_segment (s ∷ t ∷ ts)
unfolding join
join-init s t [] = refl
join-init s t (u ∷ ts) =
    ap (λ r. s ++ b'/' ∷ r) (join-init t u ts)
    ∙ sym (append_assoc s (b'/' ∷ join b'/' (init_segments (t ∷ u ∷ ts))) _)

AreSegments-init :
    (is_dir : Bool) (segs : List Text) → AreSegments is_dir segs → All IsNumber (init_segments segs)
AreSegments-init false segs a = a.0
AreSegments-init true [] a = tt
AreSegments-init true (s ∷ []) a = tt
AreSegments-init true (s ∷ t ∷ ts) a = (a.0, AreSegments-init true (t ∷ ts) a.1)

last_segment-Free : (segs : List Text) → All (Free b'/') segs → Free b'/' (last_segment segs)
last_segment-Free [] h = tt
last_segment-Free (s ∷ []) h = h.0
last_segment-Free (s ∷ t ∷ ts) h = last_segment-Free (t ∷ ts) h.1

pub dir_of_below :
    (dest s t : Text) (ts : List Text) (is_dir : Bool)
    → IsDirectory dest
    → AreSegments is_dir (s ∷ t ∷ ts)
    → dir_of (dest ++ b'/' ∷ join b'/' (s ∷ t ∷ ts))
      ≡ dest ++ b'/' ∷ join b'/' (init_segments (s ∷ t ∷ ts))
dir_of_below dest s t ts is_dir d a =
    let above = init_segments (s ∷ t ∷ ts) in
    let last = last_segment (s ∷ t ∷ ts) in
    ap dir_of (
      ap (λ r. dest ++ b'/' ∷ r) (join-init s t ts)
      ∙ sym (append_assoc dest (b'/' ∷ join b'/' above) (b'/' ∷ last)))
    ∙ dir_of-append (dest ++ b'/' ∷ join b'/' above) last (append-ne-nil dest _ _)
        (last_segment-Free (s ∷ t ∷ ts) (AreSegments-Free is_dir (s ∷ t ∷ ts) a))
    ∙ clean_below dest above d (cc)
        (AreSegments-IsPlain true above (AreSegments-init is_dir (s ∷ t ∷ ts) a))

-- The ancestors that the directory of a target has.
pub All-ancestors_of_dir :
    (dest : Text) (P : Text → Type 0) (is_dir : Bool) (segs : List Text)
    → IsDirectory dest
    → ((pre : List Text) → pre ≢ [] → All IsNumber pre → P (dest ++ b'/' ∷ join b'/' pre))
    → All P (ancestors_from [] dest)
    → segs ≢ []
    → AreSegments is_dir segs
    → All P (ancestors_from [] (dir_of (dest ++ b'/' ∷ join b'/' segs)))
unfolding join
All-ancestors_of_dir dest P is_dir [] d dirs above n a = absurd (n refl)
All-ancestors_of_dir dest P is_dir (s ∷ []) d dirs above n a =
    rw (dir_of_child dest s d (AreSegments-Free is_dir (s ∷ []) a).0) above
All-ancestors_of_dir dest P is_dir (s ∷ t ∷ ts) d dirs above n a =
    rw (dir_of_below dest s t ts is_dir d a) (
      All-ancestors dest P true dirs dirs (init_segments (s ∷ t ∷ ts)) above (cc)
        (AreSegments-init is_dir (s ∷ t ∷ ts) a))
