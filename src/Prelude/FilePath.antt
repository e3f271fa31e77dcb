-- ===== src/Prelude/FilePath.antt =====
-- Go's path/filepath on Unix: Clean and the two-element Join, which are purely lexical.
use Prim.Native.Nat.{ℕ}
use mathlib.Core.Path.{◌≡◌, refl, sym, ◌∙◌, ap, ◌≡⟨◌⟩◌, ◌∎}
use mathlib.Core.Logic.{◌≢◌}
use mathlib.Core.Bool.{Bool, true, false, ◌||◌}
use mathlib.Core.List.{
  List, [], ◌∷◌, ◌++◌, reverse, reverse-cons, reverse-append, reverse-reverse, append_assoc,
}
use native.Mathlib.Omega.{arith}
use tileserve_go.Prelude.Tests.{if◌then◌else◌}
use tileserve_go.Prelude.Equality.{Text, codes, ◌==◌, nat_eq, text_eq, text_beq_iff}
use tileserve_go.Prelude.Lists.{All}
use tileserve_go.Prelude.Strings.{has_prefix, split, join}
use tileserve_go.Prelude.Strings.Laws.{Free, split-append_split, split-join, join-append}

-- One segment ".." against the segments kept so far, last first.
abbrev up : Bool → List Text → List Text
up true [] = []
up false [] = codes ".." ∷ []
up rooted (top ∷ rest) = if top == codes ".." then codes ".." ∷ top ∷ rest else rest

clean_step : Bool → List Text → Text → List Text
clean_step rooted stack seg =
    if seg == [] || seg == codes "."
    then stack
    else if seg == codes ".."
    then up rooted stack
    else seg ∷ stack

clean_from : Bool → List Text → List Text → List Text
unfolding clean_step
clean_from rooted stack [] = stack
clean_from rooted stack (seg ∷ segs) = clean_from rooted (clean_step rooted stack seg) segs

finish : Bool → List Text → Text
finish true segs = b'/' ∷ join b'/' segs
finish false [] = codes "."
finish false (s ∷ ss) = join b'/' (s ∷ ss)

abbrev is_abs : Text → Bool
is_abs path = has_prefix path (codes "/")

-- filepath.Clean
unfoldable pub clean : Text → Text
unfolding clean_from finish
clean path = finish (is_abs path) (reverse (clean_from (is_abs path) [] (split b'/' path)))

abbrev keep_slash : ℕ → Text → Text
keep_slash c [] = if c == b'/' then c ∷ [] else []
keep_slash c (d ∷ s) = c ∷ d ∷ s

-- filepath.Join(dir, name)
unfoldable pub join_path : Text → Text → Text
unfolding clean
join_path [] [] = []
join_path [] (b ∷ name) = clean (b ∷ name)
join_path (a ∷ dir) name = clean (a ∷ dir ++ b'/' ∷ name)

-- path[:i+1] for the last slash at i
unfoldable pub up_to_last_slash : Text → Text
up_to_last_slash [] = []
up_to_last_slash (c ∷ s) = keep_slash c (up_to_last_slash s)

-- filepath.Dir
unfoldable pub dir_of : Text → Text
unfolding up_to_last_slash clean
dir_of path = clean (up_to_last_slash path)

-- A segment that Clean keeps as it is.
abbrev pub IsPlain : Text → Type 0
IsPlain seg = (seg ≢ []) × (seg ≢ codes ".") × (seg ≢ codes "..") × Free b'/' seg

-- A cleaned directory other than "." and "/".
abbrev pub IsDirectory : Text → Type 0
IsDirectory dir = (clean dir ≡ dir) × (dir ≢ codes ".") × (dir ≢ codes "/")

clean_from-append :
    (rooted : Bool) (stack xs ys : List Text)
    → clean_from rooted stack (xs ++ ys) ≡ clean_from rooted (clean_from rooted stack xs) ys
unfolding clean_from
clean_from-append rooted stack [] ys = refl
clean_from-append rooted stack (x ∷ xs) ys =
    clean_from-append rooted (clean_step rooted stack x) xs ys

clean_step_of_IsPlain :
    (rooted : Bool) (stack : List Text) (seg : Text)
    → IsPlain seg
    → clean_step rooted stack seg ≡ seg ∷ stack
unfolding clean_step
clean_step_of_IsPlain rooted stack seg h =
    ground (arith, text_beq_iff seg [], text_beq_iff seg (codes "."), text_beq_iff seg (codes ".."))

clean_from-cons :
    (rooted : Bool) (stack : List Text) (s : Text) (segs : List Text)
    → clean_from rooted stack (s ∷ segs) ≡ clean_from rooted (clean_step rooted stack s) segs
unfolding clean_from
clean_from-cons rooted stack s segs = refl

clean_from_of_IsPlain :
    (rooted : Bool) (stack segs : List Text)
    → All IsPlain segs
    → clean_from rooted stack segs ≡ reverse segs ++ stack
clean_from_of_IsPlain rooted stack [] h = unfold clean_from in refl
clean_from_of_IsPlain rooted stack (s ∷ segs) h =
    clean_from rooted stack (s ∷ segs)
    ≡⟨ clean_from-cons rooted stack s segs ⟩ clean_from rooted (clean_step rooted stack s) segs
    ≡⟨ ap (λ st. clean_from rooted st segs) (clean_step_of_IsPlain rooted stack s h.0) ⟩
      clean_from rooted (s ∷ stack) segs
    ≡⟨ clean_from_of_IsPlain rooted (s ∷ stack) segs h.1 ⟩ reverse segs ++ s ∷ stack
    ≡⟨ (simp (reverse-cons, append_assoc)) ⟩ reverse (s ∷ segs) ++ stack ∎

Free-All : (segs : List Text) → All IsPlain segs → All (Free b'/') segs
Free-All [] h = tt
Free-All (s ∷ segs) h = (h.0.3, Free-All segs h.1)

finish-append :
    (rooted : Bool) (ss ts : List Text)
    → ss ≢ []
    → ts ≢ []
    → finish rooted (ss ++ ts) ≡ finish rooted ss ++ b'/' ∷ join b'/' ts
unfolding finish
finish-append rooted [] ts h k = absurd (h refl)
finish-append true (s ∷ ss) ts h k = ap (λ t. b'/' ∷ t) (join-append b'/' (s ∷ ss) ts h k)
finish-append false (s ∷ ss) ts h k = join-append b'/' (s ∷ ss) ts h k

reverse-ne-nil : (ss : List Text) → ss ≢ [] → reverse ss ≢ []
reverse-ne-nil ss h e = h (sym (reverse-reverse ss) ∙ ap reverse e)

finish_nil : (rooted : Bool) → (finish rooted [] ≢ codes "/") → finish rooted [] ≡ codes "."
unfolding finish join
finish_nil true h = absurd (h refl)
finish_nil false h = refl

-- A directory other than "." and "/" has a segment.
kept-ne-nil : (dir : Text) → IsDirectory dir → clean_from (is_abs dir) [] (split b'/' dir) ≢ []
unfolding clean
kept-ne-nil dir h e =
    let same : dir ≡ finish (is_abs dir) [] =
      sym h.0 ∙ ap (λ st. finish (is_abs dir) (reverse st)) e in
    h.1 (same ∙ finish_nil (is_abs dir) (λ f. h.2 (same ∙ f)))

is_abs-append : (a : ℕ) (dir t : Text) → is_abs (a ∷ dir ++ t) ≡ is_abs (a ∷ dir)
unfolding has_prefix
is_abs-append a [] [] = refl
is_abs-append a [] (b ∷ t) = refl
is_abs-append a (c ∷ dir) t = refl

clean_append_of_IsPlain :
    (a : ℕ) (dir : Text) (segs : List Text)
    → IsDirectory (a ∷ dir)
    → segs ≢ []
    → All IsPlain segs
    → clean (a ∷ dir ++ b'/' ∷ join b'/' segs) ≡ a ∷ dir ++ b'/' ∷ join b'/' segs
unfolding clean
clean_append_of_IsPlain a dir segs h n p =
    let r = is_abs (a ∷ dir) in
    let kept = clean_from r [] (split b'/' (a ∷ dir)) in
    clean (a ∷ dir ++ b'/' ∷ join b'/' segs)
    ≡⟨ (rw
        (
          is_abs-append a dir (b'/' ∷ join b'/' segs),
          split-append_split b'/' (a ∷ dir),
          split-join b'/' segs n (Free-All segs p),
          clean_from-append,
          clean_from_of_IsPlain r kept segs p,
          reverse-append,
          reverse-reverse,
        )
        refl) ⟩
      finish r (reverse kept ++ segs)
    ≡⟨ finish-append r (reverse kept) segs (reverse-ne-nil kept (kept-ne-nil (a ∷ dir) h)) n ⟩
      clean (a ∷ dir) ++ b'/' ∷ join b'/' segs
    ≡⟨ ap (λ d. d ++ b'/' ∷ join b'/' segs) h.0 ⟩ a ∷ dir ++ b'/' ∷ join b'/' segs ∎

pub clean_below :
    (dir : Text) (segs : List Text)
    → IsDirectory dir
    → segs ≢ []
    → All IsPlain segs
    → clean (dir ++ b'/' ∷ join b'/' segs) ≡ dir ++ b'/' ∷ join b'/' segs
clean_below [] segs h n p = absurd (h.1 (sym h.0 ∙ (unfold clean split has_prefix in refl)))
clean_below (a ∷ dir) segs h n p = clean_append_of_IsPlain a dir segs h n p

join_path-cons :
    (a : ℕ) (dir name : Text) → join_path (a ∷ dir) name ≡ clean (a ∷ dir ++ b'/' ∷ name)
unfolding join_path
join_path-cons a dir name = refl

-- Joining a directory and plain segments only appends them.
pub join_path_of_IsPlain :
    (dir : Text) (segs : List Text)
    → IsDirectory dir
    → segs ≢ []
    → All IsPlain segs
    → join_path dir (join b'/' segs) ≡ dir ++ b'/' ∷ join b'/' segs
join_path_of_IsPlain [] segs h n p =
    absurd (h.1 (sym h.0 ∙ (unfold clean split has_prefix in refl)))
join_path_of_IsPlain (a ∷ dir) segs h n p =
    join_path-cons a dir (join b'/' segs) ∙ clean_append_of_IsPlain a dir segs h n p

up_to_last_slash_of_Free : (s : Text) → Free b'/' s → up_to_last_slash s ≡ []
unfolding up_to_last_slash
up_to_last_slash_of_Free [] h = refl
up_to_last_slash_of_Free (c ∷ s) h = ground (arith, up_to_last_slash_of_Free s h.1)

up_to_last_slash-append :
    (q s : Text) → Free b'/' s → up_to_last_slash (q ++ b'/' ∷ s) ≡ q ++ b'/' ∷ []
unfolding up_to_last_slash
up_to_last_slash-append [] s h = ground (arith, up_to_last_slash_of_Free s h)
up_to_last_slash-append (c ∷ []) s h = ground (arith, up_to_last_slash-append [] s h)
up_to_last_slash-append (c ∷ d ∷ q) s h = rw (up_to_last_slash-append (d ∷ q) s h) refl

clean_slash : (c : ℕ) (q : Text) → clean (c ∷ q ++ b'/' ∷ []) ≡ clean (c ∷ q)
unfolding clean split clean_step
clean_slash c q =
    rw (is_abs-append c q (b'/' ∷ []), split-append_split b'/' (c ∷ q) [], clean_from-append) refl

-- The directory of a path that ends in one more segment.
pub dir_of-append : (q s : Text) → q ≢ [] → Free b'/' s → dir_of (q ++ b'/' ∷ s) ≡ clean q
unfolding dir_of
dir_of-append [] s n h = absurd (n refl)
dir_of-append (c ∷ q) s n h = ap clean (up_to_last_slash-append (c ∷ q) s h) ∙ clean_slash c q

IsDirectory-ne-nil : (dir : Text) → IsDirectory dir → dir ≢ []
unfolding clean split has_prefix
IsDirectory-ne-nil [] d e = d.1 (sym d.0)
IsDirectory-ne-nil (c ∷ s) d e = cc

-- The directory of a target in the destination itself, and of one further below it.
pub dir_of_child : (dir s : Text) → IsDirectory dir → Free b'/' s → dir_of (dir ++ b'/' ∷ s) ≡ dir
dir_of_child dir s d h = dir_of-append dir s (IsDirectory-ne-nil dir d) h ∙ d.0
