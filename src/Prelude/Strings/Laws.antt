-- ===== src/Prelude/Strings/Laws.antt =====
-- Laws of splitting, joining and trimming texts.
use Prim.Native.Nat.{ℕ}
use mathlib.Core.Path.{◌≡◌, refl, ap, ◌∙◌}
use mathlib.Core.Logic.{◌≢◌}
use mathlib.Core.Bool.{true}
use mathlib.Core.List.{List, [], ◌∷◌, ◌++◌, append_assoc}
use native.Mathlib.Omega.{arith}
use tileserve_go.Prelude.Equality.{Text, nat_eq}
use tileserve_go.Prelude.Lists.{All}
use tileserve_go.Prelude.Strings.{has_prefix, split, join, cons_head}

-- No code point of the text is `c`.
abbrev pub Free : ℕ → Text → Type 0
Free c [] = Unit
Free c (a ∷ s) = (a ≢ c) × Free c s

join-cons_head : (c a : ℕ) (ss : List Text) → join c (cons_head a ss) ≡ a ∷ join c ss
unfolding join
join-cons_head c a [] = refl
join-cons_head c a (s ∷ []) = refl
join-cons_head c a (s ∷ t ∷ ts) = refl

pub split-ne-nil : (c : ℕ) (s : Text) → split c s ≢ []
unfolding split
split-ne-nil c [] = cc
split-ne-nil c (a ∷ s) = ground (arith, split-ne-nil c s)

join_nil-cons : (c : ℕ) (ss : List Text) → ss ≢ [] → join c ([] ∷ ss) ≡ c ∷ join c ss
unfolding join
join_nil-cons c [] h = absurd (h refl)
join_nil-cons c (s ∷ ss) h = refl

-- Joining what was split gives the text back.
pub join-split : (c : ℕ) (s : Text) → join c (split c s) ≡ s
unfolding split
join-split c [] = unfold join in refl
join-split c (a ∷ s) = ground (
  arith,
  join-split c s,
  join_nil-cons c (split c s) (split-ne-nil c s),
  join-cons_head c a (split c s),
)

cons_head-Free :
    (c a : ℕ) (ss : List Text) → a ≢ c → All (Free c) ss → All (Free c) (cons_head a ss)
cons_head-Free c a [] h f = ((h, tt), tt)
cons_head-Free c a (s ∷ ss) h f = ((h, f.0), f.1)

-- The pieces of a split hold no separator.
pub split-Free : (c : ℕ) (s : Text) → All (Free c) (split c s)
unfolding split
split-Free c [] = (tt, tt)
split-Free c (a ∷ s) =
    ground (arith, split-Free c s, λ (h : a ≢ c). cons_head-Free c a (split c s) h (split-Free c s))

-- A text without the separator is one piece.
split_of_Free : (c : ℕ) (s : Text) → Free c s → split c s ≡ s ∷ []
unfolding split
split_of_Free c [] h = refl
split_of_Free c (a ∷ s) (p, h) = ground (arith, split_of_Free c s h)

-- Splitting at a separator that follows a piece.
pub split-append : (c : ℕ) (s t : Text) → Free c s → split c (s ++ c ∷ t) ≡ s ∷ split c t
unfolding split
split-append c [] t h = ground arith
split-append c (a ∷ s) t (p, h) = ground (arith, split-append c s t h)

-- Splitting what was joined gives the pieces back.
pub split-join : (c : ℕ) (ss : List Text) → ss ≢ [] → All (Free c) ss → split c (join c ss) ≡ ss
unfolding join
split-join c [] h f = absurd (h refl)
split-join c (s ∷ []) h f = split_of_Free c s f.0
split-join c (s ∷ t ∷ ts) h f =
    split-append c s (join c (t ∷ ts)) f.0 ∙ ap (λ ps. s ∷ ps) (split-join c (t ∷ ts) (λ e. cc) f.1)

cons_head-append :
    (a : ℕ) (ss ts : List Text) → ss ≢ [] → cons_head a (ss ++ ts) ≡ cons_head a ss ++ ts
cons_head-append a [] ts h = absurd (h refl)
cons_head-append a (s ∷ ss) ts h = refl

-- The pieces of two texts with a separator between them.
pub split-append_split : (c : ℕ) (s t : Text) → split c (s ++ c ∷ t) ≡ split c s ++ split c t
unfolding split
split-append_split c [] t = ground arith
split-append_split c (a ∷ s) t =
    ground (
      arith,
      split-append_split c s t,
      cons_head-append a (split c s) (split c t) (split-ne-nil c s),
    )

pub join-append :
    (c : ℕ) (ss ts : List Text) → ss ≢ [] → ts ≢ [] → join c (ss ++ ts) ≡ join c ss ++ c ∷ join c ts
unfolding join
join-append c [] ts h k = absurd (h refl)
join-append c (s ∷ []) [] h k = absurd (k refl)
join-append c (s ∷ []) (t ∷ ts) h k = refl
join-append c (s ∷ r ∷ ss) ts h k = rw (join-append c (r ∷ ss) ts (λ e. cc) k, append_assoc) refl

pub has_prefix-append : (s t : Text) → has_prefix (s ++ t) s ≡ true
unfolding has_prefix
has_prefix-append [] [] = refl
has_prefix-append [] (b ∷ t) = refl
has_prefix-append (a ∷ s) t = ground (arith, has_prefix-append s t)
