-- ===== src/Prelude/Strings.antt =====
-- The functions of Go's `strings` package that the program calls, on lists of code points.
pub mod Laws
use Prim.Native.Nat.{ℕ}
use mathlib.Core.Bool.{Bool, true, false, ◌&&◌, ◌||◌}
use mathlib.Core.List.{List, [], ◌∷◌, ◌++◌, reverse}
use tileserve_go.Prelude.Tests.{if◌then◌else◌, leb}
use tileserve_go.Prelude.Equality.{Text, ◌==◌, nat_eq}

-- strings.HasPrefix
unfoldable pub has_prefix : Text → Text → Bool
has_prefix s [] = true
has_prefix [] (b ∷ p) = false
has_prefix (a ∷ s) (b ∷ p) = a == b && has_prefix s p

-- strings.HasSuffix
unfoldable pub has_suffix : Text → Text → Bool
unfolding has_prefix
has_suffix s p = has_prefix (reverse s) (reverse p)

-- strings.Contains
unfoldable pub contains : Text → Text → Bool
unfolding has_prefix
contains [] p = has_prefix [] p
contains (a ∷ s) p = has_prefix (a ∷ s) p || contains s p

-- strings.Trim with a cutset of one code point
unfoldable pub trim_left : ℕ → Text → Text
trim_left c [] = []
trim_left c (a ∷ s) = if a == c then trim_left c s else a ∷ s

abbrev push_unless : ℕ → ℕ → Text → Text
push_unless c a [] = if a == c then [] else a ∷ []
push_unless c a (b ∷ s) = a ∷ b ∷ s

unfoldable pub trim_right : ℕ → Text → Text
trim_right c [] = []
trim_right c (a ∷ s) = push_unless c a (trim_right c s)

unfoldable pub trim : ℕ → Text → Text
unfolding trim_left trim_right
trim c s = trim_right c (trim_left c s)

abbrev pub cons_head : ℕ → List Text → List Text
cons_head a [] = (a ∷ []) ∷ []
cons_head a (s ∷ ss) = (a ∷ s) ∷ ss

-- strings.Split with a separator of one code point: never empty
unfoldable pub split : ℕ → Text → List Text
split c [] = [] ∷ []
split c (a ∷ s) = let rest = split c s in if a == c then [] ∷ rest else cons_head a rest

-- strings.Join with a separator of one code point
unfoldable pub join : ℕ → List Text → Text
join c [] = []
join c (s ∷ []) = s
join c (s ∷ t ∷ ts) = s ++ c ∷ join c (t ∷ ts)

abbrev pub is_digit : ℕ → Bool
is_digit a = leb b'0' a && leb a b'9'
