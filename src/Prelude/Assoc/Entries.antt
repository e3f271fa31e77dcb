-- ===== src/Prelude/Assoc/Entries.antt =====
-- A Go map under `range`: each key once, with its value.
use mathlib.Core.Path.{◌≡◌, refl, sym, ap, ◌∙◌}
use mathlib.Core.Bool.{false}
use mathlib.Core.Option.{none, some}
use mathlib.Core.Logic.{inl, inr}
use mathlib.Core.List.{List, [], ◌∷◌}
use native.Mathlib.Omega.{arith}
use tileserve_go.Prelude.Tests.{Bool-cases, none-some}
use tileserve_go.Prelude.Equality.{Eq, ◌==◌, eq_refl, eq_iff}
use tileserve_go.Prelude.Assoc.{lookup, insert, remove, lookup-insert, lookup-remove}

module _ {K V : Type 0} ⦃e : Eq K⦄ where
  -- No key stands twice.
  abbrev pub IsDistinct : List (K × V) → Type 0
  IsDistinct [] = Unit
  IsDistinct ((k, v) ∷ m) = (lookup k m ≡ none) × IsDistinct m

  unfoldable pub entries : List (K × V) → List (K × V)
  unfolding remove
  entries [] = []
  entries ((k, v) ∷ m) = (k, v) ∷ remove k (entries m)

  pub lookup-entries : (j : K) (m : List (K × V)) → lookup j (entries m) ≡ lookup j m
  unfolding lookup entries
  lookup-entries j [] = refl
  lookup-entries j ((k, v) ∷ m) = ground (arith, lookup-remove k j (entries m), lookup-entries j m)

  absent-remove : (k j : K) (m : List (K × V)) → lookup j m ≡ none → lookup j (remove k m) ≡ none
  absent-remove k j m h = ground (arith, lookup-remove k j m)

  IsDistinct-remove : (k : K) (m : List (K × V)) → IsDistinct m → IsDistinct (remove k m)
  unfolding remove
  IsDistinct-remove k [] d = tt
  IsDistinct-remove k ((j, v) ∷ m) d = elim (Bool-cases (j == k)) [
    | inl same ↦ rw same (IsDistinct-remove k m d.1)
    | inr other ↦ rw other (absent-remove k j m d.0, IsDistinct-remove k m d.1)
  ]

  pub IsDistinct-entries : (m : List (K × V)) → IsDistinct (entries m)
  unfolding entries
  IsDistinct-entries [] = tt
  IsDistinct-entries ((k, v) ∷ m) = (
    lookup-remove k k (entries m) ∙ rw (eq_refl k) refl,
    IsDistinct-remove k (entries m) (IsDistinct-entries m),
  )

  -- The pair of a lookup in a list that begins with another key.
  pub lookup_behind :
      (k j : K) (v w : V) (rest : List (K × V))
      → IsDistinct ((k, v) ∷ rest)
      → lookup j rest ≡ some w
      → ((k == j) ≡ false) × (lookup j ((k, v) ∷ rest) ≡ some w)
  unfolding lookup
  lookup_behind k j v w rest d h = elim (Bool-cases (k == j)) [
    | inl same ↦ absurd (none-some (sym d.0 ∙ ap (λ i. lookup i rest) ((eq_iff k j).0 same) ∙ h))
    | inr other ↦ (other, rw other h)
  ]

  pub lookup_front : (k : K) (v : V) (rest : List (K × V)) → lookup k ((k, v) ∷ rest) ≡ some v
  unfolding lookup
  lookup_front k v rest = rw (eq_refl k) refl

  pub lookup_other :
      (k j : K) (v : V) (m : List (K × V)) → (k == j) ≡ false → lookup j (insert k v m) ≡ lookup j m
  lookup_other k j v m h = rw (lookup-insert k j v m, h) refl

  pub lookup_kept :
      (k j : K) (m : List (K × V)) → (k == j) ≡ false → lookup j (remove k m) ≡ lookup j m
  lookup_kept k j m h = rw (lookup-remove k j m, h) refl

  pub lookup_removed : (k : K) (m : List (K × V)) → lookup k (remove k m) ≡ none
  lookup_removed k m = rw (lookup-remove k k m, eq_refl k) refl

  pub lookup_tail :
      (k j : K) (v : V) (rest : List (K × V))
      → (k == j) ≡ false
      → lookup j rest ≡ lookup j ((k, v) ∷ rest)
  unfolding lookup
  lookup_tail k j v rest other = rw other refl
