-- ===== src/Prelude/Sorting.antt =====
-- sort.Slice with a `less` of the caller's. It is unstable in Go: only what holds of every order
-- of equal elements is stated of it.
use mathlib.Core.Path.{◌≡◌, refl, subst}
use mathlib.Core.Bool.{Bool, true, false}
use mathlib.Core.List.{List, [], ◌∷◌, Perm}
use mathlib.Core.List.Perm
use native.Mathlib.Omega.{arith}
use mathlib.Core.Logic.{inl, inr}
use mathlib.Core.Logic.{◌↔◌}
use tileserve_go.Prelude.Lists.{In, iff_trans, either_iff, id_iff}
use tileserve_go.Prelude.Tests.{if◌then◌else◌, Bool-cases}

module _ {A : Type 0} (less : A → A → Bool) where
  place : A → List A → List A
  place x [] = x ∷ []
  place x (y ∷ ys) = let rest = place x ys in if less y x then y ∷ rest else x ∷ y ∷ ys

  unfoldable pub sort_slice : List A → List A
  unfolding place
  sort_slice [] = []
  sort_slice (x ∷ xs) = place x (sort_slice xs)

  -- No element is less than the one before it.
  pub data IsSorted : List A → Type 0 where
    none_left : IsSorted []
    one : (x : A) → IsSorted (x ∷ [])
    more : {x y : A} {l : List A} → less y x ≡ false → IsSorted (y ∷ l) → IsSorted (x ∷ y ∷ l)

  place-perm : (x : A) (ys : List A) → Perm (place x ys) (x ∷ ys)
  unfolding place
  place-perm x [] = Perm.refl _
  place-perm x (y ∷ ys) = elim (Bool-cases (less y x)) [
    | inl later ↦ rw later (Perm.trans (Perm.cons y (place-perm x ys)) (Perm.swap x y ys))
    | inr here ↦ rw here (Perm.refl _)
  ]

  -- The sorted list has the same elements, each as often.
  pub sort_slice-perm : (xs : List A) → Perm (sort_slice xs) xs
  unfolding sort_slice
  sort_slice-perm [] = Perm.refl _
  sort_slice-perm (x ∷ xs) =
      Perm.trans (place-perm x (sort_slice xs)) (Perm.cons x (sort_slice-perm xs))

  module _ (asym : (x y : A) → less x y ≡ true → less y x ≡ false) where
    place-IsSorted : (x : A) (ys : List A) → IsSorted ys → IsSorted (place x ys)
    unfolding place
    place-IsSorted x [] s = one x
    place-IsSorted x (y ∷ []) s = elim (Bool-cases (less y x)) [
      | inl later ↦ rw later (more (asym y x later) (one x))
      | inr here ↦ rw here (more here (one y))
    ]
    place-IsSorted x (y ∷ z ∷ zs) (more h s) = elim (Bool-cases (less y x)) [
      | inr here ↦ rw here (more here (more h s))
      | inl later ↦ elim (Bool-cases (less z x)) [
        | inl last ↦
            rw (later, last) (more h (subst IsSorted (rw last refl) (place-IsSorted x (z ∷ zs) s)))
        | inr between ↦ rw (later, between) (more (asym y x later) (more between s))
      ]
    ]

    pub sort_slice-IsSorted : (xs : List A) → IsSorted (sort_slice xs)
    unfolding sort_slice
    sort_slice-IsSorted [] = none_left
    sort_slice-IsSorted (x ∷ xs) = place-IsSorted x (sort_slice xs) (sort_slice-IsSorted xs)

module _ {A : Type 0} (less : A → A → Bool) (a : A) where
  In-place : (x : A) (ys : List A) → In a (place less x ys) ↔ In a (x ∷ ys)
  unfolding place
  In-place x [] = ground arith
  In-place x (y ∷ ys) = elim (Bool-cases (less y x)) [
    | inl later ↦ rw later (ground (arith, In-place x ys))
    | inr here ↦ rw here (ground arith)
  ]

  -- The sorted list has the same members.
  pub sort_slice-In : (xs : List A) → In a (sort_slice less xs) ↔ In a xs
  unfolding sort_slice
  sort_slice-In [] = ground arith
  sort_slice-In (x ∷ xs) =
      iff_trans (In-place x (sort_slice less xs)) (either_iff (id_iff (x ≡ a)) (sort_slice-In xs))
