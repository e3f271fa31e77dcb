-- ===== src/Prelude/Lists.antt =====
-- Lists measured by native numbers, predicates on all members, filters by a Boolean test.
use Prim.Native.Nat.{ℕ, zero, suc, ◌+◌, ◌-◌}
use mathlib.Core.Path.{◌≡◌, refl, sym, subst, ap, ◌∙◌}
use mathlib.Core.Logic.{◌⊎◌, ◌↔◌, inl, inr}
use mathlib.Core.Bool.{Bool, true, false, ◌&&◌, ◌||◌}
use mathlib.Core.List.{List, [], ◌∷◌, ◌++◌}
use native.Mathlib.Omega.{arith}
use tileserve_go.Prelude.Tests.{if◌then◌else◌, Bool-cases}

module _ {ℓ} {A : Type ℓ} where
  abbrev pub length : List A → ℕ
  length [] = 0
  length (x ∷ xs) = suc (length xs)

  abbrev pub drop : ℕ → List A → List A
  drop zero xs = xs
  drop (suc n) [] = []
  drop (suc n) (x ∷ xs) = drop n xs

  abbrev pub take : ℕ → List A → List A
  take zero xs = []
  take (suc n) [] = []
  take (suc n) (x ∷ xs) = x ∷ take n xs

  abbrev pub all : (A → Bool) → List A → Bool
  all p [] = true
  all p (x ∷ xs) = p x && all p xs

  abbrev pub any : (A → Bool) → List A → Bool
  any p [] = false
  any p (x ∷ xs) = p x || any p xs

  abbrev pub keep_if : (A → Bool) → List A → List A
  keep_if p [] = []
  keep_if p (x ∷ xs) = if p x then x ∷ keep_if p xs else keep_if p xs

  pub length-append : (xs ys : List A) → length (xs ++ ys) ≡ length xs + length ys
  length-append [] ys = omega arith
  length-append (x ∷ xs) ys = omega (arith, length-append xs ys)

  pub length-drop : (n : ℕ) (xs : List A) → length (drop n xs) ≡ length xs - n
  length-drop zero xs = omega arith
  length-drop (suc n) [] = omega arith
  length-drop (suc n) (x ∷ xs) = omega (arith, length-drop n xs)

module _ {ℓ κ} {A : Type ℓ} (P : A → Type κ) where
  abbrev pub All : List A → Type κ
  All [] = Unit
  All (x ∷ xs) = P x × All xs

-- Membership as a type by recursion, which tactics read.
abbrev pub In : {A : Type 0} → A → List A → Type 0
In a [] = ⊥
In a (x ∷ xs) = (x ≡ a) ⊎ In a xs

pub In-append : {A : Type 0} (a : A) (xs ys : List A) → In a (xs ++ ys) ↔ (In a xs ⊎ In a ys)
In-append a [] ys = ground arith
In-append a (x ∷ xs) ys = ground (arith, In-append a xs ys)

pub either_iff {ℓ κ μ ν} :
    {A : Type ℓ} {B : Type κ} {C : Type μ} {D : Type ν} → A ↔ B → C ↔ D → (A ⊎ C) ↔ (B ⊎ D)
either_iff p q = ground (arith, p, q)

pub iff_trans {ℓ κ ν} : {A : Type ℓ} {B : Type κ} {C : Type ν} → A ↔ B → B ↔ C → A ↔ C
iff_trans p q = (λ a. q.0 (p.0 a), λ c. p.1 (q.1 c))

pub iff_sym {ℓ κ} : {A : Type ℓ} {B : Type κ} → A ↔ B → B ↔ A
iff_sym p = (p.1, p.0)

-- Some member has the property.
module _ {A : Type 0} (P : A → Type 0) where
  abbrev pub Some : List A → Type 0
  Some xs = (x : A) × In x xs × P x

  pub Some-cons : (a : A) (xs : List A) → (P a ⊎ Some xs) ↔ Some (a ∷ xs)
  Some-cons a xs = (
    λ s. elim s [ inl p ↦ (a, inl refl, p) | inr (x, i, p) ↦ (x, inr i, p) ],
    λ s. let (x, i, p) = s in elim i [ inl e ↦ inl (subst P (sym e) p) | inr j ↦ inr (x, j, p) ],
  )

pub and_either_iff {ℓ} : {A B K : Type ℓ} → (A × K) ⊎ (B × K) ↔ ((A ⊎ B) × K)
and_either_iff = ground arith

pub and_iff {ℓ κ μ} : {A : Type ℓ} {B : Type κ} {K : Type μ} → A ↔ B → (A × K) ↔ (B × K)
and_iff p = ground (arith, p)

pub id_iff {ℓ} : (A : Type ℓ) → A ↔ A
id_iff A = (λ a. a, λ a. a)

pub true-false : true ≡ false → ⊥
true-false h = ground arith

stay_iff :
    {A : Type 0} (p : A → Bool) (a x : A) (l : List A)
    → p x ≡ true
    → In a (keep_if p l) ↔ (In a l × (p a ≡ true))
    → ((x ≡ a) ⊎ In a (keep_if p l)) ↔ (((x ≡ a) ⊎ In a l) × (p a ≡ true))
stay_iff p a x l h k = (
  λ s. elim s [ inl e ↦ (inl e, subst (λ y. p y ≡ true) e h) | inr i ↦ (inr (k.0 i).0, (k.0 i).1) ],
  λ s. elim s.0 [ inl e ↦ inl e | inr i ↦ inr (k.1 (i, s.1)) ],
)

go_iff :
    {A : Type 0} (p : A → Bool) (a x : A) (l : List A)
    → p x ≡ false
    → In a (keep_if p l) ↔ (In a l × (p a ≡ true))
    → In a (keep_if p l) ↔ (((x ≡ a) ⊎ In a l) × (p a ≡ true))
go_iff p a x l h k = (
  λ i. (inr (k.0 i).0, (k.0 i).1),
  λ s. elim s.0 [ inl e ↦ absurd (true-false (sym s.1 ∙ ap p (sym e) ∙ h)) | inr i ↦ k.1 (i, s.1) ],
)

pub In-keep_if :
    {A : Type 0} (p : A → Bool) (a : A) (l : List A) → In a (keep_if p l) ↔ (In a l × (p a ≡ true))
In-keep_if p a [] = ground arith
In-keep_if p a (x ∷ l) = elim (Bool-cases (p x)) [
  | inl stays ↦ rw stays (stay_iff p a x l stays (In-keep_if p a l))
  | inr goes ↦ rw goes (go_iff p a x l goes (In-keep_if p a l))
]
