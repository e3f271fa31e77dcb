-- ===== src/Webserver/Bounds/Order.antt =====
-- internal/webserver/map_bounds.go: the order of ints under min, max and sort.Ints.
use tileserve_go.Prelude.{
  false, List, [], ◌∷◌, In, ◌≡◌, refl, subst, inl, inr, ◌⊎◌, Bool-cases, arith,
}
use tileserve_go.Prelude.Decimal.{ℤ, pos, negsuc, less, less_asym}
use tileserve_go.Prelude.Sorting.{IsSorted, more}
use tileserve_go.Webserver.Bounds.{lesser, greater, last_of}

pub less_irrefl : (a : ℤ) → less a a ≡ false
less_irrefl (pos a) = ground arith
less_irrefl (negsuc a) = ground arith

-- `b` is at most `a` and `c` at most `b`.
pub less_trans : (a b c : ℤ) → less a b ≡ false → less b c ≡ false → less a c ≡ false
less_trans (pos a) (pos b) (pos c) h k = ground arith
less_trans (pos a) (pos b) (negsuc c) h k = ground arith
less_trans (pos a) (negsuc b) (pos c) h k = ground arith
less_trans (pos a) (negsuc b) (negsuc c) h k = ground arith
less_trans (negsuc a) (pos b) (pos c) h k = ground arith
less_trans (negsuc a) (pos b) (negsuc c) h k = ground arith
less_trans (negsuc a) (negsuc b) (pos c) h k = ground arith
less_trans (negsuc a) (negsuc b) (negsuc c) h k = ground arith

-- min
pub lesser_left : (a b : ℤ) → less a (lesser a b) ≡ false
lesser_left a b = elim (Bool-cases (less b a)) [
  | inl h ↦ rw h (less_asym b a h)
  | inr h ↦ rw h (less_irrefl a)
]

pub lesser_right : (a b : ℤ) → less b (lesser a b) ≡ false
lesser_right a b = elim (Bool-cases (less b a)) [ inl h ↦ rw h (less_irrefl b) | inr h ↦ rw h h ]

pub lesser_either : (a b : ℤ) → (lesser a b ≡ a) ⊎ (lesser a b ≡ b)
lesser_either a b = elim (Bool-cases (less b a)) [
  | inl h ↦ inr (rw h refl)
  | inr h ↦ inl (rw h refl)
]

-- max
pub greater_left : (a b : ℤ) → less (greater a b) a ≡ false
greater_left a b = elim (Bool-cases (less a b)) [
  | inl h ↦ rw h (less_asym a b h)
  | inr h ↦ rw h (less_irrefl a)
]

pub greater_right : (a b : ℤ) → less (greater a b) b ≡ false
greater_right a b = elim (Bool-cases (less a b)) [ inl h ↦ rw h (less_irrefl b) | inr h ↦ rw h h ]

pub greater_either : (a b : ℤ) → (greater a b ≡ a) ⊎ (greater a b ≡ b)
greater_either a b = elim (Bool-cases (less a b)) [
  | inl h ↦ inr (rw h refl)
  | inr h ↦ inl (rw h refl)
]

-- The first of a sorted list is the least.
pub IsSorted-first :
    (z : ℤ) (zs : List ℤ) → IsSorted less (z ∷ zs) → (y : ℤ) → In y (z ∷ zs) → less y z ≡ false
IsSorted-first z [] s y (inl e) = subst (λ w. less w z ≡ false) e (less_irrefl z)
IsSorted-first z [] s y (inr i) = absurd i
IsSorted-first z (w ∷ zs) s y (inl e) = subst (λ v. less v z ≡ false) e (less_irrefl z)
IsSorted-first z (w ∷ zs) (more h s) y (inr i) = less_trans y w z (IsSorted-first w zs s y i) h

pub In-last_of : (z : ℤ) (zs : List ℤ) → In (last_of z zs) (z ∷ zs)
In-last_of z [] = inl refl
In-last_of z (w ∷ zs) = inr (In-last_of w zs)

-- The last of a sorted list is the greatest.
pub IsSorted-last :
    (z : ℤ) (zs : List ℤ)
    → IsSorted less (z ∷ zs)
    → (y : ℤ) → In y (z ∷ zs)
    → less (last_of z zs) y ≡ false
IsSorted-last z [] s y (inl e) = subst (λ w. less z w ≡ false) e (less_irrefl z)
IsSorted-last z [] s y (inr i) = absurd i
IsSorted-last z (w ∷ zs) (more h s) y (inl e) =
    subst (λ v. less (last_of w zs) v ≡ false) e
      (less_trans (last_of w zs) w z (IsSorted-last w zs s w (inl refl)) h)
IsSorted-last z (w ∷ zs) (more h s) y (inr i) = IsSorted-last w zs s y i
