-- ===== src/Webserver/Bounds/Extents.antt =====
-- internal/webserver/map_bounds.go: the extremes against the tiles that are on the disk.
use tileserve_go.Prelude.{
  Bool, true, false, Option, none, some, Text, codes, nat_eq, text_eq, ◌≡◌, refl, sym, subst, ◌↔◌,
  ◌⊎◌, inl, inr, arith, either_iff, id_iff,
}
use tileserve_go.Prelude.Decimal.{ℤ, less, atoi}
use tileserve_go.Prelude.Strings.{has_suffix}
use tileserve_go.TileArchive.Index.{trim_png}
use tileserve_go.Webserver.Bounds.{Extent, lesser, greater, grow, grow_if}
use tileserve_go.Webserver.Bounds.Order.{
  less_irrefl, less_trans, lesser_left, lesser_right, lesser_either, greater_left, greater_right,
  greater_either,
}

-- `e` encloses the pairs of `R`, and each of its sides has one.
pub record IsExtentOf (R : ℤ → ℤ → Type 0) (e : Extent) : Type 0 where
  pub left : (x y : ℤ) → R x y → less x e.min_x ≡ false
  pub right : (x y : ℤ) → R x y → less e.max_x x ≡ false
  pub low : (x y : ℤ) → R x y → less y e.min_y ≡ false
  pub high : (x y : ℤ) → R x y → less e.max_y y ≡ false
  pub on_left : (y : ℤ) × R e.min_x y
  pub on_right : (y : ℤ) × R e.max_x y
  pub on_low : (x : ℤ) × R x e.min_y
  pub on_high : (x : ℤ) × R x e.max_y

-- The extremes of the pairs of `R`, or none where there is no pair.
abbrev pub Spans : Option Extent → (ℤ → ℤ → Type 0) → Type 0
Spans none R = (x y : ℤ) → ¬ R x y
Spans (some e) R = IsExtentOf R e

pub Spans-iff :
    (acc : Option Extent) (R Q : ℤ → ℤ → Type 0)
    → ((x y : ℤ) → R x y ↔ Q x y)
    → Spans acc R
    → Spans acc Q
Spans-iff none R Q h s = λ x y q. s x y ((h x y).1 q)
Spans-iff (some e) R Q h s = record {
  left = λ x y q. s.left x y ((h x y).1 q);
  right = λ x y q. s.right x y ((h x y).1 q);
  low = λ x y q. s.low x y ((h x y).1 q);
  high = λ x y q. s.high x y ((h x y).1 q);
  on_left = (s.on_left.0, (h e.min_x s.on_left.0).0 s.on_left.1);
  on_right = (s.on_right.0, (h e.max_x s.on_right.0).0 s.on_right.1);
  on_low = (s.on_low.0, (h s.on_low.0 e.min_y).0 s.on_low.1);
  on_high = (s.on_high.0, (h s.on_high.0 e.max_y).0 s.on_high.1);
}

-- One more pair.
abbrev Or : (ℤ → ℤ → Type 0) → ℤ → ℤ → ℤ → ℤ → Type 0
Or R a b x y = R x y ⊎ ((a ≡ x) × (b ≡ y))

module _ (R : ℤ → ℤ → Type 0) (a b : ℤ) where
  attained_x :
      (old new : ℤ) → (new ≡ old) ⊎ (new ≡ a) → (y : ℤ) × R old y → (y : ℤ) × Or R a b new y
  attained_x old new (inl e) h = (h.0, inl (subst (λ x. R x h.0) (sym e) h.1))
  attained_x old new (inr e) h = (b, inr (sym e, refl))

  attained_y :
      (old new : ℤ) → (new ≡ old) ⊎ (new ≡ b) → (x : ℤ) × R x old → (x : ℤ) × Or R a b x new
  attained_y old new (inl e) h = (h.0, inl (subst (R h.0) (sym e) h.1))
  attained_y old new (inr e) h = (a, inr (refl, sym e))

  Spans-grow : (acc : Option Extent) → Spans acc R → Spans (grow a b acc) (Or R a b)
  Spans-grow none s = record {
    left = λ x y r. elim r [
      | inl old ↦ absurd (s x y old)
      | inr new ↦ subst (λ w. less w a ≡ false) new.0 (less_irrefl a)
    ];
    right = λ x y r. elim r [
      | inl old ↦ absurd (s x y old)
      | inr new ↦ subst (λ w. less a w ≡ false) new.0 (less_irrefl a)
    ];
    low = λ x y r. elim r [
      | inl old ↦ absurd (s x y old)
      | inr new ↦ subst (λ w. less w b ≡ false) new.1 (less_irrefl b)
    ];
    high = λ x y r. elim r [
      | inl old ↦ absurd (s x y old)
      | inr new ↦ subst (λ w. less b w ≡ false) new.1 (less_irrefl b)
    ];
    on_left = (b, inr (refl, refl));
    on_right = (b, inr (refl, refl));
    on_low = (a, inr (refl, refl));
    on_high = (a, inr (refl, refl));
  }
  Spans-grow (some e) s = record {
    left = λ x y r. elim r [
      | inl old ↦ less_trans x e.min_x (lesser e.min_x a) (s.left x y old) (lesser_left e.min_x a)
      | inr new ↦ subst (λ w. less w (lesser e.min_x a) ≡ false) new.0 (lesser_right e.min_x a)
    ];
    right = λ x y r. elim r [
      | inl old ↦
          less_trans (greater e.max_x a) e.max_x x (greater_left e.max_x a) (s.right x y old)
      | inr new ↦ subst (λ w. less (greater e.max_x a) w ≡ false) new.0 (greater_right e.max_x a)
    ];
    low = λ x y r. elim r [
      | inl old ↦ less_trans y e.min_y (lesser e.min_y b) (s.low x y old) (lesser_left e.min_y b)
      | inr new ↦ subst (λ w. less w (lesser e.min_y b) ≡ false) new.1 (lesser_right e.min_y b)
    ];
    high = λ x y r. elim r [
      | inl old ↦ less_trans (greater e.max_y b) e.max_y y (greater_left e.max_y b) (s.high x y old)
      | inr new ↦ subst (λ w. less (greater e.max_y b) w ≡ false) new.1 (greater_right e.max_y b)
    ];
    on_left = attained_x e.min_x (lesser e.min_x a) (lesser_either e.min_x a) s.on_left;
    on_right = attained_x e.max_x (greater e.max_x a) (greater_either e.max_x a) s.on_right;
    on_low = attained_y e.min_y (lesser e.min_y b) (lesser_either e.min_y b) s.on_low;
    on_high = attained_y e.max_y (greater e.max_y b) (greater_either e.max_y b) s.on_high;
  }

-- The name of a tile's file in its column.
abbrev pub IsRowName : ℤ → Text → Type 0
IsRowName y name = (has_suffix name (codes ".png") ≡ true) × (atoi (trim_png name) ≡ some y)

pub add_false : (A B : Type 0) → ¬ B → A ↔ (A ⊎ B)
add_false A B h = (λ a. inl a, λ s. elim s [ inl a ↦ a | inr b ↦ absurd (h b) ])

row_iff :
    (a b x y : ℤ) (png : Bool)
    → png ≡ true
    → ((a ≡ x) × (b ≡ y)) ↔ ((a ≡ x) × ((png ≡ true) × (some b ≡ some y)))
row_iff a b x y png h = ground arith

pub Spans-grow_if :
    (png : Bool) (a : ℤ) (o : Option ℤ) (acc : Option Extent) (R : ℤ → ℤ → Type 0)
    → Spans acc R
    → Spans (grow_if png a o acc) (λ x y. R x y ⊎ ((a ≡ x) × ((png ≡ true) × (o ≡ some y))))
Spans-grow_if png a none acc R s =
    Spans-iff acc R (λ x y. R x y ⊎ ((a ≡ x) × ((png ≡ true) × (none ≡ some y))))
      (λ x y. add_false (R x y) _ (λ h. ground arith)) s
Spans-grow_if true a (some b) acc R s =
    Spans-iff (grow a b acc) (Or R a b)
      (λ x y. R x y ⊎ ((a ≡ x) × ((true ≡ true) × (some b ≡ some y))))
      (λ x y. either_iff (id_iff (R x y)) (row_iff a b x y true refl)) (Spans-grow R a b acc s)
Spans-grow_if false a (some b) acc R s =
    Spans-iff acc R (λ x y. R x y ⊎ ((a ≡ x) × ((false ≡ true) × (some b ≡ some y))))
      (λ x y. add_false (R x y) _ (λ h. ground arith)) s
