-- ===== src/Webserver/Bounds/Columns.antt =====
-- internal/webserver/map_bounds.go: the tiles that tileExtentAtZoom sees on a disk without faults.
use tileserve_go.Prelude.{
  Bool, true, false, Option, none, some, List, [], ◌∷◌, Text, codes, nat_eq, text_eq, if◌then◌else◌,
  Some, Some-cons, ◌≡◌, refl, sym, ◌∙◌, ◌↔◌, ◌⊎◌, arith, true-false, iff_trans, either_iff, id_iff,
}
use tileserve_go.Prelude.Assoc.{lookup}
use tileserve_go.Prelude.Decimal.{ℤ, atoi}
use tileserve_go.Prelude.Strings.{has_suffix}
use tileserve_go.Prelude.Monad.{ok, Exec, pure}
use tileserve_go.Disk.{Disk, Tree, child_path, names_in, is_dir_node}
use tileserve_go.TileArchive.Index.{trim_png}
use tileserve_go.TileArchive.Index.Scan.{healthy, read_dir-healthy}
use tileserve_go.Webserver.Bounds.{
  BoundsError, Extent, grow_if, grow_names, extend_column, extend_columns,
}
use tileserve_go.Webserver.Bounds.Extents.{Spans, Spans-iff, Spans-grow_if, IsRowName, add_false}

either_assoc : (A B C : Type 0) → ((A ⊎ B) ⊎ C) ↔ (A ⊎ (B ⊎ C))
either_assoc A B C = ground arith

pair_either : (A B C : Type 0) → ((A × B) ⊎ (A × C)) ↔ (A × (B ⊎ C))
pair_either A B C = ground arith

and_iff_right : {A B C : Type 0} → B ↔ C → (A × B) ↔ (A × C)
and_iff_right h = (λ p. (p.0, h.0 p.1), λ p. (p.0, h.1 p.1))

Spans-grow_names :
    (a : ℤ) (names : List Text) (acc : Option Extent) (R : ℤ → ℤ → Type 0)
    → Spans acc R
    → Spans (grow_names a names acc) (λ x y. R x y ⊎ ((a ≡ x) × Some (IsRowName y) names))
unfolding grow_names
Spans-grow_names a [] acc R s =
    Spans-iff acc R (λ x y. R x y ⊎ ((a ≡ x) × Some (IsRowName y) []))
      (λ x y. add_false (R x y) _ (λ h. h.1.1)) s
Spans-grow_names a (name ∷ names) acc R s =
    let png = has_suffix name (codes ".png") in
    let Q : ℤ → ℤ → Type 0 = λ x y. R x y ⊎ ((a ≡ x) × IsRowName y name) in
    Spans-iff (grow_names a names (grow_if png a (atoi (trim_png name)) acc))
      (λ x y. Q x y ⊎ ((a ≡ x) × Some (IsRowName y) names))
      (λ x y. R x y ⊎ ((a ≡ x) × Some (IsRowName y) (name ∷ names)))
      (λ x y. iff_trans (either_assoc (R x y) _ _) (
        either_iff (id_iff (R x y)) (
          iff_trans (pair_either (a ≡ x) (IsRowName y name) (Some (IsRowName y) names))
            (and_iff_right (Some-cons (IsRowName y) name names)))))
      (Spans-grow_names a names (grow_if png a (atoi (trim_png name)) acc) Q
        (Spans-grow_if png a (atoi (trim_png name)) acc R s))

module _ (t : Tree) where
  -- The loop returns, leaves the disk as it is, and takes in the pairs of `Q` too.
  pub record Extends (m : Option Extent → Exec Disk BoundsError (Option Extent))
      (acc : Option Extent) (Q : ℤ → ℤ → Type 0) : Type 0 where
    pub next : Option Extent
    pub returns : m acc (healthy t) ≡ (ok next, healthy t)
    pub spans : Spans next Q

  abbrev pub InColumn : Text → Option ℤ → ℤ → ℤ → Type 0
  InColumn path o x y = (o ≡ some x) × Some (IsRowName y) (names_in path t)

  some_iff : (a x : ℤ) (C : Type 0) → ((a ≡ x) × C) ↔ ((some a ≡ some x) × C)
  some_iff a x C = ground arith

  Extends-column :
      (path : Text) (o : Option ℤ) (acc : Option Extent) (R : ℤ → ℤ → Type 0)
      → is_dir_node (lookup path t) ≡ true
      → Spans acc R
      → Extends (extend_column path o) acc (λ x y. R x y ⊎ InColumn path o x y)
  unfolding extend_column
  Extends-column path none acc R d s = record {
    next = acc;
    returns = refl;
    spans = Spans-iff acc R _ (λ x y. add_false (R x y) _ (λ h. ground arith)) s;
  }
  Extends-column path (some a) acc R d s = record {
    next = grow_names a (names_in path t) acc;
    returns = rw (read_dir-healthy path t d) refl;
    spans =
        Spans-iff (grow_names a (names_in path t) acc)
          (λ x y. R x y ⊎ ((a ≡ x) × Some (IsRowName y) (names_in path t)))
          (λ x y. R x y ⊎ InColumn path (some a) x y)
          (λ x y. either_iff (id_iff (R x y)) (some_iff a x _))
          (Spans-grow_names a (names_in path t) acc R s);
  }

  abbrev pub IsColumnName : Text → ℤ → ℤ → Text → Type 0
  IsColumnName path x y name =
      (is_dir_node (lookup (child_path path name) t) ≡ true)
      × InColumn (child_path path name) (atoi name) x y

  guarded_iff : (b : Bool) (C : Type 0) → b ≡ true → C ↔ ((b ≡ true) × C)
  guarded_iff b C h = (λ c. (h, c), λ p. p.1)

  -- One entry of the directory of a zoom level.
  Extends-entry :
      (path : Text) (o : Option ℤ) (b : Bool) (acc : Option Extent) (R : ℤ → ℤ → Type 0)
      → is_dir_node (lookup path t) ≡ b
      → Spans acc R
      → Extends
          (λ a. if b then extend_column path o a else pure a)
          acc
          (λ x y. R x y ⊎ ((is_dir_node (lookup path t) ≡ true) × InColumn path o x y))
  Extends-entry path o true acc R e s =
      let found = Extends-column path o acc R e s in
      record {
        next = found.next;
        returns = found.returns;
        spans =
            Spans-iff found.next (λ x y. R x y ⊎ InColumn path o x y) _
              (λ x y.
                either_iff (id_iff (R x y))
                  (guarded_iff (is_dir_node (lookup path t)) (InColumn path o x y) e))
              found.spans;
      }
  Extends-entry path o false acc R e s = record {
    next = acc;
    returns = refl;
    spans = Spans-iff acc R _ (λ x y. add_false (R x y) _ (λ h. true-false (sym h.0 ∙ e))) s;
  }

  pub Extends-columns :
      (path : Text) (names : List Text) (acc : Option Extent) (R : ℤ → ℤ → Type 0)
      → Spans acc R
      → Extends (extend_columns path names) acc (λ x y. R x y ⊎ Some (IsColumnName path x y) names)
  unfolding extend_columns
  Extends-columns path [] acc R s = record {
    next = acc;
    returns = refl;
    spans = Spans-iff acc R _ (λ x y. add_false (R x y) _ (λ h. h.1)) s;
  }
  Extends-columns path (name ∷ names) acc R s =
      let p = child_path path name in
      let here = Extends-entry p (atoi name) (is_dir_node (lookup p t)) acc R refl s in
      let Q : ℤ → ℤ → Type 0 = λ x y. R x y ⊎ IsColumnName path x y name in
      let rest = Extends-columns path names here.next Q here.spans in
      record {
        next = rest.next;
        returns = rw (here.returns) rest.returns;
        spans =
            Spans-iff rest.next (λ x y. Q x y ⊎ Some (IsColumnName path x y) names) _
              (λ x y.
                iff_trans (either_assoc (R x y) _ _)
                  (either_iff (id_iff (R x y)) (Some-cons (IsColumnName path x y) name names)))
              rest.spans;
      }
