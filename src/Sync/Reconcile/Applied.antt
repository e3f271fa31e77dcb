-- ===== src/Sync/Reconcile/Applied.antt =====
-- internal/sync/sync.go: applying what the comparison reports makes the local state match.
use tileserve_go.Prelude.{
  Bool, true, false, not, ◌&&◌, ◌||◌, Option, none, some, List, [], ◌∷◌, Text, ◌==◌, nat_eq,
  text_eq, eq_iff, if◌then◌else◌, keep_if, any, map, ◌≡◌, refl, sym, ap, ◌∙◌, subst, ◌⊎◌, inl, inr,
  Bool-cases, arith,
}
use tileserve_go.Prelude.Assoc.{lookup, insert, remove, lookup-remove, lookup-nil}
use tileserve_go.Sync.Reconcile.{
  index_from, missing, differs, to_write, to_delete, reconcile_aliases, reconcile_geo_objects,
  GeoObject,
}

abbrev pub first_of {ℓ} : {V : Type ℓ} → Option V → Option V → Option V
first_of none o = o
first_of (some v) o = some v

abbrev kept : {V : Type 0} → (Text × V → Bool) → Text → Option V → Option V
kept p j none = none
kept p j (some v) = if p (j, v) then some v else none

either_none :
    {A : Type 0} (a b : Bool) (o : Option A)
    → (if b then none else (if a then none else o)) ≡ (if a || b then none else o)
either_none true true o = refl
either_none true false o = refl
either_none false true o = refl
either_none false false o = refl

moved_name : (q : Text → Bool) (k j : Text) → (k == j) ≡ true → q j ≡ q k
moved_name q k j same = ap q (sym ((eq_iff k j).0 same))

module _ {V : Type 0} where
  -- No key is there twice, as a primary key demands.
  unfoldable pub IsKeyed : List (Text × V) → Type 0
  IsKeyed [] = Unit
  IsKeyed ((k, v) ∷ l) = (lookup k l ≡ none) × IsKeyed l

  absent_at :
      (k j : Text) (l : List (Text × V)) → (k == j) ≡ true → lookup k l ≡ none → lookup j l ≡ none
  absent_at k j l same e = ap (λ i. lookup i l) (sym ((eq_iff k j).0 same)) ∙ e

  moved : (p : Text × V → Bool) (k j : Text) (v : V) → (k == j) ≡ true → p (j, v) ≡ p (k, v)
  moved p k j v same = ap (λ i. p (i, v)) (sym ((eq_iff k j).0 same))

  lookup-index_from :
      (acc l : List (Text × V)) (j : Text)
      → IsKeyed l
      → lookup j (index_from acc l) ≡ first_of (lookup j l) (lookup j acc)
  unfolding index_from IsKeyed lookup
  lookup-index_from acc [] j d = refl
  lookup-index_from acc ((k, v) ∷ l) j d = elim (Bool-cases (k == j)) [
    | inl same ↦
        lookup-index_from (insert k v acc) l j d.1 ∙ rw (same, absent_at k j l same d.0) refl
    | inr other ↦
        lookup-index_from (insert k v acc) l j d.1 ∙ rw (other, lookup-remove k j acc, other) refl
  ]

  -- An entry of a filtered list.
  lookup-keep_if :
      (p : Text × V → Bool) (l : List (Text × V)) (j : Text)
      → IsKeyed l
      → lookup j (keep_if p l) ≡ kept p j (lookup j l)
  unfolding IsKeyed lookup
  lookup-keep_if p [] j d = refl
  lookup-keep_if p ((k, v) ∷ l) j d = elim (Bool-cases (k == j)) [
    | inr other ↦ elim (Bool-cases (p (k, v))) [
      | inl stays ↦ rw (stays, other) (lookup-keep_if p l j d.1)
      | inr goes ↦ rw (goes, other) (lookup-keep_if p l j d.1)
    ]
    | inl same ↦ elim (Bool-cases (p (k, v))) [
      | inl stays ↦ rw (stays, same, moved p k j v same, stays) refl
      | inr goes ↦
          rw (goes, same, moved p k j v same, goes)
            (lookup-keep_if p l j d.1 ∙ ap (kept p j) (absent_at k j l same d.0))
    ]
  ]

  -- The deletion of some keys.
  unfoldable pub delete_all : List Text → List (Text × V) → List (Text × V)
  delete_all [] m = m
  delete_all (k ∷ ks) m = delete_all ks (remove k m)

  lookup-delete_all :
      (ks : List Text) (m : List (Text × V)) (j : Text)
      → lookup j (delete_all ks m) ≡ (if any (λ k. k == j) ks then none else lookup j m)
  unfolding delete_all
  lookup-delete_all [] m j = refl
  lookup-delete_all (k ∷ ks) m j =
      lookup-delete_all ks (remove k m) j
      ∙ ap (λ o. if any (λ i. i == j) ks then none else o) (lookup-remove k j m)
      ∙ either_none (k == j) (any (λ i. i == j) ks) (lookup j m)

  -- The names of a filtered list, where the filter goes by the name.
  named :
      (q : Text → Bool) (l : List (Text × V)) (j : Text)
      → any (λ k. k == j) (map (λ e. e.0) (keep_if (λ e. q e.0) l))
        ≡ (q j && not (missing (lookup j l)))
  unfolding lookup
  named q [] j = ground arith
  named q ((k, v) ∷ l) j = elim (Bool-cases (q k)) [
    | inl stays ↦ elim (Bool-cases (k == j)) [
      | inl same ↦ rw (stays, same, moved_name q k j same, stays) refl
      | inr other ↦ rw (stays, other) (named q l j)
    ]
    | inr goes ↦ elim (Bool-cases (k == j)) [
      | inl same ↦ rw goes (named q l j ∙ rw (moved_name q k j same, goes) refl)
      | inr other ↦ rw (goes, other) (named q l j)
    ]
  ]

  first_of-none : (o : Option V) → first_of o none ≡ o
  first_of-none none = refl
  first_of-none (some v) = refl

  indexed : (l : List (Text × V)) (j : Text) → IsKeyed l → lookup j (index_from [] l) ≡ lookup j l
  indexed l j d =
      lookup-index_from [] l j d
      ∙ ap (first_of (lookup j l)) (lookup-nil {V = V} j)
      ∙ first_of-none (lookup j l)

  IsKeyed-keep_if : (p : Text × V → Bool) (l : List (Text × V)) → IsKeyed l → IsKeyed (keep_if p l)
  unfolding IsKeyed
  IsKeyed-keep_if p [] d = tt
  IsKeyed-keep_if p ((k, v) ∷ l) d = elim (Bool-cases (p (k, v))) [
    | inl stays ↦ rw stays (lookup-keep_if p l k d.1 ∙ ap (kept p k) d.0, IsKeyed-keep_if p l d.1)
    | inr goes ↦ rw goes (IsKeyed-keep_if p l d.1)
  ]

  module _ (changed : V → V → Bool) where
    -- An entry agrees with the remote's if it is equal, or need not be written again.
    abbrev pub Agree : Option V → Option V → Type 0
    Agree none none = Unit
    Agree none (some r) = ⊥
    Agree (some l) none = ⊥
    Agree (some l) (some r) = (l ≡ r) ⊎ (changed l r ≡ false)

    -- The local state after the reported writes and deletions.
    unfoldable pub applied : List (Text × V) → List (Text × V) → List (Text × V)
    unfolding delete_all index_from to_write to_delete
    applied local remote =
        delete_all (to_delete local remote) (index_from local (to_write changed local remote))

    chosen : Option V → Option V → Option V
    chosen none l = none
    chosen (some r) l = if differs changed r l then some r else none

    settled :
        (l r : Option V)
        → Agree (if missing r && not (missing l) then none else first_of (chosen r l) l) r
    unfolding chosen
    settled none none = tt
    settled (some l) none = tt
    settled none (some r) = inl refl
    settled (some l) (some r) = elim (Bool-cases (changed l r)) [
      | inl differing ↦ rw differing (inl refl)
      | inr same ↦ rw same (inr same)
    ]

    kept-chosen :
        (local : List (Text × V)) (j : Text) (r : Option V)
        → IsKeyed local
        → kept (λ e. differs changed e.1 (lookup e.0 (index_from [] local))) j r
          ≡ chosen r (lookup j local)
    unfolding chosen
    kept-chosen local j none d = refl
    kept-chosen local j (some r) d = rw (indexed local j d) refl

    lookup-applied :
        (local remote : List (Text × V)) (j : Text)
        → IsKeyed local
        → IsKeyed remote
        → lookup j (applied local remote) ≡ (
            if missing (lookup j remote) && not (missing (lookup j local))
            then none
            else first_of (chosen (lookup j remote) (lookup j local)) (lookup j local))
    unfolding applied to_write to_delete
    lookup-applied local remote j dl dr =
        let p : Text × V → Bool = λ e. differs changed e.1 (lookup e.0 (index_from [] local)) in
        lookup-delete_all (to_delete local remote) (index_from local (keep_if p remote)) j
        ∙ ap (λ b. if b then none else lookup j (index_from local (keep_if p remote)))
            (named (λ k. missing (lookup k (index_from [] remote))) local j
              ∙ ap (λ o. missing o && not (missing (lookup j local))) (indexed remote j dr))
        ∙ ap (λ o. if missing (lookup j remote) && not (missing (lookup j local)) then none else o)
            (lookup-index_from local (keep_if p remote) j (IsKeyed-keep_if p remote dr)
              ∙ ap (λ o. first_of o (lookup j local))
                  (lookup-keep_if p remote j dr ∙ kept-chosen local j (lookup j remote) dl))

    agrees :
        (local remote : List (Text × V)) (j : Text)
        → IsKeyed local
        → IsKeyed remote
        → Agree (lookup j (applied local remote)) (lookup j remote)
    agrees local remote j dl dr =
        subst (λ o. Agree o (lookup j remote)) (sym (lookup-applied local remote j dl dr))
          (settled (lookup j local) (lookup j remote))

-- Both lists carried out, as by syncGeoObjectsForVersion; reconcileMapAliases of sync.go leaves out
-- an alias whose version is not local.
unfoldable pub apply_both :
    {V : Type 0} → List (Text × V) → List (Text × V) × List Text → List (Text × V)
unfolding delete_all index_from
apply_both local (writes, deletions) = delete_all deletions (index_from local writes)

equal_of_Agree : (l r : Option Text) → Agree (λ a b. not (a == b)) l r → l ≡ r
equal_of_Agree none none h = refl
equal_of_Agree none (some r) h = absurd h
equal_of_Agree (some l) none h = absurd h
equal_of_Agree (some l) (some r) h = elim h [
  | inl e ↦ ap some e
  | inr e ↦ ap some ((eq_iff l r).0 (ground arith))
]

-- Setting and deleting what reconcileAliases reports gives exactly the remote's aliases, where
-- neither side has a name twice.
pub reconcile_aliases-apply_both :
    (local remote : List (Text × Text)) (alias : Text)
    → IsKeyed local
    → IsKeyed remote
    → lookup alias (apply_both local (reconcile_aliases local remote)) ≡ lookup alias remote
unfolding apply_both reconcile_aliases applied
reconcile_aliases-apply_both local remote alias dl dr =
    equal_of_Agree (lookup alias (apply_both local (reconcile_aliases local remote)))
      (lookup alias remote) (agrees (λ l r. not (l == r)) local remote alias dl dr)

-- Writing and deleting what reconcileGeoObjects reports leaves the remote's objects and no others,
-- each equal to the remote's or of the same time of change, where neither side has an id twice.
pub reconcile_geo_objects-Agree :
    (local remote : List (Text × GeoObject)) (id : Text)
    → IsKeyed local
    → IsKeyed remote
    → Agree
        (λ l r. not (l.updated_at == r.updated_at))
        (lookup id (apply_both local (reconcile_geo_objects local remote)))
        (lookup id remote)
unfolding apply_both reconcile_geo_objects applied
reconcile_geo_objects-Agree local remote id dl dr =
    agrees (λ l r. not (l.updated_at == r.updated_at)) local remote id dl dr
