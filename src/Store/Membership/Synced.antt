-- ===== src/Store/Membership/Synced.antt =====
-- internal/store/group_membership.go: a user's groups against the values that a login names.
use tileserve_go.Prelude.{
  both_false, Bool, true, false, ◌||◌, List, [], ◌∷◌, Text, ◌==◌, nat_eq, text_eq, pair_eq, eq_iff,
  any, In, ◌≡◌, ◌≢◌, ◌↔◌, refl, sym, ap, subst, ◌∙◌, inl, inr, Bool-cases, arith, true-false,
}
use tileserve_go.Prelude.Monad.{Result, ok, err, continue, pure, ◌>>=◌}
use tileserve_go.Store.Database.{Database, GroupRow}
use tileserve_go.Store.State.{Store, StoreError}
use tileserve_go.Store.Membership.{
  Link, replace_group_membership, Draws, get_or_create_group_by_link, resolve_groups,
  sync_group_membership,
}
use tileserve_go.Store.Membership.Grown.{
  IsGrown, IsGrown-refl, HasLink, HasLink-IsGrown, Grows, Grows-continue, get_or_create-Grows,
}
use tileserve_go.Store.Membership.Mirrored.{IsReplaced, Replaces, replace-Replaces}

-- The groups of the values that are neither blank nor seen before.
record AreResolved (l : Link) (seen values ids : List Text) (db : Database) : Type 0 where
  linked : (g : Text) → In g ids → (v : Text) × In v values × (v ≢ []) × HasLink l v g db
  complete :
      (v : Text)
      → In v values
      → v ≢ []
      → any (λ w. w == v) seen ≡ false
      → (g : Text) × In g ids × HasLink l v g db

skipped_false : (a b : Bool) → (a || b) ≡ true → b ≡ false → a ≡ true
skipped_false a b h k = ground arith

either_false : (a b : Bool) → a ≡ false → b ≡ false → (a || b) ≡ false
either_false a b h k = ground arith

module _ (l : Link) (seen vs : List Text) (v : Text) where
  AreResolved-skip :
      (ids : List Text) (db : Database)
      → (v == [] || any (λ w. w == v) seen) ≡ true
      → AreResolved l seen vs ids db
      → AreResolved l seen (v ∷ vs) ids db
  AreResolved-skip ids db h r = record {
    linked = λ g i. let (w, j, n, k) = r.linked g i in (w, inr j, n, k);
    complete = λ w i n new. elim i [
      | inl e ↦ absurd (
          n (
            sym e
            ∙ (eq_iff v []).0 (
                skipped_false (v == []) (any (λ x. x == v) seen) h
                  (ap (λ x. any (λ y. y == x) seen) e ∙ new))))
      | inr j ↦ r.complete w j n new
    ];
  }

  AreResolved-cons :
      (id : Text) (ids : List Text) (db : Database)
      → (v == [] || any (λ w. w == v) seen) ≡ false
      → HasLink l v id db
      → AreResolved l (v ∷ seen) vs ids db
      → AreResolved l seen (v ∷ vs) (id ∷ ids) db
  AreResolved-cons id ids db h k r = record {
    linked = λ g i. elim i [
      | inl e ↦ (
        v,
        inl refl,
        λ blank.
            true-false
              (sym ((eq_iff v []).1 blank) ∙ (both_false (v == []) (any (λ w. w == v) seen) h).0),
        subst (λ j. HasLink l v j db) e k,
      )
      | inr later ↦ let (w, j, n, m) = r.linked g later in (w, inr j, n, m)
    ];
    complete = λ w i n new. elim (Bool-cases (v == w)) [
      | inl here ↦ (id, inl refl, subst (λ x. HasLink l x id db) ((eq_iff v w).0 here) k)
      | inr other ↦ elim i [
        | inl e ↦ absurd (true-false (sym ((eq_iff v w).1 e) ∙ other))
        | inr j ↦
            let (g, m, q) =
              r.complete w j n (either_false (v == w) (any (λ x. x == w) seen) other new) in
            (g, inr m, q)
      ]
    ];
  }

module _ (l : Link) (display : Text → Text) (draws : Text → Draws) where
  resolve-Grows :
      (seen values : List Text) (s : Store)
      → Grows (AreResolved l seen values) s (resolve_groups l display draws seen values s)
  unfolding resolve_groups
  resolve-Grows seen [] s =
      (IsGrown-refl s.db, record { linked = λ g i. absurd i; complete = λ v i n new. absurd i })
  resolve-Grows seen (v ∷ vs) s = elim (Bool-cases (v == [] || any (λ w. w == v) seen)) [
    | inl skip ↦ rw skip (
        weaken seen v vs s (resolve_groups l display draws seen vs s) skip
          (resolve-Grows seen vs s))
    | inr fresh ↦ rw fresh (
        Grows-continue (HasLink l v) (AreResolved l seen (v ∷ vs)) s
          (get_or_create_group_by_link l v (display v) (draws v) s)
          (λ id. resolve_groups l display draws (v ∷ seen) vs >>= λ ids. pure (id ∷ ids))
          (λ id t p k.
            Grows-continue (AreResolved l (v ∷ seen) vs) (AreResolved l seen (v ∷ vs)) t
              (resolve_groups l display draws (v ∷ seen) vs t) (λ ids. pure (id ∷ ids))
              (λ ids u q r. (
                IsGrown-refl u.db,
                AreResolved-cons l seen vs v id ids u.db fresh
                    (HasLink-IsGrown l v id t.db u.db q k) r,
              ))
              (resolve-Grows (v ∷ seen) vs t))
          (get_or_create-Grows l v (display v) (draws v) s))
  ]
    where
      weaken :
          (seen : List Text) (v : Text) (vs : List Text) (s : Store)
          (r : Result StoreError (List Text) × Store)
          → (v == [] || any (λ w. w == v) seen) ≡ true
          → Grows (AreResolved l seen vs) s r
          → Grows (AreResolved l seen (v ∷ vs)) s r
      weaken seen v vs s (ok ids, t) skip h = (h.0, AreResolved-skip l seen vs v ids t.db skip h.1)
      weaken seen v vs s (err e, t) skip h = h

-- The user's groups are those that the values name.
pub record IsMirrored (l : Link) (username : Text) (values : List Text) (before after : Database)
    : Type 0 where
  pub named :
      (g : Text)
      → In (g, username) after.members
      → (v : Text) × In v values × (v ≢ []) × HasLink l v g after
  pub complete :
      (v : Text)
      → In v values
      → v ≢ []
      → (g : Text) × In (g, username) after.members × HasLink l v g after
  pub others :
      (g u : Text) → (username == u) ≡ false → In (g, u) after.members ↔ In (g, u) before.members
  pub groups : (e : Text × GroupRow) → In e before.groups → In e after.groups

-- What a sync leaves: the groups that the values name, or an error and the old memberships.
abbrev pub Mirrors :
    Link → Text → List Text → Database → Result StoreError (Unit {0}) × Store → Type 0
Mirrors l username values db (ok a, t) = IsMirrored l username values db t.db
Mirrors l username values db (err e, t) = t.db.members ≡ db.members

module _ (l : Link) (username : Text) (values ids : List Text) where
  IsMirrored-IsReplaced :
      (before middle after : Database)
      → IsGrown before middle
      → AreResolved l [] values ids middle
      → IsReplaced username ids middle after
      → IsMirrored l username values before after
  IsMirrored-IsReplaced before middle after p r q =
      let keep : (e : Text × GroupRow) → In e middle.groups → In e after.groups =
        λ e i. subst (In e) (sym q.groups) i in
      record {
        named = λ g i.
            let (v, j, n, h) = r.linked g ((q.own g).0 i) in
            (v, j, n, (h.0, keep (g, h.0) h.1, h.2));
        complete = λ v i n.
            let (g, j, h) = r.complete v i n refl in
            (g, (q.own g).1 j, (h.0, keep (g, h.0) h.1, h.2));
        others = λ g u other.
            subst (λ m. In (g, u) after.members ↔ In (g, u) m) p.members (q.others g u other);
        groups = λ e i. keep e (p.groups e i);
      }

  Mirrors-Replaces :
      (before middle : Database) (r : Result StoreError (Unit {0}) × Store)
      → IsGrown before middle
      → AreResolved l [] values ids middle
      → Replaces username ids middle r
      → Mirrors l username values before r
  Mirrors-Replaces before middle (ok a, t) p r q = IsMirrored-IsReplaced before middle t.db p r q
  Mirrors-Replaces before middle (err e, t) p r q = ap (λ db. db.members) q ∙ p.members

Mirrors-continue :
    (l : Link) (username : Text) (values : List Text) (s : Store)
    (r : Result StoreError (List Text) × Store)
    → Grows (AreResolved l [] values) s r
    → Mirrors l username values s.db (continue (replace_group_membership username) r)
Mirrors-continue l username values s (ok ids, t) h =
    Mirrors-Replaces l username values ids s.db t.db (replace_group_membership username ids t) h.0
      h.1 (replace-Replaces username ids t)
Mirrors-continue l username values s (err e, t) h = h.members

-- A sync of a user's groups that returns leaves the user in groups that have a link to one of the
-- values each, and in one for every value that is not blank; all other memberships are as before,
-- and no row of `groups` is lost or changed. One that fails leaves every membership as it was.
pub sync_group_membership-Mirrors :
    (l : Link) (display : Text → Text) (draws : Text → Draws) (username : Text) (values : List Text)
    (s : Store)
    → Mirrors l username values s.db (sync_group_membership l display draws username values s)
unfolding sync_group_membership
sync_group_membership-Mirrors l display draws username values s =
    Mirrors-continue l username values s (resolve_groups l display draws [] values s)
      (resolve-Grows l display draws [] values s)
