-- ===== src/Store/Membership/Mirrored.antt =====
-- internal/store/group_membership.go: the rows of group_members behind a sync.
use tileserve_go.Prelude.{
  true, false, not, List, [], ◌∷◌, Text, ◌==◌, nat_eq, text_eq, pair_eq, eq_iff, eq_refl, keep_if,
  In, In-keep_if, ◌≡◌, ◌↔◌, ◌⊎◌, refl, subst, sym, ap, ◌∙◌, inl, inr, Bool-cases, arith, true-false,
}
use tileserve_go.Prelude.Monad.{Result, ok, err, continue}
use tileserve_go.Store.Database.{Database}
use tileserve_go.Store.State.{Store, StoreError, transaction, roll_back}
use tileserve_go.Store.State.Cases.{execute_cases}
use tileserve_go.Store.Accounts.{execute_or, invalidate_permissions}
use tileserve_go.Store.Membership.{
  member_clashes, add_member, add_members, replace_group_membership,
}

-- The rows that a run of inserts leaves.
added : Text → List Text → List (Text × Text) → List (Text × Text)
added username [] members = members
added username (id ∷ ids) members = added username ids ((id, username) ∷ members)

In-added :
    (g u username : Text) (ids : List Text) (members : List (Text × Text))
    → In (g, u) (added username ids members) ↔ (In (g, u) members ⊎ ((username ≡ u) × In g ids))
unfolding added
In-added g u username [] members = ground arith
In-added g u username (id ∷ ids) members =
    let k = In-added g u username ids ((id, username) ∷ members) in
    (
      λ i. elim (k.0 i) [
        | inl front ↦ elim front [
          | inl e ↦ inr (ap (λ p. p.1) e, inl (ap (λ p. p.0) e))
          | inr old ↦ inl old
        ]
        | inr new ↦ inr (new.0, inr new.1)
      ],
      λ i. elim i [
        | inl old ↦ k.1 (inl (inr old))
        | inr new ↦ elim new.1 [
          | inl e ↦ k.1 (inl (inl (ap (λ p. (p, username)) e ∙ ap (λ w. (g, w)) new.0)))
          | inr later ↦ k.1 (inr (new.0, later))
        ]
      ],
    )

-- What inserts leave of the database: all the rows, or an error.
abbrev Inserts : Text → List Text → Store → Result StoreError (Unit {0}) × Store → Type 0
Inserts username ids s (ok a, t) = t.db ≡ record s.db { members = added username ids s.db.members }
Inserts username ids s (err e, t) = Unit

module _ (username : Text) where
  Inserts-rest :
      (id : Text) (ids : List Text) (s t : Store) (q : Result StoreError (Unit {0}) × Store)
      → t.db ≡ record s.db { members = (id, username) ∷ s.db.members }
      → Inserts username ids t q
      → Inserts username (id ∷ ids) s q
  unfolding added
  Inserts-rest id ids s t (ok a, u) h g =
      g
      ∙ ap {A = Database} {B = Database}
          (λ db. record db { members = added username ids db.members }) h
  Inserts-rest id ids s t (err e, u) h g = tt

  Inserts-then :
      (id : Text) (ids : List Text) (s : Store) (r : Result StoreError (Unit {0}) × Store)
      → Inserts username (id ∷ []) s r
      → ((t : Store) → Inserts username ids t (add_members username ids t))
      → Inserts username (id ∷ ids) s (continue (λ _. add_members username ids) r)
  unfolding added
  Inserts-then id ids s (ok a, t) h k = Inserts-rest id ids s t (add_members username ids t) h (k t)
  Inserts-then id ids s (err e, t) h k = tt

  Inserts-one : (id : Text) (s : Store) → Inserts username (id ∷ []) s (add_member username id s)
  unfolding add_member execute_or added
  Inserts-one id s = elim (Bool-cases (member_clashes id username s.db)) [
    | inl clash ↦ rw clash tt
    | inr free ↦ rw free (
        execute_cases s (λ db. record db { members = (id, username) ∷ db.members })
          (Inserts username (id ∷ []) s) (λ gs. tt) (λ gs. refl))
  ]

  Inserts-all : (ids : List Text) (s : Store) → Inserts username ids s (add_members username ids s)
  unfolding add_members added
  Inserts-all [] s = refl
  Inserts-all (id ∷ ids) s =
      Inserts-then id ids s (add_member username id s) (Inserts-one id s) (Inserts-all ids)

-- The user is in exactly the groups `ids`, and all others are where they were.
pub record IsReplaced (username : Text) (ids : List Text) (before after : Database) : Type 0 where
  pub own : (g : Text) → In (g, username) after.members ↔ In g ids
  pub others :
      (g u : Text) → (username == u) ≡ false → In (g, u) after.members ↔ In (g, u) before.members
  pub groups : after.groups ≡ before.groups

module _ (username : Text) (ids : List Text) (db : Database) where
  abbrev dropped : List (Text × Text)
  dropped = keep_if (λ e. not (e.1 == username)) db.members

  own_dropped : (g : Text) → In (g, username) dropped → ⊥
  own_dropped g i =
      let k = (In-keep_if (λ e. not (e.1 == username)) (g, username) db.members).0 i in
      true-false (sym k.1 ∙ ap not (eq_refl username))

  abbrev replaced : Database
  replaced = record db { members = added username ids dropped }

  kept_other : (u : Text) → (username == u) ≡ false → not (u == username) ≡ true
  kept_other u h = ground (arith, eq_iff u username, eq_iff username u)

  new_other : (u g : Text) → (username == u) ≡ false → (username ≡ u) × In g ids → ⊥
  new_other u g h n = true-false (sym ((eq_iff username u).1 n.0) ∙ h)

  IsReplaced-replaced : IsReplaced username ids db replaced
  IsReplaced-replaced = record {
    own = λ g.
        let k =
          In-added g username username ids (keep_if (λ e. not (e.1 == username)) db.members) in
        (
          λ i. elim (k.0 i) [ inl old ↦ absurd (own_dropped g old) | inr new ↦ new.1 ],
          λ i. k.1 (inr (refl, i)),
        );
    others = λ g u h.
        let k = In-added g u username ids (keep_if (λ e. not (e.1 == username)) db.members) in
        let m = In-keep_if (λ e. not (e.1 == username)) (g, u) db.members in
        (
          λ i. elim (k.0 i) [ inl old ↦ (m.0 old).0 | inr new ↦ absurd (new_other u g h new) ],
          λ i. k.1 (inl (m.1 (i, kept_other u h))),
        );
    groups = refl;
  }

-- What replaceGroupMembership leaves: the new rows, or an error and the old ones.
abbrev pub Replaces : Text → List Text → Database → Result StoreError (Unit {0}) × Store → Type 0
Replaces username ids db (ok a, t) = IsReplaced username ids db t.db
Replaces username ids db (err e, t) = t.db ≡ db

module _ (username : Text) (ids : List Text) where
  Replaces-roll_back :
      (db : Database) (t : Store) (q : Result StoreError (Unit {0}) × Store)
      → t.db ≡ record db { members = keep_if (λ e. not (e.1 == username)) db.members }
      → Inserts username ids t q
      → Replaces username ids db (continue (λ _. invalidate_permissions username) (roll_back db q))
  unfolding invalidate_permissions
  Replaces-roll_back db t (ok a, u) e h =
      subst (IsReplaced username ids db)
        (sym (
          h
          ∙ ap {A = Database} {B = Database}
              (λ d. record d { members = added username ids d.members }) e))
        (IsReplaced-replaced username ids db)
  Replaces-roll_back db t (err f, u) e h = refl

  pub replace-Replaces :
      (s : Store) → Replaces username ids s.db (replace_group_membership username ids s)
  unfolding replace_group_membership transaction
  replace-Replaces s =
      execute_cases s
        (λ db. record db { members = keep_if (λ e. not (e.1 == username)) db.members })
        (λ r. Replaces username ids s.db (
          continue (λ _. invalidate_permissions username)
            (roll_back s.db (continue (λ _. add_members username ids) r))))
        (λ gs. refl)
        (λ gs.
          let t = record s {
            db = record s.db { members = keep_if (λ e. not (e.1 == username)) s.db.members };
            faults = gs;
          } in
          Replaces-roll_back s.db t (add_members username ids t) refl (Inserts-all username ids t))
