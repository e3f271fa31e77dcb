-- ===== src/Store/Grants/Joined.antt =====
-- internal/store/map_permissions.go: the rows that the query of GetMapPermission joins.
use tileserve_go.Prelude.{
  some_same, Bool, true, Option, none, some, List, [], ◌∷◌, Text, ◌==◌, nat_eq, text_eq, pair_eq,
  eq_iff, any, In, ◌≡◌, ◌↔◌, ◌⊎◌, inl, inr, refl, sym, ap, ◌∙◌, subst, Bool-cases, true-false,
  arith, iff_trans,
}
use tileserve_go.Prelude.Assoc.{lookup}
use tileserve_go.Store.Database.{
  Database, MapPermission, cons_some, join_members, grant_rows, select_map_permission,
}

-- A row that is there has the flag.
abbrev pub HasFlag : (MapPermission → Bool) → Option MapPermission → Type 0
HasFlag flag o = (mp : MapPermission) × (o ≡ some mp) × (flag mp ≡ true)

-- A grant with the flag: the user's own, or one of a group that the user is a member of.
abbrev pub IsGranted : (MapPermission → Bool) → Text → Text → Database → Type 0
IsGranted flag map_id username db =
    HasFlag flag (lookup (map_id, username) db.map_permissions)
    ⊎ ((group : Text) × In (group, username) db.members
        × HasFlag flag (lookup (map_id, group) db.group_map_permissions))

right_iff : {A B C : Type 0} → B ↔ C → (A ⊎ B) ↔ (A ⊎ C)
right_iff k = ground (arith, k)

module _ (flag : MapPermission → Bool) where
  any-cons_some :
      (o : Option MapPermission) (l : List MapPermission)
      → (any flag (cons_some o l) ≡ true) ↔ (HasFlag flag o ⊎ (any flag l ≡ true))
  any-cons_some none l = (λ h. inr h, λ h. elim h [ inl g ↦ absurd (ground arith) | inr g ↦ g ])
  any-cons_some (some mp) l = elim (Bool-cases (flag mp)) [
    | inl h ↦ rw h (λ e. inl (mp, refl, h), λ e. refl)
    | inr h ↦ rw h (
      λ e. inr e,
      λ e. elim e [
        | inl g ↦ absurd (true-false (sym g.2 ∙ ap flag (sym (some_same g.1)) ∙ h))
        | inr g ↦ g
      ],
    )
  ]

  module _ (find : Text → Option MapPermission) (username : Text) where
    -- A membership of the user whose group leads to a row with the flag.
    abbrev IsJoined : List (Text × Text) → Type 0
    IsJoined members = (group : Text) × In (group, username) members × HasFlag flag (find group)

    any-join_members :
        (members : List (Text × Text))
        → (any flag (join_members find username members) ≡ true) ↔ IsJoined members
    unfolding join_members
    any-join_members [] = (λ h. absurd (ground arith), λ h. absurd h.1)
    any-join_members ((group, user) ∷ members) =
        let rest = any-join_members members in
        let both = any-cons_some (find group) (join_members find username members) in
        elim (Bool-cases (user == username)) [
          | inl same ↦
              let e : user ≡ username = (eq_iff user username).0 same in
              rw same (
                λ h. elim (both.0 h) [
                  | inl g ↦ (group, inl (ap (λ u. (group, u)) e), g)
                  | inr g ↦ let j = rest.0 g in (j.0, inr j.1, j.2)
                ],
                λ j. both.1 (elim j.1 [
                  | inl p ↦ inl (subst (λ g. HasFlag flag (find g)) (sym (ap (λ q. q.0) p)) j.2)
                  | inr i ↦ inr (rest.1 (j.0, i, j.2))
                ]),
              )
          | inr other ↦ rw other (
            λ h. let j = rest.0 h in (j.0, inr j.1, j.2),
            λ j. elim j.1 [
              | inl p ↦
                  absurd (true-false (sym ((eq_iff user username).1 (ap (λ q. q.1) p)) ∙ other))
              | inr i ↦ rest.1 (j.0, i, j.2)
            ],
          )
        ]

  pub any-grant_rows :
      (map_id username : Text) (db : Database)
      → (any flag (grant_rows map_id username db) ≡ true) ↔ IsGranted flag map_id username db
  unfolding grant_rows
  any-grant_rows map_id username db =
      let find = λ (g : Text). lookup (map_id, g) db.group_map_permissions in
      iff_trans
        (any-cons_some (lookup (map_id, username) db.map_permissions)
          (join_members find username db.members))
        (right_iff (any-join_members find username db.members))

-- Each of the five flags is true exactly if a grant has it.
pub record IsUnionOf (map_id username : Text) (db : Database) (mp : MapPermission) : Type 0 where
  pub view : (mp.can_view ≡ true) ↔ IsGranted (λ g. g.can_view) map_id username db
  pub edit : (mp.can_edit ≡ true) ↔ IsGranted (λ g. g.can_edit) map_id username db
  pub delete : (mp.can_delete ≡ true) ↔ IsGranted (λ g. g.can_delete) map_id username db
  pub edit_geo_objects :
      (mp.can_edit_geo_objects ≡ true) ↔ IsGranted (λ g. g.can_edit_geo_objects) map_id username db
  pub delete_geo_objects :
      (mp.can_delete_geo_objects ≡ true)
      ↔ IsGranted (λ g. g.can_delete_geo_objects) map_id username db

pub IsUnionOf-same :
    (map_id username : Text) (db : Database) (mp : MapPermission)
    → mp ≡ select_map_permission map_id username db
    → IsUnionOf map_id username db mp
unfolding select_map_permission
IsUnionOf-same map_id username db mp e = rw e (record {
  view = any-grant_rows (λ g. g.can_view) map_id username db;
  edit = any-grant_rows (λ g. g.can_edit) map_id username db;
  delete = any-grant_rows (λ g. g.can_delete) map_id username db;
  edit_geo_objects = any-grant_rows (λ g. g.can_edit_geo_objects) map_id username db;
  delete_geo_objects = any-grant_rows (λ g. g.can_delete_geo_objects) map_id username db;
})
