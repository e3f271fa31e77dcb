-- ===== src/Store/Accounts/Grouped.antt =====
-- internal/store: what each write of groups changes of the permissions that the tables give.
use tileserve_go.Prelude.{
  Bool, true, false, not, List, [], ◌∷◌, Text, ◌==◌, nat_eq, text_eq, pair_eq, eq_iff, keep_if, In,
  In-keep_if, ◌≡◌, refl, sym, ap, ◌∙◌, inl, inr, Bool-cases, arith, true-false,
}
use tileserve_go.Prelude.Assoc.{lookup, insert, remove}
use tileserve_go.Prelude.Assoc.Entries.{lookup_other, lookup_kept}
use tileserve_go.Store.Database.{Database, GroupRow, permissions_of_group}
use tileserve_go.Store.Accounts.{has_group, put_group, replace_group, delete_group_row}
use tileserve_go.Store.Accounts.Joined.{join_members_agree}
use tileserve_go.Store.Accounts.Changed.{
  known_insert, known_remove, not_same, select_permissions_as,
}
use tileserve_go.Store.Accounts.Permitted.{IsReferential, IsHarmless}

-- A group that has members is not an unknown one.
member_known :
    (id g : Text) (db : Database)
    → has_group id db ≡ false
    → has_group g db ≡ true
    → (id == g) ≡ false
member_known id g db unknown known = elim (Bool-cases (id == g)) [
  | inl same ↦
      absurd
        (true-false (sym known ∙ ap (λ i. has_group i db) (sym ((eq_iff id g).0 same)) ∙ unknown))
  | inr other ↦ other
]

pub IsReferential-put_group :
    (id : Text) (g : GroupRow) (db : Database)
    → IsReferential db
    → IsReferential (put_group id g db)
IsReferential-put_group id g db r = record {
  users = r.users;
  groups = λ i u m. known_insert id i g db.groups (r.groups i u m);
}

pub IsReferential-replace_group :
    (id : Text) (g : GroupRow) (db : Database)
    → IsReferential db
    → IsReferential (replace_group id g db)
IsReferential-replace_group id g db r = elim (Bool-cases (has_group id db)) [
  | inl known ↦ rw known (IsReferential-put_group id g db r)
  | inr unknown ↦ rw unknown r
]

-- A new group has no members yet.
pub put_group-IsHarmless :
    (id : Text) (g : GroupRow) (db : Database)
    → has_group id db ≡ false
    → IsReferential db
    → IsHarmless db (put_group id g db)
put_group-IsHarmless id g db fresh r = record {
  same = λ j v e.
      select_permissions_as db (put_group id g db) j refl (
        join_members_agree (λ i. permissions_of_group (lookup i db.groups))
          (λ i. permissions_of_group (lookup i (insert id g db.groups))) j db.members
          (λ i m.
            ap permissions_of_group
              (lookup_other id i g db.groups (member_known id i db fresh (r.groups i j m)))))
      ∙ e;
  rows = IsReferential-put_group id g db r;
}

pub IsReferential-delete_group_row :
    (id : Text) (db : Database) → IsReferential db → IsReferential (delete_group_row id db)
IsReferential-delete_group_row id db r =
    let kept = λ (g : Text). λ (u : Text). In-keep_if (λ e. not (e.0 == id)) (g, u) db.members in
    record {
      users = λ g u i. r.users g u ((kept g u).0 i).0;
      groups = λ g u i.
          known_remove id g db.groups (not_same g id ((kept g u).0 i).1)
            (r.groups g u ((kept g u).0 i).0);
    }

kept_all :
    {A : Type 0} (p : A → Bool) (l : List A) → ((a : A) → In a l → p a ≡ true) → keep_if p l ≡ l
kept_all p [] h = refl
kept_all p (a ∷ l) h = rw (h a (inl refl), kept_all p l (λ b i. h b (inr i))) refl

not_deleted : (id g : Text) → (id == g) ≡ false → not (g == id) ≡ true
not_deleted id g h = ground (arith, eq_iff id g, eq_iff g id)

unknown_members :
    (id : Text) (db : Database)
    → has_group id db ≡ false
    → IsReferential db
    → keep_if (λ e. not (e.0 == id)) db.members ≡ db.members
unknown_members id db unknown r =
    kept_all (λ e. not (e.0 == id)) db.members
      (λ e i. not_deleted id e.0 (member_known id e.0 db unknown (r.groups e.0 e.1 i)))

-- The deletion of an unknown group.
pub delete_group_row-IsHarmless :
    (id : Text) (db : Database)
    → has_group id db ≡ false
    → IsReferential db
    → IsHarmless db (delete_group_row id db)
delete_group_row-IsHarmless id db unknown r = record {
  same = λ j v e.
      select_permissions_as db (delete_group_row id db) j refl (
        rw (unknown_members id db unknown r) (
          join_members_agree (λ i. permissions_of_group (lookup i db.groups))
            (λ i. permissions_of_group (lookup i (remove id db.groups))) j db.members
            (λ i m.
              ap permissions_of_group
                (lookup_kept id i db.groups (member_known id i db unknown (r.groups i j m))))))
      ∙ e;
  rows = IsReferential-delete_group_row id db r;
}
