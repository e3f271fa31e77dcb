-- ===== src/Store/Accounts/Changed.antt =====
-- internal/store: what each write of users, groups or memberships changes of the permissions that
-- the tables give.
use tileserve_go.Prelude.{
  ℕ, true, false, not, Option, none, some, List, ◌∷◌, Text, ◌==◌, nat_eq, text_eq, pair_eq, eq_iff,
  keep_if, In-keep_if, ◌≡◌, refl, sym, ap, ◌∙◌, inl, inr, Bool-cases, arith, none-some, true-false,
}
use tileserve_go.Prelude.Assoc.{lookup, insert, remove, lookup-insert}
use tileserve_go.Prelude.Assoc.Entries.{lookup_other, lookup_kept}
use tileserve_go.Store.Database.{
  Database, Permissions, UserRow, join_members, permissions_of_group, permission_rows,
  select_permissions,
}
use tileserve_go.Store.Grants.{is_some}
use tileserve_go.Store.Accounts.{
  has_user, has_group, put_user, set_user_permissions, delete_user_row,
}
use tileserve_go.Store.Accounts.Joined.{
  join_members_others, join_members_unknown, join_members_added,
}
use tileserve_go.Store.Accounts.Permitted.{IsReferential, IsHarmless, ChangesOne}

pub known_insert :
    {V : Type 0} (k j : Text) (v : V) (m : List (Text × V))
    → is_some (lookup j m) ≡ true
    → is_some (lookup j (insert k v m)) ≡ true
known_insert k j v m h = ground (arith, lookup-insert k j v m)

pub known_remove :
    {V : Type 0} (k j : Text) (m : List (Text × V))
    → (k == j) ≡ false
    → is_some (lookup j m) ≡ true
    → is_some (lookup j (remove k m)) ≡ true
known_remove k j m other h = rw (lookup_kept k j m other) h

unknown_none : {V : Type 0} (o : Option V) → is_some o ≡ false → o ≡ none
unknown_none none h = refl
unknown_none (some v) h = absurd (true-false h)

pub not_same : (j k : Text) → not (j == k) ≡ true → (k == j) ≡ false
not_same j k h = ground (arith, eq_iff j k, eq_iff k j)

-- The rows of a user come of the user's own row and of the groups of the memberships.
pub select_permissions_as :
    (before after : Database) (j : Text)
    → lookup j after.users ≡ lookup j before.users
    → join_members (λ g. permissions_of_group (lookup g after.groups)) j after.members
      ≡ join_members (λ g. permissions_of_group (lookup g before.groups)) j before.members
    → select_permissions j after ≡ select_permissions j before
unfolding select_permissions permission_rows
select_permissions_as before after j u m = rw (u, m) refl

-- A user that is in no table has no permissions.
select_permissions_unknown :
    (username : Text) (db : Database)
    → IsReferential db
    → has_user username db ≡ false
    → select_permissions username db ≡ none
unfolding select_permissions permission_rows
select_permissions_unknown username db r h =
    rw
      (
        unknown_none (lookup username db.users) h,
        join_members_unknown (λ g. permissions_of_group (lookup g db.groups)) username db.members
            (λ g i. true-false (sym (r.users g username i) ∙ h)),
      )
      refl

-- A change at one unknown user keeps what is known of every user.
pub ChangesOne-IsHarmless :
    (username : Text) (before after : Database)
    → has_user username before ≡ false
    → ChangesOne username before after
    → IsReferential before
    → IsHarmless before after
ChangesOne-IsHarmless username before after h c r = record {
  same = λ j v e. elim (Bool-cases (username == j)) [
    | inl here ↦ absurd (
        none-some (
          sym (select_permissions_unknown username before r h)
          ∙ ap (λ i. select_permissions i before) ((eq_iff username j).0 here)
          ∙ e))
    | inr other ↦ c.same j other ∙ e
  ];
  rows = c.rows r;
}

pub put_user-ChangesOne :
    (username : Text) (id : ℕ) (perms : Permissions) (db : Database)
    → ChangesOne username db (put_user username id perms db)
put_user-ChangesOne username id perms db =
    let u : UserRow = record { id = id; permissions = perms } in
    record {
      same = λ j other.
          select_permissions_as db (put_user username id perms db) j
            (lookup_other username j u db.users other) refl;
      rows = λ r. record {
        users = λ g j i. known_insert username j u db.users (r.users g j i);
        groups = r.groups;
      };
    }

pub set_user_permissions-ChangesOne :
    (username : Text) (perms : Permissions) (o : Option UserRow) (db : Database)
    → ChangesOne username db (set_user_permissions username perms o db)
set_user_permissions-ChangesOne username perms none db = record {
  same = λ j other. refl;
  rows = λ r. r;
}
set_user_permissions-ChangesOne username perms (some u) db =
    put_user-ChangesOne username u.id perms db

pub delete_user_row-ChangesOne :
    (username : Text) (db : Database) → ChangesOne username db (delete_user_row username db)
delete_user_row-ChangesOne username db = record {
  same = λ j other.
      select_permissions_as db (delete_user_row username db) j
        (lookup_kept username j db.users other)
        (join_members_others (λ g. permissions_of_group (lookup g db.groups)) username j db.members
          other);
  rows = λ r. record {
    users = λ g j i.
        let k = (In-keep_if (λ e. not (e.1 == username)) (g, j) db.members).0 i in
        known_remove username j db.users (not_same j username k.1) (r.users g j k.0);
    groups =
        λ g j i. r.groups g j ((In-keep_if (λ e. not (e.1 == username)) (g, j) db.members).0 i).0;
  };
}

-- The memberships of one user.
pub dropped_members-ChangesOne :
    (username : Text) (db : Database)
    → ChangesOne username db
        (record db { members = keep_if (λ e. not (e.1 == username)) db.members })
dropped_members-ChangesOne username db = record {
  same = λ j other.
      select_permissions_as db
        (record db { members = keep_if (λ e. not (e.1 == username)) db.members }) j refl
        (join_members_others (λ g. permissions_of_group (lookup g db.groups)) username j db.members
          other);
  rows = λ r. record {
    users =
        λ g j i. r.users g j ((In-keep_if (λ e. not (e.1 == username)) (g, j) db.members).0 i).0;
    groups =
        λ g j i. r.groups g j ((In-keep_if (λ e. not (e.1 == username)) (g, j) db.members).0 i).0;
  };
}

pub added_member-ChangesOne :
    (username id : Text) (db : Database)
    → has_user username db ≡ true
    → has_group id db ≡ true
    → ChangesOne username db (record db { members = (id, username) ∷ db.members })
added_member-ChangesOne username id db hu hg = record {
  same = λ j other.
      select_permissions_as db (record db { members = (id, username) ∷ db.members }) j refl
        (join_members_added (λ g. permissions_of_group (lookup g db.groups)) id username j
          db.members other);
  rows = λ r. record {
    users =
        λ g j i. elim i [ inl e ↦ ap (λ p. has_user p.1 db) (sym e) ∙ hu | inr l ↦ r.users g j l ];
    groups = λ g j i. elim i [
      | inl e ↦ ap (λ p. has_group p.0 db) (sym e) ∙ hg
      | inr l ↦ r.groups g j l
    ];
  };
}
