-- ===== src/Store/Membership/Grown.antt =====
-- internal/store/group_membership.go: the groups that a sync finds or creates.
use tileserve_go.Prelude.{
  both_false, false, ◌||◌, Option, none, some, List, [], ◌∷◌, ◌++◌, Text, ◌==◌, nat_eq, text_eq,
  pair_eq, eq_iff, In, ◌≡◌, refl, ap, ◌∙◌, inl, inr, Bool-cases, arith, none-some, true-false,
}
use tileserve_go.Prelude.Assoc.{lookup, insert, remove}
use tileserve_go.Prelude.Monad.{Result, ok, err, Exec, continue, recover, pure, raise}
use tileserve_go.Store.Database.{Database, GroupRow}
use tileserve_go.Store.Grants.{is_some}
use tileserve_go.Store.State.{Store, StoreError, db_failed, group_exists, group_not_found, row_or}
use tileserve_go.Store.State.Cases.{execute_cases, query_cases}
use tileserve_go.Store.Accounts.{has_group, execute_or, breaks_unique, put_group, create_group}
use tileserve_go.Store.Membership.{
  Link, ldap_dn, oidc_claim, link_of, linked_group, find_group_by_link, synced_group,
  insert_synced_group, Draws, retry_suffixed, after_violation, create_if_missing,
  get_or_create_group_by_link,
}

-- Rows of groups may be new; no membership is.
pub record IsGrown (before after : Database) : Type 0 where
  pub members : after.members ≡ before.members
  pub groups : (e : Text × GroupRow) → In e before.groups → In e after.groups

pub IsGrown-refl : (db : Database) → IsGrown db db
IsGrown-refl db = record { members = refl; groups = λ e i. i }

pub IsGrown-trans : (a b c : Database) → IsGrown a b → IsGrown b c → IsGrown a c
IsGrown-trans a b c p q = record {
  members = q.members ∙ p.members;
  groups = λ e i. q.groups e (p.groups e i);
}

-- A row of `groups` has the link.
abbrev pub HasLink : Link → Text → Text → Database → Type 0
HasLink l value id db = (g : GroupRow) × In (id, g) db.groups × (link_of l g ≡ value)

pub HasLink-IsGrown :
    (l : Link) (value id : Text) (a b : Database)
    → IsGrown a b
    → HasLink l value id a
    → HasLink l value id b
HasLink-IsGrown l value id a b p h = (h.0, p.groups (id, h.0) h.1, h.2)

-- An action that only makes groups grow, and returns only what has `Q`.
abbrev pub Grows :
    {A : Type 0} → (A → Database → Type 0) → Store → Result StoreError A × Store → Type 0
Grows Q s (ok a, t) = IsGrown s.db t.db × Q a t.db
Grows Q s (err e, t) = IsGrown s.db t.db

module _ {A : Type 0} (Q : A → Database → Type 0) where
  Grows-from :
      (s t : Store) (r : Result StoreError A × Store)
      → IsGrown s.db t.db
      → Grows Q t r
      → Grows Q s r
  Grows-from s t (ok a, u) p h = (IsGrown-trans s.db t.db u.db p h.0, h.1)
  Grows-from s t (err e, u) p h = IsGrown-trans s.db t.db u.db p h

  pub Grows-recover :
      (s : Store) (r : Result StoreError A × Store) (f : StoreError → Exec Store StoreError A)
      → ((e : StoreError) (t : Store) → Grows Q t (f e t))
      → Grows Q s r
      → Grows Q s (recover f r)
  Grows-recover s (ok a, t) f k h = h
  Grows-recover s (err e, t) f k h = Grows-from s t (f e t) h (k e t)

  pub Grows-raise : (s : Store) (e : StoreError) → Grows Q s (raise {A = A} e s)
  Grows-raise s e = IsGrown-refl s.db

module _ {A B : Type 0} (Q : A → Database → Type 0) (R : B → Database → Type 0) where
  pub Grows-continue :
      (s : Store) (r : Result StoreError A × Store) (f : A → Exec Store StoreError B)
      → ((a : A) (t : Store) → IsGrown s.db t.db → Q a t.db → Grows R t (f a t))
      → Grows Q s r
      → Grows R s (continue f r)
  Grows-continue s (ok a, t) f k h = Grows-from R s t (f a t) h.0 (k a t h.0 h.1)
  Grows-continue s (err e, t) f k h = h

linked_group-HasLink :
    (l : Link) (value id : Text) (groups : List (Text × GroupRow))
    → linked_group l value groups ≡ some id
    → (g : GroupRow) × In (id, g) groups × (link_of l g ≡ value)
unfolding linked_group
linked_group-HasLink l value id [] h = absurd (none-some h)
linked_group-HasLink l value id ((j, g) ∷ groups) h = elim (Bool-cases (link_of l g == value)) [
  | inl found ↦
      let h2 : some j ≡ some id = (rw found at h) in
      (g, inl (ap (λ i. (i, g)) (ground (arith, h2))), (eq_iff (link_of l g) value).0 found)
  | inr other ↦
      let h2 : linked_group l value groups ≡ some id = (rw other at h) in
      let below = linked_group-HasLink l value id groups h2 in (below.0, inr below.1, below.2)
]

row_or-HasLink :
    (l : Link) (value : Text) (s : Store) (o : Option Text)
    → linked_group l value s.db.groups ≡ o
    → Grows (HasLink l value) s (row_or group_not_found o s)
row_or-HasLink l value s none e = IsGrown-refl s.db
row_or-HasLink l value s (some id) e =
    (IsGrown-refl s.db, linked_group-HasLink l value id s.db.groups e)

pub find-Grows :
    (l : Link) (value : Text) (s : Store) → Grows (HasLink l value) s (find_group_by_link l value s)
unfolding find_group_by_link
find-Grows l value s =
    query_cases s (λ db. linked_group l value db.groups)
      (λ r. Grows (HasLink l value) s (continue (λ id. row_or group_not_found id) r))
      (λ gs. IsGrown-refl s.db)
      (λ gs.
        row_or-HasLink l value (record s { faults = gs }) (linked_group l value s.db.groups) refl)

fresh_remove :
    {V : Type 0} (k : Text) (m : List (Text × V)) → is_some (lookup k m) ≡ false → remove k m ≡ m
unfolding lookup remove
fresh_remove k [] h = refl
fresh_remove k ((j, v) ∷ m) h = elim (Bool-cases (j == k)) [
  | inl same ↦ absurd (true-false (rw same at h))
  | inr other ↦ rw (other, fresh_remove k m (rw other at h)) refl
]

put_group-IsGrown :
    (id : Text) (g : GroupRow) (db : Database)
    → has_group id db ≡ false
    → IsGrown db (put_group id g db)
unfolding insert
put_group-IsGrown id g db fresh = record {
  members = refl;
  groups = λ e i. inr (rw (fresh_remove id db.groups fresh) i);
}

module _ (l : Link) (value : Text) where
  create_group-Grows :
      (id : Text) (g : GroupRow) (s : Store)
      → link_of l g ≡ value
      → Grows (λ h db. HasLink l value id db) s (create_group id g s)
  unfolding create_group execute_or insert
  create_group-Grows id g s e = elim (Bool-cases (has_group id s.db || breaks_unique id g s.db)) [
    | inl taken ↦ rw taken (IsGrown-refl s.db)
    | inr free ↦ rw free (
        execute_cases s (put_group id g)
          (λ r. Grows (λ h db. HasLink l value id db) s (continue (λ _. pure g) r))
          (λ gs. IsGrown-refl s.db)
          (λ gs. (
            put_group-IsGrown id g s.db
                (both_false (has_group id s.db) (breaks_unique id g s.db) free).0,
            (g, inl refl, e),
          )))
  ]

  link_of_synced : (m : Link) (v name : Text) → link_of m (synced_group m v name) ≡ v
  link_of_synced ldap_dn v name = refl
  link_of_synced oidc_claim v name = refl

  insert-Grows :
      (name id : Text) (s : Store)
      → Grows (HasLink l value) s (insert_synced_group l value name id s)
  unfolding insert_synced_group
  insert-Grows name id s =
      Grows-continue (λ h db. HasLink l value id db) (HasLink l value) s
        (create_group id (synced_group l value name) s) (λ h. pure id)
        (λ g t p h. (IsGrown-refl t.db, h))
        (create_group-Grows id (synced_group l value name) s (link_of_synced l value name))

  row-Grows : (o : Option Text) (s : Store) → Grows (λ a db. Unit {0}) s (row_or db_failed o s)
  row-Grows none s = IsGrown-refl s.db
  row-Grows (some a) s = (IsGrown-refl s.db, tt)

  retry-Grows :
      (name : Text) (d : Draws) (s : Store)
      → Grows (HasLink l value) s (retry_suffixed l value name d s)
  unfolding retry_suffixed
  retry-Grows name d s =
      Grows-continue (λ a db. Unit {0}) (HasLink l value) s (row_or db_failed d.suffix s)
        (λ suffix. insert_synced_group l value (name ++ b'-' ∷ suffix) d.second_id)
        (λ suffix t p h. insert-Grows (name ++ b'-' ∷ suffix) d.second_id t) (row-Grows d.suffix s)

  violation-Grows :
      (name : Text) (d : Draws) (e : StoreError) (s : Store)
      → Grows (HasLink l value) s (after_violation l value name d e s)
  unfolding after_violation
  violation-Grows name d group_exists s =
      Grows-recover (HasLink l value) s (find_group_by_link l value s)
        (λ e. retry_suffixed l value name d) (λ e t. retry-Grows name d t) (find-Grows l value s)
  violation-Grows name d e s = IsGrown-refl s.db

  missing-Grows :
      (name : Text) (d : Draws) (e : StoreError) (s : Store)
      → Grows (HasLink l value) s (create_if_missing l value name d e s)
  unfolding create_if_missing
  missing-Grows name d group_not_found s =
      Grows-recover (HasLink l value) s (insert_synced_group l value name d.first_id s)
        (after_violation l value name d) (violation-Grows name d) (insert-Grows name d.first_id s)
  missing-Grows name d e s = IsGrown-refl s.db

  -- The group that is returned is in the table and has the link.
  pub get_or_create-Grows :
      (name : Text) (d : Draws) (s : Store)
      → Grows (HasLink l value) s (get_or_create_group_by_link l value name d s)
  unfolding get_or_create_group_by_link
  get_or_create-Grows name d s =
      Grows-recover (HasLink l value) s (find_group_by_link l value s)
        (create_if_missing l value name d) (missing-Grows name d) (find-Grows l value s)
