-- ===== src/Store/Accounts/Cached.antt =====
-- internal/store/users.go and groups.go: the cached permissions behind each method.
use tileserve_go.Prelude.{
  both_false, ℕ, Bool, true, false, ◌&&◌, ◌||◌, Option, [], ◌∷◌, Text, nat_eq, text_eq, pair_eq,
  if◌then◌else◌, ◌≡◌, inl, inr, Bool-cases,
}
use tileserve_go.Prelude.Assoc.{lookup}
use tileserve_go.Prelude.Monad.{Exec, pure, raise, gets, ◌>>◌}
use tileserve_go.Prelude.Monad.Leads.{
  Leads, Leads-pure, Leads-raise, Leads-bind, Leads-then, Leads-test,
}
use tileserve_go.Store.Database.{Database, Permissions, GroupRow}
use tileserve_go.Store.State.{
  Store, StoreError, db_failed, user_not_found, user_exists, user_owns_maps, group_exists,
  group_not_found, row_or, execute,
}
use tileserve_go.Store.Grants.{clear_grants}
use tileserve_go.Store.Accounts.{
  has_user, has_group, execute_or, invalidate_permissions, clear_permissions, put_user, create_user,
  add_unless_user, seed_permissions, no_permissions, seed_user, sync_username, ensure_sync_user,
  update_user_row, hash_if_given, update_user, owns_maps, delete_user_row, delete_user,
  breaks_unique, put_group, create_group, replace_group, update_group, delete_group_row,
  delete_group,
}
use tileserve_go.Store.Accounts.Permitted.{
  IsReferential, HasTruePermissions, IsTrueBut, HasRows, IsHarmless, IsSteady,
  HasTruePermissions-IsSteady, IsTrueBut-IsSteady, HasRows-IsSteady, Leads-execute, Leads-query,
  Leads-row, Leads-execute_or, harmless, changed, IsTrueBut-HasTruePermissions, Leads-invalidate,
  Leads-clear,
}
use tileserve_go.Store.Accounts.Changed.{
  ChangesOne-IsHarmless, put_user-ChangesOne, set_user_permissions-ChangesOne,
  delete_user_row-ChangesOne,
}
use tileserve_go.Store.Accounts.Grouped.{
  IsReferential-replace_group, put_group-IsHarmless, IsReferential-delete_group_row,
  delete_group_row-IsHarmless,
}

-- An action that leaves true permissions, whatever it returns.
abbrev pub LeavesTrue : {A : Type 0} → Exec Store StoreError A → Type 0
LeavesTrue m = Leads HasTruePermissions HasTruePermissions HasTruePermissions m

pub LeavesTrue-row : {A : Type 0} (e : StoreError) (o : Option A) → LeavesTrue (row_or e o)
LeavesTrue-row = Leads-row HasTruePermissions-IsSteady (λ s h. h)

add_unless_user-IsHarmless :
    (username : Text) (id : ℕ) (perms : Permissions) (db : Database)
    → IsReferential db
    → IsHarmless db (add_unless_user username id perms db)
add_unless_user-IsHarmless username id perms db r = elim (Bool-cases (has_user username db)) [
  | inl known ↦ rw known (record { same = λ j v e. e; rows = r })
  | inr fresh ↦ rw fresh (
      ChangesOne-IsHarmless username db (put_user username id perms db) fresh
        (put_user-ChangesOne username id perms db) r)
]

pub LeavesTrue-create_user :
    (hash : Option Text) (id : ℕ) (username : Text) (perms : Permissions)
    → LeavesTrue (create_user hash id username perms)
unfolding create_user
LeavesTrue-create_user hash id username perms =
    Leads-then (row_or db_failed hash) _ (LeavesTrue-row db_failed hash) (
      Leads-then _ _
        (Leads-execute_or HasTruePermissions-IsSteady (λ s h. h) (has_user username) user_exists
          (put_user username id perms)
          (λ s gs fresh. harmless s (put_user username id perms s.db) gs (
            ChangesOne-IsHarmless username s.db (put_user username id perms s.db) fresh
              (put_user-ChangesOne username id perms s.db))))
        (Leads-pure _))

LeavesTrue-add :
    (username : Text) (id : ℕ) (perms : Permissions)
    → LeavesTrue (execute (add_unless_user username id perms))
LeavesTrue-add username id perms =
    Leads-execute HasTruePermissions-IsSteady (λ s h. h) (add_unless_user username id perms)
      (λ s gs.
        harmless s (add_unless_user username id perms s.db) gs
          (add_unless_user-IsHarmless username id perms s.db))

pub LeavesTrue-seed_user :
    (hash : Option Text) (id : ℕ) (username : Text) → LeavesTrue (seed_user hash id username)
unfolding seed_user
LeavesTrue-seed_user hash id username =
    Leads-bind (row_or db_failed hash) _ (LeavesTrue-row db_failed hash)
      (λ _. LeavesTrue-add username id seed_permissions)

pub LeavesTrue-ensure_sync_user : (id : ℕ) → LeavesTrue (ensure_sync_user id)
unfolding ensure_sync_user
LeavesTrue-ensure_sync_user id = LeavesTrue-add sync_username id no_permissions

-- What is known of an unknown user or group stands beside the predicate.
steady_and :
    {P : Store → Type 0} (test : Database → Bool) (b : Bool)
    → IsSteady P
    → IsSteady (λ s. P s × (test s.db ≡ b))
steady_and test b i = record { at = λ s gs h. (i.at s gs h.0, h.1) }

pub LeavesTrue-delete_user : (username : Text) → LeavesTrue (delete_user username)
unfolding delete_user
LeavesTrue-delete_user username =
    Leads-test (λ s. has_user username s.db)
      (λ found.
        execute_or (owns_maps username) user_owns_maps (delete_user_row username)
        >> (if found then invalidate_permissions username else raise user_not_found))
      (Leads-then _ _
        (Leads-execute_or {Q = IsTrueBut username}
          (steady_and (has_user username) true HasTruePermissions-IsSteady) (λ s h. h.0)
          (owns_maps username) user_owns_maps (delete_user_row username)
          (λ s gs _ h.
            changed username s (delete_user_row username s.db) gs
              (delete_user_row-ChangesOne username s.db)
              (IsTrueBut-HasTruePermissions username s h.0)))
        (Leads-invalidate username))
      (Leads-then _ _
        (Leads-execute_or {Q = HasTruePermissions}
          (steady_and (has_user username) false HasTruePermissions-IsSteady) (λ s h. h.0)
          (owns_maps username) user_owns_maps (delete_user_row username)
          (λ s gs _ h.
            harmless s (delete_user_row username s.db) gs
              (ChangesOne-IsHarmless username s.db (delete_user_row username s.db) h.1
                (delete_user_row-ChangesOne username s.db))
              h.0))
        (Leads-raise user_not_found (λ s h. h)))

Leads-gets :
    {A : Type 0} {P F : Store → Type 0} (f : Store → A) → Leads {E = StoreError} P P F (gets f)
Leads-gets f = record { at = λ s h. h }

Leads-hash :
    (hash : Option Text) (password : Text)
    → Leads HasTruePermissions HasTruePermissions HasRows (hash_if_given hash password)
Leads-hash hash [] = Leads-pure tt
Leads-hash hash (c ∷ password) =
    Leads-then (row_or db_failed hash) (pure tt)
      (Leads-row HasTruePermissions-IsSteady (λ s h. record { rows = h.rows }) db_failed hash)
      (Leads-pure tt)

Leads-found :
    {P F : Store → Type 0} (found : Bool) (e : StoreError)
    → ((s : Store) → P s → F s)
    → Leads P P F (if found then pure tt else raise e)
Leads-found true e h = Leads-pure tt
Leads-found false e h = Leads-raise e h

-- UpdateUser drops the cached permissions only once it has read the row again.
pub Leads-update_user :
    (hash : Option Text) (username : Text) (perms : Permissions) (password : Text)
    → Leads HasTruePermissions HasTruePermissions HasRows (update_user hash username perms password)
unfolding update_user
Leads-update_user hash username perms password =
    let fails : (s : Store) → IsTrueBut username s → HasRows s = λ s h. record { rows = h.rows } in
    let steady = IsTrueBut-IsSteady username in
    Leads-then _ _ (Leads-hash hash password) (
      Leads-bind _ _ (Leads-gets (λ s. has_user username s.db)) (λ found.
        Leads-then _ _
          (Leads-execute HasTruePermissions-IsSteady (λ s h. record { rows = h.rows })
            (update_user_row username perms)
            (λ s gs h.
              changed username s (update_user_row username perms s.db) gs
                (set_user_permissions-ChangesOne username perms (lookup username s.db.users) s.db)
                (IsTrueBut-HasTruePermissions username s h)))
          (Leads-then _ _ (Leads-found found user_not_found fails) (
            Leads-bind _ _ (Leads-query steady fails (λ db. lookup username db.users)) (λ row.
              Leads-bind _ _ (Leads-row steady fails db_failed row)
                (λ u. Leads-then _ _ (Leads-invalidate username) (Leads-pure u)))))))

Leads-clear_grants :
    {F : Store → Type 0} → Leads HasTruePermissions HasTruePermissions F clear_grants
unfolding clear_grants
Leads-clear_grants = record { at = λ s h. record { coherent = h.coherent; rows = h.rows } }

pub Leads-update_group :
    (id : Text) (g : GroupRow)
    → Leads HasTruePermissions HasTruePermissions HasRows (update_group id g)
unfolding update_group
Leads-update_group id g = Leads-bind _ _ (Leads-gets (λ s. has_group id s.db)) (λ found.
    Leads-then _ _
      (Leads-execute_or {Q = HasRows} HasTruePermissions-IsSteady (λ s h. record { rows = h.rows })
        (λ db. has_group id db && breaks_unique id g db) group_exists (replace_group id g)
        (λ s gs _ h. record { rows = IsReferential-replace_group id g s.db h.rows }))
      (Leads-then _ _ (Leads-found found group_not_found (λ s h. h)) (
        Leads-bind _ _ (Leads-query HasRows-IsSteady (λ s h. h) (λ db. lookup id db.groups)) (λ row.
          Leads-bind _ _ (Leads-row HasRows-IsSteady (λ s h. h) db_failed row)
            (λ h. Leads-then _ _ Leads-clear (Leads-then _ _ Leads-clear_grants (Leads-pure h)))))))

pub LeavesTrue-create_group : (id : Text) (g : GroupRow) → LeavesTrue (create_group id g)
unfolding create_group
LeavesTrue-create_group id g =
    Leads-then _ _
      (Leads-execute_or HasTruePermissions-IsSteady (λ s h. h)
        (λ db. has_group id db || breaks_unique id g db) group_exists (put_group id g)
        (λ s gs fresh. harmless s (put_group id g s.db) gs (
          put_group-IsHarmless id g s.db
            (both_false (has_group id s.db) (breaks_unique id g s.db) fresh).0)))
      (Leads-pure g)

pub LeavesTrue-delete_group : (id : Text) → LeavesTrue (delete_group id)
unfolding delete_group
LeavesTrue-delete_group id =
    Leads-test (λ s. has_group id s.db)
      (λ found.
        execute (delete_group_row id)
        >> ((if found then pure tt else raise group_not_found)
            >> (clear_permissions >> clear_grants)))
      (Leads-then _ _
        (Leads-execute {Q = HasRows} (steady_and (has_group id) true HasTruePermissions-IsSteady)
          (λ s h. h.0) (delete_group_row id)
          (λ s gs h. record { rows = IsReferential-delete_group_row id s.db h.0.rows }))
        (Leads-then _ _ (Leads-pure tt) (Leads-then _ _ Leads-clear Leads-clear_grants)))
      (Leads-then _ _
        (Leads-execute {Q = HasTruePermissions}
          (steady_and (has_group id) false HasTruePermissions-IsSteady) (λ s h. h.0)
          (delete_group_row id)
          (λ s gs h.
            harmless s (delete_group_row id s.db) gs (delete_group_row-IsHarmless id s.db h.1) h.0))
        (Leads-then {A = Unit {0}} _ (clear_permissions >> clear_grants)
          (Leads-raise {Q = HasRows} group_not_found (λ s h. h))
          (Leads-then _ _ Leads-clear Leads-clear_grants)))
