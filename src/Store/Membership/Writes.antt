-- ===== src/Store/Membership/Writes.antt =====
-- internal/store/users.go, groups.go and group_membership.go: the writes as one type, and the cached
-- permissions behind each.
use tileserve_go.Prelude.{ℕ, Option, List, Text, nat_eq, text_eq, pair_eq}
use tileserve_go.Prelude.Monad.{Exec, pure, ◌>>◌}
use tileserve_go.Prelude.Monad.Leads.{Outcome, Leads, Leads-pure, Leads-then}
use tileserve_go.Store.Database.{Permissions, GroupRow}
use tileserve_go.Store.State.{Store, StoreError}
use tileserve_go.Store.Accounts.{
  create_user, seed_user, ensure_sync_user, update_user, delete_user, create_group, update_group,
  delete_group,
}
use tileserve_go.Store.Accounts.Permitted.{HasTruePermissions, HasRows}
use tileserve_go.Store.Accounts.Cached.{
  LeavesTrue-create_user, LeavesTrue-seed_user, LeavesTrue-ensure_sync_user, Leads-update_user,
  LeavesTrue-delete_user, LeavesTrue-create_group, Leads-update_group, LeavesTrue-delete_group,
}
use tileserve_go.Store.Membership.{replace_group_membership, Link, Draws, sync_group_membership}
use tileserve_go.Store.Membership.Cached.{LeavesTrue-replace_group_membership, LeavesTrue-sync}

-- A write of users, of groups or of memberships.
pub data AccountWrite : Type 0 where
  creating_user : Option Text → ℕ → Text → Permissions → AccountWrite
  seeding : Option Text → ℕ → Text → AccountWrite
  ensuring : ℕ → AccountWrite
  updating_user : Option Text → Text → Permissions → Text → AccountWrite
  deleting_user : Text → AccountWrite
  creating_group : Text → GroupRow → AccountWrite
  updating_group : Text → GroupRow → AccountWrite
  deleting_group : Text → AccountWrite
  replacing_members : Text → List Text → AccountWrite
  syncing_members :
      Link → (display : Text → Text) → (draws : Text → Draws) → Text → List Text → AccountWrite

unfoldable pub write_account : AccountWrite → Exec Store StoreError (Unit {0})
unfolding create_user seed_user ensure_sync_user update_user delete_user create_group update_group
    delete_group replace_group_membership sync_group_membership
write_account (creating_user hash id username perms) = create_user hash id username perms >> pure tt
write_account (seeding hash id username) = seed_user hash id username
write_account (ensuring id) = ensure_sync_user id
write_account (updating_user hash username perms password) =
    update_user hash username perms password >> pure tt
write_account (deleting_user username) = delete_user username
write_account (creating_group id g) = create_group id g >> pure tt
write_account (updating_group id g) = update_group id g >> pure tt
write_account (deleting_group id) = delete_group id
write_account (replacing_members username ids) = replace_group_membership username ids
write_account (syncing_members l display draws username values) =
    sync_group_membership l display draws username values

-- What is left of the cache where a write fails.
abbrev pub AfterFailure : AccountWrite → Store → Type 0
AfterFailure (updating_user hash username perms password) s = HasRows s
AfterFailure (updating_group id g) s = HasRows s
AfterFailure w s = HasTruePermissions s

Leads-write_account :
    (w : AccountWrite)
    → Leads HasTruePermissions HasTruePermissions (AfterFailure w) (write_account w)
unfolding write_account
Leads-write_account (creating_user hash id username perms) =
    Leads-then _ _ (LeavesTrue-create_user hash id username perms) (Leads-pure tt)
Leads-write_account (seeding hash id username) = LeavesTrue-seed_user hash id username
Leads-write_account (ensuring id) = LeavesTrue-ensure_sync_user id
Leads-write_account (updating_user hash username perms password) =
    Leads-then _ _ (Leads-update_user hash username perms password) (Leads-pure tt)
Leads-write_account (deleting_user username) = LeavesTrue-delete_user username
Leads-write_account (creating_group id g) =
    Leads-then _ _ (LeavesTrue-create_group id g) (Leads-pure tt)
Leads-write_account (updating_group id g) = Leads-then _ _ (Leads-update_group id g) (Leads-pure tt)
Leads-write_account (deleting_group id) = LeavesTrue-delete_group id
Leads-write_account (replacing_members username ids) =
    LeavesTrue-replace_group_membership username ids
Leads-write_account (syncing_members l display draws username values) =
    LeavesTrue-sync l display draws username values

-- A write of users, of groups or of a user's groups that starts from a cache of permissions that
-- serves only what the tables say, and from rows of group_members that name known users and known
-- groups, ends with the same where it returns; where it fails it does too, but for an update of a
-- user or of a group, of which only the rows of group_members are then known.
pub write_account-Outcome :
    (w : AccountWrite) (s : Store)
    → HasTruePermissions s
    → Outcome HasTruePermissions (AfterFailure w) (write_account w s)
write_account-Outcome w s h = (Leads-write_account w).at s h
