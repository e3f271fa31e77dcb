-- ===== src/Store/Membership.antt =====
-- internal/store/group_membership.go: the groups of a user, as a directory or an identity provider
-- names them at a login.
pub mod Cached
pub mod Writes
pub mod Grown
pub mod Mirrored
pub mod Synced
use tileserve_go.Prelude.{
  ℕ, Bool, true, false, not, ◌&&◌, ◌||◌, Option, none, some, List, [], ◌∷◌, ◌++◌, Text, codes, ◌==◌,
  nat_eq, text_eq, pair_eq, if◌then◌else◌, any, keep_if,
}
use tileserve_go.Prelude.Assoc.{lookup, insert, remove}
use tileserve_go.Prelude.Monad.{
  Result, ok, err, Exec, pure, raise, gets, modify, handle, ◌>>=◌, ◌>>◌,
}
use tileserve_go.Store.Database.{Database, Permissions, UserRow, GroupRow}
use tileserve_go.Store.State.{
  Store, StoreError, db_failed, group_exists, group_not_found, row_or, query, execute, transaction,
}
use tileserve_go.Store.Accounts.{
  has_user, has_group, execute_or, invalidate_permissions, no_permissions, breaks_unique, put_group,
  create_group,
}

abbrev pub member_clashes : Text → Text → Database → Bool
member_clashes id username db =
    any (λ e. e == (id, username)) db.members || not (has_group id db && has_user username db)

-- INSERT INTO group_members, with its key and its foreign keys
unfoldable pub add_member : Text → Text → Exec Store StoreError (Unit {0})
unfolding execute_or
add_member username id =
    execute_or (member_clashes id username) db_failed
      (λ db. record db { members = (id, username) ∷ db.members })

unfoldable pub add_members : Text → List Text → Exec Store StoreError (Unit {0})
unfolding add_member
add_members username [] = pure tt
add_members username (id ∷ ids) = do add_member username id; add_members username ids

-- replaceGroupMembership
unfoldable pub replace_group_membership : Text → List Text → Exec Store StoreError (Unit {0})
unfolding transaction execute add_members invalidate_permissions
replace_group_membership username ids = do
  transaction (do
    execute (λ db. record db { members = keep_if (λ e. not (e.1 == username)) db.members })
    add_members username ids)
  invalidate_permissions username

-- The column by which a group is linked.
pub data Link : Type 0 where
  ldap_dn oidc_claim : Link

abbrev pub link_of : Link → GroupRow → Text
link_of ldap_dn g = g.ldap_group_dn
link_of oidc_claim g = g.oidc_group_claim

unfoldable pub linked_group : Link → Text → List (Text × GroupRow) → Option Text
linked_group l value [] = none
linked_group l value ((id, g) ∷ groups) =
    let rest = linked_group l value groups in if link_of l g == value then some id else rest

-- findGroupByLink
unfoldable pub find_group_by_link : Link → Text → Exec Store StoreError Text
unfolding query linked_group
find_group_by_link l value = do
  id ← query (λ db. linked_group l value db.groups)
  row_or group_not_found id

abbrev pub synced_group : Link → Text → Text → GroupRow
synced_group ldap_dn value name = record {
  name = name;
  permissions = no_permissions;
  ldap_group_dn = value;
  oidc_group_claim = [];
}
synced_group oidc_claim value name = record {
  name = name;
  permissions = no_permissions;
  ldap_group_dn = [];
  oidc_group_claim = value;
}

-- insertSyncedGroup, with the id that uuid.New gives
unfoldable pub insert_synced_group : Link → Text → Text → Text → Exec Store StoreError Text
unfolding create_group
insert_synced_group l value name id = do create_group id (synced_group l value name); pure id

-- What is random in one resolution: two ids, and the suffix, `none` where crypto/rand fails.
pub record Draws : Type 0 where
  pub first_id : Text
  pub second_id : Text
  pub suffix : Option Text

-- The second attempt, behind a unique violation.
unfoldable pub retry_suffixed : Link → Text → Text → Draws → Exec Store StoreError Text
unfolding insert_synced_group
retry_suffixed l value name d = do
  suffix ← row_or db_failed d.suffix
  insert_synced_group l value (name ++ b'-' ∷ suffix) d.second_id

unfoldable pub after_violation :
    Link → Text → Text → Draws → StoreError → Exec Store StoreError Text
unfolding find_group_by_link retry_suffixed
after_violation l value name d group_exists =
    handle (find_group_by_link l value) (λ e. retry_suffixed l value name d)
after_violation l value name d e = raise e

unfoldable pub create_if_missing :
    Link → Text → Text → Draws → StoreError → Exec Store StoreError Text
unfolding insert_synced_group after_violation
create_if_missing l value name d group_not_found =
    handle (insert_synced_group l value name d.first_id) (after_violation l value name d)
create_if_missing l value name d e = raise e

-- getOrCreateGroupByLink
unfoldable pub get_or_create_group_by_link : Link → Text → Text → Draws → Exec Store StoreError Text
unfolding find_group_by_link create_if_missing
get_or_create_group_by_link l value name d =
    handle (find_group_by_link l value) (create_if_missing l value name d)

-- The loop of syncGroupMembership. `display` is the name of a new group, and `draws` what is
-- random for each of the values.
unfoldable pub resolve_groups :
    Link
    → (display : Text → Text) → (draws : Text → Draws) → List Text
    → List Text
    → Exec Store StoreError (List Text)
unfolding get_or_create_group_by_link
resolve_groups l display draws seen [] = pure []
resolve_groups l display draws seen (v ∷ vs) =
    let rest = resolve_groups l display draws seen vs in
    let fresh = (do
      id ← get_or_create_group_by_link l v (display v) (draws v)
      ids ← resolve_groups l display draws (v ∷ seen) vs
      pure (id ∷ ids)) in
    if v == [] || any (λ w. w == v) seen then rest else fresh

-- syncGroupMembership, by SyncGroupMembershipByLDAPDNs or SyncGroupMembershipByOIDCClaims
unfoldable pub sync_group_membership :
    Link
    → (display : Text → Text) → (draws : Text → Draws) → Text
    → List Text
    → Exec Store StoreError (Unit {0})
unfolding resolve_groups replace_group_membership
sync_group_membership l display draws username values = do
  ids ← resolve_groups l display draws [] values
  replace_group_membership username ids
