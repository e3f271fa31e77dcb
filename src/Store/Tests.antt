-- ===== src/Store/Tests.antt =====
-- internal/store: each theorem applied to a small database.
use tileserve_go.Prelude.{List, ◌+◌, ◌*◌, ◌<◌, arith}
use tileserve_go.Prelude.Monad.{ok}
use tileserve_go.Store.State.{ApiKeySigningKey, cache_ttl}
use tileserve_go.Store.ApiKeys.{resolve_api_key_signing_key}
use tileserve_go.Store.ApiKeys.Registered.{revoke_api_key}
use tileserve_go.Store.ApiKeys.Runs.{KeyStep, resolving, waiting, run_keys, revoke_api_key_lasting}
use tileserve_go.Prelude.{
  true, false, some, [], ◌∷◌, codes, nat_eq, text_eq, pair_eq, ◌≡◌, refl, sym, ap, inl, inr,
}
use tileserve_go.Prelude.Assoc.{lookup}
use tileserve_go.Prelude.Decimal.{parse_digits}
use tileserve_go.Prelude.Monad.{err}
use tileserve_go.Store.Cache.{get}
use tileserve_go.Store.Cache.History.{setting, invalidating, run, promised, get-promised}
use tileserve_go.Store.Database.{Database, Permissions, MapPermission, MapRow, username_of}
use tileserve_go.Store.State.{Store, map_not_found, transaction, query, statement, take_fault}
use tileserve_go.Store.Maps.{versions_of, max_version, assign_next_version, increment_map_version}
use tileserve_go.Store.Maps.Versions.{IsCounted, IsAdvanced, increment-IsAdvanced, increment-undone}
use tileserve_go.Store.Maps.Pending.{HasTrueMaps}
use tileserve_go.Store.Maps.Cached.{incrementing, write_map, write_map-HasTrueMaps}
use tileserve_go.Store.Grants.{get_map_permission}
use tileserve_go.Store.Grants.Cached.{
  HasTrueGrants, IsGrantOf, get_map_permission-IsGrantOf, set_own, write_grant,
  write_grant-HasTrueGrants,
}
use tileserve_go.Store.Aliases.{get_map_version_alias}
use tileserve_go.Store.Aliases.Cached.{
  HasTrueAliases, IsAliasOf, get_map_version_alias-IsAliasOf, set_alias, write_alias,
  write_alias-HasTrueAliases,
}
use tileserve_go.Prelude.Monad.Leads.{Outcome}
use tileserve_go.Store.Accounts.{has_user, has_group}
use tileserve_go.Store.Accounts.Permitted.{HasTruePermissions}
use tileserve_go.Store.Membership.{ldap_dn, sync_group_membership}
use tileserve_go.Store.Membership.Synced.{Mirrors, sync_group_membership-Mirrors}
use tileserve_go.Store.Membership.Writes.{
  AccountWrite, AfterFailure, syncing_members, write_account, write_account-Outcome,
}
use tileserve_go.Store.ApiKeys.{api_key_can_access_map, api_key_can_access_map_version}
use tileserve_go.Store.ApiKeys.Entries.{HasTrueKeys}
use tileserve_go.Store.ApiKeys.Decided.{
  IsInScope, IsMapped, IsDecision, can_access_map-IsDecision, can_access_map_version-IsDecision,
}
use tileserve_go.Store.Reads.{opened, opened-HasTrueCaches}
use tileserve_go.Store.StringArray.{scan, value}
use tileserve_go.Store.StringArray.RoundTrip.{scan-value}

abbrev nobody : Permissions
nobody = record {
  can_create = false;
  can_edit = false;
  can_delete = false;
  can_edit_geo_objects = false;
  can_delete_geo_objects = false;
  can_view_all = false;
  is_admin = false;
}

abbrev viewing : MapPermission
viewing = record {
  can_view = true;
  can_edit = false;
  can_delete = false;
  can_edit_geo_objects = false;
  can_delete_geo_objects = false;
}

abbrev hill : MapRow
hill = record {
  name = codes "hill";
  current_version = codes "2";
  visible_to_all = false;
  anonymous_allowed = false;
  created_by = codes "ann";
  updated_by = codes "ann";
  owner_id = 1;
}

abbrev tables : Database
tables = record {
  users =
      (codes "ann", record { id = 1; permissions = nobody })
      ∷ (codes "bob", record { id = 2; permissions = nobody })
      ∷ [];
  groups =
      (
        codes "g",
        record {
          name = codes "g";
          permissions = nobody;
          ldap_group_dn = [];
          oidc_group_claim = [];
        },
      )
      ∷ [];
  members = (codes "g", codes "bob") ∷ [];
  maps = (codes "m", hill) ∷ [];
  versions = (codes "m", codes "2") ∷ (codes "m", codes "1") ∷ [];
  map_permissions = [];
  group_map_permissions = ((codes "m", codes "g"), viewing) ∷ [];
  aliases = ((codes "m", codes "stable"), codes "1") ∷ [];
  api_keys =
      (
        codes "k",
        record {
          username = codes "ann";
          public_key_pem = codes "pem";
          revoked = false;
          scoped = true;
        },
      )
      ∷ [];
  scopes = ((codes "k", codes "m"), codes "1" ∷ []) ∷ [];
  refresh_tokens = [];
}

abbrev store : Store
store = opened tables

counted : IsCounted (codes "m") 2 hill (codes "ann") store
unfolding lookup username_of versions_of max_version parse_digits
counted = record { healthy = refl; row = refl; owner_known = refl; last = refl }

increment-IsAdvanced_example :
    IsAdvanced
      (codes "m")
      (codes "bob")
      2
      hill
      (codes "ann")
      store
      (increment_map_version (codes "m") (codes "bob") store)
increment-IsAdvanced_example =
    increment-IsAdvanced (codes "m") (codes "bob") 2 hill (codes "ann") store counted

missing_map : (increment_map_version (codes "x") (codes "bob") store).0 ≡ err map_not_found
unfolding increment_map_version transaction assign_next_version query statement take_fault
missing_map = refl

increment-undone_example : (increment_map_version (codes "x") (codes "bob") store).1.db ≡ store.db
increment-undone_example =
    increment-undone (codes "x") (codes "bob") store map_not_found missing_map

get_map_permission-IsGrantOf_example :
    IsGrantOf (codes "m") (codes "bob") store (get_map_permission (codes "m") (codes "bob") store)
get_map_permission-IsGrantOf_example =
    get_map_permission-IsGrantOf (codes "m") (codes "bob") store
      (opened-HasTrueCaches tables).grants

write_grant-HasTrueGrants_example :
    HasTrueGrants (write_grant (set_own (codes "m") (codes "bob") viewing) store).1
write_grant-HasTrueGrants_example =
    write_grant-HasTrueGrants (set_own (codes "m") (codes "bob") viewing) store
      (opened-HasTrueCaches tables).grants

get_map_version_alias-IsAliasOf_example :
    IsAliasOf
      (codes "m")
      (codes "stable")
      store
      (get_map_version_alias (codes "m") (codes "stable") store)
get_map_version_alias-IsAliasOf_example =
    get_map_version_alias-IsAliasOf (codes "m") (codes "stable") store
      (opened-HasTrueCaches tables).aliases

write_alias-HasTrueAliases_example :
    HasTrueAliases (write_alias (set_alias (codes "m") (codes "new") (codes "2")) store).1
write_alias-HasTrueAliases_example =
    write_alias-HasTrueAliases (set_alias (codes "m") (codes "new") (codes "2")) store
      (opened-HasTrueCaches tables).aliases

true_keys : HasTrueKeys store
true_keys = record {
  keys = (opened-HasTrueCaches tables).keys;
  scopes = (opened-HasTrueCaches tables).scopes;
}

can_access_map_version-IsDecision_example :
    IsDecision
      (λ o. IsInScope o (codes "1"))
      (codes "k")
      (codes "m")
      store
      (api_key_can_access_map_version (codes "k") (codes "m") (codes "1") store)
can_access_map_version-IsDecision_example =
    can_access_map_version-IsDecision (codes "k") (codes "m") (codes "1") store true_keys

can_access_map-IsDecision_example :
    IsDecision IsMapped
      (codes "k")
      (codes "m")
      store
      (api_key_can_access_map (codes "k") (codes "m") store)
can_access_map-IsDecision_example =
    can_access_map-IsDecision (codes "k") (codes "m") store true_keys

get-promised_example :
    get 7 (codes "a") (run 5 (setting 3 (codes "a") (codes "v") ∷ invalidating (codes "b") ∷ []))
    ≡ promised 5 7 (codes "a") (setting 3 (codes "a") (codes "v") ∷ invalidating (codes "b") ∷ [])
get-promised_example =
    get-promised 5 7 (codes "a") (setting 3 (codes "a") (codes "v") ∷ invalidating (codes "b") ∷ [])

scan-value_example :
    scan (value (some (codes "a,b" ∷ codes "q\"" ∷ []))) ≡ some (codes "a,b" ∷ codes "q\"" ∷ [])
scan-value_example = scan-value (some (codes "a,b" ∷ codes "q\"" ∷ []))

write_map-HasTrueMaps_example :
    HasTrueMaps (write_map (incrementing (codes "m") (codes "ann")) store).1
write_map-HasTrueMaps_example =
    write_map-HasTrueMaps (incrementing (codes "m") (codes "ann")) store (record {
      maps = (opened-HasTrueCaches tables).maps;
      current = (opened-HasTrueCaches tables).current;
    })

true_permissions : HasTruePermissions store
unfolding lookup
true_permissions = record {
  coherent = (opened-HasTrueCaches tables).permissions;
  rows = record {
    users = λ g u i. elim i [
      | inl e ↦ ap (λ p. has_user p.1 tables) (sym e)
      | inr absent ↦ absurd absent
    ];
    groups = λ g u i. elim i [
      | inl e ↦ ap (λ p. has_group p.0 tables) (sym e)
      | inr absent ↦ absurd absent
    ];
  };
}

abbrev sync_of_ann : AccountWrite
sync_of_ann =
    syncing_members ldap_dn (λ dn. dn)
      (λ dn. record { first_id = codes "h"; second_id = codes "i"; suffix = some (codes "1") })
      (codes "ann") (codes "cn=staff" ∷ [])

write_account-Outcome_example :
    Outcome HasTruePermissions (AfterFailure sync_of_ann) (write_account sync_of_ann store)
write_account-Outcome_example = write_account-Outcome sync_of_ann store true_permissions

sync_group_membership-Mirrors_example :
    Mirrors ldap_dn (codes "bob") (codes "cn=staff" ∷ []) store.db (
      sync_group_membership ldap_dn
        (λ dn. dn)
        (λ dn. record { first_id = codes "h"; second_id = codes "i"; suffix = some (codes "1") })
        (codes "bob")
        (codes "cn=staff" ∷ [])
        store)
sync_group_membership-Mirrors_example =
    sync_group_membership-Mirrors ldap_dn (λ dn. dn)
      (λ dn. record { first_id = codes "h"; second_id = codes "i"; suffix = some (codes "1") })
      (codes "bob") (codes "cn=staff" ∷ []) store

abbrev at_start : Store
at_start = record (opened tables) { faults = [] }

abbrev requests : List KeyStep
requests = resolving (codes "k") ∷ []

abbrev later : List KeyStep
later = resolving (codes "k") ∷ waiting (16 * 1000000000) ∷ []

abbrev ann_key : ApiKeySigningKey
ann_key = record { username = codes "ann"; public_key_pem = codes "pem"; scoped = true }

key_revoked : (revoke_api_key (codes "ann") (codes "k") (run_keys requests at_start)).0 ≡ ok tt
unfolding revoke_api_key run_keys lookup
key_revoked = refl

time_passed :
    (run_keys requests at_start).now + cache_ttl
    < (run_keys later (revoke_api_key (codes "ann") (codes "k") (run_keys requests at_start)).1).now
unfolding revoke_api_key run_keys lookup
time_passed = omega arith

revoke_api_key_lasting_example : ¬ (
    (resolve_api_key_signing_key
      (codes "k")
      (run_keys later (revoke_api_key (codes "ann") (codes "k") (run_keys requests at_start)).1)).0
    ≡ ok ann_key)
revoke_api_key_lasting_example =
    revoke_api_key_lasting tables [] requests later (codes "ann") (codes "k") key_revoked
      time_passed ann_key
