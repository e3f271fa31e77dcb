-- ===== src/Store/RefreshTokens/Tests.antt =====
-- internal/store/refresh_tokens.go: the theorems applied to a token of ann.
use tileserve_go.Prelude.{false, some, [], ◌∷◌, Text, ◌++◌, codes}
use tileserve_go.Prelude.Assoc.{lookup, insert}
use tileserve_go.Store.Database.{Database}
use tileserve_go.Store.State.{Store, transaction, query, execute, statement, take_fault}
use tileserve_go.Store.Maps.{insert_unless}
use tileserve_go.Store.Reads.{opened}
use tileserve_go.Store.RefreshTokens.{
  usable_token, create_refresh_token, rotate_refresh_token, redeem, issue_rotated,
}
use tileserve_go.Store.RefreshTokens.Revoked.{no_step, and_then, creates, rotates}
use tileserve_go.Store.RefreshTokens.SingleUse.{
  HasFailed, RotatesOrNot, rotate_refresh_token-RotatesOrNot, rotate_refresh_token_once,
}

-- in place of SHA3-256
abbrev marked : Text → Text
marked t = codes "#" ++ t

abbrev tables : Database
tables = record {
  users =
      (
        codes "ann",
        record {
          id = 1;
          permissions = record {
            can_create = false;
            can_edit = false;
            can_delete = false;
            can_edit_geo_objects = false;
            can_delete_geo_objects = false;
            can_view_all = false;
            is_admin = false;
          };
        },
      )
      ∷ [];
  groups = [];
  members = [];
  maps = [];
  versions = [];
  map_permissions = [];
  group_map_permissions = [];
  aliases = [];
  api_keys = [];
  scopes = [];
  refresh_tokens =
      (codes "#old", record { username = codes "ann"; expires_at = 50; revoked = false }) ∷ [];
}

abbrev store : Store
store = opened tables

rotate_refresh_token-RotatesOrNot_example :
    RotatesOrNot marked
      (codes "old")
      store.now
      100
      tables
      (rotate_refresh_token marked (some (codes "new")) (codes "old") 100 store)
rotate_refresh_token-RotatesOrNot_example =
    rotate_refresh_token-RotatesOrNot marked (some (codes "new")) (codes "old") 100 store

succeeds :
    ¬ (HasFailed (rotate_refresh_token marked (some (codes "new")) (codes "old") 100 store).0)
unfolding rotate_refresh_token redeem issue_rotated transaction query execute statement take_fault
    insert_unless usable_token lookup insert
succeeds h = h

-- A login of ann, with a token that is drawn again, and a rotation that fails.
abbrev rotated : Store
rotated = (rotate_refresh_token marked (some (codes "new")) (codes "old") 100 store).1

abbrev logged_in : Store
logged_in = (create_refresh_token marked (some (codes "old")) (codes "ann") 100 rotated).1

abbrev tried : Store
tried = (rotate_refresh_token marked (some (codes "newer")) (codes "none") 100 logged_in).1

rotate_refresh_token_once_example :
    HasFailed (rotate_refresh_token marked (some (codes "newest")) (codes "old") 100 tried).0
rotate_refresh_token_once_example =
    rotate_refresh_token_once marked (some (codes "new")) (some (codes "newest")) (codes "old") 100
      100 store tried succeeds
      (and_then (and_then no_step (creates (some (codes "old")) (codes "ann") 100))
        (rotates (some (codes "newer")) (codes "none") 100))
