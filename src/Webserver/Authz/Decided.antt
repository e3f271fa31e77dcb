-- ===== src/Webserver/Authz/Decided.antt =====
-- internal/webserver/maps.go: requireMapPermission, requireMapAdmin and getViewableMap as a whole.
use tileserve_go.Prelude.{
  Bool, true, false, not, ◌&&◌, ◌||◌, some, Text, ◌==◌, nat_eq, text_eq, if◌then◌else◌, ◌≡◌, refl,
  sym, ap, ◌∙◌, arith,
}
use tileserve_go.Prelude.Monad.{Result, ok, pure, ◌>>=◌}
use tileserve_go.Store.Database.{
  MapRecord, Permissions, MapPermission, grants_map_visibility, grants_visibility,
  select_permissions, select_map_permission,
}
use tileserve_go.Store.State.{Store}
use tileserve_go.Store.Grants.{get_permissions, get_map_permission}
use tileserve_go.Store.Reads.{HasTrueCaches, Reads, Reads-pure, Reads-bind, Reads-weaken}
use tileserve_go.Store.Reads.Methods.{get_permissions-Reads, get_map_permission-Reads}
use tileserve_go.Webserver.Request.{Request, Refusal, or_refuse}
use tileserve_go.Webserver.Authz.{
  get_permissions_or_fail, api_key_map_allowed, key_allowed, is_map_owner, owner_or_map_allowed,
  require_allowed, require_map_permission, require_map_admin, user_can_view_map, can_view_map,
}
use tileserve_go.Webserver.Authz.Sound.{
  Decides, Decides-after, Decides-both, Decides-allowed, holds_of, key_may, user_may_view, owns,
  user_may_act, key-Reads, is_map_owner-Reads, or_true, or_rest, owner_or_map_allowed-Reads,
}

Decides-pass :
    (p : Bool) (s t : Store) → t.db ≡ s.db → HasTrueCaches t → p ≡ true → Decides p s (ok tt, t)
Decides-pass p s t e c h = record {
  db = e;
  coherent = c;
  passed = λ g. h;
  refused = λ g. absurd (ground arith);
  never_absent = λ g. ground arith;
}

Decides-same :
    (p q : Bool) (s : Store) (r : Result Refusal (Unit {0}) × Store)
    → p ≡ q
    → Decides p s r
    → Decides q s r
Decides-same p q s r h d = record {
  db = d.db;
  coherent = d.coherent;
  passed = λ g. sym h ∙ d.passed g;
  refused = λ g. sym h ∙ d.refused g;
  never_absent = d.never_absent;
}

module _ (r : Request) (map_id : Text) (s : Store) where
  key_stage :
      (t : Store)
      → t.db ≡ s.db
      → HasTrueCaches t
      → Decides (key_may r.api_key map_id s.db) s (require_allowed (api_key_map_allowed r map_id) t)
  unfolding api_key_map_allowed
  key_stage t e c =
      Decides-allowed (key_may r.api_key map_id s.db) s t (key_allowed r.api_key map_id)
        (key-Reads r.api_key map_id s t e c)

  module _ (global : Permissions → Bool) (allowed : MapPermission → Bool) where
    user_stage :
        (perms : Permissions) (b : Bool) (t : Store)
        → (not perms.is_admin && not (global perms)) ≡ b
        → t.db ≡ s.db
        → HasTrueCaches t
        → select_permissions r.username s.db ≡ some perms
        → Decides (user_may_act map_id r.username global allowed s.db) s (
            (if b
                then require_allowed (owner_or_map_allowed map_id r.username allowed)
                else pure tt)
              t)
    user_stage perms false t h e c p =
        Decides-pass (user_may_act map_id r.username global allowed s.db) s t e c (
          or_true
            (owns map_id r.username s.db || allowed (select_map_permission map_id r.username s.db))
            (ap (holds_of (λ x. x.is_admin || global x)) p ∙ (ground arith)))
    user_stage perms true t h e c p =
        Decides-same
          (owns map_id r.username s.db || allowed (select_map_permission map_id r.username s.db))
          (user_may_act map_id r.username global allowed s.db) s
          (require_allowed (owner_or_map_allowed map_id r.username allowed) t)
          (sym (or_rest (ap (holds_of (λ x. x.is_admin || global x)) p ∙ (ground arith)) refl))
          (Decides-allowed
            (owns map_id r.username s.db || allowed (select_map_permission map_id r.username s.db))
            s t (owner_or_map_allowed map_id r.username allowed)
            (owner_or_map_allowed-Reads map_id r.username allowed s t e c))

    -- With true caches, requireMapPermission passes only a user who is an admin or has the global
    -- permission, owns the map, or holds the grant, and whose key, if any, has the map in scope;
    -- it answers 403 only where this does not hold; and it changes no table and keeps the caches true.
    pub require_map_permission-Decides :
        HasTrueCaches s
        → Decides
            (user_may_act map_id r.username global allowed s.db && key_may r.api_key map_id s.db)
            s
            (require_map_permission r map_id global allowed s)
    unfolding require_map_permission get_permissions_or_fail or_refuse
    require_map_permission-Decides c =
        Decides-after (λ p. select_permissions r.username s.db ≡ some p)
          (user_may_act map_id r.username global allowed s.db && key_may r.api_key map_id s.db) s
          (get_permissions r.username s) _ (get_permissions-Reads s s refl c r.username)
          (λ perms t e d p.
            Decides-both (user_may_act map_id r.username global allowed s.db)
              (key_may r.api_key map_id s.db) s _ (require_allowed (api_key_map_allowed r map_id))
              (user_stage perms (not perms.is_admin && not (global perms)) t refl e d p) key_stage)

  admin_stage :
      (perms : Permissions) (b : Bool) (t : Store)
      → perms.is_admin ≡ b
      → t.db ≡ s.db
      → HasTrueCaches t
      → select_permissions r.username s.db ≡ some perms
      → Decides
          (holds_of (λ p. p.is_admin) (select_permissions r.username s.db)
            || owns map_id r.username s.db)
          s
          ((if b then pure tt else require_allowed (is_map_owner map_id r.username)) t)
  admin_stage perms true t h e c p =
      Decides-pass _ s t e c
        (or_true (owns map_id r.username s.db) (ap (holds_of (λ x. x.is_admin)) p ∙ h))
  admin_stage perms false t h e c p =
      Decides-same (owns map_id r.username s.db) _ s
        (require_allowed (is_map_owner map_id r.username) t)
        (sym (or_rest (ap (holds_of (λ x. x.is_admin)) p ∙ h) refl))
        (Decides-allowed (owns map_id r.username s.db) s t (is_map_owner map_id r.username)
          (is_map_owner-Reads map_id r.username s t e c))

  -- With true caches, requireMapAdmin passes only an admin or the owner of the map, answers 403
  -- only to others, changes no table and keeps the caches true.
  pub require_map_admin-Decides :
      HasTrueCaches s
      → Decides
          (holds_of (λ p. p.is_admin) (select_permissions r.username s.db)
            || owns map_id r.username s.db)
          s
          (require_map_admin r map_id s)
  unfolding require_map_admin get_permissions_or_fail or_refuse
  require_map_admin-Decides c =
      Decides-after (λ p. select_permissions r.username s.db ≡ some p) _ s
        (get_permissions r.username s) _ (get_permissions-Reads s s refl c r.username)
        (λ perms t e d p. admin_stage perms perms.is_admin t refl e d p)

module _ (r : Request) (m : MapRecord) (s : Store) where
  view_by_grant :
      (perms : Permissions) (b : Bool) (t : Store)
      → grants_map_visibility perms ≡ b
      → (m.row.visible_to_all || m.owner == r.username) ≡ false
      → t.db ≡ s.db
      → HasTrueCaches t
      → select_permissions r.username s.db ≡ some perms
      → Reads
          (λ v. user_may_view m r.username s.db ≡ v)
          s
          ((if b
              then pure true
              else (get_map_permission m.uuid r.username >>= λ mp. pure (grants_visibility mp)))
            t)
  view_by_grant perms true t h n e c p = Reads-pure true s t e c (
      or_rest n (
        or_true (grants_visibility (select_map_permission m.uuid r.username s.db))
          (ap (holds_of grants_map_visibility) p ∙ h)))
  view_by_grant perms false t h n e c p =
      Reads-bind (λ mp. select_map_permission m.uuid r.username s.db ≡ mp) s
        (get_map_permission m.uuid r.username t) (λ mp. pure (grants_visibility mp))
        (get_map_permission-Reads s t e c r.username m.uuid)
        (λ mp u e2 c2 q. Reads-pure (grants_visibility mp) s u e2 c2 (
          or_rest n (or_rest (ap (holds_of grants_map_visibility) p ∙ h) (ap grants_visibility q))))

  view_by_user :
      (b : Bool) (t : Store)
      → (m.row.visible_to_all || m.owner == r.username) ≡ b
      → t.db ≡ s.db
      → HasTrueCaches t
      → Reads
          (λ v. user_may_view m r.username s.db ≡ v)
          s
          ((if b
              then pure true
              else (get_permissions r.username >>= λ perms.
                  if grants_map_visibility perms
                  then pure true
                  else (get_map_permission m.uuid r.username >>= λ mp.
                      pure (grants_visibility mp))))
            t)
  view_by_user true t h e c = Reads-pure true s t e c (or_true _ h)
  view_by_user false t h e c =
      Reads-bind (λ p. select_permissions r.username s.db ≡ some p) s (get_permissions r.username t)
        _ (get_permissions-Reads s t e c r.username)
        (λ perms u e2 c2 p. view_by_grant perms (grants_map_visibility perms) u refl h e2 c2 p)

  key_branch :
      (v : Bool) (t : Store)
      → t.db ≡ s.db
      → HasTrueCaches t
      → user_may_view m r.username s.db ≡ v
      → Reads
          (λ b. (user_may_view m r.username s.db && key_may r.api_key m.uuid s.db) ≡ b)
          s
          ((if v then api_key_map_allowed r m.uuid else pure false) t)
  unfolding api_key_map_allowed
  key_branch false t e c h =
      Reads-pure false s t e c (ap (λ v. v && key_may r.api_key m.uuid s.db) h)
  key_branch true t e c h =
      Reads-weaken (λ b. key_may r.api_key m.uuid s.db ≡ b) s s (key_allowed r.api_key m.uuid t)
        refl (λ b p. ap (λ v. v && key_may r.api_key m.uuid s.db) h ∙ p)
        (key-Reads r.api_key m.uuid s t e c)

  pub can_view_map-Reads :
      (t : Store)
      → t.db ≡ s.db
      → HasTrueCaches t
      → Reads
          (λ b. (user_may_view m r.username s.db && key_may r.api_key m.uuid s.db) ≡ b)
          s
          (can_view_map r m t)
  unfolding can_view_map user_can_view_map
  can_view_map-Reads t e c =
      Reads-bind (λ v. user_may_view m r.username s.db ≡ v) s (user_can_view_map m r.username t)
        (λ visible. if visible then api_key_map_allowed r m.uuid else pure false)
        (view_by_user (m.row.visible_to_all || m.owner == r.username) t refl e c)
        (λ v u e2 c2 p. key_branch v u e2 c2 p)
