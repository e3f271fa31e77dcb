-- ===== src/Webserver/Authz/Sound.antt =====
-- internal/webserver/maps.go: with true caches, a check decides as the tables say, or fails with 500.
use tileserve_go.Prelude.{
  Bool, true, false, ◌&&◌, ◌||◌, Option, none, some, Text, ◌==◌, nat_eq, text_eq, if◌then◌else◌,
  ◌≡◌, refl, sym, ap, ◌∙◌, arith,
}
use tileserve_go.Prelude.Monad.{Result, ok, err, Exec, continue, recover, pure, raise, ◌>>=◌}
use tileserve_go.Store.Database.{
  Database, MapRecord, Permissions, MapPermission, grants_map_visibility, grants_visibility,
  select_map, select_permissions, select_map_permission,
}
use tileserve_go.Store.State.{Store, StoreError, map_not_found}
use tileserve_go.Store.Maps.{get_map}
use tileserve_go.Store.Grants.{get_map_permission}
use tileserve_go.Store.ApiKeys.{allows_map, allows_version}
use tileserve_go.Store.ApiKeys.Entries.{scope_in}
use tileserve_go.Store.ApiKeys.Scoped.{option_map}
use tileserve_go.Store.Reads.{
  HasTrueCaches, Reads, Reads-pure, Reads-raise, Reads-bind, Reads-weaken,
}
use tileserve_go.Store.Reads.Methods.{get_map-Reads, get_map-absent, get_map_permission-Reads}
use tileserve_go.Store.Reads.Keys.{can_access_map-Reads, can_access_map_version-Reads}
use tileserve_go.Webserver.Request.{Refusal, forbidden, not_found, or_refuse, internal, require}
use tileserve_go.Webserver.Authz.{
  key_allowed, key_version_allowed, is_map_owner, no_owner, owner_or_map_allowed, require_allowed,
}

abbrev pub holds : Option Bool → Bool
holds none = false
holds (some b) = b

abbrev pub holds_of {ℓ} : {A : Type ℓ} → (A → Bool) → Option A → Bool
holds_of f none = false
holds_of f (some a) = f a

-- What the tables say of the request's key, if it has one, and a map.
abbrev pub key_may : Option Text → Text → Database → Bool
key_may none map_id db = true
key_may (some key) map_id db = holds (option_map allows_map (scope_in key map_id db))

abbrev pub key_may_version : Option Text → Text → Text → Database → Bool
key_may_version none map_id version db = true
key_may_version (some key) map_id version db =
    holds (option_map (λ e. allows_version e version) (scope_in key map_id db))

-- What the tables say of a user's view of a map.
abbrev pub user_may_view : MapRecord → Text → Database → Bool
user_may_view m username db =
    (m.row.visible_to_all || m.owner == username)
    || (holds_of grants_map_visibility (select_permissions username db)
        || grants_visibility (select_map_permission m.uuid username db))

abbrev pub owns : Text → Text → Database → Bool
owns map_id username db = holds_of (λ m. m.owner == username) (select_map map_id db)

-- A check that passes where `p` holds, refuses with 403 where it does not, or fails otherwise.
pub record Decides (p : Bool) (s : Store) (r : Result Refusal (Unit {0}) × Store) : Type 0 where
  pub db : r.1.db ≡ s.db
  pub coherent : HasTrueCaches r.1
  pub passed : r.0 ≡ ok tt → p ≡ true
  pub refused : r.0 ≡ err forbidden → p ≡ false
  pub never_absent : r.0 ≡ err not_found → ⊥

pub Decides-require :
    (p b : Bool) (s t : Store)
    → t.db ≡ s.db
    → HasTrueCaches t
    → p ≡ b
    → Decides p s (require b forbidden t)
Decides-require p true s t e c h = record {
  db = e;
  coherent = c;
  passed = λ g. h;
  refused = λ g. absurd (ground arith);
  never_absent = λ g. ground arith;
}
Decides-require p false s t e c h = record {
  db = e;
  coherent = c;
  passed = λ g. absurd (ground arith);
  refused = λ g. h;
  never_absent = λ g. ground arith;
}

-- After a read whose errors are a 500.
pub Decides-after :
    {A : Type 0} (P : A → Type 0) (p : Bool) (s : Store) (r : Result StoreError A × Store)
    (n : A → Exec Store Refusal (Unit {0}))
    → Reads P s r
    → ((a : A) (t : Store) → t.db ≡ s.db → HasTrueCaches t → P a → Decides p s (n a t))
    → Decides p s (continue n (recover (λ e. raise (internal e)) r))
Decides-after P p s (ok a, t) n i goes = goes a t i.db i.coherent (i.right a refl)
Decides-after P p s (err e, t) n i goes = record {
  db = i.db;
  coherent = i.coherent;
  passed = λ g. absurd (ground arith);
  refused = λ g. absurd (ground arith);
  never_absent = λ g. ground arith;
}

pub Decides-both :
    (p q : Bool) (s : Store) (r : Result Refusal (Unit {0}) × Store)
    (n : Exec Store Refusal (Unit {0}))
    → Decides p s r
    → ((t : Store) → t.db ≡ s.db → HasTrueCaches t → Decides q s (n t))
    → Decides (p && q) s (continue (λ _. n) r)
Decides-both p q s (ok u, t) n i goes =
    let j = goes t i.db i.coherent in
    record {
      db = j.db;
      coherent = j.coherent;
      passed = λ g. ground (arith, i.passed refl, j.passed g);
      refused = λ g. ground (arith, i.passed refl, j.refused g);
      never_absent = λ g. j.never_absent g;
    }
Decides-both p q s (err e, t) n i goes = record {
  db = i.db;
  coherent = i.coherent;
  passed = λ g. absurd (ground arith);
  refused = λ g. ground (arith, i.refused g);
  never_absent = λ g. i.never_absent g;
}

pub Decides-allowed :
    (p : Bool) (s t : Store) (m : Exec Store StoreError Bool)
    → Reads (λ b. p ≡ b) s (m t)
    → Decides p s (require_allowed m t)
unfolding require_allowed or_refuse
Decides-allowed p s t m i =
    Decides-after (λ b. p ≡ b) p s (m t) (λ b. require b forbidden) i
      (λ b u e c h. Decides-require p b s u e c h)

holds-some : (o : Option Bool) (b : Bool) → o ≡ some b → holds o ≡ b
holds-some o b h = ap holds h

pub key-Reads :
    (key : Option Text) (map_id : Text) (s t : Store)
    → t.db ≡ s.db
    → HasTrueCaches t
    → Reads (λ b. key_may key map_id s.db ≡ b) s (key_allowed key map_id t)
key-Reads none map_id s t e c = Reads-pure true s t e c refl
key-Reads (some key) map_id s t e c =
    Reads-weaken (λ b. option_map allows_map (scope_in key map_id s.db) ≡ some b) s s
      (key_allowed (some key) map_id t) refl (λ b h. ap holds h)
      (can_access_map-Reads key map_id s t e c)

pub key_version-Reads :
    (key : Option Text) (map_id version : Text) (s t : Store)
    → t.db ≡ s.db
    → HasTrueCaches t
    → Reads
        (λ b. key_may_version key map_id version s.db ≡ b)
        s
        (key_version_allowed key map_id version t)
key_version-Reads none map_id version s t e c = Reads-pure true s t e c refl
key_version-Reads (some key) map_id version s t e c =
    Reads-weaken
      (λ b. option_map (λ x. allows_version x version) (scope_in key map_id s.db) ≡ some b) s s
      (key_version_allowed (some key) map_id version t) refl (λ b h. ap holds h)
      (can_access_map_version-Reads key map_id s version t e c)

owner_of_result :
    (map_id username : Text) (s : Store) (r : Result StoreError MapRecord × Store)
    → Reads (λ m. select_map map_id s.db ≡ some m) s r
    → (r.0 ≡ err map_not_found → select_map map_id s.db ≡ none)
    → Reads
        (λ b. owns map_id username s.db ≡ b)
        s
        (recover no_owner (continue (λ m. pure (m.owner == username)) r))
owner_of_result map_id username s (ok m, t) i none_there =
    Reads-pure (m.owner == username) s t i.db i.coherent
      (ap (holds_of (λ x. x.owner == username)) (i.right m refl))
owner_of_result map_id username s (err map_not_found, t) i none_there =
    Reads-pure false s t i.db i.coherent
      (ap (holds_of (λ x. x.owner == username)) (none_there refl))
owner_of_result map_id username s (err e, t) i none_there = Reads-raise e s t i.db i.coherent

pub is_map_owner-Reads :
    (map_id username : Text) (s t : Store)
    → t.db ≡ s.db
    → HasTrueCaches t
    → Reads (λ b. owns map_id username s.db ≡ b) s (is_map_owner map_id username t)
unfolding is_map_owner
is_map_owner-Reads map_id username s t e c =
    owner_of_result map_id username s (get_map map_id t) (get_map-Reads s t e c map_id)
      (λ h. ap (select_map map_id) (sym e) ∙ get_map-absent map_id t h)

pub or_true : (b : Bool) {a : Bool} → a ≡ true → (a || b) ≡ true
or_true b h = ground arith

pub or_rest : {a b d : Bool} → a ≡ false → b ≡ d → (a || b) ≡ d
or_rest h g = ground arith

allowed_branch :
    (map_id username : Text) (allowed : MapPermission → Bool) (owner : Bool) (s t : Store)
    → t.db ≡ s.db
    → HasTrueCaches t
    → owns map_id username s.db ≡ owner
    → Reads
        (λ b.
          (owns map_id username s.db || allowed (select_map_permission map_id username s.db)) ≡ b)
        s
        ((if owner
            then pure true
            else (get_map_permission map_id username >>= λ mp. pure (allowed mp)))
          t)
allowed_branch map_id username allowed true s t e c h =
    Reads-pure true s t e c (or_true (allowed (select_map_permission map_id username s.db)) h)
allowed_branch map_id username allowed false s t e c h =
    Reads-bind (λ mp. select_map_permission map_id username s.db ≡ mp) s
      (get_map_permission map_id username t) _ (get_map_permission-Reads s t e c username map_id)
      (λ mp u e2 c2 p. Reads-pure (allowed mp) s u e2 c2 (or_rest h (ap allowed p)))

pub owner_or_map_allowed-Reads :
    (map_id username : Text) (allowed : MapPermission → Bool) (s t : Store)
    → t.db ≡ s.db
    → HasTrueCaches t
    → Reads
        (λ b.
          (owns map_id username s.db || allowed (select_map_permission map_id username s.db)) ≡ b)
        s
        (owner_or_map_allowed map_id username allowed t)
unfolding owner_or_map_allowed
owner_or_map_allowed-Reads map_id username allowed s t e c =
    Reads-bind (λ b. owns map_id username s.db ≡ b) s (is_map_owner map_id username t) _
      (is_map_owner-Reads map_id username s t e c)
      (λ b u e2 c2 p. allowed_branch map_id username allowed b s u e2 c2 p)

-- The rule of requireMapPermission: by the user's global permissions, as the owner, or by a grant.
abbrev pub user_may_act :
    Text → Text → (Permissions → Bool) → (MapPermission → Bool) → Database → Bool
user_may_act map_id username global allowed db =
    holds_of (λ p. p.is_admin || global p) (select_permissions username db)
    || (owns map_id username db || allowed (select_map_permission map_id username db))
