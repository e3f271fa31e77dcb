-- ===== src/Store/Reads.antt =====
-- internal/store: the reading methods of Store, with every cache taken together.
pub mod Methods
pub mod Keys
use tileserve_go.Prelude.{
  Option, none, some, List, [], ◌∷◌, Bool, Text, ◌==◌, nat_eq, text_eq, pair_eq, ◌≡◌, refl, sym, ap,
  ◌∙◌, subst, arith,
}
use tileserve_go.Prelude.Monad.{
  Result, ok, err, Exec, continue, recover, handle, pure, raise, ◌>>=◌,
}
use tileserve_go.Store.Cache.{get}
use tileserve_go.Store.Cache.Coherent.{IsCoherent, IsCoherent-empty}
use tileserve_go.Store.Database.{
  Database, MapRecord, Permissions, MapPermission, select_map, select_current_version,
  select_permissions, select_map_permission,
}
use tileserve_go.Store.State.{Store, StoreError, db_failed, row_or, query}
use tileserve_go.Store.State.Cases.{query_cases}
use tileserve_go.Store.Grants.Cached.{grants_of}
use tileserve_go.Store.Aliases.Cached.{aliases_of}
use tileserve_go.Store.ApiKeys.Entries.{keys_of, scopes_of}

-- Every value that a cache still serves is what the tables say.
pub record HasTrueCaches (s : Store) : Type 0 where
  pub maps : IsCoherent (λ id. select_map id s.db) s.now s.map_cache
  pub current : IsCoherent (λ id. select_current_version id s.db) s.now s.current_version_cache
  pub permissions : IsCoherent (λ u. select_permissions u s.db) s.now s.perms_cache
  pub grants : IsCoherent (grants_of s.db) s.now s.map_perm_cache
  pub aliases : IsCoherent (aliases_of s.db) s.now s.map_alias_cache
  pub keys : IsCoherent (keys_of s.db) s.now s.api_key_cache
  pub scopes : IsCoherent (scopes_of s.db) s.now s.api_key_scope_cache

-- An action that changes no table, keeps the caches true, and returns only what has `P`.
pub record Reads {E A : Type 0} (P : A → Type 0) (s : Store) (r : Result E A × Store) : Type 0 where
  pub db : r.1.db ≡ s.db
  pub coherent : HasTrueCaches r.1
  pub right : (a : A) → r.0 ≡ ok a → P a

with_faults :
    (s : Store) (gs : List Bool) → HasTrueCaches s → HasTrueCaches (record s { faults = gs })
with_faults s gs c = record {
  maps = c.maps;
  current = c.current;
  permissions = c.permissions;
  grants = c.grants;
  aliases = c.aliases;
  keys = c.keys;
  scopes = c.scopes;
}

value_or : {E A : Type 0} → A → Result E A → A
value_or a (ok b) = b
value_or a (err e) = a

pub ok_injective : {E A : Type 0} (a b : A) → ◌≡◌ {A = Result E A} (ok a) (ok b) → a ≡ b
unfolding value_or
ok_injective {E = E} a b h = ap (value_or {E = E} a) h

pub Reads-pure :
    {E A : Type 0} {P : A → Type 0} (a : A) (s t : Store)
    → t.db ≡ s.db
    → HasTrueCaches t
    → P a
    → Reads {E = E} P s (pure a t)
Reads-pure {P = P} a s t e c p = record {
  db = e;
  coherent = c;
  right = λ b h. subst P (ok_injective a b h) p;
}

pub Reads-raise :
    {E A : Type 0} {P : A → Type 0} (x : E) (s t : Store)
    → t.db ≡ s.db
    → HasTrueCaches t
    → Reads {A = A} P s (raise x t)
Reads-raise x s t e c = record { db = e; coherent = c; right = λ b h. absurd (ground arith) }

pub Reads-bind :
    {E A B : Type 0} (P : A → Type 0) {Q : B → Type 0} (s : Store) (r : Result E A × Store)
    (n : A → Exec Store E B)
    → Reads P s r
    → ((a : A) (t : Store) → t.db ≡ s.db → HasTrueCaches t → P a → Reads Q s (n a t))
    → Reads Q s (continue n r)
Reads-bind P s (ok a, t) n i goes = goes a t i.db i.coherent (i.right a refl)
Reads-bind P s (err e, t) n i goes = record {
  db = i.db;
  coherent = i.coherent;
  right = λ a h. absurd (ground arith);
}

pub Reads-handle :
    {E F A : Type 0} (P : A → Type 0) (s : Store) (r : Result E A × Store) (h : E → Exec Store F A)
    → Reads P s r
    → ((e : E) (t : Store) → t.db ≡ s.db → HasTrueCaches t → Reads P s (h e t))
    → Reads P s (recover h r)
Reads-handle P s (ok a, t) h i goes = record {
  db = i.db;
  coherent = i.coherent;
  right = λ b g. i.right b (ap ok (ok_injective a b g));
}
Reads-handle P s (err e, t) h i goes = goes e t i.db i.coherent

pub Reads-query :
    {A : Type 0} (f : Database → A) (s t : Store)
    → t.db ≡ s.db
    → HasTrueCaches t
    → Reads (λ a. f s.db ≡ a) s (query f t)
Reads-query f s t e c =
    query_cases t f (Reads (λ a. f s.db ≡ a) s)
      (λ gs. Reads-raise db_failed s (record t { faults = gs }) e (with_faults t gs c))
      (λ gs. Reads-pure (f t.db) s (record t { faults = gs }) e (with_faults t gs c) (ap f (sym e)))

pub Reads-row_or :
    {A : Type 0} (x : StoreError) (o : Option A) (s t : Store)
    → t.db ≡ s.db
    → HasTrueCaches t
    → Reads (λ a. o ≡ some a) s (row_or x o t)
Reads-row_or x none s t e c = Reads-raise x s t e c
Reads-row_or x (some a) s t e c = Reads-pure a s t e c refl

-- Weakening, and a start at another state with the same tables.
pub Reads-weaken :
    {E A : Type 0} (P : A → Type 0) {Q : A → Type 0} (s t : Store) (r : Result E A × Store)
    → t.db ≡ s.db
    → ((a : A) → P a → Q a)
    → Reads P t r
    → Reads Q s r
Reads-weaken P s t r e w i = record {
  db = i.db ∙ e;
  coherent = i.coherent;
  right = λ a h. w a (i.right a h);
}

-- A store that has just been opened.
abbrev pub opened : Database → Store
opened db = record {
  db = db;
  now = 0;
  map_cache = [];
  current_version_cache = [];
  perms_cache = [];
  map_perm_cache = [];
  map_alias_cache = [];
  api_key_cache = [];
  api_key_scope_cache = [];
  faults = [];
}

pub opened-HasTrueCaches : (db : Database) → HasTrueCaches (opened db)
opened-HasTrueCaches db = record {
  maps = IsCoherent-empty (λ id. select_map id db) 0;
  current = IsCoherent-empty (λ id. select_current_version id db) 0;
  permissions = IsCoherent-empty (λ u. select_permissions u db) 0;
  grants = IsCoherent-empty (grants_of db) 0;
  aliases = IsCoherent-empty (aliases_of db) 0;
  keys = IsCoherent-empty (keys_of db) 0;
  scopes = IsCoherent-empty (scopes_of db) 0;
}
