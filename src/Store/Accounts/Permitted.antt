-- ===== src/Store/Accounts/Permitted.antt =====
-- internal/store: what a write of users, groups or memberships leaves of the cached permissions
-- while it runs.
use tileserve_go.Prelude.{
  Bool, true, false, Option, none, some, List, Text, ◌==◌, nat_eq, text_eq, pair_eq, if◌then◌else◌,
  In, ◌≡◌, sym, ◌∙◌, inl, inr, Bool-cases,
}
use tileserve_go.Prelude.Monad.{raise}
use tileserve_go.Prelude.Monad.Leads.{Outcome, Leads, Leads-test, Leads-raise}
use tileserve_go.Store.Cache.{get}
use tileserve_go.Store.Cache.Coherent.{
  IsCoherent, IsCoherent-clear, get-invalidate, none_chosen, chosen_second,
}
use tileserve_go.Store.Database.{Database, Permissions, select_permissions}
use tileserve_go.Store.State.{Store, StoreError, query, execute, row_or}
use tileserve_go.Store.State.Cases.{execute_cases, query_cases}
use tileserve_go.Store.Accounts.{
  has_user, has_group, execute_or, invalidate_permissions, clear_permissions,
}

-- The foreign keys of group_members.
pub record IsReferential (db : Database) : Type 0 where
  pub users : (g u : Text) → In (g, u) db.members → has_user u db ≡ true
  pub groups : (g u : Text) → In (g, u) db.members → has_group g db ≡ true

-- The cache of permissions serves what the tables say, and the tables keep their foreign keys.
pub record HasTruePermissions (s : Store) : Type 0 where
  pub coherent : IsCoherent (λ u. select_permissions u s.db) s.now s.perms_cache
  pub rows : IsReferential s.db

-- The cache is true of every user but one.
pub record IsTrueBut (username : Text) (s : Store) : Type 0 where
  pub others :
      (j : Text) (v : Permissions)
      → (username == j) ≡ false
      → get s.now j s.perms_cache ≡ some v
      → select_permissions j s.db ≡ some v
  pub rows : IsReferential s.db

-- Nothing is known of the cache.
pub record HasRows (s : Store) : Type 0 where
  pub rows : IsReferential s.db

-- A change of the tables that keeps what is known of every user.
pub record IsHarmless (before after : Database) : Type 0 where
  pub same :
      (j : Text) (v : Permissions)
      → select_permissions j before ≡ some v
      → select_permissions j after ≡ some v
  pub rows : IsReferential after

-- A change of the tables that keeps what is known of every other user.
pub record ChangesOne (username : Text) (before after : Database) : Type 0 where
  pub same :
      (j : Text)
      → (username == j) ≡ false
      → select_permissions j after ≡ select_permissions j before
  pub rows : IsReferential before → IsReferential after

-- A predicate that does not look at which calls fail.
pub record IsSteady (P : Store → Type 0) : Type 0 where
  pub at : (s : Store) (gs : List Bool) → P s → P (record s { faults = gs })

pub HasTruePermissions-IsSteady : IsSteady HasTruePermissions
HasTruePermissions-IsSteady = record {
  at = λ s gs h. record { coherent = h.coherent; rows = h.rows };
}

pub IsTrueBut-IsSteady : (username : Text) → IsSteady (IsTrueBut username)
IsTrueBut-IsSteady username = record { at = λ s gs h. record { others = h.others; rows = h.rows } }

pub HasRows-IsSteady : IsSteady HasRows
HasRows-IsSteady = record { at = λ s gs h. record { rows = h.rows } }

module _ {P Q F : Store → Type 0} (steady : IsSteady P) (fails : (s : Store) → P s → F s) where
  pub Leads-execute :
      (f : Database → Database)
      → ((s : Store) (gs : List Bool) → P s → Q (record s { db = f s.db; faults = gs }))
      → Leads P Q F (execute f)
  Leads-execute f h = record {
    at = λ s p. execute_cases s f (Outcome Q F) (λ gs. fails _ (steady.at s gs p)) (λ gs. h s gs p);
  }

module _ {P F : Store → Type 0} (steady : IsSteady P) (fails : (s : Store) → P s → F s) where
  pub Leads-query : {A : Type 0} (f : Database → A) → Leads P P F (query f)
  Leads-query f = record {
    at = λ s p.
        query_cases s f (Outcome P F) (λ gs. fails _ (steady.at s gs p)) (λ gs. steady.at s gs p);
  }

  pub Leads-row : {A : Type 0} (e : StoreError) (o : Option A) → Leads P P F (row_or e o)
  Leads-row e none = record { at = fails }
  Leads-row e (some a) = record { at = λ s p. p }

module _ {P Q F : Store → Type 0} (steady : IsSteady P) (fails : (s : Store) → P s → F s) where
  pub Leads-execute_or :
      (refused : Database → Bool) (e : StoreError) (f : Database → Database)
      → ((s : Store) (gs : List Bool)
          → refused s.db ≡ false
          → P s
          → Q (record s { db = f s.db; faults = gs }))
      → Leads P Q F (execute_or refused e f)
  unfolding execute_or
  Leads-execute_or refused e f h =
      Leads-test (λ s. refused s.db) (λ r. if r then raise e else execute f)
        (Leads-raise e (λ s p. fails s p.0))
        (Leads-execute (record { at = λ s gs p. (steady.at s gs p.0, p.1) }) (λ s p. fails s p.0) f
          (λ s gs p. h s gs p.1 p.0))

pub harmless :
    (s : Store) (db : Database) (gs : List Bool)
    → (IsReferential s.db → IsHarmless s.db db)
    → HasTruePermissions s
    → HasTruePermissions (record s { db = db; faults = gs })
harmless s db gs i h = record {
  coherent = record { agrees = λ j v e. (i h.rows).same j v (h.coherent.agrees j v e) };
  rows = (i h.rows).rows;
}

module _ (username : Text) where
  pub changed :
      (s : Store) (db : Database) (gs : List Bool)
      → ChangesOne username s.db db
      → IsTrueBut username s
      → IsTrueBut username (record s { db = db; faults = gs })
  changed s db gs i h = record {
    others = λ j v other e. i.same j other ∙ h.others j v other e;
    rows = i.rows h.rows;
  }

  pub IsTrueBut-HasTruePermissions : (s : Store) → HasTruePermissions s → IsTrueBut username s
  IsTrueBut-HasTruePermissions s h = record {
    others = λ j v other e. h.coherent.agrees j v e;
    rows = h.rows;
  }

  pub Leads-invalidate :
      {F : Store → Type 0}
      → Leads (IsTrueBut username) HasTruePermissions F (invalidate_permissions username)
  unfolding invalidate_permissions
  Leads-invalidate = record {
    at = λ s h. record {
      coherent = record {
        agrees = λ j v e.
            let e2 : (if username == j then none else get s.now j s.perms_cache) ≡ some v =
              sym (get-invalidate s.now username j s.perms_cache) ∙ e in
            elim (Bool-cases (username == j)) [
              | inl here ↦ absurd (none_chosen (get s.now j s.perms_cache) here e2)
              | inr other ↦
                  h.others j v other (chosen_second none (get s.now j s.perms_cache) other e2)
            ];
      };
      rows = h.rows;
    };
  }

pub Leads-clear : {F : Store → Type 0} → Leads HasRows HasTruePermissions F clear_permissions
unfolding clear_permissions
Leads-clear = record {
  at = λ s h. record {
    coherent = IsCoherent-clear (λ u. select_permissions u s.db) s.now s.perms_cache;
    rows = h.rows;
  };
}
