-- ===== src/Store/State/Cases.antt =====
-- internal/store: a call on the database either fails and writes nothing, or succeeds.
use tileserve_go.Prelude.{Bool, true, false, List, [], ◌∷◌, ◌≡◌, refl}
use tileserve_go.Prelude.Monad.{Result, ok, err, continue, gets, modify}
use tileserve_go.Store.Database.{Database}
use tileserve_go.Store.State.{Store, StoreError, db_failed, take_fault, statement, query, execute}

module _ (s : Store) where
  execute_faults :
      (f : Database → Database) (fs : List Bool) (P : Result StoreError (Unit {0}) × Store → Type 0)
      → ((gs : List Bool) → P (err db_failed, record s { faults = gs }))
      → (s.faults ≡ fs → P (ok tt, record s { db = f s.db }))
      → ((gs : List Bool) → P (ok tt, record s { db = f s.db; faults = gs }))
      → s.faults ≡ fs
      → P (continue (λ _. modify (λ t. record t { db = f t.db })) (take_fault fs s))
  unfolding take_fault
  execute_faults f [] P bad same good e = same e
  execute_faults f (true ∷ fs) P bad same good e = bad fs
  execute_faults f (false ∷ fs) P bad same good e = good fs

  -- To split on the outcome of a writing call.
  pub execute_cases :
      (f : Database → Database) (P : Result StoreError (Unit {0}) × Store → Type 0)
      → ((gs : List Bool) → P (err db_failed, record s { faults = gs }))
      → ((gs : List Bool) → P (ok tt, record s { db = f s.db; faults = gs }))
      → P (execute f s)
  unfolding execute statement
  execute_cases f P bad good = execute_faults f s.faults P bad (λ e. good s.faults) good refl

  query_faults :
      {A : Type 0} (f : Database → A) (fs : List Bool) (P : Result StoreError A × Store → Type 0)
      → ((gs : List Bool) → P (err db_failed, record s { faults = gs }))
      → P (ok (f s.db), s)
      → ((gs : List Bool) → P (ok (f s.db), record s { faults = gs }))
      → P (continue (λ _. gets (λ t. f t.db)) (take_fault fs s))
  unfolding take_fault
  query_faults f [] P bad same good = same
  query_faults f (true ∷ fs) P bad same good = bad fs
  query_faults f (false ∷ fs) P bad same good = good fs

  -- To split on the outcome of a reading call.
  pub query_cases :
      {A : Type 0} (f : Database → A) (P : Result StoreError A × Store → Type 0)
      → ((gs : List Bool) → P (err db_failed, record s { faults = gs }))
      → ((gs : List Bool) → P (ok (f s.db), record s { faults = gs }))
      → P (query f s)
  unfolding query statement
  query_cases f P bad good = query_faults f s.faults P bad (good s.faults) good
