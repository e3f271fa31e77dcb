-- ===== src/Store/Maps/Reread.antt =====
-- internal/store/maps.go: what the methods that write a map read again, and what is unknown of a map.
use tileserve_go.Prelude.{
  none-some, ℕ, Bool, false, Option, none, some, List, Text, ◌==◌, nat_eq, text_eq, pair_eq, eq_iff,
  any, ◌≡◌, refl, sym, ap, ◌∙◌, inl, inr, Bool-cases, arith,
}
use tileserve_go.Prelude.Assoc.{lookup, remove, lookup-insert, lookup-remove}
use tileserve_go.Prelude.Monad.{Result, ok, err, Exec, continue, pure, ◌>>◌}
use tileserve_go.Prelude.Monad.Keeps.{Keeps, keeps_rules}
use tileserve_go.Store.Cache.{Cache}
use tileserve_go.Store.Cache.Coherent.{IsCoherent}
use tileserve_go.Store.Database.{Database, MapRow, select_map, select_current_version}
use tileserve_go.Store.State.{Store, StoreError, query, row_or, transaction, roll_back}
use tileserve_go.Store.State.Cases.{query_cases}
use tileserve_go.Store.Maps.{
  load_map_with_owner, lookup_user_id, has_map, update_row, update_maps, invalidate_map,
  invalidate_current_version, assign_next_version, increment_map_version,
}
use tileserve_go.Store.Maps.Pending.{
  HasTrueMaps, lookup_of_unknown, IsPending, IsPending-refl, Keeps-assign_next_version,
  IsCoherent-maps, IsCoherent-current, undone,
}

-- Reads keep the caches true.
Keeps-true_query : {A : Type 0} (f : Database → A) → Keeps HasTrueMaps (query f)
Keeps-true_query f = record {
  at = λ s c.
      query_cases s f (λ r. HasTrueMaps r.1) (λ gs. record { maps = c.maps; current = c.current })
        (λ gs. record { maps = c.maps; current = c.current });
}

Keeps-true_row : {A : Type 0} (e : StoreError) (o : Option A) → Keeps HasTrueMaps (row_or e o)
Keeps-true_row e none = record { at = λ s c. c }
Keeps-true_row e (some a) = record { at = λ s c. c }

pub Keeps-true_load : (id : Text) → Keeps HasTrueMaps (load_map_with_owner id)
unfolding load_map_with_owner
Keeps-true_load id = search (keeps_rules, Keeps-true_query, Keeps-true_row)

pub Keeps-true_user : (name : Text) → Keeps HasTrueMaps (lookup_user_id name)
unfolding lookup_user_id
Keeps-true_user name = search (keeps_rules, Keeps-true_query, Keeps-true_row)

module _ {B : Type 0} (id : Text) (s : Store) (c : HasTrueMaps s) where
  -- Both caches are invalidated behind a write.
  pub HasTrueMaps-invalidated :
      (t : Store) (k : Exec Store StoreError B)
      → IsPending id s t
      → Keeps HasTrueMaps k
      → HasTrueMaps ((invalidate_map id >> (invalidate_current_version id >> k)) t).1
  unfolding invalidate_map invalidate_current_version
  HasTrueMaps-invalidated t k p h =
      h.at _ (record { maps = IsCoherent-maps id s t p c; current = IsCoherent-current id s t p c })

  HasTrueMaps-committed :
      {A : Type 0} (r : Result StoreError A × Store) (k : A → Exec Store StoreError B)
      → IsPending id s r.1
      → ((a : A) → Keeps HasTrueMaps (k a))
      → HasTrueMaps
          (continue
            (λ a. invalidate_map id >> (invalidate_current_version id >> k a))
            (roll_back s.db r)).1
  HasTrueMaps-committed (ok a, t) k p h = HasTrueMaps-invalidated t (k a) p (h a)
  HasTrueMaps-committed (err e, t) k p h = undone id s t p c

pub Keeps-increment_map_version : (id by : Text) → Keeps HasTrueMaps (increment_map_version id by)
unfolding increment_map_version transaction
Keeps-increment_map_version id by = record {
  at = λ s c.
      HasTrueMaps-committed id s c (assign_next_version id by s) (λ m. pure m)
        ((Keeps-assign_next_version id s by).at s (IsPending-refl id s))
        (λ m. record { at = λ t h. h });
}

-- A write that names no map changes nothing that is read.
pub HasTrueMaps-unknown :
    (s : Store) (db : Database) (gs : List Bool)
    → ((j : Text) → select_map j db ≡ select_map j s.db)
    → ((j : Text) → select_current_version j db ≡ select_current_version j s.db)
    → HasTrueMaps s
    → HasTrueMaps (record s { db = db; faults = gs })
HasTrueMaps-unknown s db gs h k c = record {
  maps = record { agrees = λ j v e. h j ∙ c.maps.agrees j v e };
  current = record { agrees = λ j v e. k j ∙ c.current.agrees j v e };
}

pub unknown_update :
    (f : MapRow → MapRow) (id : Text) (db : Database)
    → has_map id db ≡ false
    → update_maps f id db ≡ db
unknown_update f id db h = rw (lookup_of_unknown id db.maps h) refl

pub removed_unknown :
    (id j : Text) (rows : List (Text × MapRow))
    → any (λ e. e.0 == id) rows ≡ false
    → lookup j (remove id rows) ≡ lookup j rows
removed_unknown id j rows h =
    rw (lookup-remove id j rows) (ground (arith, eq_iff id j, lookup_of_unknown id rows h))

pub unknown_map : (id : Text) (db : Database) → has_map id db ≡ false → select_map id db ≡ none
unfolding select_map
unknown_map id db e = rw (lookup_of_unknown id db.maps e) refl

pub unknown_current :
    (id : Text) (db : Database) → has_map id db ≡ false → select_current_version id db ≡ none
unfolding select_current_version
unknown_current id db e = rw (lookup_of_unknown id db.maps e) refl

-- A change of owner leaves the current versions.
pub owner_leaves_current :
    (owner : ℕ) (id j : Text) (db : Database) (o : Option MapRow)
    → lookup id db.maps ≡ o
    → select_current_version j (update_row (λ m. record m { owner_id = owner }) id o db)
      ≡ select_current_version j db
owner_leaves_current owner id j db none e = refl
owner_leaves_current owner id j db (some m) e = elim (Bool-cases (id == j)) [
  | inl same ↦
      unfold select_current_version in
      rw
        (
          lookup-insert id j (record m { owner_id = owner }) db.maps,
          same,
          ← (eq_iff id j).0 same,
          e,
        )
        refl
  | inr other ↦
      unfold select_current_version in
      rw (lookup-insert id j (record m { owner_id = owner }) db.maps, other) refl
]

-- An unknown map is in no true cache, so a row for it makes nothing false.
pub IsCoherent-if_new :
    {V : Type 0} (f g : Text → Option V) (now : ℕ) (id : Text) (cache : Cache Text V)
    → f id ≡ none
    → ((j : Text) → (id == j) ≡ false → g j ≡ f j)
    → IsCoherent f now cache
    → IsCoherent g now cache
IsCoherent-if_new f g now id cache new same c = record {
  agrees = λ j v e. elim (Bool-cases (id == j)) [
    | inl here ↦ absurd (none-some (sym new ∙ ap f ((eq_iff id j).0 here) ∙ c.agrees j v e))
    | inr other ↦ same j other ∙ c.agrees j v e
  ];
}
