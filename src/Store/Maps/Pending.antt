-- ===== src/Store/Maps/Pending.antt =====
-- internal/store/maps.go: the caches of maps behind a write of one map, until they are invalidated.
use tileserve_go.Prelude.{
  Bool, false, Option, none, some, List, [], ◌∷◌, Text, ◌==◌, nat_eq, text_eq, pair_eq, any, ◌≡◌,
  refl, ◌∙◌, inl, inr, Bool-cases, arith,
}
use tileserve_go.Prelude.Assoc.{lookup, insert, lookup-insert, lookup-remove}
use tileserve_go.Prelude.Monad.Keeps.{Keeps, keeps_rules}
use tileserve_go.Store.Cache.{invalidate}
use tileserve_go.Store.Cache.Coherent.{IsCoherent, IsCoherent-invalidate}
use tileserve_go.Store.Database.{Database, MapRow, select_map, select_current_version}
use tileserve_go.Store.State.{Store, StoreError, query, execute, row_or}
use tileserve_go.Store.State.Cases.{execute_cases, query_cases}
use tileserve_go.Store.Maps.{
  load_map_with_owner, insert_unless, update_row, update_maps, assign_next_version, delete_cascade,
}

-- The two caches serve what the tables say.
pub record HasTrueMaps (s : Store) : Type 0 where
  pub maps : IsCoherent (λ id. select_map id s.db) s.now s.map_cache
  pub current : IsCoherent (λ id. select_current_version id s.db) s.now s.current_version_cache

-- The database says of every other map what it said before.
pub record SameButFor (id : Text) (before after : Database) : Type 0 where
  pub maps : (j : Text) → (id == j) ≡ false → select_map j after ≡ select_map j before
  pub current :
      (j : Text)
      → (id == j) ≡ false
      → select_current_version j after ≡ select_current_version j before

pub lookup_of_unknown :
    (id : Text) (rows : List (Text × MapRow))
    → any (λ e. e.0 == id) rows ≡ false
    → lookup id rows ≡ none
unfolding lookup
lookup_of_unknown id [] h = refl
lookup_of_unknown id ((j, m) ∷ rows) h = ground (arith, lookup_of_unknown id rows)

module _ (id : Text) (db : Database) where
  pub SameButFor-rows :
      (rows : List (Text × MapRow))
      → ((j : Text) → (id == j) ≡ false → lookup j rows ≡ lookup j db.maps)
      → SameButFor id db (record db { maps = rows })
  unfolding select_map select_current_version
  SameButFor-rows rows h = record {
    maps = λ j e. rw (h j e) refl;
    current = λ j e. rw (h j e) refl;
  }

  pub SameButFor-update_row :
      (f : MapRow → MapRow) (o : Option MapRow) → SameButFor id db (update_row f id o db)
  SameButFor-update_row f none = record { maps = λ j e. refl; current = λ j e. refl }
  SameButFor-update_row f (some m) =
      SameButFor-rows (insert id (f m) db.maps)
        (λ j e. rw (lookup-insert id j (f m) db.maps, e) refl)

  pub SameButFor-delete_cascade : SameButFor id db (delete_cascade id db)
  unfolding delete_cascade select_map select_current_version
  SameButFor-delete_cascade = record {
    maps = λ j e. rw (lookup-remove id j db.maps, e) refl;
    current = λ j e. rw (lookup-remove id j db.maps, e) refl;
  }

-- `t` comes of `s` by writes of one map that have not touched the caches.
pub record IsPending (id : Text) (s t : Store) : Type 0 where
  pub map_cache : t.map_cache ≡ s.map_cache
  pub current_cache : t.current_version_cache ≡ s.current_version_cache
  pub now : t.now ≡ s.now
  pub same : SameButFor id s.db t.db

module _ (id : Text) (s : Store) where
  pub IsPending-refl : IsPending id s s
  IsPending-refl = record {
    map_cache = refl;
    current_cache = refl;
    now = refl;
    same = record { maps = λ j e. refl; current = λ j e. refl };
  }

  pub IsPending-then :
      (t : Store) (db : Database) (gs : List Bool)
      → SameButFor id t.db db
      → IsPending id s t
      → IsPending id s (record t { db = db; faults = gs })
  IsPending-then t db gs h p = record {
    map_cache = p.map_cache;
    current_cache = p.current_cache;
    now = p.now;
    same = record {
      maps = λ j e. h.maps j e ∙ p.same.maps j e;
      current = λ j e. h.current j e ∙ p.same.current j e;
    };
  }

  IsPending-faults :
      (t : Store) (gs : List Bool) → IsPending id s t → IsPending id s (record t { faults = gs })
  IsPending-faults t gs p = record {
    map_cache = p.map_cache;
    current_cache = p.current_cache;
    now = p.now;
    same = p.same;
  }

  Keeps-execute :
      (f : Database → Database)
      → ((db : Database) → SameButFor id db (f db))
      → Keeps (IsPending id s) (execute f)
  Keeps-execute f h = record {
    at = λ t p.
        execute_cases t f (λ r. IsPending id s r.1) (λ gs. IsPending-faults t gs p)
          (λ gs. IsPending-then t (f t.db) gs (h t.db) p);
  }

  Keeps-query : {A : Type 0} (f : Database → A) → Keeps (IsPending id s) (query f)
  Keeps-query f = record {
    at = λ t p.
        query_cases t f (λ r. IsPending id s r.1) (λ gs. IsPending-faults t gs p)
          (λ gs. IsPending-faults t gs p);
  }

  Keeps-row_or : {A : Type 0} (e : StoreError) (o : Option A) → Keeps (IsPending id s) (row_or e o)
  Keeps-row_or e none = record { at = λ t p. p }
  Keeps-row_or e (some a) = record { at = λ t p. p }

  Keeps-load : (j : Text) → Keeps (IsPending id s) (load_map_with_owner j)
  unfolding load_map_with_owner
  Keeps-load j = search (keeps_rules, Keeps-query, Keeps-row_or)

  Keeps-insert_unless :
      (taken : Database → Bool) (f : Database → Database)
      → ((db : Database) → SameButFor id db (f db))
      → Keeps (IsPending id s) (insert_unless taken f)
  unfolding insert_unless
  Keeps-insert_unless taken f h = record {
    at = λ t p. elim (Bool-cases (taken t.db)) [
      | inl conflict ↦ rw conflict p
      | inr fresh ↦ rw fresh ((Keeps-execute f h).at t p)
    ];
  }

  Keeps-insert_version :
      (version : Text)
      → Keeps (IsPending id s) (
          insert_unless
            (λ db. any (λ v. v == (id, version)) db.versions)
            (λ db. record db { versions = (id, version) ∷ db.versions }))
  unfolding select_map select_current_version
  Keeps-insert_version version =
      Keeps-insert_unless _ (λ db. record db { versions = (id, version) ∷ db.versions })
        (λ db. record { maps = λ j e. refl; current = λ j e. refl })

  Keeps-update_maps : (f : MapRow → MapRow) → Keeps (IsPending id s) (execute (update_maps f id))
  Keeps-update_maps f =
      Keeps-execute (update_maps f id) (λ db. SameButFor-update_row id db f (lookup id db.maps))

  pub Keeps-assign_next_version : (by : Text) → Keeps (IsPending id s) (assign_next_version id by)
  unfolding assign_next_version
  Keeps-assign_next_version by =
      search
        (
          keeps_rules, Keeps-query, Keeps-row_or, Keeps-load, Keeps-update_maps,
          Keeps-insert_version,
        )
        depth 12

  module _ (t : Store) (p : IsPending id s t) (c : HasTrueMaps s) where
    pub IsCoherent-maps : IsCoherent (λ j. select_map j t.db) t.now (invalidate id t.map_cache)
    IsCoherent-maps =
        rw (p.map_cache, p.now)
          (IsCoherent-invalidate (λ j. select_map j s.db) (λ j. select_map j t.db) s.now id
            s.map_cache p.same.maps c.maps)

    pub IsCoherent-current :
        IsCoherent
          (λ j. select_current_version j t.db)
          t.now
          (invalidate id t.current_version_cache)
    IsCoherent-current =
        rw (p.current_cache, p.now)
          (IsCoherent-invalidate (λ j. select_current_version j s.db)
            (λ j. select_current_version j t.db) s.now id s.current_version_cache p.same.current
            c.current)

    -- A roll back leaves the caches true.
    pub undone : HasTrueMaps (record t { db = s.db })
    undone = record {
      maps = rw (p.map_cache, p.now) c.maps;
      current = rw (p.current_cache, p.now) c.current;
    }
