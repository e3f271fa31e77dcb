-- ===== src/Store/Maps/Cached.antt =====
-- internal/store/maps.go: the methods that write a map keep the two caches of maps true.
use tileserve_go.Prelude.{
  ℕ, Bool, true, false, List, Text, nat_eq, text_eq, pair_eq, if◌then◌else◌, ◌≡◌, refl, ◌∙◌, inl,
  inr, Bool-cases,
}
use tileserve_go.Prelude.Assoc.{lookup, insert, lookup-insert}
use tileserve_go.Prelude.Monad.{Exec, continue, pure, raise, ◌>>=◌, ◌>>◌}
use tileserve_go.Prelude.Monad.Keeps.{Keeps, Keeps-bind, Keeps-pure, keeps_rules}
use tileserve_go.Store.Database.{MapRow, MapRecord, select_map, select_current_version}
use tileserve_go.Store.State.{Store, StoreError, map_not_found, execute}
use tileserve_go.Store.State.Cases.{execute_cases}
use tileserve_go.Store.Maps.{
  load_map_with_owner, has_map, insert_unless, create_map, update_maps, update_where, update_map,
  update_map_owner, invalidate_map, invalidate_current_version, increment_map_version,
  delete_cascade, delete_map,
}
use tileserve_go.Store.Maps.Pending.{
  HasTrueMaps, SameButFor-rows, SameButFor-update_row, SameButFor-delete_cascade, IsPending-refl,
  IsPending-then, IsCoherent-maps,
}
use tileserve_go.Store.Maps.Reread.{
  Keeps-true_load, Keeps-true_user, HasTrueMaps-invalidated, Keeps-increment_map_version,
  HasTrueMaps-unknown, unknown_update, removed_unknown, unknown_map, unknown_current,
  owner_leaves_current, IsCoherent-if_new,
}

module _ (s : Store) (c : HasTrueMaps s) where
  HasTrueMaps-faults : (gs : List Bool) → HasTrueMaps (record s { faults = gs })
  HasTrueMaps-faults gs = record { maps = c.maps; current = c.current }

  HasTrueMaps-updated :
      (f : MapRow → MapRow) (id : Text) (found : Bool) (k : Exec Store StoreError MapRecord)
      → has_map id s.db ≡ found
      → Keeps HasTrueMaps k
      → HasTrueMaps
          (continue
            (λ b.
              if b
              then (invalidate_map id >> (invalidate_current_version id >> k))
              else raise map_not_found)
            (continue (λ _. pure found) (execute (update_maps f id) s))).1
  HasTrueMaps-updated f id found k e h =
      execute_cases s (update_maps f id)
        (λ r.
          HasTrueMaps
            (continue
              (λ b.
                if b
                then (invalidate_map id >> (invalidate_current_version id >> k))
                else raise map_not_found)
              (continue (λ _. pure found) r)).1)
        (λ gs. HasTrueMaps-faults gs)
        (λ gs.
          elim found
              as (λ b.
                has_map id s.db ≡ b
                → HasTrueMaps
                    ((if b
                        then (invalidate_map id >> (invalidate_current_version id >> k))
                        else raise map_not_found)
                      (record s { db = update_maps f id s.db; faults = gs })).1) [
                        | true ↦ λ _.
                            HasTrueMaps-invalidated id s c
                              (record s { db = update_maps f id s.db; faults = gs }) k
                              (IsPending-then id s s (update_maps f id s.db) gs
                                (SameButFor-update_row id s.db f (lookup id s.db.maps))
                                (IsPending-refl id s))
                              h
                        | false ↦ λ u. rw (unknown_update f id s.db u) (HasTrueMaps-faults gs)
                      ]
            e)

  HasTrueMaps-deleted :
      (id : Text) (found : Bool)
      → has_map id s.db ≡ found
      → HasTrueMaps
          (continue
            (λ _.
              if found
              then (invalidate_map id >> (invalidate_current_version id >> pure tt))
              else raise map_not_found)
            (execute (delete_cascade id) s)).1
  unfolding delete_cascade select_map select_current_version
  HasTrueMaps-deleted id found e =
      execute_cases s (delete_cascade id)
        (λ r.
          HasTrueMaps
            (continue
              (λ _.
                if found
                then (invalidate_map id >> (invalidate_current_version id >> pure tt))
                else raise map_not_found)
              r).1)
        (λ gs. HasTrueMaps-faults gs)
        (λ gs.
          elim found
              as (λ b.
                has_map id s.db ≡ b
                → HasTrueMaps
                    ((if b
                        then (invalidate_map id >> (invalidate_current_version id >> pure tt))
                        else raise map_not_found)
                      (record s { db = delete_cascade id s.db; faults = gs })).1) [
                        | true ↦ λ _.
                            HasTrueMaps-invalidated id s c
                              (record s { db = delete_cascade id s.db; faults = gs }) (pure tt)
                              (IsPending-then id s s (delete_cascade id s.db) gs
                                (SameButFor-delete_cascade id s.db) (IsPending-refl id s))
                              (record { at = λ t h. h })
                        | false ↦ λ u.
                            HasTrueMaps-unknown s (delete_cascade id s.db) gs
                              (λ j. rw (removed_unknown id j s.db.maps u) refl)
                              (λ j. rw (removed_unknown id j s.db.maps u) refl) c
                      ]
            e)

  HasTrueMaps-reassigned :
      (owner : ℕ) (id : Text) (gs : List Bool) (k : Exec Store StoreError MapRecord)
      → Keeps HasTrueMaps k
      → HasTrueMaps
          ((invalidate_map id >> k) (record s {
            db = update_maps (λ m. record m { owner_id = owner }) id s.db;
            faults = gs;
          })).1
  unfolding invalidate_map
  HasTrueMaps-reassigned owner id gs k h =
      let f = λ (m : MapRow). record m { owner_id = owner } in
      let t = record s { db = update_maps f id s.db; faults = gs } in
      h.at _ (record {
        maps =
            IsCoherent-maps id s t
              (IsPending-then id s s (update_maps f id s.db) gs
                (SameButFor-update_row id s.db f (lookup id s.db.maps)) (IsPending-refl id s))
              c;
        current = record {
          agrees = λ j v e.
              owner_leaves_current owner id j s.db (lookup id s.db.maps) refl
              ∙ c.current.agrees j v e;
        };
      })

  HasTrueMaps-owned :
      (owner : ℕ) (id : Text) (found : Bool) (k : Exec Store StoreError MapRecord)
      → has_map id s.db ≡ found
      → Keeps HasTrueMaps k
      → HasTrueMaps
          (continue
            (λ b. if b then (invalidate_map id >> k) else raise map_not_found)
            (continue
              (λ _. pure found)
              (execute (update_maps (λ m. record m { owner_id = owner }) id) s))).1
  HasTrueMaps-owned owner id found k e h =
      let f = λ (m : MapRow). record m { owner_id = owner } in
      execute_cases s (update_maps f id)
        (λ r.
          HasTrueMaps
            (continue (λ b. if b then (invalidate_map id >> k) else raise map_not_found)
              (continue (λ _. pure found) r)).1)
        (λ gs. HasTrueMaps-faults gs)
        (λ gs.
          elim found
              as (λ b.
                has_map id s.db ≡ b
                → HasTrueMaps
                    ((if b then (invalidate_map id >> k) else raise map_not_found)
                      (record s { db = update_maps f id s.db; faults = gs })).1) [
                        | true ↦ λ _. HasTrueMaps-reassigned owner id gs k h
                        | false ↦ λ u. rw (unknown_update f id s.db u) (HasTrueMaps-faults gs)
                      ]
            e)

  HasTrueMaps-created :
      (id : Text) (row : MapRow)
      → HasTrueMaps
          (insert_unless (has_map id) (λ db. record db { maps = insert id row db.maps }) s).1
  unfolding insert_unless
  HasTrueMaps-created id row = elim (Bool-cases (has_map id s.db)) [
    | inl taken ↦ rw taken c
    | inr fresh ↦ rw fresh (
        execute_cases s (λ db. record db { maps = insert id row db.maps }) (λ r. HasTrueMaps r.1)
          (λ gs. HasTrueMaps-faults gs)
          (λ gs. record {
            maps =
                IsCoherent-if_new (λ j. select_map j s.db)
                  (λ j. select_map j (record s.db { maps = insert id row s.db.maps })) s.now id
                  s.map_cache (unknown_map id s.db fresh)
                  (SameButFor-rows id s.db (insert id row s.db.maps)
                    (λ j e. rw (lookup-insert id j row s.db.maps, e) refl)).maps
                  c.maps;
            current =
                IsCoherent-if_new (λ j. select_current_version j s.db)
                  (λ j. select_current_version j (record s.db { maps = insert id row s.db.maps }))
                  s.now id s.current_version_cache (unknown_current id s.db fresh)
                  (SameButFor-rows id s.db (insert id row s.db.maps)
                    (λ j e. rw (lookup-insert id j row s.db.maps, e) refl)).current
                  c.current;
          }))
  ]

Keeps-update_map :
    (id name version : Text) (visible anonymous : Bool) (by : Text)
    → Keeps HasTrueMaps (update_map id name version visible anonymous by)
unfolding update_map update_where
Keeps-update_map id name version visible anonymous by = record {
  at = λ s c.
      HasTrueMaps-updated s c
        (λ m. record m {
          name = name;
          current_version = version;
          visible_to_all = visible;
          anonymous_allowed = anonymous;
          updated_by = by;
        })
        id (has_map id s.db) (load_map_with_owner id) refl (Keeps-true_load id);
}

Keeps-give :
    (id : Text) (owner : ℕ)
    → Keeps HasTrueMaps (
        update_where (λ m. record m { owner_id = owner }) id >>= λ found.
        if found then (invalidate_map id >> load_map_with_owner id) else raise map_not_found)
unfolding update_where
Keeps-give id owner = record {
  at = λ s c.
      HasTrueMaps-owned s c owner id (has_map id s.db) (load_map_with_owner id) refl
        (Keeps-true_load id);
}

Keeps-update_map_owner : (id owner : Text) → Keeps HasTrueMaps (update_map_owner id owner)
unfolding update_map_owner
Keeps-update_map_owner id owner = Keeps-bind _ _ (Keeps-true_user owner) (λ n. Keeps-give id n)

Keeps-delete_map : (id : Text) → Keeps HasTrueMaps (delete_map id)
unfolding delete_map
Keeps-delete_map id = record { at = λ s c. HasTrueMaps-deleted s c id (has_map id s.db) refl }

Keeps-true_insert :
    (id : Text) (row : MapRow)
    → Keeps HasTrueMaps
        (insert_unless (has_map id) (λ db. record db { maps = insert id row db.maps }))
Keeps-true_insert id row = record { at = λ s c. HasTrueMaps-created s c id row }

Keeps-create_map :
    (id name version : Text) (visible anonymous : Bool) (by : Text)
    → Keeps HasTrueMaps (create_map id name version visible anonymous by)
unfolding create_map
Keeps-create_map id name version visible anonymous by =
    search (keeps_rules, Keeps-true_user, Keeps-true_insert)

-- The writes of maps.
pub data MapWrite : Type 0 where
  creating : Text → Text → Text → Bool → Bool → Text → MapWrite
  updating : Text → Text → Text → Bool → Bool → Text → MapWrite
  giving incrementing : Text → Text → MapWrite
  deleting : Text → MapWrite

unfoldable pub write_map : MapWrite → Exec Store StoreError (Unit {0})
unfolding create_map update_map update_map_owner increment_map_version delete_map
write_map (creating id n v a o by) = create_map id n v a o by >> pure tt
write_map (updating id n v a o by) = update_map id n v a o by >> pure tt
write_map (giving id owner) = update_map_owner id owner >> pure tt
write_map (incrementing id by) = increment_map_version id by >> pure tt
write_map (deleting id) = delete_map id

Keeps-write_map : (w : MapWrite) → Keeps HasTrueMaps (write_map w)
unfolding write_map
Keeps-write_map (creating id n v a o by) =
    Keeps-bind _ _ (Keeps-create_map id n v a o by) (λ _. Keeps-pure tt)
Keeps-write_map (updating id n v a o by) =
    Keeps-bind _ _ (Keeps-update_map id n v a o by) (λ _. Keeps-pure tt)
Keeps-write_map (giving id owner) =
    Keeps-bind _ _ (Keeps-update_map_owner id owner) (λ _. Keeps-pure tt)
Keeps-write_map (incrementing id by) =
    Keeps-bind _ _ (Keeps-increment_map_version id by) (λ _. Keeps-pure tt)
Keeps-write_map (deleting id) = Keeps-delete_map id

-- Creating, updating, giving away, versioning and deleting a map keep the caches of maps and of
-- current versions true, also when the call fails, wherever the database fails.
pub write_map-HasTrueMaps :
    (w : MapWrite) (s : Store) → HasTrueMaps s → HasTrueMaps (write_map w s).1
write_map-HasTrueMaps w s c = (Keeps-write_map w).at s c
