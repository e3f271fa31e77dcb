-- ===== src/Store/Maps/Versions.antt =====
-- internal/store/maps.go: the version that IncrementMapVersion assigns.
use tileserve_go.Prelude.{
  ℕ, ◌+◌, ◌≤◌, max, true, false, Option, none, some, List, [], ◌∷◌, Text, ◌==◌, nat_eq, text_eq,
  pair_eq, eq_iff, eq_refl, leb, any, In, ◌≡◌, refl, sym, ap, ◌∙◌, inl, inr, Bool-cases, arith,
}
use tileserve_go.Prelude.Assoc.{lookup, insert, lookup-insert_self, lookup-remove}
use tileserve_go.Prelude.Decimal.{itoa, parse_digits, parse-itoa}
use tileserve_go.Prelude.Monad.{Result, ok, err, Exec, continue, pure, ◌>>◌}
use tileserve_go.Store.Cache.{Cache, get, live_value, invalidate}
use tileserve_go.Store.Database.{Database, MapRow, MapRecord, select_map, username_of}
use tileserve_go.Store.State.{
  Store, StoreError, statement, take_fault, query, execute, transaction, roll_back,
}
use tileserve_go.Store.Maps.{
  insert_unless, versions_of, version_int, in_int4, max_int4, max_of, max_version,
  load_map_with_owner, assign_next_version, increment_map_version, invalidate_map,
  invalidate_current_version,
}

max_of-some :
    (a b : Option ℕ) (n : ℕ)
    → max_of a b ≡ some n
    → (i : ℕ) × (j : ℕ) × (a ≡ some i) × (b ≡ some j) × (n ≡ max i j)
max_of-some (some i) (some j) n e = (i, j, refl, refl, ground arith)
max_of-some none b n e = absurd (ground arith)
max_of-some (some i) none n e = absurd (ground arith)

-- Every version counted is a number that is at most the greatest.
pub max_version-bounds :
    (vs : List Text) (n : ℕ) (v : Text)
    → max_version vs ≡ some n
    → In v vs
    → (k : ℕ) × (version_int v ≡ some k) × (k ≤ n)
unfolding max_version
max_version-bounds [] n v e i = absurd i
max_version-bounds (w ∷ vs) n v e i =
    let (a, b, p, q, m) = max_of-some (version_int w) (max_version vs) n e in
    elim i [
      | inl same ↦ (a, ap version_int (sym same) ∙ p, omega arith)
      | inr rest ↦ let (k, h, l) = max_version-bounds vs b v q rest in (k, h, omega arith)
    ]

any-versions_of :
    (id w : Text) (vs : List (Text × Text))
    → any (λ v. v == (id, w)) vs ≡ true
    → In w (versions_of id vs)
unfolding versions_of
any-versions_of id w [] e = absurd (ground arith)
any-versions_of id w ((m, v) ∷ vs) e = elim (Bool-cases (m == id)) [
  | inr other ↦ rw other (any-versions_of id w vs (ground arith))
  | inl here ↦ rw here (ground (arith, eq_iff v w, any-versions_of id w vs))
]

in_int4-some : (n k : ℕ) → in_int4 (some n) ≡ some k → k ≡ n
in_int4-some n k e = elim (Bool-cases (leb n max_int4)) [
  | inl small ↦ ground (arith, rw small at e)
  | inr large ↦ ground arith
]

version_int_of : (s : Text) (n k : ℕ) → parse_digits 0 s ≡ some n → version_int s ≡ some k → k ≡ n
version_int_of [] n k p e = absurd (ground arith)
version_int_of (c ∷ s) n k p e = in_int4-some n k (ap in_int4 (sym p) ∙ e)

version_int-itoa : (n k : ℕ) → version_int (itoa n) ≡ some k → k ≡ n
version_int-itoa n k e = version_int_of (itoa n) n k (parse-itoa n) e

-- The text of the next number is no version of the map.
pub next-is_free :
    (id : Text) (vs : List (Text × Text)) (n : ℕ)
    → max_version (versions_of id vs) ≡ some n
    → any (λ v. v == (id, itoa (n + 1))) vs ≡ false
next-is_free id vs n e = elim (Bool-cases (any (λ v. v == (id, itoa (n + 1))) vs)) [
  | inr free ↦ free
  | inl taken ↦
      let (k, h, l) =
        max_version-bounds (versions_of id vs) n (itoa (n + 1)) e
          (any-versions_of id (itoa (n + 1)) vs taken) in
      absurd (omega (arith, version_int-itoa (n + 1) k h))
]

has_map-lookup :
    (id : Text) (maps : List (Text × MapRow)) (m : MapRow)
    → lookup id maps ≡ some m
    → any (λ e. e.0 == id) maps ≡ true
unfolding lookup
has_map-lookup id [] m e = absurd (ground arith)
has_map-lookup id ((k, r) ∷ maps) m e = ground (arith, has_map-lookup id maps m)

abbrev advanced : Text → Text → Text → MapRow → Database → Database
advanced id next updated_by m db = record db {
  maps = insert id (record m { current_version = next; updated_by = updated_by }) db.maps;
  versions = (id, next) ∷ db.versions;
}

-- The state in which IncrementMapVersion finds a map and its owner, with calls that do not fail.
pub record IsCounted (id : Text) (n : ℕ) (m : MapRow) (owner : Text) (s : Store) : Type 0 where
  pub healthy : s.faults ≡ []
  pub row : lookup id s.db.maps ≡ some m
  pub owner_known : username_of m.owner_id s.db.users ≡ some owner
  pub last : max_version (versions_of id s.db.versions) ≡ some n

-- What it leaves.
pub record IsAdvanced (id updated_by : Text) (n : ℕ) (m : MapRow) (owner : Text) (before : Store)
    (after : Result StoreError MapRecord × Store) : Type 0 where
  pub returns :
      after.0
      ≡ ok (record {
        uuid = id;
        row = record m { current_version = itoa (n + 1); updated_by = updated_by };
        owner = owner;
      })
  pub db : after.1.db ≡ advanced id (itoa (n + 1)) updated_by m before.db
  pub unused : any (λ v. v == (id, itoa (n + 1))) before.db.versions ≡ false
  pub map_dropped : (t : ℕ) → get t id after.1.map_cache ≡ none
  pub version_dropped : (t : ℕ) → get t id after.1.current_version_cache ≡ none

assign-advanced :
    (id updated_by : Text) (n : ℕ) (m : MapRow) (owner : Text) (s : Store)
    → IsCounted id n m owner s
    → assign_next_version id updated_by s ≡ (
      ok (record {
        uuid = id;
        row = record m { current_version = itoa (n + 1); updated_by = updated_by };
        owner = owner;
      }),
      record s { db = advanced id (itoa (n + 1)) updated_by m s.db },
    )
unfolding assign_next_version query execute statement take_fault insert_unless load_map_with_owner
    select_map
assign-advanced id updated_by n m owner s c =
    rw
      (
        c.healthy,
        has_map-lookup id s.db.maps m c.row,
        c.last,
        c.row,
        next-is_free id s.db.versions n c.last,
        lookup-insert_self id (record m { current_version = itoa (n + 1); updated_by = updated_by })
            s.db.maps,
        c.owner_known,
      )
      refl

get-invalidated :
    {V : Type 0} (t : ℕ) (k : Text) (c : Cache Text V) → get t k (invalidate k c) ≡ none
unfolding get live_value invalidate
get-invalidated t k c = rw (lookup-remove k k c, eq_refl k) refl

-- For a map with an owner, whose recorded versions are numbers up to n, and without failing
-- statements, IncrementMapVersion returns the map with the version n + 1, writes it to the map and
-- to its history, where it was not before, and drops the map from both caches.
pub increment-IsAdvanced :
    (id updated_by : Text) (n : ℕ) (m : MapRow) (owner : Text) (s : Store)
    → IsCounted id n m owner s
    → IsAdvanced id updated_by n m owner s (increment_map_version id updated_by s)
unfolding increment_map_version transaction invalidate_map invalidate_current_version
increment-IsAdvanced id updated_by n m owner s c =
    rw (assign-advanced id updated_by n m owner s c) (record {
      returns = refl;
      db = refl;
      unused = next-is_free id s.db.versions n c.last;
      map_dropped = λ t. get-invalidated t id s.map_cache;
      version_dropped = λ t. get-invalidated t id s.current_version_cache;
    })

committed : Text → MapRecord → Exec Store StoreError MapRecord
committed id m = invalidate_map id >> (invalidate_current_version id >> pure m)

undone :
    (id : Text) (db : Database) (r : Result StoreError MapRecord × Store) (e : StoreError)
    → (continue (committed id) (roll_back db r)).0 ≡ err e
    → (continue (committed id) (roll_back db r)).1.db ≡ db
unfolding committed invalidate_map invalidate_current_version
undone id db (ok m, s) e h = absurd (ground arith)
undone id db (err f, s) e h = refl

-- When IncrementMapVersion fails, at whatever statement, the database is as before.
pub increment-undone :
    (id updated_by : Text) (s : Store) (e : StoreError)
    → (increment_map_version id updated_by s).0 ≡ err e
    → (increment_map_version id updated_by s).1.db ≡ s.db
unfolding increment_map_version transaction committed
increment-undone id updated_by s e h = undone id s.db (assign_next_version id updated_by s) e h
