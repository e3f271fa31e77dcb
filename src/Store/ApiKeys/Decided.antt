-- ===== src/Store/ApiKeys/Decided.antt =====
-- internal/store/api_key_scopes.go: which versions a key may access.
use tileserve_go.Prelude.{
  some_same, Bool, true, false, Option, none, some, List, [], ◌∷◌, Text, ◌==◌, nat_eq, text_eq,
  pair_eq, eq_iff, any, In, if◌then◌else◌, ◌≡◌, ◌↔◌, ◌⊎◌, inl, inr, refl, sym, ◌∙◌, subst,
  Bool-cases, true-false, none-some, arith,
}
use tileserve_go.Prelude.Assoc.{lookup}
use tileserve_go.Prelude.Monad.{Result, ok, err}
use tileserve_go.Store.Database.{ApiKeyRow}
use tileserve_go.Store.State.{Store, StoreError, invalid_api_key, ApiKeyScopeEntry}
use tileserve_go.Store.ApiKeys.{
  if_active, active_key, signing_key_of, entry_of, select_scope, whitelists, allows_map,
  allows_version, api_key_can_access_map, api_key_can_access_map_version,
}
use tileserve_go.Store.ApiKeys.Entries.{HasTrueKeys, scope_of_key}
use tileserve_go.Store.ApiKeys.Scoped.{
  option_map, can_access_map-IsReadOf, can_access_map_version-IsReadOf,
}

-- The row of a key that is known and not revoked.
abbrev pub IsActive : Option ApiKeyRow → ApiKeyRow → Type 0
IsActive o k = (o ≡ some k) × (k.revoked ≡ false)

-- The map is in the key's scope, with no whitelist, or with one that has the version.
abbrev pub IsInScope : Option (List Text) → Text → Type 0
IsInScope o version =
    (versions : List Text) × (o ≡ some versions) × ((versions ≡ []) ⊎ In version versions)

-- The map is in the key's scope.
abbrev pub IsMapped : Option (List Text) → Type 0
IsMapped o = (versions : List Text) × (o ≡ some versions)

any-In : (version : Text) (vs : List Text) → (any (λ w. w == version) vs ≡ true) ↔ In version vs
any-In version [] = ground arith
any-In version (v ∷ vs) = ground (arith, eq_iff v version, any-In version vs)

whitelists-In :
    (version : Text) (vs : List Text) → (whitelists vs version ≡ true) ↔ ((vs ≡ []) ⊎ In version vs)
whitelists-In version [] = (λ h. inl refl, λ h. refl)
whitelists-In version (v ∷ vs) =
    let k = any-In version (v ∷ vs) in
    (λ h. inr (k.0 h), λ h. elim h [ inl e ↦ absurd (ground arith) | inr i ↦ k.1 i ])

allows_version-IsInScope :
    (version : Text) (o : Option (List Text))
    → (allows_version (some (entry_of o)) version ≡ true) ↔ IsInScope o version
allows_version-IsInScope version none = (λ h. absurd (ground arith), λ h. absurd (none-some h.1))
allows_version-IsInScope version (some vs) =
    let k = whitelists-In version vs in
    (
      λ h. (vs, refl, k.0 h),
      λ h. k.1 (subst (λ ws. (ws ≡ []) ⊎ In version ws) (sym (some_same h.1)) h.2),
    )

allows_map-IsMapped :
    (o : Option (List Text)) → (allows_map (some (entry_of o)) ≡ true) ↔ IsMapped o
allows_map-IsMapped none = (λ h. absurd (ground arith), λ h. absurd (none-some h.1))
allows_map-IsMapped (some vs) = (λ h. (vs, refl), λ h. refl)

-- An answer is about an active key, and is yes exactly if the key is unscoped or `P` holds of its
-- scope.
abbrev pub IsAnswered : Type 0 → Option ApiKeyRow → Bool → Type 0
IsAnswered P row b = (k : ApiKeyRow) × IsActive row k × ((b ≡ true) ↔ ((k.scoped ≡ false) ⊎ P))

-- `allows` is the test of the scope's entry, which an unscoped key has not.
module _ (allows : Option ApiKeyScopeEntry → Bool) (P : Type 0) (o : Option (List Text))
    (unscoped : allows none ≡ true) (scope : (allows (some (entry_of o)) ≡ true) ↔ P) where
  abbrev by_flag : Bool → Option Bool
  by_flag scoped = option_map allows (if scoped then some (some (entry_of o)) else some none)

  -- The answer of the two rows: none for a key that is not active.
  abbrev answer_of : Option ApiKeyRow → Option Bool
  answer_of row = option_map allows (scope_of_key (signing_key_of (if_active row)) (entry_of o))

  by_scope : (scoped b : Bool) → by_flag scoped ≡ some b → (b ≡ true) ↔ ((scoped ≡ false) ⊎ P)
  by_scope false b h = (λ e. inl refl, λ e. sym (some_same h) ∙ unscoped)
  by_scope true b h = (
    λ e. inr (scope.0 (some_same h ∙ e)),
    λ e. elim e [ inl f ↦ absurd (true-false f) | inr i ↦ sym (some_same h) ∙ scope.1 i ],
  )

  answered : (row : Option ApiKeyRow) (b : Bool) → answer_of row ≡ some b → IsAnswered P row b
  answered none b h = absurd (none-some h)
  answered (some k) b h = elim (Bool-cases k.revoked) [
    | inl revoked ↦
        let gone : answer_of (some k) ≡ none = rw revoked refl in absurd (none-some (sym gone ∙ h))
    | inr active ↦
        let same : answer_of (some k) ≡ by_flag k.scoped = rw active refl in
        (k, (refl, active), by_scope k.scoped b (sym same ∙ h))
  ]

  some_flag : (scoped : Bool) → (b : Bool) × (by_flag scoped ≡ some b)
  some_flag true = (allows (some (entry_of o)), refl)
  some_flag false = (allows none, refl)

  no-IsActive : (row : Option ApiKeyRow) → answer_of row ≡ none → (k : ApiKeyRow) → ¬ IsActive row k
  no-IsActive row h k a =
      let given : (b : Bool) × (answer_of row ≡ some b) = rw (a.0, a.1) (some_flag k.scoped) in
      none-some (sym h ∙ given.1)

-- What a test of a key for a map does: it writes no table and keeps the caches true; an answer is
-- about a key that is active, and is yes exactly if the key is unscoped or `P` holds of its scope
-- of the map; and the key of an ErrInvalidAPIKey is not active.
pub record IsDecision (P : Option (List Text) → Type 0) (key map_id : Text) (s : Store)
    (r : Result StoreError Bool × Store) : Type 0 where
  pub db : r.1.db ≡ s.db
  pub coherent : HasTrueKeys r.1
  pub decided :
      (b : Bool)
      → r.0 ≡ ok b
      → IsAnswered (P (lookup (key, map_id) s.db.scopes)) (lookup key s.db.api_keys) b
  pub invalid :
      r.0 ≡ err invalid_api_key → (k : ApiKeyRow) → ¬ IsActive (lookup key s.db.api_keys) k

-- While the caches of keys and scopes serve only what the tables say, APIKeyCanAccessMapVersion
-- answers only for a key that is known and not revoked, and then yes exactly if the key is
-- unscoped, or its scope has the map with an empty whitelist or with one that has the version. It
-- gives ErrInvalidAPIKey only for a key that is unknown or revoked. It writes no table and keeps
-- the caches true.
pub can_access_map_version-IsDecision :
    (key map_id version : Text) (s : Store)
    → HasTrueKeys s
    → IsDecision
        (λ o. IsInScope o version)
        key
        map_id
        s
        (api_key_can_access_map_version key map_id version s)
unfolding active_key select_scope
can_access_map_version-IsDecision key map_id version s c =
    let allows = λ (e : Option ApiKeyScopeEntry). allows_version e version in
    let row = lookup key s.db.api_keys in
    let o = lookup (key, map_id) s.db.scopes in
    let scope = allows_version-IsInScope version o in
    let read = can_access_map_version-IsReadOf key map_id s c version in
    record {
      db = read.db;
      coherent = read.coherent;
      decided = λ b h. answered allows (IsInScope o version) o refl scope row b (read.right b h);
      invalid = λ h. no-IsActive allows (IsInScope o version) o refl scope row (read.invalid h);
    }

-- While the caches of keys and scopes serve only what the tables say, APIKeyCanAccessMap answers
-- only for a key that is known and not
-- revoked, and then yes exactly if the key is unscoped or its scope has the map, whatever the
-- whitelist. It gives ErrInvalidAPIKey only for a key that is unknown or revoked. It writes no
-- table and keeps the caches true.
pub can_access_map-IsDecision :
    (key map_id : Text) (s : Store)
    → HasTrueKeys s
    → IsDecision IsMapped key map_id s (api_key_can_access_map key map_id s)
unfolding active_key select_scope
can_access_map-IsDecision key map_id s c =
    let row = lookup key s.db.api_keys in
    let o = lookup (key, map_id) s.db.scopes in
    let read = can_access_map-IsReadOf key map_id s c in
    record {
      db = read.db;
      coherent = read.coherent;
      decided = λ b h.
          answered allows_map (IsMapped o) o refl (allows_map-IsMapped o) row b (read.right b h);
      invalid = λ h.
          no-IsActive allows_map (IsMapped o) o refl (allows_map-IsMapped o) row (read.invalid h);
    }
