-- ===== src/Store/ApiKeys/Scoped.antt =====
-- internal/store/api_key_scopes.go: what a scoped key may access, against the tables.
use tileserve_go.Prelude.{
  Bool, true, false, Option, none, some, Text, nat_eq, text_eq, pair_eq, if◌then◌else◌, ◌≡◌, refl,
  sym, ap, ◌∙◌, arith,
}
use tileserve_go.Prelude.Monad.{Result, ok, err, Exec, continue, pure, ◌>>=◌}
use tileserve_go.Store.Database.{Database}
use tileserve_go.Store.State.{Store, StoreError, ApiKeySigningKey, ApiKeyScopeEntry}
use tileserve_go.Store.ApiKeys.{
  api_key_scoped_flag, select_scope, scope_entry, resolve_api_key_map_scope, api_key_can_access_map,
  allows_map, api_key_can_access_map_version, allows_version,
}
use tileserve_go.Store.ApiKeys.Entries.{
  keys_of, HasTrueKeys, scope_of_key, scope_in, IsReadOf, flag_in, api_key_scoped_flag-IsReadOf,
  scope_entry-IsReadOf,
}

moved-IsReadOf :
    {A : Type 0} (f : Database → Option A) (s t : Store) (r : Result StoreError A × Store)
    → t.db ≡ s.db
    → IsReadOf (f t.db) t r
    → IsReadOf (f s.db) s r
moved-IsReadOf f s t r e i = record {
  db = i.db ∙ e;
  coherent = i.coherent;
  right = λ a h. ap f (sym e) ∙ i.right a h;
  invalid = λ h. ap f (sym e) ∙ i.invalid h;
}

bind-IsReadOf :
    {A B : Type 0} (f : Option A) (g : Option B) (s : Store) (r : Result StoreError A × Store)
    (n : A → Exec Store StoreError B)
    → IsReadOf f s r
    → (f ≡ none → g ≡ none)
    → ((a : A) (t : Store) → t.db ≡ s.db → HasTrueKeys t → f ≡ some a → IsReadOf g s (n a t))
    → IsReadOf g s (continue n r)
bind-IsReadOf f g s (ok a, t) n i fails goes = goes a t i.db i.coherent (i.right a refl)
bind-IsReadOf f g s (err e, t) n i fails goes = record {
  db = i.db;
  coherent = i.coherent;
  right = λ a h. absurd (ground arith);
  invalid = λ h. fails (i.invalid (ground arith));
}

pure-IsReadOf :
    {A : Type 0} (f : Option A) (a : A) (s t : Store)
    → t.db ≡ s.db
    → HasTrueKeys t
    → f ≡ some a
    → IsReadOf f s (ok a, t)
pure-IsReadOf f a s t e c h = record {
  db = e;
  coherent = c;
  right = λ b g. h ∙ (ground arith);
  invalid = λ g. absurd (ground arith);
}

flag_none :
    (k : Option ApiKeySigningKey) (e : ApiKeyScopeEntry)
    → flag_in k ≡ none
    → scope_of_key k e ≡ none
flag_none none e h = refl
flag_none (some k) e h = absurd (ground arith)

pub flag_some :
    (k : Option ApiKeySigningKey) (e : ApiKeyScopeEntry) (b : Bool)
    → flag_in k ≡ some b
    → scope_of_key k e ≡ some (if b then some e else none)
flag_some none e b h = absurd (ground arith)
flag_some (some k) e b h = ground arith

abbrev pub option_map : {A B : Type 0} → (A → B) → Option A → Option B
option_map f none = none
option_map f (some a) = some (f a)

option_map-none : {A B : Type 0} (f : A → B) (o : Option A) → o ≡ none → option_map f o ≡ none
option_map-none f o h = ap (option_map f) h

module _ (key map_id : Text) (s : Store) (c : HasTrueKeys s) where
  resolve_branch :
      (b : Bool) (t : Store)
      → t.db ≡ s.db
      → HasTrueKeys t
      → scope_in key map_id s.db ≡ some (if b then some (select_scope key map_id s.db) else none)
      → IsReadOf
          (scope_in key map_id s.db)
          s
          ((if b then (scope_entry key map_id >>= λ entry. pure (some entry)) else pure none) t)
  resolve_branch false t e d h = pure-IsReadOf (scope_in key map_id s.db) none s t e d h
  resolve_branch true t e d h =
      bind-IsReadOf (some (select_scope key map_id s.db)) (scope_in key map_id s.db) s
        (scope_entry key map_id t) (λ entry. pure (some entry))
        (moved-IsReadOf (λ db. some (select_scope key map_id db)) s t (scope_entry key map_id t) e
          (scope_entry-IsReadOf key map_id t d))
        (λ no_entry. absurd (ground arith))
        (λ entry u e2 d2 h2.
          pure-IsReadOf (scope_in key map_id s.db) (some entry) s u e2 d2 (h ∙ ap some h2))

  resolve-IsReadOf : IsReadOf (scope_in key map_id s.db) s (resolve_api_key_map_scope key map_id s)
  unfolding resolve_api_key_map_scope
  resolve-IsReadOf =
      bind-IsReadOf (flag_in (keys_of s.db key)) (scope_in key map_id s.db) s
        (api_key_scoped_flag key s)
        (λ scoped.
          if scoped then (scope_entry key map_id >>= λ entry. pure (some entry)) else pure none)
        (api_key_scoped_flag-IsReadOf key s c)
        (flag_none (keys_of s.db key) (select_scope key map_id s.db))
        (λ b t e d h.
          resolve_branch b t e d (flag_some (keys_of s.db key) (select_scope key map_id s.db) b h))

  mapped :
      (f : Option ApiKeyScopeEntry → Bool)
      → IsReadOf
          (option_map f (scope_in key map_id s.db))
          s
          ((resolve_api_key_map_scope key map_id >>= λ entry. pure (f entry)) s)
  mapped f =
      bind-IsReadOf (scope_in key map_id s.db) (option_map f (scope_in key map_id s.db)) s
        (resolve_api_key_map_scope key map_id s) (λ entry. pure (f entry)) resolve-IsReadOf
        (option_map-none f (scope_in key map_id s.db))
        (λ entry t e d h.
          pure-IsReadOf (option_map f (scope_in key map_id s.db)) (f entry) s t e d
            (ap (option_map f) h))

  -- Both tests of a key, on every outcome.
  pub can_access_map-IsReadOf :
      IsReadOf
        (option_map allows_map (scope_in key map_id s.db))
        s
        (api_key_can_access_map key map_id s)
  unfolding api_key_can_access_map
  can_access_map-IsReadOf = mapped allows_map

  pub can_access_map_version-IsReadOf :
      (version : Text)
      → IsReadOf
          (option_map (λ e. allows_version e version) (scope_in key map_id s.db))
          s
          (api_key_can_access_map_version key map_id version s)
  unfolding api_key_can_access_map_version
  can_access_map_version-IsReadOf version = mapped (λ e. allows_version e version)
