-- ===== src/Webserver/Versions/Resolved.antt =====
-- internal/webserver/maps.go and map_aliases.go: what resolveVersionSegment resolves to.
use tileserve_go.Prelude.{
  ℕ, Bool, true, false, some, [], ◌∷◌, Text, ◌==◌, eq_iff, nat_eq, text_eq, if◌then◌else◌, ◌≡◌, ◌≢◌,
  ◌↔◌, ◌⊎◌, ◌∙◌, sym, inl, inr, codes, Bool-cases, true-false, refl, arith,
}
use tileserve_go.Prelude.Monad.{Result, ok, err, Exec, continue, recover, pure, raise, ◌>>◌}
use tileserve_go.Store.Database.{Database, select_current_version}
use tileserve_go.Store.State.{Store, StoreError}
use tileserve_go.Store.Maps.{get_current_version}
use tileserve_go.Store.Aliases.{select_alias, get_map_version_alias}
use tileserve_go.Store.Reads.{
  HasTrueCaches, Reads, Reads-pure, Reads-raise, Reads-bind, Reads-handle, Reads-weaken,
}
use tileserve_go.Store.Reads.Methods.{get_current_version-Reads}
use tileserve_go.Store.Reads.Keys.{get_map_version_alias-Reads}
use tileserve_go.TileArchive.Names.{numeric_segment}
use tileserve_go.TileArchive.Names.Grammar.{IsNumber, numeric_segment_iff}
use tileserve_go.Webserver.Request.{
  Request, Refusal, bad_request, forbidden, not_found, or_refuse, internal, require,
}
use tileserve_go.Webserver.Authz.{
  map_error, key_version_allowed, api_key_map_version_allowed, require_allowed,
}
use tileserve_go.Webserver.Authz.Sound.{key_may_version, key_version-Reads}
use tileserve_go.Webserver.Versions.{
  VersionSegmentKind, version_segment_current, version_segment_numeric, version_segment_alias,
  classify_version_segment, current_version_keyword, validate_alias_name, resolve_current_version,
  alias_error, resolve_segment, resolve_version_segment,
}

-- The version that the tables give for a segment of each kind.
abbrev OfKind : VersionSegmentKind → Text → Text → Text → Database → Type 0
OfKind version_segment_current id segment v db = (select_current_version id db ≡ some v) × (v ≢ [])
OfKind version_segment_numeric id segment v db = v ≡ segment
OfKind version_segment_alias id segment v db = select_alias id segment db ≡ some v

Reads-refuse :
    {A : Type 0} (P : A → Type 0) (f : StoreError → Refusal) (s t : Store)
    (m : Exec Store StoreError A)
    → Reads P s (m t)
    → Reads P s (or_refuse f m t)
unfolding or_refuse
Reads-refuse P f s t m i =
    Reads-handle P s (m t) (λ e. raise (f e)) i (λ e u d c. Reads-raise (f e) s u d c)

present :
    (v : Text) (b : Bool) (s t : Store) (id : Text)
    → t.db ≡ s.db
    → HasTrueCaches t
    → (v == []) ≡ b
    → select_current_version id s.db ≡ some v
    → Reads
        (λ w. (select_current_version id s.db ≡ some w) × (w ≢ []))
        s
        ((if b then raise not_found else pure v) t)
present v true s t id e c h p = Reads-raise not_found s t e c
present v false s t id e c h p = Reads-pure v s t e c (p, λ q. ground (arith, (eq_iff v []).1 q))

segment-Reads :
    (k : VersionSegmentKind) (id segment : Text) (s : Store)
    → HasTrueCaches s
    → Reads (λ v. OfKind k id segment v s.db) s (resolve_segment k id segment s)
unfolding resolve_segment resolve_current_version
segment-Reads version_segment_numeric id segment s c = Reads-pure segment s s refl c refl
segment-Reads version_segment_alias id segment s c =
    Reads-refuse (λ v. select_alias id segment s.db ≡ some v) alias_error s s
      (get_map_version_alias id segment) (get_map_version_alias-Reads s s refl c id segment)
segment-Reads version_segment_current id segment s c =
    Reads-bind (λ v. select_current_version id s.db ≡ some v) s
      (or_refuse map_error (get_current_version id) s)
      (λ v. if v == [] then raise not_found else pure v)
      (Reads-refuse (λ v. select_current_version id s.db ≡ some v) map_error s s
        (get_current_version id) (get_current_version-Reads s s refl c id))
      (λ v t e d p. present v (v == []) s t id e d refl p)

required :
    (P : Text → Type 0) (K : Text → Bool) (v : Text) (b : Bool) (s t : Store)
    → t.db ≡ s.db
    → HasTrueCaches t
    → P v
    → K v ≡ b
    → Reads (λ w. P w × (K w ≡ true)) s ((require b forbidden >> pure v) t)
required P K v false s t e c q h = Reads-raise forbidden s t e c
required P K v true s t e c q h = Reads-pure v s t e c (q, h)

allowed_version :
    (P : Text → Type 0) (K : Text → Bool) (v : Text) (s t : Store)
    (x : Result StoreError Bool × Store)
    → P v
    → Reads (λ b. K v ≡ b) s x
    → Reads
        (λ w. P w × (K w ≡ true))
        s
        (continue
          (λ _. pure v)
          (continue (λ b. require b forbidden) (recover (λ e. raise (internal e)) x)))
allowed_version P K v s t (err e, u) p i = Reads-raise (internal e) s u i.db i.coherent
allowed_version P K v s t (ok b, u) p i = required P K v b s u i.db i.coherent p (i.right b refl)

-- The version that the tables give for a segment: the current one, which is not empty, for
-- "current"; a number for itself; and else the version of the alias.
abbrev pub StandsFor : Text → Text → Text → Database → Type 0
StandsFor id segment v db =
    ((segment ≡ codes "current") × (select_current_version id db ≡ some v) × (v ≢ []))
    ⊎ ((segment ≢ codes "current") × IsNumber segment × (v ≡ segment))
    ⊎ ((segment ≢ codes "current") × (¬ IsNumber segment) × (select_alias id segment db ≡ some v))

OfKind-StandsFor :
    (id segment v : Text) (db : Database)
    → OfKind (classify_version_segment segment) id segment v db
    → StandsFor id segment v db
unfolding classify_version_segment
OfKind-StandsFor id segment v db = elim (Bool-cases (segment == current_version_keyword)) [
  | inl here ↦ rw here (λ h. inl ((eq_iff segment (codes "current")).0 here, h.0, h.1))
  | inr other ↦
      let differs : segment ≢ codes "current" =
        λ e. true-false (sym ((eq_iff segment (codes "current")).1 e) ∙ other) in
      elim (Bool-cases (numeric_segment segment)) [
        | inl number ↦
            rw (other, number) (λ h. inr (inl (differs, (numeric_segment_iff segment).0 number, h)))
        | inr word ↦
            rw (other, word)
              (λ h. inr (
                inr (differs, λ n. true-false (sym ((numeric_segment_iff segment).1 n) ∙ word), h)))
      ]
]

resolve_segment-Reads :
    (id segment : Text) (s : Store)
    → HasTrueCaches s
    → Reads
        (λ v. StandsFor id segment v s.db)
        s
        (resolve_segment (classify_version_segment segment) id segment s)
resolve_segment-Reads id segment s c =
    let kind = classify_version_segment segment in
    Reads-weaken (λ v. OfKind kind id segment v s.db) s s (resolve_segment kind id segment s) refl
      (λ v. OfKind-StandsFor id segment v s.db) (segment-Reads kind id segment s c)

-- With true caches, resolveVersionSegment returns only the version that the tables give for the
-- segment and that the key, if any, may access: for "current" the map's current version, if it is
-- not empty; for a number the number itself; for another segment the version of that alias. It
-- changes no table and keeps the caches true.
pub resolve_version_segment-Reads :
    (r : Request) (id segment : Text) (s : Store)
    → HasTrueCaches s
    → Reads
        (λ v. StandsFor id segment v s.db × (key_may_version r.api_key id v s.db ≡ true))
        s
        (resolve_version_segment r id segment s)
unfolding resolve_version_segment api_key_map_version_allowed require_allowed or_refuse
resolve_version_segment-Reads r id segment s c =
    Reads-bind (λ v. StandsFor id segment v s.db) s
      (resolve_segment (classify_version_segment segment) id segment s)
      (λ v. require_allowed (api_key_map_version_allowed r id v) >> pure v)
      (resolve_segment-Reads id segment s c)
      (λ v t e d p.
        allowed_version (λ w. StandsFor id segment w s.db)
          (λ w. key_may_version r.api_key id w s.db) v s t (key_version_allowed r.api_key id v t) p
          (key_version-Reads r.api_key id v s t e d))

kind_of : Bool → Bool → VersionSegmentKind
kind_of x y =
    if x
    then version_segment_current
    else if y
    then version_segment_numeric
    else version_segment_alias

two_tests :
    (x y : Bool) (s : Store)
    → (((if x
            then raise bad_request
            else (if y then raise bad_request else pure {S = Store} {E = Refusal} (tt {0})))
          s).0
        ≡ ok tt)
      ↔ (kind_of x y ≡ version_segment_alias)
unfolding kind_of
two_tests true y s = ground arith
two_tests false true s = ground arith
two_tests false false s = ground arith

not_empty : (c : ℕ) (s : Text) → (c ∷ s) ≢ []
not_empty c s h = ground arith

-- A name passes validateAliasName exactly if it is not empty and, as a path segment, is looked up
-- as an alias.
pub validate_alias_name_iff :
    (alias : Text) (s : Store)
    → ((validate_alias_name alias s).0 ≡ ok tt)
      ↔ ((alias ≢ []) × (classify_version_segment alias ≡ version_segment_alias))
unfolding validate_alias_name classify_version_segment kind_of
validate_alias_name_iff [] s = (λ h. absurd (ground arith), λ h. absurd (h.0 refl))
validate_alias_name_iff (c ∷ alias) s =
    let both = two_tests (c ∷ alias == current_version_keyword) (numeric_segment (c ∷ alias)) s in
    (λ h. (not_empty c alias, both.0 h), λ h. both.1 h.1)
