-- ===== src/Sync/Tests.antt =====
-- internal/sync: each theorem applied to small lists.
use tileserve_go.Prelude.{
  true, false, not, List, [], ◌∷◌, Text, codes, ◌==◌, nat_eq, text_eq, In, ◌≡◌, refl, ◌↔◌, ◌⊎◌,
}
use tileserve_go.Prelude.Assoc.{lookup}
use tileserve_go.Sync.Reconcile.{
  VersionRecord, GeoObject, is_set, versions_to_pull, reconcile_aliases, reconcile_geo_objects,
  maps_to_sync,
}
use tileserve_go.Sync.Reconcile.Applied.{
  IsKeyed, Agree, apply_both, reconcile_aliases-apply_both, reconcile_geo_objects-Agree,
}
use tileserve_go.Sync.Reconcile.Selected.{ArePulled, versions_to_pull-ArePulled, maps_to_sync_iff}
use tileserve_go.Sync.Logs.{logs, max_log_entries_per_remote}
use tileserve_go.Sync.Logs.Bounded.{run, recorded, last_of, logs-last_of}

abbrev local_aliases : List (Text × Text)
local_aliases = (codes "stable", codes "1") ∷ (codes "old", codes "1") ∷ []

abbrev remote_aliases : List (Text × Text)
remote_aliases = (codes "stable", codes "2") ∷ (codes "beta", codes "3") ∷ []

local-IsKeyed : IsKeyed local_aliases
unfolding IsKeyed lookup
local-IsKeyed = (refl, (refl, tt))

remote-IsKeyed : IsKeyed remote_aliases
unfolding IsKeyed lookup
remote-IsKeyed = (refl, (refl, tt))

reconcile_aliases-apply_both_example :
    lookup (codes "old") (apply_both local_aliases (reconcile_aliases local_aliases remote_aliases))
    ≡ lookup (codes "old") remote_aliases
reconcile_aliases-apply_both_example =
    reconcile_aliases-apply_both local_aliases remote_aliases (codes "old") local-IsKeyed
      remote-IsKeyed

abbrev local_objects : List (Text × GeoObject)
local_objects = (codes "a", record { updated_at = 1; content = codes "x" }) ∷ []

abbrev remote_objects : List (Text × GeoObject)
remote_objects = (codes "a", record { updated_at = 2; content = codes "y" }) ∷ []

local_objects-IsKeyed : IsKeyed local_objects
unfolding IsKeyed lookup
local_objects-IsKeyed = (refl, tt)

remote_objects-IsKeyed : IsKeyed remote_objects
unfolding IsKeyed lookup
remote_objects-IsKeyed = (refl, tt)

reconcile_geo_objects-Agree_example :
    Agree
      (λ l r. not (l.updated_at == r.updated_at))
      (lookup
        (codes "a")
        (apply_both local_objects (reconcile_geo_objects local_objects remote_objects)))
      (lookup (codes "a") remote_objects)
reconcile_geo_objects-Agree_example =
    reconcile_geo_objects-Agree local_objects remote_objects (codes "a") local_objects-IsKeyed
      remote_objects-IsKeyed

abbrev remote_versions : List VersionRecord
remote_versions =
    record { version = codes "2"; created_at = 20 }
    ∷ record { version = codes "1"; created_at = 10 }
    ∷ []

versions_to_pull-ArePulled_example :
    ArePulled
      ((codes "3", true) ∷ [])
      remote_versions
      (versions_to_pull ((codes "3", true) ∷ []) remote_versions)
versions_to_pull-ArePulled_example =
    versions_to_pull-ArePulled ((codes "3", true) ∷ []) remote_versions

maps_to_sync_iff_example :
    In (codes "m") (maps_to_sync (codes "m" ∷ codes "n" ∷ []) true [] ((codes "n", true) ∷ [])) ↔ (
      In (codes "m") (codes "m" ∷ codes "n" ∷ [])
      × ((is_set (lookup (codes "m") []) ≡ true)
          ⊎ ((true ≡ true) × (is_set (lookup (codes "m") ((codes "n", true) ∷ [])) ≡ false))))
maps_to_sync_iff_example =
    maps_to_sync_iff (codes "m" ∷ codes "n" ∷ []) true [] ((codes "n", true) ∷ []) (codes "m")

logs-last_of_example :
    logs (codes "r") (
      run (
        (codes "r", codes "second") ∷ (codes "s", codes "other") ∷ (codes "r", codes "first") ∷ []))
    ≡ last_of max_log_entries_per_remote (
        recorded (codes "r") (
          (codes "r", codes "second")
          ∷ (codes "s", codes "other")
          ∷ (codes "r", codes "first")
          ∷ []))
logs-last_of_example =
    logs-last_of (codes "r")
      ((codes "r", codes "second") ∷ (codes "s", codes "other") ∷ (codes "r", codes "first") ∷ [])
