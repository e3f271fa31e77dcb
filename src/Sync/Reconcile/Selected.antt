-- ===== src/Sync/Reconcile/Selected.antt =====
-- internal/sync/sync.go: which versions versionsToPull and which maps mapsToSync select.
use tileserve_go.Prelude.{
  Bool, ◌≤◌, true, false, not, ◌&&◌, ◌||◌, List, [], ◌∷◌, Text, nat_eq, text_eq, In, In-keep_if,
  keep_if, iff_trans, ◌≡◌, ◌↔◌, ◌⊎◌, arith,
}
use tileserve_go.Prelude.Assoc.{lookup}
use tileserve_go.Prelude.Sorting.{
  IsSorted, none_left, one, more, sort_slice-IsSorted, sort_slice-In,
}
use tileserve_go.Sync.Reconcile.{VersionRecord, is_set, earlier, versions_to_pull, maps_to_sync}

earlier_asym : (a b : VersionRecord) → earlier a b ≡ true → earlier b a ≡ false
earlier_asym a b h = ground arith

not-true : (b : Bool) → (not b ≡ true) ↔ (b ≡ false)
not-true true = ground arith
not-true false = ground arith

and_right_iff {ℓ κ μ} : {A : Type ℓ} {B : Type κ} {K : Type μ} → A ↔ B → (K × A) ↔ (K × B)
and_right_iff p = ground (arith, p)

-- None was created before the one in front of it.
pub data AreOldestFirst : List VersionRecord → Type 0 where
  nothing : AreOldestFirst []
  single : (v : VersionRecord) → AreOldestFirst (v ∷ [])
  followed :
      {v w : VersionRecord} {vs : List VersionRecord}
      → v.created_at ≤ w.created_at
      → AreOldestFirst (w ∷ vs)
      → AreOldestFirst (v ∷ w ∷ vs)

IsSorted-AreOldestFirst : {vs : List VersionRecord} → IsSorted earlier vs → AreOldestFirst vs
IsSorted-AreOldestFirst none_left = nothing
IsSorted-AreOldestFirst (one v) = single v
IsSorted-AreOldestFirst (more h s) = followed (ground arith) (IsSorted-AreOldestFirst s)

-- The versions in the order of their creation, and exactly those that are not yet local.
pub record ArePulled (already_local : List (Text × Bool)) (remote result : List VersionRecord)
    : Type 0 where
  pub sorted : AreOldestFirst result
  pub member :
      (v : VersionRecord)
      → In v result ↔ (In v remote × (is_set (lookup v.version already_local) ≡ false))

-- versionsToPull gives exactly the remote versions that are not yet local, none of them created
-- before the one in front of it.
pub versions_to_pull-ArePulled :
    (already_local : List (Text × Bool)) (remote : List VersionRecord)
    → ArePulled already_local remote (versions_to_pull already_local remote)
unfolding versions_to_pull
versions_to_pull-ArePulled already_local remote =
    let fresh : VersionRecord → Bool = λ v. not (is_set (lookup v.version already_local)) in
    record {
      sorted =
          IsSorted-AreOldestFirst (sort_slice-IsSorted earlier earlier_asym (keep_if fresh remote));
      member = λ v. iff_trans (sort_slice-In earlier v (keep_if fresh remote)) (
          iff_trans (In-keep_if fresh v remote)
            (and_right_iff (not-true (is_set (lookup v.version already_local)))));
    }

choice_iff :
    (selected new known : Bool)
    → ((selected || (new && not known)) ≡ true)
      ↔ ((selected ≡ true) ⊎ ((new ≡ true) × (known ≡ false)))
choice_iff true new known = ground arith
choice_iff false true known = ground arith
choice_iff false false known = ground arith

-- mapsToSync selects a map exactly if it is in the remote's list and either selected, or new to
-- this server while new maps are to be synced.
pub maps_to_sync_iff :
    (maps : List Text) (sync_new_maps : Bool) (selected known : List (Text × Bool)) (m : Text)
    → In m (maps_to_sync maps sync_new_maps selected known) ↔ (
        In m maps
        × ((is_set (lookup m selected) ≡ true)
            ⊎ ((sync_new_maps ≡ true) × (is_set (lookup m known) ≡ false))))
unfolding maps_to_sync
maps_to_sync_iff maps sync_new_maps selected known m =
    iff_trans
      (In-keep_if
        (λ i. is_set (lookup i selected) || (sync_new_maps && not (is_set (lookup i known)))) m
        maps)
      (and_right_iff
        (choice_iff (is_set (lookup m selected)) sync_new_maps (is_set (lookup m known))))
