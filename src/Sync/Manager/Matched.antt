-- ===== src/Sync/Manager/Matched.antt =====
-- internal/sync/manager.go: after a reconcile the workers are those that the remotes ask for.
use tileserve_go.Prelude.{
  some_same, none-some, false, Option, none, some, List, [], ◌∷◌, Text, ◌==◌, nat_eq, text_eq,
  eq_iff, eq_refl, ◌≡◌, refl, sym, ap, ◌∙◌, subst, inl, inr, Bool-cases, arith,
}
use tileserve_go.Prelude.Assoc.{lookup, insert, lookup-insert, lookup-insert_self, lookup-nil}
use tileserve_go.Prelude.Assoc.Entries.{
  IsDistinct, entries, lookup-entries, IsDistinct-entries, lookup_behind, lookup_front,
  lookup_other, lookup_tail,
}
use tileserve_go.Sync.Manager.{
  SyncRemote, RunningWorker, Manager, config_changed, start_worker, start_all, start_unless,
  start_missing, start_wanted,
}
use tileserve_go.Sync.Manager.Owned.{AreKeyed}

-- A worker runs with what the remote's row asks for.
abbrev pub RunsAs : List (Text × SyncRemote) → Text → RunningWorker → Type 0
RunsAs desired id w =
    (r : SyncRemote) × (lookup id desired ≡ some r) × (config_changed w.config r ≡ false)

-- Every worker runs as desired.
abbrev pub AllRunAs : List (Text × SyncRemote) → List (Text × RunningWorker) → Type 0
AllRunAs desired workers =
    (id : Text) (w : RunningWorker) → lookup id workers ≡ some w → RunsAs desired id w

abbrev pub AreDesired : List (Text × SyncRemote) → List (Text × SyncRemote) → Type 0
AreDesired desired rs =
    (id : Text) (r : SyncRemote) → lookup id rs ≡ some r → lookup id desired ≡ some r

-- The workers are those of the desired remotes, and run as desired.
pub record Matches (desired : List (Text × SyncRemote)) (workers : List (Text × RunningWorker))
    : Type 0 where
  pub as_desired : AllRunAs desired workers
  pub complete :
      (id : Text) (r : SyncRemote)
      → lookup id desired ≡ some r
      → (w : RunningWorker) × (lookup id workers ≡ some w)

config_unchanged : (r : SyncRemote) → config_changed r r ≡ false
unfolding config_changed
config_unchanged r =
    ground (arith, eq_refl r.base_url, eq_refl r.remote_api_key_id, eq_refl r.poll_interval_sec)

abbrev started : SyncRemote → Manager → RunningWorker
started r m = record { goroutine = m.next; config = r; pending = false }

module _ (desired : List (Text × SyncRemote)) where
  RunsAs-started :
      (r : SyncRemote) (m : Manager) (j : Text) (w : RunningWorker)
      → lookup r.id desired ≡ some r
      → r.id ≡ j
      → started r m ≡ w
      → RunsAs desired j w
  RunsAs-started r m j w e here same =
      subst (λ k. RunsAs desired k w) here
        (subst (RunsAs desired r.id) same (r, e, config_unchanged r))

  start_worker-AllRunAs :
      (m : Manager) (r : SyncRemote)
      → lookup r.id desired ≡ some r
      → AllRunAs desired m.workers
      → AllRunAs desired (start_worker r m).workers
  unfolding start_worker
  start_worker-AllRunAs m r e v j w h = elim (Bool-cases (r.id == j)) [
    | inl here ↦ RunsAs-started r m j w e ((eq_iff r.id j).0 here) (
        some_same (
          sym (lookup-insert_self r.id (started r m) m.workers)
          ∙ ap (λ k. lookup k (insert r.id (started r m) m.workers)) ((eq_iff r.id j).0 here)
          ∙ h))
    | inr other ↦ v j w (sym (lookup_other r.id j _ m.workers other) ∙ h)
  ]

  start_all-AllRunAs :
      (rs : List (Text × SyncRemote)) (m : Manager)
      → IsDistinct rs
      → AreKeyed rs
      → AreDesired desired rs
      → AllRunAs desired m.workers
      → AllRunAs desired (start_all rs m).workers
  unfolding start_all
  start_all-AllRunAs [] m d k a v = v
  start_all-AllRunAs ((id, r) ∷ rs) m d k a v =
      start_all-AllRunAs rs (start_worker r m) d.1
        (λ j q h. k j q (lookup_behind id j r q rs d h).1)
        (λ j q h. a j q (lookup_behind id j r q rs d h).1)
        (start_worker-AllRunAs m r
          (ap (λ i. lookup i desired) (k id r (lookup_front id r rs))
            ∙ a id r (lookup_front id r rs))
          v)

  start_unless-AllRunAs :
      (o : Option RunningWorker) (m : Manager) (r : SyncRemote)
      → lookup r.id desired ≡ some r
      → AllRunAs desired m.workers
      → AllRunAs desired (start_unless o r m).workers
  start_unless-AllRunAs none m r e v = start_worker-AllRunAs m r e v
  start_unless-AllRunAs (some w) m r e v = v

  start_missing-AllRunAs :
      (rs : List (Text × SyncRemote)) (m : Manager)
      → IsDistinct rs
      → AreKeyed rs
      → AreDesired desired rs
      → AllRunAs desired m.workers
      → AllRunAs desired (start_missing rs m).workers
  unfolding start_missing
  start_missing-AllRunAs [] m d k a v = v
  start_missing-AllRunAs ((id, r) ∷ rs) m d k a v =
      start_missing-AllRunAs rs (start_unless (lookup id m.workers) r m) d.1
        (λ j q h. k j q (lookup_behind id j r q rs d h).1)
        (λ j q h. a j q (lookup_behind id j r q rs d h).1)
        (start_unless-AllRunAs (lookup id m.workers) m r
          (ap (λ i. lookup i desired) (k id r (lookup_front id r rs))
            ∙ a id r (lookup_front id r rs))
          v)

-- A remote has a worker.
abbrev HasWorker : Text → Manager → Type 0
HasWorker id m = (w : RunningWorker) × (lookup id m.workers ≡ some w)

HasWorker-start_worker :
    (j : Text) (r : SyncRemote) (m : Manager) → HasWorker j m → HasWorker j (start_worker r m)
unfolding start_worker
HasWorker-start_worker j r m h = elim (Bool-cases (r.id == j)) [
  | inl here ↦ (started r m, rw (lookup-insert r.id j (started r m) m.workers, here) refl)
  | inr other ↦ (h.0, lookup_other r.id j (started r m) m.workers other ∙ h.1)
]

HasWorker-started : (r : SyncRemote) (m : Manager) → HasWorker r.id (start_worker r m)
unfolding start_worker
HasWorker-started r m = (started r m, lookup-insert_self r.id (started r m) m.workers)

HasWorker-start_unless :
    (j : Text) (o : Option RunningWorker) (r : SyncRemote) (m : Manager)
    → HasWorker j m
    → HasWorker j (start_unless o r m)
HasWorker-start_unless j none r m h = HasWorker-start_worker j r m h
HasWorker-start_unless j (some w) r m h = h

HasWorker-first :
    (o : Option RunningWorker) (r : SyncRemote) (m : Manager)
    → lookup r.id m.workers ≡ o
    → HasWorker r.id (start_unless o r m)
HasWorker-first none r m e = HasWorker-started r m
HasWorker-first (some w) r m e = (w, e)

HasWorker-kept :
    (j : Text) (rs : List (Text × SyncRemote)) (m : Manager)
    → HasWorker j m
    → HasWorker j (start_missing rs m)
unfolding start_missing
HasWorker-kept j [] m h = h
HasWorker-kept j ((id, r) ∷ rs) m h =
    HasWorker-kept j rs (start_unless (lookup id m.workers) r m)
      (HasWorker-start_unless j (lookup id m.workers) r m h)

HasWorker-start_missing :
    (rs : List (Text × SyncRemote)) (m : Manager) (j : Text) (q : SyncRemote)
    → AreKeyed rs
    → IsDistinct rs
    → lookup j rs ≡ some q
    → HasWorker j (start_missing rs m)
unfolding start_missing
HasWorker-start_missing [] m j q k d h =
    absurd (none-some (sym (lookup-nil {V = SyncRemote} j) ∙ h))
HasWorker-start_missing ((id, r) ∷ rs) m j q k d h = elim (Bool-cases (id == j)) [
  | inl here ↦
      let e = k id r (lookup_front id r rs) in
      HasWorker-kept j rs (start_unless (lookup id m.workers) r m) (
        subst (λ i. HasWorker i (start_unless (lookup id m.workers) r m)) (e ∙ (eq_iff id j).0 here)
          (HasWorker-first (lookup id m.workers) r m (ap (λ i. lookup i m.workers) e)))
  | inr other ↦
      HasWorker-start_missing rs (start_unless (lookup id m.workers) r m) j q
        (λ i x g. k i x (lookup_behind id i r x rs d g).1) d.1 (lookup_tail id j r rs other ∙ h)
]

pub start_wanted-Matches :
    (restart desired : List (Text × SyncRemote)) (m : Manager)
    → AreKeyed restart
    → AreKeyed desired
    → AreDesired desired restart
    → AllRunAs desired m.workers
    → Matches desired (start_wanted restart desired m).workers
unfolding start_wanted
start_wanted-Matches restart desired m k l a v =
    let kd = λ (j : Text) (q : SyncRemote) (h : lookup j (entries desired) ≡ some q).
      l j q (sym (lookup-entries j desired) ∙ h) in
    record {
      as_desired =
          start_missing-AllRunAs desired (entries desired) (start_all (entries restart) m)
            (IsDistinct-entries desired) kd (λ j q h. sym (lookup-entries j desired) ∙ h)
            (start_all-AllRunAs desired (entries restart) m (IsDistinct-entries restart)
              (λ j q h. k j q (sym (lookup-entries j restart) ∙ h))
              (λ j q h. a j q (sym (lookup-entries j restart) ∙ h)) v);
      complete = λ j q h.
          HasWorker-start_missing (entries desired) (start_all (entries restart) m) j q kd
            (IsDistinct-entries desired) (lookup-entries j desired ∙ h);
    }
