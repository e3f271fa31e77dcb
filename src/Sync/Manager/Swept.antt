-- ===== src/Sync/Manager/Swept.antt =====
-- internal/sync/manager.go: the workers that a sweep leaves.
use tileserve_go.Prelude.{
  some_same, none-some, ℕ, Bool, true, false, ◌||◌, Option, none, some, List, [], ◌∷◌, ◌⊎◌, Text,
  ◌==◌, nat_eq, text_eq, eq_iff, ◌≡◌, refl, sym, ap, ◌∙◌, subst, inl, inr, Bool-cases,
}
use tileserve_go.Prelude.Assoc.{lookup, insert, remove, lookup-insert_self}
use tileserve_go.Prelude.Assoc.Entries.{
  lookup_front, lookup_other, lookup_kept, lookup_removed, lookup_tail,
}
use tileserve_go.Sync.Manager.{
  SyncRemote, RunningWorker, config_changed, Sweep, sweep_worker, sweep, has,
}
use tileserve_go.Sync.Manager.Matched.{RunsAs, AreDesired}

-- What is known of the workers in the first loop, before the entries `rest`.
pub record IsSwept (desired : List (Text × SyncRemote)) (s : Sweep)
    (rest : List (Text × RunningWorker)) : Type 0 where
  pub runs :
      (id : Text) (w : RunningWorker)
      → lookup id s.workers ≡ some w
      → RunsAs desired id w ⊎ (lookup id rest ≡ some w)
  pub wanted : AreDesired desired s.restart
  pub canceled : (n : ℕ) → has n s.stopped ≡ true → has n s.canceled ≡ true

or_mono : (a : Bool) {b c : Bool} → (b ≡ true → c ≡ true) → (a || b) ≡ true → (a || c) ≡ true
or_mono true h g = refl
or_mono false h g = h g

module _ (desired : List (Text × SyncRemote)) (s : Sweep) (id : Text) (w : RunningWorker)
    (rest : List (Text × RunningWorker)) (v : IsSwept desired s ((id, w) ∷ rest)) where
  runs_behind :
      (j : Text) (x : RunningWorker)
      → (id == j) ≡ false
      → lookup j s.workers ≡ some x
      → RunsAs desired j x ⊎ (lookup j rest ≡ some x)
  runs_behind j x other h = elim (v.runs j x h) [
    | inl r ↦ inl r
    | inr g ↦ inr (lookup_tail id j w rest other ∙ g)
  ]

  stopped_runs :
      (j : Text) (x : RunningWorker)
      → lookup j (remove id s.workers) ≡ some x
      → RunsAs desired j x ⊎ (lookup j rest ≡ some x)
  stopped_runs j x h = elim (Bool-cases (id == j)) [
    | inl here ↦ absurd (
        none-some (
          sym (lookup_removed id s.workers)
          ∙ ap (λ i. lookup i (remove id s.workers)) ((eq_iff id j).0 here)
          ∙ h))
    | inr other ↦ runs_behind j x other (sym (lookup_kept id j s.workers other) ∙ h)
  ]

  stopped_canceled :
      (n : ℕ) → has n (w.goroutine ∷ s.stopped) ≡ true → has n (w.goroutine ∷ s.canceled) ≡ true
  stopped_canceled n h = or_mono (w.goroutine == n) (v.canceled n) h

  kept_runs :
      (r : SyncRemote)
      → lookup id desired ≡ some r
      → config_changed w.config r ≡ false
      → (j : Text) (x : RunningWorker) → lookup j s.workers ≡ some x
      → RunsAs desired j x ⊎ (lookup j rest ≡ some x)
  kept_runs r e same j x h = elim (v.runs j x h) [
    | inl good ↦ inl good
    | inr g ↦ elim (Bool-cases (id == j)) [
      | inr other ↦ inr (lookup_tail id j w rest other ∙ g)
      | inl here ↦ inl (
          subst (λ k. RunsAs desired k x) ((eq_iff id j).0 here)
            (subst (RunsAs desired id)
              (some_same (
                sym (lookup_front id w rest)
                ∙ ap (λ k. lookup k ((id, w) ∷ rest)) ((eq_iff id j).0 here)
                ∙ g))
              (r, e, same)))
    ]
  ]

  wanted_insert :
      (r : SyncRemote) → lookup id desired ≡ some r → AreDesired desired (insert id r s.restart)
  wanted_insert r e j q h = elim (Bool-cases (id == j)) [
    | inl here ↦
        ap (λ k. lookup k desired) (sym ((eq_iff id j).0 here))
        ∙ e
        ∙ sym (lookup-insert_self id r s.restart)
        ∙ ap (λ k. lookup k (insert id r s.restart)) ((eq_iff id j).0 here)
        ∙ h
    | inr other ↦ v.wanted j q (sym (lookup_other id j r s.restart other) ∙ h)
  ]

  sweep_worker-IsSwept :
      (o : Option SyncRemote) → lookup id desired ≡ o → IsSwept desired (sweep_worker id w o s) rest
  sweep_worker-IsSwept none e = record {
    runs = stopped_runs;
    wanted = v.wanted;
    canceled = stopped_canceled;
  }
  sweep_worker-IsSwept (some r) e = elim (Bool-cases (config_changed w.config r)) [
    | inl changed ↦
        rw changed
          (record { runs = stopped_runs; wanted = wanted_insert r e; canceled = stopped_canceled })
    | inr same ↦
        rw same (record { runs = kept_runs r e same; wanted = v.wanted; canceled = v.canceled })
  ]

pub sweep-IsSwept :
    (desired : List (Text × SyncRemote)) (rest : List (Text × RunningWorker)) (s : Sweep)
    → IsSwept desired s rest
    → IsSwept desired (sweep desired rest s) []
unfolding sweep
sweep-IsSwept desired [] s v = v
sweep-IsSwept desired ((id, w) ∷ rest) s v =
    sweep-IsSwept desired rest (sweep_worker id w (lookup id desired) s)
      (sweep_worker-IsSwept desired s id w rest v (lookup id desired) refl)
