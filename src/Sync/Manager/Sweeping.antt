-- ===== src/Sync/Manager/Sweeping.antt =====
-- internal/sync/manager.go: the goroutines of the workers during a sweep.
use tileserve_go.Prelude.{
  some_same, Bool, true, false, Option, none, some, List, [], ◌∷◌, ◌⊎◌, Text, ◌==◌, nat_eq, text_eq,
  eq_iff, if◌then◌else◌, ◌≡◌, refl, sym, ap, ◌∙◌, inl, inr, Bool-cases,
}
use tileserve_go.Prelude.Assoc.{lookup, insert, remove, lookup-insert_self, lookup-remove}
use tileserve_go.Prelude.Assoc.Entries.{
  IsDistinct, lookup_behind, lookup_front, lookup_other, lookup_kept,
}
use tileserve_go.Sync.Manager.{
  SyncRemote, RunningWorker, Goroutine, config_changed, Sweep, stop_worker, sweep_worker, sweep,
  desired_of, has,
}
use tileserve_go.Sync.Manager.Owned.{
  AllAbsent, AreKeyed, IsOwned, OwnedOrStopped, or_left, or_right,
}

pub AreKeyed-insert :
    (id : Text) (r : SyncRemote) (rs : List (Text × SyncRemote))
    → r.id ≡ id
    → AreKeyed rs
    → AreKeyed (insert id r rs)
AreKeyed-insert id r rs e k j q h = elim (Bool-cases (id == j)) [
  | inl same ↦
      ap (λ x. x.id)
        (some_same (
          sym h
          ∙ ap (λ i. lookup i (insert id r rs)) (sym ((eq_iff id j).0 same))
          ∙ lookup-insert_self id r rs))
      ∙ e
      ∙ (eq_iff id j).0 same
  | inr other ↦ k j q (sym (lookup_other id j r rs other) ∙ h)
]

AreKeyed-if :
    (b : Bool) (acc : List (Text × SyncRemote)) (r : SyncRemote)
    → AreKeyed acc
    → AreKeyed (if b then insert r.id r acc else acc)
AreKeyed-if true acc r k = AreKeyed-insert r.id r acc refl k
AreKeyed-if false acc r k = k

pub AreKeyed-desired_of :
    (acc : List (Text × SyncRemote)) (rs : List SyncRemote)
    → AreKeyed acc
    → AreKeyed (desired_of acc rs)
unfolding desired_of
AreKeyed-desired_of acc [] k = k
AreKeyed-desired_of acc (r ∷ rs) k =
    AreKeyed-desired_of (if r.enabled then insert r.id r acc else acc) rs
      (AreKeyed-if r.enabled acc r k)

-- Between the phases: what is left of the workers, while the rest of the loop is to come.
pub record IsSweeping (live : List Goroutine) (s : Sweep) (rest : List (Text × RunningWorker))
    : Type 0 where
  pub owned : OwnedOrStopped s.workers s.stopped live
  pub absent : AllAbsent s.restart s.workers
  pub keyed : AreKeyed s.restart
  pub current :
      (id : Text) (w : RunningWorker) → lookup id rest ≡ some w → lookup id s.workers ≡ some w

module _ (live : List Goroutine) (s : Sweep) (id : Text) (w : RunningWorker)
    (rest : List (Text × RunningWorker)) (d : IsDistinct ((id, w) ∷ rest))
    (v : IsSweeping live s ((id, w) ∷ rest)) where
  stopped-IsOwned :
      (g : Goroutine)
      → IsOwned s.workers g
      → IsOwned (remove id s.workers) g ⊎ (has g.number (w.goroutine ∷ s.stopped) ≡ true)
  stopped-IsOwned g o = elim (Bool-cases (id == g.remote)) [
    | inl same ↦ inr (
        or_left (has g.number s.stopped) (
          (eq_iff w.goroutine g.number).1 (
            ap (λ x. x.goroutine)
              (some_same (
                sym (v.current id w (lookup_front id w rest))
                ∙ ap (λ i. lookup i s.workers) ((eq_iff id g.remote).0 same)
                ∙ o.1))
            ∙ o.2)))
    | inr other ↦ inl (o.0, lookup_kept id g.remote s.workers other ∙ o.1, o.2)
  ]

  stop_worker-owned : OwnedOrStopped (remove id s.workers) (w.goroutine ∷ s.stopped) live
  stop_worker-owned g i = elim (v.owned g i) [
    | inl o ↦ stopped-IsOwned g o
    | inr h ↦ inr (or_right (w.goroutine == g.number) h)
  ]

  removed_absent : (j : Text) → lookup j s.workers ≡ none → lookup j (remove id s.workers) ≡ none
  removed_absent j h = elim (Bool-cases (id == j)) [
    | inl same ↦ rw (lookup-remove id j s.workers, same) refl
    | inr other ↦ lookup_kept id j s.workers other ∙ h
  ]

  behind_current :
      (j : Text) (x : RunningWorker) → lookup j rest ≡ some x → lookup j s.workers ≡ some x
  behind_current j x h = v.current j x (lookup_behind id j w x rest d h).1

  stop_worker-IsSweeping : IsSweeping live (stop_worker id w s) rest
  stop_worker-IsSweeping = record {
    owned = stop_worker-owned;
    absent = λ j q h. removed_absent j (v.absent j q h);
    keyed = v.keyed;
    current = λ j x h.
        lookup_kept id j s.workers (lookup_behind id j w x rest d h).0 ∙ behind_current j x h;
  }

  absent_restart :
      (r : SyncRemote) (j : Text) (q : SyncRemote)
      → lookup j (insert id r s.restart) ≡ some q
      → lookup j (remove id s.workers) ≡ none
  absent_restart r j q h = elim (Bool-cases (id == j)) [
    | inl same ↦ rw (lookup-remove id j s.workers, same) refl
    | inr other ↦ removed_absent j (v.absent j q (sym (lookup_other id j r s.restart other) ∙ h))
  ]

  sweep_worker-IsSweeping :
      (o : Option SyncRemote)
      → ((r : SyncRemote) → o ≡ some r → r.id ≡ id)
      → IsSweeping live (sweep_worker id w o s) rest
  sweep_worker-IsSweeping none k = stop_worker-IsSweeping
  sweep_worker-IsSweeping (some r) k = elim (Bool-cases (config_changed w.config r)) [
    | inl changed ↦ rw changed (record {
      owned = stop_worker-owned;
      absent = λ j q h. absent_restart r j q h;
      keyed = AreKeyed-insert id r s.restart (k r refl) v.keyed;
      current = stop_worker-IsSweeping.current;
    })
    | inr same ↦
        rw same
          (record { owned = v.owned; absent = v.absent; keyed = v.keyed; current = behind_current })
  ]

pub sweep-IsSweeping :
    (live : List Goroutine) (desired : List (Text × SyncRemote))
    (rest : List (Text × RunningWorker)) (s : Sweep)
    → AreKeyed desired
    → IsDistinct rest
    → IsSweeping live s rest
    → IsSweeping live (sweep desired rest s) []
unfolding sweep
sweep-IsSweeping live desired [] s k d v = v
sweep-IsSweeping live desired ((id, w) ∷ rest) s k d v =
    sweep-IsSweeping live desired rest (sweep_worker id w (lookup id desired) s) k d.1
      (sweep_worker-IsSweeping live s id w rest d v (lookup id desired) (λ r h. k id r h))
