-- ===== src/Sync/Manager/Exclusive.antt =====
-- internal/sync/manager.go: no two goroutines of one remote run at once.
use tileserve_go.Prelude.{
  some_same, none-some, ℕ, Bool, true, false, not, Option, none, some, List, [], ◌∷◌, Text, ◌==◌,
  nat_eq, text_eq, eq_iff, keep_if, In-keep_if, ◌≡◌, refl, sym, ap, ◌∙◌, subst, inl, inr,
  Bool-cases, true-false,
}
use tileserve_go.Prelude.Assoc.{lookup, insert, lookup-insert, lookup-nil}
use tileserve_go.Prelude.Assoc.Entries.{entries, lookup-entries, IsDistinct-entries, lookup_other}
use tileserve_go.Sync.Manager.{
  SyncRemote, RunningWorker, Goroutine, Phase, idle, waiting, over, Manager, start_sweep,
  desired_of, stop_outdated, start_wanted, begin_reconcile, stop, signal, trigger, take_signal,
  exit_goroutine, AreDone, Step, begins, ends, stops, triggers, takes, cancels, exits, Reach, start,
  further,
}
use tileserve_go.Sync.Manager.Owned.{
  All-keep_if, AllAbsent, AreExclusive, IsOwned, IsSettled, IsValid, PhaseIsValid,
  start_wanted-IsValid,
}
use tileserve_go.Sync.Manager.Sweeping.{AreKeyed-desired_of, sweep-IsSweeping}

stop_outdated-IsValid :
    (remotes : List SyncRemote) (m : Manager) → IsSettled m → IsValid (stop_outdated remotes m)
unfolding stop_outdated
stop_outdated-IsValid remotes m v =
    let k =
      AreKeyed-desired_of [] remotes
        (λ id r h. absurd (none-some (sym (lookup-nil {V = SyncRemote} id) ∙ h))) in
    let w =
      sweep-IsSweeping m.live (desired_of [] remotes) (entries m.workers) (start_sweep m) k
        (IsDistinct-entries m.workers)
        (record {
          owned = λ g i. inl (v.owned g i);
          absent = λ id r h. absurd (none-some (sym (lookup-nil {V = SyncRemote} id) ∙ h));
          keyed = λ id r h. absurd (none-some (sym (lookup-nil {V = SyncRemote} id) ∙ h));
          current = λ id x h. sym (lookup-entries id m.workers) ∙ h;
        }) in
    record { exclusive = v.exclusive; phased = (w.owned, w.absent, w.keyed, k) }

begin_reconcile-IsValid :
    (remotes : Option (List SyncRemote)) (ensured : Bool) (m : Manager)
    → m.phase ≡ idle
    → IsValid m
    → IsSettled m
    → IsValid (begin_reconcile remotes ensured m)
unfolding begin_reconcile
begin_reconcile-IsValid none ensured m e v w = v
begin_reconcile-IsValid (some []) ensured m e v w = stop_outdated-IsValid [] m w
begin_reconcile-IsValid (some (r ∷ rs)) true m e v w = stop_outdated-IsValid (r ∷ rs) m w
begin_reconcile-IsValid (some (r ∷ rs)) false m e v w = v

IsSettled-of_idle : (m : Manager) → m.phase ≡ idle → IsValid m → IsSettled m
IsSettled-of_idle m e v = record {
  exclusive = v.exclusive;
  owned = subst (λ p. PhaseIsValid p m.workers m.live) e v.phased;
}

ends-IsValid :
    (m : Manager) (stopped : List ℕ) (restart desired : List (Text × SyncRemote))
    → m.phase ≡ waiting stopped restart desired
    → AreDone stopped m.live
    → IsValid m
    → IsValid (start_wanted restart desired m)
ends-IsValid m stopped restart desired e done v =
    let p = subst (λ p. PhaseIsValid p m.workers m.live) e v.phased in
    start_wanted-IsValid m restart desired
      (record {
        exclusive = v.exclusive;
        owned =
            λ g i. elim (p.0 g i) [ inl o ↦ o | inr h ↦ absurd (true-false (sym h ∙ done g i)) ];
      })
      p.1 p.2 p.3

-- A write of a signal keeps whose the goroutines are.
module _ (m : Manager) (id : Text) (w x : RunningWorker) (found : lookup id m.workers ≡ some w)
    (same : x.goroutine ≡ w.goroutine) where
  IsOwned-signal : (g : Goroutine) → IsOwned m.workers g → IsOwned (insert id x m.workers) g
  IsOwned-signal g o = elim (Bool-cases (id == g.remote)) [
    | inl here ↦ (
      x,
      rw (lookup-insert id g.remote x m.workers, here) refl,
      same
          ∙ ap (λ y. y.goroutine)
              (some_same
                (sym found ∙ ap (λ i. lookup i m.workers) ((eq_iff id g.remote).0 here) ∙ o.1))
          ∙ o.2,
    )
    | inr other ↦ (o.0, lookup_other id g.remote x m.workers other ∙ o.1, o.2)
  ]

  AllAbsent-signal :
      (restart : List (Text × SyncRemote))
      → AllAbsent restart m.workers
      → AllAbsent restart (insert id x m.workers)
  AllAbsent-signal restart a j q h = elim (Bool-cases (id == j)) [
    | inl here ↦ absurd (
        none-some
          (sym (a j q h) ∙ ap (λ i. lookup i m.workers) (sym ((eq_iff id j).0 here)) ∙ found))
    | inr other ↦ lookup_other id j x m.workers other ∙ a j q h
  ]

  PhaseIsValid-signal :
      (p : Phase) → PhaseIsValid p m.workers m.live → PhaseIsValid p (insert id x m.workers) m.live
  PhaseIsValid-signal idle v = λ g i. IsOwned-signal g (v g i)
  PhaseIsValid-signal (waiting stopped restart desired) v = (
    (λ g i. elim (v.0 g i) [ inl o ↦ inl (IsOwned-signal g o) | inr h ↦ inr h ]),
    AllAbsent-signal restart v.1,
    v.2,
    v.3,
  )
  PhaseIsValid-signal over v = tt

signal-IsValid :
    (id : Text) (o : Option RunningWorker) (m : Manager)
    → lookup id m.workers ≡ o
    → IsValid m
    → IsValid (signal id o m).1
signal-IsValid id none m e v = v
signal-IsValid id (some w) m e v = record {
  exclusive = v.exclusive;
  phased = PhaseIsValid-signal m id w (record w { pending = true }) e refl m.phase v.phased;
}

take_signal-IsValid :
    (id : Text) (o : Option RunningWorker) (m : Manager)
    → lookup id m.workers ≡ o
    → IsValid m
    → IsValid (take_signal id o m)
take_signal-IsValid id none m e v = v
take_signal-IsValid id (some w) m e v = record {
  exclusive = v.exclusive;
  phased = PhaseIsValid-signal m id w (record w { pending = false }) e refl m.phase v.phased;
}

-- Fewer goroutines are as exclusive.
AreExclusive-keep_if :
    (p : Goroutine → Bool) (l : List Goroutine) → AreExclusive l → AreExclusive (keep_if p l)
AreExclusive-keep_if p [] v = tt
AreExclusive-keep_if p (g ∷ l) v = elim (Bool-cases (p g)) [
  | inl kept ↦
      rw kept
        (All-keep_if p (λ h. (h.remote == g.remote) ≡ false) l v.0, AreExclusive-keep_if p l v.1)
  | inr gone ↦ rw gone (AreExclusive-keep_if p l v.1)
]

PhaseIsValid-keep_if :
    (p : Goroutine → Bool) (ph : Phase) (workers : List (Text × RunningWorker))
    (live : List Goroutine)
    → PhaseIsValid ph workers live
    → PhaseIsValid ph workers (keep_if p live)
PhaseIsValid-keep_if p idle workers live v = λ g i. v g ((In-keep_if p g live).0 i).0
PhaseIsValid-keep_if p (waiting stopped restart desired) workers live v =
    ((λ g i. v.0 g ((In-keep_if p g live).0 i).0), v.1, v.2, v.3)
PhaseIsValid-keep_if p over workers live v = tt

exit_goroutine-IsValid : (n : ℕ) (m : Manager) → IsValid m → IsValid (exit_goroutine n m)
unfolding exit_goroutine
exit_goroutine-IsValid n m v = record {
  exclusive = AreExclusive-keep_if (λ g. not (g.number == n)) m.live v.exclusive;
  phased = PhaseIsValid-keep_if (λ g. not (g.number == n)) m.phase m.workers m.live v.phased;
}

Step-IsValid : {m n : Manager} → Step m n → IsValid m → IsValid n
unfolding stop trigger
Step-IsValid {m} (begins remotes ensured e) v =
    begin_reconcile-IsValid remotes ensured m e v (IsSettled-of_idle m e v)
Step-IsValid {m} (ends stopped restart desired e done) v =
    ends-IsValid m stopped restart desired e done v
Step-IsValid {m} (stops e) v = record { exclusive = v.exclusive; phased = tt }
Step-IsValid {m} (triggers id) v = signal-IsValid id (lookup id m.workers) m refl v
Step-IsValid {m} (takes id) v = take_signal-IsValid id (lookup id m.workers) m refl v
Step-IsValid {m} cancels v = record { exclusive = v.exclusive; phased = v.phased }
Step-IsValid {m} (exits n h) v = exit_goroutine-IsValid n m v

pub Reach-IsValid : {m : Manager} → Reach m → IsValid m
Reach-IsValid start = record { exclusive = tt; phased = λ g i. absurd i }
Reach-IsValid (further r s) = Step-IsValid s (Reach-IsValid r)

-- Whatever the remotes' rows are at each reconcile, and in whatever order workers exit, take and
-- are sent signals, and the context is canceled: until Stop and behind it, no two goroutines of
-- one remote run at once.
pub Reach-AreExclusive : {m : Manager} → Reach m → AreExclusive m.live
Reach-AreExclusive r = (Reach-IsValid r).exclusive
