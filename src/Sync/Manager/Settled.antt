-- ===== src/Sync/Manager/Settled.antt =====
-- internal/sync/manager.go: a reconcile that waits can end, and then has the workers that it wanted.
use tileserve_go.Prelude.{
  some_same, none-some, ℕ, Bool, true, false, not, Option, none, some, List, [], ◌∷◌, Text, ◌==◌,
  nat_eq, text_eq, eq_iff, eq_refl, In-keep_if, ◌≡◌, refl, sym, ap, ◌∙◌, subst, inl, inr,
  Bool-cases, true-false, arith,
}
use tileserve_go.Prelude.Assoc.{lookup, insert, lookup-insert_self, lookup-nil}
use tileserve_go.Prelude.Assoc.Entries.{entries, lookup-entries, lookup_other}
use tileserve_go.Sync.Manager.{
  SyncRemote, RunningWorker, Goroutine, Phase, idle, waiting, over, Manager, config_changed,
  start_sweep, desired_of, stop_outdated, start_wanted, begin_reconcile, stop, signal, trigger,
  take_signal, exit_goroutine, has, AreDone, Step, begins, ends, stops, triggers, takes, cancels,
  exits, Reach, start, further,
}
use tileserve_go.Sync.Manager.Owned.{or_right, or_left, PhaseIsValid}
use tileserve_go.Sync.Manager.Exclusive.{Reach-IsValid}
use tileserve_go.Sync.Manager.Matched.{RunsAs, AllRunAs, AreDesired, Matches, start_wanted-Matches}
use tileserve_go.Sync.Manager.Swept.{sweep-IsSwept}
use tileserve_go.Sync.Manager.Wanted.{AreFor, Matches-AreFor, waiting-desired_of}

-- What is known while the manager waits.
abbrev IsReady : Phase → List (Text × RunningWorker) → List ℕ → Type 0
IsReady idle workers canceled = Unit
IsReady (waiting stopped restart desired) workers canceled =
    AllRunAs desired workers
    × AreDesired desired restart
    × ((n : ℕ) → has n stopped ≡ true → has n canceled ≡ true)
IsReady over workers canceled = Unit

stop_outdated-IsReady :
    (remotes : List SyncRemote) (m : Manager)
    → IsReady
        (stop_outdated remotes m).phase
        (stop_outdated remotes m).workers
        (stop_outdated remotes m).canceled
unfolding stop_outdated
stop_outdated-IsReady remotes m =
    let desired = desired_of [] remotes in
    let v = sweep-IsSwept desired (entries m.workers) (start_sweep m) (record {
      runs = λ id w h. inr (lookup-entries id m.workers ∙ h);
      wanted = λ id r h. absurd (none-some (sym (lookup-nil {V = SyncRemote} id) ∙ h));
      canceled = λ n h. absurd (true-false (sym h));
    }) in
    (
      (λ id w h. elim (v.runs id w h) [
        | inl r ↦ r
        | inr g ↦ absurd (none-some (sym (lookup-nil {V = RunningWorker} id) ∙ g))
      ]),
      v.wanted,
      v.canceled,
    )

begin_reconcile-IsReady :
    (remotes : Option (List SyncRemote)) (ensured : Bool) (m : Manager)
    → IsReady m.phase m.workers m.canceled
    → IsReady
        (begin_reconcile remotes ensured m).phase
        (begin_reconcile remotes ensured m).workers
        (begin_reconcile remotes ensured m).canceled
unfolding begin_reconcile
begin_reconcile-IsReady none ensured m v = v
begin_reconcile-IsReady (some []) ensured m v = stop_outdated-IsReady [] m
begin_reconcile-IsReady (some (r ∷ rs)) true m v = stop_outdated-IsReady (r ∷ rs) m
begin_reconcile-IsReady (some (r ∷ rs)) false m v = v

module _ (m : Manager) (id : Text) (w x : RunningWorker) (found : lookup id m.workers ≡ some w)
    (same : x.config ≡ w.config) where
  AllRunAs-signal :
      (desired : List (Text × SyncRemote))
      → AllRunAs desired m.workers
      → AllRunAs desired (insert id x m.workers)
  AllRunAs-signal desired v j y h = elim (Bool-cases (id == j)) [
    | inl here ↦
        subst (λ k. RunsAs desired k y) ((eq_iff id j).0 here)
          (subst (RunsAs desired id)
            (some_same (
              sym (lookup-insert_self id x m.workers)
              ∙ ap (λ k. lookup k (insert id x m.workers)) ((eq_iff id j).0 here)
              ∙ h))
            (let r = v id w found in (r.0, r.1, ap (λ c. config_changed c r.0) same ∙ r.2)))
    | inr other ↦ v j y (sym (lookup_other id j x m.workers other) ∙ h)
  ]

  IsReady-signal :
      (p : Phase) (canceled : List ℕ)
      → IsReady p m.workers canceled
      → IsReady p (insert id x m.workers) canceled
  IsReady-signal idle canceled v = tt
  IsReady-signal (waiting stopped restart desired) canceled v =
      (AllRunAs-signal desired v.0, v.1, v.2)
  IsReady-signal over canceled v = tt

signal-IsReady :
    (id : Text) (o : Option RunningWorker) (m : Manager)
    → lookup id m.workers ≡ o
    → IsReady m.phase m.workers m.canceled
    → IsReady (signal id o m).1.phase (signal id o m).1.workers (signal id o m).1.canceled
signal-IsReady id none m e v = v
signal-IsReady id (some w) m e v =
    IsReady-signal m id w (record w { pending = true }) e refl m.phase m.canceled v

take_signal-IsReady :
    (id : Text) (o : Option RunningWorker) (m : Manager)
    → lookup id m.workers ≡ o
    → IsReady m.phase m.workers m.canceled
    → IsReady (take_signal id o m).phase (take_signal id o m).workers (take_signal id o m).canceled
take_signal-IsReady id none m e v = v
take_signal-IsReady id (some w) m e v =
    IsReady-signal m id w (record w { pending = false }) e refl m.phase m.canceled v

Step-IsReady :
    {m n : Manager}
    → Step m n
    → IsReady m.phase m.workers m.canceled
    → IsReady n.phase n.workers n.canceled
unfolding stop trigger exit_goroutine start_wanted
Step-IsReady {m} (begins remotes ensured e) v = begin_reconcile-IsReady remotes ensured m v
Step-IsReady {m} (ends stopped restart desired e done) v = tt
Step-IsReady {m} (stops e) v = tt
Step-IsReady {m} (triggers id) v = signal-IsReady id (lookup id m.workers) m refl v
Step-IsReady {m} (takes id) v = take_signal-IsReady id (lookup id m.workers) m refl v
Step-IsReady {m} cancels v = v
Step-IsReady {m} (exits n h) v = v

Reach-IsReady : {m : Manager} → Reach m → IsReady m.phase m.workers m.canceled
Reach-IsReady start = tt
Reach-IsReady (further r s) = Step-IsReady s (Reach-IsReady r)

IsReady-waiting :
    (m : Manager) (stopped : List ℕ) (restart desired : List (Text × SyncRemote))
    → Reach m
    → m.phase ≡ waiting stopped restart desired
    → IsReady (waiting stopped restart desired) m.workers m.canceled
IsReady-waiting m stopped restart desired reached e =
    subst (λ p. IsReady p m.workers m.canceled) e (Reach-IsReady reached)

Reach-Matches :
    (m : Manager) (stopped : List ℕ) (restart desired : List (Text × SyncRemote))
    → Reach m
    → m.phase ≡ waiting stopped restart desired
    → Matches desired (start_wanted restart desired m).workers
Reach-Matches m stopped restart desired reached e =
    let v = IsReady-waiting m stopped restart desired reached e in
    let p = subst (λ p. PhaseIsValid p m.workers m.live) e (Reach-IsValid reached).phased in
    start_wanted-Matches restart desired m p.2 p.3 v.1 v.0

-- Where a reconcile began between two others, listed the rows `remotes` and waits, its end leaves
-- only workers that each run with the connection details, interval and policy of an enabled row
-- with the worker's id, and one for each enabled row: from every reachable state `n` that waits as
-- the reconcile did at its beginning, whatever happened before and while it waited.
pub Reach-AreFor :
    (remotes : List SyncRemote) (ensured : Bool) (m n : Manager) (stopped : List ℕ)
    (restart desired : List (Text × SyncRemote))
    → m.phase ≡ idle
    → (begin_reconcile (some remotes) ensured m).phase ≡ waiting stopped restart desired
    → Reach n
    → n.phase ≡ waiting stopped restart desired
    → AreFor remotes (start_wanted restart desired n).workers
Reach-AreFor remotes ensured m n stopped restart desired i b reached e =
    Matches-AreFor remotes (start_wanted restart desired n).workers (
      subst (λ d. Matches d (start_wanted restart desired n).workers)
        (sym (waiting-desired_of remotes ensured m stopped restart desired i b))
        (Reach-Matches n stopped restart desired reached e))

-- Steps one after the other.
pub data Run (m : Manager) : Manager → Type 0 where
  no_step : Run m m
  and_then : {n o : Manager} → Run m n → Step n o → Run m o

-- The goroutines of a list exit, one after the other.
drain : List ℕ → Manager → Manager
drain [] m = m
drain (n ∷ ns) m = exit_goroutine n (drain ns m)

module _ (m : Manager) where
  drain-canceled : (ns : List ℕ) → (drain ns m).canceled ≡ m.canceled
  unfolding drain exit_goroutine
  drain-canceled [] = refl
  drain-canceled (n ∷ ns) = drain-canceled ns

  drain-workers : (ns : List ℕ) → (drain ns m).workers ≡ m.workers
  unfolding drain exit_goroutine
  drain-workers [] = refl
  drain-workers (n ∷ ns) = drain-workers ns

  drain-phase : (ns : List ℕ) → (drain ns m).phase ≡ m.phase
  unfolding drain exit_goroutine
  drain-phase [] = refl
  drain-phase (n ∷ ns) = drain-phase ns

  drain-Run :
      (ns : List ℕ) → ((n : ℕ) → has n ns ≡ true → has n m.canceled ≡ true) → Run m (drain ns m)
  unfolding drain
  drain-Run [] h = no_step
  drain-Run (n ∷ ns) h =
      and_then (drain-Run ns (λ k g. h k (or_right (n == k) g)))
        (exits n (inl (ap (has n) (drain-canceled ns) ∙ h n (or_left (has n ns) (eq_refl n)))))

  drain-AreDone : (ns : List ℕ) → AreDone ns (drain ns m).live
  unfolding drain exit_goroutine
  drain-AreDone [] g i = refl
  drain-AreDone (n ∷ ns) g i =
      let k = (In-keep_if (λ (x : Goroutine). not (x.number == n)) g (drain ns m).live).0 i in
      ground (arith, drain-AreDone ns g k.0, k.1)

drain-Reach : {m n : Manager} → Reach m → Run m n → Reach n
drain-Reach r no_step = r
drain-Reach r (and_then run step) = further (drain-Reach r run) step

-- A reconcile never waits for ever: from each reachable state in which it waits, the canceled
-- workers can exit, and then it ends, with the workers that were wanted.
pub waiting-settles :
    (m : Manager) (stopped : List ℕ) (restart desired : List (Text × SyncRemote))
    → Reach m
    → m.phase ≡ waiting stopped restart desired
    → (n : Manager) × Run m n × (n.phase ≡ idle) × Matches desired n.workers
unfolding start_wanted
waiting-settles m stopped restart desired reached e =
    let v = IsReady-waiting m stopped restart desired reached e in
    let run = drain-Run m stopped v.2 in
    let waits = drain-phase m stopped ∙ e in
    (
      start_wanted restart desired (drain stopped m),
      and_then run (ends stopped restart desired waits (drain-AreDone m stopped)),
      refl,
      Reach-Matches (drain stopped m) stopped restart desired (drain-Reach reached run) waits,
    )
