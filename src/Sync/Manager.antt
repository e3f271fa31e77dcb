-- ===== src/Sync/Manager.antt =====
-- internal/sync/manager.go: the workers of the remotes. A worker's goroutine runs until its context
-- is canceled and then exits at some time, so the manager is a system that moves in steps.
pub mod Owned
pub mod Sweeping
pub mod Exclusive
pub mod Matched
pub mod Swept
pub mod Wanted
pub mod Settled
mod Tests
use tileserve_go.Prelude.{
  ℕ, ◌+◌, Bool, true, false, not, ◌&&◌, ◌||◌, Option, none, some, List, [], ◌∷◌, ◌++◌, ◌⊎◌, Text,
  ◌==◌, nat_eq, text_eq, if◌then◌else◌, any, keep_if, In, ◌≡◌,
}
use tileserve_go.Prelude.Assoc.{lookup, insert, remove}
use tileserve_go.Prelude.Assoc.Entries.{entries}
use tileserve_go.Prelude.Monad.{Result, ok, err}

-- SyncRemote, without the columns that the manager does not read
pub record SyncRemote : Type 0 where
  pub id : Text
  pub name : Text
  pub base_url : Text
  pub remote_api_key_id : Text
  pub poll_interval_sec : ℕ
  pub enabled : Bool
  pub sync_all_maps : Bool
  pub sync_new_maps : Bool
  pub sync_geo_objects : Bool

-- runningWorker. `goroutine` numbers the goroutine that `cancel` cancels and that closes `done`;
-- `pending` tells whether the channel `trigger`, which holds one signal, is full.
pub record RunningWorker : Type 0 where
  pub goroutine : ℕ
  pub config : SyncRemote
  pub pending : Bool

-- A goroutine that has not returned, and the remote that it syncs.
pub record Goroutine : Type 0 where
  pub number : ℕ
  pub remote : Text

-- Where the manager stands: between two reconciles; before `<-w.done` for each of `stopped`, with
-- what it is to start behind that; or behind Stop.
pub data Phase : Type 0 where
  idle : Phase
  waiting : (stopped : List ℕ) (restart desired : List (Text × SyncRemote)) → Phase
  over : Phase

-- Manager, with the goroutines that it has started.
pub record Manager : Type 0 where
  pub workers : List (Text × RunningWorker)
  pub live : List Goroutine
  pub canceled : List ℕ
  pub next : ℕ
  pub phase : Phase
  -- whether the context of Start is done, and with it every worker's
  pub context_done : Bool

-- NewManager
abbrev pub new_manager : Manager
new_manager = record {
  workers = [];
  live = [];
  canceled = [];
  next = 0;
  phase = idle;
  context_done = false;
}

abbrev pub differ : Bool → Bool → Bool
differ a b = if a then not b else b

-- configChanged
unfoldable pub config_changed : SyncRemote → SyncRemote → Bool
config_changed running current =
    not (running.base_url == current.base_url)
    || not (running.remote_api_key_id == current.remote_api_key_id)
    || not (running.poll_interval_sec == current.poll_interval_sec)
    || differ running.sync_all_maps current.sync_all_maps
    || differ running.sync_new_maps current.sync_new_maps
    || differ running.sync_geo_objects current.sync_geo_objects

-- desired[r.ID] = r for every enabled remote
unfoldable pub desired_of : List (Text × SyncRemote) → List SyncRemote → List (Text × SyncRemote)
desired_of acc [] = acc
desired_of acc (r ∷ rs) = desired_of (if r.enabled then insert r.id r acc else acc) rs

-- What the first loop of reconcile builds.
pub record Sweep : Type 0 where
  pub workers : List (Text × RunningWorker)
  pub canceled : List ℕ
  pub stopped : List ℕ
  pub restart : List (Text × SyncRemote)

-- w.cancel(), the append to `stopped` and delete(m.workers, id)
abbrev pub stop_worker : Text → RunningWorker → Sweep → Sweep
stop_worker id w s = record s {
  workers = remove id s.workers;
  canceled = w.goroutine ∷ s.canceled;
  stopped = w.goroutine ∷ s.stopped;
}

abbrev pub sweep_worker : Text → RunningWorker → Option SyncRemote → Sweep → Sweep
sweep_worker id w none s = stop_worker id w s
sweep_worker id w (some r) s =
    if config_changed w.config r
    then (let t = stop_worker id w s in record t { restart = insert id r t.restart })
    else s

-- The first loop of reconcile, over the entries of m.workers.
unfoldable pub sweep : List (Text × SyncRemote) → List (Text × RunningWorker) → Sweep → Sweep
sweep desired [] s = s
sweep desired ((id, w) ∷ ws) s = sweep desired ws (sweep_worker id w (lookup id desired) s)

abbrev pub start_sweep : Manager → Sweep
start_sweep m = record { workers = m.workers; canceled = m.canceled; stopped = []; restart = [] }

-- The first half of reconcile, up to the wait.
unfoldable pub stop_outdated : List SyncRemote → Manager → Manager
unfolding desired_of sweep
stop_outdated remotes m =
    let desired = desired_of [] remotes in
    let s = sweep desired (entries m.workers) (start_sweep m) in
    record m {
      workers = s.workers;
      canceled = s.canceled;
      phase = waiting s.stopped s.restart desired;
    }

-- startWorkerLocked
unfoldable pub start_worker : SyncRemote → Manager → Manager
start_worker remote m = record m {
  workers =
      insert remote.id (record { goroutine = m.next; config = remote; pending = false }) m.workers;
  live = record { number = m.next; remote = remote.id } ∷ m.live;
  next = m.next + 1;
}

-- The loop over `restart`
unfoldable pub start_all : List (Text × SyncRemote) → Manager → Manager
unfolding start_worker
start_all [] m = m
start_all ((id, r) ∷ rs) m = start_all rs (start_worker r m)

abbrev pub start_unless : Option RunningWorker → SyncRemote → Manager → Manager
start_unless (some w) r m = m
start_unless none r m = start_worker r m

-- The loop over `desired`
unfoldable pub start_missing : List (Text × SyncRemote) → Manager → Manager
unfolding start_worker
start_missing [] m = m
start_missing ((id, r) ∷ rs) m = start_missing rs (start_unless (lookup id m.workers) r m)

-- The second half of reconcile.
unfoldable pub start_wanted :
    List (Text × SyncRemote) → List (Text × SyncRemote) → Manager → Manager
unfolding start_all start_missing
start_wanted restart desired m =
    record (start_missing (entries desired) (start_all (entries restart) m)) { phase = idle }

-- reconcile up to the wait. `remotes` is the answer of ListSyncRemotes and `ensured` whether
-- EnsureSyncUser succeeds.
unfoldable pub begin_reconcile : Option (List SyncRemote) → Bool → Manager → Manager
unfolding stop_outdated
begin_reconcile none ensured m = m
begin_reconcile (some []) ensured m = stop_outdated [] m
begin_reconcile (some (r ∷ rs)) ensured m = if ensured then stop_outdated (r ∷ rs) m else m

-- Stop
abbrev pub numbers : List (Text × RunningWorker) → List ℕ
numbers [] = []
numbers ((id, w) ∷ ws) = w.goroutine ∷ numbers ws

unfoldable pub stop : Manager → Manager
stop m = record m { workers = []; canceled = numbers m.workers ++ m.canceled; phase = over }

pub data TriggerError : Type 0 where
  remote_not_running : TriggerError

-- Trigger: a signal that is already pending is not queued again.
abbrev pub signal : Text → Option RunningWorker → Manager → Result TriggerError (Unit {0}) × Manager
signal id none m = (err remote_not_running, m)
signal id (some w) m =
    (ok tt, record m { workers = insert id (record w { pending = true }) m.workers })

unfoldable pub trigger : Text → Manager → Result TriggerError (Unit {0}) × Manager
trigger id m = signal id (lookup id m.workers) m

-- A worker takes the signal off its channel.
abbrev pub take_signal : Text → Option RunningWorker → Manager → Manager
take_signal id none m = m
take_signal id (some w) m = record m {
  workers = insert id (record w { pending = false }) m.workers;
}

unfoldable pub exit_goroutine : ℕ → Manager → Manager
exit_goroutine n m = record m { live = keep_if (λ g. not (g.number == n)) m.live }

abbrev pub has : ℕ → List ℕ → Bool
has n l = any (λ k. k == n) l

-- close(done) has happened for each of the stopped workers.
abbrev pub AreDone : List ℕ → List Goroutine → Type 0
AreDone stopped live = (g : Goroutine) → In g live → has g.number stopped ≡ false

-- A step of the manager or of a worker.
pub data Step (m : Manager) : Manager → Type 0 where
  begins :
      (remotes : Option (List SyncRemote)) (ensured : Bool)
      → m.phase ≡ idle
      → Step m (begin_reconcile remotes ensured m)
  ends :
      (stopped : List ℕ) (restart desired : List (Text × SyncRemote))
      → m.phase ≡ waiting stopped restart desired
      → AreDone stopped m.live
      → Step m (start_wanted restart desired m)
  stops : m.phase ≡ idle → Step m (stop m)
  triggers : (id : Text) → Step m (trigger id m).1
  takes : (id : Text) → Step m (take_signal id (lookup id m.workers) m)
  cancels : Step m (record m { context_done = true })
  exits :
      (n : ℕ) → (has n m.canceled ≡ true) ⊎ (m.context_done ≡ true) → Step m (exit_goroutine n m)

pub data Reach : Manager → Type 0 where
  start : Reach new_manager
  further : {m n : Manager} → Reach m → Step m n → Reach n
