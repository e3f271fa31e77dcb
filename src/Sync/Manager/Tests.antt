-- ===== src/Sync/Manager/Tests.antt =====
-- internal/sync/manager.go: a remote that is started, and restarted with another interval.
use tileserve_go.Prelude.{ℕ, true, false, some, List, [], ◌∷◌, Text, codes, ◌≡◌, refl}
use tileserve_go.Prelude.Assoc.{lookup, insert, remove}
use tileserve_go.Prelude.Assoc.Entries.{entries}
use tileserve_go.Sync.Manager.{
  SyncRemote, Manager, idle, waiting, new_manager, config_changed, stop_outdated, start_all,
  start_missing, start_wanted, begin_reconcile, AreDone, Reach, start, further, begins, ends,
}
use tileserve_go.Sync.Manager.Owned.{AreExclusive}
use tileserve_go.Sync.Manager.Exclusive.{Reach-AreExclusive}
use tileserve_go.Sync.Manager.Matched.{Matches}
use tileserve_go.Sync.Manager.Settled.{Run, Reach-AreFor, waiting-settles}
use tileserve_go.Sync.Manager.Wanted.{AreFor}

abbrev remote_every : ℕ → SyncRemote
remote_every seconds = record {
  id = codes "r";
  name = codes "other";
  base_url = codes "https://other";
  remote_api_key_id = codes "k";
  poll_interval_sec = seconds;
  enabled = true;
  sync_all_maps = true;
  sync_new_maps = false;
  sync_geo_objects = false;
}

abbrev wanted : ℕ → List (Text × SyncRemote)
wanted seconds = (codes "r", remote_every seconds) ∷ []

abbrev begun : Manager
begun = begin_reconcile (some (remote_every 300 ∷ [])) true new_manager

abbrev running : Manager
running = start_wanted [] (wanted 300) begun

abbrev restarting : Manager
restarting = begin_reconcile (some (remote_every 60 ∷ [])) true running

begun_waits : begun.phase ≡ waiting [] [] (wanted 300)
unfolding begin_reconcile stop_outdated insert remove entries
begun_waits = refl

begun_done : AreDone [] begun.live
begun_done g i = refl

running_idle : running.phase ≡ idle
unfolding start_wanted
running_idle = refl

restarting_reached : Reach restarting
restarting_reached =
    further
      (further (further start (begins (some (remote_every 300 ∷ [])) true refl))
        (ends [] [] (wanted 300) begun_waits begun_done))
      (begins (some (remote_every 60 ∷ [])) true running_idle)

restarting_waits : restarting.phase ≡ waiting (0 ∷ []) (wanted 60) (wanted 60)
unfolding begin_reconcile stop_outdated start_wanted start_missing start_all config_changed entries
    insert remove lookup
restarting_waits = refl

Reach-AreExclusive_example : AreExclusive restarting.live
Reach-AreExclusive_example = Reach-AreExclusive restarting_reached

Reach-AreFor_example :
    AreFor (remote_every 60 ∷ []) (start_wanted (wanted 60) (wanted 60) restarting).workers
Reach-AreFor_example =
    Reach-AreFor (remote_every 60 ∷ []) true running restarting (0 ∷ []) (wanted 60) (wanted 60)
      running_idle restarting_waits restarting_reached restarting_waits

waiting-settles_example :
    (n : Manager) × Run restarting n × (n.phase ≡ idle) × Matches (wanted 60) n.workers
waiting-settles_example =
    waiting-settles restarting (0 ∷ []) (wanted 60) (wanted 60) restarting_reached restarting_waits
