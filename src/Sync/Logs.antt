-- ===== src/Sync/Logs.antt =====
-- internal/sync/logs.go: LogStore, the last entries of each remote.
pub mod Bounded
use tileserve_go.Prelude.{
  ℕ, ◌-◌, Option, none, some, List, [], ◌∷◌, ◌++◌, Text, nat_eq, text_eq, if◌then◌else◌, ltb,
  length, drop,
}
use tileserve_go.Prelude.Assoc.{lookup, insert}

-- maxLogEntriesPerRemote
abbrev pub max_log_entries_per_remote : ℕ
max_log_entries_per_remote = 200

-- LogStore.entries
abbrev pub LogStore : Type 0 → Type 0
LogStore E = List (Text × List E)

abbrev pub or_empty : {E : Type 0} → Option (List E) → List E
or_empty none = []
or_empty (some l) = l

abbrev pub trimmed : {E : Type 0} → List E → List E
trimmed entries =
    if ltb max_log_entries_per_remote (length entries)
    then drop (length entries - max_log_entries_per_remote) entries
    else entries

module _ {E : Type 0} where
  -- record
  unfoldable pub record_entry : Text → E → LogStore E → LogStore E
  unfolding lookup insert
  record_entry remote_id e s =
      insert remote_id (trimmed (or_empty (lookup remote_id s) ++ e ∷ [])) s

  -- Logs
  unfoldable pub logs : Text → LogStore E → List E
  unfolding lookup
  logs remote_id s = or_empty (lookup remote_id s)
