-- ===== src/Restore/System.antt =====
-- The restore routes, the worker and restarts of the process as steps of one system. A route runs
-- inside the retention guard and commits before it leaves it; the worker's transactions that change a
-- restore do too, so no two of them overlap.
pub mod Rows
pub mod Started
pub mod Routes
pub mod Invariant
pub mod Once
pub mod Lifecycle
pub mod Shielded
use proxsync.Prelude.{
  ℕ, Bool, true, false, not, Option, none, some, List, [], ◌∷◌, map, filter, is_some,
}
use proxsync.Prelude.Text.{Text}
use proxsync.Retention.Types.{RestoreStatus}
use proxsync.Restore.Types.{RestoreRequest, RestoreConfirmRequest, SourceBackup, Guest, RestoreRow}
use proxsync.Restore.Preflight.{Host}
use proxsync.Restore.Repository.{update_row, running_rows}
use proxsync.Restore.Service.{World, State, create, confirm, cancel, expire_stale}
use proxsync.Restore.Steps.{Input, Stage, idle}
use proxsync.Restore.Worker.{System, close_row, advance}

-- The running restores that the agent never confirmed.
unconfirmed : List RestoreRow → List ℕ
unconfirmed rows = map (λ r. r.id) (filter (λ r. not (is_some r.agent_task_id)) rows)

adopt : ℕ → Option Text → List (ℕ × Text) → List (ℕ × Text)
adopt restore_id none rest = rest
adopt restore_id (some task) rest = (restore_id, task) ∷ rest

-- The running restores that have a task at the agent, with it.
adoptable : List RestoreRow → List (ℕ × Text)
unfolding adopt
adoptable [] = []
adoptable (r ∷ rows) = adopt r.id r.agent_task_id (adoptable rows)

close_all : ℕ → List ℕ → List RestoreRow → List RestoreRow
unfolding update_row
close_all now [] rows = rows
close_all now (restore_id ∷ ids) rows =
    close_all now ids (update_row restore_id (close_row RestoreStatus.interrupted now) rows)

-- `recover`, when a new process starts its worker.
unfoldable pub recover : ℕ → System → System
unfolding unconfirmed adoptable close_all running_rows
recover now y =
    let running = running_rows y.store.restores in
    record y {
      store = record (y.store) { restores = close_all now (unconfirmed running) y.store.restores };
      stage = idle;
      resume = adoptable running;
    }

-- What other parts of the dashboard do to the tables that a restore only reads.
abbrev pub other_tables : List SourceBackup → List Guest → System → System
other_tables backups guests y = record y {
  store = record (y.store) { backups = backups; guests = guests };
}

-- A route, the worker up to its next await, a restart at any moment, or a change elsewhere.
pub data Step (w : World) (grace : ℕ) : System → System → Type 0 where
  created :
      {y : System} (host : Host) (request : RestoreRequest) (user : Option ℕ) (now : ℕ)
      → Step w grace y (record y { store = (create w host request user now y.store).1 })
  confirmed :
      {y : System} (host : Host) (id : ℕ) (payload : RestoreConfirmRequest) (now : ℕ)
      → Step w grace y (record y { store = (confirm w host id payload now y.store).1 })
  cancelled :
      {y : System} (id now : ℕ) → Step w grace y (record y { store = (cancel id now y.store).1 })
  swept :
      {y : System} (now : ℕ) → Step w grace y (record y { store = (expire_stale now y.store).1 })
  advanced : {y : System} (i : Input) → Step w grace y (advance grace i y)
  restarted : {y : System} (now : ℕ) → Step w grace y (recover now y)
  changed :
      {y : System} (backups : List SourceBackup) (guests : List Guest)
      → Step w grace y (other_tables backups guests y)

-- The dashboard as installed: no restore, and a worker about to start.
abbrev pub installed : List SourceBackup → List Guest → System
installed backups guests = record {
  store = record { restores = []; backups = backups; guests = guests; draws = 0 };
  stage = idle;
  resume = [];
  starts = [];
}

pub data Reachable (w : World) (grace : ℕ) : System → Type 0 where
  start :
      (backups : List SourceBackup) (guests : List Guest)
      → Reachable w grace (installed backups guests)
  next : {y z : System} → Reachable w grace y → Step w grace y z → Reachable w grace z
