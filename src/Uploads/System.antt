-- ===== src/Uploads/System.antt =====
-- The upload routes, the worker, restarts of the process and the rest of the dashboard as steps of one
-- system. A route commits before another transaction starts, and so does each of the worker's.
pub mod Sound
pub mod Honest
pub mod Cancelled
use proxsync.Prelude.{ℕ, Bool, List, []}
use proxsync.Uploads.Types.{GDriveSettings, AgentVerifyResult, BackupRow}
use proxsync.Uploads.Service.{State, enqueue_upload, verify_backup, cancel_task, retry_task}
use proxsync.Uploads.Worker.{Settings, Input, System, idle, advance, recover}

abbrev pub with_store : State → System → System
with_store store y = record y { store = store }

pub data Step (w : Settings) : System → System → Type 0 where
  enqueued :
      {y : System} (config : GDriveSettings) (id : ℕ) (force : Bool)
      → Step w y (with_store (enqueue_upload config w.next_id id force y.store).1 y)
  verified :
      {y : System} (config : GDriveSettings) (id : ℕ) (result : AgentVerifyResult) (now : ℕ)
      → Step w y (with_store (verify_backup config id result now y.store).1 y)
  cancelled : {y : System} (id now : ℕ) → Step w y (with_store (cancel_task id now y.store).1 y)
  retried : {y : System} (id : ℕ) → Step w y (with_store (retry_task id y.store).1 y)
  advanced : {y : System} (i : Input) → Step w y (advance w i y)
  restarted : {y : System} → Step w y (recover y)

-- The queue as installed beside a table of backups.
abbrev pub installed : List BackupRow → System
installed backups = record { store = record { tasks = []; backups = backups }; stage = idle }

pub data Reachable (w : Settings) : System → Type 0 where
  start : (backups : List BackupRow) → Reachable w (installed backups)
  next : {y z : System} → Reachable w y → Step w y z → Reachable w z
  -- other parts of the dashboard write the table of backups
  elsewhere :
      {y : System}
      → Reachable w y
      → (backups : List BackupRow)
      → Reachable w (with_store (record (y.store) { backups = backups }) y)
