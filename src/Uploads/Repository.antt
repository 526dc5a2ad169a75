-- ===== src/Uploads/Repository.antt =====
-- backend/app/repositories/sync_task_repository.py, and `awaiting_upload` of
-- backend/app/repositories/backup_history_repository.py. A table is the list of its rows, in the order of
-- their ids.
use proxsync.Prelude.{
  ℕ, Bool, true, false, not, ◌&&◌, Option, none, some, List, leb, ◌==◌, find, filter, take, is_some,
}
use proxsync.Retention.Types.{BackupStatus, UploadStatus}
use proxsync.Uploads.Types.{SyncStatus, queued, running, SyncTask, BackupRow}

abbrev pub is_queued : SyncStatus → Bool
is_queued queued = true
is_queued _ = false

abbrev pub is_running : SyncStatus → Bool
is_running running = true
is_running _ = false

-- `ACTIVE_SYNC_STATES`
abbrev pub is_active : SyncStatus → Bool
is_active queued = true
is_active running = true
is_active _ = false

abbrev pub is_success : BackupStatus → Bool
is_success BackupStatus.success = true
is_success _ = false

abbrev pub is_pending : UploadStatus → Bool
is_pending UploadStatus.pending = true
is_pending _ = false

abbrev pub is_uploaded : UploadStatus → Bool
is_uploaded UploadStatus.uploaded = true
is_uploaded _ = false

elapsed : ℕ → Option ℕ → Bool
elapsed now none = true
elapsed now (some t) = leb t now

unfoldable pub is_ready : ℕ → SyncTask → Bool
unfolding elapsed
is_ready now task = is_queued task.status && elapsed now task.next_retry_at

-- `next_ready`
unfoldable pub next_ready : ℕ → List SyncTask → Option SyncTask
unfolding is_ready
next_ready now tasks = find (is_ready now) tasks

same_id : ℕ → Option ℕ → Bool
same_id id none = false
same_id id (some other) = other == id

-- `active_for_backup`
unfoldable pub active_for_backup : ℕ → List SyncTask → Option SyncTask
unfolding same_id
active_for_backup backup_id tasks =
    find (λ t. same_id backup_id t.backup_id && is_active t.status) tasks

-- the condition of `awaiting_upload`
abbrev awaits_upload : BackupRow → Bool
awaits_upload b =
    is_success b.status
    && is_pending b.upload_status
    && is_some b.filename
    && not (is_some b.local_deleted_at)

-- `awaiting_upload`: the oldest hundred.
unfoldable pub awaiting_upload : List BackupRow → List BackupRow
awaiting_upload backups = take 100 (filter awaits_upload backups)
