-- ===== src/Uploads/Service.antt =====
-- What changes state in backend/app/services/sync_service.py: `enqueue_upload`, `enqueue_pending`,
-- `verify_backup`, `cancel_task` and `retry_task`. A route runs one of them and commits.
pub mod Outcomes
use proxsync.Prelude.{
  ℕ, zero, suc, ◌+◌, Bool, true, false, not, ◌&&◌, Option, none, some, List, [], ◌∷◌, ◌++◌, is_some,
  if◌then◌else◌,
}
use proxsync.Prelude.Text.{Text}
use proxsync.Prelude.Tables.{get_by, update_by}
use proxsync.Effects.{Result, ok, raised, Action}
use proxsync.Retention.Types.{UploadStatus}
use proxsync.Uploads.Types.{
  SyncStatus, queued, running, success, failed, cancelled, SyncTask, BackupRow, GDriveSettings,
  AgentVerifyResult,
}
use proxsync.Uploads.Repository.{
  is_active, is_success, is_uploaded, active_for_backup, awaiting_upload,
}

pub data SyncError : Type 0 where
  not_found validation_failed conflict : SyncError

pub record State : Type 0 where
  pub tasks : List SyncTask
  pub backups : List BackupRow

abbrev pub Service : Type 0 → Type 0
Service A = Action SyncError State A

abbrev pub task_id : SyncTask → ℕ
task_id t = t.id

abbrev pub backup_id : BackupRow → ℕ
backup_id b = b.id

abbrev pub get_task : ℕ → State → Option SyncTask
get_task id s = get_by task_id id s.tasks

abbrev pub get_backup : ℕ → State → Option BackupRow
get_backup id s = get_by backup_id id s.backups

abbrev pub set_task : ℕ → (SyncTask → SyncTask) → State → State
set_task id f s = record s { tasks = update_by task_id id f s.tasks }

abbrev pub set_upload_status : UploadStatus → BackupRow → BackupRow
set_upload_status status b = record b { upload_status = status }

-- The row of a backup, where the task names one.
unfoldable pub set_backup : Option ℕ → (BackupRow → BackupRow) → State → State
unfolding update_by
set_backup none f s = s
set_backup (some id) f s = record s { backups = update_by backup_id id f s.backups }

-- `if task.backup_id`: an id of zero counts as none.
pub truthy : Option ℕ → Option ℕ
truthy none = none
truthy (some zero) = none
truthy (some (suc id)) = some (suc id)

-- `create` of the repository, with the key that the database gives.
abbrev pub new_task : GDriveSettings → ℕ → ℕ → SyncTask
new_task config id backup = record {
  id = id;
  backup_id = some backup;
  status = queued;
  agent_task_id = none;
  remote_name = some config.remote_name;
  remote_path = some config.folder;
  attempt = 0;
  max_attempts = config.upload_retry + 1;
  next_retry_at = none;
  started_at = none;
  finished_at = none;
}

abbrev pub add_task : SyncTask → State → State
add_task task s = record s { tasks = s.tasks ++ task ∷ [] }

-- The checks of `enqueue_upload` on the backup, in their order.
pub upload_refusal : Bool → BackupRow → List SyncTask → Option SyncError
unfolding active_for_backup
upload_refusal force b tasks =
    if not (is_success b.status)
    then some validation_failed
    else if not (is_some b.filename)
    then some validation_failed
    else if is_some b.local_deleted_at
    then some validation_failed
    else if is_some (active_for_backup b.id tasks)
    then some conflict
    else if is_uploaded b.upload_status && not force
    then some conflict
    else none

enqueue_unless :
    GDriveSettings → (List SyncTask → ℕ) → BackupRow → Option SyncError → Service SyncTask
unfolding set_backup
enqueue_unless config next_id b (some e) s = (raised e, s)
enqueue_unless config next_id b none s = (
  ok (new_task config (next_id s.tasks) b.id),
  set_backup (some b.id) (set_upload_status UploadStatus.pending)
      (add_task (new_task config (next_id s.tasks) b.id) s),
)

enqueue_found : GDriveSettings → (List SyncTask → ℕ) → Bool → Option BackupRow → Service SyncTask
unfolding enqueue_unless upload_refusal
enqueue_found config next_id force none s = (raised not_found, s)
enqueue_found config next_id force (some b) s =
    enqueue_unless config next_id b (upload_refusal force b s.tasks) s

-- `enqueue_upload`
unfoldable pub enqueue_upload : GDriveSettings → (List SyncTask → ℕ) → ℕ → Bool → Service SyncTask
unfolding enqueue_found
enqueue_upload config next_id id force s =
    if config.enabled
    then enqueue_found config next_id force (get_backup id s) s
    else (raised validation_failed, s)

-- The loop of `enqueue_pending`, which sees the tasks it has just added.
enqueue_each : GDriveSettings → (List SyncTask → ℕ) → List BackupRow → List SyncTask → List SyncTask
unfolding active_for_backup
enqueue_each config next_id [] tasks = tasks
enqueue_each config next_id (b ∷ backups) tasks = enqueue_each config next_id backups (
    if is_some (active_for_backup b.id tasks)
    then tasks
    else tasks ++ new_task config (next_id tasks) b.id ∷ [])

-- `enqueue_pending`
unfoldable pub enqueue_pending : GDriveSettings → (List SyncTask → ℕ) → State → State
unfolding enqueue_each awaiting_upload
enqueue_pending config next_id s =
    if config.enabled
    then record s { tasks = enqueue_each config next_id (awaiting_upload s.backups) s.tasks }
    else s

-- `uploaded_at` is set where it is none.
or_now : Option ℕ → ℕ → Option ℕ
or_now none now = some now
or_now (some t) now = some t

-- `_apply_verification`
pub apply_verification : AgentVerifyResult → ℕ → BackupRow → BackupRow
unfolding or_now
apply_verification result now b =
    if result.verified
    then record b {
      upload_status = UploadStatus.uploaded;
      remote_size_bytes = result.remote_size_bytes;
      remote_checksum = result.remote_md5;
      uploaded_at = or_now b.uploaded_at now;
    }
    else record b {
      remote_size_bytes = result.remote_size_bytes;
      upload_status = if is_uploaded b.upload_status then UploadStatus.failed else b.upload_status;
    }

verify_named : BackupRow → Option Text → AgentVerifyResult → ℕ → Service Unit
unfolding update_by apply_verification
verify_named b none result now s = (raised validation_failed, s)
verify_named b (some filename) result now s = (
  ok tt,
  record s { backups = update_by backup_id b.id (apply_verification result now) s.backups },
)

verify_found : Option BackupRow → AgentVerifyResult → ℕ → Service Unit
unfolding verify_named
verify_found none result now s = (raised not_found, s)
verify_found (some b) result now s = verify_named b b.filename result now s

-- `verify_backup`, where the agent answers.
pub verify_backup : GDriveSettings → ℕ → AgentVerifyResult → ℕ → Service Unit
unfolding verify_found
verify_backup config id result now s =
    if config.enabled
    then verify_found (get_backup id s) result now s
    else (raised validation_failed, s)

abbrev pub cancel_row : ℕ → SyncTask → SyncTask
cancel_row now t = record t { status = cancelled; finished_at = some now }

cancel_found : ℕ → Option SyncTask → Service Unit
unfolding update_by set_backup truthy
cancel_found now none s = (raised not_found, s)
cancel_found now (some t) s =
    if is_active t.status
    then (
      ok tt,
      set_backup (truthy t.backup_id) (set_upload_status UploadStatus.failed)
          (set_task t.id (cancel_row now) s),
    )
    else (raised conflict, s)

-- `cancel_task`; what the agent answers to the cancellation of its task is ignored.
pub cancel_task : ℕ → ℕ → Service Unit
unfolding cancel_found
cancel_task id now s = cancel_found now (get_task id s) s

abbrev pub retry_row : SyncTask → SyncTask
retry_row t = record t {
  status = queued;
  attempt = 1;
  next_retry_at = none;
  started_at = none;
  finished_at = none;
  agent_task_id = none;
}

retry_found : Option SyncTask → Service Unit
unfolding update_by set_backup truthy
retry_found none s = (raised not_found, s)
retry_found (some t) s = (
  ok tt,
  set_backup (truthy t.backup_id) (set_upload_status UploadStatus.pending)
      (set_task t.id retry_row s),
)

-- `retry_task`
pub retry_task : ℕ → Service Unit
unfolding retry_found
retry_task id s = retry_found (get_task id s) s
