-- ===== src/Uploads/Types.antt =====
-- The rows of backend/app/db/models/backup.py that the upload queue reads and writes, its settings, and
-- what the agent answers to a verification. Byte counts of a running transfer, error texts and
-- correlation ids are left out. Instants are whole seconds; a task's direction is always `upload`.
use proxsync.Prelude.{ℕ, Bool, Option}
use proxsync.Prelude.Text.{Text}
use proxsync.Retention.Types.{BackupStatus, UploadStatus}

pub data SyncStatus : Type 0 where
  queued running success failed cancelled : SyncStatus

pub record SyncTask : Type 0 where
  pub id : ℕ
  pub backup_id : Option ℕ
  pub status : SyncStatus
  pub agent_task_id : Option Text
  pub remote_name : Option Text
  pub remote_path : Option Text
  pub attempt : ℕ
  pub max_attempts : ℕ
  pub next_retry_at : Option ℕ
  pub started_at : Option ℕ
  pub finished_at : Option ℕ

pub record BackupRow : Type 0 where
  pub id : ℕ
  pub status : BackupStatus
  pub filename : Option Text
  pub local_deleted_at : Option ℕ
  pub upload_status : UploadStatus
  pub uploaded_at : Option ℕ
  pub remote_path : Option Text
  pub remote_checksum : Option Text
  pub remote_size_bytes : Option ℕ

pub record GDriveSettings : Type 0 where
  pub enabled : Bool
  pub remote_name : Text
  pub folder : Text
  pub upload_retry : ℕ

pub record AgentVerifyResult : Type 0 where
  pub verified : Bool
  pub remote_size_bytes : Option ℕ
  pub remote_md5 : Option Text
