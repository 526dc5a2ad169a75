-- ===== src/Restore/Types.antt =====
-- The vocabulary of restores: backend/app/schemas/restore.py, the rows of backend/app/db/models that a
-- restore reads and writes, and what the host answers. The texts of details and log lines are left
-- out; a warning is a constructor. Instants are whole seconds, sizes are not negative.
use proxsync.Prelude.{ℕ, Bool, Option, List}
use proxsync.Prelude.Text.{Text}
use proxsync.Retention.Types.{GuestType, BackupStatus, UploadStatus, RestoreStatus}

pub data RestoreSource : Type 0 where
  local gdrive : RestoreSource

pub data RestoreMode : Type 0 where
  original_id new_id : RestoreMode

pub data GuestStatus : Type 0 where
  running stopped unknown : GuestStatus

-- The columns of a backup that a restore reads.
pub record SourceBackup : Type 0 where
  pub id : ℕ
  pub vmid : ℕ
  pub guest_type : GuestType
  pub node : Option Text
  pub filename : Option Text
  pub size_bytes : Option ℕ
  pub checksum_sha256 : Option Text
  pub status : BackupStatus
  pub upload_status : UploadStatus
  pub remote_path : Option Text
  pub remote_deleted_at : Option ℕ
  pub local_deleted_at : Option ℕ

pub record Guest : Type 0 where
  pub vmid : ℕ
  pub guest_type : GuestType
  pub status : GuestStatus

pub record RestoreRequest : Type 0 where
  pub backup_id : ℕ
  pub restore_mode : RestoreMode
  pub target_vmid : Option ℕ
  pub target_storage : Option Text
  pub target_node : Option Text
  pub overwrite_existing : Bool
  pub force_stop : Bool
  pub start_after_restore : Bool

pub record RestoreConfirmRequest : Type 0 where
  pub confirmation_token : Text
  pub target_vmid : ℕ

pub data CheckName : Type 0 where
  backup_restorable backup_present_locally checksum_matches target_vmid_free : CheckName
  target_type_matches target_guest_stopped target_node_supported : CheckName
  storage_free_space no_restore_in_flight : CheckName

pub record PreflightCheck : Type 0 where
  pub name : CheckName
  pub ok : Bool

pub data Warning : Type 0 where
  download_first no_checksum guest_destroyed size_unknown other_node : Warning

pub record PreflightReport : Type 0 where
  pub checks : List PreflightCheck
  pub blocking : Bool
  pub warnings : List Warning
  pub source : RestoreSource
  pub backup_id : ℕ
  pub filename : Option Text
  pub size_bytes : Option ℕ
  pub target_vmid : ℕ
  pub target_type : GuestType
  pub target_storage : Text
  pub target_node : Text

-- A row of `restore_history`.
pub record RestoreRow : Type 0 where
  pub id : ℕ
  pub backup_id : ℕ
  pub source : RestoreSource
  pub target_vmid : ℕ
  pub target_type : GuestType
  pub restore_mode : RestoreMode
  pub target_node : Text
  pub target_storage : Text
  pub overwrite_existing : Bool
  pub force_stop : Bool
  pub start_after_restore : Bool
  pub status : RestoreStatus
  pub confirmation_token_hash : Option Text
  pub confirmation_expires_at : Option ℕ
  pub confirmed_at : Option ℕ
  pub preflight : PreflightReport
  pub agent_task_id : Option Text
  pub requested_by : Option ℕ
  pub started_at : Option ℕ
  pub finished_at : Option ℕ

pub record AgentArtifact : Type 0 where
  pub filename : Text
  pub checksum_sha256 : Option Text

pub record AgentStorageEntry : Type 0 where
  pub name : Text
  pub active : Bool
  pub available_bytes : ℕ
