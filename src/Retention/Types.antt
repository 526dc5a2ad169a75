-- ===== src/Retention/Types.antt =====
-- The vocabulary of retention: backend/app/schemas/enums.py, backend/app/schemas/retention.py, the
-- projections of backend/app/repositories/retention_repository.py and the two private records of
-- backend/app/services/retention_service.py. Instants are numbers of microseconds. A formatted
-- reason is a constructor that takes what the f-string interpolates; correlation ids, which serve
-- tracing only, are left out.
use proxsync.Prelude.{ℕ, String, Bool, Option, List}
use proxsync.Prelude.Int.{ℤ}
use proxsync.Prelude.Text.{Text}

pub data GuestType : Type 0 where
  vm lxc : GuestType

pub data BackupStatus : Type 0 where
  running success failed cancelled interrupted deleted : BackupStatus

pub data UploadStatus : Type 0 where
  not_required pending uploading uploaded failed : UploadStatus

pub data RestoreStatus : Type 0 where
  pending_confirmation confirmed running success failed cancelled interrupted expired :
      RestoreStatus

pub data RetentionAction : Type 0 where
  evaluated kept deleted_local deleted_remote skipped failed : RetentionAction

pub data RetentionLocation : Type 0 where
  local remote : RetentionLocation

pub data TriggerType : Type 0 where
  schedule manual api : TriggerType

-- Why a run's policy could not be resolved; the last one is the fallback of `_plans`.
pub data PolicyBlock : Type 0 where
  job_counts_missing source_invalid legacy_job_counts_missing provenance_unknown : PolicyBlock
  policy_unresolved : PolicyBlock

pub data Blocker : Type 0 where
  blocked_missing_remote_metadata : Blocker
  blocked_upload : UploadStatus → Blocker

pub data Reason : Type 0 where
  retention_locked missing_started_at : Reason
  within_keep : RetentionLocation → ℕ → Reason
  beyond_keep : RetentionLocation → ℕ → Reason
  upload_blocker : Blocker → Reason
  blocked_replacement : Blocker → Reason
  blocked_active_restore remote_deletion_disabled remote_sync_disabled : Reason
  invalid_remote_path candidate_copy_no_longer_present : Reason
  unresolved : PolicyBlock → Reason
  reconciled_missing : RetentionLocation → Reason
  -- the detail is already cut to what fits the 255 characters of the whole reason
  delete_failed : RetentionLocation → Text → Reason

-- `datetime` as microseconds
abbrev pub Instant : Type 0
Instant = ℕ

pub record RetentionBackup : Type 0 where
  pub id : ℕ
  pub vmid : ℕ
  pub guest_type : GuestType
  pub guest_name : String
  pub filename : Option Text
  pub size_bytes : Option ℤ
  pub remote_size_bytes : Option ℤ
  pub upload_status : UploadStatus
  pub retention_locked : Bool
  pub started_at : Option Instant
  pub local_deleted_at : Option Instant
  pub remote_deleted_at : Option Instant
  pub remote_path : Option Text

-- A value of the JSON options of a run; `other` is a float, a list or an object.
pub data Value : Type 0 where
  null : Value
  bool : Bool → Value
  int : ℤ → Value
  str : String → Value
  other : Value

abbrev pub Options : Type 0
Options = List (String × Value)

pub record RetentionPolicyContext : Type 0 where
  pub run_id : ℕ
  pub trigger : TriggerType
  pub job_id : Option ℕ
  pub options : Option Options
  pub job_keep_local : Option ℤ
  pub job_keep_remote : Option ℤ

pub data RetentionSource : Type 0 where
  global job legacy_job unresolved : RetentionSource

pub record PlannedDecision : Type 0 where
  pub backup : RetentionBackup
  pub location : RetentionLocation
  pub action : RetentionAction
  pub reason : Reason
  pub size_bytes : ℕ
  pub would_delete : Bool

pub record PolicyResolution : Type 0 where
  pub keep_local : ℕ
  pub keep_remote : ℕ
  pub source : RetentionSource
  pub resolved : Bool
  pub block_reason : Option PolicyBlock
  pub run_id : Option ℕ
  pub job_id : Option ℕ

-- `RetentionSettings` and the fields of `GDriveSettings` that the policy reads.
pub record RetentionSettings : Type 0 where
  pub keep_local : ℕ
  pub keep_remote : ℕ
  pub dry_run : Bool
  pub storage_warning_percent : ℕ
  pub storage_critical_percent : ℕ

pub record GDriveSettings : Type 0 where
  pub enabled : Bool
  pub remote_name : String
  pub folder : String
  pub delete_remote_on_retention : Bool

-- The two literal fields `scope` and `require_upload_before_delete` have one value each.
pub record RetentionPolicySnapshot : Type 0 where
  pub keep_local : ℕ
  pub keep_remote : ℕ
  pub retention_source : RetentionSource
  pub policy_resolved : Bool
  pub policy_block_reason : Option PolicyBlock
  pub policy_run_id : Option ℕ
  pub policy_job_id : Option ℕ
  pub dry_run : Bool
  pub storage_warning_percent : ℕ
  pub storage_critical_percent : ℕ
  pub gdrive_enabled : Bool
  pub delete_remote_on_retention : Bool
  pub remote_name : String
  pub remote_folder : String
  pub trigger_backup_id : Option ℕ

pub record RetentionDecision : Type 0 where
  pub backup_id : ℕ
  pub vmid : ℕ
  pub guest_type : GuestType
  pub guest_name : String
  pub filename : Text
  pub location : RetentionLocation
  pub action : RetentionAction
  pub reason : Reason
  pub size_bytes : ℕ
  pub would_delete : Bool
  pub deleted : Bool
  pub reconciled : Bool
  pub freed_bytes : ℕ
  pub error : Option Text

pub record RetentionSummary : Type 0 where
  pub evaluated : ℕ
  pub local_delete_count : ℕ
  pub local_delete_bytes : ℕ
  pub remote_delete_count : ℕ
  pub remote_delete_bytes : ℕ
  pub deleted_local : ℕ
  pub deleted_remote : ℕ
  pub failed : ℕ
