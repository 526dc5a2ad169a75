-- ===== src/Retention/Repository.antt =====
-- backend/app/repositories/retention_repository.py over the tables of
-- backend/app/db/models/backup.py that it reads and writes. A table is the list of its rows; a
-- `select` is a filter, an `order_by` a stable sort by the clause's comparison.
pub mod Order
pub mod Marks
use proxsync.Prelude.{
  ℕ, Bool, true, false, not, ◌&&◌, ◌||◌, Option, none, some, List, [], ◌∷◌, ◌++◌, map, ltb, ◌==◌,
  filter, find, any, is_some, if◌then◌else◌, String,
}
use proxsync.Prelude.Int.{ℤ}
use proxsync.Prelude.Text.{Text}
use proxsync.Retention.Types.{
  GuestType, vm, lxc, BackupStatus, success, deleted, UploadStatus, uploaded, RestoreStatus,
  pending_confirmation, confirmed, RetentionAction, RetentionLocation, Reason, TriggerType, Instant,
  RetentionBackup, Options, RetentionPolicyContext, RetentionPolicySnapshot, RetentionSettings,
  GDriveSettings,
}

pub record BackupHistory : Type 0 where
  pub id : ℕ
  pub run_id : ℕ
  pub vmid : ℕ
  pub guest_type : GuestType
  pub guest_name : String
  pub filename : Option Text
  pub size_bytes : Option ℤ
  pub remote_size_bytes : Option ℤ
  pub status : BackupStatus
  pub upload_status : UploadStatus
  pub retention_locked : Bool
  pub started_at : Option Instant
  pub local_deleted_at : Option Instant
  pub remote_deleted_at : Option Instant
  pub remote_path : Option Text

pub record RestoreHistory : Type 0 where
  pub backup_id : ℕ
  pub status : RestoreStatus

pub record BackupRun : Type 0 where
  pub id : ℕ
  pub job_id : Option ℕ
  pub trigger : TriggerType
  pub options : Option Options

pub record BackupJob : Type 0 where
  pub id : ℕ
  pub keep_local : ℤ
  pub keep_remote : ℤ

pub record RetentionEvent : Type 0 where
  pub backup_id : ℕ
  pub vmid : ℕ
  pub guest_type : GuestType
  pub action : RetentionAction
  pub reason : Reason
  pub policy_snapshot : RetentionPolicySnapshot
  pub location : RetentionLocation
  pub effective_keep : ℕ
  pub freed_bytes : ℕ
  pub dry_run : Bool

pub record Database : Type 0 where
  pub retention : RetentionSettings
  pub gdrive : GDriveSettings
  pub history : List BackupHistory
  pub restores : List RestoreHistory
  pub runs : List BackupRun
  pub jobs : List BackupJob
  pub events : List RetentionEvent

abbrev same_type : GuestType → GuestType → Bool
same_type vm vm = true
same_type lxc lxc = true
same_type _ _ = false

abbrev is_success : BackupStatus → Bool
is_success success = true
is_success _ = false

-- `status.in_((SUCCESS, DELETED))`
abbrev is_success_or_deleted : BackupStatus → Bool
is_success_or_deleted success = true
is_success_or_deleted deleted = true
is_success_or_deleted _ = false

abbrev is_uploaded : UploadStatus → Bool
is_uploaded uploaded = true
is_uploaded _ = false

-- `_newest_first`: undated rows last, then the later start, then the larger id.
abbrev started_desc : Option Instant → Option Instant → Bool → Bool
started_desc none none tie = tie
started_desc none (some t) tie = false
started_desc (some s) none tie = true
started_desc (some s) (some t) tie = ltb t s || s == t && tie

pub newest_first : BackupHistory → BackupHistory → Bool
newest_first a b = started_desc a.started_at b.started_at (ltb b.id a.id)

insert_by :
    (BackupHistory → BackupHistory → Bool) → BackupHistory → List BackupHistory → List BackupHistory
insert_by before row [] = row ∷ []
insert_by before row (other ∷ rows) =
    if before row other then row ∷ other ∷ rows else other ∷ insert_by before row rows

order_by : (BackupHistory → BackupHistory → Bool) → List BackupHistory → List BackupHistory
unfolding insert_by
order_by before [] = []
order_by before (row ∷ rows) = insert_by before row (order_by before rows)

-- `_project`
abbrev pub project : BackupHistory → RetentionBackup
project r = record {
  id = r.id;
  vmid = r.vmid;
  guest_type = r.guest_type;
  guest_name = r.guest_name;
  filename = r.filename;
  size_bytes = r.size_bytes;
  remote_size_bytes = r.remote_size_bytes;
  upload_status = r.upload_status;
  retention_locked = r.retention_locked;
  started_at = r.started_at;
  local_deleted_at = r.local_deleted_at;
  remote_deleted_at = r.remote_deleted_at;
  remote_path = r.remote_path;
}

abbrev pub local_exists : BackupHistory → Bool
local_exists r = is_success r.status && not (is_some r.local_deleted_at) && is_some r.filename

abbrev pub remote_exists : BackupHistory → Bool
remote_exists r =
    is_success_or_deleted r.status
    && is_uploaded r.upload_status
    && not (is_some r.remote_deleted_at)
    && is_some r.remote_path
    && is_some r.filename

-- `_existing_copy_clause`
abbrev existing_copy : BackupHistory → Bool
existing_copy r = local_exists r || remote_exists r

abbrev pub of_guest : ℕ → GuestType → BackupHistory → Bool
of_guest vmid guest_type r = r.vmid == vmid && same_type r.guest_type guest_type

unfoldable pub local_for_guest : Database → ℕ → GuestType → List RetentionBackup
unfolding order_by newest_first
local_for_guest db vmid guest_type =
    map project (
      order_by newest_first (filter (λ r. of_guest vmid guest_type r && local_exists r) db.history))

unfoldable pub remote_for_guest : Database → ℕ → GuestType → List RetentionBackup
unfolding order_by newest_first
remote_for_guest db vmid guest_type =
    map project (
      order_by newest_first
        (filter (λ r. of_guest vmid guest_type r && remote_exists r) db.history))

abbrev guest_of : Option BackupHistory → Option (ℕ × GuestType)
guest_of none = none
guest_of (some r) = some (r.vmid, r.guest_type)

unfoldable pub guest_for_backup : Database → ℕ → Option (ℕ × GuestType)
guest_for_backup db backup_id = guest_of (find (λ r. r.id == backup_id) db.history)

abbrev first_id : List BackupHistory → Option ℕ
first_id [] = none
first_id (r ∷ rows) = some r.id

abbrev newest_of : Database → Option (ℕ × GuestType) → Option ℕ
unfolding order_by newest_first
newest_of db none = none
newest_of db (some (vmid, guest_type)) =
    first_id (
      order_by newest_first
        (filter (λ r. of_guest vmid guest_type r && existing_copy r) db.history))

-- The guest's newest existing copy, for a possibly stale trigger.
pub canonical_trigger_backup_id : Database → ℕ → Option ℕ
unfolding newest_of guest_for_backup
canonical_trigger_backup_id db backup_id = newest_of db (guest_for_backup db backup_id)

-- `order_by(vmid, guest_type)`: `lxc` is before `vm`.
abbrev guest_lt : ℕ × GuestType → ℕ × GuestType → Bool
guest_lt (v, s) (w, t) = ltb v w || v == w && not (same_type s vm) && same_type t vm

abbrev guest_eq : ℕ × GuestType → ℕ × GuestType → Bool
guest_eq (v, s) (w, t) = v == w && same_type s t

insert_distinct : ℕ × GuestType → List (ℕ × GuestType) → List (ℕ × GuestType)
insert_distinct g [] = g ∷ []
insert_distinct g (h ∷ hs) =
    let rest = h ∷ insert_distinct g hs in
    if guest_eq g h then h ∷ hs else if guest_lt g h then g ∷ h ∷ hs else rest

distinct_guests : List BackupHistory → List (ℕ × GuestType)
unfolding insert_distinct
distinct_guests [] = []
distinct_guests (r ∷ rows) = insert_distinct (r.vmid, r.guest_type) (distinct_guests rows)

unfoldable pub guest_keys : Database → List (ℕ × GuestType)
unfolding distinct_guests
guest_keys db = distinct_guests (filter existing_copy db.history)

-- `ACTIVE_RESTORE_STATES`
abbrev pub is_active : RestoreStatus → Bool
is_active pending_confirmation = true
is_active confirmed = true
is_active RestoreStatus.running = true
is_active _ = false

unfoldable pub has_active_restore : Database → ℕ → Bool
has_active_restore db backup_id =
    any (λ r. r.backup_id == backup_id && is_active r.status) db.restores

job_counts : Option BackupJob → Option ℤ × Option ℤ
job_counts none = (none, none)
job_counts (some job) = (some job.keep_local, some job.keep_remote)

job_of : Database → Option ℕ → Option BackupJob
job_of db none = none
job_of db (some job_id) = find (λ j. j.id == job_id) db.jobs

context_of_run : Database → Option BackupRun → Option RetentionPolicyContext
unfolding job_counts job_of
context_of_run db none = none
context_of_run db (some run) =
    let (keep_local, keep_remote) = job_counts (job_of db run.job_id) in
    some (record {
      run_id = run.id;
      trigger = run.trigger;
      job_id = run.job_id;
      options = run.options;
      job_keep_local = keep_local;
      job_keep_remote = keep_remote;
    })

context_of_backup : Database → Option BackupHistory → Option RetentionPolicyContext
unfolding context_of_run
context_of_backup db none = none
context_of_backup db (some r) = context_of_run db (find (λ run. run.id == r.run_id) db.runs)

pub retention_policy_context : Database → ℕ → Option RetentionPolicyContext
unfolding context_of_backup
retention_policy_context db backup_id =
    context_of_backup db (find (λ r. r.id == backup_id) db.history)

-- `_refresh_status`: deleted only once neither location holds a usable copy.
refresh_status : BackupHistory → BackupHistory
refresh_status r =
    let local_left = not (is_some r.local_deleted_at) && is_some r.filename in
    let remote_left = is_some r.remote_path && not (is_some r.remote_deleted_at) in
    record r { status = if local_left || remote_left then success else deleted }

-- The row that `session.get` finds is changed in place.
update_row : ℕ → (BackupHistory → BackupHistory) → List BackupHistory → List BackupHistory
update_row id f [] = []
update_row id f (r ∷ rows) = if r.id == id then f r ∷ rows else r ∷ update_row id f rows

pub mark_local : Instant → BackupHistory → BackupHistory
unfolding refresh_status
mark_local at r =
    if is_some r.local_deleted_at
    then r
    else refresh_status (record r { local_deleted_at = some at })

pub mark_remote : Instant → BackupHistory → BackupHistory
unfolding refresh_status
mark_remote at r =
    if is_some r.remote_deleted_at
    then r
    else refresh_status (record r { remote_deleted_at = some at })

pub mark_local_deleted : ℕ → Instant → Database → Database
unfolding update_row mark_local
mark_local_deleted backup_id at db = record db {
  history = update_row backup_id (mark_local at) db.history;
}

pub mark_remote_deleted : ℕ → Instant → Database → Database
unfolding update_row mark_remote
mark_remote_deleted backup_id at db = record db {
  history = update_row backup_id (mark_remote at) db.history;
}

unfoldable pub record_event : RetentionEvent → Database → Database
record_event event db = record db { events = db.events ++ event ∷ [] }
