-- ===== src/Restore/Preflight.antt =====
-- `RestoreService.preflight` of backend/app/services/restore_service.py. A `Host` is what the agent
-- answers while it runs, `none` being an agent that is away or refuses; lower case and the ceiling of
-- a size times 1.15, which is floating-point arithmetic, are Python's. Digests are ASCII.
pub mod Complete
pub mod Guests
pub mod Archives
pub mod Ready
use proxsync.Prelude.{
  ℕ, Bool, true, false, not, ◌&&◌, ◌||◌, Option, none, some, List, [], ◌∷◌, ◌++◌, leb, ◌==◌, find,
  any, is_some, if◌then◌else◌,
}
use proxsync.Prelude.Text.{Text, eq_text}
use proxsync.Effects.{Result, ok, raised}
use proxsync.Retention.Types.{GuestType, vm, lxc, BackupStatus, success, UploadStatus, uploaded}
use proxsync.Restore.Types.{
  RestoreSource, local, gdrive, RestoreMode, original_id, new_id, GuestStatus, running,
  SourceBackup, Guest, RestoreRequest, CheckName, backup_restorable, backup_present_locally,
  checksum_matches, target_vmid_free, target_type_matches, target_guest_stopped,
  target_node_supported, storage_free_space, no_restore_in_flight, PreflightCheck, Warning,
  download_first, no_checksum, guest_destroyed, size_unknown, other_node, PreflightReport,
  AgentArtifact, AgentStorageEntry,
}

pub record Host : Type 0 where
  -- `list_backups` of a guest
  pub artifacts : ℕ → GuestType → Option (List AgentArtifact)
  pub storages : Option (List AgentStorageEntry)
  pub lower : Text → Text
  -- `math.ceil(size * FREE_SPACE_MARGIN)`
  pub required : ℕ → ℕ
  pub default_storage : Text
  pub agent_node : Text

pub data RestoreError : Type 0 where
  no_backup no_restore preflight_failed already_expired not_awaiting window_closed : RestoreError
  token_mismatch vmid_mismatch conditions_changed already_running already_closed : RestoreError
  assertion_error : RestoreError

abbrev pub same_type : GuestType → GuestType → Bool
same_type vm vm = true
same_type lxc lxc = true
same_type _ _ = false

abbrev pub is_success : BackupStatus → Bool
is_success success = true
is_success _ = false

abbrev pub is_uploaded : UploadStatus → Bool
is_uploaded uploaded = true
is_uploaded _ = false

abbrev pub is_running : GuestStatus → Bool
is_running running = true
is_running _ = false

abbrev check_of : CheckName → Bool → PreflightCheck
check_of name passed = record { name = name; ok = passed }

-- `_backup_restorable`
abbrev pub restorable : SourceBackup → Bool
restorable backup = is_some backup.filename && is_success backup.status

-- `_local_artifact`: `none` if the host could not be asked.
local_artifact_named : Host → SourceBackup → Option Text → Option (Option AgentArtifact)
local_artifact_named host backup none = some none
local_artifact_named host backup (some filename) =
    elim (host.artifacts backup.vmid backup.guest_type) [
      | none ↦ none
      | some items ↦ some (find (λ item. eq_text item.filename filename) items)
    ]

pub local_artifact : Host → SourceBackup → Option (Option AgentArtifact)
unfolding local_artifact_named
local_artifact host backup = local_artifact_named host backup backup.filename

abbrev pub remote_usable : SourceBackup → Bool
remote_usable backup =
    is_uploaded backup.upload_status
    && is_some backup.remote_path
    && not (is_some backup.remote_deleted_at)

-- `_artifact_presence`: where the archive comes from, whether it is anywhere, and the warnings.
pub artifact_presence :
    SourceBackup → Option (Option AgentArtifact) → RestoreSource × Bool × List Warning
artifact_presence backup none = (local, false, [])
artifact_presence backup (some (some artifact)) = (local, true, [])
artifact_presence backup (some none) =
    if remote_usable backup then (gdrive, true, download_first ∷ []) else (local, false, [])

abbrev actual_digest : Option (Option AgentArtifact) → Option Text
actual_digest none = none
actual_digest (some none) = none
actual_digest (some (some artifact)) = artifact.checksum_sha256

digest_agrees : Host → Text → RestoreSource → Option Text → Bool
digest_agrees host expected gdrive actual = true
digest_agrees host expected local none = true
digest_agrees host expected local (some actual) = eq_text (host.lower actual) (host.lower expected)

-- `_checksum_check`
pub checksum_check :
    Host → Option Text → RestoreSource → Option (Option AgentArtifact) → Bool × List Warning
unfolding digest_agrees
checksum_check host none source artifact = (true, no_checksum ∷ [])
checksum_check host (some expected) source artifact =
    (digest_agrees host expected source (actual_digest artifact), [])

or_else : Option Guest → Option Guest → Option Guest
or_else (some guest) other = some guest
or_else none other = other

abbrev pub get_by_vmid : ℕ → GuestType → List Guest → Option Guest
get_by_vmid vmid guest_type guests =
    find (λ g. g.vmid == vmid && same_type g.guest_type guest_type) guests

-- `_existing_guest`: both types, in the order of the enumeration.
pub existing_guest : ℕ → List Guest → Option Guest
unfolding or_else
existing_guest vmid guests = or_else (get_by_vmid vmid vm guests) (get_by_vmid vmid lxc guests)

-- `_target_free_check`
pub target_free_check : Option Guest → Bool → Bool × List Warning
target_free_check none overwrite = (true, [])
target_free_check (some guest) false = (false, [])
target_free_check (some guest) true = (true, guest_destroyed ∷ [])

-- `_target_type_check`
pub target_type_check : Option Guest → GuestType → Bool
target_type_check none target_type = true
target_type_check (some guest) target_type = same_type guest.guest_type target_type

-- `_target_stopped_check`
pub target_stopped_check : Option Guest → Bool → Bool
target_stopped_check none force_stop = true
target_stopped_check (some guest) force_stop = not (is_running guest.status) || force_stop

space_on : Host → Option AgentStorageEntry → Option ℕ → Bool × List Warning
space_on host none size = (false, [])
space_on host (some entry) none = if entry.active then (true, size_unknown ∷ []) else (false, [])
space_on host (some entry) (some size) =
    if not entry.active
    then (false, [])
    else if size == 0
    then (true, size_unknown ∷ [])
    else (leb (host.required size) entry.available_bytes, [])

-- `_free_space_check`
pub free_space_check :
    Host → Option (List AgentStorageEntry) → Text → Option ℕ → Bool × List Warning
unfolding space_on
free_space_check host none storage size = (false, [])
free_space_check host (some entries) storage size =
    space_on host (find (λ e. eq_text e.name storage) entries) size

node_warning : Option Text → Text → List Warning
node_warning none target_node = []
node_warning (some []) target_node = []
node_warning (some (c ∷ node)) target_node =
    if eq_text (c ∷ node) target_node then [] else other_node ∷ []

-- `value or default` of an optional text.
pub or_text : Option Text → Text → Text
or_text none default = default
or_text (some []) default = default
or_text (some (c ∷ t)) default = c ∷ t

pub resolve_target_vmid : RestoreMode → Option ℕ → ℕ → Result RestoreError ℕ
resolve_target_vmid original_id target vmid = ok vmid
resolve_target_vmid new_id (some target) vmid = ok target
resolve_target_vmid new_id none vmid = raised assertion_error

-- The report on a backup and a target; `in_flight` says whether a restore is already authorised.
pub report_on : Host → List Guest → Bool → RestoreRequest → SourceBackup → ℕ → PreflightReport
unfolding local_artifact artifact_presence checksum_check existing_guest target_free_check
    target_type_check target_stopped_check free_space_check node_warning or_text
report_on host guests in_flight request backup target_vmid =
    let storage = or_text request.target_storage host.default_storage in
    let node = or_text request.target_node host.agent_node in
    let artifact = local_artifact host backup in
    let (source, present, fetched) = artifact_presence backup artifact in
    let (intact, unverified) = checksum_check host backup.checksum_sha256 source artifact in
    let existing = existing_guest target_vmid guests in
    let (free, destroyed) = target_free_check existing request.overwrite_existing in
    let (space, unknown_size) = free_space_check host host.storages storage backup.size_bytes in
    let checks =
      check_of backup_restorable (restorable backup)
      ∷ check_of backup_present_locally present
      ∷ check_of checksum_matches intact
      ∷ check_of target_vmid_free free
      ∷ check_of target_type_matches (target_type_check existing backup.guest_type)
      ∷ check_of target_guest_stopped (target_stopped_check existing request.force_stop)
      ∷ check_of target_node_supported (eq_text node host.agent_node)
      ∷ check_of storage_free_space space
      ∷ check_of no_restore_in_flight (not in_flight)
      ∷ [] in
    record {
      checks = checks;
      blocking = any (λ c. not c.ok) checks;
      warnings =
          fetched ++ unverified ++ destroyed ++ unknown_size ++ node_warning backup.node node;
      source = source;
      backup_id = backup.id;
      filename = backup.filename;
      size_bytes = backup.size_bytes;
      target_vmid = target_vmid;
      target_type = backup.guest_type;
      target_storage = storage;
      target_node = node;
    }

preflight_at :
    Host
    → List Guest
    → Bool
    → RestoreRequest
    → SourceBackup
    → Result RestoreError ℕ
    → Result RestoreError PreflightReport
unfolding report_on
preflight_at host guests in_flight request backup (raised e) = raised e
preflight_at host guests in_flight request backup (ok target_vmid) =
    ok (report_on host guests in_flight request backup target_vmid)

preflight_of :
    Host
    → List Guest
    → Bool
    → RestoreRequest
    → Option SourceBackup
    → Result RestoreError PreflightReport
unfolding preflight_at resolve_target_vmid
preflight_of host guests in_flight request none = raised no_backup
preflight_of host guests in_flight request (some backup) =
    preflight_at host guests in_flight request backup
      (resolve_target_vmid request.restore_mode request.target_vmid backup.vmid)

-- `preflight`
unfoldable pub preflight :
    Host
    → List SourceBackup
    → List Guest
    → Bool
    → RestoreRequest
    → Result RestoreError PreflightReport
unfolding preflight_of
preflight host backups guests in_flight request =
    preflight_of host guests in_flight request (find (λ b. b.id == request.backup_id) backups)
