-- ===== src/Restore/Preflight/Ready.antt =====
-- What a preflight that blocks nothing says of the backups, the guests and the host.
use mathlib.Core.Path.{subst}
use mathlib.Core.Bool.{false≢true}
use proxsync.Prelude.{
  ℕ, suc, ◌≤◌, ◌≡◌, refl, sym, ap, Bool, true, false, not, ◌||◌, Option, none, some, List, [], ◌∷◌,
  ◌==◌, Member, arith, is_some,
}
use proxsync.Prelude.Text.{Text, eq_text, eq_text→eq}
use proxsync.Effects.{ok-injective, ok}
use proxsync.Retention.Types.{GuestType, vm, lxc, BackupStatus}
use proxsync.Restore.Types.{
  RestoreMode, original_id, new_id, RestoreRequest, SourceBackup, Guest, PreflightReport,
  AgentStorageEntry,
}
use proxsync.Restore.Preflight.{
  Host, same_type, is_success, is_running, or_text, resolve_target_vmid, preflight,
}
use proxsync.Restore.Preflight.Complete.{IsRestorable, preflight-IsRestorable}
use proxsync.Restore.Preflight.Guests.{find-Member, VmidsDistinct, guest_exists}
use proxsync.Restore.Preflight.Archives.{IsAvailable, available}

-- The value that is asked for, where one is, or else the default.
abbrev pub IsChosen : Option Text → Text → Text → Type 0
IsChosen none default value = value ≡ default
IsChosen (some []) default value = value ≡ default
IsChosen (some (c ∷ asked)) default value = value ≡ c ∷ asked

or_text-IsChosen :
    (asked : Option Text) (default : Text) → IsChosen asked default (or_text asked default)
unfolding or_text
or_text-IsChosen none default = refl
or_text-IsChosen (some []) default = refl
or_text-IsChosen (some (c ∷ asked)) default = refl

-- The guest's id that the mode of the restore names.
abbrev pub IsTarget : RestoreMode → Option ℕ → ℕ → ℕ → Type 0
IsTarget original_id asked vmid target = target ≡ vmid
IsTarget new_id asked vmid target = asked ≡ some target

resolve-IsTarget :
    (mode : RestoreMode) (asked : Option ℕ) (vmid target : ℕ)
    → resolve_target_vmid mode asked vmid ≡ ok target
    → IsTarget mode asked vmid target
unfolding resolve_target_vmid
resolve-IsTarget original_id asked vmid target e = sym (ok-injective vmid target e)
resolve-IsTarget new_id (some other) vmid target e = ap (λ t. some t) (ok-injective other target e)
resolve-IsTarget new_id none vmid target e = cc

is_success-success :
    (status : BackupStatus) → is_success status ≡ true → status ≡ BackupStatus.success
is_success-success BackupStatus.success h = refl
is_success-success BackupStatus.running h = absurd (false≢true h)
is_success-success BackupStatus.failed h = absurd (false≢true h)
is_success-success BackupStatus.cancelled h = absurd (false≢true h)
is_success-success BackupStatus.interrupted h = absurd (false≢true h)
is_success-success BackupStatus.deleted h = absurd (false≢true h)

same_type-eq : (a b : GuestType) → same_type a b ≡ true → a ≡ b
same_type-eq vm vm h = refl
same_type-eq lxc lxc h = refl
same_type-eq vm lxc h = absurd (false≢true h)
same_type-eq lxc vm h = absurd (false≢true h)

named : (filename : Option Text) → is_some filename ≡ true → (f : Text) × (filename ≡ some f)
named none h = absurd (false≢true h)
named (some f) h = (f, refl)

-- The backup can be restored onto the target: it succeeded and has an archive that is available; whatever
-- guest has the target's id may be overwritten, is of the backup's type, and does not run unless stopping it
-- is asked for; the node is the agent's; the storage is active and has room for an archive whose size is
-- known and not zero; and no restore is in flight.
pub record IsReady (host : Host) (guests : List Guest) (in_flight : Bool) (request : RestoreRequest)
    (backup : SourceBackup) (target_vmid : ℕ) : Type 0 where
  pub target : IsTarget request.restore_mode request.target_vmid backup.vmid target_vmid
  pub succeeded : backup.status ≡ BackupStatus.success
  pub archive :
      (filename : Text) × (backup.filename ≡ some filename) × IsAvailable host backup filename
  pub replaces :
      (guest : Guest)
      → Member guest guests
      → guest.vmid ≡ target_vmid
      → (request.overwrite_existing ≡ true)
        × (guest.guest_type ≡ backup.guest_type)
        × (not (is_running guest.status) || request.force_stop ≡ true)
  pub node : IsChosen request.target_node host.agent_node host.agent_node
  pub room :
      (storage : Text) × IsChosen request.target_storage host.default_storage storage
      × ((entries : List AgentStorageEntry) × (host.storages ≡ some entries)
          × ((entry : AgentStorageEntry) × Member entry entries
              × (entry.name ≡ storage)
              × (entry.active ≡ true)
              × ((known : ℕ)
                  → backup.size_bytes ≡ some (suc known)
                  → host.required (suc known) ≤ entry.available_bytes)))
  pub idle : in_flight ≡ false

IsRestorable-IsReady :
    (host : Host) (guests : List Guest) (in_flight : Bool) (request : RestoreRequest)
    (backup : SourceBackup) (target_vmid : ℕ)
    → VmidsDistinct guests
    → resolve_target_vmid request.restore_mode request.target_vmid backup.vmid ≡ ok target_vmid
    → IsRestorable host guests in_flight request backup target_vmid
    → IsReady host guests in_flight request backup target_vmid
IsRestorable-IsReady host guests in_flight request backup target_vmid distinct chosen h =
    let (filename, has_name) = named backup.filename (ground (arith, h.succeeded)) in
    let storage = or_text request.target_storage host.default_storage in
    let (entries, known, space) = h.room in
    let (entry, found, active, room) = space in
    let held = find-Member (λ e. eq_text e.name storage) entry entries found in
    let here_node =
      eq_text→eq (or_text request.target_node host.agent_node) host.agent_node h.node in
    record {
      target =
          resolve-IsTarget request.restore_mode request.target_vmid backup.vmid target_vmid chosen;
      succeeded = is_success-success backup.status (ground (arith, h.succeeded));
      archive = (filename, has_name, available host backup filename has_name h.at_hand h.intact);
      replaces = λ guest member same.
          let may = h.target guest (guest_exists target_vmid guest guests distinct member same) in
          (may.0, same_type-eq guest.guest_type backup.guest_type may.1, may.2);
      node =
          subst (IsChosen request.target_node host.agent_node) here_node
            (or_text-IsChosen request.target_node host.agent_node);
      room = (
        storage,
        or_text-IsChosen request.target_storage host.default_storage,
        (entries, known, (entry, held.0, eq_text→eq entry.name storage held.1, active, room)),
      );
      idle = h.idle;
    }

-- If a preflight blocks nothing, where no two guests share an id: the backup asked for is in the table; the
-- target is its guest's id, or the id that is asked for where a new one is; it was successful; the host
-- lists its archive, with the recorded digest where both are known, or else the archive is uploaded and
-- not deleted in the remote store; whatever guest, of either type, has the target's id may be overwritten,
-- is of the backup's type, and does not run unless stopping it is asked for; a node that is asked for is the
-- agent's; the storage that is asked for, or the default one, is active on the host, with room for an
-- archive whose size is known and not zero; and no restore was said to be in flight.
pub preflight-IsReady :
    (host : Host) (backups : List SourceBackup) (guests : List Guest) (in_flight : Bool)
    (request : RestoreRequest) (report : PreflightReport)
    → VmidsDistinct guests
    → preflight host backups guests in_flight request ≡ ok report
    → report.blocking ≡ false
    → (backup : SourceBackup) × Member backup backups
      × (backup.id ≡ request.backup_id)
      × IsReady host guests in_flight request backup report.target_vmid
preflight-IsReady host backups guests in_flight request report distinct e free =
    let (backup, found, restorable_here, chosen) =
      preflight-IsRestorable host backups guests in_flight request report e free in
    let held = find-Member (λ b. b.id == request.backup_id) backup backups found in
    (
      backup,
      held.0,
      ground (arith, held.1),
      IsRestorable-IsReady host guests in_flight request backup report.target_vmid distinct chosen
          restorable_here,
    )
