-- ===== src/Restore/Preflight/Complete.antt =====
-- What a report that blocks nothing has established.
use mathlib.Core.Path.{subst}
use proxsync.Prelude.{
  ℕ, zero, suc, ◌≤◌, ◌≡◌, refl, ap, ◌∙◌, Bool, true, false, not, ◌||◌, Option, none, some, List, [],
  ◌∷◌, ◌==◌, find, any, All, some-injective, arith, Bool-cases, Option-cases, inl, inr,
}
use proxsync.Prelude.Text.{Text, eq_text}
use proxsync.Effects.{ok-injective, Result, ok, raised}
use proxsync.Restore.Types.{
  RestoreRequest, SourceBackup, Guest, PreflightCheck, PreflightReport, AgentStorageEntry,
}
use proxsync.Restore.Preflight.{
  Host, RestoreError, restorable, local_artifact, artifact_presence, checksum_check, existing_guest,
  is_running, same_type, or_text, free_space_check, target_free_check, target_type_check,
  target_stopped_check, report_on, preflight_at, preflight_of, preflight, resolve_target_vmid,
  space_on,
}

any-All :
    (checks : List PreflightCheck)
    → any (λ c. not c.ok) checks ≡ false
    → All (λ c. c.ok ≡ true) checks
any-All [] h = tt
any-All (c ∷ checks) h = elim (Bool-cases c.ok) [
  | inl passed ↦ (passed, any-All checks (simp passed at h))
  | inr missed ↦ ground (arith, missed)
]

-- A guest under the target's id may be replaced.
abbrev pub MayReplace : RestoreRequest → SourceBackup → Guest → Type 0
MayReplace request backup guest =
    (request.overwrite_existing ≡ true)
    × (same_type guest.guest_type backup.guest_type ≡ true)
    × (not (is_running guest.status) || request.force_stop ≡ true)

-- The storage is active on the host, with room for the archive where its size is known.
abbrev pub HasRoom : Host → Text → Option ℕ → List AgentStorageEntry → Type 0
HasRoom host storage size entries =
    (entry : AgentStorageEntry) × (find (λ e. eq_text e.name storage) entries ≡ some entry)
    × (entry.active ≡ true)
    × ((known : ℕ) → size ≡ some (suc known) → host.required (suc known) ≤ entry.available_bytes)

checks-MayReplace :
    (request : RestoreRequest) (backup : SourceBackup) (existing : Option Guest) (guest : Guest)
    → existing ≡ some guest
    → (target_free_check existing request.overwrite_existing).0 ≡ true
    → target_type_check existing backup.guest_type ≡ true
    → target_stopped_check existing request.force_stop ≡ true
    → MayReplace request backup guest
unfolding target_free_check target_type_check target_stopped_check
checks-MayReplace request backup none guest same free type stopped = cc
checks-MayReplace request backup (some u) guest same free type stopped =
    subst (MayReplace request backup) (some-injective u guest same)
      (overwrites request.overwrite_existing free, type, stopped)
  where
    overwrites : (b : Bool) → (target_free_check (some u) b).0 ≡ true → b ≡ true
    overwrites true h = refl
    overwrites false h = cc

space_on-HasRoom :
    (host : Host) (entries : List AgentStorageEntry) (storage : Text) (size : Option ℕ)
    → (free_space_check host (some entries) storage size).0 ≡ true
    → HasRoom host storage size entries
unfolding free_space_check space_on
space_on-HasRoom host entries storage size h =
    elim (Option-cases (find (λ e. eq_text e.name storage) entries)) [
      | inl missing ↦ ground (arith, missing, h)
      | inr (entry, found) ↦
          let room = has_room entry size (simp found at h) in (entry, found, room.0, room.1)
    ]
  where
    has_room :
        (entry : AgentStorageEntry) (size : Option ℕ)
        → (space_on host (some entry) size).0 ≡ true
        → (entry.active ≡ true)
          × ((known : ℕ)
              → size ≡ some (suc known)
              → host.required (suc known) ≤ entry.available_bytes)
    has_room entry none h = elim (Bool-cases entry.active) [
      | inl active ↦ (active, λ known e. cc)
      | inr inactive ↦ ground (arith, inactive, h)
    ]
    has_room entry (some zero) h = elim (Bool-cases entry.active) [
      | inl active ↦ (active, λ known e. cc)
      | inr inactive ↦ ground (arith, inactive, h)
    ]
    has_room entry (some (suc size)) h = elim (Bool-cases entry.active) [
      | inl active ↦ (
        active,
        λ known e.
            subst (λ o. host.required o ≤ entry.available_bytes)
              (some-injective (suc size) (suc known) e) (ground (arith, active, h)),
      )
      | inr inactive ↦ ground (arith, inactive, h)
    ]

storages-HasRoom :
    (host : Host) (entries : Option (List AgentStorageEntry)) (storage : Text) (size : Option ℕ)
    → (free_space_check host entries storage size).0 ≡ true
    → (known : List AgentStorageEntry) × (entries ≡ some known) × HasRoom host storage size known
unfolding free_space_check
storages-HasRoom host none storage size h = cc
storages-HasRoom host (some entries) storage size h =
    (entries, refl, space_on-HasRoom host entries storage size h)

-- What a report that blocks nothing stands for.
pub record IsRestorable (host : Host) (guests : List Guest) (in_flight : Bool)
    (request : RestoreRequest) (backup : SourceBackup) (target_vmid : ℕ) : Type 0 where
  pub succeeded : restorable backup ≡ true
  pub at_hand : (artifact_presence backup (local_artifact host backup)).1 ≡ true
  pub intact :
      (checksum_check host backup.checksum_sha256
        (artifact_presence backup (local_artifact host backup)).0
        (local_artifact host backup)).0
      ≡ true
  pub target :
      (guest : Guest)
      → existing_guest target_vmid guests ≡ some guest
      → MayReplace request backup guest
  pub node : eq_text (or_text request.target_node host.agent_node) host.agent_node ≡ true
  pub room :
      (entries : List AgentStorageEntry) × (host.storages ≡ some entries)
      × HasRoom host (or_text request.target_storage host.default_storage) backup.size_bytes entries
  pub idle : in_flight ≡ false

pub report_on-IsRestorable :
    (host : Host) (guests : List Guest) (in_flight : Bool) (request : RestoreRequest)
    (backup : SourceBackup) (target_vmid : ℕ)
    → (report_on host guests in_flight request backup target_vmid).blocking ≡ false
    → IsRestorable host guests in_flight request backup target_vmid
unfolding report_on
report_on-IsRestorable host guests in_flight request backup target_vmid h =
    let passed = any-All (report_on host guests in_flight request backup target_vmid).checks h in
    let target_checks = passed.1.1.1 in
    record {
      succeeded = passed.0;
      at_hand = passed.1.0;
      intact = passed.1.1.0;
      target = λ guest found.
          checks-MayReplace request backup (existing_guest target_vmid guests) guest found
            target_checks.0 target_checks.1.0 target_checks.1.1.0;
      node = target_checks.1.1.1.0;
      room =
          storages-HasRoom host host.storages (or_text request.target_storage host.default_storage)
            backup.size_bytes target_checks.1.1.1.1.0;
      idle = ground (arith, target_checks.1.1.1.1.1.0);
    }

abbrev RestorableFrom :
    Host → List Guest → Bool → RestoreRequest → PreflightReport → Option SourceBackup → Type 0
RestorableFrom host guests in_flight request report found =
    (backup : SourceBackup) × (found ≡ some backup)
    × IsRestorable host guests in_flight request backup report.target_vmid
    × (resolve_target_vmid request.restore_mode request.target_vmid backup.vmid
        ≡ ok report.target_vmid)

preflight_of-IsRestorable :
    (host : Host) (guests : List Guest) (in_flight : Bool) (request : RestoreRequest)
    (found : Option SourceBackup) (report : PreflightReport)
    → preflight_of host guests in_flight request found ≡ ok report
    → report.blocking ≡ false
    → RestorableFrom host guests in_flight request report found
unfolding preflight_of preflight_at report_on
preflight_of-IsRestorable host guests in_flight request none report e free = cc
preflight_of-IsRestorable host guests in_flight request (some backup) report e free =
    at (resolve_target_vmid request.restore_mode request.target_vmid backup.vmid) refl e
  where
    at :
        (target : Result RestoreError ℕ)
        → resolve_target_vmid request.restore_mode request.target_vmid backup.vmid ≡ target
        → preflight_at host guests in_flight request backup target ≡ ok report
        → RestorableFrom host guests in_flight request report (some backup)
    at (raised error) chosen h = cc
    at (ok target_vmid) chosen h = (
      backup,
      refl,
      subst (λ vmid. IsRestorable host guests in_flight request backup vmid)
          (ap (λ r. r.target_vmid) (ok-injective _ _ h))
          (report_on-IsRestorable host guests in_flight request backup target_vmid
            (ap (λ r. r.blocking) (ok-injective _ _ h) ∙ free)),
      chosen ∙ ap (λ r. ok r.target_vmid) (ok-injective _ _ h),
    )

-- What a preflight that blocks nothing has checked, by its own lookups.
pub preflight-IsRestorable :
    (host : Host) (backups : List SourceBackup) (guests : List Guest) (in_flight : Bool)
    (request : RestoreRequest) (report : PreflightReport)
    → preflight host backups guests in_flight request ≡ ok report
    → report.blocking ≡ false
    → (backup : SourceBackup) × (find (λ b. b.id == request.backup_id) backups ≡ some backup)
      × IsRestorable host guests in_flight request backup report.target_vmid
      × (resolve_target_vmid request.restore_mode request.target_vmid backup.vmid
          ≡ ok report.target_vmid)
unfolding preflight
preflight-IsRestorable host backups guests in_flight request report e free =
    preflight_of-IsRestorable host guests in_flight request
      (find (λ b. b.id == request.backup_id) backups) report e free
