-- ===== src/Retention/Plans.antt =====
-- The classifier of backend/app/services/retention_service.py: which local and remote copies of a
-- guest a pass keeps, skips or would delete. `none` as a result of the loops is the `KeyError` of
-- `ranks[row.id]`. The rows come newest first from the repository.
pub mod Rank
pub mod Local
pub mod Remote
pub mod Removable
pub mod Target
use proxsync.Prelude.{
  ℕ, suc, Bool, true, false, not, ◌&&◌, Option, none, some, List, [], ◌∷◌, ltb, ◌==◌, filter,
  is_some, take, count, if◌then◌else◌,
}
use proxsync.Prelude.Int.{ℤ, pos, pos_part}
use proxsync.Prelude.Text.{Text}
use proxsync.Retention.Types.{
  RetentionBackup, RetentionLocation, local, remote, RetentionAction, kept, deleted_local,
  deleted_remote, skipped, UploadStatus, uploaded, not_required, Blocker,
  blocked_missing_remote_metadata, blocked_upload, Reason, retention_locked, missing_started_at,
  within_keep, beyond_keep, upload_blocker, blocked_replacement, blocked_active_restore,
  remote_deletion_disabled, remote_sync_disabled, invalid_remote_path, PlannedDecision,
  RetentionPolicySnapshot, PolicyBlock, unresolved,
}

upload_blocker_of : UploadStatus → Option Text → Option Blocker
upload_blocker_of not_required path = none
upload_blocker_of uploaded (some path) = none
upload_blocker_of uploaded none = some blocked_missing_remote_metadata
upload_blocker_of status path = some (blocked_upload status)

-- `_local_upload_blocker`
pub local_upload_blocker : RetentionBackup → Option Blocker
unfolding upload_blocker_of
local_upload_blocker backup = upload_blocker_of backup.upload_status backup.remote_path

-- `text.partition(":")`, as the part before, whether there is a colon, and the part after.
partition_colon : Text → Text × Bool × Text
partition_colon [] = ([], false, [])
partition_colon (c ∷ rest) =
    let (before, found, after) = partition_colon rest in
    if c == b':' then ([], true, rest) else (c ∷ before, found, after)

target_of : Text × Bool × Text → Option (Text × Text)
target_of ([], found, path) = none
target_of (c ∷ name, false, path) = none
target_of (c ∷ name, true, path) = some (c ∷ name, path)

remote_target_of : Option Text → Option (Text × Text)
unfolding partition_colon target_of
remote_target_of none = none
remote_target_of (some path) = target_of (partition_colon path)

-- `_remote_target`
pub remote_target : RetentionBackup → Option (Text × Text)
unfolding remote_target_of
remote_target backup = remote_target_of backup.remote_path

size_or_zero : Option ℤ → ℕ
size_or_zero none = 0
size_or_zero (some size) = pos_part size

base_size : RetentionLocation → Option ℤ → Option ℤ → ℕ
unfolding size_or_zero
base_size remote (some size) size_bytes = pos_part size
base_size remote none size_bytes = size_or_zero size_bytes
base_size local remote_size size_bytes = size_or_zero size_bytes

-- `_PlannedDecision(**_base(row, location), action=…, reason=…, would_delete=…)`
pub planned :
    RetentionBackup → RetentionLocation → RetentionAction → Reason → Bool → PlannedDecision
unfolding base_size
planned row location action reason would_delete = record {
  backup = row;
  location = location;
  action = action;
  reason = reason;
  size_bytes = base_size location row.remote_size_bytes row.size_bytes;
  would_delete = would_delete;
}

abbrev pub skip : RetentionBackup → RetentionLocation → Reason → PlannedDecision
skip row location reason = planned row location skipped reason false

-- `_blocked_plans`
pub blocked_plans : List RetentionBackup → RetentionLocation → PolicyBlock → List PlannedDecision
blocked_plans [] location reason = []
blocked_plans (row ∷ rows) location reason =
    skip row location (unresolved reason) ∷ blocked_plans rows location reason

abbrev pub rankable : RetentionBackup → Bool
rankable row = not row.retention_locked && is_some row.started_at

-- `{row.id: index for index, row in enumerate(rows)}`, the pairs in the order of insertion.
pub enumerate : ℕ → List RetentionBackup → List (ℕ × ℕ)
enumerate index [] = []
enumerate index (row ∷ rows) = (row.id, index) ∷ enumerate (suc index) rows

or_else : Option ℕ → Option ℕ → Option ℕ
or_else (some n) other = some n
or_else none other = other

-- `ranks[id]`: of two equal keys the later one counts; `none` is a `KeyError`.
pub rank_of : ℕ → List (ℕ × ℕ) → Option ℕ
unfolding or_else
rank_of id [] = none
rank_of id ((key, index) ∷ ranks) =
    or_else (rank_of id ranks) (if key == id then some index else none)

-- `next((blocker(r) for r in replacements if blocker(r) is not None), None)`
first_or : Option Blocker → Option Blocker → Option Blocker
first_or (some b) other = some b
first_or none other = other

pub replacement_blocker : List RetentionBackup → Option Blocker
unfolding first_or
replacement_blocker [] = none
replacement_blocker (row ∷ rows) = first_or (local_upload_blocker row) (replacement_blocker rows)

-- The rest of the loop's body once the row is old enough: the upload of the candidate itself, that
-- of its replacements, and restores.
local_candidate : RetentionBackup → ℕ → Option Blocker → Option Blocker → Bool → PlannedDecision
local_candidate row keep (some b) replacement active = skip row local (upload_blocker b)
local_candidate row keep none (some b) active = skip row local (blocked_replacement b)
local_candidate row keep none none true = skip row local blocked_active_restore
local_candidate row keep none none false =
    planned row local deleted_local (beyond_keep local keep) true

local_ranked :
    (keep : ℕ) (replacement : Option Blocker) (active : ℕ → Bool) (row : RetentionBackup)
    → Option ℕ
    → Option PlannedDecision
unfolding local_candidate
local_ranked keep replacement active row none = none
local_ranked keep replacement active row (some rank) = some (
    if ltb rank keep
    then planned row local kept (within_keep local keep) false
    else local_candidate row keep (local_upload_blocker row) replacement (active row.id))

abbrev plan_of_row :
    RetentionLocation
    → (Option ℕ → Option PlannedDecision)
    → List (ℕ × ℕ)
    → RetentionBackup
    → Option PlannedDecision
plan_of_row location ranked ranks row =
    if row.retention_locked
    then some (skip row location retention_locked)
    else if is_some row.started_at
    then ranked (rank_of row.id ranks)
    else some (skip row location missing_started_at)

cons_plan : Option PlannedDecision → Option (List PlannedDecision) → Option (List PlannedDecision)
cons_plan (some plan) (some plans) = some (plan ∷ plans)
cons_plan _ _ = none

-- The `for row in rows` of both classifiers, which differ in what they do with a ranked row.
pub plan_loop :
    RetentionLocation
    → (RetentionBackup → Option ℕ → Option PlannedDecision)
    → List (ℕ × ℕ)
    → List RetentionBackup
    → Option (List PlannedDecision)
unfolding cons_plan
plan_loop location ranked ranks [] = some []
plan_loop location ranked ranks (row ∷ rows) =
    cons_plan (plan_of_row location (ranked row) ranks row) (plan_loop location ranked ranks rows)

-- `_local_plans`; `active` is `has_active_restore`.
unfoldable pub local_plans : (ℕ → Bool) → List RetentionBackup → ℕ → Option (List PlannedDecision)
unfolding plan_loop local_ranked enumerate rank_of replacement_blocker
local_plans active rows keep =
    let ranked = filter rankable rows in
    plan_loop local (local_ranked keep (replacement_blocker (take keep ranked)) active)
      (enumerate 0 ranked) rows

remote_candidate :
    RetentionBackup → RetentionPolicySnapshot → Option (Text × Text) → Bool → PlannedDecision
remote_candidate row policy target active =
    if not policy.delete_remote_on_retention
    then skip row remote remote_deletion_disabled
    else if not policy.gdrive_enabled
    then skip row remote remote_sync_disabled
    else if not (is_some target)
    then skip row remote invalid_remote_path
    else if active
    then skip row remote blocked_active_restore
    else planned row remote deleted_remote (beyond_keep remote policy.keep_remote) true

remote_ranked :
    (policy : RetentionPolicySnapshot) (active : ℕ → Bool) (row : RetentionBackup)
    → Option ℕ
    → Option PlannedDecision
unfolding remote_candidate
remote_ranked policy active row none = none
remote_ranked policy active row (some rank) = some (
    if ltb rank policy.keep_remote
    then planned row remote kept (within_keep remote policy.keep_remote) false
    else remote_candidate row policy (remote_target row) (active row.id))

-- `_remote_plans`
unfoldable pub remote_plans :
    (ℕ → Bool) → List RetentionBackup → RetentionPolicySnapshot → Option (List PlannedDecision)
unfolding plan_loop remote_ranked enumerate rank_of
remote_plans active rows policy =
    plan_loop remote (remote_ranked policy active) (enumerate 0 (filter rankable rows)) rows

-- How many copies a classified list would delete.
abbrev pub would_delete_count : Option (List PlannedDecision) → ℕ
would_delete_count none = 0
would_delete_count (some plans) = count (λ p. p.would_delete) plans
