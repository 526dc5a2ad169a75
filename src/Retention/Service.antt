-- ===== src/Retention/Service.antt =====
-- The pure part of `RetentionService` in backend/app/services/retention_service.py: the policy in
-- force, the plans of a pass, how a plan is rendered as a decision, the summary, and the preview.
pub mod Summary
pub mod Sound
pub mod Total
use proxsync.Prelude.{
  ℕ, suc, ◌-◌, ◌+◌, Bool, true, false, not, ◌&&◌, ◌||◌, Option, none, some, List, [], ◌∷◌, ◌++◌,
  ◌==◌, ltb, String, filter, find, count, length, sum_of, take, is_some, if◌then◌else◌,
}
use proxsync.Prelude.Int.{ℤ, pos_part}
use proxsync.Prelude.Text.{Text}
use proxsync.Effects.{
  Result, ok, raised, Action, return, raise, lift, reads, resume, bind_result, ◌>>=◌, ◌>>◌,
}
use proxsync.Retention.Types.{
  GuestType, RetentionAction, deleted_local, skipped, failed, RetentionLocation, local, remote,
  Reason, candidate_copy_no_longer_present, reconciled_missing, delete_failed, PolicyBlock,
  policy_unresolved, Instant, RetentionBackup, RetentionSource, PlannedDecision, PolicyResolution,
  RetentionPolicySnapshot, RetentionDecision, RetentionSummary,
}
use proxsync.Retention.Policy.{resolve_policy}
use proxsync.Retention.Plans.{blocked_plans, local_plans, remote_plans, remote_target}
use proxsync.Retention.Repository.{
  Database, RetentionEvent, local_for_guest, remote_for_guest, guest_for_backup, guest_keys,
  has_active_restore, retention_policy_context, mark_local_deleted, mark_remote_deleted,
  record_event,
}

pub data ServiceError : Type 0 where
  not_found key_error assertion_error index_error : ServiceError

pub record RetentionResponse : Type 0 where
  pub policy : RetentionPolicySnapshot
  pub items : List RetentionDecision
  pub summary : RetentionSummary

unfoldable pub override : {A : Type 0} → Option A → A → A
override none stored = stored
override (some a) stored = a

abbrev global_resolution : ℕ → ℕ → PolicyResolution
global_resolution keep_local keep_remote = record {
  keep_local = keep_local;
  keep_remote = keep_remote;
  source = RetentionSource.global;
  resolved = true;
  block_reason = none;
  run_id = none;
  job_id = none;
}

resolution : Database → ℕ → ℕ → Bool → Option ℕ → PolicyResolution
resolution db keep_local keep_remote true (some backup_id) =
    resolve_policy (retention_policy_context db backup_id) keep_local keep_remote
resolution db keep_local keep_remote use_frozen trigger = global_resolution keep_local keep_remote

-- `_policy`
unfoldable pub policy_of :
    Database → Option ℕ → Option ℕ → Option Bool → Option ℕ → Bool → RetentionPolicySnapshot
unfolding override resolution
policy_of db keep_local keep_remote dry_run trigger use_frozen =
    let resolved =
      resolution db (override keep_local db.retention.keep_local)
        (override keep_remote db.retention.keep_remote) use_frozen trigger in
    record {
      keep_local = resolved.keep_local;
      keep_remote = resolved.keep_remote;
      retention_source = resolved.source;
      policy_resolved = resolved.resolved;
      policy_block_reason = resolved.block_reason;
      policy_run_id = resolved.run_id;
      policy_job_id = resolved.job_id;
      dry_run = override dry_run db.retention.dry_run;
      storage_warning_percent = db.retention.storage_warning_percent;
      storage_critical_percent = db.retention.storage_critical_percent;
      gdrive_enabled = db.gdrive.enabled;
      delete_remote_on_retention = db.gdrive.delete_remote_on_retention;
      remote_name = db.gdrive.remote_name;
      remote_folder = db.gdrive.folder;
      trigger_backup_id = trigger;
    }

abbrev or_key_error : {A : Type 0} → Option A → Result ServiceError A
or_key_error none = raised key_error
or_key_error (some a) = ok a

-- The plans of one guest.
unfoldable pub guest_plans :
    Database → RetentionPolicySnapshot → ℕ × GuestType → Result ServiceError (List PlannedDecision)
guest_plans db policy (vmid, guest_type) =
    let locals = local_for_guest db vmid guest_type in
    let remotes = remote_for_guest db vmid guest_type in
    let reason = override policy.policy_block_reason policy_unresolved in
    if not policy.policy_resolved
    then ok (blocked_plans locals local reason ++ blocked_plans remotes remote reason)
    else bind_result (or_key_error (local_plans (has_active_restore db) locals policy.keep_local))
        λ first.
          bind_result (or_key_error (remote_plans (has_active_restore db) remotes policy))
            λ second. ok (first ++ second)

plans_of_guests :
    Database
    → RetentionPolicySnapshot
    → List (ℕ × GuestType)
    → Result ServiceError (List PlannedDecision)
plans_of_guests db policy [] = ok []
plans_of_guests db policy (guest ∷ guests) =
    bind_result (guest_plans db policy guest)
      λ plans. bind_result (plans_of_guests db policy guests) λ rest. ok (plans ++ rest)

plans_of_trigger :
    Database
    → RetentionPolicySnapshot
    → Option (ℕ × GuestType)
    → Result ServiceError (List PlannedDecision)
plans_of_trigger db policy none = raised not_found
plans_of_trigger db policy (some guest) = plans_of_guests db policy (guest ∷ [])

-- `_plans`
unfoldable pub plans_of :
    Database → RetentionPolicySnapshot → Option ℕ → Result ServiceError (List PlannedDecision)
unfolding plans_of_guests plans_of_trigger
plans_of db policy none = plans_of_guests db policy (guest_keys db)
plans_of db policy (some backup_id) = plans_of_trigger db policy (guest_for_backup db backup_id)

abbrev name_or_empty : Option Text → Text
name_or_empty none = []
name_or_empty (some name) = name

-- `_render` with no override: the decision as it was planned.
unfoldable pub render : PlannedDecision → RetentionDecision
render plan = record {
  backup_id = plan.backup.id;
  vmid = plan.backup.vmid;
  guest_type = plan.backup.guest_type;
  guest_name = plan.backup.guest_name;
  filename = name_or_empty plan.backup.filename;
  location = plan.location;
  action = plan.action;
  reason = plan.reason;
  size_bytes = plan.size_bytes;
  would_delete = plan.would_delete;
  deleted = false;
  reconciled = false;
  freed_bytes = 0;
  error = none;
}

-- What is left of the 255 characters behind `delete_local_failed:` or `delete_remote_failed:`.
abbrev detail_room : RetentionLocation → ℕ
detail_room local = 255 - 20
detail_room remote = 255 - 21

-- `_failed`
unfoldable pub render_failed : PlannedDecision → Text → RetentionDecision
unfolding render
render_failed plan message =
    let detail = take 500 message in
    record (render plan) {
      action = failed;
      reason = delete_failed plan.location (take (detail_room plan.location) detail);
      error = some detail;
    }

-- `_summarise`
abbrev is_local : RetentionLocation → Bool
is_local local = true
is_local remote = false

abbrev is_failed : RetentionAction → Bool
is_failed failed = true
is_failed _ = false

abbrev local_candidates : List RetentionDecision → List RetentionDecision
local_candidates items = filter (λ i. is_local i.location && i.would_delete) items

abbrev remote_candidates : List RetentionDecision → List RetentionDecision
remote_candidates items = filter (λ i. not (is_local i.location) && i.would_delete) items

pub summarise : List RetentionDecision → RetentionSummary
summarise items = record {
  evaluated = length items;
  local_delete_count = length (local_candidates items);
  local_delete_bytes = sum_of (λ i. i.size_bytes) (local_candidates items);
  remote_delete_count = length (remote_candidates items);
  remote_delete_bytes = sum_of (λ i. i.size_bytes) (remote_candidates items);
  deleted_local = count (λ i. i.deleted && is_local i.location) items;
  deleted_remote = count (λ i. i.deleted && not (is_local i.location)) items;
  failed = count (λ i. is_failed i.action) items;
}

render_all : List PlannedDecision → List RetentionDecision
render_all [] = []
render_all (plan ∷ plans) = render plan ∷ render_all plans

-- `preview`: the proposed counts and the guest's backup, if given.
pub preview : Database → Option ℕ → Option ℕ → Option ℕ → Result ServiceError RetentionResponse
unfolding policy_of plans_of render_all summarise
preview db keep_local keep_remote backup_id =
    let policy = policy_of db keep_local keep_remote (some true) backup_id false in
    bind_result (plans_of db policy backup_id) λ plans.
      let items = render_all plans in
      ok (record { policy = policy; items = items; summary = summarise items })
