-- ===== src/Retention/Examples.antt =====
-- Tests of the classifier and of a pass, and the theorems of retention at concrete inputs.
use mathlib.Core.Option
use proxsync.Prelude.{
  ℕ, ◌+◌, ◌≡◌, refl, Bool, true, false, none, some, List, [], ◌∷◌, map, take, filter, ◌==◌, ◌⊎◌,
  arith,
}
use proxsync.Prelude.Int.{pos}
use proxsync.Prelude.Text.{codes}
use proxsync.Effects.{ok, raised}
use proxsync.Retention.Types.{
  vm, success, uploaded, RetentionSource, RetentionPolicyContext, manual, str, int, PlannedDecision,
  RetentionPolicySnapshot, RetentionDecision, local, deleted_local, beyond_keep,
}
use proxsync.Retention.Policy.{resolve_policy}
use proxsync.Agent.Remotes.{validate_remote_name, build_remote_spec}
use proxsync.Retention.Plans.Target.{stored_remote_path, remote_target-stored_remote_path}
use proxsync.Retention.Plans.{remote_target, rankable, local_plans, remote_plans}
use proxsync.Retention.Plans.Rank.{IdsDistinct}
use proxsync.Retention.Plans.Local.{all_settled, local_flags, local_plans-removable}
use proxsync.Retention.Plans.Remote.{remote_flags, remote_plans-removable}
use proxsync.Retention.Repository.{
  BackupHistory, Database, RetentionEvent, project, local_for_guest, remote_for_guest,
  guest_for_backup, guest_keys, has_active_restore,
}
use proxsync.Retention.Repository.Order.{RowsDistinct}
use proxsync.Retention.Repository.Order.Selection.{
  HasLocalCopy, HasRemoteCopy, IsSelection, guest_rows-IsSelection,
}
use proxsync.Retention.Service.{not_found, policy_of, guest_plans, plans_of, render}
use proxsync.Retention.Service.Total.{plans_of-fails}
use proxsync.Retention.Apply.{World, State, AgentCall, freed, process_candidate, apply}
use proxsync.Retention.Apply.Safety.{IsDue, process_candidate-safe}
use proxsync.Retention.Apply.Audit.{apply-dry_run}

abbrev backup : ℕ → BackupHistory
backup id = record {
  id = id;
  run_id = 1;
  vmid = 101;
  guest_type = vm;
  guest_name = "web";
  filename = some (codes "vzdump-qemu-101.vma.zst");
  size_bytes = some (pos 100);
  remote_size_bytes = none;
  status = success;
  upload_status = uploaded;
  retention_locked = false;
  started_at = some id;
  local_deleted_at = none;
  remote_deleted_at = none;
  remote_path = some (codes "gdrive:proxsync/dump");
}

-- Three uploaded backups of one guest, one to keep at each location.
abbrev pub table : Bool → Database
table dry = record {
  retention = record {
    keep_local = 1;
    keep_remote = 1;
    dry_run = dry;
    storage_warning_percent = 80;
    storage_critical_percent = 90;
  };
  gdrive = record {
    enabled = true;
    remote_name = "gdrive";
    folder = "proxsync/dump";
    delete_remote_on_retention = true;
  };
  history = backup 1 ∷ backup 2 ∷ backup 3 ∷ [];
  restores = [];
  runs = [];
  jobs = [];
  events = [];
}

abbrev rows : List BackupHistory
rows = backup 3 ∷ backup 2 ∷ backup 1 ∷ []

abbrev idle : ℕ → Bool
idle id = false

abbrev policy : RetentionPolicySnapshot
policy = record {
  keep_local = 1;
  keep_remote = 1;
  retention_source = RetentionSource.global;
  policy_resolved = true;
  policy_block_reason = none;
  policy_run_id = none;
  policy_job_id = none;
  dry_run = false;
  storage_warning_percent = 80;
  storage_critical_percent = 90;
  gdrive_enabled = true;
  delete_remote_on_retention = true;
  remote_name = "gdrive";
  remote_folder = "proxsync/dump";
  trigger_backup_id = none;
}

abbrev start : Bool → State
start dry = record { db = table dry; calls = []; commits = 0; notices = [] }

-- The agent frees 100 bytes each time, and nobody else writes.
abbrev pub quiet : World
quiet = record {
  reply = λ calls. freed (pos 100);
  interfere = λ n db. db;
  now = λ n. 1000 + n;
  notifications = true;
}

abbrev pub planned_local : ℕ → PlannedDecision
planned_local id = record {
  backup = project (backup id);
  location = local;
  action = deleted_local;
  reason = beyond_keep local 1;
  size_bytes = 100;
  would_delete = true;
}

distinct : IdsDistinct (map project rows)
distinct = omega arith

table_distinct : RowsDistinct (table false).history
table_distinct = omega arith

local_plans-removable_example :
    Option.map (map (λ p. p.would_delete)) (local_plans idle (map project rows) 1)
    ≡ some (
        local_flags 1
          (all_settled (take 1 (filter rankable (map project rows))))
          idle
          0
          (map project rows))
local_plans-removable_example = local_plans-removable idle (map project rows) 1 distinct

remote_plans-removable_example :
    Option.map (map (λ p. p.would_delete)) (remote_plans idle (map project rows) policy)
    ≡ some (remote_flags policy idle 0 (map project rows))
remote_plans-removable_example = remote_plans-removable policy idle (map project rows) distinct

process_candidate-safe_example :
    let after = (process_candidate quiet none (planned_local 1) (start false)).1.calls in
    (after ≡ []) ⊎ ((call : AgentCall) × (after ≡ call ∷ []) × IsDue none (table false) call)
process_candidate-safe_example = process_candidate-safe quiet none (planned_local 1) (start false)

guest_rows-IsSelection_example :
    ((rows : List BackupHistory) × (local_for_guest (table false) 101 vm ≡ map project rows)
      × IsSelection (HasLocalCopy 101 vm) (table false).history rows)
    × ((rows : List BackupHistory) × (remote_for_guest (table false) 101 vm ≡ map project rows)
        × IsSelection (HasRemoteCopy 101 vm) (table false).history rows)
guest_rows-IsSelection_example = guest_rows-IsSelection (table false) 101 vm

unknown_trigger : plans_of (table false) policy (some 9) ≡ raised not_found
unfolding plans_of guest_for_backup
unknown_trigger = refl

plans_of-fails_example :
    (not_found ≡ not_found)
    × ((id : ℕ) × (some 9 ≡ some id) × (guest_for_backup (table false) id ≡ none))
plans_of-fails_example =
    plans_of-fails (table false) policy table_distinct (some 9) not_found unknown_trigger

-- The pass over the table keeps the newest copy and would delete the two others at both locations.
abbrev dry_policy : RetentionPolicySnapshot
dry_policy = policy_of (table true) none none none none false

dry_plans : (plans : List PlannedDecision) × (plans_of (table true) dry_policy none ≡ ok plans)
unfolding plans_of guest_plans local_plans remote_plans local_for_guest remote_for_guest
    has_active_restore guest_keys policy_of
dry_plans = (_, refl)

apply-dry_run_example :
    ((apply quiet none (start true)).1.calls ≡ [])
    × ((events : List RetentionEvent) × ((apply quiet none (start true)).1.db
          ≡ record (table true) { events = events }))
apply-dry_run_example = apply-dry_run quiet none (start true) dry_plans.0 refl dry_plans.1

-- A run that froze its own counts.
abbrev frozen : RetentionPolicyContext
frozen = record {
  run_id = 1;
  trigger = manual;
  job_id = none;
  options = some (
      ("retention_source", str "job")
      ∷ ("keep_local", int (pos 2))
      ∷ ("keep_remote", int (pos 5))
      ∷ []);
  job_keep_local = none;
  job_keep_remote = none;
}

frozen_source : (resolve_policy (some frozen) 3 4).source ≡ RetentionSource.job
unfolding resolve_policy
frozen_source = refl

abbrev honest_item : RetentionDecision
honest_item = record (render (planned_local 1)) { deleted = true; freed_bytes = 100 }

abbrev is_space : ℕ → Bool
is_space c = c == 32

gdrive_passes : validate_remote_name is_space (codes "gdrive") [] ≡ ok (codes "gdrive")
unfolding validate_remote_name
gdrive_passes = refl

stored_path :
    (project (backup 1)).remote_path
    ≡ some (stored_remote_path (codes "gdrive") (codes "proxsync/dump"))
unfolding stored_remote_path
stored_path = refl

remote_target-stored_remote_path_example :
    (remote_target (project (backup 1)) ≡ some (codes "gdrive", codes "proxsync/dump"))
    × (Option.map
          (λ target. build_remote_spec target.0 target.1 (codes "a.zst"))
          (remote_target (project (backup 1)))
        ≡ some (build_remote_spec (codes "gdrive") (codes "proxsync/dump") (codes "a.zst")))
remote_target-stored_remote_path_example =
    remote_target-stored_remote_path is_space (codes "gdrive") (codes "proxsync/dump")
      (codes "a.zst") [] (project (backup 1)) gdrive_passes stored_path
