-- ===== src/Restore/Steps.antt =====
-- The pieces of `RestoreWorker` of backend/app/workers/restore_worker.py between two of its awaits: a
-- `Stage` is where the worker stands, with its local variables, and an `Input` is what the world gives it
-- there: the clocks, the agent's answer, a setting, and whether the worker is being stopped or an exception
-- that nothing expects is raised.
pub mod Follows
use proxsync.Prelude.{
  ℕ, zero, suc, ◌+◌, Bool, true, false, not, ◌&&◌, Option, none, some, List, [], ◌∷◌, ◌++◌, map,
  ltb, ◌==◌, filter, find, is_some, if◌then◌else◌,
}
use proxsync.Prelude.Text.{Text}
use proxsync.Retention.Types.{GuestType, RestoreStatus, running}
use proxsync.Restore.Types.{RestoreSource, local, gdrive, SourceBackup, RestoreRow}
use proxsync.Restore.Repository.{get_row, update_row, next_confirmed, running_rows, expire_pending}

-- `_AGENT_STATE_TO_RESTORE_STATUS`; `active` is every state that is not terminal.
pub data AgentState : Type 0 where
  success failed cancelled interrupted active : AgentState

pub record AgentTask : Type 0 where
  pub state : AgentState
  pub finished_at : Option ℕ

-- The answer to a request to start something.
pub data StartReply : Type 0 where
  accepted : Text → StartReply
  unavailable refused : StartReply

-- The answer to `get_task`; `missing` is a 404.
pub data PollReply : Type 0 where
  answered : AgentTask → PollReply
  missing unanswered : PollReply

pub record Input : Type 0 where
  pub now : ℕ
  pub loop_time : ℕ
  pub stopping : Bool
  pub crashes : Bool
  pub gdrive_enabled : Bool
  pub start_reply : StartReply
  pub poll_reply : PollReply

pub record RestorePlan : Type 0 where
  pub restore_id : ℕ
  pub filename : Text
  pub guest_type : GuestType
  pub target_vmid : ℕ
  pub storage : Text
  pub overwrite : Bool
  pub force_stop : Bool
  pub start_after : Bool
  pub source : RestoreSource
  pub expected_sha256 : Option Text
  pub backup_id : ℕ

pub data Stage : Type 0 where
  -- the head of `_loop`, and `_claim_next`
  idle claiming : Stage
  -- `_execute` before `_load`
  loading : ℕ → Stage
  -- `_download` before it asks the agent, while it polls, and `_mark_local_copy_present`
  fetching : RestorePlan → Stage
  downloading : RestorePlan → Option ℕ → Stage
  marking : RestorePlan → Stage
  -- `start_restore`, `_attach_task` and the polling of `_follow`
  starting : RestorePlan → Stage
  attaching : ℕ → Text → Stage
  following : ℕ → Option ℕ → Stage
  -- `_record_outcome`, `_close`, and the `_close` of the loop's own handler
  recording : ℕ → AgentTask → Stage
  closing : ℕ → RestoreStatus → Stage
  handling : ℕ → Stage
  stopped : Stage

-- What one round of `_poll` comes to.
pub data PollEnd : Type 0 where
  ended : AgentTask → PollEnd
  lost : PollEnd
  again : Option ℕ → PollEnd

is_terminal_task : AgentState → Bool
is_terminal_task active = false
is_terminal_task _ = true

-- `unreachable_since or now`: a time of zero counts as none.
unfoldable pub since_or : Option ℕ → ℕ → ℕ
since_or none now = now
since_or (some zero) now = now
since_or (some (suc t)) now = suc t

-- The body of `_poll`, with the seconds of grace; `lost` closes the restore as interrupted.
unfoldable pub poll : ℕ → Option ℕ → ℕ → PollReply → PollEnd
unfolding is_terminal_task since_or
poll grace since now (answered task) =
    if is_terminal_task task.state then ended task else again none
poll grace since now missing = lost
poll grace since now unanswered =
    if ltb (since_or since now + grace) now then lost else again (some (since_or since now))

abbrev plan_of : RestoreRow → SourceBackup → Text → RestorePlan
plan_of r backup filename = record {
  restore_id = r.id;
  filename = filename;
  guest_type = r.target_type;
  target_vmid = r.target_vmid;
  storage = r.target_storage;
  overwrite = r.overwrite_existing;
  force_stop = r.force_stop;
  start_after = r.start_after_restore;
  source = r.source;
  expected_sha256 = backup.checksum_sha256;
  backup_id = backup.id;
}

-- Whether the archive has to be fetched first.
stage_of_plan : RestorePlan → RestoreSource → Stage
stage_of_plan plan local = starting plan
stage_of_plan plan gdrive = fetching plan

load_named : RestoreRow → SourceBackup → Option Text → Stage
unfolding stage_of_plan
load_named r backup none = closing r.id RestoreStatus.failed
load_named r backup (some filename) = stage_of_plan (plan_of r backup filename) r.source

load_backup : RestoreRow → Option SourceBackup → Stage
unfolding load_named
load_backup r none = closing r.id RestoreStatus.failed
load_backup r (some backup) = load_named r backup backup.filename

-- `_load`, and what `_execute` makes of it.
unfoldable pub load : Option RestoreRow → List SourceBackup → Stage
unfolding load_backup
load none backups = idle
load (some r) backups = load_backup r (find (λ b. b.id == r.backup_id) backups)

unfoldable pub fetch : RestorePlan → Bool → StartReply → Stage
fetch plan false reply = closing plan.restore_id RestoreStatus.failed
fetch plan true (accepted task) = downloading plan none
fetch plan true _ = closing plan.restore_id RestoreStatus.failed

downloaded : RestorePlan → AgentState → Stage
downloaded plan success = marking plan
downloaded plan _ = closing plan.restore_id RestoreStatus.failed

unfoldable pub after_download : RestorePlan → PollEnd → Stage
unfolding downloaded
after_download plan (ended task) = downloaded plan task.state
after_download plan lost = closing plan.restore_id RestoreStatus.interrupted
after_download plan (again since) = downloading plan since

unfoldable pub after_start : RestorePlan → StartReply → Stage
after_start plan (accepted task) = attaching plan.restore_id task
after_start plan unavailable = closing plan.restore_id RestoreStatus.interrupted
after_start plan refused = closing plan.restore_id RestoreStatus.failed

unfoldable pub after_poll : ℕ → PollEnd → Stage
after_poll restore_id (ended task) = recording restore_id task
after_poll restore_id lost = closing restore_id RestoreStatus.interrupted
after_poll restore_id (again since) = following restore_id since

unfoldable pub outcome_status : AgentState → RestoreStatus
outcome_status success = RestoreStatus.success
outcome_status failed = RestoreStatus.failed
outcome_status cancelled = RestoreStatus.cancelled
outcome_status interrupted = RestoreStatus.interrupted
outcome_status active = RestoreStatus.failed

unfoldable pub or_now : Option ℕ → ℕ → ℕ
or_now none now = now
or_now (some t) now = t

-- Where an exception that nothing expects leads: the claim is tried again, a restore in execution is
-- closed by the loop's handler, and an exception in that handler ends the worker.
unfoldable pub crash : Stage → Stage
crash idle = idle
crash claiming = idle
crash (loading restore_id) = handling restore_id
crash (fetching plan) = handling plan.restore_id
crash (downloading plan since) = handling plan.restore_id
crash (marking plan) = handling plan.restore_id
crash (starting plan) = handling plan.restore_id
crash (attaching restore_id task) = handling restore_id
crash (following restore_id since) = handling restore_id
crash (recording restore_id task) = handling restore_id
crash (closing restore_id status) = handling restore_id
crash (handling restore_id) = stopped
crash stopped = stopped
