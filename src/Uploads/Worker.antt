-- ===== src/Uploads/Worker.antt =====
-- `SyncWorker` of backend/app/workers/sync_worker.py, cut at its awaits: `advance` runs it from where it
-- stands to the next await. A `Settings` is the part of the configuration that it reads, in whole seconds.
-- Events, notices, log lines and the byte counts of a transfer are left out.
pub mod Retries
pub mod Sound
pub mod Advance
pub mod Uploaded
pub mod Failed
use proxsync.Prelude.{
  ℕ, zero, suc, ◌+◌, ◌-◌, ◌*◌, ◌^◌, min, Bool, true, false, Option, none, some, List, [], ◌∷◌, ◌++◌,
  map, ltb, leb, is_some, if◌then◌else◌,
}
use proxsync.Prelude.Text.{Text, codes}
use proxsync.Prelude.Tables.{get_by, update_by}
use proxsync.Retention.Types.{UploadStatus}
use proxsync.Retention.Plans.Target.{stored_remote_path}
use proxsync.Uploads.Types.{
  SyncStatus, queued, running, success, failed, SyncTask, BackupRow, GDriveSettings,
}
use proxsync.Uploads.Repository.{is_running, next_ready}
use proxsync.Uploads.Service.{
  State, task_id, backup_id, get_task, get_backup, set_task, set_backup, set_upload_status,
  enqueue_pending,
}

pub record Settings : Type 0 where
  pub sync_retry_base_seconds : ℕ
  pub sync_retry_max_seconds : ℕ
  pub agent_unreachable_grace_seconds : ℕ
  -- `random.uniform`, and the key of a new task
  pub uniform : ℕ → ℕ → ℕ
  pub next_id : List SyncTask → ℕ

-- A terminal state of the agent's task is a success or not.
pub data AgentState : Type 0 where
  succeeded ended_otherwise active : AgentState

pub record AgentTask : Type 0 where
  pub state : AgentState
  pub finished_at : Option ℕ
  -- of the verification in the result, where there is one
  pub verification : Option (Option Text × Option ℕ)

pub data StartReply : Type 0 where
  accepted : Text → StartReply
  refused : StartReply

pub data PollReply : Type 0 where
  answered : AgentTask → PollReply
  unanswered : PollReply

pub record Input : Type 0 where
  pub now : ℕ
  pub loop_time : ℕ
  pub stopping : Bool
  pub crashes : Bool
  pub config : GDriveSettings
  pub start_reply : StartReply
  pub poll_reply : PollReply

pub data Stage : Type 0 where
  -- the head of `_loop`, and `_claim_next`
  idle claiming : Stage
  -- `_execute`: `_load`, `start_upload`, `_attach_agent_task` and `_poll`
  loading starting : ℕ → Stage
  attaching : ℕ → Text → Stage
  polling : ℕ → Option ℕ → Stage
  -- `_record_success`, `_record_failure`, and the `_record_failure` of the loop's own handler
  succeeding : ℕ → AgentTask → Stage
  failing handling : ℕ → Stage
  stopped : Stage

pub record System : Type 0 where
  pub store : State
  pub stage : Stage

-- `_retry_delay`
unfoldable pub retry_delay : Settings → ℕ → ℕ
retry_delay w attempt =
    let base = w.sync_retry_base_seconds in
    let ceiling = min w.sync_retry_max_seconds (base * 2 ^ (attempt - 1)) in
    if ltb base ceiling then w.uniform base ceiling else base

first_start : Option ℕ → ℕ → Option ℕ
first_start none now = some now
first_start (some t) now = some t

unfoldable pub claim_row : ℕ → SyncTask → SyncTask
unfolding first_start
claim_row now t = record t {
  status = running;
  attempt = t.attempt + 1;
  next_retry_at = none;
  started_at = first_start t.started_at now;
}

abbrev pub exhausted : SyncTask → Bool
exhausted t = leb t.max_attempts t.attempt

-- What `_record_failure` makes of the task.
unfoldable pub fail_row : Settings → ℕ → SyncTask → SyncTask
unfolding retry_delay
fail_row w now t =
    if exhausted t
    then record t { status = failed; finished_at = some now; next_retry_at = none }
    else record t { status = queued; next_retry_at = some (now + retry_delay w t.attempt) }

-- What `_record_failure` makes of the backup.
abbrev pub status_after_failure : SyncTask → UploadStatus
status_after_failure t = if exhausted t then UploadStatus.failed else UploadStatus.pending

abbrev pub succeed_row : ℕ → SyncTask → SyncTask
succeed_row at t = record t { status = success; finished_at = some at }

or_now : Option ℕ → ℕ → ℕ
or_now none now = now
or_now (some t) now = t

remote_text : Option Text → Text
remote_text none = codes "None"
remote_text (some t) = t

verified_row : Option (Option Text × Option ℕ) → BackupRow → BackupRow
verified_row none b = b
verified_row (some (remote_md5, size)) b = record b {
  remote_checksum = remote_md5;
  remote_size_bytes = size;
}

-- What `_record_success` makes of the backup.
pub upload_row : ℕ → SyncTask → AgentTask → BackupRow → BackupRow
unfolding remote_text verified_row
upload_row at t answer b = verified_row answer.verification (record b {
  upload_status = UploadStatus.uploaded;
  uploaded_at = some at;
  remote_path = some (stored_remote_path (remote_text t.remote_name) (remote_text t.remote_path));
})

abbrev in_stage : Stage → System → System
in_stage stage y = record y { stage = stage }

-- The backup of a task.
backup_of : Option ℕ → State → Option BackupRow
backup_of none s = none
backup_of (some id) s = get_backup id s

abbrev pub abandon_row : ℕ → SyncTask → SyncTask
abandon_row now t = record t { status = failed; finished_at = some now }

claim_task : ℕ → Option SyncTask → System → System
unfolding update_by claim_row
claim_task now none y = in_stage idle y
claim_task now (some t) y = record y {
  store = set_task t.id (claim_row now) y.store;
  stage = loading t.id;
}

-- `_claim_next`
unfoldable pub claim_next : ℕ → System → System
unfolding claim_task next_ready
claim_next now y = claim_task now (next_ready now y.store.tasks) y

load_named : ℕ → SyncTask → BackupRow → Option Text → System → System
unfolding update_by set_backup
load_named now t b none y = record y {
  store = set_task t.id (abandon_row now) y.store;
  stage = idle;
}
load_named now t b (some filename) y = record y {
  store = set_backup t.backup_id (set_upload_status UploadStatus.uploading) y.store;
  stage = starting t.id;
}

load_backup : ℕ → SyncTask → Option BackupRow → System → System
unfolding update_by load_named
load_backup now t none y = record y {
  store = set_task t.id (abandon_row now) y.store;
  stage = idle;
}
load_backup now t (some b) y = load_named now t b b.filename y

load_task : ℕ → Option SyncTask → System → System
unfolding load_backup backup_of
load_task now none y = in_stage idle y
load_task now (some t) y = load_backup now t (backup_of t.backup_id y.store) y

-- `_load`, and what `_execute` makes of it.
unfoldable pub load : ℕ → ℕ → System → System
unfolding load_task
load now id y = load_task now (get_task id y.store) y

-- What `_execute` makes of the answer to `start_upload`.
pub after_start : ℕ → StartReply → Stage
after_start id (accepted task) = attaching id task
after_start id refused = failing id

abbrev pub attach_row : Text → SyncTask → SyncTask
attach_row task t = record t { agent_task_id = some task }

after_answer : ℕ → AgentTask → AgentState → Stage
after_answer id answer succeeded = succeeding id answer
after_answer id answer ended_otherwise = failing id
after_answer id answer active = polling id none

-- `unreachable_since or now`: a time of zero counts as none.
since_or : Option ℕ → ℕ → ℕ
since_or none now = now
since_or (some zero) now = now
since_or (some (suc t)) now = suc t

-- A round of `_poll`, and what `_execute` makes of its end; `_record_failure` follows a lost agent.
pub after_poll : ℕ → ℕ → Option ℕ → ℕ → PollReply → Stage
unfolding after_answer since_or
after_poll grace id since now (answered answer) = after_answer id answer answer.state
after_poll grace id since now unanswered =
    if ltb (since_or since now + grace) now
    then failing id
    else polling id (some (since_or since now))

success_task : ℕ → AgentTask → Option SyncTask → State → State
unfolding update_by set_backup upload_row or_now
success_task now answer none s = s
success_task now answer (some t) s =
    let at = or_now answer.finished_at now in
    set_backup t.backup_id (upload_row at t answer) (set_task t.id (succeed_row at) s)

-- `_record_success`
unfoldable pub record_success : ℕ → ℕ → AgentTask → State → State
unfolding success_task
record_success now id answer s = success_task now answer (get_task id s) s

failure_task : Settings → ℕ → Option SyncTask → State → State
unfolding update_by set_backup fail_row
failure_task w now none s = s
failure_task w now (some t) s =
    set_backup t.backup_id (set_upload_status (status_after_failure t))
      (set_task t.id (fail_row w now) s)

-- `_record_failure`
unfoldable pub record_failure : Settings → ℕ → ℕ → State → State
unfolding failure_task
record_failure w now id s = failure_task w now (get_task id s) s

abbrev closed : State → System → System
closed store y = record y { store = store; stage = idle }

-- One stretch of the worker, if nothing unexpected happens in it.
pub run : Settings → Input → Stage → System → System
unfolding enqueue_pending claim_next load after_start after_poll record_success record_failure
    update_by
run w i idle y =
    if i.stopping
    then in_stage stopped y
    else record y { store = enqueue_pending i.config w.next_id y.store; stage = claiming }
run w i claiming y = claim_next i.now y
run w i (loading id) y = load i.now id y
run w i (starting id) y = in_stage (after_start id i.start_reply) y
run w i (attaching id task) y = record y {
  store = set_task id (attach_row task) y.store;
  stage = polling id none;
}
run w i (polling id since) y =
    if i.stopping
    then in_stage stopped y
    else in_stage (after_poll w.agent_unreachable_grace_seconds id since i.loop_time i.poll_reply) y
run w i (succeeding id answer) y = closed (record_success i.now id answer y.store) y
run w i (failing id) y = closed (record_failure w i.now id y.store) y
run w i (handling id) y = closed (record_failure w i.now id y.store) y
run w i stopped y = in_stage stopped y

-- Where an exception that nothing expects leads: the claim is tried again, a transfer in execution is
-- recorded as failed by the loop's handler, and an exception in that handler ends the worker.
pub crash : Stage → Stage
crash idle = idle
crash claiming = idle
crash (loading id) = handling id
crash (starting id) = handling id
crash (attaching id task) = handling id
crash (polling id since) = handling id
crash (succeeding id answer) = handling id
crash (failing id) = handling id
crash (handling id) = stopped
crash stopped = stopped

-- The worker up to its next await.
unfoldable pub advance : Settings → Input → System → System
unfolding run crash
advance w i y = if i.crashes then in_stage (crash y.stage) y else run w i y.stage y

-- What `recover` makes of a task.
abbrev pub requeue_row : SyncTask → SyncTask
requeue_row t = record t { status = queued; attempt = t.attempt - 1; next_retry_at = none }

-- `recover`, when a new process starts its worker.
unfoldable pub recover : System → System
recover y = record y {
  store = record (y.store) {
    tasks = map (λ t. if is_running t.status then requeue_row t else t) y.store.tasks;
  };
  stage = idle;
}
