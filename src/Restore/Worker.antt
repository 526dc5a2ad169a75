-- ===== src/Restore/Worker.antt =====
-- `RestoreWorker` of backend/app/workers/restore_worker.py, cut at its awaits: `advance` runs it from where
-- it stands to the next await. Events, notifications, log lines and messages are left out.
pub mod Safe
pub mod Works
pub mod Closing
pub mod Moves
pub mod Polling
use proxsync.Prelude.{
  ℕ, zero, suc, ◌+◌, Bool, true, false, not, ◌&&◌, Option, none, some, List, [], ◌∷◌, ◌++◌, map,
  ltb, ◌==◌, filter, find, is_some, if◌then◌else◌,
}
use proxsync.Prelude.Text.{Text}
use proxsync.Retention.Types.{GuestType, RestoreStatus, running}
use proxsync.Restore.Types.{RestoreSource, local, gdrive, SourceBackup, RestoreRow}
use proxsync.Restore.Repository.{get_row, update_row, next_confirmed, running_rows, expire_pending}
use proxsync.Restore.Service.{State}
use proxsync.Restore.Steps.{
  AgentState, AgentTask, StartReply, PollReply, Input, RestorePlan, Stage, idle, claiming, loading,
  fetching, downloading, marking, starting, attaching, following, recording, closing, handling,
  stopped, poll, load, fetch, after_download, after_start, after_poll, outcome_status, or_now,
  crash,
}

pub record System : Type 0 where
  pub store : State
  pub stage : Stage
  -- `_resume`: restores that the previous process left to follow
  pub resume : List (ℕ × Text)
  -- the plans of the calls of `start_restore`, newest first
  pub starts : List RestorePlan

abbrev pub in_stage : Stage → System → System
in_stage stage y = record y { stage = stage }

abbrev pub with_rows : List RestoreRow → Stage → System → System
with_rows rows stage y = record y { store = record (y.store) { restores = rows }; stage = stage }

started_or : Option ℕ → ℕ → Option ℕ
started_or none now = some now
started_or (some t) now = some t

unfoldable pub run_row : ℕ → RestoreRow → RestoreRow
unfolding started_or
run_row now r = record r { status = running; started_at = started_or r.started_at now }

claim_row : ℕ → Option RestoreRow → System → System
unfolding update_row
claim_row now none y = in_stage idle y
claim_row now (some r) y =
    with_rows (update_row r.id (run_row now) y.store.restores) (loading r.id) y

claim_from : ℕ → List (ℕ × Text) → System → System
unfolding claim_row next_confirmed
claim_from now [] y = claim_row now (next_confirmed y.store.restores) y
claim_from now ((restore_id, task) ∷ rest) y = record y {
  stage = following restore_id none;
  resume = rest;
}

-- `_claim_next`
pub claim_next : ℕ → System → System
unfolding claim_from
claim_next now y = claim_from now y.resume y

-- `_mark_local_copy_present`
pub mark_present : ℕ → List SourceBackup → List SourceBackup
mark_present id [] = []
mark_present id (b ∷ backups) =
    let rest = mark_present id backups in
    if b.id == id then record b { local_deleted_at = none } ∷ backups else b ∷ rest

abbrev pub attach_row : Text → RestoreRow → RestoreRow
attach_row task r = record r { agent_task_id = some task }

abbrev pub close_row : RestoreStatus → ℕ → RestoreRow → RestoreRow
close_row status now r = record r { status = status; finished_at = some now }

-- `_close`
abbrev close : ℕ → RestoreStatus → ℕ → System → System
unfolding update_row
close restore_id status now y =
    with_rows (update_row restore_id (close_row status now) y.store.restores) idle y

-- One stretch of the worker, if nothing unexpected happens in it.
pub run : ℕ → Input → Stage → System → System
unfolding expire_pending claim_next load fetch after_download after_start after_poll mark_present
    poll update_row outcome_status or_now
run grace i idle y =
    if i.stopping
    then in_stage stopped y
    else with_rows (expire_pending i.now y.store.restores).1 claiming y
run grace i claiming y = claim_next i.now y
run grace i (loading restore_id) y =
    in_stage (load (get_row restore_id y.store.restores) y.store.backups) y
run grace i (fetching plan) y = in_stage (fetch plan i.gdrive_enabled i.start_reply) y
run grace i (downloading plan since) y =
    if i.stopping
    then in_stage stopped y
    else in_stage (after_download plan (poll grace since i.loop_time i.poll_reply)) y
run grace i (marking plan) y = record y {
  store = record (y.store) { backups = mark_present plan.backup_id y.store.backups };
  stage = starting plan;
}
run grace i (starting plan) y = record y {
  stage = after_start plan i.start_reply;
  starts = plan ∷ y.starts;
}
run grace i (attaching restore_id task) y =
    with_rows (update_row restore_id (attach_row task) y.store.restores) (following restore_id none)
      y
run grace i (following restore_id since) y =
    if i.stopping
    then in_stage stopped y
    else in_stage (after_poll restore_id (poll grace since i.loop_time i.poll_reply)) y
run grace i (recording restore_id task) y =
    close restore_id (outcome_status task.state) (or_now task.finished_at i.now) y
run grace i (closing restore_id status) y = close restore_id status i.now y
run grace i (handling restore_id) y = close restore_id RestoreStatus.interrupted i.now y
run grace i stopped y = in_stage stopped y

-- A call of `start_restore` that ends in such an exception is counted as made.
pub crashed : Stage → System → System
unfolding crash
crashed (starting plan) y = record y { stage = handling plan.restore_id; starts = plan ∷ y.starts }
crashed stage y = in_stage (crash stage) y

-- The worker up to its next await.
unfoldable pub advance : ℕ → Input → System → System
unfolding run crashed
advance grace i y = if i.crashes then crashed y.stage y else run grace i y.stage y
