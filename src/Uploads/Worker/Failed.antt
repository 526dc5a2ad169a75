-- ===== src/Uploads/Worker/Failed.antt =====
-- What a transfer that the agent reports as ended without success leaves in the queue.
use mathlib.Core.Path.{subst}
use proxsync.Prelude.{ℕ, ◌≡◌, refl, sym, ap, ◌∙◌, false, Option, some, arith}
use proxsync.Prelude.Tables.{get_by, get_by-key, get_by-update_by}
use proxsync.Retention.Types.{UploadStatus}
use proxsync.Uploads.Types.{SyncTask}
use proxsync.Uploads.Service.{State, task_id, get_task, set_task, set_backup, set_upload_status}
use proxsync.Uploads.Worker.{
  Settings, AgentTask, ended_otherwise, answered, Input, polling, idle, System, fail_row,
  record_failure, failure_task, status_after_failure, advance, run, after_poll, after_answer,
}
use proxsync.Uploads.Worker.Sound.{set_backup-tasks, fail_row-id}

-- A row that a route or the worker sets, beside whatever it makes of the backups.
pub get_task-set_task :
    (id : ℕ) (f : SyncTask → SyncTask) (backup : Option ℕ) (status : UploadStatus) (s : State)
    (t : SyncTask)
    → ((u : SyncTask) → (f u).id ≡ u.id)
    → get_task id s ≡ some t
    → get_task id (set_backup backup (set_upload_status status) (set_task id f s)) ≡ some (f t)
get_task-set_task id f backup status s t keeps found =
    ap (get_by task_id id) (set_backup-tasks backup (set_upload_status status) (set_task id f s))
    ∙ get_by-update_by task_id id f id s.tasks keeps
    ∙ simp found (ground arith)

pub get_task-record_failure :
    (w : Settings) (now id : ℕ) (s : State) (t : SyncTask)
    → get_task id s ≡ some t
    → get_task id (record_failure w now id s) ≡ some (fail_row w now t)
unfolding record_failure failure_task
get_task-record_failure w now id s t found =
    let same : t.id ≡ id = get_by-key task_id id t s.tasks found in
    simp found (
      subst
        (λ key.
          get_task id (
            set_backup t.backup_id (set_upload_status (status_after_failure t))
              (set_task key (fail_row w now) s))
          ≡ some (fail_row w now t))
        (sym same)
        (get_task-set_task id (fail_row w now) t.backup_id (status_after_failure t) s t
          (fail_row-id w now) found))

-- The worker polls the agent for a transfer and nothing unexpected happens: once the agent reports that
-- the transfer ended without success, the worker records a failure and goes back to the queue.
pub polled :
    (w : Settings) (first second : Input) (id : ℕ) (since : Option ℕ) (answer : AgentTask)
    (y : System)
    → y.stage ≡ polling id since
    → first.crashes ≡ false
    → first.stopping ≡ false
    → first.poll_reply ≡ answered answer
    → answer.state ≡ ended_otherwise
    → second.crashes ≡ false
    → advance w second (advance w first y)
      ≡ record { store = record_failure w second.now id y.store; stage = idle }
unfolding advance run after_poll after_answer
polled w first second id since answer y at calm on reply ended again =
    simp (calm, at) (simp (on, reply) (simp (ended, again) refl))
