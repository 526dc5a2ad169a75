-- ===== src/Uploads/System/Cancelled.antt =====
-- What becomes of a running transfer that is cancelled: `cancel_task` of
-- backend/app/services/sync_service.py, and the worker's next two stretches.
use proxsync.Prelude.{ℕ, ◌≡◌, refl, ap, ◌∙◌, true, false, Option, some}
use proxsync.Retention.Types.{UploadStatus}
use proxsync.Prelude.Backoff.{IsUniform}
use proxsync.Uploads.Types.{SyncTask}
use proxsync.Uploads.Repository.{is_active}
use proxsync.Uploads.Service.{State, get_task, truthy, cancel_task, cancel_row}
use proxsync.Uploads.Service.Outcomes.{cancel_task-active}
use proxsync.Uploads.Worker.{
  Settings, AgentTask, ended_otherwise, answered, Input, polling, System, fail_row, advance,
}
use proxsync.Uploads.Worker.Retries.{Outcome, fail_row-Outcome}
use proxsync.Uploads.System.{with_store}
use proxsync.Uploads.Worker.Failed.{get_task-set_task, get_task-record_failure, polled}

get_task-cancel_task :
    (id now : ℕ) (s : State) (t : SyncTask)
    → get_task id s ≡ some t
    → is_active t.status ≡ true
    → get_task id (cancel_task id now s).1 ≡ some (cancel_row now t)
get_task-cancel_task id now s t found act =
    ap (λ r. get_task id r.1) (cancel_task-active id now s t found act)
    ∙ get_task-set_task id (cancel_row now) (truthy t.backup_id) UploadStatus.failed s t (λ u. refl)
        found

-- A transfer that is cancelled while the worker polls the agent for it does not stay cancelled: when the
-- agent then reports that its task ended without success, the worker's next two stretches leave the
-- transfer as after any failure, which is queued for another attempt where attempts are left, and failed
-- otherwise.
pub cancelled-Outcome :
    (w : Settings) (first second : Input) (id cancelled_at : ℕ) (since : Option ℕ)
    (answer : AgentTask) (y : System) (t : SyncTask)
    → IsUniform w.uniform
    → get_task id y.store ≡ some t
    → is_active t.status ≡ true
    → y.stage ≡ polling id since
    → first.crashes ≡ false
    → first.stopping ≡ false
    → first.poll_reply ≡ answered answer
    → answer.state ≡ ended_otherwise
    → second.crashes ≡ false
    → (u : SyncTask) × (get_task id
          (advance w second
            (advance w first (with_store (cancel_task id cancelled_at y.store).1 y))).store
        ≡ some u)
      × Outcome w second.now (cancel_row cancelled_at t) u
cancelled-Outcome w first second id cancelled_at since answer y t uniform found act at calm on reply
      ended again =
    let z : System = with_store (cancel_task id cancelled_at y.store).1 y in
    (
      fail_row w second.now (cancel_row cancelled_at t),
      ap (λ s. get_task id s.store)
            (polled w first second id since answer z at calm on reply ended again)
          ∙ get_task-record_failure w second.now id z.store (cancel_row cancelled_at t)
              (get_task-cancel_task id cancelled_at y.store t found act),
      fail_row-Outcome w second.now (cancel_row cancelled_at t) uniform,
    )
