-- ===== src/Uploads/System/Sound.antt =====
-- The invariant of the upload queue: routes, worker, crashes and restarts together.
use proxsync.Prelude.{ℕ, ◌≡◌, refl, Bool, some, List, arith, Bool-cases, inl, inr, if◌then◌else◌}
use proxsync.Prelude.Tables.{
  update_by, update_by-KeysDistinct, All-update_by, All-map, map-KeysDistinct,
}
use proxsync.Uploads.Types.{SyncTask, GDriveSettings, AgentVerifyResult}
use proxsync.Uploads.Repository.{is_running}
use proxsync.Uploads.Service.{
  State, task_id, truthy, enqueue_upload, verify_backup, cancel_task, retry_task, cancel_row,
  retry_row,
}
use proxsync.Uploads.Service.Outcomes.{
  enqueue_upload-outcome, verify_backup-outcome, cancel_task-outcome, retry_task-outcome,
}
use proxsync.Uploads.Worker.{Settings, Stage, idle, System, requeue_row, recover}
use proxsync.Uploads.Worker.Sound.{
  TaskOk, IsSound, Sound, set_backup-tasks, attempts_bound, over-TaskOk, queued-TaskOk,
}
use proxsync.Uploads.Worker.Advance.{IsFresh, append-Sound, advance-IsSound}
use proxsync.Uploads.System.{
  Step, enqueued, verified, cancelled, retried, advanced, restarted, with_store, Reachable, start,
  next, elsewhere,
}

-- A route sets one task and leaves the worker where it is.
route-Sound :
    (stage : Stage) (id : ℕ) (f : SyncTask → SyncTask) (tasks : List SyncTask)
    → ((t : SyncTask) → (f t).id ≡ t.id)
    → ((t : SyncTask) → TaskOk stage t → TaskOk stage (f t))
    → Sound stage tasks
    → Sound stage (update_by task_id id f tasks)
route-Sound stage id f tasks keeps changed h = (
  update_by-KeysDistinct task_id id f tasks keeps h.0,
  All-update_by task_id (TaskOk stage) id f tasks h.1 (λ t found. changed t),
)

cancel_task-Sound :
    (stage : Stage) (id now : ℕ) (s : State)
    → Sound stage s.tasks
    → Sound stage (cancel_task id now s).1.tasks
cancel_task-Sound stage id now s h = elim (cancel_task-outcome id now s) [
  | inl (error, same) ↦ simp same h
  | inr (t, found, act, done) ↦
      simp (done, set_backup-tasks (truthy t.backup_id))
        (route-Sound stage id (cancel_row now) s.tasks (λ u. refl)
          (λ u ok. over-TaskOk stage u (cancel_row now u) refl (omega arith) refl refl ok.1) h)
]

retry_task-Sound :
    (stage : Stage) (id : ℕ) (s : State)
    → Sound stage s.tasks
    → Sound stage (retry_task id s).1.tasks
retry_task-Sound stage id s h = elim (retry_task-outcome id s) [
  | inl (error, same) ↦ simp same h
  | inr (t, found, done) ↦
      simp (done, set_backup-tasks (truthy t.backup_id))
        (route-Sound stage id retry_row s.tasks (λ u. refl)
          (λ u ok. queued-TaskOk stage u (retry_row u) refl refl ok.1.0 ok.1) h)
]

enqueue_upload-Sound :
    (stage : Stage) (config : GDriveSettings) (next_id : List SyncTask → ℕ) (id : ℕ) (force : Bool)
    (s : State)
    → IsFresh next_id
    → Sound stage s.tasks
    → Sound stage (enqueue_upload config next_id id force s).1.tasks
enqueue_upload-Sound stage config next_id id force s fresh h =
    elim (enqueue_upload-outcome config next_id id force s) [
      | inl (error, same) ↦ simp same h
      | inr (b, on, found, free, more) ↦
          simp (more, set_backup-tasks (some id))
            (append-Sound stage config next_id id s.tasks fresh h)
    ]

verify_backup-Sound :
    (stage : Stage) (config : GDriveSettings) (id : ℕ) (result : AgentVerifyResult) (now : ℕ)
    (s : State)
    → Sound stage s.tasks
    → Sound stage (verify_backup config id result now s).1.tasks
verify_backup-Sound stage config id result now s h =
    elim (verify_backup-outcome config id result now s) [
      | inl (error, same) ↦ simp same h
      | inr done ↦ simp (done, set_backup-tasks (some id)) h
    ]

requeue : SyncTask → SyncTask
requeue t = if is_running t.status then requeue_row t else t

requeue-id : (t : SyncTask) → (requeue t).id ≡ t.id
unfolding requeue
requeue-id t = ground arith

requeue-TaskOk : (stage : Stage) (t : SyncTask) → TaskOk stage t → TaskOk idle (requeue t)
unfolding requeue
requeue-TaskOk stage t ok = elim (Bool-cases (is_running t.status)) [
  | inl runs ↦
      simp runs
        (queued-TaskOk idle t (requeue_row t) refl refl (omega (arith, attempts_bound t ok.1)) ok.1)
  | inr still ↦ simp still (refl, ok.1)
]

recover-IsSound : (y : System) → IsSound y → IsSound (recover y)
unfolding recover requeue
recover-IsSound y sound = record {
  distinct = map-KeysDistinct task_id requeue y.store.tasks requeue-id sound.distinct;
  each =
      All-map (TaskOk y.stage) (TaskOk idle) requeue y.store.tasks (requeue-TaskOk y.stage)
        sound.each;
  honest = tt;
}

stays :
    (y : System) (store : State)
    → IsSound y
    → Sound y.stage store.tasks
    → IsSound (with_store store y)
stays y store sound h = record { distinct = h.0; each = h.1; honest = sound.honest }

after-IsSound :
    (w : Settings) (y z : System) → IsFresh w.next_id → Step w y z → IsSound y → IsSound z
after-IsSound w y z fresh (enqueued config id force) sound = stays y _ sound (
    enqueue_upload-Sound y.stage config w.next_id id force y.store fresh
      (sound.distinct, sound.each))
after-IsSound w y z fresh (verified config id result now) sound =
    stays y _ sound
      (verify_backup-Sound y.stage config id result now y.store (sound.distinct, sound.each))
after-IsSound w y z fresh (cancelled id now) sound =
    stays y _ sound (cancel_task-Sound y.stage id now y.store (sound.distinct, sound.each))
after-IsSound w y z fresh (retried id) sound =
    stays y _ sound (retry_task-Sound y.stage id y.store (sound.distinct, sound.each))
after-IsSound w y z fresh (advanced i) sound = advance-IsSound w i y fresh sound
after-IsSound w y z fresh restarted sound = recover-IsSound y sound

-- Whatever the routes, the worker, unexpected exceptions, restarts and the rest of the dashboard do in
-- whatever order, where new keys are fresh: the keys of the transfers are distinct; while the worker has not
-- ended, a transfer is running only if the worker is at it, so at most one is; a transfer allows at least
-- one attempt and counts at most one more than it allows, and no more than it allows while it is queued;
-- and the worker is about to record a success only if the agent reported one.
pub Reachable-IsSound : (w : Settings) (y : System) → IsFresh w.next_id → Reachable w y → IsSound y
Reachable-IsSound w y fresh (start backups) = record { distinct = tt; each = tt; honest = tt }
Reachable-IsSound w y fresh (next {y = before} reached step) =
    after-IsSound w before y fresh step (Reachable-IsSound w before fresh reached)
Reachable-IsSound w y fresh (elsewhere {y = before} reached backups) =
    let sound = Reachable-IsSound w before fresh reached in
    stays before _ sound (sound.distinct, sound.each)
