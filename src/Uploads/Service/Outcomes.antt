-- ===== src/Uploads/Service/Outcomes.antt =====
-- What the routes of the queue come to.
use mathlib.Core.Bool.{false≢true}
use proxsync.Prelude.{
  ℕ, ◌≡◌, refl, Bool, true, ◌⊎◌, inl, inr, none, some, List, [], ◌∷◌, ◌++◌, is_some, Bool-cases,
  Option-cases,
}
use proxsync.Prelude.Tables.{get_by-key}
use proxsync.Effects.{ok, raised}
use proxsync.Retention.Types.{UploadStatus}
use proxsync.Uploads.Types.{SyncTask, BackupRow, GDriveSettings, AgentVerifyResult}
use proxsync.Uploads.Repository.{is_uploaded, is_active, active_for_backup, awaiting_upload}
use proxsync.Uploads.Service.{
  SyncError, not_found, validation_failed, conflict, backup_id, add_task, apply_verification, State,
  task_id, get_task, get_backup, set_task, set_backup, set_upload_status, truthy, new_task,
  upload_refusal, enqueue_each, enqueue_pending, enqueue_found, enqueue_unless, enqueue_upload,
  verify_found, verify_named, verify_backup, cancel_row, cancel_found, cancel_task, retry_row,
  retry_found, retry_task,
}

-- The tasks that `enqueue_pending` leaves are the old ones with new ones behind them, each of a key that
-- the database had just given.
pub data Added (config : GDriveSettings) (next_id : List SyncTask → ℕ) (tasks : List SyncTask)
    : List SyncTask → Type 0 where
  none_added : Added config next_id tasks tasks
  one_added :
      {after : List SyncTask} (backup : ℕ)
      → Added config next_id tasks after
      → Added config next_id tasks (after ++ new_task config (next_id after) backup ∷ [])

enqueue_each-Added :
    (config : GDriveSettings) (next_id : List SyncTask → ℕ) (tasks after : List SyncTask)
    (backups : List BackupRow)
    → Added config next_id tasks after
    → Added config next_id tasks (enqueue_each config next_id backups after)
unfolding enqueue_each
enqueue_each-Added config next_id tasks after [] h = h
enqueue_each-Added config next_id tasks after (b ∷ backups) h =
    elim (Bool-cases (is_some (active_for_backup b.id after))) [
      | inl held ↦ simp held (enqueue_each-Added config next_id tasks after backups h)
      | inr free ↦ simp free (
          enqueue_each-Added config next_id tasks
            (after ++ new_task config (next_id after) b.id ∷ []) backups (one_added b.id h))
    ]

pub enqueue_pending-Added :
    (config : GDriveSettings) (next_id : List SyncTask → ℕ) (s : State)
    → Added config next_id s.tasks (enqueue_pending config next_id s).tasks
unfolding enqueue_pending
enqueue_pending-Added config next_id s = elim (Bool-cases config.enabled) [
  | inl on ↦
      simp on
        (enqueue_each-Added config next_id s.tasks s.tasks (awaiting_upload s.backups) none_added)
  | inr off ↦ simp off none_added
]

-- `enqueue_upload` is refused and changes nothing, or it adds a task of a backup that passes the checks and
-- marks that backup's upload as pending.
pub enqueue_upload-outcome :
    (config : GDriveSettings) (next_id : List SyncTask → ℕ) (id : ℕ) (force : Bool) (s : State)
    → ((error : SyncError) × (enqueue_upload config next_id id force s ≡ (raised error, s)))
      ⊎ ((b : BackupRow) × (config.enabled ≡ true)
          × (get_backup id s ≡ some b)
          × (upload_refusal force b s.tasks ≡ none)
          × (enqueue_upload config next_id id force s ≡ (
            ok (new_task config (next_id s.tasks) id),
            set_backup
                (some id)
                (set_upload_status UploadStatus.pending)
                (add_task (new_task config (next_id s.tasks) id) s),
          )))
unfolding enqueue_upload enqueue_found enqueue_unless
enqueue_upload-outcome config next_id id force s = elim (Bool-cases config.enabled) [
  | inr off ↦ inl (validation_failed, simp off refl)
  | inl on ↦ elim (Option-cases (get_backup id s)) [
    | inl absent ↦ inl (not_found, simp (on, absent) refl)
    | inr (b, found) ↦ elim (Option-cases (upload_refusal force b s.tasks)) [
      | inr (e, refused) ↦ inl (e, simp (on, found, refused) refl)
      | inl free ↦
          let same : b.id ≡ id = get_by-key backup_id id b s.backups found in
          inr (b, on, found, free, simp (on, found, free) (simp same refl))
    ]
  ]
]

pub apply_verification-id :
    (result : AgentVerifyResult) (now : ℕ) (b : BackupRow)
    → (apply_verification result now b).id ≡ b.id
unfolding apply_verification
apply_verification-id result now b = elim (Bool-cases result.verified) [
  | inl sure ↦ simp sure refl
  | inr unsure ↦ simp unsure refl
]

pub apply_verification-verified :
    (result : AgentVerifyResult) (now : ℕ) (b : BackupRow)
    → is_uploaded (apply_verification result now b).upload_status ≡ true
    → result.verified ≡ true
unfolding apply_verification
apply_verification-verified result now b marked = elim (Bool-cases result.verified) [
  | inl sure ↦ sure
  | inr unsure ↦ elim (Bool-cases (is_uploaded b.upload_status)) [
    | inl was ↦ absurd (false≢true (simp (unsure, was) at marked))
    | inr other ↦ absurd (false≢true (simp (unsure, other) at marked))
  ]
]

-- A verification is refused and changes nothing, or it is applied to the backup.
pub verify_backup-outcome :
    (config : GDriveSettings) (id : ℕ) (result : AgentVerifyResult) (now : ℕ) (s : State)
    → ((error : SyncError) × (verify_backup config id result now s ≡ (raised error, s)))
      ⊎ (verify_backup config id result now s
          ≡ (ok tt, set_backup (some id) (apply_verification result now) s))
unfolding verify_backup verify_found verify_named set_backup
verify_backup-outcome config id result now s = elim (Bool-cases config.enabled) [
  | inr off ↦ inl (validation_failed, simp off refl)
  | inl on ↦ elim (Option-cases (get_backup id s)) [
    | inl absent ↦ inl (not_found, simp (on, absent) refl)
    | inr (b, found) ↦
        let same : b.id ≡ id = get_by-key backup_id id b s.backups found in
        elim (Option-cases b.filename) [
          | inl unnamed ↦ inl (validation_failed, simp (on, found, unnamed) refl)
          | inr (filename, named) ↦ inr (simp (on, found, named, same) refl)
        ]
  ]
]

pub cancel_task-active :
    (id now : ℕ) (s : State) (t : SyncTask)
    → get_task id s ≡ some t
    → is_active t.status ≡ true
    → cancel_task id now s ≡ (
      ok tt,
      set_backup
          (truthy t.backup_id)
          (set_upload_status UploadStatus.failed)
          (set_task id (cancel_row now) s),
    )
unfolding cancel_task cancel_found
cancel_task-active id now s t found act =
    let same : t.id ≡ id = get_by-key task_id id t s.tasks found in simp (found, act, same) refl

-- A cancellation is refused and changes nothing, or it closes an active task and its backup's upload.
pub cancel_task-outcome :
    (id now : ℕ) (s : State)
    → ((error : SyncError) × (cancel_task id now s ≡ (raised error, s)))
      ⊎ ((t : SyncTask) × (get_task id s ≡ some t)
          × (is_active t.status ≡ true)
          × (cancel_task id now s ≡ (
            ok tt,
            set_backup
                (truthy t.backup_id)
                (set_upload_status UploadStatus.failed)
                (set_task id (cancel_row now) s),
          )))
unfolding cancel_task cancel_found
cancel_task-outcome id now s = elim (Option-cases (get_task id s)) [
  | inl absent ↦ inl (not_found, simp absent refl)
  | inr (t, found) ↦ elim (Bool-cases (is_active t.status)) [
    | inr over ↦ inl (conflict, simp (found, over) refl)
    | inl act ↦ inr (t, found, act, cancel_task-active id now s t found act)
  ]
]

pub retry_task-outcome :
    (id : ℕ) (s : State)
    → ((error : SyncError) × (retry_task id s ≡ (raised error, s)))
      ⊎ ((t : SyncTask) × (get_task id s ≡ some t)
          × (retry_task id s ≡ (
            ok tt,
            set_backup
                (truthy t.backup_id)
                (set_upload_status UploadStatus.pending)
                (set_task id retry_row s),
          )))
unfolding retry_task retry_found
retry_task-outcome id s = elim (Option-cases (get_task id s)) [
  | inl absent ↦ inl (not_found, simp absent refl)
  | inr (t, found) ↦
      let same : t.id ≡ id = get_by-key task_id id t s.tasks found in
      inr (t, found, simp (found, same) refl)
]
