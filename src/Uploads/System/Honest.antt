-- ===== src/Uploads/System/Honest.antt =====
-- What can mark a backup as uploaded.
use mathlib.Core.Path.{subst}
use proxsync.Prelude.{ℕ, ◌≡◌, refl, true, some, ◌⊎◌, inl, inr, some-injective}
use proxsync.Retention.Types.{UploadStatus}
use proxsync.Uploads.Types.{GDriveSettings, AgentVerifyResult}
use proxsync.Uploads.Service.{
  State, set_task, truthy, new_task, add_task, verify_backup, cancel_row, retry_row,
  apply_verification,
}
use proxsync.Uploads.Service.Outcomes.{
  enqueue_upload-outcome, verify_backup-outcome, apply_verification-id, apply_verification-verified,
  cancel_task-outcome, retry_task-outcome,
}
use proxsync.Uploads.Worker.{succeeded, Settings, System, recover}
use proxsync.Uploads.Worker.Uploaded.{
  is_marked, set_backup-is_marked, set_upload_status-is_marked, advance-is_marked, Reports,
}
use proxsync.Uploads.Worker.Sound.{IsHonest}
use proxsync.Uploads.Worker.Advance.{IsFresh}
use proxsync.Uploads.System.{
  Step, enqueued, verified, cancelled, retried, advanced, restarted, Reachable,
}
use proxsync.Uploads.System.Sound.{Reachable-IsSound}

-- The worker is about to record that the agent's task for a transfer of the backup succeeded.
pub record IsReported (id : ℕ) (y : System) : Type 0 where
  pub reports : Reports id y
  pub succeeds : reports.answer.state ≡ succeeded

-- A step that may mark the backup as uploaded: its verification, if the agent answered that the copy is
-- there, and the recording of a success that the agent reported.
pub IsEarned : {w : Settings} {y z : System} → ℕ → Step w y z → Type 0
IsEarned id (enqueued config other force) = ⊥
IsEarned id (verified config other result now) = (other ≡ id) × (result.verified ≡ true)
IsEarned id (cancelled task now) = ⊥
IsEarned id (retried task) = ⊥
IsEarned {y = y} id (advanced i) = IsReported id y
IsEarned id restarted = ⊥

verify_backup-is_marked :
    (config : GDriveSettings) (other id now : ℕ) (result : AgentVerifyResult) (s : State)
    → is_marked id (verify_backup config other result now s).1 ≡ true
    → (is_marked id s ≡ true) ⊎ ((other ≡ id) × (result.verified ≡ true))
verify_backup-is_marked config other id now result s h =
    elim (verify_backup-outcome config other result now s) [
      | inl (error, same) ↦ inl (simp same at h)
      | inr done ↦
          elim (set_backup-is_marked id (some other) (apply_verification result now) s
            (apply_verification-id result now) (simp done at h)) [
              | inl before ↦ inl before
              | inr (its, b, found, marked) ↦
                  inr (some-injective other id its, apply_verification-verified result now b marked)
            ]
    ]

recover-backups : (y : System) → (recover y).store.backups ≡ y.store.backups
unfolding recover
recover-backups y = refl

-- Whatever the queue has been through, where new keys are fresh: a backup that is marked as uploaded after
-- a step was so before it, or the step is a verification of this backup that the agent answered with
-- `verified`, or the worker's recording of a transfer of this backup that the agent reported as a success.
pub step-IsEarned :
    (w : Settings) (id : ℕ) (y z : System)
    → IsFresh w.next_id
    → Reachable w y
    → (step : Step w y z) → is_marked id z.store ≡ true
    → (is_marked id y.store ≡ true) ⊎ IsEarned id step
unfolding IsEarned
step-IsEarned w id y z fresh reached (enqueued config other force) h =
    elim (enqueue_upload-outcome config w.next_id other force y.store) [
      | inl (error, same) ↦ inl (simp same at h)
      | inr (b, on, found, free, more) ↦ inl (
          set_upload_status-is_marked id (some other) UploadStatus.pending
            (add_task (new_task config (w.next_id y.store.tasks) other) y.store) refl
            (simp more at h))
    ]
step-IsEarned w id y z fresh reached (verified config other result now) h =
    verify_backup-is_marked config other id now result y.store h
step-IsEarned w id y z fresh reached (cancelled task now) h =
    elim (cancel_task-outcome task now y.store) [
      | inl (error, same) ↦ inl (simp same at h)
      | inr (t, found, act, done) ↦ inl (
          set_upload_status-is_marked id (truthy t.backup_id) UploadStatus.failed
            (set_task task (cancel_row now) y.store) refl (simp done at h))
    ]
step-IsEarned w id y z fresh reached (retried task) h = elim (retry_task-outcome task y.store) [
  | inl (error, same) ↦ inl (simp same at h)
  | inr (t, found, done) ↦ inl (
      set_upload_status-is_marked id (truthy t.backup_id) UploadStatus.pending
        (set_task task retry_row y.store) refl (simp done at h))
]
step-IsEarned w id y z fresh reached (advanced i) h = elim (advance-is_marked w i id y h) [
  | inl before ↦ inl before
  | inr reports ↦
      let sound = Reachable-IsSound w y fresh reached in
      inr (record { reports = reports; succeeds = subst IsHonest reports.at sound.honest })
]
step-IsEarned w id y z fresh reached restarted h = inl (simp (recover-backups y) at h)
