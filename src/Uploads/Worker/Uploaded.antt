-- ===== src/Uploads/Worker/Uploaded.antt =====
-- When a backup becomes marked as uploaded.
use mathlib.Core.Option
use mathlib.Core.Bool.{false≢true}
use proxsync.Prelude.{
  ℕ, ◌≡◌, refl, sym, ap, ◌∙◌, Bool, true, false, Option, none, some, ◌==◌, arith, Bool-cases,
  Option-cases, ◌⊎◌, inl, inr,
}
use proxsync.Prelude.Tables.{get_by-update_by}
use proxsync.Retention.Types.{UploadStatus}
use proxsync.Uploads.Types.{SyncTask, BackupRow}
use proxsync.Uploads.Repository.{is_uploaded, next_ready}
use proxsync.Uploads.Service.{
  State, backup_id, get_task, get_backup, set_task, set_backup, set_upload_status, enqueue_pending,
}
use proxsync.Uploads.Worker.{
  Settings, AgentTask, Input, Stage, idle, claiming, loading, starting, attaching, polling,
  succeeding, failing, handling, stopped, System, status_after_failure, exhausted, fail_row,
  upload_row, verified_row, succeed_row, claim_next, claim_task, backup_of, load, load_task,
  load_backup, load_named, or_now, record_success, success_task, record_failure, failure_task, run,
  advance,
}

abbrev pub uploaded_row : Option BackupRow → Bool
uploaded_row none = false
uploaded_row (some b) = is_uploaded b.upload_status

-- The backup is marked as uploaded.
abbrev pub is_marked : ℕ → State → Bool
is_marked id s = uploaded_row (get_backup id s)

-- A mark that a change of one backup leaves was there before, or the change set it.
pub set_backup-is_marked :
    (id : ℕ) (backup : Option ℕ) (f : BackupRow → BackupRow) (s : State)
    → ((b : BackupRow) → (f b).id ≡ b.id)
    → is_marked id (set_backup backup f s) ≡ true
    → (is_marked id s ≡ true)
      ⊎ ((backup ≡ some id)
          × (b : BackupRow) × (get_backup id s ≡ some b)
          × (is_uploaded (f b).upload_status ≡ true))
unfolding set_backup
set_backup-is_marked id none f s keeps h = inl h
set_backup-is_marked id (some other) f s keeps h = elim (Bool-cases (other == id)) [
  | inr foreign ↦ inl (simp (get_by-update_by backup_id other f id s.backups keeps, foreign) at h)
  | inl same ↦
      let e : other ≡ id = ground arith in
      let changed : uploaded_row (Option.map f (get_backup id s)) ≡ true =
        simp (get_by-update_by backup_id other f id s.backups keeps, same) at h in
      elim (Option-cases (get_backup id s)) [
        | inl absent ↦ absurd (false≢true (simp absent at changed))
        | inr (b, found) ↦ inr (ap (λ j. some j) e, b, found, simp found at changed)
      ]
]

-- Another status than `uploaded` sets no mark.
pub set_upload_status-is_marked :
    (id : ℕ) (backup : Option ℕ) (status : UploadStatus) (s : State)
    → is_uploaded status ≡ false
    → is_marked id (set_backup backup (set_upload_status status) s) ≡ true
    → is_marked id s ≡ true
set_upload_status-is_marked id backup status s other h =
    elim (set_backup-is_marked id backup (set_upload_status status) s (λ b. refl) h) [
      | inl before ↦ before
      | inr (e, b, found, marked) ↦ cc (marked, other)
    ]

failure-is_marked :
    (w : Settings) (now task id : ℕ) (s : State)
    → is_marked id (record_failure w now task s) ≡ true
    → is_marked id s ≡ true
unfolding record_failure failure_task
failure-is_marked w now task id s h = elim (Option-cases (get_task task s)) [
  | inl absent ↦ simp absent at h
  | inr (t, found) ↦
      set_upload_status-is_marked id t.backup_id (status_after_failure t)
        (set_task t.id (fail_row w now) s) (unmarked t) (simp found at h)
]
  where
    unmarked : (t : SyncTask) → is_uploaded (status_after_failure t) ≡ false
    unmarked t = elim (Bool-cases (exhausted t)) [
      | inl spent ↦ simp spent refl
      | inr left ↦ simp left refl
    ]

load-is_marked :
    (now task id : ℕ) (y : System)
    → is_marked id (load now task y).store ≡ true
    → is_marked id y.store ≡ true
unfolding load load_task load_backup load_named
load-is_marked now task id y h = elim (Option-cases (get_task task y.store)) [
  | inl absent ↦ simp absent at h
  | inr (t, found) ↦ elim (Option-cases (backup_of t.backup_id y.store)) [
    | inl gone ↦ simp (found, gone) at h
    | inr (b, kept) ↦ elim (Option-cases b.filename) [
      | inl unnamed ↦ simp (found, kept, unnamed) at h
      | inr (filename, named) ↦
          set_upload_status-is_marked id t.backup_id UploadStatus.uploading y.store refl
            (simp (found, kept, named) at h)
    ]
  ]
]

claim_next-is_marked :
    (now id : ℕ) (y : System)
    → is_marked id (claim_next now y).store ≡ true
    → is_marked id y.store ≡ true
unfolding claim_next claim_task
claim_next-is_marked now id y h = elim (Option-cases (next_ready now y.store.tasks)) [
  | inl nothing ↦ simp nothing at h
  | inr (t, ready) ↦ simp ready at h
]

-- The worker stands where it records the success of a transfer of the backup.
pub record Reports (id : ℕ) (y : System) : Type 0 where
  pub task : ℕ
  pub answer : AgentTask
  pub row : SyncTask
  pub at : y.stage ≡ succeeding task answer
  pub found : get_task task y.store ≡ some row
  pub its_backup : row.backup_id ≡ some id

enqueue_pending-is_marked :
    (i : Input) (w : Settings) (id : ℕ) (s : State)
    → is_marked id (enqueue_pending i.config w.next_id s) ≡ is_marked id s
unfolding enqueue_pending
enqueue_pending-is_marked i w id s = elim (Bool-cases i.config.enabled) [
  | inl on ↦ simp on refl
  | inr off ↦ simp off refl
]

upload_row-id :
    (at : ℕ) (t : SyncTask) (answer : AgentTask) (b : BackupRow)
    → (upload_row at t answer b).id ≡ b.id
unfolding upload_row verified_row
upload_row-id at t answer b = elim (Option-cases answer.verification) [
  | inl nothing ↦ simp nothing refl
  | inr (verification, given) ↦ simp given refl
]

success-is_marked :
    (now task : ℕ) (answer : AgentTask) (id : ℕ) (y : System)
    → y.stage ≡ succeeding task answer
    → is_marked id (record_success now task answer y.store) ≡ true
    → (is_marked id y.store ≡ true) ⊎ Reports id y
unfolding record_success success_task
success-is_marked now task answer id y e h = elim (Option-cases (get_task task y.store)) [
  | inl absent ↦ inl (simp absent at h)
  | inr (t, found) ↦
      let at = or_now answer.finished_at now in
      elim (set_backup-is_marked id t.backup_id (upload_row at t answer)
        (set_task t.id (succeed_row at) y.store) (upload_row-id at t answer) (simp found at h)) [
          | inl before ↦ inl before
          | inr (its, b, held, marked) ↦ inr (record {
            task = task;
            answer = answer;
            row = t;
            at = e;
            found = found;
            its_backup = its;
          })
        ]
]

run-is_marked :
    (w : Settings) (i : Input) (stage : Stage) (id : ℕ) (y : System)
    → y.stage ≡ stage
    → is_marked id (run w i stage y).store ≡ true
    → (is_marked id y.store ≡ true) ⊎ Reports id y
unfolding run
run-is_marked w i idle id y e h = elim (Bool-cases i.stopping) [
  | inl stops ↦ inl (simp stops at h)
  | inr on ↦ inl (sym (enqueue_pending-is_marked i w id y.store) ∙ simp on at h)
]
run-is_marked w i claiming id y e h = inl (claim_next-is_marked i.now id y h)
run-is_marked w i (loading task) id y e h = inl (load-is_marked i.now task id y h)
run-is_marked w i (starting task) id y e h = inl h
run-is_marked w i (attaching task agent_task) id y e h = inl h
run-is_marked w i (polling task since) id y e h = elim (Bool-cases i.stopping) [
  | inl stops ↦ inl (simp stops at h)
  | inr on ↦ inl (simp on at h)
]
run-is_marked w i (succeeding task answer) id y e h = success-is_marked i.now task answer id y e h
run-is_marked w i (failing task) id y e h = inl (failure-is_marked w i.now task id y.store h)
run-is_marked w i (handling task) id y e h = inl (failure-is_marked w i.now task id y.store h)
run-is_marked w i stopped id y e h = inl h

pub advance-is_marked :
    (w : Settings) (i : Input) (id : ℕ) (y : System)
    → is_marked id (advance w i y).store ≡ true
    → (is_marked id y.store ≡ true) ⊎ Reports id y
unfolding advance
advance-is_marked w i id y h = elim (Bool-cases i.crashes) [
  | inl crashes ↦ inl (simp crashes at h)
  | inr calm ↦ run-is_marked w i y.stage id y refl (simp calm at h)
]
