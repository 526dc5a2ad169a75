-- ===== src/Uploads/Worker/Sound.antt =====
-- The invariant of the queue, and how a change of a row or of the place of the worker bears on it.
use proxsync.Prelude.{
  ℕ, ◌+◌, ◌≤◌, ◌≡◌, refl, ap, Bool, true, false, not, ◌||◌, Option, none, some, List, [], ◌∷◌, ◌==◌,
  All, arith, Bool-cases, Option-cases, inl, inr, if◌then◌else◌,
}
use proxsync.Prelude.Tables.{
  get_by, update_by, KeysDistinct, get_by-key, All-settle, All-absent, update_by-KeysDistinct,
}
use proxsync.Uploads.Types.{SyncStatus, queued, SyncTask, BackupRow}
use proxsync.Uploads.Repository.{is_queued, is_running}
use proxsync.Uploads.Service.{State, task_id, get_task, set_backup}
use proxsync.Uploads.Worker.{
  Settings, succeeded, AgentTask, Stage, idle, claiming, loading, starting, attaching, polling,
  succeeding, failing, handling, stopped, System, claim_row, fail_row, exhausted, retry_delay,
  succeed_row, abandon_row, record_success, success_task, record_failure, failure_task, or_now,
}

-- The tasks that may be running while the worker stands there; a worker that has ended says nothing.
abbrev pub may_run : Stage → ℕ → Bool
may_run idle id = false
may_run claiming id = false
may_run (loading task) id = task == id
may_run (starting task) id = task == id
may_run (attaching task agent_task) id = task == id
may_run (polling task since) id = task == id
may_run (succeeding task answer) id = task == id
may_run (failing task) id = task == id
may_run (handling task) id = task == id
may_run stopped id = true

-- What is kept of the attempts of a task, beside its status.
abbrev pub AttemptsOk : SyncTask → Type 0
AttemptsOk t =
    (1 ≤ t.max_attempts) × (t.attempt ≤ t.max_attempts + (if is_queued t.status then 0 else 1))

abbrev pub TaskOk : Stage → SyncTask → Type 0
TaskOk stage t = (not (is_running t.status) || may_run stage t.id ≡ true) × AttemptsOk t

-- The worker records a success only after the agent reported one.
abbrev pub IsHonest : Stage → Type 0
IsHonest (succeeding id answer) = answer.state ≡ succeeded
IsHonest _ = Unit

pub record IsSound (y : System) : Type 0 where
  pub distinct : KeysDistinct task_id y.store.tasks
  pub each : All (TaskOk y.stage) y.store.tasks
  pub honest : IsHonest y.stage

pub set_backup-tasks :
    (backup : Option ℕ) (f : BackupRow → BackupRow) (s : State)
    → (set_backup backup f s).tasks ≡ s.tasks
unfolding set_backup
set_backup-tasks none f s = refl
set_backup-tasks (some id) f s = refl

pub All-imp :
    (P Q : SyncTask → Type 0) (tasks : List SyncTask)
    → ((t : SyncTask) → P t → Q t)
    → All P tasks
    → All Q tasks
All-imp P Q [] k h = tt
All-imp P Q (t ∷ tasks) k h = (k t h.0, All-imp P Q tasks k h.1)

-- The queue as it is, seen from another place of the worker.
abbrev pub Sound : Stage → List SyncTask → Type 0
Sound stage tasks = KeysDistinct task_id tasks × All (TaskOk stage) tasks

pub Sound-move :
    (old new : Stage) (tasks : List SyncTask)
    → ((id : ℕ) → may_run old id ≡ true → may_run new id ≡ true)
    → Sound old tasks
    → Sound new tasks
Sound-move old new tasks more h = (
  h.0,
  All-imp (TaskOk old) (TaskOk new) tasks
      (λ t ok. (
        elim (Bool-cases (is_running t.status)) [
          | inl runs ↦ simp runs (more t.id (simp runs at ok.0))
          | inr still ↦ simp still refl
        ],
        ok.1,
      ))
      h.1,
)

-- A task changes, and the worker moves on.
pub set_task-Sound :
    (old new : Stage) (id : ℕ) (f : SyncTask → SyncTask) (tasks : List SyncTask)
    → ((t : SyncTask) → (f t).id ≡ t.id)
    → ((other : ℕ) → (other == id) ≡ false → may_run old other ≡ true → may_run new other ≡ true)
    → ((t : SyncTask) → get_by task_id id tasks ≡ some t → TaskOk old t → TaskOk new (f t))
    → Sound old tasks
    → Sound new (update_by task_id id f tasks)
set_task-Sound old new id f tasks keeps more changed h = (
  update_by-KeysDistinct task_id id f tasks keeps h.0,
  All-settle task_id (TaskOk old) (TaskOk new) id f tasks h.0 h.1
      (λ t foreign ok. (
        elim (Bool-cases (is_running t.status)) [
          | inl runs ↦ simp runs (more t.id foreign (simp runs at ok.0))
          | inr still ↦ simp still refl
        ],
        ok.1,
      ))
      changed,
)

pub attempts_bound : (t : SyncTask) → AttemptsOk t → t.attempt ≤ t.max_attempts + 1
attempts_bound t ok = ground (arith, ok.1)

-- A task that is neither queued nor running.
pub over-TaskOk :
    (stage : Stage) (t u : SyncTask)
    → is_running u.status ≡ false
    → u.attempt ≤ t.attempt
    → u.max_attempts ≡ t.max_attempts
    → is_queued u.status ≡ false
    → AttemptsOk t
    → TaskOk stage u
over-TaskOk stage t u still attempts limit unqueued ok = (
  ground (arith, still),
  (ground (arith, limit, ok.0), ground (arith, unqueued, attempts, limit, attempts_bound t ok)),
)

-- A task that is queued with attempts left, or with its limit reached but not passed.
pub queued-TaskOk :
    (stage : Stage) (t u : SyncTask)
    → u.status ≡ queued
    → u.max_attempts ≡ t.max_attempts
    → u.attempt ≤ t.max_attempts
    → AttemptsOk t
    → TaskOk stage u
queued-TaskOk stage t u waits limit attempts ok =
    let unstarted : is_running u.status ≡ false = ap (λ s. is_running s) waits in
    let again : is_queued u.status ≡ true = ap (λ s. is_queued s) waits in
    (
      ground (arith, unstarted),
      (ground (arith, limit, ok.0), ground (arith, again, limit, attempts)),
    )

fail_row-TaskOk :
    (w : Settings) (now : ℕ) (stage : Stage) (t : SyncTask)
    → AttemptsOk t
    → TaskOk stage (fail_row w now t)
unfolding fail_row
fail_row-TaskOk w now stage t ok = elim (Bool-cases (exhausted t)) [
  | inl spent ↦ simp spent (
      over-TaskOk stage t
        (record t { status = SyncStatus.failed; finished_at = some now; next_retry_at = none }) refl
        (omega arith) refl refl ok)
  | inr left ↦ simp left (
      queued-TaskOk stage t
        (record t { status = queued; next_retry_at = some (now + retry_delay w t.attempt) }) refl
        refl (ground (arith, left)) ok)
]

pub claim_row-TaskOk :
    (now : ℕ) (stage : Stage) (t : SyncTask)
    → may_run stage t.id ≡ true
    → is_queued t.status ≡ true
    → AttemptsOk t
    → TaskOk stage (claim_row now t)
unfolding claim_row
claim_row-TaskOk now stage t held waits ok = (held, (ok.0, ground (arith, waits, ok.1)))

pub fail_row-id : (w : Settings) (now : ℕ) (t : SyncTask) → (fail_row w now t).id ≡ t.id
unfolding fail_row
fail_row-id w now t = elim (Bool-cases (exhausted t)) [
  | inl spent ↦ simp spent refl
  | inr left ↦ simp left refl
]

-- No other task than this one may be running.
abbrev pub IsAlone : ℕ → Stage → Type 0
IsAlone id stage = (other : ℕ) → (other == id) ≡ false → may_run stage other ≡ false

pub foreign-TaskOk :
    (id : ℕ) (old new : Stage) (t : SyncTask)
    → IsAlone id old
    → (t.id == id) ≡ false
    → TaskOk old t
    → TaskOk new t
foreign-TaskOk id old new t alone foreign ok = (ground (arith, ok.0, alone t.id foreign), ok.1)

-- The worker sets its task and moves on.
pub own-Sound :
    (old new : Stage) (id : ℕ) (f : SyncTask → SyncTask) (tasks : List SyncTask)
    → ((t : SyncTask) → (f t).id ≡ t.id)
    → IsAlone id old
    → ((t : SyncTask) → get_by task_id id tasks ≡ some t → TaskOk old t → TaskOk new (f t))
    → Sound old tasks
    → Sound new (update_by task_id id f tasks)
own-Sound old new id f tasks keeps alone changed h = (
  update_by-KeysDistinct task_id id f tasks keeps h.0,
  All-settle task_id (TaskOk old) (TaskOk new) id f tasks h.0 h.1
      (λ t. foreign-TaskOk id old new t alone) changed,
)

pub absent-Sound :
    (old new : Stage) (id : ℕ) (tasks : List SyncTask)
    → get_by task_id id tasks ≡ none
    → IsAlone id old
    → Sound old tasks
    → Sound new tasks
absent-Sound old new id tasks absent alone h = (
  h.0,
  All-absent task_id (TaskOk old) (TaskOk new) id tasks absent h.1
      (λ t. foreign-TaskOk id old new t alone),
)

pub abandon-Sound :
    (now id : ℕ) (old : Stage) (tasks : List SyncTask)
    → IsAlone id old
    → Sound old tasks
    → Sound idle (update_by task_id id (abandon_row now) tasks)
abandon-Sound now id old tasks alone h =
    own-Sound old idle id (abandon_row now) tasks (λ u. refl) alone
      (λ u e ok. over-TaskOk idle u (abandon_row now u) refl (omega arith) refl refl ok.1) h

module _ (w : Settings) (now id : ℕ) (old : Stage) (alone : IsAlone id old) (s : State)
    (h : Sound old s.tasks) where
  pub fail-Sound : Sound idle (record_failure w now id s).tasks
  unfolding record_failure failure_task
  fail-Sound = elim (Option-cases (get_task id s)) [
    | inl absent ↦ simp absent (absent-Sound old idle id s.tasks absent alone h)
    | inr (t, found) ↦
        let same : t.id ≡ id = get_by-key task_id id t s.tasks found in
        simp (found, set_backup-tasks t.backup_id, same)
          (own-Sound old idle id (fail_row w now) s.tasks (fail_row-id w now) alone
            (λ u e ok. fail_row-TaskOk w now idle u ok.1) h)
  ]

  pub succeed-Sound : (answer : AgentTask) → Sound idle (record_success now id answer s).tasks
  unfolding record_success success_task
  succeed-Sound answer = elim (Option-cases (get_task id s)) [
    | inl absent ↦ simp absent (absent-Sound old idle id s.tasks absent alone h)
    | inr (t, found) ↦
        let same : t.id ≡ id = get_by-key task_id id t s.tasks found in
        simp (found, set_backup-tasks t.backup_id, same)
          (own-Sound old idle id (succeed_row (or_now answer.finished_at now)) s.tasks (λ u. refl)
            alone
            (λ u e ok.
              over-TaskOk idle u (succeed_row (or_now answer.finished_at now) u) refl (omega arith)
                refl refl ok.1)
            h)
  ]
