-- ===== src/Uploads/Worker/Advance.antt =====
-- The invariant under each stretch of the worker.
use mathlib.Core.Path.{subst}
use proxsync.Prelude.{
  ℕ, ◌+◌, ◌≡◌, refl, sym, ◌∙◌, true, Option, none, some, List, [], ◌∷◌, ◌++◌, ◌==◌, ltb, find-some,
  some-injective, arith, Bool-cases, Option-cases, inl, inr,
}
use proxsync.Prelude.Tables.{
  get_by, All-get_by, get_by-key, All-snoc, find-get_by, append-KeysDistinct,
}
use proxsync.Retention.Types.{UploadStatus}
use proxsync.Uploads.Types.{SyncTask, GDriveSettings}
use proxsync.Uploads.Repository.{is_queued, is_ready, next_ready}
use proxsync.Uploads.Service.{
  set_upload_status, State, task_id, get_task, set_task, set_backup, new_task, enqueue_pending,
}
use proxsync.Uploads.Service.Outcomes.{enqueue_pending-Added}
use proxsync.Uploads.Worker.{
  Settings, AgentState, succeeded, ended_otherwise, active, StartReply, accepted, refused,
  PollReply, answered, unanswered, Input, Stage, idle, claiming, loading, starting, attaching,
  polling, succeeding, failing, handling, stopped, System, claim_row, abandon_row, attach_row,
  in_stage, claim_task, claim_next, backup_of, load, load_task, load_backup, load_named,
  after_start, after_answer, after_poll, since_or, record_success, record_failure, run, crash,
  advance,
}
use proxsync.Uploads.Service.Outcomes.{Added, none_added, one_added}
use proxsync.Uploads.Worker.Sound.{
  may_run, TaskOk, IsHonest, IsSound, Sound, set_backup-tasks, Sound-move, claim_row-TaskOk,
  IsAlone, own-Sound, absent-Sound, fail-Sound, succeed-Sound, abandon-Sound,
}

-- Keys that the database hands out are new.
abbrev pub IsFresh : (List SyncTask → ℕ) → Type 0
IsFresh next_id = (tasks : List SyncTask) → get_by task_id (next_id tasks) tasks ≡ none

-- A new task behind the others.
pub append-Sound :
    (stage : Stage) (config : GDriveSettings) (next_id : List SyncTask → ℕ) (backup : ℕ)
    (tasks : List SyncTask)
    → IsFresh next_id
    → Sound stage tasks
    → Sound stage (tasks ++ new_task config (next_id tasks) backup ∷ [])
append-Sound stage config next_id backup tasks fresh h = (
  append-KeysDistinct task_id (new_task config (next_id tasks) backup) tasks (fresh tasks) h.0,
  All-snoc task_id (TaskOk stage) (new_task config (next_id tasks) backup) tasks h.1
      (refl, (omega arith, omega arith)),
)

Added-Sound :
    (stage : Stage) (config : GDriveSettings) (next_id : List SyncTask → ℕ)
    (tasks after : List SyncTask)
    → IsFresh next_id
    → Added config next_id tasks after
    → Sound stage tasks
    → Sound stage after
Added-Sound stage config next_id tasks after fresh none_added h = h
Added-Sound stage config next_id tasks after fresh (one_added {after = before} backup more) h =
    append-Sound stage config next_id backup before fresh
      (Added-Sound stage config next_id tasks before fresh more h)

-- The task that the worker is at.
abbrev IsAt : ℕ → Stage → Type 0
IsAt id stage = (other : ℕ) → may_run stage other ≡ (id == other)

IsAt-IsAlone : (id : ℕ) (stage : Stage) → IsAt id stage → IsAlone id stage
IsAt-IsAlone id stage at other foreign = at other ∙ ground (arith, foreign)

store-IsSound :
    (stage : Stage) (store : State)
    → IsHonest stage
    → Sound stage store.tasks
    → IsSound (record { store = store; stage = stage })
store-IsSound stage store honest h = record { distinct = h.0; each = h.1; honest = honest }

load-IsSound :
    (now id : ℕ) (y : System) → Sound (loading id) y.store.tasks → IsSound (load now id y)
unfolding load load_task load_backup load_named
load-IsSound now id y h =
    let alone : IsAlone id (loading id) = IsAt-IsAlone id (loading id) (λ other. refl) in
    let abandoned =
      store-IsSound idle (set_task id (abandon_row now) y.store) tt
        (abandon-Sound now id (loading id) y.store.tasks alone h) in
    elim (Option-cases (get_task id y.store)) [
      | inl absent ↦ simp absent (
          store-IsSound idle y.store tt
            (absent-Sound (loading id) idle id y.store.tasks absent alone h))
      | inr (t, found) ↦
          let same : t.id ≡ id = get_by-key task_id id t y.store.tasks found in
          elim (Option-cases (backup_of t.backup_id y.store)) [
            | inl gone ↦ simp (found, gone, same) abandoned
            | inr (b, kept) ↦ elim (Option-cases b.filename) [
              | inl unnamed ↦ simp (found, kept, unnamed, same) abandoned
              | inr (filename, named) ↦
                  simp (found, kept, named, same)
                    (store-IsSound (starting id)
                      (set_backup t.backup_id (set_upload_status UploadStatus.uploading) y.store) tt
                      (subst (Sound (starting id))
                        (sym (
                          set_backup-tasks t.backup_id (set_upload_status UploadStatus.uploading)
                            y.store))
                        h))
            ]
          ]
    ]

claim_next-IsSound :
    (now : ℕ) (y : System) → Sound claiming y.store.tasks → IsSound (claim_next now y)
unfolding claim_next claim_task next_ready is_ready claim_row
claim_next-IsSound now y h = elim (Option-cases (next_ready now y.store.tasks)) [
  | inl nothing ↦ simp nothing (store-IsSound idle y.store tt h)
  | inr (t, ready) ↦
      let waits : is_queued t.status ≡ true =
        ground (arith, find-some (is_ready now) t y.store.tasks ready) in
      let found : get_by task_id t.id y.store.tasks ≡ some t =
        find-get_by task_id (is_ready now) t y.store.tasks h.0 ready in
      simp ready (
        store-IsSound (loading t.id) (set_task t.id (claim_row now) y.store) tt (
          own-Sound claiming (loading t.id) t.id (claim_row now) y.store.tasks (λ u. refl)
            (λ other foreign. refl)
            (λ u same ok.
              subst (λ v. TaskOk (loading t.id) (claim_row now v))
                (some-injective t u (sym found ∙ same))
                (claim_row-TaskOk now (loading t.id) t (ground arith) waits
                  (All-get_by task_id (TaskOk claiming) t.id t y.store.tasks h.1 found).1))
            h))
]

after_start-IsSound :
    (id : ℕ) (reply : StartReply) (y : System)
    → Sound (starting id) y.store.tasks
    → IsSound (in_stage (after_start id reply) y)
unfolding after_start
after_start-IsSound id (accepted task) y h = store-IsSound (attaching id task) y.store tt h
after_start-IsSound id refused y h = store-IsSound (failing id) y.store tt h

after_poll-IsSound :
    (grace id : ℕ) (since : Option ℕ) (now : ℕ) (reply : PollReply) (y : System)
    → Sound (polling id since) y.store.tasks
    → IsSound (in_stage (after_poll grace id since now reply) y)
unfolding after_poll after_answer
after_poll-IsSound grace id since now unanswered y h =
    elim (Bool-cases (ltb (since_or since now + grace) now)) [
      | inl late ↦ simp late (store-IsSound (failing id) y.store tt h)
      | inr early ↦ simp early (store-IsSound (polling id (some (since_or since now))) y.store tt h)
    ]
after_poll-IsSound grace id since now (answered answer) y h = at answer.state refl
  where
    at :
        (state : AgentState)
        → answer.state ≡ state
        → IsSound (in_stage (after_answer id answer state) y)
    at succeeded e = store-IsSound (succeeding id answer) y.store e h
    at ended_otherwise e = store-IsSound (failing id) y.store tt h
    at active e = store-IsSound (polling id none) y.store tt h

run-IsSound :
    (w : Settings) (i : Input) (stage : Stage) (y : System)
    → IsFresh w.next_id
    → IsHonest stage
    → Sound stage y.store.tasks
    → IsSound (run w i stage y)
unfolding run
run-IsSound w i idle y fresh honest h = elim (Bool-cases i.stopping) [
  | inl stops ↦
      simp stops (
        store-IsSound stopped y.store tt
          (Sound-move idle stopped y.store.tasks (λ other k. refl) h))
  | inr on ↦ simp on (
      store-IsSound claiming (enqueue_pending i.config w.next_id y.store) tt (
        Added-Sound claiming i.config w.next_id y.store.tasks _ fresh
          (enqueue_pending-Added i.config w.next_id y.store) h))
]
run-IsSound w i claiming y fresh honest h = claim_next-IsSound i.now y h
run-IsSound w i (loading id) y fresh honest h = load-IsSound i.now id y h
run-IsSound w i (starting id) y fresh honest h = after_start-IsSound id i.start_reply y h
run-IsSound w i (attaching id task) y fresh honest h =
    store-IsSound (polling id none) (set_task id (attach_row task) y.store) tt (
      own-Sound (attaching id task) (polling id none) id (attach_row task) y.store.tasks (λ u. refl)
        (IsAt-IsAlone id (attaching id task) (λ other. refl)) (λ u found ok. ok) h)
run-IsSound w i (polling id since) y fresh honest h = elim (Bool-cases i.stopping) [
  | inl stops ↦ simp stops (
      store-IsSound stopped y.store tt
        (Sound-move (polling id since) stopped y.store.tasks (λ other k. refl) h))
  | inr on ↦
      simp on
        (after_poll-IsSound w.agent_unreachable_grace_seconds id since i.loop_time i.poll_reply y h)
]
run-IsSound w i (succeeding id answer) y fresh honest h =
    store-IsSound idle (record_success i.now id answer y.store) tt (
      succeed-Sound w i.now id (succeeding id answer)
        (IsAt-IsAlone id (succeeding id answer) (λ other. refl)) y.store h answer)
run-IsSound w i (failing id) y fresh honest h =
    store-IsSound idle (record_failure w i.now id y.store) tt
      (fail-Sound w i.now id (failing id) (IsAt-IsAlone id (failing id) (λ other. refl)) y.store h)
run-IsSound w i (handling id) y fresh honest h =
    store-IsSound idle (record_failure w i.now id y.store) tt (
      fail-Sound w i.now id (handling id) (IsAt-IsAlone id (handling id) (λ other. refl)) y.store h)
run-IsSound w i stopped y fresh honest h = store-IsSound stopped y.store tt h

crash-IsSound :
    (stage : Stage) (y : System) → Sound stage y.store.tasks → IsSound (in_stage (crash stage) y)
unfolding crash
crash-IsSound idle y h = store-IsSound idle y.store tt h
crash-IsSound claiming y h = store-IsSound idle y.store tt h
crash-IsSound (loading id) y h = store-IsSound (handling id) y.store tt h
crash-IsSound (starting id) y h = store-IsSound (handling id) y.store tt h
crash-IsSound (attaching id task) y h = store-IsSound (handling id) y.store tt h
crash-IsSound (polling id since) y h = store-IsSound (handling id) y.store tt h
crash-IsSound (succeeding id answer) y h = store-IsSound (handling id) y.store tt h
crash-IsSound (failing id) y h = store-IsSound (handling id) y.store tt h
crash-IsSound (handling id) y h =
    store-IsSound stopped y.store tt
      (Sound-move (handling id) stopped y.store.tasks (λ other k. refl) h)
crash-IsSound stopped y h = store-IsSound stopped y.store tt h

-- A stretch of the worker, whatever the world gives it.
pub advance-IsSound :
    (w : Settings) (i : Input) (y : System)
    → IsFresh w.next_id
    → IsSound y
    → IsSound (advance w i y)
unfolding advance
advance-IsSound w i y fresh sound = elim (Bool-cases i.crashes) [
  | inl crashes ↦ simp crashes (crash-IsSound y.stage y (sound.distinct, sound.each))
  | inr calm ↦ simp calm (run-IsSound w i y.stage y fresh sound.honest (sound.distinct, sound.each))
]
