-- ===== src/Agent/Tasks/Restart.antt =====
-- What the agent answers for a task after a restart.
use mathlib.Core.Option
use proxsync.Prelude.{
  ℕ, ◌-◌, ◌≡◌, refl, sym, ap, ◌∙◌, Bool, true, false, ◌&&◌, Option, none, some, List, [], ◌∷◌, map,
  count, ◌==◌, if◌then◌else◌, arith, Bool-cases, inl, inr,
}
use proxsync.Agent.Tasks.{
  TaskKind, TaskState, queued, running, success, failed, cancelled, interrupted, new_task, Task,
  TaskRegistry, is_unfinished, same_kind, lookup, put, remove, persist, change, set_task, create,
  mark_running, finish, prunable, drop_items, prune, reconcile, load_files, load, active_count,
}

-- An operation of the running agent whose write the disk takes, or a restart.
pub data Step : TaskRegistry → TaskRegistry → Type 0 where
  created :
      {r : TaskRegistry} (id : ℕ) (kind : TaskKind) (now : ℕ) → Step r (create true id kind now r)
  started :
      {r : TaskRegistry} (task : Task) (pid : Option ℕ) (now : ℕ)
      → lookup task.id r.tasks ≡ some task
      → Step r (mark_running true task pid now r)
  finished :
      {r : TaskRegistry} (task : Task) (state : TaskState) (exit_code : Option ℕ) (now : ℕ)
      → lookup task.id r.tasks ≡ some task
      → Step r (finish true task state exit_code now r)
  pruned : {r : TaskRegistry} (retention now : ℕ) → Step r (prune retention now r)
  restarted : {r : TaskRegistry} (now : ℕ) → Step r (load now r)

-- An agent as installed, and what it comes to.
pub data Reachable : TaskRegistry → Type 0 where
  start : Reachable (record { tasks = []; journal = [] })
  next : {r s : TaskRegistry} → Reachable r → Step r s → Reachable s

-- The journal holds what memory holds.
abbrev IsMirrored : TaskRegistry → Type 0
IsMirrored r = (id : ℕ) → lookup id r.journal ≡ lookup id r.tasks

lookup-put :
    (id other : ℕ) (task : Task) (l : List (ℕ × Task))
    → lookup other (put id task l) ≡ (if id == other then some task else lookup other l)
unfolding lookup put
lookup-put id other task [] = ground arith
lookup-put id other task ((key, old) ∷ rest) = ground (arith, lookup-put id other task rest)

lookup-remove :
    (id other : ℕ) (l : List (ℕ × Task))
    → lookup other (remove id l) ≡ (if id == other then none else lookup other l)
unfolding lookup remove
lookup-remove id other [] = ground arith
lookup-remove id other ((key, old) ∷ rest) = ground (arith, lookup-remove id other rest)

lookup-change :
    (other : ℕ) (old task : Task) (l : List (ℕ × Task))
    → lookup task.id l ≡ some old
    → lookup other (change task l) ≡ (if task.id == other then some task else lookup other l)
unfolding lookup change
lookup-change other old task [] held = cc
lookup-change other old task ((key, u) ∷ rest) held =
    ground (arith, lookup-change other old task rest)

lookup-load_files :
    (now id : ℕ) (files : List (ℕ × Task))
    → lookup id (load_files now files) ≡ Option.map (reconcile now) (lookup id files)
unfolding lookup load_files
lookup-load_files now id [] = refl
lookup-load_files now id ((key, task) ∷ files) = ground (
  arith,
  lookup-put key id (reconcile now task) (load_files now files),
  lookup-load_files now id files,
)

lookup-map :
    (now id : ℕ) (files : List (ℕ × Task))
    → lookup id (map (λ (key, task). (key, reconcile now task)) files)
      ≡ Option.map (reconcile now) (lookup id files)
unfolding lookup
lookup-map now id [] = refl
lookup-map now id ((key, task) ∷ files) = ground (arith, lookup-map now id files)

set_task-IsMirrored :
    (r : TaskRegistry) (old task : Task)
    → lookup task.id r.tasks ≡ some old
    → IsMirrored r
    → IsMirrored (set_task true task r)
unfolding set_task persist
set_task-IsMirrored r old task held same other =
    lookup-put task.id other task r.journal
    ∙ ap (λ o. if task.id == other then some task else o) (same other)
    ∙ sym (lookup-change other old task r.tasks held)

drop_items-IsMirrored :
    (cutoff : ℕ) (items : List (ℕ × Task)) (r : TaskRegistry)
    → IsMirrored r
    → IsMirrored (drop_items cutoff items r)
unfolding drop_items
drop_items-IsMirrored cutoff [] r same = same
drop_items-IsMirrored cutoff ((id, task) ∷ items) r same =
    elim (Bool-cases (prunable cutoff task)) [
      | inl old ↦ simp old (
          drop_items-IsMirrored cutoff items
            (record { tasks = remove id r.tasks; journal = remove id r.journal })
            (λ other.
              lookup-remove id other r.journal
              ∙ ap (λ o. if id == other then none else o) (same other)
              ∙ sym (lookup-remove id other r.tasks)))
      | inr young ↦ simp young (drop_items-IsMirrored cutoff items r same)
    ]

after-IsMirrored : (r s : TaskRegistry) → Step r s → IsMirrored r → IsMirrored s
unfolding create persist mark_running finish prune load
after-IsMirrored r s (created id kind now) same = λ other.
    lookup-put id other (new_task id kind now) r.journal
    ∙ ap (λ o. if id == other then some (new_task id kind now) else o) (same other)
    ∙ sym (lookup-put id other (new_task id kind now) r.tasks)
after-IsMirrored r s (started task pid now held) same = set_task-IsMirrored r task _ held same
after-IsMirrored r s (finished task state exit_code now held) same =
    set_task-IsMirrored r task _ held same
after-IsMirrored r s (pruned retention now) same =
    drop_items-IsMirrored (now - retention) r.tasks r same
after-IsMirrored r s (restarted now) same =
    λ other. lookup-map now other r.journal ∙ sym (lookup-load_files now other r.journal)

Reachable-IsMirrored : (r : TaskRegistry) → Reachable r → IsMirrored r
Reachable-IsMirrored r start = λ id. refl
Reachable-IsMirrored r (next {r = before} reached step) =
    after-IsMirrored before r step (Reachable-IsMirrored before reached)

-- Tasks of a kind that are not at an end.
abbrev unfinished : TaskKind → ℕ × Task → Bool
unfinished kind (id, task) = same_kind task.kind kind && is_unfinished task.state

reconcile-finished : (now : ℕ) (task : Task) → is_unfinished (reconcile now task).state ≡ false
unfolding reconcile
reconcile-finished now task = elim (Bool-cases (is_unfinished task.state)) [
  | inl going ↦ simp going refl
  | inr over ↦ simp over refl
]

count-put :
    (kind : TaskKind) (id : ℕ) (task : Task) (l : List (ℕ × Task))
    → is_unfinished task.state ≡ false
    → count (unfinished kind) l ≡ 0
    → count (unfinished kind) (put id task l) ≡ 0
unfolding put
count-put kind id task [] over none_left = ground (arith, over)
count-put kind id task ((key, old) ∷ rest) over none_left =
    ground (arith, over, count-put kind id task rest over)

count-load_files :
    (kind : TaskKind) (now : ℕ) (files : List (ℕ × Task))
    → count (unfinished kind) (load_files now files) ≡ 0
unfolding load_files
count-load_files kind now [] = refl
count-load_files kind now ((id, task) ∷ files) =
    count-put kind id (reconcile now task) (load_files now files) (reconcile-finished now task)
      (count-load_files kind now files)

-- The answer for a task after a restart, by the state that it was in: one that had ended is as it was, one
-- that had not is interrupted at the start.
abbrev answer_in : ℕ → Task → TaskState → Task
answer_in now task queued = record task { state = interrupted; finished_at = some now }
answer_in now task running = record task { state = interrupted; finished_at = some now }
answer_in now task success = task
answer_in now task failed = task
answer_in now task cancelled = task
answer_in now task interrupted = task

-- The answer for an id after a restart, by the answer before it.
abbrev pub answer_after : ℕ → Option Task → Option Task
answer_after now none = none
answer_after now (some task) = some (answer_in now task task.state)

reconcile-answer_in :
    (now : ℕ) (task : Task) (state : TaskState)
    → task.state ≡ state
    → reconcile now task ≡ answer_in now task state
unfolding reconcile
reconcile-answer_in now task queued e = simp e refl
reconcile-answer_in now task running e = simp e refl
reconcile-answer_in now task success e = simp e refl
reconcile-answer_in now task failed e = simp e refl
reconcile-answer_in now task cancelled e = simp e refl
reconcile-answer_in now task interrupted e = simp e refl

map-answer_after :
    (now : ℕ) (found : Option Task) → Option.map (reconcile now) found ≡ answer_after now found
map-answer_after now none = refl
map-answer_after now (some task) = ap (λ t. some t) (reconcile-answer_in now task task.state refl)

-- In every state that the agent reaches by its operations, of which the disk takes each write, and by
-- restarts: a process that starts then knows every task that was known before and no other, one that had
-- succeeded, failed, been cancelled or been interrupted just as it was, and one that was queued or running
-- as interrupted at the start; and it counts no task of any kind as active.
pub load-lookup :
    (r : TaskRegistry) (now : ℕ)
    → Reachable r
    → ((id : ℕ) → lookup id (load now r).tasks ≡ answer_after now (lookup id r.tasks))
      × ((kind : TaskKind) → active_count kind (load now r) ≡ 0)
unfolding load active_count
load-lookup r now reached = (
  λ id.
      lookup-load_files now id r.journal
      ∙ ap (Option.map (reconcile now)) (Reachable-IsMirrored r reached id)
      ∙ map-answer_after now (lookup id r.tasks),
  λ kind. count-load_files kind now r.journal,
)
