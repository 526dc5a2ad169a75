-- ===== src/Agent/Tasks.antt =====
-- agent/app/tasks/registry.py and agent/app/tasks/models.py: the tasks in memory and the journal on disk.
-- A task's id, a random UUID, is a number; files are found by the id, so their order does not matter.
-- Progress, results, errors, handles of processes and log lines are left out. A `written` tells whether
-- the disk took the write of a journal file.
pub mod Restart
pub mod Examples
use proxsync.Prelude.{
  ℕ, ◌-◌, Bool, true, false, not, ◌&&◌, ◌||◌, Option, none, some, List, [], ◌∷◌, map, filter, find,
  count, ltb, ◌==◌, if◌then◌else◌,
}

pub data TaskKind : Type 0 where
  backup restore_vm restore_lxc upload download verify : TaskKind

pub data TaskState : Type 0 where
  queued running success failed cancelled interrupted : TaskState

pub record Task : Type 0 where
  pub id : ℕ
  pub kind : TaskKind
  pub state : TaskState
  pub created_at : ℕ
  pub started_at : Option ℕ
  pub finished_at : Option ℕ
  pub pid : Option ℕ
  pub exit_code : Option ℕ

pub record TaskRegistry : Type 0 where
  pub tasks : List (ℕ × Task)
  pub journal : List (ℕ × Task)

abbrev pub is_unfinished : TaskState → Bool
is_unfinished queued = true
is_unfinished running = true
is_unfinished _ = false

abbrev pub same_kind : TaskKind → TaskKind → Bool
same_kind backup backup = true
same_kind restore_vm restore_vm = true
same_kind restore_lxc restore_lxc = true
same_kind upload upload = true
same_kind download download = true
same_kind verify verify = true
same_kind _ _ = false

-- `get` of a dictionary, setting and removing a key
pub lookup : ℕ → List (ℕ × Task) → Option Task
lookup id [] = none
lookup id ((key, task) ∷ rest) =
    let later = lookup id rest in if key == id then some task else later

pub put : ℕ → Task → List (ℕ × Task) → List (ℕ × Task)
put id task [] = (id, task) ∷ []
put id task ((key, old) ∷ rest) =
    let later = put id task rest in if key == id then (id, task) ∷ rest else (key, old) ∷ later

pub remove : ℕ → List (ℕ × Task) → List (ℕ × Task)
remove id [] = []
remove id ((key, task) ∷ rest) =
    let later = remove id rest in if key == id then later else (key, task) ∷ later

-- `_persist`
persist : Bool → Task → List (ℕ × Task) → List (ℕ × Task)
unfolding put
persist written task journal = if written then put task.id task journal else journal

-- A task that memory still holds, as every holder of the object sees it.
pub change : Task → List (ℕ × Task) → List (ℕ × Task)
change task [] = []
change task ((key, old) ∷ rest) =
    let later = change task rest in
    if key == task.id then (key, task) ∷ rest else (key, old) ∷ later

-- What is set on a task, in memory and, by `_persist`, in its file.
set_task : Bool → Task → TaskRegistry → TaskRegistry
unfolding change persist
set_task written task r = record {
  tasks = change task r.tasks;
  journal = persist written task r.journal;
}

abbrev pub new_task : ℕ → TaskKind → ℕ → Task
new_task id kind now = record {
  id = id;
  kind = kind;
  state = queued;
  created_at = now;
  started_at = none;
  finished_at = none;
  pid = none;
  exit_code = none;
}

-- `create`
pub create : Bool → ℕ → TaskKind → ℕ → TaskRegistry → TaskRegistry
unfolding put persist
create written id kind now r = record {
  tasks = put id (new_task id kind now) r.tasks;
  journal = persist written (new_task id kind now) r.journal;
}

first_start : Option ℕ → ℕ → Option ℕ
first_start none now = some now
first_start (some t) now = some t

-- `mark_running`
pub mark_running : Bool → Task → Option ℕ → ℕ → TaskRegistry → TaskRegistry
unfolding set_task first_start
mark_running written task pid now r =
    set_task written
      (record task { state = running; started_at = first_start task.started_at now; pid = pid }) r

-- `finish`
pub finish : Bool → Task → TaskState → Option ℕ → ℕ → TaskRegistry → TaskRegistry
unfolding set_task
finish written task state exit_code now r =
    set_task written
      (record task { state = state; exit_code = exit_code; finished_at = some now; pid = none }) r

reference : Task → ℕ
reference task = elim task.finished_at [ none ↦ task.created_at | some t ↦ t ]

prunable : ℕ → Task → Bool
unfolding reference
prunable cutoff task = not (is_unfinished task.state) && ltb (reference task) cutoff

drop_items : ℕ → List (ℕ × Task) → TaskRegistry → TaskRegistry
unfolding remove prunable
drop_items cutoff [] r = r
drop_items cutoff ((id, task) ∷ items) r = drop_items cutoff items (
    if prunable cutoff task
    then record { tasks = remove id r.tasks; journal = remove id r.journal }
    else r)

-- `prune`; an instant before the first one is cut off at zero.
pub prune : ℕ → ℕ → TaskRegistry → TaskRegistry
unfolding drop_items
prune retention now r = drop_items (now - retention) r.tasks r

-- What `load` makes of a task that a file holds.
pub reconcile : ℕ → Task → Task
reconcile now task =
    if is_unfinished task.state
    then record task { state = interrupted; finished_at = some now }
    else task

load_files : ℕ → List (ℕ × Task) → List (ℕ × Task)
unfolding put reconcile
load_files now [] = []
load_files now ((id, task) ∷ files) = put id (reconcile now task) (load_files now files)

-- `load`, in a process that starts: memory is empty, and every file can be read and written.
pub load : ℕ → TaskRegistry → TaskRegistry
unfolding load_files reconcile
load now r = record {
  tasks = load_files now r.journal;
  journal = map (λ (id, task). (id, reconcile now task)) r.journal;
}

-- `active_count`
pub active_count : TaskKind → TaskRegistry → ℕ
active_count kind r =
    count (λ (id, task). same_kind task.kind kind && is_unfinished task.state) r.tasks
