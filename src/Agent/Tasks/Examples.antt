-- ===== src/Agent/Tasks/Examples.antt =====
-- The registry at a concrete input.
use proxsync.Prelude.{ℕ, ◌≡◌, refl, true, some, []}
use proxsync.Agent.Tasks.{
  TaskKind, Task, new_task, TaskRegistry, lookup, create, mark_running, load, active_count,
}
use proxsync.Agent.Tasks.Restart.{start, next, created, started, answer_after, load-lookup}

abbrev asked : TaskRegistry
asked = create true 7 TaskKind.backup 10 (record { tasks = []; journal = [] })

abbrev queued_task : Task
queued_task = new_task 7 TaskKind.backup 10

asked_found : lookup 7 asked.tasks ≡ some queued_task
unfolding create lookup
asked_found = refl

abbrev at_work : TaskRegistry
at_work = mark_running true queued_task (some 321) 11 asked

load-lookup_example :
    ((id : ℕ) → lookup id (load 20 at_work).tasks ≡ answer_after 20 (lookup id at_work.tasks))
    × ((kind : TaskKind) → active_count kind (load 20 at_work) ≡ 0)
load-lookup_example = load-lookup at_work 20 (
    next (next start (created 7 TaskKind.backup 10))
      (started queued_task (some 321) 11 asked_found))
