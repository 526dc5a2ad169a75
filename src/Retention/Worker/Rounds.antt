-- ===== src/Retention/Worker/Rounds.antt =====
-- How often a guest whose passes keep failing is retried.
use proxsync.Prelude.{ℕ, ◌≡◌, Bool, false, none, some, List, [], ◌∷◌, leb, length, if◌then◌else◌}
use proxsync.Retention.Worker.{retry_after, idle, Input, Worker, advance}
use proxsync.Retention.Worker.Retries.{failing}

-- What the worker meets while the passes of a guest fail: its backup is the newest one.
abbrev pub failing_input : ℕ → Bool → Input
failing_input id how = record {
  stopping = false;
  scan = none;
  canonical = some (some id);
  applied = failing how;
}

abbrev pub run_on : List ℕ → Input → Worker → Worker
run_on d i y = advance d i y.stage y

-- Four stretches of the worker, from the head of its loop through a pass and back, and then the delay of the
-- retry, if there is one.
pub round : List ℕ → ℕ → Bool → Worker → Worker
round d id how y =
    let i = failing_input id how in
    let z = run_on d i (run_on d i (run_on d i (run_on d i y))) in
    record z { waiting = retry_after false (some id) z.waiting }

pub rounds : List ℕ → ℕ → List Bool → Worker → Worker
rounds d id [] y = y
rounds d id (how ∷ hows) y = rounds d id hows (round d id how y)

-- At the head of its loop, no retry of the guest waits.
record IsIdle (id : ℕ) (pending : List ℕ) (y : Worker) : Type 0 where
  at : y.stage ≡ idle
  single : y.waiting.full_sweep_pending ≡ false
  queued : y.waiting.pending_backup_ids ≡ pending
  free : y.waiting.retry_tasks (some id) ≡ none

-- The guest is queued again as long as the rounds so far are no more than the delays.
abbrev pub retried : List ℕ → ℕ → ℕ → List ℕ
retried d id n = if leb n (length d) then id ∷ [] else []
