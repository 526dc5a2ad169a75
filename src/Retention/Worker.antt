-- ===== src/Retention/Worker.antt =====
-- `RetentionWorker` of backend/app/workers/retention_worker.py, cut at its awaits: the triggers that it
-- gathers, its retries and its single lane. A key is a guest's backup or none for the full sweep, and a
-- dictionary is a function from keys. The guard, log lines, error texts and the responses are left out; the
-- pass itself is a parameter of each stretch, as are the queries that find the triggers.
pub mod Triggers
pub mod Retries
pub mod Rounds
mod Examples
use proxsync.Prelude.{
  ℕ, suc, ◌+◌, Bool, true, false, not, ◌&&◌, ◌||◌, Option, none, some, List, [], ◌∷◌, ltb, leb,
  ◌==◌, length, if◌then◌else◌,
}

abbrev pub Key : Type 0
Key = Option ℕ

abbrev pub same_key : Key → Key → Bool
same_key none none = true
same_key none (some id) = false
same_key (some id) none = false
same_key (some id) (some other) = id == other

pub record Queue : Type 0 where
  -- a set, as its list in order
  pub pending_backup_ids : List ℕ
  pub full_sweep_pending : Bool
  pub retry_attempts : Key → Option ℕ
  -- the retries that wait, each with the place of its delay
  pub retry_tasks : Key → Option ℕ
  pub errors : Key → Bool

abbrev pub put {ℓ} : {A : Type ℓ} → Key → A → (Key → A) → Key → A
put key new dict k = if same_key key k then new else dict k

pub add : ℕ → List ℕ → List ℕ
add id [] = id ∷ []
add id (other ∷ ids) =
    let rest = add id ids in
    if id == other then other ∷ ids else if ltb id other then id ∷ other ∷ ids else other ∷ rest

abbrev pub attempts_of : Option ℕ → ℕ
attempts_of none = 0
attempts_of (some n) = n

-- `_cancel_retry_task_only`
abbrev pub cancel_retry_task_only : Key → Queue → Queue
cancel_retry_task_only key q = record q { retry_tasks = put key none q.retry_tasks }

-- `_cancel_retry`
abbrev pub cancel_retry : Key → Queue → Queue
cancel_retry key q =
    cancel_retry_task_only key (record q { retry_attempts = put key none q.retry_attempts })

-- `_cancel_all_retries`
abbrev pub cancel_all_retries : Queue → Queue
cancel_all_retries q = record q { retry_tasks = λ k. none; retry_attempts = λ k. none }

-- `_clear_retry`
abbrev pub clear_retry : Key → Queue → Queue
clear_retry key q = record q {
  retry_attempts = put key none q.retry_attempts;
  errors = put key false q.errors;
  retry_tasks = put key none q.retry_tasks;
}

-- `_set_error`
abbrev pub set_error : Key → Queue → Queue
set_error key q = record q { errors = put key true q.errors }

-- How `notify` and `_retry_after` queue a trigger.
unfoldable pub queue : Key → Queue → Queue
unfolding add
queue none q = record q { full_sweep_pending = true; pending_backup_ids = [] }
queue (some id) q =
    if q.full_sweep_pending
    then q
    else record q { pending_backup_ids = add id q.pending_backup_ids }

-- `notify`
pub notify : Key → Queue → Queue
unfolding queue
notify none q = queue none (cancel_all_retries q)
notify (some id) q = queue (some id) (cancel_retry (some id) q)

schedule_free : List ℕ → Key → ℕ → Queue → Queue
schedule_free retry_delays key attempt q =
    if leb (length retry_delays) attempt then set_error key q else record q {
      retry_attempts = put key (some (attempt + 1)) q.retry_attempts;
      retry_tasks = put key (some attempt) q.retry_tasks;
    }

schedule_with : List ℕ → Key → Option ℕ → Queue → Queue
unfolding schedule_free
schedule_with retry_delays key none q =
    schedule_free retry_delays key (attempts_of (q.retry_attempts key)) q
schedule_with retry_delays key (some waiting) q = q

-- `_schedule_retry`
pub schedule_retry : List ℕ → Key → Queue → Queue
unfolding schedule_with
schedule_retry retry_delays key q = schedule_with retry_delays key (q.retry_tasks key) q

-- `_retry_after`, when the delay of a retry that waits has run out.
fire : Bool → Key → Option ℕ → Queue → Queue
unfolding queue
fire stopping key none q = q
fire stopping key (some waiting) q =
    if stopping then cancel_retry_task_only key q else queue key (cancel_retry_task_only key q)

pub retry_after : Bool → Key → Queue → Queue
unfolding fire
retry_after stopping key q = fire stopping key (q.retry_tasks key) q

-- `max(raw_attempt, self._retry_attempts.get(canonical_id, 0))`
larger : ℕ → ℕ → ℕ
larger a b = if leb a b then b else a

migrate_attempts : Key → Key → Option ℕ → Queue → Queue
unfolding larger
migrate_attempts raw canonical none q = q
migrate_attempts raw canonical (some attempt) q =
    let popped = put raw none q.retry_attempts in
    record q {
      retry_attempts =
          put canonical (some (larger attempt (attempts_of (popped canonical)))) popped;
    }

migrate_error : Key → Key → Queue → Queue
migrate_error raw canonical q =
    if q.errors raw then record q { errors = put canonical true (put raw false q.errors) } else q

-- `_migrate_retry_state`
pub migrate_retry_state : ℕ → ℕ → Queue → Queue
unfolding migrate_attempts migrate_error
migrate_retry_state raw canonical q =
    if raw == canonical
    then q
    else cancel_retry_task_only (some raw) (
        migrate_error (some raw) (some canonical)
          (migrate_attempts (some raw) (some canonical) (q.retry_attempts (some raw)) q))

-- `_finish_attempt`: whether the pass had failures.
pub finish_attempt : List ℕ → Key → Bool → Queue → Queue
unfolding schedule_retry
finish_attempt retry_delays key has_failed q =
    if has_failed then schedule_retry retry_delays key (set_error key q) else clear_retry key q

pub data Stage : Type 0 where
  idle scanning : Stage
  -- the triggers that are left, and the backups that `_run_queued` has processed; a startup sweep
  -- keeps no such set
  lane : Bool → List ℕ → List ℕ → Stage
  applying : Bool → List ℕ → ℕ → List ℕ → Stage
  stopped : Stage

-- What a query or a pass comes to, where an exception is none.
pub record Input : Type 0 where
  pub stopping : Bool
  -- the newest triggers, and the canonical triggers of the backups that have errors
  pub scan : Option (List ℕ × List (ℕ × Option ℕ))
  pub canonical : Option (Option ℕ)
  -- whether the pass had failures
  pub applied : Option Bool

pub record Worker : Type 0 where
  pub waiting : Queue
  pub stage : Stage

pub is_in : ℕ → List ℕ → Bool
is_in id [] = false
is_in id (other ∷ ids) = other == id || is_in id ids

taken : List ℕ → Stage
taken [] = idle
taken (id ∷ ids) = lane false [] (id ∷ ids)

-- The head of `_loop` with `_drain_pending`.
pub drain : Worker → Worker
unfolding taken
drain y = record {
  waiting = record (y.waiting) { full_sweep_pending = false; pending_backup_ids = [] };
  stage = if y.waiting.full_sweep_pending then scanning else taken y.waiting.pending_backup_ids;
}

settle_error : ℕ → Option ℕ → Queue → Queue
unfolding migrate_retry_state
settle_error raw none q = clear_retry (some raw) q
settle_error raw (some canonical) q = migrate_retry_state raw canonical q

settle_errors : List (ℕ × Option ℕ) → Queue → Queue
unfolding settle_error
settle_errors [] q = q
settle_errors ((raw, canonical) ∷ map) q = settle_errors map (settle_error raw canonical q)

-- The scan of `run_startup_sweep`.
after_scan : List ℕ → Option (List ℕ × List (ℕ × Option ℕ)) → Queue → Worker
unfolding settle_errors schedule_retry
after_scan retry_delays none q = record {
  waiting = schedule_retry retry_delays none (set_error none q);
  stage = idle;
}
after_scan retry_delays (some (triggers, error_map)) q = record {
  waiting = settle_errors error_map (clear_retry none q);
  stage = lane true [] triggers;
}

-- What follows `_canonical_trigger`, in a sweep and in `_run_queued`.
after_canonical : List ℕ → Bool → List ℕ → ℕ → List ℕ → Option (Option ℕ) → Queue → Worker
unfolding is_in migrate_retry_state schedule_retry
after_canonical retry_delays sweep processed raw rest none q = record {
  waiting = schedule_retry retry_delays (some raw) (set_error (some raw) q);
  stage = lane sweep processed rest;
}
after_canonical retry_delays sweep processed raw rest (some none) q = record {
  waiting = clear_retry (some raw) q;
  stage = lane sweep processed rest;
}
after_canonical retry_delays sweep processed raw rest (some (some id)) q =
    if sweep
    then record { waiting = migrate_retry_state raw id q; stage = applying true processed id rest }
    else if is_in id processed
    then record { waiting = clear_retry (some raw) q; stage = lane false processed rest }
    else record {
      waiting = cancel_retry_task_only (some id) (migrate_retry_state raw id q);
      stage = applying false (id ∷ processed) id rest;
    }

-- What follows `_apply_one`.
pub after_pass : List ℕ → ℕ → Option Bool → Queue → Queue
unfolding finish_attempt schedule_retry
after_pass retry_delays id none q = schedule_retry retry_delays (some id) (set_error (some id) q)
after_pass retry_delays id (some has_failed) q = finish_attempt retry_delays (some id) has_failed q

-- A stretch of the worker.
pub advance : List ℕ → Input → Stage → Worker → Worker
unfolding drain after_scan after_canonical after_pass
advance retry_delays i idle y = if i.stopping then record y { stage = stopped } else drain y
advance retry_delays i scanning y = after_scan retry_delays i.scan y.waiting
advance retry_delays i (lane sweep processed []) y = record y { stage = idle }
advance retry_delays i (lane sweep processed (raw ∷ rest)) y =
    if not sweep && i.stopping
    then record y { stage = idle }
    else after_canonical retry_delays sweep processed raw rest i.canonical y.waiting
advance retry_delays i (applying sweep processed id rest) y = record {
  waiting = after_pass retry_delays id i.applied y.waiting;
  stage = lane sweep processed rest;
}
advance retry_delays i stopped y = record y { stage = stopped }

-- Triggers that arrive, retries whose delay runs out, and the worker itself.
pub data Step (retry_delays : List ℕ) : Worker → Worker → Type 0 where
  notified :
      {y : Worker} (key : Key) → Step retry_delays y (record y { waiting = notify key y.waiting })
  retried :
      {y : Worker} (stopping : Bool) (key : Key)
      → Step retry_delays y (record y { waiting = retry_after stopping key y.waiting })
  advanced : {y : Worker} (i : Input) → Step retry_delays y (advance retry_delays i y.stage y)
