-- ===== src/Retention/Worker/Retries.antt =====
-- What one failing pass leaves in the queue, and what its retry does when its delay runs out.
use proxsync.Prelude.{
  ℕ, ◌+◌, ◌≤◌, ◌<◌, ◌≡◌, refl, ap, ◌∙◌, Bool, true, false, inl, inr, Option, none, some, List, [],
  ◌∷◌, leb, length, arith, Bool-cases,
}
use proxsync.Retention.Worker.Triggers.{triggers, schedule_retry-triggers}
use proxsync.Retention.Worker.{
  Key, same_key, Queue, attempts_of, cancel_retry_task_only, set_error, queue, schedule_retry,
  schedule_with, schedule_free, retry_after, fire, finish_attempt, after_pass, add,
}

-- A pass that raised, or one with failures.
abbrev pub failing : Bool → Option Bool
failing true = none
failing false = some true

pub failed : List ℕ → ℕ → Queue → Queue
failed d id q = schedule_retry d (some id) (set_error (some id) q)

pub after_pass-failing :
    (d : List ℕ) (id : ℕ) (how : Bool) (q : Queue) → after_pass d id (failing how) q ≡ failed d id q
unfolding after_pass finish_attempt failed
after_pass-failing d id true q = refl
after_pass-failing d id false q = refl

pub same_key_refl : (id : ℕ) → same_key (some id) (some id) ≡ true
same_key_refl id = ground arith

pub failed_left :
    (d : List ℕ) (id : ℕ) (q : Queue)
    → q.retry_tasks (some id) ≡ none
    → attempts_of (q.retry_attempts (some id)) < length d
    → (failed d id q).retry_tasks (some id) ≡ some (attempts_of (q.retry_attempts (some id)))
unfolding failed schedule_retry schedule_with schedule_free
failed_left d id q free left =
    let more : leb (length d) (attempts_of (q.retry_attempts (some id))) ≡ false =
      ground (arith, left) in
    simp free (simp more (simp (same_key_refl id) refl))

pub failed_counted :
    (d : List ℕ) (id : ℕ) (q : Queue)
    → q.retry_tasks (some id) ≡ none
    → attempts_of (q.retry_attempts (some id)) < length d
    → attempts_of ((failed d id q).retry_attempts (some id))
      ≡ attempts_of (q.retry_attempts (some id)) + 1
unfolding failed schedule_retry schedule_with schedule_free
failed_counted d id q free left =
    let more : leb (length d) (attempts_of (q.retry_attempts (some id))) ≡ false =
      ground (arith, left) in
    simp free (simp more (simp (same_key_refl id) refl))

pub failed_spent :
    (d : List ℕ) (id : ℕ) (q : Queue)
    → q.retry_tasks (some id) ≡ none
    → length d ≤ attempts_of (q.retry_attempts (some id))
    → ((failed d id q).retry_tasks (some id) ≡ none)
      × ((failed d id q).retry_attempts (some id) ≡ q.retry_attempts (some id))
unfolding failed schedule_retry schedule_with schedule_free
failed_spent d id q free spent =
    let over : leb (length d) (attempts_of (q.retry_attempts (some id))) ≡ true =
      ground (arith, spent) in
    simp free (simp over (free, refl))

-- What the queue is when the pass of a guest starts.
unfoldable pub drained : ℕ → Queue → Queue
drained id q =
    cancel_retry_task_only (some id)
      (record q { full_sweep_pending = false; pending_backup_ids = [] })

queue-retries :
    (key : Key) (q : Queue)
    → ((queue key q).retry_tasks ≡ q.retry_tasks)
      × ((queue key q).retry_attempts ≡ q.retry_attempts)
unfolding queue
queue-retries none q = (refl, refl)
queue-retries (some id) q = elim (Bool-cases q.full_sweep_pending) [
  | inl full ↦ simp full (refl, refl)
  | inr single ↦ simp single (refl, refl)
]

-- A retry whose delay runs out queues its guest again.
pub fired :
    (id n : ℕ) (q : Queue)
    → q.retry_tasks (some id) ≡ some n
    → triggers q ≡ (false, [])
    → ((retry_after false (some id) q).retry_tasks (some id) ≡ none)
      × ((retry_after false (some id) q).retry_attempts ≡ q.retry_attempts)
      × (triggers (retry_after false (some id) q) ≡ (false, id ∷ []))
unfolding retry_after fire queue add
fired id n q waits quiet =
    let kept = queue-retries (some id) (cancel_retry_task_only (some id) q) in
    let single : q.full_sweep_pending ≡ false = ap (λ t. t.0) quiet in
    let empty : q.pending_backup_ids ≡ [] = ap (λ t. t.1) quiet in
    simp waits (
      ap (λ m. m (some id)) kept.0 ∙ simp (same_key_refl id) refl,
      kept.1,
      simp (single, empty) refl,
    )

pub unfired :
    (id : ℕ) (q : Queue) → q.retry_tasks (some id) ≡ none → retry_after false (some id) q ≡ q
unfolding retry_after fire
unfired id q free = simp free refl

pub drained-free : (id : ℕ) (q : Queue) → (drained id q).retry_tasks (some id) ≡ none
unfolding drained
drained-free id q = simp (same_key_refl id) refl

pub drained-attempts : (id : ℕ) (q : Queue) → (drained id q).retry_attempts ≡ q.retry_attempts
unfolding drained
drained-attempts id q = refl

pub failed-triggers :
    (d : List ℕ) (id : ℕ) (q : Queue) → triggers (failed d id (drained id q)) ≡ (false, [])
unfolding failed drained
failed-triggers d id q = schedule_retry-triggers d (some id) (set_error (some id) (drained id q))

abbrev pub attempts : ℕ → Queue → ℕ
attempts id q = attempts_of (q.retry_attempts (some id))
