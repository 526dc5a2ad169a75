-- ===== src/Retention/Worker/Triggers.antt =====
-- What becomes of a trigger from its arrival to the lane.
use proxsync.Prelude.{
  ℕ, ◌≡◌, refl, ap, ◌∙◌, Bool, true, false, not, ◌&&◌, ◌||◌, ◌⊎◌, inl, inr, Option, none, some,
  List, [], ◌∷◌, ◌==◌, arith, Bool-cases, length, leb, Option-cases,
}
use proxsync.Retention.Worker.{
  Key, Queue, add, attempts_of, cancel_retry, cancel_all_retries, cancel_retry_task_only,
  clear_retry, set_error, queue, notify, schedule_retry, schedule_with, schedule_free, retry_after,
  fire, migrate_retry_state, migrate_attempts, migrate_error, finish_attempt, Stage, idle, scanning,
  lane, applying, stopped, Input, Worker, is_in, taken, drain, settle_error, settle_errors,
  after_scan, after_canonical, after_pass, advance, Step, notified, retried, advanced,
}

-- The trigger waits: it is queued, or a full sweep is.
abbrev pub Waits : ℕ → Queue → Type 0
Waits id q = (q.full_sweep_pending ≡ true) ⊎ (is_in id q.pending_backup_ids ≡ true)

-- The worker has just taken the trigger: for its lane, or with the full sweep.
abbrev pub IsTaken : ℕ → Stage → Type 0
IsTaken id scanning = Unit
IsTaken id (lane false [] ids) = is_in id ids ≡ true
IsTaken id _ = ⊥

is_in-add : (id other : ℕ) (ids : List ℕ) → is_in id (add other ids) ≡ (other == id || is_in id ids)
unfolding is_in add
is_in-add id other [] = refl
is_in-add id other (u ∷ ids) = ground (arith, is_in-add id other ids)

queue-Waits : (id : ℕ) (key : Key) (q : Queue) → Waits id q → Waits id (queue key q)
unfolding queue
queue-Waits id none q h = inl refl
queue-Waits id (some other) q (inl full) = simp full (inl refl)
queue-Waits id (some other) q (inr held) = elim (Bool-cases q.full_sweep_pending) [
  | inl full ↦ simp full (inl refl)
  | inr single ↦ simp single (inr (ground (arith, is_in-add id other q.pending_backup_ids, held)))
]

queue-queued : (id : ℕ) (q : Queue) → Waits id (queue (some id) q)
unfolding queue
queue-queued id q = elim (Bool-cases q.full_sweep_pending) [
  | inl full ↦ simp full (inl refl)
  | inr single ↦ simp single (inr (ground (arith, is_in-add id id q.pending_backup_ids)))
]

notify-Waits : (id : ℕ) (key : Key) (q : Queue) → Waits id q → Waits id (notify key q)
unfolding notify
notify-Waits id none q h = queue-Waits id none (cancel_all_retries q) h
notify-Waits id (some other) q h = queue-Waits id (some other) (cancel_retry (some other) q) h

retry_after-Waits :
    (id : ℕ) (stopping : Bool) (key : Key) (q : Queue)
    → Waits id q
    → Waits id (retry_after stopping key q)
unfolding retry_after fire
retry_after-Waits id stopping key q h = elim (Option-cases (q.retry_tasks key)) [
  | inl nothing ↦ simp nothing h
  | inr (n, waits) ↦ elim (Bool-cases stopping) [
    | inl stops ↦ simp (waits, stops) h
    | inr on ↦ simp (waits, on) (queue-Waits id key (cancel_retry_task_only key q) h)
  ]
]

-- The triggers of a queue.
abbrev pub triggers : Queue → Bool × List ℕ
triggers q = (q.full_sweep_pending, q.pending_backup_ids)

triggers-Waits :
    (id : ℕ) (q after : Queue) → triggers after ≡ triggers q → Waits id q → Waits id after
triggers-Waits id q after same (inl full) = inl (ap (λ t. t.0) same ∙ full)
triggers-Waits id q after same (inr held) = inr (ap (λ t. is_in id t.1) same ∙ held)

pub schedule_retry-triggers :
    (d : List ℕ) (key : Key) (q : Queue) → triggers (schedule_retry d key q) ≡ triggers q
unfolding schedule_retry schedule_with schedule_free
schedule_retry-triggers d key q = elim (Option-cases (q.retry_tasks key)) [
  | inr (n, waits) ↦ simp waits refl
  | inl free ↦ elim (Bool-cases (leb (length d) (attempts_of (q.retry_attempts key)))) [
    | inl spent ↦ simp (free, spent) refl
    | inr left ↦ simp (free, left) refl
  ]
]

migrate_retry_state-triggers :
    (raw canonical : ℕ) (q : Queue) → triggers (migrate_retry_state raw canonical q) ≡ triggers q
unfolding migrate_retry_state migrate_attempts migrate_error
migrate_retry_state-triggers raw canonical q = elim (Bool-cases (raw == canonical)) [
  | inl same ↦ simp same refl
  | inr other ↦ elim (Option-cases (q.retry_attempts (some raw))) [
    | inl fresh ↦ elim (Bool-cases (q.errors (some raw))) [
      | inl bad ↦ simp (other, fresh, bad) refl
      | inr good ↦ simp (other, fresh, good) refl
    ]
    | inr (n, counted) ↦ elim (Bool-cases (q.errors (some raw))) [
      | inl bad ↦ simp (other, counted, bad) refl
      | inr good ↦ simp (other, counted, good) refl
    ]
  ]
]

settle_errors-triggers :
    (map : List (ℕ × Option ℕ)) (q : Queue) → triggers (settle_errors map q) ≡ triggers q
unfolding settle_errors settle_error
settle_errors-triggers [] q = refl
settle_errors-triggers ((raw, none) ∷ map) q = settle_errors-triggers map (clear_retry (some raw) q)
settle_errors-triggers ((raw, some canonical) ∷ map) q =
    settle_errors-triggers map (migrate_retry_state raw canonical q)
    ∙ migrate_retry_state-triggers raw canonical q

after_scan-triggers :
    (d : List ℕ) (scan : Option (List ℕ × List (ℕ × Option ℕ))) (q : Queue)
    → triggers (after_scan d scan q).waiting ≡ triggers q
unfolding after_scan
after_scan-triggers d none q = schedule_retry-triggers d none (set_error none q)
after_scan-triggers d (some (ids, map)) q = settle_errors-triggers map (clear_retry none q)

after_canonical-triggers :
    (d : List ℕ) (sweep : Bool) (processed : List ℕ) (raw : ℕ) (rest : List ℕ)
    (canonical : Option (Option ℕ)) (q : Queue)
    → triggers (after_canonical d sweep processed raw rest canonical q).waiting ≡ triggers q
unfolding after_canonical
after_canonical-triggers d sweep processed raw rest none q =
    schedule_retry-triggers d (some raw) (set_error (some raw) q)
after_canonical-triggers d sweep processed raw rest (some none) q = refl
after_canonical-triggers d sweep processed raw rest (some (some id)) q = elim (Bool-cases sweep) [
  | inl full ↦ simp full (migrate_retry_state-triggers raw id q)
  | inr queued ↦ elim (Bool-cases (is_in id processed)) [
    | inl seen ↦ simp (queued, seen) refl
    | inr new ↦ simp (queued, new) (migrate_retry_state-triggers raw id q)
  ]
]

after_pass-triggers :
    (d : List ℕ) (id : ℕ) (applied : Option Bool) (q : Queue)
    → triggers (after_pass d id applied q) ≡ triggers q
unfolding after_pass finish_attempt
after_pass-triggers d id none q = schedule_retry-triggers d (some id) (set_error (some id) q)
after_pass-triggers d id (some true) q = schedule_retry-triggers d (some id) (set_error (some id) q)
after_pass-triggers d id (some false) q = refl

taken-IsTaken : (id : ℕ) (ids : List ℕ) → is_in id ids ≡ true → IsTaken id (taken ids)
unfolding taken is_in
taken-IsTaken id [] h = cc
taken-IsTaken id (u ∷ ids) h = h

drain-IsTaken : (id : ℕ) (y : Worker) → Waits id y.waiting → IsTaken id (drain y).stage
unfolding drain
drain-IsTaken id y (inl full) = simp full tt
drain-IsTaken id y (inr held) = elim (Bool-cases y.waiting.full_sweep_pending) [
  | inl full ↦ simp full tt
  | inr single ↦ simp single (taken-IsTaken id y.waiting.pending_backup_ids held)
]

advance-Waits :
    (d : List ℕ) (i : Input) (id : ℕ) (stage : Stage) (y : Worker)
    → Waits id y.waiting
    → Waits id (advance d i stage y).waiting ⊎ IsTaken id (advance d i stage y).stage
unfolding advance
advance-Waits d i id idle y h = elim (Bool-cases i.stopping) [
  | inl stops ↦ inl (simp stops h)
  | inr on ↦ inr (simp on (drain-IsTaken id y h))
]
advance-Waits d i id scanning y h = inl (
    triggers-Waits id y.waiting (after_scan d i.scan y.waiting).waiting
      (after_scan-triggers d i.scan y.waiting) h)
advance-Waits d i id (lane sweep processed []) y h = inl h
advance-Waits d i id (lane sweep processed (raw ∷ rest)) y h =
    elim (Bool-cases (not sweep && i.stopping)) [
      | inl stops ↦ inl (simp stops h)
      | inr on ↦ inl (
          simp on (
            triggers-Waits id y.waiting
              (after_canonical d sweep processed raw rest i.canonical y.waiting).waiting
              (after_canonical-triggers d sweep processed raw rest i.canonical y.waiting) h))
    ]
advance-Waits d i id (applying sweep processed backup rest) y h = inl (
    triggers-Waits id y.waiting (after_pass d backup i.applied y.waiting)
      (after_pass-triggers d backup i.applied y.waiting) h)
advance-Waits d i id stopped y h = inl h

step-Waits :
    (d : List ℕ) (id : ℕ) (y z : Worker)
    → Step d y z
    → Waits id y.waiting
    → Waits id z.waiting ⊎ IsTaken id z.stage
step-Waits d id y z (notified key) h = inl (notify-Waits id key y.waiting h)
step-Waits d id y z (retried stopping key) h = inl (retry_after-Waits id stopping key y.waiting h)
step-Waits d id y z (advanced i) h = advance-Waits d i id y.stage y h

-- Steps one after another.
pub data Steps (d : List ℕ) (x : Worker) : Worker → Type 0 where
  none_yet : Steps d x x
  one_more : {y z : Worker} → Steps d x y → Step d y z → Steps d x z

-- One of the steps took the trigger.
pub WasTaken : (d : List ℕ) (id : ℕ) (x z : Worker) → Steps d x z → Type 0
WasTaken d id x z none_yet = ⊥
WasTaken d id x z (one_more {y = y} steps step) = WasTaken d id x y steps ⊎ IsTaken id z.stage

-- Once a backup is notified, its trigger is never lost, whatever triggers, retries and stretches of the
-- worker come in whatever order: it still waits, by itself or under a full sweep, or the worker has taken it
-- for its lane or a full sweep.
pub notify-Waits_on :
    (d : List ℕ) (id : ℕ) (y z : Worker)
    → (steps : Steps d (record y { waiting = notify (some id) y.waiting }) z)
    → Waits id z.waiting ⊎ WasTaken d id (record y { waiting = notify (some id) y.waiting }) z steps
unfolding WasTaken notify
notify-Waits_on d id y z none_yet = inl (queue-queued id (cancel_retry (some id) y.waiting))
notify-Waits_on d id y z (one_more {y = before} steps step) =
    elim (notify-Waits_on d id y before steps) [
      | inr earlier ↦ inr (inl earlier)
      | inl waits ↦ elim (step-Waits d id before z step waits) [
        | inl still ↦ inl still
        | inr now ↦ inr (inr now)
      ]
    ]
