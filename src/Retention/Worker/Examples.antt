-- ===== src/Retention/Worker/Examples.antt =====
-- The retention worker run on a concrete trigger, and each property at a concrete input.
use proxsync.Prelude.{ℕ, ◌≡◌, refl, false, none, some, List, [], ◌∷◌, ◌⊎◌}
use proxsync.Retention.Worker.{
  Queue, idle, lane, applying, Input, Worker, notify, advance, advanced,
}
use proxsync.Retention.Worker.Triggers.{Waits, Steps, none_yet, one_more, WasTaken, notify-Waits_on}

abbrev delays : List ℕ
delays = 5 ∷ 30 ∷ 120 ∷ []

abbrev quiet : Queue
quiet = record {
  pending_backup_ids = [];
  full_sweep_pending = false;
  retry_attempts = λ k. none;
  retry_tasks = λ k. none;
  errors = λ k. false;
}

abbrev input : Input
input = record { stopping = false; scan = none; canonical = some (some 7); applied = none }

abbrev told : Worker
told = record { waiting = notify (some 7) quiet; stage = idle }

abbrev after : Worker
after = advance delays input idle told

-- A notified backup is taken for the lane and its newest copy passed on; its failed pass leaves a retry.
takes : after.stage ≡ lane false [] (7 ∷ [])
unfolding advance notify
takes = refl

leaves_retry :
    (advance delays input (applying false (7 ∷ []) 7 []) after).waiting.retry_tasks (some 7)
    ≡ some 0
unfolding advance notify
leaves_retry = refl

steps : Steps delays told after
steps = one_more none_yet (advanced input)

notify-Waits_on_example : Waits 7 after.waiting ⊎ WasTaken delays 7 told after steps
notify-Waits_on_example =
    notify-Waits_on delays 7 (record { waiting = quiet; stage = idle }) after steps
