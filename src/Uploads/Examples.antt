-- ===== src/Uploads/Examples.antt =====
-- The upload queue run on a concrete backup, and each property at a concrete input.
use proxsync.Prelude.{
  ℕ, suc, ◌+◌, ◌≤◌, ◌≡◌, refl, true, false, none, some, List, [], ◌∷◌, ◌++◌, take, ◌⊎◌, arith,
}
use proxsync.Prelude.Tables.{get_by}
use proxsync.Retention.Types.{BackupStatus, UploadStatus}
use proxsync.Prelude.Backoff.{IsUniform}
use proxsync.Uploads.Types.{queued, running, failed, SyncTask, BackupRow, GDriveSettings}
use proxsync.Uploads.Service.{task_id, get_task, cancel_task, cancel_row, enqueue_upload}
use proxsync.Uploads.Worker.{
  Settings, succeeded, ended_otherwise, AgentTask, accepted, PollReply, answered, unanswered, Input,
  polling, System, advance,
}
use proxsync.Uploads.Worker.Retries.{Outcome, failures, failures-given_up}
use proxsync.Uploads.Worker.Sound.{IsSound}
use proxsync.Uploads.Worker.Uploaded.{is_marked}
use proxsync.Uploads.Worker.Advance.{IsFresh}
use proxsync.Uploads.System.{with_store, installed, Reachable, start, next, enqueued, advanced}
use proxsync.Uploads.System.Sound.{Reachable-IsSound}
use proxsync.Uploads.System.Honest.{IsEarned, step-IsEarned}
use proxsync.Uploads.System.Cancelled.{cancelled-Outcome}

abbrev next_of : List SyncTask → ℕ
next_of [] = 1
next_of (t ∷ tasks) = suc (t.id + next_of tasks)

beyond : (tasks : List SyncTask) (id : ℕ) → next_of tasks ≤ id → get_by task_id id tasks ≡ none
beyond [] id h = refl
beyond (t ∷ tasks) id h = ground (arith, beyond tasks id)

abbrev settings : Settings
settings = record {
  sync_retry_base_seconds = 30;
  sync_retry_max_seconds = 900;
  agent_unreachable_grace_seconds = 120;
  uniform = λ a b. a;
  next_id = next_of;
}

settings-IsFresh : IsFresh settings.next_id
settings-IsFresh tasks = beyond tasks (next_of tasks) (omega arith)

settings-IsUniform : IsUniform settings.uniform
settings-IsUniform a b h = (omega arith, h)

abbrev drive : GDriveSettings
drive = record { enabled = true; remote_name = 5 ∷ []; folder = 6 ∷ []; upload_retry = 2 }

abbrev backup : BackupRow
backup = record {
  id = 1;
  status = BackupStatus.success;
  filename = some (7 ∷ []);
  local_deleted_at = none;
  upload_status = UploadStatus.pending;
  uploaded_at = none;
  remote_path = none;
  remote_checksum = none;
  remote_size_bytes = none;
}

abbrev done : AgentTask
done = record { state = succeeded; finished_at = some 50; verification = none }

abbrev broken : AgentTask
broken = record { state = ended_otherwise; finished_at = some 50; verification = none }

abbrev input : PollReply → Input
input reply = record {
  now = 60;
  loop_time = 60;
  stopping = false;
  crashes = false;
  config = drive;
  start_reply = accepted (9 ∷ []);
  poll_reply = reply;
}

abbrev asked : System
asked =
    with_store (enqueue_upload drive next_of 1 false (installed (backup ∷ [])).store).1
      (installed (backup ∷ []))

abbrev further : System → System
further y = advance settings (input unanswered) y

abbrev under_way : System
under_way = further (further (further (further (further asked))))

further-Reachable : (y : System) → Reachable settings y → Reachable settings (further y)
further-Reachable y reached = next reached (advanced (input unanswered))

under_way-Reachable : Reachable settings under_way
under_way-Reachable = further-Reachable _ (
    further-Reachable _ (
      further-Reachable _ (
        further-Reachable _
          (further-Reachable _ (next (start (backup ∷ [])) (enqueued drive 1 false))))))

abbrev reported : System
reported = advance settings (input (answered done)) under_way

reported-Reachable : Reachable settings reported
reported-Reachable = next under_way-Reachable (advanced (input (answered done)))

-- The transfer is polled, reported and recorded.
polls : under_way.stage ≡ polling 1 none
unfolding advance enqueue_upload
polls = refl

reported_marked : is_marked 1 reported.store ≡ false
unfolding advance enqueue_upload
reported_marked = refl

further_marked : is_marked 1 (further reported).store ≡ true
unfolding advance enqueue_upload
further_marked = refl

Reachable-IsSound_example : IsSound reported
Reachable-IsSound_example = Reachable-IsSound settings reported settings-IsFresh reported-Reachable

step-IsEarned_example :
    (is_marked 1 reported.store ≡ true)
    ⊎ IsEarned {w = settings} {y = reported} {z = further reported} 1 (advanced (input unanswered))
step-IsEarned_example =
    step-IsEarned settings 1 reported (further reported) settings-IsFresh reported-Reachable
      (advanced (input unanswered)) further_marked

abbrev task : SyncTask
task = record {
  id = 1;
  backup_id = some 1;
  status = queued;
  agent_task_id = none;
  remote_name = some (5 ∷ []);
  remote_path = some (6 ∷ []);
  attempt = 0;
  max_attempts = 3;
  next_retry_at = none;
  started_at = none;
  finished_at = none;
}

failures-given_up_example :
    ((n : ℕ) → (failures settings (take n ((0, 1) ∷ (2, 3) ∷ [])) task).status ≡ queued)
    × ((failures settings (((0, 1) ∷ (2, 3) ∷ []) ++ (40, 41) ∷ []) task).status ≡ failed)
    × ((failures settings (((0, 1) ∷ (2, 3) ∷ []) ++ (40, 41) ∷ []) task).attempt ≡ 3)
    × ((failures settings (((0, 1) ∷ (2, 3) ∷ []) ++ (40, 41) ∷ []) task).finished_at ≡ some 41)
    × ((failures settings (((0, 1) ∷ (2, 3) ∷ []) ++ (40, 41) ∷ []) task).next_retry_at ≡ none)
failures-given_up_example = failures-given_up settings ((0, 1) ∷ (2, 3) ∷ []) 40 41 task refl refl

abbrev running_task : SyncTask
running_task = record (task) {
  status = running;
  agent_task_id = some (9 ∷ []);
  attempt = 1;
  started_at = some 60;
}

under_way-get_task : get_task 1 under_way.store ≡ some running_task
unfolding advance enqueue_upload
under_way-get_task = refl

cancelled-Outcome_example :
    (u : SyncTask) × (get_task 1
        (advance settings (input unanswered) (
          advance settings
            (input (answered broken))
            (with_store (cancel_task 1 55 under_way.store).1 under_way))).store
      ≡ some u)
    × Outcome settings 60 (cancel_row 55 running_task) u
cancelled-Outcome_example =
    cancelled-Outcome settings (input (answered broken)) (input unanswered) 1 55 none broken
      under_way running_task settings-IsUniform under_way-get_task refl polls refl refl refl refl
      refl
