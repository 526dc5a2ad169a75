-- ===== src/Restore/Examples.antt =====
-- The restores run on concrete tables, and each property at a concrete input.
use proxsync.Prelude.{
  ℕ, suc, ◌+◌, ◌≤◌, ◌≡◌, refl, true, false, none, some, List, [], ◌∷◌, arith, map, Member, ◌⊎◌,
}
use proxsync.Prelude.Text.{Text}
use proxsync.Effects.{ok}
use proxsync.Retention.Types.{vm, success, uploaded}
use proxsync.Restore.Types.{
  local, original_id, SourceBackup, RestoreRequest, RestoreConfirmRequest, CheckName,
  PreflightCheck, PreflightReport, RestoreRow,
}
use proxsync.Restore.Preflight.{Host, preflight}
use proxsync.Restore.Preflight.Ready.{IsReady, preflight-IsReady}
use proxsync.Restore.Repository.{get_row, in_flight, update_row, next_confirmed, expire_pending}
use proxsync.Restore.Service.{World, State, create, confirm}
use proxsync.Restore.Service.Confirmed.{IsRefused, IsConfirmed, confirm-IsConfirmed}
use proxsync.Restore.Steps.{following, Input, accepted, unanswered}
use proxsync.Restore.Worker.{in_stage, System, run_row, advance}
use proxsync.Restore.Worker.Works.{IsSafe}
use proxsync.Restore.Worker.Moves.{Moved}
use proxsync.Restore.Worker.Polling.{ClosesWithin, following-closes}
use proxsync.Restore.System.Lifecycle.{Reachable-Moved}
use proxsync.Restore.System.{Reachable, start, next, created, confirmed, advanced, installed}
use proxsync.Restore.System.Rows.{start_count}
use proxsync.Restore.System.Routes.{IsFresh}
use proxsync.Restore.System.Invariant.{Reachable-IsSafe}
use proxsync.Restore.System.Shielded.{history_of}
use proxsync.Retention.Apply
use proxsync.Retention.Examples.{table}
use proxsync.Restore.System.Once.{IsAsked, Reachable-start_count}

abbrev next_of : List RestoreRow → ℕ
next_of [] = 1
next_of (r ∷ rows) = suc (r.id + next_of rows)

abbrev world : World
world = record {
  hash_token = λ token. 1 ∷ token;
  token = λ n. n ∷ [];
  next_id = next_of;
  confirmation_ttl = 300;
}

beyond : (rows : List RestoreRow) (id : ℕ) → next_of rows ≤ id → get_row id rows ≡ none
beyond [] id h = refl
beyond (r ∷ rows) id h = ground (arith, beyond rows id)

world-IsFresh : IsFresh world
world-IsFresh rows = beyond rows (next_of rows) (omega arith)

abbrev archive : Text
archive = 7 ∷ []

abbrev storage : Text
storage = 8 ∷ []

abbrev node : Text
node = 9 ∷ []

abbrev host : Host
host = record {
  artifacts =
      λ vmid guest_type. some (record { filename = archive; checksum_sha256 = some (5 ∷ []) } ∷ []);
  storages = some (record { name = storage; active = true; available_bytes = 100 } ∷ []);
  lower = λ text. text;
  required = λ size. size + 15;
  default_storage = storage;
  agent_node = node;
}

abbrev backup : SourceBackup
backup = record {
  id = 1;
  vmid = 100;
  guest_type = vm;
  node = some node;
  filename = some archive;
  size_bytes = some 80;
  checksum_sha256 = some (5 ∷ []);
  status = success;
  upload_status = uploaded;
  remote_path = none;
  remote_deleted_at = none;
  local_deleted_at = none;
}

abbrev wanted : RestoreRequest
wanted = record {
  backup_id = 1;
  restore_mode = original_id;
  target_vmid = none;
  target_storage = none;
  target_node = none;
  overwrite_existing = false;
  force_stop = false;
  start_after_restore = true;
}

abbrev passed : CheckName → PreflightCheck
passed name = record { name = name; ok = true }

abbrev report : PreflightReport
report = record {
  checks =
      passed CheckName.backup_restorable
      ∷ passed CheckName.backup_present_locally
      ∷ passed CheckName.checksum_matches
      ∷ passed CheckName.target_vmid_free
      ∷ passed CheckName.target_type_matches
      ∷ passed CheckName.target_guest_stopped
      ∷ passed CheckName.target_node_supported
      ∷ passed CheckName.storage_free_space
      ∷ passed CheckName.no_restore_in_flight
      ∷ [];
  blocking = false;
  warnings = [];
  source = local;
  backup_id = 1;
  filename = some archive;
  size_bytes = some 80;
  target_vmid = 100;
  target_type = vm;
  target_storage = storage;
  target_node = node;
}

abbrev before : State
before = record { restores = []; backups = backup ∷ []; guests = []; draws = 3 }

reports : preflight host (backup ∷ []) [] false wanted ≡ ok report
unfolding preflight
reports = refl

preflight-IsReady_example :
    (found : SourceBackup) × Member found (backup ∷ [])
    × (found.id ≡ 1)
    × IsReady host [] false wanted found 100
preflight-IsReady_example =
    preflight-IsReady host (backup ∷ []) [] false wanted report (λ vmid. omega arith) reports refl

abbrev payload : RestoreConfirmRequest
payload = record { confirmation_token = 0 ∷ []; target_vmid = 100 }

abbrev requested : System
requested = record (installed (backup ∷ []) []) {
  store = (create world host wanted none 10 (installed (backup ∷ []) []).store).1;
}

abbrev agreed : System
agreed = record requested { store = (confirm world host 1 payload 20 requested.store).1 }

confirm-IsConfirmed_example :
    IsRefused world host 1 payload 20 requested.store
    ⊎ IsConfirmed world host 1 payload 20 requested.store
confirm-IsConfirmed_example = confirm-IsConfirmed world host 1 payload 20 requested.store

abbrev calm : Input
calm = record {
  now = 30;
  loop_time = 30;
  stopping = false;
  crashes = false;
  gdrive_enabled = true;
  start_reply = accepted (6 ∷ []);
  poll_reply = unanswered;
}

-- The loop's head, the claim, `_load` and the start on the host.
abbrev loaded : System
loaded = advance 60 calm (advance 60 calm (advance 60 calm agreed))

abbrev started : System
started = advance 60 calm loaded

reached_loaded : Reachable world 60 loaded
reached_loaded =
    next
      (next
        (next
          (next (next (start (backup ∷ []) []) (created host wanted none 10))
            (confirmed host 1 payload 20))
          (advanced calm))
        (advanced calm))
      (advanced calm)

reached : Reachable world 60 started
reached = next reached_loaded (advanced calm)

Reachable-Moved_example : Moved loaded.store.restores started.store.restores
Reachable-Moved_example =
    Reachable-Moved world 60 loaded started world-IsFresh reached_loaded (advanced calm)

Reachable-IsSafe_example : IsSafe started
Reachable-IsSafe_example = Reachable-IsSafe world 60 started world-IsFresh reached

Reachable-start_count_example :
    (start_count 1 started.starts ≤ 1)
    × (1 ≤ start_count 1 started.starts → IsAsked 1 started.store.restores)
Reachable-start_count_example = Reachable-start_count world 60 started 1 world-IsFresh reached

starts_one : start_count 1 started.starts ≡ 1
unfolding advance create confirm preflight in_flight update_row next_confirmed expire_pending
    run_row
starts_one = refl

-- Polls that stay without an answer.
abbrev silent : ℕ → Input
silent time = record calm { loop_time = time }

following-closes_example :
    ClosesWithin 60
      (silent 5 ∷ silent 35 ∷ silent 65 ∷ silent 95 ∷ [])
      1
      started
      (in_stage (following 1 none) started)
following-closes_example =
    following-closes 60 1 started (silent 5) 4 (silent 35 ∷ silent 65 ∷ silent 95 ∷ []) refl
      ((refl, refl, refl), ((refl, refl, refl), ((refl, refl, refl), ((refl, refl, refl), tt))))
      refl

-- A deletion step that meets the backup being restored.
abbrev pass_start : Apply.State
pass_start = record {
  db = record (table false) { restores = map history_of started.store.restores };
  calls = [];
  commits = 0;
  notices = [];
}
