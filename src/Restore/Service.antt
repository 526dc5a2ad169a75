-- ===== src/Restore/Service.antt =====
-- The two-phase flow of backend/app/services/restore_service.py: `create`, `confirm`, `cancel` and
-- `expire_stale`. Every route runs one of them inside the retention guard and commits before it
-- leaves it, so each is one step on the tables.
pub mod Confirmed
pub mod Outcomes
use proxsync.Prelude.{
  ℕ, suc, ◌+◌, Bool, true, false, not, ◌&&◌, Option, none, some, List, [], ◌∷◌, ◌++◌, leb, ◌==◌,
  is_some, if◌then◌else◌,
}
use proxsync.Prelude.Text.{Text, eq_text}
use proxsync.Effects.{Result, ok, raised, Action, return, raise, resume, ◌>>=◌, ◌>>◌}
use proxsync.Retention.Types.{
  RestoreStatus, pending_confirmation, confirmed, running, success, failed, cancelled, interrupted,
  expired,
}
use proxsync.Restore.Types.{
  RestoreRequest, RestoreConfirmRequest, PreflightReport, SourceBackup, Guest, RestoreRow,
}
use proxsync.Restore.Preflight.{
  Host, RestoreError, no_restore, preflight_failed, already_expired, not_awaiting, window_closed,
  token_mismatch, vmid_mismatch, conditions_changed, already_running, already_closed, preflight,
}
use proxsync.Restore.Repository.{
  is_expired, is_pending, is_running, is_terminal, get_row, update_row, in_flight, expire_pending,
}

-- Hashes, random tokens, primary keys and the lifetime of a confirmation.
pub record World : Type 0 where
  pub hash_token : Text → Text
  pub token : ℕ → Text
  pub next_id : List RestoreRow → ℕ
  pub confirmation_ttl : ℕ

pub record State : Type 0 where
  pub restores : List RestoreRow
  pub backups : List SourceBackup
  pub guests : List Guest
  pub draws : ℕ

abbrev pub Service : Type 0 → Type 0
Service A = Action RestoreError State A

-- The preflight of a request against the tables as they stand and the host as it answers.
abbrev pub preflight_now : Host → RestoreRequest → State → Result RestoreError PreflightReport
preflight_now host request s =
    preflight host s.backups s.guests (is_some (in_flight s.restores)) request

-- The row that `create` adds for a report that blocks nothing.
abbrev pub new_row : World → RestoreRequest → PreflightReport → Option ℕ → ℕ → State → RestoreRow
new_row w request report requested_by now s = record {
  id = w.next_id s.restores;
  backup_id = request.backup_id;
  source = report.source;
  target_vmid = report.target_vmid;
  target_type = report.target_type;
  restore_mode = request.restore_mode;
  target_node = report.target_node;
  target_storage = report.target_storage;
  overwrite_existing = request.overwrite_existing;
  force_stop = request.force_stop;
  start_after_restore = request.start_after_restore;
  status = pending_confirmation;
  confirmation_token_hash = some (w.hash_token (w.token s.draws));
  confirmation_expires_at = some (now + w.confirmation_ttl);
  confirmed_at = none;
  preflight = report;
  agent_task_id = none;
  requested_by = requested_by;
  started_at = none;
  finished_at = none;
}

create_from : World → RestoreRequest → Option ℕ → ℕ → PreflightReport → Service (RestoreRow × Text)
create_from w request requested_by now report s =
    if report.blocking then (raised preflight_failed, s) else (
      ok (new_row w request report requested_by now s, w.token s.draws),
      record s {
        restores = s.restores ++ new_row w request report requested_by now s ∷ [];
        draws = suc s.draws;
      },
    )

-- `create`: the row, and the token in plain text.
unfoldable pub create : World → Host → RestoreRequest → Option ℕ → ℕ → Service (RestoreRow × Text)
unfolding create_from preflight
create w host request requested_by now s =
    resume (preflight_now host request s) (create_from w request requested_by now) s

-- `_request_from`
abbrev pub request_from : RestoreRow → RestoreRequest
request_from r = record {
  backup_id = r.backup_id;
  restore_mode = r.restore_mode;
  target_vmid = some r.target_vmid;
  target_storage = some r.target_storage;
  target_node = some r.target_node;
  overwrite_existing = r.overwrite_existing;
  force_stop = r.force_stop;
  start_after_restore = r.start_after_restore;
}

-- `_token_matches`; a digest is never empty.
pub token_matches : World → Text → Option Text → Bool
token_matches w token none = false
token_matches w token (some []) = false
token_matches w token (some (c ∷ hash)) = eq_text (w.hash_token token) (c ∷ hash)

closed_window : ℕ → Option ℕ → Bool
closed_window now none = false
closed_window now (some expires_at) = leb expires_at now

abbrev pub confirm_row : PreflightReport → ℕ → RestoreRow → RestoreRow
confirm_row report now r = record r {
  status = confirmed;
  confirmed_at = some now;
  source = report.source;
  preflight = report;
  confirmation_token_hash = none;
}

confirm_checked : ℕ → RestoreRow → PreflightReport → Service Unit
unfolding update_row
confirm_checked now r report s =
    if report.blocking
    then (raised conditions_changed, s)
    else (ok tt, record s { restores = update_row r.id (confirm_row report now) s.restores })

-- The checks of `confirm` before the second preflight, in their order.
refusal : World → RestoreConfirmRequest → ℕ → RestoreRow → Option RestoreError
unfolding token_matches closed_window
refusal w payload now r =
    if is_expired r.status
    then some already_expired
    else if not (is_pending r.status)
    then some not_awaiting
    else if closed_window now r.confirmation_expires_at
    then some window_closed
    else if not (token_matches w payload.confirmation_token r.confirmation_token_hash)
    then some token_mismatch
    else if not (payload.target_vmid == r.target_vmid)
    then some vmid_mismatch
    else none

confirm_unless : Host → ℕ → RestoreRow → Option RestoreError → Service Unit
unfolding confirm_checked preflight
confirm_unless host now r (some e) s = (raised e, s)
confirm_unless host now r none s =
    resume (preflight_now host (request_from r) s) (confirm_checked now r) s

confirm_found : World → Host → RestoreConfirmRequest → ℕ → Option RestoreRow → Service Unit
unfolding confirm_unless refusal
confirm_found w host payload now none s = (raised no_restore, s)
confirm_found w host payload now (some r) s = confirm_unless host now r (refusal w payload now r) s

-- `confirm`
unfoldable pub confirm : World → Host → ℕ → RestoreConfirmRequest → ℕ → Service Unit
unfolding confirm_found
confirm w host restore_id payload now s =
    confirm_found w host payload now (get_row restore_id s.restores) s

abbrev pub cancel_row : ℕ → RestoreRow → RestoreRow
cancel_row now r = record r {
  status = cancelled;
  finished_at = some now;
  confirmation_token_hash = none;
}

cancel_found : ℕ → Option RestoreRow → Service Unit
unfolding update_row
cancel_found now none s = (raised no_restore, s)
cancel_found now (some r) s =
    if is_running r.status
    then (raised already_running, s)
    else if is_terminal r.status
    then (raised already_closed, s)
    else (ok tt, record s { restores = update_row r.id (cancel_row now) s.restores })

-- `cancel`
pub cancel : ℕ → ℕ → Service Unit
unfolding cancel_found
cancel restore_id now s = cancel_found now (get_row restore_id s.restores) s

-- `expire_stale`
unfoldable pub expire_stale : ℕ → Service (List ℕ)
unfolding expire_pending
expire_stale now s =
    let (ids, rows) = expire_pending now s.restores in (ok ids, record s { restores = rows })
