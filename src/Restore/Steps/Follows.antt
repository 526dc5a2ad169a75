-- ===== src/Restore/Steps/Follows.antt =====
-- The places that one stretch of the worker may lead to.
use mathlib.Core.Path.{subst}
use proxsync.Prelude.{
  ℕ, ◌≤◌, ◌≡◌, refl, sym, Bool, true, false, Option, none, some, List, ◌==◌, arith, find, find-some,
  Option-cases, inl, inr,
}
use proxsync.Prelude.Text.{Text}
use proxsync.Retention.Types.{RestoreStatus}
use proxsync.Restore.Types.{RestoreSource, local, gdrive, RestoreRow, SourceBackup}
use proxsync.Restore.Repository.{get_row}
use proxsync.Restore.Repository.Updates.{one_if}
use proxsync.Restore.Steps.{
  AgentState, StartReply, accepted, unavailable, refused, PollEnd, ended, lost, again, RestorePlan,
  Stage, idle, claiming, loading, fetching, downloading, marking, starting, attaching, following,
  recording, closing, handling, stopped, load, load_backup, load_named, stage_of_plan, plan_of,
  fetch, downloaded, after_download, after_start, after_poll, outcome_status,
}

-- The restore that the worker is at, and whether it may have been started on the host.
abbrev pub engaged : Stage → Option (ℕ × Bool)
engaged idle = none
engaged claiming = none
engaged (loading id) = some (id, false)
engaged (fetching plan) = some (plan.restore_id, false)
engaged (downloading plan since) = some (plan.restore_id, false)
engaged (marking plan) = some (plan.restore_id, false)
engaged (starting plan) = some (plan.restore_id, false)
engaged (attaching id task) = some (id, true)
engaged (following id since) = some (id, true)
engaged (recording id task) = some (id, true)
engaged (closing id status) = some (id, true)
engaged (handling id) = some (id, true)
engaged stopped = none

-- Statuses that the worker closes a restore with.
abbrev pub closes : RestoreStatus → Bool
closes RestoreStatus.success = true
closes RestoreStatus.failed = true
closes RestoreStatus.cancelled = true
closes RestoreStatus.interrupted = true
closes _ = false

abbrev pub EndsWell : Stage → Type 0
EndsWell (closing id status) = closes status ≡ true
EndsWell _ = Unit

-- Away from a restore, or on with it.
abbrev pub GoesOn : ℕ → Bool → Option (ℕ × Bool) → Type 0
GoesOn id begun none = Unit
GoesOn id begun (some (other, later)) = (other ≡ id) × (one_if begun ≤ one_if later)

abbrev pub Follows : ℕ → Bool → Stage → Type 0
Follows id begun stage = GoesOn id begun (engaged stage) × EndsWell stage

load_named-Follows :
    (r : RestoreRow) (backup : SourceBackup) (filename : Option Text)
    → Follows r.id false (load_named r backup filename)
unfolding load_named stage_of_plan
load_named-Follows r backup none = ((refl, omega arith), refl)
load_named-Follows r backup (some filename) = planned r.source
  where
    planned :
        (source : RestoreSource)
        → Follows r.id false (stage_of_plan (plan_of r backup filename) source)
    planned local = ((refl, omega arith), tt)
    planned gdrive = ((refl, omega arith), tt)

load_row-Follows :
    (r : RestoreRow) (backups : List SourceBackup) → Follows r.id false (load (some r) backups)
unfolding load load_backup
load_row-Follows r backups = from (find (λ b. b.id == r.backup_id) backups)
  where
    from : (backup : Option SourceBackup) → Follows r.id false (load_backup r backup)
    from none = ((refl, omega arith), refl)
    from (some backup) = load_named-Follows r backup backup.filename

pub load-Follows :
    (id : ℕ) (rows : List RestoreRow) (backups : List SourceBackup)
    → Follows id false (load (get_row id rows) backups)
unfolding load
load-Follows id rows backups = elim (Option-cases (get_row id rows)) [
  | inl absent ↦ simp absent (tt, tt)
  | inr (r, found) ↦
      let same : r.id ≡ id = ground (arith, find-some (λ u. u.id == id) r rows found) in
      subst (λ j. Follows j false (load (get_row id rows) backups)) same
        (subst (λ o. Follows r.id false (load o backups)) (sym found) (load_row-Follows r backups))
]

pub fetch-Follows :
    (plan : RestorePlan) (enabled : Bool) (reply : StartReply)
    → Follows plan.restore_id false (fetch plan enabled reply)
unfolding fetch
fetch-Follows plan false reply = ((refl, omega arith), refl)
fetch-Follows plan true (accepted task) = ((refl, omega arith), tt)
fetch-Follows plan true unavailable = ((refl, omega arith), refl)
fetch-Follows plan true refused = ((refl, omega arith), refl)

pub download-Follows :
    (plan : RestorePlan) (end : PollEnd) → Follows plan.restore_id false (after_download plan end)
unfolding after_download downloaded
download-Follows plan lost = ((refl, omega arith), refl)
download-Follows plan (again since) = ((refl, omega arith), tt)
download-Follows plan (ended task) = at task.state
  where
    at : (state : AgentState) → Follows plan.restore_id false (downloaded plan state)
    at AgentState.success = ((refl, omega arith), tt)
    at AgentState.failed = ((refl, omega arith), refl)
    at AgentState.cancelled = ((refl, omega arith), refl)
    at AgentState.interrupted = ((refl, omega arith), refl)
    at AgentState.active = ((refl, omega arith), refl)

pub start-Follows :
    (plan : RestorePlan) (reply : StartReply)
    → Follows plan.restore_id true (after_start plan reply)
unfolding after_start
start-Follows plan (accepted task) = ((refl, omega arith), tt)
start-Follows plan unavailable = ((refl, omega arith), refl)
start-Follows plan refused = ((refl, omega arith), refl)

pub poll-Follows : (id : ℕ) (end : PollEnd) → Follows id true (after_poll id end)
unfolding after_poll
poll-Follows id lost = ((refl, omega arith), refl)
poll-Follows id (again since) = ((refl, omega arith), tt)
poll-Follows id (ended task) = ((refl, omega arith), tt)

pub outcome_status-closes : (state : AgentState) → closes (outcome_status state) ≡ true
unfolding outcome_status
outcome_status-closes AgentState.success = refl
outcome_status-closes AgentState.failed = refl
outcome_status-closes AgentState.cancelled = refl
outcome_status-closes AgentState.interrupted = refl
outcome_status-closes AgentState.active = refl
