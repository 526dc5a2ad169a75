-- ===== src/Restore/System/Shielded.antt =====
-- Restores against the deletion pass of retention: both read one table of restores.
use proxsync.Prelude.{ℕ, ◌≡◌, ◌≢◌, some, List, ◌∷◌, ◌⊎◌}
use proxsync.Retention.Types.{PlannedDecision}
use proxsync.Retention.Repository.{RestoreHistory}
use proxsync.Retention.Apply.{AgentCall}
use proxsync.Retention.Apply
use proxsync.Retention.Apply.Safety.{call_of}
use proxsync.Restore.Types.{RestoreRow}
use proxsync.Restore.Worker.{System}
use proxsync.Restore.Worker.Works.{Works}

-- A row of the table as a retention pass reads it.
abbrev pub history_of : RestoreRow → RestoreHistory
history_of r = record { backup_id = r.backup_id; status = r.status }

-- The pass makes no call, or one call for a copy of another backup.
abbrev pub Spares : ℕ → List AgentCall → List AgentCall → Type 0
Spares backup_id before after =
    (after ≡ before)
    ⊎ ((call : AgentCall) × (plan : PlannedDecision) × (after ≡ call ∷ before)
        × (call_of plan ≡ some call)
        × (plan.backup.id ≢ backup_id))
