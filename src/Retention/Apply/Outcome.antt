-- ===== src/Retention/Apply/Outcome.antt =====
-- What one deletion leaves behind, for each answer of the agent.
use proxsync.Prelude.{◌≡◌, ◌≢◌, true, false, some, ◌∷◌, ◌⊎◌}
use proxsync.Prelude.Text.{Text}
use proxsync.Retention.Types.{failed, PlannedDecision, RetentionDecision}
use proxsync.Retention.Repository.Marks.Losses.{Marked}
use proxsync.Retention.Apply.{World, State, AgentCall, AgentReply, freed, agent_error, crashed}

-- The agent has said that it holds no such archive any more.
abbrev pub SaysGone : AgentReply → Type 0
SaysGone (freed bytes) = Unit
SaysGone (agent_error status detail) = status ≡ some 404
SaysGone (crashed detail) = ⊥

abbrev pub SaysOther : AgentReply → Type 0
SaysOther (freed bytes) = ⊥
SaysOther (agent_error status detail) = status ≢ some 404
SaysOther (crashed detail) = Unit

-- The agent was asked and said that the copy is gone: it is reported and marked. Or no question was
-- put, or another answer came: a failure is reported, no freed bytes, and the database is as before.
abbrev pub IsHonest : World → PlannedDecision → State → RetentionDecision → State → Type 0
IsHonest w plan s item after =
    ((item.deleted ≡ true)
      × (item.action ≡ plan.action)
      × ((call : AgentCall) × (after.calls ≡ call ∷ s.calls))
      × SaysGone (w.reply after.calls)
      × Marked plan.backup.id plan.location s.db after.db)
    ⊎ ((item.deleted ≡ false)
        × (item.action ≡ failed)
        × (item.freed_bytes ≡ 0)
        × ((after.calls ≡ s.calls)
            ⊎ ((call : AgentCall) × (after.calls ≡ call ∷ s.calls))
              × SaysOther (w.reply after.calls))
        × (after.db ≡ s.db))

module _ (w : World) (plan : PlannedDecision) where
  module _ (s : State) (call : AgentCall) (item : RetentionDecision) where
    abbrev asked : State
    asked = record s { calls = call ∷ s.calls }
