-- ===== src/Retention/Apply/Audit.antt =====
-- What a pass writes: the audit rows of a dry run, and nothing else.
use mathlib.Core.List.{append-nil, append_assoc}
use proxsync.Prelude.{
  ℕ, ◌≡◌, refl, ◌∙◌, true, not, ◌||◌, ◌&&◌, Option, none, List, [], ◌∷◌, ◌++◌, arith, Bool-cases,
  inl, inr, is_some, filter, ltb,
}
use proxsync.Effects.{ok, return, ◌>>◌}
use proxsync.Retention.Types.{PlannedDecision, RetentionPolicySnapshot, RetentionDecision}
use proxsync.Retention.Repository.{RetentionEvent}
use proxsync.Retention.Service.{RetentionResponse, policy_of, plans_of, render}
use proxsync.Retention.Service.Sound.{policy_of-dry_run}
use proxsync.Retention.Apply.{
  World, State, Completed, event_of, projected_of, record_decision, commit, static_pass,
  process_candidates, notify_first, notify_deleted, respond, items_of, apply,
}

-- The state with audit rows added.
abbrev with_events : State → List RetentionEvent → State
with_events s events = record s { db = record s.db { events = s.db.events ++ events } }

module _ (policy : RetentionPolicySnapshot) (dry : policy.dry_run ≡ true) where
  audit_of : List PlannedDecision → List RetentionEvent
  audit_of [] = []
  audit_of (plan ∷ plans) =
      event_of plan (render plan) policy (projected_of policy plan) ∷ audit_of plans

  static_dry :
      (plans : List PlannedDecision) (s : State)
      → (completed : Completed) × (static_pass policy plans s
          ≡ (ok (completed, []), with_events s (audit_of plans)))
  unfolding static_pass audit_of record_decision
  static_dry [] s = ([], rw append-nil)
  static_dry (plan ∷ plans) s =
      let event = event_of plan (render plan) policy (projected_of policy plan) in
      let (completed, rest) = static_dry plans (with_events s (event ∷ [])) in
      let kept : (not plan.would_delete || policy.dry_run) ≡ true = ground arith in
      (
        completed ++ (plan.backup.id, plan.location, render plan) ∷ [],
        rw kept (rw rest (rw append_assoc)),
      )

notify_first_state :
    (response : RetentionResponse) (deleted : List RetentionDecision) (s : State)
    → (((notify_first response deleted >> return response) s).1.calls ≡ s.calls)
      × (((notify_first response deleted >> return response) s).1.db ≡ s.db)
unfolding notify_first
notify_first_state response [] s = (refl, refl)
notify_first_state response (first ∷ deleted) s = (refl, refl)

notify_state :
    (w : World) (response : RetentionResponse) (s : State)
    → (((notify_deleted w response >> return response) s).1.calls ≡ s.calls)
      × (((notify_deleted w response >> return response) s).1.db ≡ s.db)
unfolding notify_deleted
notify_state w response s =
    elim (Bool-cases (
      w.notifications
      && (ltb 0 response.summary.deleted_local || ltb 0 response.summary.deleted_remote))) [
        | inl t ↦ simp t (notify_first_state response (filter (λ i. i.deleted) response.items) s)
        | inr f ↦ simp f (refl, refl)
      ]

-- If the settings say dry run, no call reaches the agent, whatever the plans are and whatever other
-- sessions do, and this session's only writes are audit rows, added behind the old ones and
-- committed once.
pub apply-dry_run :
    (w : World) (trigger : Option ℕ) (s : State) (plans : List PlannedDecision)
    → s.db.retention.dry_run ≡ true
    → plans_of s.db (policy_of s.db none none none trigger (is_some trigger)) trigger ≡ ok plans
    → ((apply w trigger s).1.calls ≡ s.calls)
      × ((events : List RetentionEvent) × ((apply w trigger s).1.db
            ≡ w.interfere s.commits (record s.db { events = s.db.events ++ events })))
unfolding apply process_candidates commit
apply-dry_run w trigger s plans dry planned =
    let policy = policy_of s.db none none none trigger (is_some trigger) in
    let still : policy.dry_run ≡ true =
      policy_of-dry_run s.db none none trigger (is_some trigger) ∙ dry in
    let (completed, first) = static_dry policy still plans s in
    rw planned (
      rw first (
        let (calls, db) =
          notify_state w (respond policy (items_of completed plans))
            (commit w (with_events s (audit_of policy still plans))).1 in
        (calls, (audit_of policy still plans, db))))
