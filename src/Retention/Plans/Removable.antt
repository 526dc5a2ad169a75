-- ===== src/Retention/Plans/Removable.antt =====
-- What holds of each copy that a classifier marks for deletion, whatever the ids of the rows.
use mathlib.Core.Path.{subst}
use proxsync.Prelude.{
  ℕ, ◌≡◌, refl, Bool, true, false, Option, none, some, List, [], ◌∷◌, filter, All, is_some, take,
  arith,
}
use proxsync.Retention.Types.{
  RetentionBackup, RetentionLocation, local, remote, PlannedDecision, RetentionPolicySnapshot,
  Blocker, PolicyBlock,
}
use proxsync.Retention.Plans.{
  rankable, planned, local_upload_blocker, remote_target, local_candidate, local_ranked,
  remote_candidate, remote_ranked, plan_of_row, cons_plan, plan_loop, enumerate,
  replacement_blocker, local_plans, remote_plans, blocked_plans,
}

abbrev list_of {ℓ} : {A : Type ℓ} → Option (List A) → List A
list_of none = []
list_of (some l) = l

-- A copy that may go: unlocked, dated, held by no restore; a local one has nothing left to upload,
-- a remote one names its remote and both switches are on.
pub record IsRemovable (active : ℕ → Bool) (policy : RetentionPolicySnapshot)
    (plan : PlannedDecision) : Type 0 where
  pub unlocked_and_dated : rankable plan.backup ≡ true
  pub unrestored : active plan.backup.id ≡ false
  pub settled : plan.location ≡ local → local_upload_blocker plan.backup ≡ none
  pub remote_deletion : plan.location ≡ remote → policy.delete_remote_on_retention ≡ true
  pub remote_sync : plan.location ≡ remote → policy.gdrive_enabled ≡ true
  pub remote_named : plan.location ≡ remote → is_some (remote_target plan.backup) ≡ true

abbrev pub IsSound : (ℕ → Bool) → RetentionPolicySnapshot → PlannedDecision → Type 0
IsSound active policy plan = plan.would_delete ≡ true → IsRemovable active policy plan

cons_plan-All :
    (P : PlannedDecision → Type 0) (o : Option PlannedDecision) (os : Option (List PlannedDecision))
    (plans : List PlannedDecision)
    → ((plan : PlannedDecision) → o ≡ some plan → P plan)
    → ((rest : List PlannedDecision) → os ≡ some rest → All P rest)
    → cons_plan o os ≡ some plans
    → All P plans
unfolding cons_plan
cons_plan-All P none os plans one rest h = cc
cons_plan-All P (some plan) none plans one rest h = cc
cons_plan-All P (some plan) (some others) plans one rest h =
    subst (λ o. All P (list_of o)) h (one plan refl, rest others refl)

plan_loop-All :
    (P : PlannedDecision → Type 0) (location : RetentionLocation)
    (ranked : RetentionBackup → Option ℕ → Option PlannedDecision) (ranks : List (ℕ × ℕ))
    (each : (row : RetentionBackup) (plan : PlannedDecision)
      → plan_of_row location (ranked row) ranks row ≡ some plan
      → P plan)
    (rows : List RetentionBackup) (plans : List PlannedDecision)
    → plan_loop location ranked ranks rows ≡ some plans
    → All P plans
unfolding plan_loop
plan_loop-All P location ranked ranks each [] plans h = subst (λ o. All P (list_of o)) h tt
plan_loop-All P location ranked ranks each (row ∷ rows) plans h =
    cons_plan-All P (plan_of_row location (ranked row) ranks row)
      (plan_loop location ranked ranks rows) plans (each row)
      (plan_loop-All P location ranked ranks each rows) h

module _ (active : ℕ → Bool) (policy : RetentionPolicySnapshot) where
  local_row-IsSound :
      (keep : ℕ) (replacement : Option Blocker) (ranks : List (ℕ × ℕ)) (row : RetentionBackup)
      (plan : PlannedDecision)
      → plan_of_row local (local_ranked keep replacement active row) ranks row ≡ some plan
      → IsSound active policy plan
  unfolding local_ranked local_candidate planned
  local_row-IsSound keep replacement ranks row plan e d = ground arith

  remote_row-IsSound :
      (ranks : List (ℕ × ℕ)) (row : RetentionBackup) (plan : PlannedDecision)
      → plan_of_row remote (remote_ranked policy active row) ranks row ≡ some plan
      → IsSound active policy plan
  unfolding remote_ranked remote_candidate planned
  remote_row-IsSound ranks row plan e d = ground arith

  pub local_plans-IsSound :
      (rows : List RetentionBackup) (keep : ℕ) (plans : List PlannedDecision)
      → local_plans active rows keep ≡ some plans
      → All (IsSound active policy) plans
  unfolding local_plans
  local_plans-IsSound rows keep plans =
      plan_loop-All (IsSound active policy) local
        (local_ranked keep (replacement_blocker (take keep (filter rankable rows))) active)
        (enumerate 0 (filter rankable rows))
        (local_row-IsSound keep (replacement_blocker (take keep (filter rankable rows)))
          (enumerate 0 (filter rankable rows)))
        rows plans

  pub remote_plans-IsSound :
      (rows : List RetentionBackup) (plans : List PlannedDecision)
      → remote_plans active rows policy ≡ some plans
      → All (IsSound active policy) plans
  unfolding remote_plans
  remote_plans-IsSound rows plans =
      plan_loop-All (IsSound active policy) remote (remote_ranked policy active)
        (enumerate 0 (filter rankable rows))
        (remote_row-IsSound (enumerate 0 (filter rankable rows))) rows plans

pub blocked_plans-kept :
    (rows : List RetentionBackup) (location : RetentionLocation) (reason : PolicyBlock)
    → All (λ p. p.would_delete ≡ false) (blocked_plans rows location reason)
unfolding blocked_plans planned
blocked_plans-kept [] location reason = tt
blocked_plans-kept (row ∷ rows) location reason = (refl, blocked_plans-kept rows location reason)
