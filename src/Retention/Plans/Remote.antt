-- ===== src/Retention/Plans/Remote.antt =====
-- When a remote copy is removable, and how many copies one classification spares.
use mathlib.Core.Option
use proxsync.Prelude.{
  ℕ, ◌+◌, ◌≤◌, ◌≡◌, refl, Bool, not, ◌&&◌, some, List, [], ◌∷◌, map, leb, count, is_some, min,
  arith, if◌then◌else◌, false,
}
use proxsync.Retention.Types.{
  RetentionBackup, remote, kept, within_keep, PlannedDecision, RetentionPolicySnapshot,
}
use proxsync.Retention.Plans.{
  rankable, planned, remote_target, remote_candidate, remote_ranked, remote_plans,
  would_delete_count,
}
use proxsync.Retention.Plans.Rank.{IdsDistinct, above, plan_at, counted_plans, plan_loop-enumerate}

-- What makes a row removable, given how many rankable rows are newer.
abbrev pub remote_removable : RetentionPolicySnapshot → (ℕ → Bool) → ℕ → RetentionBackup → Bool
remote_removable policy active newer row =
    rankable row
    && leb policy.keep_remote newer
    && policy.delete_remote_on_retention
    && policy.gdrive_enabled
    && is_some (remote_target row)
    && not (active row.id)

abbrev pub remote_flags :
    RetentionPolicySnapshot → (ℕ → Bool) → ℕ → List RetentionBackup → List Bool
remote_flags policy active newer [] = []
remote_flags policy active newer (row ∷ rows) =
    remote_removable policy active newer row ∷ remote_flags policy active (above newer row) rows

module _ (policy : RetentionPolicySnapshot) (active : ℕ → Bool) where
  abbrev decide_remote : RetentionBackup → ℕ → PlannedDecision
  decide_remote row newer =
      if leb policy.keep_remote newer
      then remote_candidate row policy (remote_target row) (active row.id)
      else planned row remote kept (within_keep remote policy.keep_remote) false

  remote_ranked_agrees :
      (row : RetentionBackup) (n : ℕ)
      → remote_ranked policy active row (some n) ≡ some (decide_remote row n)
  unfolding remote_ranked
  remote_ranked_agrees row n = ground arith

  remote_flag :
      (newer : ℕ) (row : RetentionBackup)
      → (plan_at remote decide_remote newer row).would_delete
        ≡ remote_removable policy active newer row
  unfolding remote_candidate planned
  remote_flag newer row = ground arith

  remote_flags_of_plans :
      (newer : ℕ) (rows : List RetentionBackup)
      → map (λ p. p.would_delete) (counted_plans remote decide_remote newer rows)
        ≡ remote_flags policy active newer rows
  unfolding counted_plans
  remote_flags_of_plans newer [] = refl
  remote_flags_of_plans newer (row ∷ rows) =
      cc (remote_flag newer row, remote_flags_of_plans (above newer row) rows)

  remote_plans_counted :
      (rows : List RetentionBackup)
      → IdsDistinct rows
      → remote_plans active rows policy ≡ some (counted_plans remote decide_remote 0 rows)
  unfolding remote_plans
  remote_plans_counted rows d =
      plan_loop-enumerate remote (remote_ranked policy active) decide_remote remote_ranked_agrees
        rows d

  -- For rows with distinct ids the remote classifier never raises, and marks for deletion exactly
  -- the rows that are unlocked and dated, have at least `keep_remote` unlocked and dated rows before
  -- them, name a remote, and which no restore holds, and only if remote deletion and the drive are
  -- both enabled.
  pub remote_plans-removable :
      (rows : List RetentionBackup)
      → IdsDistinct rows
      → Option.map (map (λ p. p.would_delete)) (remote_plans active rows policy)
        ≡ some (remote_flags policy active 0 rows)
  remote_plans-removable rows d =
      rw (remote_plans_counted rows d) (rw (remote_flags_of_plans 0 rows))

  remote_bound :
      (newer : ℕ) (rows : List RetentionBackup)
      → count (λ p. p.would_delete) (counted_plans remote decide_remote newer rows)
          + min policy.keep_remote (newer + count rankable rows)
        ≤ min policy.keep_remote newer + count rankable rows
  unfolding counted_plans
  remote_bound newer [] = omega arith
  remote_bound newer (row ∷ rows) =
      ground (arith, remote_flag newer row, remote_bound (above newer row) rows)

  -- For rows with distinct ids one classification spares at least `keep_remote` unlocked and dated remote
  -- copies, or all of them if there are fewer.
  pub remote_plans-leaves_keep :
      (rows : List RetentionBackup)
      → IdsDistinct rows
      → would_delete_count (remote_plans active rows policy)
          + min policy.keep_remote (count rankable rows)
        ≤ count rankable rows
  remote_plans-leaves_keep rows d =
      rw (remote_plans_counted rows d) (omega (arith, remote_bound 0 rows))
