-- ===== src/Retention/Plans/Rank.antt =====
-- The dictionary of ranks gives each row the number of rankable rows above it, so the loop of the
-- classifiers computes with a running count.
use proxsync.Prelude.{
  ℕ, suc, ◌≡◌, ◌≢◌, refl, true, Option, none, some, List, [], ◌∷◌, filter, All, is_some, arith,
  Bool-cases, inl, inr, if◌then◌else◌,
}
use proxsync.Retention.Types.{
  RetentionBackup, RetentionLocation, PlannedDecision, retention_locked, missing_started_at,
}
use proxsync.Retention.Plans.{rankable, skip, enumerate, rank_of, plan_of_row, plan_loop}

-- No two rows have the same id, as the primary key of the table guarantees.
abbrev pub IdsDistinct : List RetentionBackup → Type 0
IdsDistinct [] = Unit
IdsDistinct (row ∷ rows) = All (λ other. other.id ≢ row.id) rows × IdsDistinct rows

abbrev pub above : ℕ → RetentionBackup → ℕ
above newer row = if rankable row then suc newer else newer

-- Each rankable row has its running count for a rank.
abbrev RanksFrom : ℕ → List (ℕ × ℕ) → List RetentionBackup → Type 0
RanksFrom newer ranks [] = Unit
RanksFrom newer ranks (row ∷ rows) =
    (rankable row ≡ true → rank_of row.id ranks ≡ some newer)
    × RanksFrom (above newer row) ranks rows

rank_of_absent :
    (id index : ℕ) (rows : List RetentionBackup)
    → All (λ other. other.id ≢ id) rows
    → rank_of id (enumerate index (filter rankable rows)) ≡ none
unfolding rank_of enumerate
rank_of_absent id index [] h = refl
rank_of_absent id index (row ∷ rows) h = elim (Bool-cases (rankable row)) [
  | inl r ↦ rw (r, rank_of) (rw (rank_of_absent id (suc index) rows h.1) (ground (arith, h.0)))
  | inr r ↦ rw r (rank_of_absent id index rows h.1)
]

RanksFrom-cons :
    (newer key index : ℕ) (ranks : List (ℕ × ℕ)) (rows : List RetentionBackup)
    → RanksFrom newer ranks rows
    → RanksFrom newer ((key, index) ∷ ranks) rows
unfolding rank_of
RanksFrom-cons newer key index ranks [] h = tt
RanksFrom-cons newer key index ranks (row ∷ rows) h =
    (λ r. rw (h.0 r), RanksFrom-cons (above newer row) key index ranks rows h.1)

RanksFrom-enumerate :
    (index : ℕ) (rows : List RetentionBackup)
    → IdsDistinct rows
    → RanksFrom index (enumerate index (filter rankable rows)) rows
unfolding enumerate
RanksFrom-enumerate index [] h = tt
RanksFrom-enumerate index (row ∷ rows) h = elim (Bool-cases (rankable row)) [
  | inl r ↦ rw r (
    (λ _. unfold rank_of in rw (rank_of_absent row.id (suc index) rows h.0) (ground arith)),
    RanksFrom-cons (suc index) row.id index _ rows (RanksFrom-enumerate (suc index) rows h.1),
  )
  | inr r ↦ rw r ((λ t. ground arith), RanksFrom-enumerate index rows h.1)
]

module _ (location : RetentionLocation) (decide : RetentionBackup → ℕ → PlannedDecision) where
  abbrev pub plan_at : ℕ → RetentionBackup → PlannedDecision
  plan_at newer row =
      if row.retention_locked
      then skip row location retention_locked
      else if is_some row.started_at
      then decide row newer
      else skip row location missing_started_at

  -- The loop without the dictionary.
  unfoldable pub counted_plans : ℕ → List RetentionBackup → List PlannedDecision
  counted_plans newer [] = []
  counted_plans newer (row ∷ rows) = plan_at newer row ∷ counted_plans (above newer row) rows

module _ (location : RetentionLocation)
    (ranked : RetentionBackup → Option ℕ → Option PlannedDecision)
    (decide : RetentionBackup → ℕ → PlannedDecision)
    (agree : (row : RetentionBackup) (n : ℕ) → ranked row (some n) ≡ some (decide row n)) where
  row_counted :
      (newer : ℕ) (ranks : List (ℕ × ℕ)) (row : RetentionBackup)
      → (rankable row ≡ true → rank_of row.id ranks ≡ some newer)
      → plan_of_row location (ranked row) ranks row ≡ some (plan_at location decide newer row)
  row_counted newer ranks row h = ground (arith, agree row newer)

  loop_counted :
      (newer : ℕ) (ranks : List (ℕ × ℕ)) (rows : List RetentionBackup)
      → RanksFrom newer ranks rows
      → plan_loop location ranked ranks rows ≡ some (counted_plans location decide newer rows)
  unfolding plan_loop counted_plans
  loop_counted newer ranks [] h = refl
  loop_counted newer ranks (row ∷ rows) h =
      rw (row_counted newer ranks row h.0) (rw (loop_counted (above newer row) ranks rows h.1))

  pub plan_loop-enumerate :
      (rows : List RetentionBackup)
      → IdsDistinct rows
      → plan_loop location ranked (enumerate 0 (filter rankable rows)) rows
        ≡ some (counted_plans location decide 0 rows)
  plan_loop-enumerate rows h = loop_counted 0 _ rows (RanksFrom-enumerate 0 rows h)
