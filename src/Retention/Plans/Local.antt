-- ===== src/Retention/Plans/Local.antt =====
-- When a local copy is removable, and how many copies one classification spares.
use proxsync.Prelude.{
  ℕ, ◌+◌, ◌≤◌, ◌≡◌, refl, Bool, true, false, not, ◌&&◌, Option, some, List, [], ◌∷◌, map, leb,
  filter, count, take, is_some, min, arith, if◌then◌else◌,
}
use mathlib.Core.Option
use proxsync.Retention.Types.{RetentionBackup, local, kept, Blocker, within_keep, PlannedDecision}
use proxsync.Retention.Plans.{
  rankable, planned, local_upload_blocker, replacement_blocker, local_candidate, local_ranked,
  local_plans, would_delete_count,
}
use proxsync.Retention.Plans.Rank.{IdsDistinct, above, plan_at, counted_plans, plan_loop-enumerate}

-- A copy has nothing left to upload.
abbrev pub upload_settled : RetentionBackup → Bool
upload_settled row = not (is_some (local_upload_blocker row))

abbrev pub all_settled : List RetentionBackup → Bool
all_settled [] = true
all_settled (row ∷ rows) = upload_settled row && all_settled rows

-- What makes a row removable, given how many rankable rows are newer.
abbrev pub local_removable : ℕ → Bool → (ℕ → Bool) → ℕ → RetentionBackup → Bool
local_removable keep settled active newer row =
    rankable row && leb keep newer && upload_settled row && settled && not (active row.id)

abbrev pub local_flags : ℕ → Bool → (ℕ → Bool) → ℕ → List RetentionBackup → List Bool
local_flags keep settled active newer [] = []
local_flags keep settled active newer (row ∷ rows) =
    local_removable keep settled active newer row
    ∷ local_flags keep settled active (above newer row) rows

replacement_blocker-settled :
    (rows : List RetentionBackup) → not (is_some (replacement_blocker rows)) ≡ all_settled rows
unfolding replacement_blocker
replacement_blocker-settled [] = refl
replacement_blocker-settled (row ∷ rows) = ground (arith, replacement_blocker-settled rows)

abbrev decide_local : ℕ → Option Blocker → (ℕ → Bool) → RetentionBackup → ℕ → PlannedDecision
decide_local keep replacement active row newer =
    if leb keep newer
    then local_candidate row keep (local_upload_blocker row) replacement (active row.id)
    else planned row local kept (within_keep local keep) false

local_ranked_agrees :
    (keep : ℕ) (replacement : Option Blocker) (active : ℕ → Bool) (row : RetentionBackup) (n : ℕ)
    → local_ranked keep replacement active row (some n)
      ≡ some (decide_local keep replacement active row n)
unfolding local_ranked
local_ranked_agrees keep replacement active row n = ground arith

local_flag :
    (keep : ℕ) (replacement : Option Blocker) (active : ℕ → Bool) (newer : ℕ)
    (row : RetentionBackup)
    → (plan_at local (decide_local keep replacement active) newer row).would_delete
      ≡ local_removable keep (not (is_some replacement)) active newer row
unfolding local_candidate planned
local_flag keep replacement active newer row = ground arith

local_flags_of_plans :
    (keep : ℕ) (replacement : Option Blocker) (active : ℕ → Bool) (newer : ℕ)
    (rows : List RetentionBackup)
    → map
        (λ p. p.would_delete)
        (counted_plans local (decide_local keep replacement active) newer rows)
      ≡ local_flags keep (not (is_some replacement)) active newer rows
unfolding counted_plans
local_flags_of_plans keep replacement active newer [] = refl
local_flags_of_plans keep replacement active newer (row ∷ rows) = cc (
  local_flag keep replacement active newer row,
  local_flags_of_plans keep replacement active (above newer row) rows,
)

local_plans_counted :
    (active : ℕ → Bool) (rows : List RetentionBackup) (keep : ℕ)
    → IdsDistinct rows
    → local_plans active rows keep
      ≡ some (
          counted_plans local
            (decide_local keep (replacement_blocker (take keep (filter rankable rows))) active)
            0
            rows)
unfolding local_plans
local_plans_counted active rows keep d =
    plan_loop-enumerate local
      (local_ranked keep (replacement_blocker (take keep (filter rankable rows))) active)
      (decide_local keep (replacement_blocker (take keep (filter rankable rows))) active)
      (local_ranked_agrees keep (replacement_blocker (take keep (filter rankable rows))) active)
      rows d

-- For rows with distinct ids the local classifier never raises, and marks for deletion exactly the
-- rows that are unlocked and dated, have at least `keep` unlocked and dated rows before them, whose
-- own upload and the uploads of the `keep` newest such rows are settled, and which no restore holds.
pub local_plans-removable :
    (active : ℕ → Bool) (rows : List RetentionBackup) (keep : ℕ)
    → IdsDistinct rows
    → Option.map (map (λ p. p.would_delete)) (local_plans active rows keep)
      ≡ some (local_flags keep (all_settled (take keep (filter rankable rows))) active 0 rows)
local_plans-removable active rows keep d =
    let ranked = take keep (filter rankable rows) in
    rw (local_plans_counted active rows keep d) (
      rw (local_flags_of_plans keep (replacement_blocker ranked) active 0 rows)
        (rw (replacement_blocker-settled ranked)))

flags_bound :
    (keep : ℕ) (replacement : Option Blocker) (active : ℕ → Bool) (newer : ℕ)
    (rows : List RetentionBackup)
    → count
          (λ p. p.would_delete)
          (counted_plans local (decide_local keep replacement active) newer rows)
        + min keep (newer + count rankable rows)
      ≤ min keep newer + count rankable rows
unfolding counted_plans
flags_bound keep replacement active newer [] = omega arith
flags_bound keep replacement active newer (row ∷ rows) = ground (
  arith,
  local_flag keep replacement active newer row,
  flags_bound keep replacement active (above newer row) rows,
)

-- For rows with distinct ids one classification spares at least `keep` unlocked and dated local copies,
-- or all of them if there are fewer: what it marks for deletion and what it must keep fit the total.
pub local_plans-leaves_keep :
    (active : ℕ → Bool) (rows : List RetentionBackup) (keep : ℕ)
    → IdsDistinct rows
    → would_delete_count (local_plans active rows keep) + min keep (count rankable rows)
      ≤ count rankable rows
local_plans-leaves_keep active rows keep d = rw (local_plans_counted active rows keep d) (
    omega (
      arith,
      flags_bound keep (replacement_blocker (take keep (filter rankable rows))) active 0 rows,
    ))
