-- ===== src/Restore/System/Started.antt =====
-- What starting a restore on the host adds to the record, and rows found by other means than their id.
use mathlib.Core.Path.{subst}
use proxsync.Prelude.{
  ◌≡◌, refl, sym, ap, Bool, true, false, inl, inr, none, some, List, [], ◌∷◌, ◌==◌, find, find-cons,
  filter, All, arith, Bool-cases, Option-cases, is_some,
}
use proxsync.Retention.Types.{RestoreStatus}
use proxsync.Restore.Types.{RestoreRow}
use proxsync.Restore.Repository.{is_running, get_row}
use proxsync.Restore.Repository.Updates.{Distinct}
use proxsync.Restore.Steps.{RestorePlan}
use proxsync.Restore.System.Rows.{RowOk, waits, start_count, AreSafe, runs, running_row}

-- A row found by any test is the one that its id finds.
pub find-get_row :
    (q : RestoreRow → Bool) (r : RestoreRow) (rows : List RestoreRow)
    → Distinct rows
    → find q rows ≡ some r
    → get_row r.id rows ≡ some r
find-get_row q r [] d h = cc
find-get_row q r (u ∷ rows) d h = elim (find-cons q r u rows h) [
  | inl (passes, same) ↦ subst (λ v. get_row v.id (u ∷ rows) ≡ some v) same (ground arith)
  | inr (fails, later) ↦
      let found = find-get_row q r rows d.1 later in
      elim (Bool-cases (u.id == r.id)) [
        | inl same ↦
            let e : u.id ≡ r.id = ground arith in
            absurd (cc (d.0, found, ap (λ j. get_row j rows) e))
        | inr other ↦ simp other found
      ]
]

-- The first row that a filter keeps is the one that its id finds.
pub filter-get_row :
    (q : RestoreRow → Bool) (r : RestoreRow) (rest rows : List RestoreRow)
    → Distinct rows
    → filter q rows ≡ r ∷ rest
    → get_row r.id rows ≡ some r
filter-get_row q r rest rows d h = find-get_row q r rows d (find-filter rows h)
  where
    find-filter : (rows : List RestoreRow) → filter q rows ≡ r ∷ rest → find q rows ≡ some r
    find-filter [] k = cc
    find-filter (u ∷ us) k = elim (Bool-cases (q u)) [
      | inl passes ↦ ground arith
      | inr fails ↦ simp fails (find-filter us (simp fails at k))
    ]

-- A restore that runs was claimed.
running-waits : (status : RestoreStatus) → is_running status ≡ true → waits status ≡ false
running-waits RestoreStatus.pending_confirmation h = cc
running-waits RestoreStatus.confirmed h = cc
running-waits RestoreStatus.running h = refl
running-waits RestoreStatus.success h = refl
running-waits RestoreStatus.failed h = refl
running-waits RestoreStatus.cancelled h = refl
running-waits RestoreStatus.interrupted h = refl
running-waits RestoreStatus.expired h = refl

absent-start :
    (plan : RestorePlan) (starts : List RestorePlan) (rows : List RestoreRow)
    → get_row plan.restore_id rows ≡ none
    → All (RowOk starts) rows
    → All (RowOk (plan ∷ starts)) rows
absent-start plan starts [] absent h = tt
absent-start plan starts (r ∷ rows) absent h = ground (arith, absent-start plan starts rows)

running-start :
    (plan : RestorePlan) (starts : List RestorePlan) (rows : List RestoreRow)
    → Distinct rows
    → runs plan.restore_id rows ≡ true
    → start_count plan.restore_id starts ≡ 0
    → All (RowOk starts) rows
    → All (RowOk (plan ∷ starts)) rows
running-start plan starts [] d ran unstarted h = cc
running-start plan starts (r ∷ rows) d ran unstarted h =
    elim (Bool-cases (r.id == plan.restore_id)) [
      | inl same ↦
          let e : r.id ≡ plan.restore_id = ground arith in
          let ran_r : is_running r.status ≡ true = simp same at ran in
          let none_yet : start_count r.id starts ≡ 0 =
            subst (λ j. start_count j starts ≡ 0) (sym e) unstarted in
          (
            (h.0.0, h.0.1, ground (arith, none_yet, running-waits r.status)),
            absent-start plan starts rows (subst (λ j. get_row j rows ≡ none) e d.0) h.1,
          )
      | inr other ↦ (
        (h.0.0, h.0.1, ground arith),
        running-start plan starts rows d.1 (simp other at ran) unstarted h.1,
      )
    ]

pub start-AreSafe :
    (plan : RestorePlan) (starts : List RestorePlan) (rows : List RestoreRow)
    → runs plan.restore_id rows ≡ true
    → start_count plan.restore_id starts ≡ 0
    → AreSafe starts rows
    → AreSafe (plan ∷ starts) rows
start-AreSafe plan starts rows ran unstarted safe = record {
  distinct = safe.distinct;
  each = running-start plan starts rows safe.distinct ran unstarted safe.each;
  single = safe.single;
  known = (known_now, safe.known);
}
  where
    known_now : is_some (get_row plan.restore_id rows) ≡ true
    known_now = elim (Option-cases (get_row plan.restore_id rows)) [
      | inl absent ↦ absurd (cc (ap running_row absent, ran))
      | inr (r, found) ↦ simp found refl
    ]
