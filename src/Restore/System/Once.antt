-- ===== src/Restore/System/Once.antt =====
-- What is started on the host.
use mathlib.Core.Path.{subst}
use proxsync.Prelude.{
  ℕ, ◌≤◌, ◌≡◌, true, some, List, ◌==◌, arith, find-some, is_some, Option-cases, Bool-cases, inl,
  inr,
}
use proxsync.Restore.Types.{RestoreRow}
use proxsync.Restore.Repository.{get_row}
use proxsync.Restore.Repository.Updates.{All-get_row}
use proxsync.Restore.Service.{World}
use proxsync.Restore.Steps.{RestorePlan}
use proxsync.Restore.Worker.{System}
use proxsync.Restore.System.{Reachable}
use proxsync.Restore.System.Rows.{RowOk, waits, start_count, unknown_start_count}
use proxsync.Restore.System.Routes.{IsFresh}
use proxsync.Restore.System.Invariant.{Reachable-IsSafe}

-- Who was started was confirmed, at the instant that its row tells.
abbrev pub IsAsked : ℕ → List RestoreRow → Type 0
IsAsked id rows = (r : RestoreRow) × (get_row id rows ≡ some r) × (is_some r.confirmed_at ≡ true)

claimed-confirmed :
    (starts : List RestorePlan) (r : RestoreRow)
    → RowOk starts r
    → 1 ≤ start_count r.id starts
    → is_some r.confirmed_at ≡ true
claimed-confirmed starts r ok started = elim (Bool-cases (waits r.status)) [
  | inl waiting ↦ absurd (ground (arith, waiting, ok.2, started))
  | inr claimed ↦ ground (arith, claimed, ok.2, started)
]

at_most_once :
    (starts : List RestorePlan) (r : RestoreRow) → RowOk starts r → start_count r.id starts ≤ 1
at_most_once starts r ok = ground (arith, ok.2)

-- Whatever the routes, the worker, unexpected exceptions and restarts of the process do in whatever
-- order, where new ids are fresh: no restore is started on the host more than once, and one that was
-- started is in the table with the instant at which somebody confirmed it.
pub Reachable-start_count :
    (w : World) (grace : ℕ) (y : System) (id : ℕ)
    → IsFresh w
    → Reachable w grace y
    → (start_count id y.starts ≤ 1) × (1 ≤ start_count id y.starts → IsAsked id y.store.restores)
Reachable-start_count w grace y id fresh reached =
    let table = (Reachable-IsSafe w grace y fresh reached).table in
    elim (Option-cases (get_row id y.store.restores)) [
      | inl absent ↦
          let never = unknown_start_count id y.store.restores y.starts absent table.known in
          (omega (arith, never), λ h. absurd (omega (arith, never, h)))
      | inr (r, found) ↦
          let same : r.id ≡ id =
            ground (arith, find-some (λ u. u.id == id) r y.store.restores found) in
          let ok = All-get_row (RowOk y.starts) id r y.store.restores table.each found in
          subst
            (λ j.
              (start_count j y.starts ≤ 1)
              × (1 ≤ start_count j y.starts → IsAsked id y.store.restores))
            same (at_most_once y.starts r ok, λ h. (r, found, claimed-confirmed y.starts r ok h))
    ]
