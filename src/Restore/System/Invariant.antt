-- ===== src/Restore/System/Invariant.antt =====
-- Every state that the dashboard reaches is safe: routes, worker, crashes and restarts together.
use mathlib.Core.Path.{subst}
use proxsync.Prelude.{
  ℕ, ◌≤◌, ◌≡◌, refl, ap, true, List, [], ◌∷◌, filter, length, count, arith, Option-cases,
  Bool-cases, inl, inr,
}
use proxsync.Retention.Types.{RestoreStatus}
use proxsync.Restore.Types.{RestoreRow}
use proxsync.Restore.Repository.{is_running, is_in_flight, running_rows}
use proxsync.Restore.Repository.Updates.{one_if, All-get_row}
use proxsync.Restore.Service.{World}
use proxsync.Restore.Steps.{idle}
use proxsync.Restore.Worker.{System}
use proxsync.Restore.Worker.Closing.{running_status, running-Claimed, close_row-AreSafe}
use proxsync.Restore.Worker.Works.{IsSafe, kept-IsSafe}
use proxsync.Restore.Worker.Safe.{advance-IsSafe}
use proxsync.Restore.System.{
  unconfirmed, adoptable, adopt, close_all, recover, Step, created, confirmed, cancelled, swept,
  advanced, restarted, changed, Reachable, start, next,
}
use proxsync.Restore.System.Rows.{AreSafe, RowOk, in_flight_row, runs, start_count}
use proxsync.Restore.System.Started.{filter-get_row}
use proxsync.Restore.System.Routes.{
  IsFresh, same-IsKept, created-IsKept, confirmed-IsKept, cancelled-IsKept, swept-IsKept,
}

running_flies : (r : RestoreRow) → is_running r.status ≡ true → is_in_flight r.status ≡ true
running_flies r h = ap (λ s. is_in_flight s) (running_status r.status h)

pub filter-running :
    (rows : List RestoreRow)
    → length (filter (λ r. is_running r.status) rows) ≤ count in_flight_row rows
filter-running [] = omega arith
filter-running (r ∷ rows) = elim (Bool-cases (is_running r.status)) [
  | inl ran ↦ ground (arith, ran, running_flies r ran, filter-running rows)
  | inr still ↦ ground (arith, still, filter-running rows)
]

pub filter-passes :
    (r : RestoreRow) (rest rows : List RestoreRow)
    → filter (λ u. is_running u.status) rows ≡ r ∷ rest
    → is_running r.status ≡ true
filter-passes r rest [] h = cc
filter-passes r rest (u ∷ rows) h = elim (Bool-cases (is_running u.status)) [
  | inl ran ↦ subst (λ v. is_running v.status ≡ true) (head (simp ran at h)) ran
  | inr still ↦ filter-passes r rest rows (simp still at h)
]
  where
    head : {u v : RestoreRow} {us vs : List RestoreRow} → u ∷ us ≡ v ∷ vs → u ≡ v
    head e = cc

-- A new process that finds these restores running.
recover_from :
    (now : ℕ) (y : System) (running : List RestoreRow)
    → running_rows y.store.restores ≡ running
    → AreSafe y.starts y.store.restores
    → IsSafe (record y {
      store = record (y.store) { restores = close_all now (unconfirmed running) y.store.restores };
      stage = idle;
      resume = adoptable running;
    })
unfolding unconfirmed adoptable adopt close_all running_rows
recover_from now y [] e table = record { table = table; work = (omega arith, tt); ends = tt }
recover_from now y (r ∷ []) e table =
    let found = filter-get_row (λ u. is_running u.status) r [] y.store.restores table.distinct e in
    let ran = filter-passes r [] y.store.restores e in
    let runs_now : runs r.id y.store.restores ≡ true = simp found ran in
    let ok = All-get_row (RowOk y.starts) r.id r y.store.restores table.each found in
    let claimed = running-Claimed y.starts r ran ok in
    let once : start_count r.id y.starts ≤ 1 =
      subst (λ b. start_count r.id y.starts ≤ one_if b) claimed.1 claimed.2 in
    elim (Option-cases r.agent_task_id) [
      | inl alone ↦ simp alone (record {
        table =
            close_row-AreSafe y.starts now RestoreStatus.interrupted r.id y.store.restores refl
              runs_now table;
        work = (omega arith, tt);
        ends = tt;
      })
      | inr (task, known) ↦
          simp known
            (record { table = table; work = (omega arith, ((runs_now, once), tt)); ends = tt })
    ]
recover_from now y (r ∷ u ∷ rest) e table =
    absurd (omega (arith, filter-running y.store.restores, table.single, ap (λ us. length us) e))

recover-IsSafe : (now : ℕ) (y : System) → IsSafe y → IsSafe (recover now y)
unfolding recover
recover-IsSafe now y safe = recover_from now y (running_rows y.store.restores) refl safe.table

after-IsSafe :
    (w : World) (grace : ℕ) (y z : System) → IsFresh w → Step w grace y z → IsSafe y → IsSafe z
after-IsSafe w grace y z fresh (created host request user now) safe =
    kept-IsSafe y _ (created-IsKept y.starts w host request user now y.store fresh) safe
after-IsSafe w grace y z fresh (confirmed host id payload now) safe =
    kept-IsSafe y _ (confirmed-IsKept y.starts w host id payload now y.store) safe
after-IsSafe w grace y z fresh (cancelled id now) safe =
    kept-IsSafe y _ (cancelled-IsKept y.starts id now y.store) safe
after-IsSafe w grace y z fresh (swept now) safe =
    kept-IsSafe y _ (swept-IsKept y.starts now y.store) safe
after-IsSafe w grace y z fresh (advanced i) safe = advance-IsSafe grace i y safe
after-IsSafe w grace y z fresh (restarted now) safe = recover-IsSafe now y safe
after-IsSafe w grace y z fresh (changed backups guests) safe =
    kept-IsSafe y _ (same-IsKept y.starts y.store.restores) safe

-- Whatever the routes, the worker, unexpected exceptions and restarts of the process do in whatever
-- order, where new ids are fresh: the ids of the restores are distinct, at most one restore is confirmed
-- or running, a token's hash is kept just while the restore is pending, one that is confirmed, runs or
-- ended as success, failed or interrupted has the instant of its confirmation, one that is pending or
-- confirmed was never started on the host, any other at most once and not without that instant, what was
-- started is in the table, the worker and the list it took over hold at most one restore, which runs, and
-- the worker closes a restore as success, failed, cancelled or interrupted only.
pub Reachable-IsSafe :
    (w : World) (grace : ℕ) (y : System) → IsFresh w → Reachable w grace y → IsSafe y
Reachable-IsSafe w grace y fresh (start backups guests) = record {
  table = record { distinct = tt; each = tt; single = omega arith; known = tt };
  work = (omega arith, tt);
  ends = tt;
}
Reachable-IsSafe w grace y fresh (next {y = before} before_ok step) =
    after-IsSafe w grace before y fresh step (Reachable-IsSafe w grace before fresh before_ok)
