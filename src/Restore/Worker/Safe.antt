-- ===== src/Restore/Worker/Safe.antt =====
-- The worker keeps the table of restores safe, from each of its awaits to the next.
use mathlib.Core.Path.{subst}
use proxsync.Prelude.{
  ℕ, ◌≤◌, ◌≡◌, refl, ap, ◌∙◌, true, false, not, ◌||◌, none, some, List, [], ◌∷◌, ◌==◌, arith,
  find-some, is_some, Option-cases, Bool-cases, inl, inr, if◌then◌else◌,
}
use proxsync.Prelude.Text.{Text}
use proxsync.Retention.Types.{RestoreStatus}
use proxsync.Restore.Types.{RestoreRow}
use proxsync.Restore.Repository.{
  is_pending, is_confirmed, is_in_flight, get_row, update_row, next_confirmed, expire_pending,
}
use proxsync.Restore.Repository.Updates.{one_if, All-get_row, get_row-update_row}
use proxsync.Restore.Service.{expire_stale}
use proxsync.Restore.Steps.{
  Input, RestorePlan, Stage, idle, claiming, loading, fetching, downloading, marking, starting,
  attaching, following, recording, closing, handling, stopped, load, fetch, after_download,
  after_start, after_poll, poll, outcome_status, crash,
}
use proxsync.Restore.Worker.{
  System, run, run_row, attach_row, claim_next, claim_from, claim_row, crashed, advance,
}
use proxsync.Restore.Steps.Follows.{
  engaged, EndsWell, Follows, load-Follows, fetch-Follows, download-Follows, start-Follows,
  poll-Follows, outcome_status-closes,
}
use proxsync.Restore.System.Rows.{
  RowOk, AreSafe, in_flight_row, start_count, runs, waits, authorised, update_row-safe,
  update_row-AreSafe, runs-update_row,
}
use proxsync.Restore.System.Started.{find-get_row, start-AreSafe}
use proxsync.Restore.System.Routes.{IsKept, swept-IsKept}
use proxsync.Restore.Worker.Closing.{confirmed_status}
use proxsync.Restore.Worker.Works.{
  Works, IsSafe, goes-Works, rows-Works, in_stage-IsSafe, close-IsSafe,
}

runs-run_row :
    (now : ℕ) (r : RestoreRow) (rows : List RestoreRow)
    → get_row r.id rows ≡ some r
    → runs r.id (update_row r.id (run_row now) rows) ≡ true
unfolding run_row
runs-run_row now r rows found =
    let own : (r.id == r.id) ≡ true = ground arith in
    simp (get_row-update_row r.id (run_row now) r.id rows (λ u. refl), own, found) refl

claim_row-IsSafe :
    (y : System) (now : ℕ) (r : RestoreRow)
    → y.resume ≡ []
    → next_confirmed y.store.restores ≡ some r
    → AreSafe y.starts y.store.restores
    → IsSafe (record y {
      store = record (y.store) { restores = update_row r.id (run_row now) y.store.restores };
      stage = loading r.id;
    })
unfolding next_confirmed run_row
claim_row-IsSafe y now r alone next table =
    let rows = y.store.restores in
    let found : get_row r.id rows ≡ some r =
      find-get_row (λ u. is_confirmed u.status) r rows table.distinct next in
    let e : r.status ≡ RestoreStatus.confirmed =
      confirmed_status r.status (find-some (λ u. is_confirmed u.status) r rows next) in
    let ok : RowOk y.starts r = All-get_row (RowOk y.starts) r.id r rows table.each found in
    let unstarted : start_count r.id y.starts ≤ 0 =
      subst
        (λ s. start_count r.id y.starts ≤ (if waits s then 0 else one_if (is_some r.confirmed_at)))
        e ok.2 in
    let flying : in_flight_row r ≡ true = ap (λ s. is_in_flight s) e in
    record {
      table =
          update_row-AreSafe y.starts r.id (run_row now) rows (λ u. refl) r found
            (record {
              row = λ h. (
                h.0 ∙ ap (λ s. is_pending s) e,
                subst (λ s. not (authorised s) || is_some r.confirmed_at ≡ true) e h.1,
                omega (arith, unstarted),
              );
              flight = ground (arith, flying, table.single);
            })
            table;
      work = (alone, runs-run_row now r rows found, unstarted);
      ends = tt;
    }

claim_from-IsSafe :
    (y : System) (now : ℕ) (resume : List (ℕ × Text))
    → y.resume ≡ resume
    → AreSafe y.starts y.store.restores
    → Works y.store.restores y.starts resume none
    → IsSafe (claim_from now resume y)
unfolding claim_from claim_row
claim_from-IsSafe y now [] alone table work =
    elim (Option-cases (next_confirmed y.store.restores)) [
      | inl nothing ↦
          simp nothing (record { table = table; work = simp alone (omega arith, tt); ends = tt })
      | inr (r, next) ↦ simp next (claim_row-IsSafe y now r alone next table)
    ]
claim_from-IsSafe y now ((id, task) ∷ []) left table work = record {
  table = table;
  work = (refl, work.1.0.0, work.1.0.1);
  ends = tt;
}
claim_from-IsSafe y now (p ∷ q ∷ rest) left table work = absurd (omega (arith, work.0))

-- The worker takes up the next restore, and nothing else is at hand.
claim_next-IsSafe :
    (y : System) (now : ℕ)
    → AreSafe y.starts y.store.restores
    → Works y.store.restores y.starts y.resume none
    → IsSafe (claim_next now y)
unfolding claim_next
claim_next-IsSafe y now table work = claim_from-IsSafe y now y.resume refl table work

start-IsSafe :
    (y : System) (plan : RestorePlan) (stage : Stage)
    → AreSafe y.starts y.store.restores
    → Works y.store.restores y.starts y.resume (some (plan.restore_id, false))
    → Follows plan.restore_id true stage
    → IsSafe (record y { stage = stage; starts = plan ∷ y.starts })
start-IsSafe y plan stage table work follows = record {
  table = start-AreSafe plan y.starts y.store.restores work.1 (omega (arith, work.2)) table;
  work =
      goes-Works y.store.restores (plan ∷ y.starts) y.resume plan.restore_id true (engaged stage)
        (work.0, work.1, ground (arith, work.2)) follows.0;
  ends = follows.1;
}

run-IsSafe :
    (grace : ℕ) (i : Input) (stage : Stage) (y : System)
    → AreSafe y.starts y.store.restores
    → Works y.store.restores y.starts y.resume (engaged stage)
    → EndsWell stage
    → IsSafe (run grace i stage y)
unfolding run expire_stale
run-IsSafe grace i idle y table work ends = elim (Bool-cases i.stopping) [
  | inl stops ↦ simp stops (record { table = table; work = work; ends = tt })
  | inr on ↦
      let kept : IsKept y.starts y.store.restores (expire_pending i.now y.store.restores).1 =
        swept-IsKept y.starts i.now y.store in
      simp on (record {
        table = kept.safe table;
        work = rows-Works y.store.restores y.starts y.resume _ none kept.goes_on work;
        ends = tt;
      })
]
run-IsSafe grace i claiming y table work ends = claim_next-IsSafe y i.now table work
run-IsSafe grace i (loading id) y table work ends =
    in_stage-IsSafe y id false (load (get_row id y.store.restores) y.store.backups) table work
      (load-Follows id y.store.restores y.store.backups)
run-IsSafe grace i (fetching plan) y table work ends =
    in_stage-IsSafe y plan.restore_id false (fetch plan i.gdrive_enabled i.start_reply) table work
      (fetch-Follows plan i.gdrive_enabled i.start_reply)
run-IsSafe grace i (downloading plan since) y table work ends = elim (Bool-cases i.stopping) [
  | inl stops ↦ simp stops (in_stage-IsSafe y plan.restore_id false stopped table work (tt, tt))
  | inr on ↦ simp on (
      in_stage-IsSafe y plan.restore_id false
        (after_download plan (poll grace since i.loop_time i.poll_reply)) table work
        (download-Follows plan (poll grace since i.loop_time i.poll_reply)))
]
run-IsSafe grace i (marking plan) y table work ends = record {
  table = table;
  work = work;
  ends = tt;
}
run-IsSafe grace i (starting plan) y table work ends =
    start-IsSafe y plan (after_start plan i.start_reply) table work
      (start-Follows plan i.start_reply)
run-IsSafe grace i (attaching id task) y table work ends = record {
  table =
      update_row-safe y.starts id (attach_row task) y.store.restores (λ u. refl)
        (λ r found. record { row = λ h. h; flight = ground (arith, table.single) }) table;
  work =
      rows-Works y.store.restores y.starts y.resume _ (some (id, true))
        (λ other.
          runs-update_row y.starts id (attach_row task) y.store.restores (λ u. refl) other
            (λ r found ran. ran))
        work;
  ends = tt;
}
run-IsSafe grace i (following id since) y table work ends = elim (Bool-cases i.stopping) [
  | inl stops ↦ simp stops (in_stage-IsSafe y id true stopped table work (tt, tt))
  | inr on ↦ simp on (
      in_stage-IsSafe y id true (after_poll id (poll grace since i.loop_time i.poll_reply)) table
        work (poll-Follows id (poll grace since i.loop_time i.poll_reply)))
]
run-IsSafe grace i (recording id task) y table work ends =
    close-IsSafe y id true (outcome_status task.state) _ table work
      (outcome_status-closes task.state)
run-IsSafe grace i (closing id status) y table work ends =
    close-IsSafe y id true status i.now table work ends
run-IsSafe grace i (handling id) y table work ends =
    close-IsSafe y id true RestoreStatus.interrupted i.now table work refl
run-IsSafe grace i stopped y table work ends = record { table = table; work = work; ends = tt }

crashed-IsSafe :
    (stage : Stage) (y : System)
    → AreSafe y.starts y.store.restores
    → Works y.store.restores y.starts y.resume (engaged stage)
    → IsSafe (crashed stage y)
unfolding crashed crash
crashed-IsSafe idle y table work = record { table = table; work = work; ends = tt }
crashed-IsSafe claiming y table work = record { table = table; work = work; ends = tt }
crashed-IsSafe (loading id) y table work =
    in_stage-IsSafe y id false (handling id) table work ((refl, omega arith), tt)
crashed-IsSafe (fetching plan) y table work =
    in_stage-IsSafe y plan.restore_id false (handling plan.restore_id) table work
      ((refl, omega arith), tt)
crashed-IsSafe (downloading plan since) y table work =
    in_stage-IsSafe y plan.restore_id false (handling plan.restore_id) table work
      ((refl, omega arith), tt)
crashed-IsSafe (marking plan) y table work =
    in_stage-IsSafe y plan.restore_id false (handling plan.restore_id) table work
      ((refl, omega arith), tt)
crashed-IsSafe (starting plan) y table work =
    start-IsSafe y plan (handling plan.restore_id) table work ((refl, omega arith), tt)
crashed-IsSafe (attaching id task) y table work = record { table = table; work = work; ends = tt }
crashed-IsSafe (following id since) y table work = record { table = table; work = work; ends = tt }
crashed-IsSafe (recording id task) y table work = record { table = table; work = work; ends = tt }
crashed-IsSafe (closing id status) y table work = record { table = table; work = work; ends = tt }
crashed-IsSafe (handling id) y table work = in_stage-IsSafe y id true stopped table work (tt, tt)
crashed-IsSafe stopped y table work = record { table = table; work = work; ends = tt }

-- A stretch of the worker, whatever the world gives it.
pub advance-IsSafe : (grace : ℕ) (i : Input) (y : System) → IsSafe y → IsSafe (advance grace i y)
unfolding advance
advance-IsSafe grace i y safe = elim (Bool-cases i.crashes) [
  | inl crashes ↦ simp crashes (crashed-IsSafe y.stage y safe.table safe.work)
  | inr calm ↦ simp calm (run-IsSafe grace i y.stage y safe.table safe.work safe.ends)
]
