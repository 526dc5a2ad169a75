-- ===== src/Restore/System/Lifecycle.antt =====
-- The steps of the system against the life of a restore.
use mathlib.Core.Path.{subst}
use proxsync.Prelude.{
  ℕ, ◌≡◌, refl, sym, ap, ◌∙◌, false, Option, List, [], ◌∷◌, arith, some-injective, is_some,
  Bool-cases, inl, inr, length,
}
use proxsync.Retention.Types.{RestoreStatus}
use proxsync.Restore.Types.{RestoreRow, RestoreRequest, RestoreConfirmRequest}
use proxsync.Restore.Preflight.{Host}
use proxsync.Restore.Repository.{is_running, is_terminal, running_rows, expire_pending}
use proxsync.Restore.Service.{
  World, State, new_row, create, confirm_row, confirm, cancel_row, cancel, expire_stale,
}
use proxsync.Restore.Service.Confirmed.{confirm-IsConfirmed}
use proxsync.Restore.Service.Outcomes.{create-outcome, cancel-outcome}
use proxsync.Restore.Worker.{System}
use proxsync.Restore.Worker.Moves.{
  Move, stay, withdraw, call_off, Moved, same-Moved, update_row-Moved, sweep-Moved, close_row-Moved,
  advance-Moved,
}
use proxsync.Restore.Worker.Works.{IsSafe}
use proxsync.Restore.System.{
  unconfirmed, close_all, recover, Step, created, confirmed, cancelled, swept, advanced, restarted,
  changed, Reachable,
}
use proxsync.Restore.System.Rows.{AreSafe, get_row-append}
use proxsync.Restore.System.Routes.{IsFresh, sweep}
use proxsync.Restore.System.Started.{filter-get_row}
use proxsync.Restore.System.Invariant.{filter-passes, filter-running, Reachable-IsSafe}

created-Moved :
    (w : World) (host : Host) (request : RestoreRequest) (user : Option ℕ) (now : ℕ) (s : State)
    → Moved s.restores (create w host request user now s).1.restores
created-Moved w host request user now s = elim (create-outcome w host request user now s) [
  | inl (error, same) ↦ simp same (same-Moved s.restores)
  | inr (report, e, free, added) ↦
      subst (λ p. Moved s.restores p.1.restores) (sym added)
        (λ id r found. (
          r,
          simp (get_row-append [] (new_row w request report user now s) id s.restores, found) refl,
          stay,
        ))
]

confirmed-Moved :
    (w : World) (host : Host) (id : ℕ) (payload : RestoreConfirmRequest) (now : ℕ) (s : State)
    → Moved s.restores (confirm w host id payload now s).1.restores
confirmed-Moved w host id payload now s = elim (confirm-IsConfirmed w host id payload now s) [
  | inl (error, same) ↦ simp same (same-Moved s.restores)
  | inr c ↦
      subst (λ p. Moved s.restores p.1.restores) (sym c.result)
        (update_row-Moved id (confirm_row c.report now) s.restores (λ u. refl)
          (λ r found.
            subst (λ u. Move u.status RestoreStatus.confirmed)
              (some-injective c.row r (sym c.found ∙ found))
              (subst (λ t. Move t RestoreStatus.confirmed) (sym c.authorised.pending)
                Move.confirm)))
]

open_status-Move :
    (status : RestoreStatus)
    → is_running status ≡ false
    → is_terminal status ≡ false
    → Move status RestoreStatus.cancelled
open_status-Move RestoreStatus.pending_confirmation h k = withdraw
open_status-Move RestoreStatus.confirmed h k = call_off
open_status-Move RestoreStatus.running h k = cc
open_status-Move RestoreStatus.success h k = cc
open_status-Move RestoreStatus.failed h k = cc
open_status-Move RestoreStatus.cancelled h k = stay
open_status-Move RestoreStatus.interrupted h k = cc
open_status-Move RestoreStatus.expired h k = cc

cancelled-Moved : (id now : ℕ) (s : State) → Moved s.restores (cancel id now s).1.restores
cancelled-Moved id now s = elim (cancel-outcome id now s) [
  | inl (error, same) ↦ simp same (same-Moved s.restores)
  | inr (r, found, still, living, done) ↦
      subst (λ p. Moved s.restores p.1.restores) (sym done)
        (update_row-Moved id (cancel_row now) s.restores (λ u. refl)
          (λ u same.
            subst (λ v. Move v.status RestoreStatus.cancelled)
              (some-injective r u (sym found ∙ same)) (open_status-Move r.status still living)))
]

swept-Moved : (now : ℕ) (s : State) → Moved s.restores (expire_stale now s).1.restores
unfolding expire_stale expire_pending sweep
swept-Moved now s = sweep-Moved now s.restores

recover_from-Moved :
    (now : ℕ) (y : System) (running : List RestoreRow)
    → running_rows y.store.restores ≡ running
    → AreSafe y.starts y.store.restores
    → Moved y.store.restores (close_all now (unconfirmed running) y.store.restores)
unfolding unconfirmed close_all running_rows
recover_from-Moved now y [] e table = same-Moved y.store.restores
recover_from-Moved now y (r ∷ []) e table =
    let found = filter-get_row (λ u. is_running u.status) r [] y.store.restores table.distinct e in
    let ran = filter-passes r [] y.store.restores e in
    elim (Bool-cases (is_some r.agent_task_id)) [
      | inl known ↦ simp known (same-Moved y.store.restores)
      | inr alone ↦ simp alone (
          close_row-Moved now RestoreStatus.interrupted r.id y.store.restores refl (simp found ran))
    ]
recover_from-Moved now y (r ∷ u ∷ rest) e table =
    absurd (omega (arith, filter-running y.store.restores, table.single, ap (λ us. length us) e))

recovered-Moved :
    (now : ℕ) (y : System)
    → AreSafe y.starts y.store.restores
    → Moved y.store.restores (recover now y).store.restores
unfolding recover
recovered-Moved now y table = recover_from-Moved now y (running_rows y.store.restores) refl table

after-Moved :
    (w : World) (grace : ℕ) (y z : System)
    → IsSafe y
    → Step w grace y z
    → Moved y.store.restores z.store.restores
after-Moved w grace y z safe (created host request user now) =
    created-Moved w host request user now y.store
after-Moved w grace y z safe (confirmed host id payload now) =
    confirmed-Moved w host id payload now y.store
after-Moved w grace y z safe (cancelled id now) = cancelled-Moved id now y.store
after-Moved w grace y z safe (swept now) = swept-Moved now y.store
after-Moved w grace y z safe (advanced i) = advance-Moved grace i y safe
after-Moved w grace y z safe (restarted now) = recovered-Moved now y safe.table
after-Moved w grace y z safe (changed backups guests) = same-Moved y.store.restores

-- Where new ids are fresh, every step from a state that the dashboard reaches keeps every restore in the
-- table and leaves its status alone or moves it once along the life of a restore: from pending to
-- confirmed, expired or cancelled, from confirmed to running or cancelled, from running to success,
-- failed, cancelled or interrupted, and from these and expired nowhere.
pub Reachable-Moved :
    (w : World) (grace : ℕ) (y z : System)
    → IsFresh w
    → Reachable w grace y
    → Step w grace y z
    → Moved y.store.restores z.store.restores
Reachable-Moved w grace y z fresh reached step =
    after-Moved w grace y z (Reachable-IsSafe w grace y fresh reached) step
