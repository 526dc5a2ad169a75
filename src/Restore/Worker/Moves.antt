-- ===== src/Restore/Worker/Moves.antt =====
-- The life of a restore, and how the worker moves restores along it.
use mathlib.Core.Path.{subst}
use proxsync.Prelude.{
  ℕ, ◌≡◌, refl, sym, ap, ◌∙◌, true, some, List, [], ◌∷◌, map, ◌==◌, arith, find-some,
  some-injective, Option-cases, Bool-cases, inl, inr,
}
use proxsync.Prelude.Text.{Text}
use proxsync.Retention.Types.{
  RestoreStatus, pending_confirmation, confirmed, running, cancelled, expired,
}
use proxsync.Restore.Types.{RestoreRow}
use proxsync.Restore.Repository.{
  is_confirmed, is_stale, get_row, update_row, next_confirmed, expire_pending,
}
use proxsync.Restore.Repository.Updates.{get_row-update_row}
use proxsync.Restore.Service.Confirmed.{pending_status}
use proxsync.Restore.Steps.{
  Input, Stage, idle, claiming, loading, fetching, downloading, marking, starting, attaching,
  following, recording, closing, handling, stopped, outcome_status,
}
use proxsync.Restore.Worker.{
  System, run, run_row, close_row, attach_row, claim_next, claim_from, claim_row, crashed, advance,
}
use proxsync.Restore.Steps.Follows.{engaged, closes, EndsWell, outcome_status-closes}
use proxsync.Restore.Worker.Closing.{running_status, confirmed_status}
use proxsync.Restore.Worker.Works.{IsSafe, Works}
use proxsync.Restore.System.Rows.{AreSafe, runs, running_row, get_row-map}
use proxsync.Restore.System.Routes.{sweep, sweep-id}
use proxsync.Restore.System.Started.{find-get_row}

-- What may become of a restore: it is confirmed, expires or is cancelled while it waits, is claimed,
-- and comes to one of the ends of the host's work. Nothing leaves a final status.
pub data Move : RestoreStatus → RestoreStatus → Type 0 where
  stay : {s : RestoreStatus} → Move s s
  confirm : Move pending_confirmation confirmed
  expire : Move pending_confirmation expired
  withdraw : Move pending_confirmation cancelled
  call_off : Move confirmed cancelled
  claim : Move confirmed running
  finish : {s : RestoreStatus} → closes s ≡ true → Move running s

-- Every row is still there, and moved at most by one step of its life.
abbrev pub Moved : List RestoreRow → List RestoreRow → Type 0
Moved rows after =
    (id : ℕ) (r : RestoreRow)
    → get_row id rows ≡ some r
    → (u : RestoreRow) × (get_row id after ≡ some u) × Move r.status u.status

pub same-Moved : (rows : List RestoreRow) → Moved rows rows
same-Moved rows id r found = (r, found, stay)

pub update_row-Moved :
    (id : ℕ) (f : RestoreRow → RestoreRow) (rows : List RestoreRow)
    → ((r : RestoreRow) → (f r).id ≡ r.id)
    → ((r : RestoreRow) → get_row id rows ≡ some r → Move r.status (f r).status)
    → Moved rows (update_row id f rows)
update_row-Moved id f rows keeps moves other r found = elim (Bool-cases (id == other)) [
  | inl same ↦
      let e : id ≡ other = ground arith in
      (
        f r,
        simp (get_row-update_row id f other rows keeps, same, found) refl,
        moves r (subst (λ j. get_row j rows ≡ some r) (sym e) found),
      )
  | inr foreign ↦ (r, simp (get_row-update_row id f other rows keeps, foreign, found) refl, stay)
]

pub sweep-Moved : (now : ℕ) (rows : List RestoreRow) → Moved rows (map (sweep now) rows)
unfolding sweep is_stale
sweep-Moved now rows id r found =
    (sweep now r, simp (get_row-map [] (sweep now) (sweep-id now) id rows, found) refl, moves)
  where
    moves : Move r.status (sweep now r).status
    moves = elim (Bool-cases (is_stale now r)) [
      | inl stale ↦ simp stale (
          subst (λ s. Move s expired) (sym (pending_status r.status (ground (arith, stale))))
            expire)
      | inr fresh ↦ simp fresh stay
    ]

pub close_row-Moved :
    (now : ℕ) (status : RestoreStatus) (id : ℕ) (rows : List RestoreRow)
    → closes status ≡ true
    → runs id rows ≡ true
    → Moved rows (update_row id (close_row status now) rows)
close_row-Moved now status id rows good ran =
    update_row-Moved id (close_row status now) rows (λ u. refl)
      (λ r found.
        subst (λ s. Move s status)
          (sym (running_status r.status (sym (ap running_row found) ∙ ran))) (finish good))

claim_from-Moved :
    (now : ℕ) (resume : List (ℕ × Text)) (y : System)
    → AreSafe y.starts y.store.restores
    → Moved y.store.restores (claim_from now resume y).store.restores
unfolding claim_from claim_row run_row next_confirmed
claim_from-Moved now ((id, task) ∷ rest) y table = same-Moved y.store.restores
claim_from-Moved now [] y table = elim (Option-cases (next_confirmed y.store.restores)) [
  | inl nothing ↦ simp nothing (same-Moved y.store.restores)
  | inr (r, next) ↦ simp next (
      update_row-Moved r.id (run_row now) y.store.restores (λ u. refl)
        (λ u found.
          subst (λ v. Move v.status running)
            (some-injective r u (
              sym (find-get_row (λ v. is_confirmed v.status) r y.store.restores table.distinct next)
              ∙ found))
            (subst (λ s. Move s running)
              (sym (
                confirmed_status r.status
                  (find-some (λ v. is_confirmed v.status) r y.store.restores next)))
              claim)))
]

run-Moved :
    (grace : ℕ) (i : Input) (stage : Stage) (y : System)
    → AreSafe y.starts y.store.restores
    → Works y.store.restores y.starts y.resume (engaged stage)
    → EndsWell stage
    → Moved y.store.restores (run grace i stage y).store.restores
unfolding run expire_pending sweep claim_next
run-Moved grace i idle y table work ends = elim (Bool-cases i.stopping) [
  | inl stops ↦ simp stops (same-Moved y.store.restores)
  | inr on ↦ simp on (sweep-Moved i.now y.store.restores)
]
run-Moved grace i claiming y table work ends = claim_from-Moved i.now y.resume y table
run-Moved grace i (loading id) y table work ends = same-Moved y.store.restores
run-Moved grace i (fetching plan) y table work ends = same-Moved y.store.restores
run-Moved grace i (downloading plan since) y table work ends = elim (Bool-cases i.stopping) [
  | inl stops ↦ simp stops (same-Moved y.store.restores)
  | inr on ↦ simp on (same-Moved y.store.restores)
]
run-Moved grace i (marking plan) y table work ends = same-Moved y.store.restores
run-Moved grace i (starting plan) y table work ends = same-Moved y.store.restores
run-Moved grace i (attaching id task) y table work ends =
    update_row-Moved id (attach_row task) y.store.restores (λ u. refl) (λ r found. stay)
run-Moved grace i (following id since) y table work ends = elim (Bool-cases i.stopping) [
  | inl stops ↦ simp stops (same-Moved y.store.restores)
  | inr on ↦ simp on (same-Moved y.store.restores)
]
run-Moved grace i (recording id task) y table work ends =
    close_row-Moved _ (outcome_status task.state) id y.store.restores
      (outcome_status-closes task.state) work.1
run-Moved grace i (closing id status) y table work ends =
    close_row-Moved i.now status id y.store.restores ends work.1
run-Moved grace i (handling id) y table work ends =
    close_row-Moved i.now RestoreStatus.interrupted id y.store.restores refl work.1
run-Moved grace i stopped y table work ends = same-Moved y.store.restores

crashed-Moved :
    (stage : Stage) (y : System) → Moved y.store.restores (crashed stage y).store.restores
unfolding crashed
crashed-Moved idle y = same-Moved y.store.restores
crashed-Moved claiming y = same-Moved y.store.restores
crashed-Moved (loading id) y = same-Moved y.store.restores
crashed-Moved (fetching plan) y = same-Moved y.store.restores
crashed-Moved (downloading plan since) y = same-Moved y.store.restores
crashed-Moved (marking plan) y = same-Moved y.store.restores
crashed-Moved (starting plan) y = same-Moved y.store.restores
crashed-Moved (attaching id task) y = same-Moved y.store.restores
crashed-Moved (following id since) y = same-Moved y.store.restores
crashed-Moved (recording id task) y = same-Moved y.store.restores
crashed-Moved (closing id status) y = same-Moved y.store.restores
crashed-Moved (handling id) y = same-Moved y.store.restores
crashed-Moved stopped y = same-Moved y.store.restores

pub advance-Moved :
    (grace : ℕ) (i : Input) (y : System)
    → IsSafe y
    → Moved y.store.restores (advance grace i y).store.restores
unfolding advance
advance-Moved grace i y safe = elim (Bool-cases i.crashes) [
  | inl crashes ↦ simp crashes (crashed-Moved y.stage y)
  | inr calm ↦ simp calm (run-Moved grace i y.stage y safe.table safe.work safe.ends)
]
