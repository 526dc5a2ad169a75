-- ===== src/Restore/System/Routes.antt =====
-- The routes keep the table of restores safe, and no running restore stops running by one of them.
use mathlib.Core.Path.{subst}
use proxsync.Prelude.{
  ℕ, ◌≤◌, ◌≡◌, refl, sym, ap, ◌∙◌, Bool, true, false, inl, inr, Option, none, some, List, find-none,
  count, arith, Bool-cases, Option-cases, is_some, if◌then◌else◌,
}
use proxsync.Restore.Types.{RestoreRow, RestoreRequest, RestoreConfirmRequest}
use proxsync.Restore.Preflight.{Host, preflight}
use proxsync.Restore.Preflight.Complete.{preflight-IsRestorable}
use proxsync.Restore.Repository.{
  is_running, is_in_flight, is_stale, get_row, in_flight, expire_row, expire_pending,
}
use proxsync.Restore.Repository.Updates.{one_if}
use proxsync.Restore.Service.{
  World, State, request_from, new_row, create, confirm_row, confirm, cancel_row, cancel,
  expire_stale,
}
use proxsync.Restore.Service.Confirmed.{pending_status, IsConfirmed, confirm-IsConfirmed}
use proxsync.Restore.Service.Outcomes.{create-outcome, cancel-outcome}
use proxsync.Restore.Steps.{RestorePlan}
use proxsync.Restore.System.Rows.{
  RowOk, waits, start_count, AreSafe, IsChange, in_flight_row, runs, running_row,
  update_row-AreSafe, runs-update_row, get_row-map, map-AreSafe, runs-append, append-AreSafe,
  unknown_start_count,
}

-- What a route keeps: the table is safe, and what ran still runs.
pub record IsKept (starts : List RestorePlan) (rows after : List RestoreRow) : Type 0 where
  pub safe : AreSafe starts rows → AreSafe starts after
  pub goes_on : (id : ℕ) → runs id rows ≡ true → runs id after ≡ true

pub same-IsKept : (starts : List RestorePlan) (rows : List RestoreRow) → IsKept starts rows rows
same-IsKept starts rows = record { safe = λ h. h; goes_on = λ id h. h }

-- Ids that the database hands out are new.
abbrev pub IsFresh : World → Type 0
IsFresh w = (rows : List RestoreRow) → get_row (w.next_id rows) rows ≡ none

-- A row that a change leaves as safe, where it was not in flight and is not after.
pub quiet-IsChange :
    (starts : List RestorePlan) (rows : List RestoreRow) (f : RestoreRow → RestoreRow)
    (r : RestoreRow)
    → count in_flight_row rows ≤ 1
    → (RowOk starts r → RowOk starts (f r))
    → in_flight_row (f r) ≡ false
    → IsChange starts rows f r
quiet-IsChange starts rows f r single row quiet = record {
  row = row;
  flight = ground (arith, single, quiet);
}

cancel_row-RowOk :
    (starts : List RestorePlan) (now : ℕ) (r : RestoreRow)
    → RowOk starts r
    → RowOk starts (cancel_row now r)
cancel_row-RowOk starts now r h = (refl, refl, ground (arith, h.2))

unfoldable pub sweep : ℕ → RestoreRow → RestoreRow
sweep now r = if is_stale now r then expire_row now r else r

pub sweep-id : (now : ℕ) (r : RestoreRow) → (sweep now r).id ≡ r.id
unfolding sweep
sweep-id now r = ground arith

sweep-RowOk :
    (starts : List RestorePlan) (now : ℕ) (r : RestoreRow)
    → RowOk starts r
    → RowOk starts (sweep now r)
unfolding sweep
sweep-RowOk starts now r h = elim (Bool-cases (is_stale now r)) [
  | inl stale ↦ simp stale (refl, refl, ground (arith, h.2))
  | inr fresh ↦ simp fresh h
]

sweep-in_flight_row : (now : ℕ) (r : RestoreRow) → in_flight_row (sweep now r) ≡ in_flight_row r
unfolding sweep is_stale
sweep-in_flight_row now r = elim (Bool-cases (is_stale now r)) [
  | inl stale ↦
      simp stale
        (sym (ap (λ status. is_in_flight status) (pending_status r.status (ground (arith, stale)))))
  | inr fresh ↦ simp fresh refl
]

sweep-is_running :
    (now : ℕ) (r : RestoreRow) → is_running (sweep now r).status ≡ is_running r.status
unfolding sweep is_stale
sweep-is_running now r = elim (Bool-cases (is_stale now r)) [
  | inl stale ↦
      simp stale
        (sym (ap (λ status. is_running status) (pending_status r.status (ground (arith, stale)))))
  | inr fresh ↦ simp fresh refl
]

-- A change of a restore that does not run stops none.
not_running :
    (id : ℕ) (rows : List RestoreRow) (r : RestoreRow)
    → get_row id rows ≡ some r
    → is_running r.status ≡ false
    → {b : Bool} → (u : RestoreRow) → get_row id rows ≡ some u
    → is_running u.status ≡ true
    → b ≡ true
not_running id rows r found still u same ran = absurd (cc (found, same, still, ran))

confirm_row-IsChange :
    (starts : List RestorePlan) (w : World) (host : Host) (id : ℕ) (payload : RestoreConfirmRequest)
    (now : ℕ) (s : State) (c : IsConfirmed w host id payload now s)
    → count in_flight_row s.restores ≤ 1
    → IsChange starts s.restores (confirm_row c.report now) c.row
unfolding in_flight preflight
confirm_row-IsChange starts w host id payload now s c single =
    let restorable =
      preflight-IsRestorable host s.backups s.guests (is_some (in_flight s.restores))
        (request_from c.row) c.report c.checked c.free in
    let idle : count in_flight_row s.restores ≡ 0 = (elim (Option-cases (in_flight s.restores)) [
      | inl nothing ↦ find-none in_flight_row s.restores nothing
      | inr (u, busy) ↦ absurd (cc (restorable.2.idle, ap (λ o. is_some o) busy))
    ]) in
    record {
      row = λ h. (
        refl,
        refl,
        subst
            (λ status.
              start_count c.row.id starts
              ≤ (if waits status then 0 else one_if (is_some c.row.confirmed_at)))
            c.authorised.pending h.2,
      );
      flight = ground (arith, idle);
    }

module _ (starts : List RestorePlan) where
  pub created-IsKept :
      (w : World) (host : Host) (request : RestoreRequest) (user : Option ℕ) (now : ℕ) (s : State)
      → IsFresh w
      → IsKept starts s.restores (create w host request user now s).1.restores
  created-IsKept w host request user now s fresh = elim (create-outcome w host request user now s) [
    | inl (error, same) ↦ simp same (same-IsKept starts s.restores)
    | inr (report, e, free, added) ↦
        subst (λ p. IsKept starts s.restores p.1.restores) (sym added)
          (record {
            safe = λ safe.
                append-AreSafe starts (new_row w request report user now s) s.restores
                  (fresh s.restores)
                  (
                    refl,
                    refl,
                    omega (
                      arith,
                      unknown_start_count (w.next_id s.restores) s.restores starts
                          (fresh s.restores) safe.known,
                    ),
                  )
                  refl safe;
            goes_on = λ id. runs-append starts (new_row w request report user now s) id s.restores;
          })
  ]

  pub cancelled-IsKept :
      (id now : ℕ) (s : State) → IsKept starts s.restores (cancel id now s).1.restores
  cancelled-IsKept id now s = elim (cancel-outcome id now s) [
    | inl (error, same) ↦ simp same (same-IsKept starts s.restores)
    | inr (r, found, still, living, done) ↦
        subst (λ p. IsKept starts s.restores p.1.restores) (sym done)
          (record {
            safe = λ safe.
                update_row-AreSafe starts id (cancel_row now) s.restores (λ u. refl) r found
                  (quiet-IsChange starts s.restores (cancel_row now) r safe.single
                    (cancel_row-RowOk starts now r) refl)
                  safe;
            goes_on = λ other.
                runs-update_row starts id (cancel_row now) s.restores (λ u. refl) other
                  (not_running id s.restores r found still);
          })
  ]

  pub swept-IsKept :
      (now : ℕ) (s : State) → IsKept starts s.restores (expire_stale now s).1.restores
  unfolding expire_stale expire_pending sweep
  swept-IsKept now s = record {
    safe =
        map-AreSafe starts (sweep now) (sweep-id now) s.restores (sweep-RowOk starts now)
          (sweep-in_flight_row now);
    goes_on = λ id h. elim (Option-cases (get_row id s.restores)) [
      | inl absent ↦ absurd (cc (ap running_row absent, h))
      | inr (r, found) ↦
          simp (get_row-map starts (sweep now) (sweep-id now) id s.restores, found)
            (sweep-is_running now r ∙ sym (ap running_row found) ∙ h)
    ];
  }

  pub confirmed-IsKept :
      (w : World) (host : Host) (id : ℕ) (payload : RestoreConfirmRequest) (now : ℕ) (s : State)
      → IsKept starts s.restores (confirm w host id payload now s).1.restores
  confirmed-IsKept w host id payload now s = elim (confirm-IsConfirmed w host id payload now s) [
    | inl (error, same) ↦ simp same (same-IsKept starts s.restores)
    | inr c ↦
        subst (λ p. IsKept starts s.restores p.1.restores) (sym c.result)
          (record {
            safe = λ safe.
                update_row-AreSafe starts id (confirm_row c.report now) s.restores (λ u. refl) c.row
                  c.found (confirm_row-IsChange starts w host id payload now s c safe.single) safe;
            goes_on = λ other.
                runs-update_row starts id (confirm_row c.report now) s.restores (λ u. refl) other
                  (not_running id s.restores c.row c.found
                    (ap (λ status. is_running status) c.authorised.pending));
          })
  ]
