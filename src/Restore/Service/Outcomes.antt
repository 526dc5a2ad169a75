-- ===== src/Restore/Service/Outcomes.antt =====
-- What the routes that request and cancel a restore come to.
use proxsync.Prelude.{
  ℕ, suc, ◌≡◌, refl, false, ◌⊎◌, inl, inr, Option, some, [], ◌∷◌, ◌++◌, ◌==◌, find-some, arith,
  Bool-cases, Option-cases,
}
use proxsync.Effects.{Result-cases, ok, raised}
use proxsync.Restore.Types.{RestoreRequest, PreflightReport, RestoreRow}
use proxsync.Restore.Preflight.{
  Host, RestoreError, preflight_failed, no_restore, already_running, already_closed,
}
use proxsync.Restore.Repository.{is_running, is_terminal, get_row, update_row}
use proxsync.Restore.Service.{
  World, State, preflight_now, new_row, create_from, create, cancel_row, cancel_found, cancel,
}

-- A request is refused and changes nothing, or its preflight blocks nothing and one row is added.
pub create-outcome :
    (w : World) (host : Host) (request : RestoreRequest) (user : Option ℕ) (now : ℕ) (s : State)
    → ((error : RestoreError) × (create w host request user now s ≡ (raised error, s)))
      ⊎ ((report : PreflightReport) × (preflight_now host request s ≡ ok report)
          × (report.blocking ≡ false)
          × (create w host request user now s ≡ (
            ok (new_row w request report user now s, w.token s.draws),
            record s {
              restores = s.restores ++ new_row w request report user now s ∷ [];
              draws = suc s.draws;
            },
          )))
unfolding create create_from
create-outcome w host request user now s = elim (Result-cases (preflight_now host request s)) [
  | inr (error, e) ↦ inl (error, simp e refl)
  | inl (report, e) ↦ elim (Bool-cases report.blocking) [
    | inl blocks ↦ inl (preflight_failed, simp (e, blocks) refl)
    | inr free ↦ inr (report, e, free, simp (e, free) refl)
  ]
]

-- A cancellation is refused and changes nothing, or closes a restore that neither runs nor is closed.
pub cancel-outcome :
    (id now : ℕ) (s : State)
    → ((error : RestoreError) × (cancel id now s ≡ (raised error, s)))
      ⊎ ((r : RestoreRow) × (get_row id s.restores ≡ some r)
          × (is_running r.status ≡ false)
          × (is_terminal r.status ≡ false)
          × (cancel id now s
              ≡ (ok tt, record s { restores = update_row id (cancel_row now) s.restores })))
unfolding cancel cancel_found
cancel-outcome id now s = elim (Option-cases (get_row id s.restores)) [
  | inl absent ↦ inl (no_restore, simp absent refl)
  | inr (r, found) ↦ elim (Bool-cases (is_running r.status)) [
    | inl runs ↦ inl (already_running, simp (found, runs) refl)
    | inr still ↦ elim (Bool-cases (is_terminal r.status)) [
      | inl closed ↦ inl (already_closed, simp (found, still, closed) refl)
      | inr living ↦
          let same : r.id ≡ id = ground (arith, find-some (λ u. u.id == id) r s.restores found) in
          inr (r, found, still, living, simp (found, still, living, same) refl)
    ]
  ]
]
