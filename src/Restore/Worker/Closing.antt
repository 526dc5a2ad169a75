-- ===== src/Restore/Worker/Closing.antt =====
-- What is known of a restore that was claimed, and closing it.
use mathlib.Core.Path.{subst}
use proxsync.Prelude.{
  ℕ, ◌≤◌, ◌≡◌, refl, sym, ap, ◌∙◌, true, false, not, ◌||◌, List, is_some, if◌then◌else◌,
}
use proxsync.Retention.Types.{RestoreStatus}
use proxsync.Restore.Types.{RestoreRow}
use proxsync.Restore.Repository.{is_pending, is_running, is_confirmed, is_in_flight, update_row}
use proxsync.Restore.Repository.Updates.{one_if}
use proxsync.Restore.Steps.{RestorePlan}
use proxsync.Restore.Worker.{close_row}
use proxsync.Restore.Steps.Follows.{closes}
use proxsync.Restore.System.Rows.{
  RowOk, AreSafe, start_count, runs, running_row, waits, authorised, update_row-safe,
}
use proxsync.Restore.System.Routes.{quiet-IsChange}

pub confirmed_status :
    (status : RestoreStatus) → is_confirmed status ≡ true → status ≡ RestoreStatus.confirmed
confirmed_status RestoreStatus.pending_confirmation h = cc
confirmed_status RestoreStatus.confirmed h = refl
confirmed_status RestoreStatus.running h = cc
confirmed_status RestoreStatus.success h = cc
confirmed_status RestoreStatus.failed h = cc
confirmed_status RestoreStatus.cancelled h = cc
confirmed_status RestoreStatus.interrupted h = cc
confirmed_status RestoreStatus.expired h = cc

pub running_status :
    (status : RestoreStatus) → is_running status ≡ true → status ≡ RestoreStatus.running
running_status RestoreStatus.pending_confirmation h = cc
running_status RestoreStatus.confirmed h = cc
running_status RestoreStatus.running h = refl
running_status RestoreStatus.success h = cc
running_status RestoreStatus.failed h = cc
running_status RestoreStatus.cancelled h = cc
running_status RestoreStatus.interrupted h = cc
running_status RestoreStatus.expired h = cc

-- What is known of a row that was claimed.
abbrev pub Claimed : List RestorePlan → RestoreRow → Type 0
Claimed starts r =
    (is_some r.confirmation_token_hash ≡ false)
    × (is_some r.confirmed_at ≡ true)
    × (start_count r.id starts ≤ one_if (is_some r.confirmed_at))

pub running-Claimed :
    (starts : List RestorePlan) (r : RestoreRow)
    → is_running r.status ≡ true
    → RowOk starts r
    → Claimed starts r
running-Claimed starts r ran h =
    let e = running_status r.status ran in
    (
      h.0 ∙ ap (λ s. is_pending s) e,
      subst (λ s. not (authorised s) || is_some r.confirmed_at ≡ true) e h.1,
      subst
          (λ s. start_count r.id starts ≤ (if waits s then 0 else one_if (is_some r.confirmed_at)))
          e h.2,
    )

module _ (starts : List RestorePlan) (now : ℕ) where
  close_row-RowOk :
      (status : RestoreStatus) (r : RestoreRow)
      → closes status ≡ true
      → Claimed starts r
      → RowOk starts (close_row status now r)
  close_row-RowOk RestoreStatus.success r h k = k
  close_row-RowOk RestoreStatus.failed r h k = k
  close_row-RowOk RestoreStatus.cancelled r h k = (k.0, refl, k.2)
  close_row-RowOk RestoreStatus.interrupted r h k = k
  close_row-RowOk RestoreStatus.pending_confirmation r h k = cc
  close_row-RowOk RestoreStatus.confirmed r h k = cc
  close_row-RowOk RestoreStatus.running r h k = cc
  close_row-RowOk RestoreStatus.expired r h k = cc

  closes-in_flight : (status : RestoreStatus) → closes status ≡ true → is_in_flight status ≡ false
  closes-in_flight RestoreStatus.success h = refl
  closes-in_flight RestoreStatus.failed h = refl
  closes-in_flight RestoreStatus.cancelled h = refl
  closes-in_flight RestoreStatus.interrupted h = refl
  closes-in_flight RestoreStatus.pending_confirmation h = refl
  closes-in_flight RestoreStatus.confirmed h = cc
  closes-in_flight RestoreStatus.running h = cc
  closes-in_flight RestoreStatus.expired h = refl

  -- Closing a restore that runs.
  pub close_row-AreSafe :
      (status : RestoreStatus) (id : ℕ) (rows : List RestoreRow)
      → closes status ≡ true
      → runs id rows ≡ true
      → AreSafe starts rows
      → AreSafe starts (update_row id (close_row status now) rows)
  close_row-AreSafe status id rows good ran safe =
      update_row-safe starts id (close_row status now) rows (λ u. refl)
        (λ r found.
          quiet-IsChange starts rows (close_row status now) r safe.single
            (λ h.
              close_row-RowOk status r good
                (running-Claimed starts r (sym (ap running_row found) ∙ ran) h))
            (closes-in_flight status good))
        safe
