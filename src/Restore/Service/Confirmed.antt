-- ===== src/Restore/Service/Confirmed.antt =====
-- What confirming a restore takes, and what it leaves behind when it is refused.
use mathlib.Core.Path.{subst}
use proxsync.Prelude.{
  ℕ, ◌<◌, ◌≡◌, refl, sym, ap, true, false, ◌⊎◌, inl, inr, Option, none, some, [], ◌∷◌, ◌==◌,
  find-some, some-injective, arith, Bool-cases, Option-cases,
}
use proxsync.Prelude.Text.{Text, eq_text→eq}
use proxsync.Effects.{Result-cases, ok, raised}
use proxsync.Retention.Types.{RestoreStatus, pending_confirmation}
use proxsync.Restore.Types.{RestoreConfirmRequest, PreflightReport, RestoreRow}
use proxsync.Restore.Preflight.{Host, RestoreError}
use proxsync.Restore.Repository.{is_pending, get_row, update_row}
use proxsync.Restore.Service.{
  World, State, preflight_now, request_from, token_matches, closed_window, confirm_row,
  confirm_checked, refusal, confirm_unless, confirm_found, confirm,
}

-- A payload that may confirm a row at an instant.
pub record IsAuthorised (w : World) (payload : RestoreConfirmRequest) (now : ℕ) (r : RestoreRow)
    : Type 0 where
  pub pending : r.status ≡ pending_confirmation
  pub in_time : (expires_at : ℕ) → r.confirmation_expires_at ≡ some expires_at → now < expires_at
  pub token : r.confirmation_token_hash ≡ some (w.hash_token payload.confirmation_token)
  pub typed : payload.target_vmid ≡ r.target_vmid

pub pending_status :
    (status : RestoreStatus) → is_pending status ≡ true → status ≡ pending_confirmation
pending_status pending_confirmation h = refl
pending_status RestoreStatus.confirmed h = cc
pending_status RestoreStatus.running h = cc
pending_status RestoreStatus.success h = cc
pending_status RestoreStatus.failed h = cc
pending_status RestoreStatus.cancelled h = cc
pending_status RestoreStatus.interrupted h = cc
pending_status RestoreStatus.expired h = cc

matched :
    (w : World) (token : Text) (hash : Option Text)
    → token_matches w token hash ≡ true
    → hash ≡ some (w.hash_token token)
unfolding token_matches
matched w token none h = cc
matched w token (some []) h = cc
matched w token (some (c ∷ hash)) h =
    ap (λ t. some t) (sym (eq_text→eq (w.hash_token token) (c ∷ hash) h))

open_window :
    (now : ℕ) (until : Option ℕ)
    → closed_window now until ≡ false
    → (expires_at : ℕ) → until ≡ some expires_at
    → now < expires_at
unfolding closed_window
open_window now none h expires_at e = cc
open_window now (some t) h expires_at e =
    subst (λ u. now < u) (some-injective t expires_at e) (ground (arith, h))

refusal-IsAuthorised :
    (w : World) (payload : RestoreConfirmRequest) (now : ℕ) (r : RestoreRow)
    → refusal w payload now r ≡ none
    → IsAuthorised w payload now r
unfolding refusal
refusal-IsAuthorised w payload now r h =
    let pending : is_pending r.status ≡ true = ground arith in
    let in_time : closed_window now r.confirmation_expires_at ≡ false = ground arith in
    let token : token_matches w payload.confirmation_token r.confirmation_token_hash ≡ true =
      ground arith in
    record {
      pending = pending_status r.status pending;
      in_time = open_window now r.confirmation_expires_at in_time;
      token = matched w payload.confirmation_token r.confirmation_token_hash token;
      typed = ground arith;
    }

-- What a confirmation leaves behind.
pub record IsConfirmed (w : World) (host : Host) (id : ℕ) (payload : RestoreConfirmRequest)
    (now : ℕ) (s : State) : Type 0 where
  pub row : RestoreRow
  pub report : PreflightReport
  pub found : get_row id s.restores ≡ some row
  pub authorised : IsAuthorised w payload now row
  pub checked : preflight_now host (request_from row) s ≡ ok report
  pub free : report.blocking ≡ false
  pub result :
      confirm w host id payload now s
      ≡ (ok tt, record s { restores = update_row id (confirm_row report now) s.restores })

-- A refusal, which changes nothing.
abbrev pub IsRefused : World → Host → ℕ → RestoreConfirmRequest → ℕ → State → Type 0
IsRefused w host id payload now s =
    (error : RestoreError) × (confirm w host id payload now s ≡ (raised error, s))

-- Every confirmation is refused with an error and changes nothing, or the restore was pending, its window
-- still open if it has one, the token's hash is the stored one, the guest id was typed as it stands, and a
-- preflight of the stored request on the tables and the host as they are blocks nothing; then just that
-- row becomes confirmed, with the instant and the report and without the hash.
pub confirm-IsConfirmed :
    (w : World) (host : Host) (id : ℕ) (payload : RestoreConfirmRequest) (now : ℕ) (s : State)
    → IsRefused w host id payload now s ⊎ IsConfirmed w host id payload now s
unfolding confirm confirm_found confirm_unless confirm_checked
confirm-IsConfirmed w host id payload now s = elim (Option-cases (get_row id s.restores)) [
  | inl absent ↦ inl (RestoreError.no_restore, simp absent refl)
  | inr (r, found) ↦ elim (Option-cases (refusal w payload now r)) [
    | inr (error, refused) ↦ inl (error, simp (found, refused) refl)
    | inl passes ↦ elim (Result-cases (preflight_now host (request_from r) s)) [
      | inr (error, e) ↦ inl (error, simp (found, passes, e) refl)
      | inl (report, e) ↦ elim (Bool-cases report.blocking) [
        | inl blocks ↦ inl (RestoreError.conditions_changed, simp (found, passes, e, blocks) refl)
        | inr free ↦
            let same : r.id ≡ id = ground (arith, find-some (λ u. u.id == id) r s.restores found) in
            inr (record {
              row = r;
              report = report;
              found = found;
              authorised = refusal-IsAuthorised w payload now r passes;
              checked = e;
              free = free;
              result = simp (found, passes, e, free, same) refl;
            })
      ]
    ]
  ]
]
