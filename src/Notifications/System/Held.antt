-- ===== src/Notifications/System/Held.antt =====
-- The row of a message that the worker has taken, in every reachable state.
use mathlib.Core.Bool.{false≢true}
use mathlib.Core.Path.{subst}
use proxsync.Prelude.{
  ℕ, ◌≤◌, ◌≡◌, refl, sym, ap, ◌∙◌, true, inl, inr, Option, none, some, List, [], ◌∷◌, ◌++◌, ◌==◌,
  some-injective, arith, Bool-cases,
}
use proxsync.Prelude.Tables.{
  KeysDistinct, get_by-append, get_by-update_by, append-KeysDistinct, update_by-KeysDistinct,
}
use proxsync.Notifications.Types.{Notification}
use proxsync.Notifications.Repository.{notification_id, get_notification, is_pending, is_ready}
use proxsync.Notifications.Repository.Ready.{is_ready-elapsed}
use proxsync.Notifications.Service.{Service, new_notification, resend, resend_row}
use proxsync.Notifications.Service.Outcomes.{enqueue-outcome, resend-outcome, send_test-outcome}
use proxsync.Notifications.Worker.{
  Settings, Claim, Stage, idle, reading, sending, recording, handling, stopped, System, Input,
  advance,
}
use proxsync.Notifications.Worker.Outcomes.{advance-outcome, IsHeld, HeldAt, advance-HeldAt}
use proxsync.Notifications.System.{
  Step, enqueued, resent, tested, advanced, restarted, Reachable, start, next,
}

-- Keys that the database hands out are new.
abbrev pub IsFresh : (List Notification → ℕ) → Type 0
IsFresh next_id = (rows : List Notification) → get_notification (next_id rows) rows ≡ none

abbrev IsOk : System → Type 0
IsOk y = KeysDistinct notification_id y.rows × HeldAt y.stage y.rows

append-IsHeld :
    (claim : Claim) (rows : List Notification) (new : Notification)
    → IsHeld claim rows
    → IsHeld claim (rows ++ new ∷ [])
append-IsHeld claim rows new held = record {
  row = held.row;
  found = get_by-append notification_id new claim.id rows ∙ simp (held.found) refl;
  waits = held.waits;
  charged = held.charged;
  retry_at = held.retry_at;
  scheduled = held.scheduled;
}

resend-IsHeld :
    (claim : Claim) (id : ℕ) (rows : List Notification)
    → IsHeld claim rows
    → IsHeld claim (resend id rows).1
resend-IsHeld claim id rows held = elim (resend-outcome id rows) [
  | inl same ↦ simp same held
  | inr (r, found, over, done) ↦ elim (Bool-cases (id == claim.id)) [
    | inl same ↦
        let e : id ≡ claim.id = ground arith in
        let one : r ≡ held.row =
          some-injective r held.row
            (sym found ∙ ap (λ j. get_notification j rows) e ∙ held.found) in
        absurd (false≢true (sym over ∙ ap (λ u. is_pending u.status) one ∙ held.waits))
    | inr other ↦ simp done (record {
      row = held.row;
      found =
          get_by-update_by notification_id id resend_row claim.id rows (λ u. refl)
          ∙ simp other held.found;
      waits = held.waits;
      charged = held.charged;
      retry_at = held.retry_at;
      scheduled = held.scheduled;
    })
  ]
]

-- What keeps every message that may be taken keeps the one that is.
HeldAt-map :
    (stage : Stage) (rows after : List Notification)
    → ((claim : Claim) → IsHeld claim rows → IsHeld claim after)
    → HeldAt stage rows
    → HeldAt stage after
HeldAt-map idle rows after keeps held = tt
HeldAt-map (reading claim) rows after keeps held = keeps claim held
HeldAt-map (sending claim) rows after keeps held = keeps claim held
HeldAt-map (recording claim verdict) rows after keeps held = keeps claim held
HeldAt-map (handling claim) rows after keeps held = keeps claim held
HeldAt-map stopped rows after keeps held = tt

-- A new row behind the others.
append-IsOk :
    (new : Notification) (y : System)
    → get_notification new.id y.rows ≡ none
    → IsOk y
    → IsOk (record y { rows = y.rows ++ new ∷ [] })
append-IsOk new y fresh ok = (
  append-KeysDistinct notification_id new y.rows fresh ok.0,
  HeldAt-map y.stage y.rows (y.rows ++ new ∷ []) (λ claim. append-IsHeld claim y.rows new) ok.1,
)

advance-KeysDistinct :
    (w : Settings) (i : Input) (y : System)
    → KeysDistinct notification_id y.rows
    → KeysDistinct notification_id (advance w i y).rows
advance-KeysDistinct w i y distinct = elim (advance-outcome w i y) [
  | inl same ↦ simp same distinct
  | inr (id, f, done, keeps) ↦
      simp done (update_by-KeysDistinct notification_id id f y.rows (λ r. (keeps r).0) distinct)
]

resend-IsOk : (id : ℕ) (y : System) → IsOk y → IsOk (record y { rows = (resend id y.rows).1 })
resend-IsOk id y ok = (
  elim (resend-outcome id y.rows) [
    | inl same ↦ simp same ok.0
    | inr (r, found, over, done) ↦
        simp done (update_by-KeysDistinct notification_id id resend_row y.rows (λ u. refl) ok.0)
  ],
  HeldAt-map y.stage y.rows (resend id y.rows).1 (λ claim. resend-IsHeld claim id y.rows) ok.1,
)

step-IsOk :
    (v : Service) (w : Settings) (y z : System) → IsFresh v.next_id → Step v w y z → IsOk y → IsOk z
step-IsOk v w y z fresh (enqueued config now m) ok = elim (enqueue-outcome v config now m y.rows) [
  | inl same ↦ simp same ok
  | inr (by, more, new) ↦
      simp more (append-IsOk (new_notification v now m by (v.next_id y.rows)) y (fresh y.rows) ok)
]
step-IsOk v w y z fresh (resent id) ok = resend-IsOk id y ok
step-IsOk v w y z fresh (tested config now text chat_id reply) ok =
    elim (send_test-outcome v config now text chat_id reply y.rows) [
      | inl same ↦ simp same ok
      | inr (new, key, unkeyed, more) ↦
          simp more (append-IsOk new y (ap (λ j. get_notification j y.rows) key ∙ fresh y.rows) ok)
    ]
step-IsOk v w y z fresh (advanced i) ok =
    (advance-KeysDistinct w i y ok.0, advance-HeldAt w i y ok.0 ok.1)
step-IsOk v w y z fresh restarted ok = (ok.0, tt)

Reachable-IsOk :
    (v : Service) (w : Settings) (allowed : (y z : System) → Step v w y z → Type 0) (y : System)
    → IsFresh v.next_id
    → Reachable v w allowed y
    → IsOk y
Reachable-IsOk v w allowed y fresh start = (tt, tt)
Reachable-IsOk v w allowed y fresh (next {y = before} reached step fine) =
    step-IsOk v w before y fresh step (Reachable-IsOk v w allowed before fresh reached)

-- The message that the worker is at.
abbrev pub taken : Stage → Option Claim
taken (reading claim) = some claim
taken (sending claim) = some claim
taken (recording claim verdict) = some claim
taken (handling claim) = some claim
taken _ = none

HeldAt-taken :
    (stage : Stage) (claim : Claim) (rows : List Notification)
    → taken stage ≡ some claim
    → HeldAt stage rows
    → IsHeld claim rows
HeldAt-taken idle claim rows at held = cc
HeldAt-taken (reading other) claim rows at held =
    subst (λ c. IsHeld c rows) (some-injective other claim at) held
HeldAt-taken (sending other) claim rows at held =
    subst (λ c. IsHeld c rows) (some-injective other claim at) held
HeldAt-taken (recording other verdict) claim rows at held =
    subst (λ c. IsHeld c rows) (some-injective other claim at) held
HeldAt-taken (handling other) claim rows at held =
    subst (λ c. IsHeld c rows) (some-injective other claim at) held
HeldAt-taken stopped claim rows at held = cc

-- In every reachable state, where new keys are fresh, the message that the worker is at still stands in the
-- outbox with the attempt charged that the worker counts, and from some instant on it is ready to be taken
-- again: a process that ends there leaves it to its successor.
pub Reachable-is_ready :
    (v : Service) (w : Settings) (allowed : (y z : System) → Step v w y z → Type 0) (claim : Claim)
    (y : System)
    → IsFresh v.next_id
    → Reachable v w allowed y
    → taken y.stage ≡ some claim
    → (r : Notification) × (get_notification claim.id y.rows ≡ some r)
      × (r.attempts ≡ claim.attempt)
      × (at : ℕ) × ((now : ℕ) → at ≤ now → is_ready now r ≡ true)
Reachable-is_ready v w allowed claim y fresh reached at =
    let held =
      HeldAt-taken y.stage claim y.rows at (Reachable-IsOk v w allowed y fresh reached).1 in
    (
      held.row,
      held.found,
      held.charged,
      held.retry_at,
      λ now late. is_ready-elapsed now held.retry_at held.row held.waits held.scheduled late,
    )
