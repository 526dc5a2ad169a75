-- ===== src/Notifications/Worker/Outcomes.antt =====
-- What a stretch of the worker comes to.
use proxsync.Prelude.{
  ℕ, not, ◌||◌, ◌+◌, ◌≡◌, refl, ◌∙◌, Bool, true, ◌⊎◌, inl, inr, Option, none, some, List, arith,
  Bool-cases, Option-cases,
}
use proxsync.Prelude.Tables.{update_by, KeysDistinct, get_by-update_by}
use proxsync.Notifications.Types.{Notification, TelegramSettings}
use proxsync.Notifications.Repository.{notification_id, get_notification, is_pending, next_ready}
use proxsync.Notifications.Repository.Ready.{next_ready-get_notification, is_ready-pending}
use proxsync.Notifications.Service.{or_empty, is_empty}
use proxsync.Notifications.Worker.{
  Settings, Claim, Verdict, delivery, failure, Stage, idle, reading, sending, recording, handling,
  stopped, System, Input, charge_row, claim_row, claim_next, sent_row, exhausted, fail_row, settle,
  run, crash, advance, after_settings, retry_delay,
}

-- A change that leaves a row the message that it is.
abbrev pub IsKept : (Notification → Notification) → Type 0
IsKept f =
    (r : Notification)
    → ((f r).id ≡ r.id) × ((f r).event_type ≡ r.event_type) × ((f r).dedupe_key ≡ r.dedupe_key)

pub fail_row-IsKept :
    (w : Settings) (now : ℕ) (claim : Claim) (retry : Bool) (retry_after : Option ℕ)
    → IsKept (fail_row w now claim retry retry_after)
unfolding fail_row
fail_row-IsKept w now claim retry retry_after r = elim (Bool-cases (exhausted claim retry)) [
  | inl over ↦ simp over (refl, refl, refl)
  | inr more ↦ simp more (refl, refl, refl)
]

-- The rows are as they were, or one of them is changed and stays the message that it is.
abbrev pub Changed : List Notification → List Notification → Type 0
Changed rows after =
    (after ≡ rows)
    ⊎ ((id : ℕ) × (f : Notification → Notification) × (after ≡ update_by notification_id id f rows)
        × IsKept f)

settle-outcome :
    (w : Settings) (now : ℕ) (claim : Claim) (verdict : Verdict) (rows : List Notification)
    → Changed rows (settle w now claim verdict rows)
unfolding settle
settle-outcome w now claim delivery rows =
    inr (claim.id, sent_row now, refl, λ r. (refl, refl, refl))
settle-outcome w now claim (failure retry retry_after) rows = inr (
  claim.id,
  fail_row w now claim retry retry_after,
  refl,
  fail_row-IsKept w now claim retry retry_after,
)

run-outcome :
    (w : Settings) (i : Input) (stage : Stage) (y : System) → Changed y.rows (run w i stage y).rows
unfolding run claim_next claim_row charge_row
run-outcome w i idle y = elim (Bool-cases i.stopping) [
  | inl stops ↦ inl (simp stops refl)
  | inr on ↦ elim (Option-cases (next_ready i.now y.rows)) [
    | inl nothing ↦ inl (simp (on, nothing) refl)
    | inr (r, ready) ↦
        inr (r.id, charge_row w i.now, simp (on, ready) refl, λ u. (refl, refl, refl))
  ]
]
run-outcome w i (reading claim) y = inl refl
run-outcome w i (sending claim) y = inl refl
run-outcome w i (recording claim verdict) y = settle-outcome w i.now claim verdict y.rows
run-outcome w i (handling claim) y = settle-outcome w i.now claim (failure true none) y.rows
run-outcome w i stopped y = inl refl

pub advance-outcome : (w : Settings) (i : Input) (y : System) → Changed y.rows (advance w i y).rows
unfolding advance
advance-outcome w i y = elim (Bool-cases i.crashes) [
  | inl crashes ↦ inl (simp crashes refl)
  | inr calm ↦ simp calm (run-outcome w i y.stage y)
]

-- The row of a message that the worker has taken: queued, with the attempt charged and the next one
-- scheduled.
pub record IsHeld (claim : Claim) (rows : List Notification) : Type 0 where
  pub row : Notification
  pub found : get_notification claim.id rows ≡ some row
  pub waits : is_pending row.status ≡ true
  pub charged : row.attempts ≡ claim.attempt
  pub retry_at : ℕ
  pub scheduled : row.next_attempt_at ≡ some retry_at

-- Whatever the worker has taken is held.
abbrev pub HeldAt : Stage → List Notification → Type 0
HeldAt (reading claim) rows = IsHeld claim rows
HeldAt (sending claim) rows = IsHeld claim rows
HeldAt (recording claim verdict) rows = IsHeld claim rows
HeldAt (handling claim) rows = IsHeld claim rows
HeldAt _ rows = Unit

claim_next-HeldAt :
    (w : Settings) (now : ℕ) (y : System)
    → KeysDistinct notification_id y.rows
    → HeldAt (claim_next w now y).stage (claim_next w now y).rows
unfolding claim_next claim_row charge_row
claim_next-HeldAt w now y distinct = elim (Option-cases (next_ready now y.rows)) [
  | inl nothing ↦ simp nothing tt
  | inr (r, ready) ↦
      let taken = next_ready-get_notification now r y.rows distinct ready in
      simp ready (record {
        row = charge_row w now r;
        found =
            get_by-update_by notification_id r.id (charge_row w now) r.id y.rows (λ u. refl)
            ∙ simp taken.0 (ground arith);
        waits = is_ready-pending now r taken.1;
        charged = refl;
        retry_at = now + retry_delay w (r.attempts + 1);
        scheduled = refl;
      })
]

after_settings-HeldAt :
    (w : Settings) (config : TelegramSettings) (claim : Claim) (rows : List Notification)
    → IsHeld claim rows
    → HeldAt (after_settings w config claim) rows
unfolding after_settings
after_settings-HeldAt w config claim rows held =
    elim (Bool-cases (
      not config.enabled
      || is_empty (w.strip (or_empty config.bot_token))
      || is_empty (w.strip config.chat_id))) [
        | inl incomplete ↦ simp incomplete held
        | inr complete ↦ elim (Bool-cases (is_empty (w.strip claim.text))) [
          | inl nothing ↦ simp (complete, nothing) held
          | inr filled ↦ simp (complete, filled) held
        ]
      ]

run-HeldAt :
    (w : Settings) (i : Input) (stage : Stage) (y : System)
    → KeysDistinct notification_id y.rows
    → HeldAt stage y.rows
    → HeldAt (run w i stage y).stage (run w i stage y).rows
unfolding run
run-HeldAt w i idle y distinct held = elim (Bool-cases i.stopping) [
  | inl stops ↦ simp stops tt
  | inr on ↦ simp on (claim_next-HeldAt w i.now y distinct)
]
run-HeldAt w i (reading claim) y distinct held = after_settings-HeldAt w i.config claim y.rows held
run-HeldAt w i (sending claim) y distinct held = held
run-HeldAt w i (recording claim verdict) y distinct held = tt
run-HeldAt w i (handling claim) y distinct held = tt
run-HeldAt w i stopped y distinct held = tt

crash-HeldAt :
    (stage : Stage) (rows : List Notification) → HeldAt stage rows → HeldAt (crash stage) rows
unfolding crash
crash-HeldAt idle rows held = tt
crash-HeldAt (reading claim) rows held = held
crash-HeldAt (sending claim) rows held = held
crash-HeldAt (recording claim verdict) rows held = held
crash-HeldAt (handling claim) rows held = tt
crash-HeldAt stopped rows held = tt

pub advance-HeldAt :
    (w : Settings) (i : Input) (y : System)
    → KeysDistinct notification_id y.rows
    → HeldAt y.stage y.rows
    → HeldAt (advance w i y).stage (advance w i y).rows
unfolding advance
advance-HeldAt w i y distinct held = elim (Bool-cases i.crashes) [
  | inl crashes ↦ simp crashes (crash-HeldAt y.stage y.rows held)
  | inr calm ↦ simp calm (run-HeldAt w i y.stage y distinct held)
]
