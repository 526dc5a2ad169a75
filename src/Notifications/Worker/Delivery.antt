-- ===== src/Notifications/Worker/Delivery.antt =====
-- What becomes of a message that the worker sends.
use proxsync.Prelude.{
  ℕ, ◌+◌, ◌-◌, ◌*◌, ◌^◌, ◌≤◌, ◌<◌, min, ◌≡◌, refl, ap, ◌∙◌, true, false, ◌⊎◌, inl, inr, Option,
  none, some, List, arith, Bool-cases,
}
use proxsync.Prelude.Backoff.{IsUniform, IsDelay, uniform-IsDelay}
use proxsync.Prelude.Tables.{update_by, get_by-update_by}
use proxsync.Notifications.Types.{pending, sent, failed, TelegramSettings, Notification}
use proxsync.Notifications.Repository.{notification_id, get_notification}
use proxsync.Notifications.Service.{TelegramReply, delivered, refused, or_empty, is_empty}
use proxsync.Notifications.Worker.{
  Settings, Claim, idle, reading, sending, System, Input, retry_delay, delay_after, after_settings,
  verdict_of, sent_row, exhausted, fail_row, settle, run, advance,
}
use proxsync.Notifications.Worker.Outcomes.{fail_row-IsKept}

-- The delay before the next attempt: what Telegram asks for, or else the back-off.
abbrev pub IsRetryDelay : Settings → ℕ → Option ℕ → ℕ → Type 0
IsRetryDelay w attempt (some retry_after) delay = delay ≡ retry_after
IsRetryDelay w attempt none delay =
    IsDelay w.notification_retry_base_seconds
      (min w.notification_retry_max_seconds (w.notification_retry_base_seconds * 2 ^ (attempt - 1)))
      delay

-- What an answer of Telegram makes of the row.
abbrev pub IsSettled : Settings → ℕ → Claim → TelegramReply → Notification → Type 0
IsSettled w now claim delivered u =
    (u.status ≡ sent) × (u.sent_at ≡ some now) × (u.next_attempt_at ≡ none)
IsSettled w now claim (refused detail retryable retry_after) u =
    ((retryable ≡ true)
      × (claim.attempt < claim.max_attempts)
      × (u.status ≡ pending)
      × (delay : ℕ) × (u.next_attempt_at ≡ some (now + delay))
      × IsRetryDelay w claim.attempt retry_after delay)
    ⊎ (((retryable ≡ false) ⊎ (claim.max_attempts ≤ claim.attempt))
        × (u.status ≡ failed)
        × (u.next_attempt_at ≡ none))

delay_after-IsRetryDelay :
    (w : Settings) (claim : Claim) (retry_after : Option ℕ)
    → IsUniform w.uniform
    → IsRetryDelay w claim.attempt retry_after (delay_after w claim retry_after)
unfolding delay_after retry_delay
delay_after-IsRetryDelay w claim (some retry_after) fair = refl
delay_after-IsRetryDelay w claim none fair =
    uniform-IsDelay w.uniform w.notification_retry_base_seconds
      (min w.notification_retry_max_seconds
        (w.notification_retry_base_seconds * 2 ^ (claim.attempt - 1)))
      fair

-- The change that an answer of Telegram makes.
answer_row : Settings → ℕ → Claim → TelegramReply → Notification → Notification
answer_row w now claim delivered r = sent_row now r
answer_row w now claim (refused detail retryable retry_after) r =
    fail_row w now claim retryable retry_after r

answer_row-IsSettled :
    (w : Settings) (now : ℕ) (claim : Claim) (reply : TelegramReply) (r : Notification)
    → IsUniform w.uniform
    → IsSettled w now claim reply (answer_row w now claim reply r)
unfolding answer_row fail_row
answer_row-IsSettled w now claim delivered r fair = (refl, refl, refl)
answer_row-IsSettled w now claim (refused detail retryable retry_after) r fair =
    elim (Bool-cases (exhausted claim retryable)) [
      | inr more ↦ inl (
        ground (arith, more),
        ground (arith, more),
        simp more refl,
        delay_after w claim retry_after,
        simp more refl,
        delay_after-IsRetryDelay w claim retry_after fair,
      )
      | inl over ↦ inr (why over, simp over refl, simp over refl)
    ]
  where
    why :
        exhausted claim retryable ≡ true
        → (retryable ≡ false) ⊎ (claim.max_attempts ≤ claim.attempt)
    why over = elim (Bool-cases retryable) [
      | inr final ↦ inl final
      | inl again ↦ inr (ground (arith, over, again))
    ]

settle-answer_row :
    (w : Settings) (now : ℕ) (claim : Claim) (reply : TelegramReply) (rows : List Notification)
    → settle w now claim (verdict_of reply) rows
      ≡ update_by notification_id claim.id (answer_row w now claim reply) rows
unfolding settle answer_row
settle-answer_row w now claim delivered rows = refl
settle-answer_row w now claim (refused detail retryable retry_after) rows = refl

answer_row-id :
    (w : Settings) (now : ℕ) (claim : Claim) (reply : TelegramReply) (r : Notification)
    → (answer_row w now claim reply r).id ≡ r.id
unfolding answer_row
answer_row-id w now claim delivered r = refl
answer_row-id w now claim (refused detail retryable retry_after) r =
    (fail_row-IsKept w now claim retryable retry_after r).0

get_notification-settle :
    (w : Settings) (now : ℕ) (claim : Claim) (reply : TelegramReply) (rows : List Notification)
    (r : Notification)
    → get_notification claim.id rows ≡ some r
    → get_notification claim.id (settle w now claim (verdict_of reply) rows)
      ≡ some (answer_row w now claim reply r)
get_notification-settle w now claim reply rows r found =
    ap (get_notification claim.id) (settle-answer_row w now claim reply rows)
    ∙ get_by-update_by notification_id claim.id (answer_row w now claim reply) claim.id rows
        (answer_row-id w now claim reply)
    ∙ simp found (ground arith)

-- The settings are complete and the message has a text.
abbrev pub IsSendable : Settings → TelegramSettings → Claim → Type 0
IsSendable w config claim =
    (config.enabled ≡ true)
    × (is_empty (w.strip (or_empty config.bot_token)) ≡ false)
    × (is_empty (w.strip config.chat_id) ≡ false)
    × (is_empty (w.strip claim.text) ≡ false)

after_settings-sending :
    (w : Settings) (config : TelegramSettings) (claim : Claim)
    → IsSendable w config claim
    → after_settings w config claim ≡ sending claim
unfolding after_settings
after_settings-sending w config claim (on, token, chat, text) = simp (on, token, chat, text) refl

three_stretches :
    (w : Settings) (first second third : Input) (claim : Claim) (y : System)
    → y.stage ≡ reading claim
    → IsSendable w first.config claim
    → first.crashes ≡ false
    → second.crashes ≡ false
    → third.crashes ≡ false
    → advance w third (advance w second (advance w first y))
      ≡ record { rows = settle w third.now claim (verdict_of second.reply) y.rows; stage = idle }
unfolding advance run
three_stretches w first second third claim y at sendable calm still again =
    simp (calm, at) (simp (still, again, after_settings-sending w first.config claim sendable) refl)

-- A message that the worker has taken and may send is settled by its next three stretches, where nothing
-- unexpected happens in them: the worker is free again, and the row is sent if Telegram takes the message;
-- if Telegram refuses it, the row is queued again where the refusal may be retried and attempts are left,
-- after the time that Telegram names or else after a delay within the back-off, and failed otherwise.
pub advance-IsSettled :
    (w : Settings) (first second third : Input) (claim : Claim) (y : System) (r : Notification)
    → IsUniform w.uniform
    → y.stage ≡ reading claim
    → get_notification claim.id y.rows ≡ some r
    → IsSendable w first.config claim
    → first.crashes ≡ false
    → second.crashes ≡ false
    → third.crashes ≡ false
    → ((advance w third (advance w second (advance w first y))).stage ≡ idle)
      × (u : Notification) × (get_notification claim.id
            (advance w third (advance w second (advance w first y))).rows
          ≡ some u)
      × IsSettled w third.now claim second.reply u
advance-IsSettled w first second third claim y r fair at found sendable calm still again =
    let three = three_stretches w first second third claim y at sendable calm still again in
    (
      ap (λ z. z.stage) three,
      answer_row w third.now claim second.reply r,
      ap (λ z. get_notification claim.id z.rows) three
          ∙ get_notification-settle w third.now claim second.reply y.rows r found,
      answer_row-IsSettled w third.now claim second.reply r fair,
    )
