-- ===== src/Notifications/Worker.antt =====
-- `NotificationWorker` of backend/app/workers/notification_worker.py, cut at its awaits: `advance` runs it
-- to the next one. Events, log lines and the text of the last error are left out.
pub mod Outcomes
pub mod Delivery
use proxsync.Prelude.{
  ℕ, suc, ◌+◌, ◌-◌, ◌*◌, ◌^◌, min, Bool, true, false, not, ◌&&◌, ◌||◌, Option, none, some, List, [],
  ◌∷◌, ltb, leb, if◌then◌else◌,
}
use proxsync.Prelude.Text.{Text}
use proxsync.Prelude.Tables.{update_by}
use proxsync.Notifications.Types.{
  NotificationStatus, pending, sent, failed, TelegramSettings, Notification,
}
use proxsync.Notifications.Repository.{notification_id, get_notification, next_ready}
use proxsync.Notifications.Service.{TelegramReply, delivered, refused, or_empty, is_empty}

-- The part of the configuration that the worker reads, in whole seconds, with `random.uniform` and
-- `str.strip`.
pub record Settings : Type 0 where
  pub notification_retry_base_seconds : ℕ
  pub notification_retry_max_seconds : ℕ
  pub uniform : ℕ → ℕ → ℕ
  pub strip : Text → Text

-- `_Claim`
pub record Claim : Type 0 where
  pub id : ℕ
  pub text : Text
  pub attempt : ℕ
  pub max_attempts : ℕ

pub data Verdict : Type 0 where
  delivery : Verdict
  failure : Bool → Option ℕ → Verdict

pub data Stage : Type 0 where
  idle : Stage
  -- `_deliver`: the settings, then the send, then `_record_sent` or `_record_failure`
  reading sending : Claim → Stage
  recording : Claim → Verdict → Stage
  -- the `_record_failure` of the loop's own handler
  handling : Claim → Stage
  stopped : Stage

pub record System : Type 0 where
  pub rows : List Notification
  pub stage : Stage

pub record Input : Type 0 where
  pub now : ℕ
  pub stopping : Bool
  pub crashes : Bool
  pub config : TelegramSettings
  pub reply : TelegramReply

-- `_retry_delay`
unfoldable pub retry_delay : Settings → ℕ → ℕ
retry_delay w attempt =
    let base = w.notification_retry_base_seconds in
    let ceiling = min w.notification_retry_max_seconds (base * 2 ^ (attempt - 1)) in
    if ltb base ceiling then w.uniform base ceiling else base

pub charge_row : Settings → ℕ → Notification → Notification
unfolding retry_delay
charge_row w now r = record r {
  attempts = r.attempts + 1;
  next_attempt_at = some (now + retry_delay w (r.attempts + 1));
}

abbrev pub claim_of : Notification → Claim
claim_of r = record {
  id = r.id;
  text = r.text;
  attempt = r.attempts + 1;
  max_attempts = r.max_attempts;
}

abbrev in_stage : Stage → System → System
in_stage stage y = record y { stage = stage }

claim_row : Settings → ℕ → Option Notification → System → System
unfolding update_by charge_row
claim_row w now none y = in_stage idle y
claim_row w now (some r) y = record {
  rows = update_by notification_id r.id (charge_row w now) y.rows;
  stage = reading (claim_of r);
}

-- `_claim_next`
unfoldable pub claim_next : Settings → ℕ → System → System
unfolding claim_row next_ready
claim_next w now y = claim_row w now (next_ready now y.rows) y

-- The checks of `_deliver` before the send.
pub after_settings : Settings → TelegramSettings → Claim → Stage
after_settings w config claim =
    if not config.enabled
      || is_empty (w.strip (or_empty config.bot_token))
      || is_empty (w.strip config.chat_id)
    then recording claim (failure false none)
    else if is_empty (w.strip claim.text)
    then recording claim (failure false none)
    else sending claim

-- What `_deliver` makes of Telegram's answer.
abbrev pub verdict_of : TelegramReply → Verdict
verdict_of delivered = delivery
verdict_of (refused detail retryable retry_after) = failure retryable retry_after

abbrev pub sent_row : ℕ → Notification → Notification
sent_row now r = record r { status = sent; sent_at = some now; next_attempt_at = none }

abbrev pub exhausted : Claim → Bool → Bool
exhausted claim retry = not retry || leb claim.max_attempts claim.attempt

-- Telegram's own `retry_after` comes before the back-off.
delay_after : Settings → Claim → Option ℕ → ℕ
unfolding retry_delay
delay_after w claim none = retry_delay w claim.attempt
delay_after w claim (some retry_after) = retry_after

-- What `_record_failure` makes of the row.
pub fail_row : Settings → ℕ → Claim → Bool → Option ℕ → Notification → Notification
unfolding delay_after
fail_row w now claim retry retry_after r =
    if exhausted claim retry
    then record r { status = failed; next_attempt_at = none }
    else record r {
      status = pending;
      next_attempt_at = some (now + delay_after w claim retry_after);
    }

-- `_record_sent` and `_record_failure`; a row that is gone is left alone.
unfoldable pub settle : Settings → ℕ → Claim → Verdict → List Notification → List Notification
unfolding update_by fail_row
settle w now claim delivery rows = update_by notification_id claim.id (sent_row now) rows
settle w now claim (failure retry retry_after) rows =
    update_by notification_id claim.id (fail_row w now claim retry retry_after) rows

-- One stretch of the worker, if nothing unexpected happens in it.
pub run : Settings → Input → Stage → System → System
unfolding claim_next after_settings settle
run w i idle y = if i.stopping then in_stage stopped y else claim_next w i.now y
run w i (reading claim) y = in_stage (after_settings w i.config claim) y
run w i (sending claim) y = in_stage (recording claim (verdict_of i.reply)) y
run w i (recording claim verdict) y = record {
  rows = settle w i.now claim verdict y.rows;
  stage = idle;
}
run w i (handling claim) y = record {
  rows = settle w i.now claim (failure true none) y.rows;
  stage = idle;
}
run w i stopped y = in_stage stopped y

-- Where an exception that nothing expects leads.
pub crash : Stage → Stage
crash idle = idle
crash (reading claim) = handling claim
crash (sending claim) = handling claim
crash (recording claim verdict) = handling claim
crash (handling claim) = stopped
crash stopped = stopped

-- The worker up to its next await.
unfoldable pub advance : Settings → Input → System → System
unfolding run crash
advance w i y = if i.crashes then in_stage (crash y.stage) y else run w i y.stage y
