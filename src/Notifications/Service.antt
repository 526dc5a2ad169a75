-- ===== src/Notifications/Service.antt =====
-- `NotificationService` of backend/app/services/notification_service.py, without its lists: `enqueue`,
-- `resend` and `send_test`, and what `NotificationGateway.emit` adds.
pub mod Outcomes
use proxsync.Prelude.{
  ℕ, suc, ◌+◌, ◌-◌, Bool, true, false, not, ◌&&◌, ◌||◌, Option, none, some, List, [], ◌∷◌, ◌++◌,
  is_some, if◌then◌else◌,
}
use proxsync.Prelude.Text.{Text}
use proxsync.Prelude.Tables.{update_by}
use proxsync.Effects.{Result, ok, raised}
use proxsync.Notifications.Types.{
  NotificationEvent, backup_started, backup_success, backup_failed, restore_started,
  restore_finished, restore_failed, upload_failed, retention_deleted, storage_threshold, test,
  NotificationStatus, pending, sent, failed, suppressed, TelegramSettings, Notification,
}
use proxsync.Notifications.Repository.{
  notification_id, get_notification, is_pending, latest_with_key,
}

-- What the service is built with, the key that the database gives, and Python's `str.strip`.
pub record Service : Type 0 where
  pub max_attempts : ℕ
  pub suppress_window_seconds : ℕ
  pub next_id : List Notification → ℕ
  pub strip : Text → Text

pub data NotificationError : Type 0 where
  not_found conflict validation_failed : NotificationError

-- `_TOGGLE_BY_EVENT`, read from the settings; a test has no toggle.
toggle : TelegramSettings → NotificationEvent → Bool
toggle config backup_started = config.notify_backup_started
toggle config backup_success = config.notify_backup_success
toggle config backup_failed = config.notify_backup_failed
toggle config restore_started = config.notify_restore_started
toggle config restore_finished = config.notify_restore_finished
toggle config restore_failed = config.notify_restore_failed
toggle config upload_failed = config.notify_upload_failed
toggle config retention_deleted = config.notify_retention_deleted
toggle config storage_threshold = config.notify_storage_threshold
toggle config test = true

-- `_wanted`
pub wanted : TelegramSettings → NotificationEvent → Bool
unfolding toggle
wanted config event = config.enabled && toggle config event

-- What the caller of `enqueue` says, with the text that is rendered from it.
pub record Message : Type 0 where
  pub event : NotificationEvent
  pub text : Text
  pub dedupe_key : Option Text
  pub unique : Bool
  pub backup_id : Option ℕ
  pub restore_id : Option ℕ

-- `if dedupe_key`: an empty key is none.
abbrev pub truthy_key : Option Text → Option Text
truthy_key none = none
truthy_key (some []) = none
truthy_key (some (c ∷ key)) = some (c ∷ key)

abbrev pub status_for : Option ℕ → NotificationStatus
status_for none = pending
status_for (some id) = suppressed

-- `create` of the repository.
abbrev pub new_notification : Service → ℕ → Message → Option ℕ → ℕ → Notification
new_notification w now m suppressed_by id = record {
  id = id;
  event_type = m.event;
  status = status_for suppressed_by;
  text = m.text;
  suppressed_by = suppressed_by;
  dedupe_key = m.dedupe_key;
  attempts = 0;
  max_attempts = w.max_attempts;
  next_attempt_at = none;
  sent_at = none;
  backup_id = m.backup_id;
  restore_id = m.restore_id;
  created_at = now;
}

abbrev id_of : Option Notification → Option ℕ
id_of none = none
id_of (some r) = some r.id

create :
    Service → ℕ → Message → Option ℕ → List Notification → Option Notification × List Notification
create w now m suppressed_by rows =
    let new = new_notification w now m suppressed_by (w.next_id rows) in
    (some new, rows ++ new ∷ [])

enqueue_keyed :
    Service
    → ℕ
    → Message
    → Option Text
    → List Notification
    → Option Notification × List Notification
unfolding create latest_with_key
enqueue_keyed w now m none rows = create w now m none rows
enqueue_keyed w now m (some key) rows =
    if m.unique
    then if is_some (latest_with_key m.event key none [] rows)
      then (none, rows)
      else create w now m none rows
    else create w now m
        (id_of (
          latest_with_key m.event key (some (now - w.suppress_window_seconds)) (pending ∷ sent ∷ [])
            rows))
        rows

-- `enqueue`, at one instant. The start of the window stops at the earliest instant, before which no row
-- was created.
pub enqueue :
    Service
    → TelegramSettings
    → ℕ
    → Message
    → List Notification
    → Option Notification × List Notification
unfolding enqueue_keyed wanted
enqueue w config now m rows =
    if wanted config m.event
    then enqueue_keyed w now m (truthy_key m.dedupe_key) rows
    else (none, rows)

rings : Option Notification → Bool
rings none = false
rings (some r) = is_pending r.status

-- `emit` of the gateway: what `enqueue` gives, and whether the doorbell of the worker rings at the commit.
unfoldable pub emit :
    Service → TelegramSettings → Bool → ℕ → Message → List Notification → (Bool × List Notification)
unfolding enqueue rings
emit w config has_doorbell now m rows =
    let done = enqueue w config now m rows in (rings done.0 && has_doorbell, done.1)

abbrev pub resend_row : Notification → Notification
resend_row r = record r { status = pending; attempts = 0; next_attempt_at = none; sent_at = none }

resend_found :
    Option Notification → List Notification → Result NotificationError Unit × List Notification
unfolding update_by
resend_found none rows = (raised not_found, rows)
resend_found (some r) rows =
    if is_pending r.status
    then (raised conflict, rows)
    else (ok tt, update_by notification_id r.id resend_row rows)

-- `resend`
pub resend : ℕ → List Notification → Result NotificationError Unit × List Notification
unfolding resend_found
resend id rows = resend_found (get_notification id rows) rows

-- What Telegram answers: the message is delivered, or refused with a `TelegramError`.
pub data TelegramReply : Type 0 where
  delivered : TelegramReply
  refused : Text → Bool → Option ℕ → TelegramReply

abbrev pub or_empty : Option Text → Text
or_empty none = []
or_empty (some text) = text

-- `chat_id or config.chat_id or ""`
or_else : Option Text → Text → Text
or_else none text = text
or_else (some []) text = text
or_else (some (c ∷ chat)) text = c ∷ chat

abbrev pub is_empty : Text → Bool
is_empty [] = true
is_empty (c ∷ text) = false

-- `FAILED if error else SENT`: an error without a text counts as none.
pub test_status : TelegramReply → NotificationStatus
test_status delivered = sent
test_status (refused detail retryable retry_after) = if is_empty detail then sent else failed

abbrev pub test_row : Service → ℕ → Text → TelegramReply → ℕ → Notification
test_row w now text reply id = record {
  id = id;
  event_type = test;
  status = test_status reply;
  text = text;
  suppressed_by = none;
  dedupe_key = none;
  attempts = 0;
  max_attempts = w.max_attempts;
  next_attempt_at = none;
  sent_at = none;
  backup_id = none;
  restore_id = none;
  created_at = now;
}

-- `_record_test`
record_test : Service → ℕ → Text → TelegramReply → List Notification → List Notification
record_test w now text reply rows = rows ++ test_row w now text reply (w.next_id rows) ∷ []

is_delivered : TelegramReply → Bool
is_delivered delivered = true
is_delivered (refused detail retryable retry_after) = false

-- `send_test`, with a client of Telegram: whether the message was delivered, and the outbox with its row.
pub send_test :
    Service
    → TelegramSettings
    → ℕ
    → Text
    → Option Text
    → TelegramReply
    → List Notification
    → Result NotificationError Bool × List Notification
unfolding record_test is_delivered or_else
send_test w config now text chat_id reply rows =
    if is_empty (w.strip (or_empty config.bot_token))
    then (raised validation_failed, rows)
    else if is_empty (w.strip (or_else chat_id config.chat_id))
    then (raised validation_failed, rows)
    else (ok (is_delivered reply), record_test w now text reply rows)
