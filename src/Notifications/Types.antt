-- ===== src/Notifications/Types.antt =====
-- The rows of `Notification` in backend/app/db/models/system.py, their enumerations and the settings of
-- the channel. There is one channel. Error texts, correlation ids and the variables of a message are left
-- out; a message is the text that backend/app/services/notification_templates.py renders.
use proxsync.Prelude.{ℕ, Bool, Option}
use proxsync.Prelude.Text.{Text}

pub data NotificationEvent : Type 0 where
  backup_started backup_success backup_failed : NotificationEvent
  restore_started restore_finished restore_failed : NotificationEvent
  upload_failed retention_deleted storage_threshold test : NotificationEvent

pub data NotificationStatus : Type 0 where
  pending sent failed suppressed : NotificationStatus

pub record TelegramSettings : Type 0 where
  pub enabled : Bool
  pub bot_token : Option Text
  pub chat_id : Text
  pub notify_backup_started : Bool
  pub notify_backup_success : Bool
  pub notify_backup_failed : Bool
  pub notify_restore_started : Bool
  pub notify_restore_finished : Bool
  pub notify_restore_failed : Bool
  pub notify_upload_failed : Bool
  pub notify_retention_deleted : Bool
  pub notify_storage_threshold : Bool

pub record Notification : Type 0 where
  pub id : ℕ
  pub event_type : NotificationEvent
  pub status : NotificationStatus
  pub text : Text
  pub suppressed_by : Option ℕ
  pub dedupe_key : Option Text
  pub attempts : ℕ
  pub max_attempts : ℕ
  pub next_attempt_at : Option ℕ
  pub sent_at : Option ℕ
  pub backup_id : Option ℕ
  pub restore_id : Option ℕ
  pub created_at : ℕ
