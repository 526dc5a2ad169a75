-- ===== src/Notifications/Examples.antt =====
-- The outbox run on a concrete report, and each property at a concrete input.
use proxsync.Prelude.{
  ℕ, suc, ◌+◌, ◌≤◌, ◌≡◌, refl, Bool, true, false, none, some, List, [], ◌∷◌, arith,
}
use proxsync.Prelude.Backoff.{IsUniform}
use proxsync.Notifications.Types.{backup_failed, TelegramSettings, Notification}
use proxsync.Notifications.Repository.{get_notification, is_ready, pending_count}
use proxsync.Notifications.Service.{
  Service, Message, new_notification, delivered, refused, TelegramReply, emit,
}
use proxsync.Notifications.Worker.{Settings, Claim, idle, reading, System, Input, advance}
use proxsync.Notifications.Worker.Delivery.{IsSettled, advance-IsSettled}
use proxsync.Notifications.System.{
  Step, enqueued, advanced, restarted, Reachable, start, next, IsUnique,
}
use proxsync.Notifications.System.Once.{occurrences, Reachable-occurrences}
use proxsync.Notifications.System.Held.{IsFresh, Reachable-is_ready}

abbrev next_of : List Notification → ℕ
next_of [] = 1
next_of (r ∷ rows) = suc (r.id + next_of rows)

beyond : (rows : List Notification) (id : ℕ) → next_of rows ≤ id → get_notification id rows ≡ none
beyond [] id h = refl
beyond (r ∷ rows) id h = ground (arith, beyond rows id)

abbrev service : Service
service = record {
  max_attempts = 5;
  suppress_window_seconds = 300;
  next_id = next_of;
  strip = λ text. text;
}

service-IsFresh : IsFresh service.next_id
service-IsFresh rows = beyond rows (next_of rows) (omega arith)

abbrev settings : Settings
settings = record {
  notification_retry_base_seconds = 10;
  notification_retry_max_seconds = 600;
  uniform = λ a b. a;
  strip = λ text. text;
}

settings-IsUniform : IsUniform settings.uniform
settings-IsUniform a b h = (omega arith, h)

abbrev telegram : TelegramSettings
telegram = record {
  enabled = true;
  bot_token = some (3 ∷ []);
  chat_id = 4 ∷ [];
  notify_backup_started = true;
  notify_backup_success = true;
  notify_backup_failed = true;
  notify_restore_started = true;
  notify_restore_finished = true;
  notify_restore_failed = true;
  notify_upload_failed = true;
  notify_retention_deleted = false;
  notify_storage_threshold = true;
}

abbrev report : Bool → Message
report unique = record {
  event = backup_failed;
  text = 7 ∷ [];
  dedupe_key = some (8 ∷ []);
  unique = unique;
  backup_id = some 1;
  restore_id = none;
}

abbrev input : TelegramReply → Input
input reply = record {
  now = 60;
  stopping = false;
  crashes = false;
  config = telegram;
  reply = reply;
}

-- A unique report writes one row and rings the bell, and its repetition does neither.
told_once : (emit service telegram true 10 (report true) []).0 ≡ true
unfolding emit
told_once = refl

told_twice :
    emit service telegram true 20 (report true) (emit service telegram true 10 (report true) []).1
    ≡ (false, (emit service telegram true 10 (report true) []).1)
unfolding emit
told_twice = refl

-- A report that recurs is recorded as suppressed within the window, and rings no bell.
recurs :
    pending_count
      (emit service telegram true 20
        (report false)
        (emit service telegram true 10 (report false) []).1).1
    ≡ 1
unfolding emit pending_count
recurs = refl

abbrev row : Notification
row = new_notification service 10 (report true) none 1

abbrev queued : System
queued = record { rows = row ∷ []; stage = idle }

once-Reachable : Reachable service settings (IsUnique backup_failed (8 ∷ [])) queued
unfolding IsUnique emit
once-Reachable =
    next (next (next start (enqueued telegram 10 (report true)) refl) restarted tt)
      (enqueued telegram 20 (report true)) refl

Reachable-occurrences_example : occurrences backup_failed (8 ∷ []) queued.rows ≤ 1
Reachable-occurrences_example =
    Reachable-occurrences service settings backup_failed (8 ∷ []) queued refl once-Reachable

abbrev first_claim : Claim
first_claim = record { id = 1; text = 7 ∷ []; attempt = 1; max_attempts = 5 }

abbrev charged : Notification
charged = record (row) { attempts = 1; next_attempt_at = some 70 }

abbrev under_way : System
under_way = record { rows = charged ∷ []; stage = reading first_claim }

abbrev Anything : (y z : System) → Step service settings y z → Type 0
Anything y z step = Unit

under_way-Reachable : Reachable service settings Anything under_way
unfolding advance emit
under_way-Reachable =
    next (next start (enqueued telegram 10 (report true)) tt) (advanced (input delivered)) tt

Reachable-is_ready_example :
    (r : Notification) × (get_notification 1 under_way.rows ≡ some r)
    × (r.attempts ≡ 1)
    × (at : ℕ) × ((now : ℕ) → at ≤ now → is_ready now r ≡ true)
Reachable-is_ready_example =
    Reachable-is_ready service settings Anything first_claim under_way service-IsFresh
      under_way-Reachable refl

abbrev busy : TelegramReply
busy = refused (9 ∷ []) true (some 30)

advance-IsSettled_example :
    ((advance settings
        (input busy)
        (advance settings (input busy) (advance settings (input busy) under_way))).stage
      ≡ idle)
    × (u : Notification) × (get_notification 1
          (advance settings
            (input busy)
            (advance settings (input busy) (advance settings (input busy) under_way))).rows
        ≡ some u)
    × IsSettled settings 60 first_claim busy u
advance-IsSettled_example =
    advance-IsSettled settings (input busy) (input busy) (input busy) first_claim under_way charged
      settings-IsUniform refl refl (refl, refl, refl, refl) refl refl refl
