-- ===== src/Notifications/Repository.antt =====
-- `SqlAlchemyNotificationRepository` of backend/app/repositories/notification_repository.py. The outbox is
-- the list of its rows.
pub mod Ready
use proxsync.Prelude.{
  ℕ, suc, Bool, true, false, ◌&&◌, ◌||◌, Option, none, some, List, [], ◌∷◌, ◌++◌, ltb, leb, ◌==◌,
  filter, length, if◌then◌else◌,
}
use proxsync.Prelude.Text.{Text, eq_text}
use proxsync.Prelude.Tables.{get_by}
use proxsync.Notifications.Types.{
  NotificationEvent, backup_started, backup_success, backup_failed, restore_started,
  restore_finished, restore_failed, upload_failed, retention_deleted, storage_threshold, test,
  NotificationStatus, pending, sent, failed, suppressed, Notification,
}

abbrev pub notification_id : Notification → ℕ
notification_id r = r.id

abbrev pub get_notification : ℕ → List Notification → Option Notification
get_notification id rows = get_by notification_id id rows

abbrev event_number : NotificationEvent → ℕ
event_number backup_started = 0
event_number backup_success = 1
event_number backup_failed = 2
event_number restore_started = 3
event_number restore_finished = 4
event_number restore_failed = 5
event_number upload_failed = 6
event_number retention_deleted = 7
event_number storage_threshold = 8
event_number test = 9

abbrev pub same_event : NotificationEvent → NotificationEvent → Bool
same_event a b = event_number a == event_number b

abbrev status_number : NotificationStatus → ℕ
status_number pending = 0
status_number sent = 1
status_number failed = 2
status_number suppressed = 3

abbrev same_status : NotificationStatus → NotificationStatus → Bool
same_status a b = status_number a == status_number b

abbrev pub is_pending : NotificationStatus → Bool
is_pending pending = true
is_pending _ = false

abbrev pub is_sent : NotificationStatus → Bool
is_sent sent = true
is_sent _ = false

-- The first row in an order that compares two.
abbrev first_of :
    (Notification → Notification → Bool) → Notification → Option Notification → Notification
first_of before r none = r
first_of before r (some u) = if before r u then r else u

best : (Notification → Notification → Bool) → List Notification → Option Notification
best before [] = none
best before (r ∷ rows) = some (first_of before r (best before rows))

-- by `created_at` and then `id`, both ascending
abbrev older : Notification → Notification → Bool
older a b = ltb a.created_at b.created_at || a.created_at == b.created_at && ltb a.id b.id

-- by `created_at` and then `id`, both descending
abbrev newer : Notification → Notification → Bool
newer a b = older b a

elapsed : ℕ → Option ℕ → Bool
elapsed now none = true
elapsed now (some t) = leb t now

unfoldable pub is_ready : ℕ → Notification → Bool
unfolding elapsed
is_ready now r = is_pending r.status && elapsed now r.next_attempt_at

-- `next_ready`
unfoldable pub next_ready : ℕ → List Notification → Option Notification
unfolding best is_ready
next_ready now rows = best older (filter (is_ready now) rows)

abbrev pub same_key : Text → Option Text → Bool
same_key key none = false
same_key key (some other) = eq_text other key

-- The rows that describe one occurrence.
abbrev pub describes : NotificationEvent → Text → Notification → Bool
describes event key r = same_event r.event_type event && same_key key r.dedupe_key

since_ok : Option ℕ → Notification → Bool
since_ok none r = true
since_ok (some since) r = leb since r.created_at

is_in : NotificationStatus → List NotificationStatus → Bool
is_in status [] = false
is_in status (other ∷ statuses) = same_status status other || is_in status statuses

-- `if statuses`: no statuses is no condition.
statuses_ok : List NotificationStatus → Notification → Bool
unfolding is_in
statuses_ok [] r = true
statuses_ok (first ∷ statuses) r = is_in r.status (first ∷ statuses)

-- `latest_with_key`
unfoldable pub latest_with_key :
    NotificationEvent
    → Text
    → Option ℕ
    → List NotificationStatus
    → List Notification
    → Option Notification
unfolding best since_ok statuses_ok
latest_with_key event key since statuses rows =
    best newer
      (filter (λ r. describes event key r && since_ok since r && statuses_ok statuses r) rows)

-- `pending_count`
unfoldable pub pending_count : List Notification → ℕ
pending_count rows = length (filter (λ r. is_pending r.status) rows)
