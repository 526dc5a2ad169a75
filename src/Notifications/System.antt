-- ===== src/Notifications/System.antt =====
-- The callers of the outbox, its operators, the worker and restarts of the process as steps of one system.
pub mod Once
pub mod Held
use proxsync.Prelude.{ℕ, Bool, true, false, not, ◌&&◌, Option, none, some, List, [], ◌≡◌}
use proxsync.Prelude.Text.{Text}
use proxsync.Notifications.Types.{NotificationEvent, TelegramSettings, Notification}
use proxsync.Notifications.Repository.{same_event, same_key}
use proxsync.Notifications.Service.{Service, Message, TelegramReply, enqueue, resend, send_test}
use proxsync.Notifications.Worker.{Settings, Input, System, idle, advance}

abbrev pub with_rows : List Notification → System → System
with_rows rows y = record y { rows = rows }

pub data Step (v : Service) (w : Settings) : System → System → Type 0 where
  enqueued :
      {y : System} (config : TelegramSettings) (now : ℕ) (m : Message)
      → Step v w y (with_rows (enqueue v config now m y.rows).1 y)
  resent : {y : System} (id : ℕ) → Step v w y (with_rows (resend id y.rows).1 y)
  tested :
      {y : System} (config : TelegramSettings) (now : ℕ) (text : Text) (chat_id : Option Text)
      (reply : TelegramReply)
      → Step v w y (with_rows (send_test v config now text chat_id reply y.rows).1 y)
  advanced : {y : System} (i : Input) → Step v w y (advance w i y)
  -- a new process starts its worker at the head of the loop
  restarted : {y : System} → Step v w y (record y { stage = idle })

abbrev pub installed : System
installed = record { rows = []; stage = idle }

-- The outbox after steps that all meet a condition.
pub data Reachable (v : Service) (w : Settings) (allowed : (y z : System) → Step v w y z → Type 0)
    : System → Type 0 where
  start : Reachable v w allowed installed
  next :
      {y z : System}
      → Reachable v w allowed y
      → (step : Step v w y z) → allowed y z step
      → Reachable v w allowed z

-- A step that reports this occurrence without asking for it to be unique.
abbrev repeats : NotificationEvent → Text → Message → Bool
repeats event key m = same_event m.event event && same_key key m.dedupe_key && not m.unique

-- Every report of the occurrence asks for it to be unique.
unfoldable pub IsUnique :
    {v : Service} {w : Settings} → NotificationEvent → Text → (y z : System) → Step v w y z → Type 0
IsUnique event key y z (enqueued config now m) = repeats event key m ≡ false
IsUnique event key y z (resent id) = Unit
IsUnique event key y z (tested config now text chat_id reply) = Unit
IsUnique event key y z (advanced i) = Unit
IsUnique event key y z restarted = Unit
