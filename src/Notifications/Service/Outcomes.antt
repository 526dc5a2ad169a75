-- ===== src/Notifications/Service/Outcomes.antt =====
-- What the callers and the operators of the outbox come to.
use mathlib.Core.Bool.{false≢true}
use proxsync.Prelude.{
  ℕ, ◌-◌, ◌≡◌, refl, sym, ap, ◌∙◌, true, false, ◌⊎◌, inl, inr, Option, none, some, List, [], ◌∷◌,
  ◌++◌, is_some, some-injective, Bool-cases, Option-cases,
}
use proxsync.Prelude.Text.{Text}
use proxsync.Prelude.Tables.{update_by, get_by-key}
use proxsync.Notifications.Types.{pending, sent, TelegramSettings, Notification}
use proxsync.Notifications.Repository.{
  notification_id, get_notification, is_pending, latest_with_key,
}
use proxsync.Notifications.Service.{
  Service, Message, truthy_key, new_notification, wanted, id_of, create, enqueue, enqueue_keyed,
  resend_row, resend_found, resend, TelegramReply, or_empty, or_else, is_empty, test_row,
  record_test, send_test,
}

-- `enqueue` writes nothing, or one row behind the others; for a message that asks for uniqueness under a
-- key, only if no row tells of its occurrence.
pub enqueue-outcome :
    (v : Service) (config : TelegramSettings) (now : ℕ) (m : Message) (rows : List Notification)
    → ((enqueue v config now m rows).1 ≡ rows)
      ⊎ ((by : Option ℕ) × ((enqueue v config now m rows).1
            ≡ rows ++ new_notification v now m by (v.next_id rows) ∷ [])
          × ((key : Text)
              → truthy_key m.dedupe_key ≡ some key
              → m.unique ≡ true
              → is_some (latest_with_key m.event key none [] rows) ≡ false))
unfolding enqueue enqueue_keyed create
enqueue-outcome v config now m rows = elim (Bool-cases (wanted config m.event)) [
  | inr unwanted ↦ inl (simp unwanted refl)
  | inl asked ↦ elim (Option-cases (truthy_key m.dedupe_key)) [
    | inl unkeyed ↦ inr (none, simp (asked, unkeyed) refl, λ key keyed. cc (unkeyed, keyed))
    | inr (k, keyed) ↦ elim (Bool-cases m.unique) [
      | inr recurs ↦ inr (
        id_of (
            latest_with_key m.event k (some (now - v.suppress_window_seconds)) (pending ∷ sent ∷ [])
              rows),
        simp (asked, keyed, recurs) refl,
        λ key other unique. absurd (false≢true (sym recurs ∙ unique)),
      )
      | inl once ↦ elim (Bool-cases (is_some (latest_with_key m.event k none [] rows))) [
        | inl known ↦ inl (simp (asked, keyed, once, known) refl)
        | inr new ↦ inr (
          none,
          simp (asked, keyed, once, new) refl,
          λ key other unique.
              ap (λ j. is_some (latest_with_key m.event j none [] rows))
                (some-injective key k (sym other ∙ keyed))
              ∙ new,
        )
      ]
    ]
  ]
]

-- `resend` is refused and changes nothing, or the row was not pending and is queued anew.
pub resend-outcome :
    (id : ℕ) (rows : List Notification)
    → ((resend id rows).1 ≡ rows)
      ⊎ ((r : Notification) × (get_notification id rows ≡ some r)
          × (is_pending r.status ≡ false)
          × ((resend id rows).1 ≡ update_by notification_id id resend_row rows))
unfolding resend resend_found
resend-outcome id rows = elim (Option-cases (get_notification id rows)) [
  | inl absent ↦ inl (simp absent refl)
  | inr (r, found) ↦ elim (Bool-cases (is_pending r.status)) [
    | inl waits ↦ inl (simp (found, waits) refl)
    | inr over ↦
        let same : r.id ≡ id = get_by-key notification_id id r rows found in
        inr (r, found, over, simp (found, over, same) refl)
  ]
]

-- `send_test` is refused and changes nothing, or it adds one row without a key.
pub send_test-outcome :
    (v : Service) (config : TelegramSettings) (now : ℕ) (text : Text) (chat_id : Option Text)
    (reply : TelegramReply) (rows : List Notification)
    → ((send_test v config now text chat_id reply rows).1 ≡ rows)
      ⊎ ((new : Notification) × (new.id ≡ v.next_id rows)
          × (new.dedupe_key ≡ none)
          × ((send_test v config now text chat_id reply rows).1 ≡ rows ++ new ∷ []))
unfolding send_test record_test
send_test-outcome v config now text chat_id reply rows =
    elim (Bool-cases (is_empty (v.strip (or_empty config.bot_token)))) [
      | inl untold ↦ inl (simp untold refl)
      | inr token ↦ elim (Bool-cases (is_empty (v.strip (or_else chat_id config.chat_id)))) [
        | inl nowhere ↦ inl (simp (token, nowhere) refl)
        | inr chat ↦
            inr (test_row v now text reply (v.next_id rows), refl, refl, simp (token, chat) refl)
      ]
    ]
