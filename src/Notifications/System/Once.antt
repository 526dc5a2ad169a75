-- ===== src/Notifications/System/Once.antt =====
-- How many rows an occurrence has in the outbox.
use mathlib.Core.Bool.{false≢true}
use proxsync.Prelude.{
  ℕ, ◌+◌, ◌≤◌, ◌≡◌, refl, sym, ap, ◌∙◌, true, false, inl, inr, Option, none, some, List, [], ◌∷◌,
  ◌++◌, filter, length, is_some, arith, Bool-cases,
}
use proxsync.Prelude.Text.{Text, eq_text→eq}
use proxsync.Prelude.Tables.{one_if, update_by}
use proxsync.Notifications.Types.{NotificationEvent, TelegramSettings, Notification}
use proxsync.Notifications.Repository.{
  notification_id, same_event, same_key, describes, latest_with_key,
}
use proxsync.Notifications.Service.{
  Service, enqueue, resend, send_test, TelegramReply, Message, truthy_key, new_notification,
  is_empty, resend_row,
}
use proxsync.Notifications.Service.Outcomes.{enqueue-outcome, resend-outcome, send_test-outcome}
use proxsync.Notifications.Worker.{Settings, Input, System, advance}
use proxsync.Notifications.Worker.Outcomes.{advance-outcome}
use proxsync.Notifications.System.{
  enqueued, resent, tested, advanced, restarted, Reachable, start, next, IsUnique, repeats,
}

-- How many rows tell of an occurrence.
abbrev pub occurrences : NotificationEvent → Text → List Notification → ℕ
occurrences event key rows = length (filter (describes event key) rows)

same_event-occurrences :
    (event other : NotificationEvent) (key : Text) (rows : List Notification)
    → same_event other event ≡ true
    → occurrences other key rows ≡ occurrences event key rows
same_event-occurrences event other key [] same = refl
same_event-occurrences event other key (r ∷ rows) same =
    ground (arith, same, same_event-occurrences event other key rows same)

key_taken :
    (key : Text) (given : Option Text)
    → is_empty key ≡ false
    → same_key key given ≡ true
    → truthy_key given ≡ some key
key_taken key none filled same = absurd (false≢true same)
key_taken [] (some other) filled same = absurd (false≢true (sym filled))
key_taken (c ∷ key) (some other) filled same =
    ap (λ k. truthy_key (some k)) (eq_text→eq other (c ∷ key) same)

-- Where a report finds no row of its occurrence, there is none.
latest_with_key-occurrences :
    (event : NotificationEvent) (key : Text) (rows : List Notification)
    → is_some (latest_with_key event key none [] rows) ≡ false
    → occurrences event key rows ≡ 0
unfolding latest_with_key
latest_with_key-occurrences event key [] none_found = refl
latest_with_key-occurrences event key (r ∷ rows) none_found =
    elim (Bool-cases (describes event key r)) [
      | inl tells ↦ absurd (false≢true (sym (simp tells at none_found)))
      | inr other ↦
          simp other (latest_with_key-occurrences event key rows (simp other at none_found))
    ]

module _ (event : NotificationEvent) (key : Text) where
  occurrences-append :
      (new : Notification) (rows : List Notification)
      → occurrences event key (rows ++ new ∷ [])
        ≡ occurrences event key rows + one_if (describes event key new)
  occurrences-append new [] = ground arith
  occurrences-append new (r ∷ rows) = ground (arith, occurrences-append new rows)

  occurrences-update_by :
      (id : ℕ) (f : Notification → Notification) (rows : List Notification)
      → ((r : Notification) → describes event key (f r) ≡ describes event key r)
      → occurrences event key (update_by notification_id id f rows) ≡ occurrences event key rows
  unfolding update_by
  occurrences-update_by id f [] keeps = refl
  occurrences-update_by id f (r ∷ rows) keeps =
      ground (arith, keeps r, occurrences-update_by id f rows keeps)

  enqueue-occurrences :
      (v : Service) (config : TelegramSettings) (now : ℕ) (m : Message) (rows : List Notification)
      → is_empty key ≡ false
      → repeats event key m ≡ false
      → occurrences event key rows ≤ 1
      → occurrences event key (enqueue v config now m rows).1 ≤ 1
  enqueue-occurrences v config now m rows filled unique few =
      elim (enqueue-outcome v config now m rows) [
        | inl same ↦ simp same few
        | inr (by, more, new) ↦
            let row = new_notification v now m by (v.next_id rows) in
            let counted = ap (occurrences event key) more ∙ occurrences-append row rows in
            elim (Bool-cases (describes event key row)) [
              | inr other ↦ ground (arith, counted, other, few)
              | inl tells ↦
                  let same : same_event m.event event ≡ true = ground (arith, tells) in
                  let named : same_key key m.dedupe_key ≡ true = ground (arith, tells) in
                  let once : m.unique ≡ true = ground (arith, same, named, unique) in
                  let fresh : occurrences event key rows ≡ 0 =
                    sym (same_event-occurrences event m.event key rows same)
                    ∙ latest_with_key-occurrences m.event key rows
                        (new key (key_taken key m.dedupe_key filled named) once) in
                  ground (arith, counted, tells, fresh)
            ]
      ]

  resend-occurrences :
      (id : ℕ) (rows : List Notification)
      → occurrences event key (resend id rows).1 ≡ occurrences event key rows
  resend-occurrences id rows = elim (resend-outcome id rows) [
    | inl same ↦ ap (occurrences event key) same
    | inr (r, found, over, done) ↦
        ap (occurrences event key) done ∙ occurrences-update_by id resend_row rows (λ u. refl)
  ]

  send_test-occurrences :
      (v : Service) (config : TelegramSettings) (now : ℕ) (text : Text) (chat_id : Option Text)
      (reply : TelegramReply) (rows : List Notification)
      → occurrences event key (send_test v config now text chat_id reply rows).1
        ≡ occurrences event key rows
  send_test-occurrences v config now text chat_id reply rows =
      elim (send_test-outcome v config now text chat_id reply rows) [
        | inl same ↦ ap (occurrences event key) same
        | inr (new, fresh, unkeyed, done) ↦
            ap (occurrences event key) done ∙ occurrences-append new rows ∙ ground (arith, unkeyed)
      ]

  advance-occurrences :
      (w : Settings) (i : Input) (y : System)
      → occurrences event key (advance w i y).rows ≡ occurrences event key y.rows
  advance-occurrences w i y = elim (advance-outcome w i y) [
    | inl same ↦ ap (occurrences event key) same
    | inr (id, f, done, keeps) ↦
        ap (occurrences event key) done
        ∙ occurrences-update_by id f y.rows (λ r. let k = keeps r in ground (arith, k.1, k.2))
  ]

-- An occurrence that is reported under a key which is not empty, and always as unique, has at most one row in
-- the outbox, whatever else is reported, resent, tested and delivered, in whatever order, and however often
-- the process is restarted.
pub Reachable-occurrences :
    (v : Service) (w : Settings) (event : NotificationEvent) (key : Text) (y : System)
    → is_empty key ≡ false
    → Reachable v w (IsUnique event key) y
    → occurrences event key y.rows ≤ 1
unfolding IsUnique
Reachable-occurrences v w event key y filled start = omega arith
Reachable-occurrences v w event key y filled
      (next {y = before} reached (enqueued config now m) unique) =
    enqueue-occurrences event key v config now m before.rows filled unique
      (Reachable-occurrences v w event key before filled reached)
Reachable-occurrences v w event key y filled (next {y = before} reached (resent id) unique) =
    omega (
      arith,
      resend-occurrences event key id before.rows,
      Reachable-occurrences v w event key before filled reached,
    )
Reachable-occurrences v w event key y filled
      (next {y = before} reached (tested config now text chat_id reply) unique) =
    omega (
      arith,
      send_test-occurrences event key v config now text chat_id reply before.rows,
      Reachable-occurrences v w event key before filled reached,
    )
Reachable-occurrences v w event key y filled (next {y = before} reached (advanced i) unique) =
    omega (
      arith,
      advance-occurrences event key w i before,
      Reachable-occurrences v w event key before filled reached,
    )
Reachable-occurrences v w event key y filled (next {y = before} reached restarted unique) =
    Reachable-occurrences v w event key before filled reached
