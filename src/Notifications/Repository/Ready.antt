-- ===== src/Notifications/Repository/Ready.antt =====
-- The message that the worker takes next.
use mathlib.Core.Path.{subst}
use proxsync.Prelude.{
  ℕ, ◌≤◌, ◌≡◌, ap, Bool, true, inl, inr, none, some, List, [], ◌∷◌, ◌==◌, filter, some-injective,
  arith, Bool-cases, Option-cases,
}
use proxsync.Prelude.Tables.{KeysDistinct}
use proxsync.Notifications.Types.{Notification}
use proxsync.Notifications.Repository.{
  notification_id, get_notification, is_pending, elapsed, is_ready, next_ready, best, older,
}

module _ (before : Notification → Notification → Bool) (q : Notification → Bool) where
  -- What is found first among the rows that pass a test is a row that passes it.
  best-get_notification :
      (r : Notification) (rows : List Notification)
      → KeysDistinct notification_id rows
      → best before (filter q rows) ≡ some r
      → (get_notification r.id rows ≡ some r) × (q r ≡ true)
  unfolding best
  best-get_notification r [] distinct found = cc
  best-get_notification r (u ∷ rows) distinct found = elim (Bool-cases (q u)) [
    | inr fails ↦
        let later = best-get_notification r rows distinct.1 (simp fails at found) in
        (elsewhere u r rows distinct.0 later.0, later.1)
    | inl passes ↦ elim (Option-cases (best before (filter q rows))) [
      | inl alone ↦
          let same : u ≡ r = some-injective u r (simp (passes, alone) at found) in
          subst (λ v. (get_notification v.id (u ∷ rows) ≡ some v) × (q v ≡ true)) same
            (ground arith, passes)
      | inr (v, more) ↦ elim (Bool-cases (before u v)) [
        | inl here ↦
            let same : u ≡ r = some-injective u r (simp (passes, more, here) at found) in
            subst (λ v. (get_notification v.id (u ∷ rows) ≡ some v) × (q v ≡ true)) same
              (ground arith, passes)
        | inr there ↦
            let same : v ≡ r = some-injective v r (simp (passes, more, there) at found) in
            let later = best-get_notification v rows distinct.1 more in
            subst (λ v. (get_notification v.id (u ∷ rows) ≡ some v) × (q v ≡ true)) same
              (elsewhere u v rows distinct.0 later.0, later.1)
      ]
    ]
  ]
    where
      elsewhere :
          (u r : Notification) (rows : List Notification)
          → get_notification u.id rows ≡ none
          → get_notification r.id rows ≡ some r
          → get_notification r.id (u ∷ rows) ≡ some r
      elsewhere u r rows absent found = elim (Bool-cases (u.id == r.id)) [
        | inr other ↦ simp other found
        | inl same ↦
            let e : u.id ≡ r.id = ground arith in
            absurd (cc (absent, found, ap (λ j. get_notification j rows) e))
      ]

pub next_ready-get_notification :
    (now : ℕ) (r : Notification) (rows : List Notification)
    → KeysDistinct notification_id rows
    → next_ready now rows ≡ some r
    → (get_notification r.id rows ≡ some r) × (is_ready now r ≡ true)
unfolding next_ready
next_ready-get_notification now r rows distinct found =
    best-get_notification older (is_ready now) r rows distinct found

pub is_ready-pending :
    (now : ℕ) (r : Notification) → is_ready now r ≡ true → is_pending r.status ≡ true
unfolding is_ready
is_ready-pending now r ready = ground (arith, ready)

pub is_ready-elapsed :
    (now at : ℕ) (r : Notification)
    → is_pending r.status ≡ true
    → r.next_attempt_at ≡ some at
    → at ≤ now
    → is_ready now r ≡ true
unfolding is_ready elapsed
is_ready-elapsed now at r waits scheduled late = simp (waits, scheduled) (ground (arith, late))
