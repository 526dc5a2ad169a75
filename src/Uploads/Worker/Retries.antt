-- ===== src/Uploads/Worker/Retries.antt =====
-- The back-off of a transfer that fails, and how long it goes on.
use proxsync.Prelude.{
  ℕ, zero, suc, ◌+◌, ◌-◌, ◌*◌, ◌^◌, ◌≤◌, ◌<◌, ◌≡◌, refl, min, true, false, none, some, List, [],
  ◌∷◌, ◌++◌, ◌∙◌, take, length, arith, Bool-cases, ◌⊎◌, inl, inr,
}
use proxsync.Prelude.Backoff.{IsUniform, IsDelay, uniform-IsDelay}
use proxsync.Uploads.Types.{queued, failed, SyncTask}
use proxsync.Uploads.Worker.{Settings, retry_delay, claim_row, fail_row, exhausted}

-- The upper end of the back-off before the next attempt.
abbrev pub ceiling : Settings → ℕ → ℕ
ceiling w attempt = min w.sync_retry_max_seconds (w.sync_retry_base_seconds * 2 ^ (attempt - 1))

retry_delay-IsDelay :
    (w : Settings) (attempt : ℕ)
    → IsUniform w.uniform
    → IsDelay w.sync_retry_base_seconds (ceiling w attempt) (retry_delay w attempt)
unfolding retry_delay
retry_delay-IsDelay w attempt uniform =
    uniform-IsDelay w.uniform w.sync_retry_base_seconds (ceiling w attempt) uniform

-- What is left of a task after a failure: it waits for another attempt, or it is given up.
abbrev pub Outcome : Settings → ℕ → SyncTask → SyncTask → Type 0
Outcome w now t after =
    ((t.attempt < t.max_attempts)
      × (after.status ≡ queued)
      × (after.finished_at ≡ t.finished_at)
      × (delay : ℕ) × (after.next_retry_at ≡ some (now + delay))
      × IsDelay w.sync_retry_base_seconds (ceiling w t.attempt) delay)
    ⊎ ((t.max_attempts ≤ t.attempt)
        × (after.status ≡ failed)
        × (after.finished_at ≡ some now)
        × (after.next_retry_at ≡ none))

-- Where `uniform` gives a number between its bounds, a failure of a task with attempts left queues it for
-- another attempt, at a delay after the failure that is at least the base, the base itself where the
-- doubling up to the maximum gives no more, and else at most what the doubling gives; the failure of a task
-- without attempts left fails it at that instant, with no further attempt in store.
pub fail_row-Outcome :
    (w : Settings) (now : ℕ) (t : SyncTask)
    → IsUniform w.uniform
    → Outcome w now t (fail_row w now t)
unfolding fail_row
fail_row-Outcome w now t uniform = elim (Bool-cases (exhausted t)) [
  | inl spent ↦ inr (ground (arith, spent), simp spent refl, simp spent refl, simp spent refl)
  | inr left ↦ inl (
    ground (arith, left),
    simp left refl,
    simp left refl,
    retry_delay w t.attempt,
    simp left refl,
    retry_delay-IsDelay w t.attempt uniform,
  )
]

-- Claimed and failed, at each of these pairs of instants in turn.
pub failures : Settings → List (ℕ × ℕ) → SyncTask → SyncTask
failures w [] t = t
failures w ((claimed, failed_at) ∷ rest) t =
    failures w rest (fail_row w failed_at (claim_row claimed t))

failures-retried :
    (w : Settings) (rounds : List (ℕ × ℕ)) (t : SyncTask)
    → t.status ≡ queued
    → t.attempt + length rounds < t.max_attempts
    → ((failures w rounds t).status ≡ queued)
      × ((failures w rounds t).attempt ≡ t.attempt + length rounds)
unfolding failures claim_row fail_row
failures-retried w [] t waiting left = (waiting, omega arith)
failures-retried w ((claimed, failed_at) ∷ rest) t waiting left =
    let more : exhausted (claim_row claimed t) ≡ false = ground (arith, left) in
    let again : (fail_row w failed_at (claim_row claimed t)).status ≡ queued = simp more refl in
    let counted : (fail_row w failed_at (claim_row claimed t)).attempt ≡ t.attempt + 1 =
      simp more refl in
    let limit : (fail_row w failed_at (claim_row claimed t)).max_attempts ≡ t.max_attempts =
      simp more refl in
    let later =
      failures-retried w rest (fail_row w failed_at (claim_row claimed t)) again
        (omega (arith, left, counted, limit)) in
    (later.0, omega (arith, later.1, counted))

failures-append :
    (w : Settings) (rounds more : List (ℕ × ℕ)) (t : SyncTask)
    → failures w (rounds ++ more) t ≡ failures w more (failures w rounds t)
unfolding failures
failures-append w [] more t = refl
failures-append w ((claimed, failed_at) ∷ rest) more t =
    failures-append w rest more (fail_row w failed_at (claim_row claimed t))

failures-max_attempts :
    (w : Settings) (rounds : List (ℕ × ℕ)) (t : SyncTask)
    → (failures w rounds t).max_attempts ≡ t.max_attempts
unfolding failures claim_row fail_row
failures-max_attempts w [] t = refl
failures-max_attempts w ((claimed, failed_at) ∷ rest) t =
    failures-max_attempts w rest (fail_row w failed_at (claim_row claimed t))
    ∙ elim (Bool-cases (exhausted (claim_row claimed t))) [
      | inl spent ↦ simp spent refl
      | inr left ↦ simp left refl
    ]

length-take_le : (n : ℕ) (rounds : List (ℕ × ℕ)) → length (take n rounds) ≤ length rounds
length-take_le zero rounds = omega arith
length-take_le (suc n) [] = omega arith
length-take_le (suc n) (r ∷ rounds) = omega (arith, length-take_le n rounds)

given_up :
    (w : Settings) (claimed failed_at : ℕ) (t : SyncTask)
    → exhausted (claim_row claimed t) ≡ true
    → ((failures w ((claimed, failed_at) ∷ []) t).status ≡ failed)
      × ((failures w ((claimed, failed_at) ∷ []) t).attempt ≡ t.attempt + 1)
      × ((failures w ((claimed, failed_at) ∷ []) t).finished_at ≡ some failed_at)
      × ((failures w ((claimed, failed_at) ∷ []) t).next_retry_at ≡ none)
unfolding failures claim_row fail_row
given_up w claimed failed_at t spent =
    (simp spent refl, simp spent refl, simp spent refl, simp spent refl)

-- Whenever a queued task is claimed and fails, it is queued again as long as attempts are left, and the
-- failure of the last attempt that its limit allows gives it up: it is failed, at the instant of that
-- failure, with as many attempts as the limit and no further one in store.
pub failures-given_up :
    (w : Settings) (rounds : List (ℕ × ℕ)) (claimed failed_at : ℕ) (t : SyncTask)
    → t.status ≡ queued
    → t.attempt + length rounds + 1 ≡ t.max_attempts
    → ((n : ℕ) → (failures w (take n rounds) t).status ≡ queued)
      × ((failures w (rounds ++ (claimed, failed_at) ∷ []) t).status ≡ failed)
      × ((failures w (rounds ++ (claimed, failed_at) ∷ []) t).attempt ≡ t.max_attempts)
      × ((failures w (rounds ++ (claimed, failed_at) ∷ []) t).finished_at ≡ some failed_at)
      × ((failures w (rounds ++ (claimed, failed_at) ∷ []) t).next_retry_at ≡ none)
unfolding claim_row
failures-given_up w rounds claimed failed_at t waiting last =
    let before = failures-retried w rounds t waiting (omega (arith, last)) in
    let spent : exhausted (claim_row claimed (failures w rounds t)) ≡ true =
      ground (arith, before.1, failures-max_attempts w rounds t, last) in
    let end = given_up w claimed failed_at (failures w rounds t) spent in
    rw (failures-append w rounds ((claimed, failed_at) ∷ []) t) (
      λ n.
          (failures-retried w (take n rounds) t waiting
            (omega (arith, length-take_le n rounds, last))).0,
      end.0,
      end.1 ∙ omega (arith, before.1, last),
      end.2,
      end.3,
    )
