-- ===== src/Circuit/Reachable.antt =====
-- What a breaker has become after a history of its operations.
use proxsync.Prelude.{
  ℕ, suc, ◌≡◌, refl, true, not, Option, none, some, List, [], ◌∷◌, leb, is_some, ◌||◌, inl, inr,
  Bool-cases, arith, if◌then◌else◌,
}
use proxsync.Circuit.{
  CircuitState, closed, opened, half_open, CircuitBreaker, fresh, state, state_since, allow,
  allow_in, record_success, record_failure,
}

-- An operation of the breaker: a request at a time, or the result of one.
pub data Event : Type 0 where
  asked : ℕ → Event
  succeeded : Event
  failed : ℕ → Event

-- A new breaker after a history, which has its latest event first.
pub replay : ℕ → ℕ → List Event → CircuitBreaker
replay threshold reset [] = fresh threshold reset
replay threshold reset (asked now ∷ history) = (allow now (replay threshold reset history)).1
replay threshold reset (succeeded ∷ history) = record_success (replay threshold reset history)
replay threshold reset (failed now ∷ history) = record_failure now (replay threshold reset history)

-- How many failures the history has behind its last success.
abbrev pub streak : List Event → ℕ
streak [] = 0
streak (asked now ∷ history) = streak history
streak (succeeded ∷ history) = 0
streak (failed now ∷ history) = suc (streak history)

-- The time of the latest of those failures.
abbrev pub last_failure : List Event → Option ℕ
last_failure [] = none
last_failure (asked now ∷ history) = last_failure history
last_failure (succeeded ∷ history) = none
last_failure (failed now ∷ history) = some now

-- The circuit counts the failures behind the last success, has tripped just when they reach the threshold,
-- and then at the latest of them; a probe is in flight only while it has tripped; the settings are kept.
pub record IsConsistent (threshold reset : ℕ) (history : List Event) (b : CircuitBreaker)
    : Type 0 where
  pub counted : b.failures ≡ streak history
  pub tripped :
      b.opened_at ≡ (if leb threshold (streak history) then last_failure history else none)
  pub probing : not b.half_open_in_flight || is_some b.opened_at ≡ true
  pub same_threshold : b.threshold ≡ threshold
  pub same_reset : b.reset ≡ reset

state-half_open :
    (now reset : ℕ) (opened_at : Option ℕ)
    → state_since now reset opened_at ≡ half_open
    → is_some opened_at ≡ true
unfolding state_since
state-half_open now reset none h = cc
state-half_open now reset (some at) h = refl

module _ (threshold reset : ℕ) where
  allow_in-IsConsistent :
      (st : CircuitState) (history : List Event) (b : CircuitBreaker)
      → (st ≡ half_open → is_some b.opened_at ≡ true)
      → IsConsistent threshold reset history b
      → IsConsistent threshold reset history (allow_in st b).1
  unfolding allow_in
  allow_in-IsConsistent closed history b tripped h = h
  allow_in-IsConsistent opened history b tripped h = h
  allow_in-IsConsistent half_open history b tripped h = elim (Bool-cases b.half_open_in_flight) [
    | inl busy ↦ simp busy h
    | inr idle ↦ simp idle (record {
      counted = h.counted;
      tripped = h.tripped;
      probing = tripped refl;
      same_threshold = h.same_threshold;
      same_reset = h.same_reset;
    })
  ]

  asked-IsConsistent :
      (now : ℕ) (history : List Event) (b : CircuitBreaker)
      → IsConsistent threshold reset history b
      → IsConsistent threshold reset (asked now ∷ history) (allow now b).1
  unfolding allow state
  asked-IsConsistent now history b h =
      let after =
        allow_in-IsConsistent (state now b) history b (state-half_open now b.reset b.opened_at) h in
      record {
        counted = after.counted;
        tripped = after.tripped;
        probing = after.probing;
        same_threshold = after.same_threshold;
        same_reset = after.same_reset;
      }

  succeeded-IsConsistent :
      (history : List Event) (b : CircuitBreaker)
      → IsConsistent threshold reset history b
      → IsConsistent threshold reset (succeeded ∷ history) (record_success b)
  unfolding record_success
  succeeded-IsConsistent history b h = record {
    counted = refl;
    tripped = ground arith;
    probing = refl;
    same_threshold = h.same_threshold;
    same_reset = h.same_reset;
  }

  failed-IsConsistent :
      (now : ℕ) (history : List Event) (b : CircuitBreaker)
      → IsConsistent threshold reset history b
      → IsConsistent threshold reset (failed now ∷ history) (record_failure now b)
  unfolding record_failure
  failed-IsConsistent now history b h = record {
    counted = ground (arith, h.counted);
    tripped = ground (arith, h.counted, h.tripped, h.same_threshold);
    probing = refl;
    same_threshold = h.same_threshold;
    same_reset = h.same_reset;
  }

  -- After any history of requests, successes and failures, a breaker counts the failures since the last
  -- success; it has tripped just when these have reached the threshold, and then at the time of the latest
  -- of them, and is closed otherwise; a probe is in flight only while it has tripped.
  pub replay-IsConsistent :
      (history : List Event) → IsConsistent threshold reset history (replay threshold reset history)
  unfolding replay
  replay-IsConsistent [] = record {
    counted = refl;
    tripped = ground arith;
    probing = refl;
    same_threshold = refl;
    same_reset = refl;
  }
  replay-IsConsistent (asked now ∷ history) =
      asked-IsConsistent now history (replay threshold reset history) (replay-IsConsistent history)
  replay-IsConsistent (succeeded ∷ history) =
      succeeded-IsConsistent history (replay threshold reset history) (replay-IsConsistent history)
  replay-IsConsistent (failed now ∷ history) =
      failed-IsConsistent now history (replay threshold reset history) (replay-IsConsistent history)
