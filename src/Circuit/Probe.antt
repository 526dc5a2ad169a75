-- ===== src/Circuit/Probe.antt =====
-- Half open, the circuit lets one request through; open, none.
use mathlib.Core.Path.{subst}
use proxsync.Prelude.{
  ℕ, suc, ◌+◌, ◌<◌, ◌≤◌, ◌≡◌, refl, Bool, true, false, none, some, List, [], ◌∷◌, leb, length, ltb,
  inl, inr, Bool-cases, count, arith, map, ap, sym, if◌then◌else◌,
}
use proxsync.Circuit.{CircuitBreaker, fresh, state, state_since, allow, allow_in, record_failure}

-- The answers to requests at the times of a list, with no result in between.
pub ask_all : List ℕ → CircuitBreaker → List Bool
ask_all [] b = []
ask_all (now ∷ times) b = (allow now b).0 ∷ ask_all times (allow now b).1

-- How many of the answers let the request through.
abbrev pub admitted : List Bool → ℕ
admitted answers = count (λ a. a) answers

-- The answers that let through the first request that is due.
abbrev pub first_due : ℕ → List ℕ → List Bool
first_due due [] = []
first_due due (now ∷ times) =
    let rest = first_due due times in
    if leb due now then true ∷ map (λ later. false) times else false ∷ rest

module _ (at : ℕ) where
  -- With a probe in flight a tripped circuit lets nothing through, at any time, as long as no result is
  -- recorded.
  pub ask_all-admits_none :
      (times : List ℕ) (b : CircuitBreaker)
      → b.opened_at ≡ some at
      → b.half_open_in_flight ≡ true
      → admitted (ask_all times b) ≡ 0
  unfolding ask_all allow state allow_in state_since
  ask_all-admits_none [] b tripped busy = refl
  ask_all-admits_none (now ∷ times) b tripped busy = elim (Bool-cases (leb (at + b.reset) now)) [
    | inl due ↦ simp (tripped, due, busy) (omega (arith, ask_all-admits_none times b tripped busy))
    | inr early ↦ simp (tripped, early) (omega (arith, ask_all-admits_none times b tripped busy))
  ]

  -- While a probe is in flight, no request is let through.
  ask_all-none :
      (times : List ℕ) (b : CircuitBreaker)
      → b.opened_at ≡ some at
      → b.half_open_in_flight ≡ true
      → ask_all times b ≡ map (λ now. false) times
  unfolding ask_all allow state allow_in state_since
  ask_all-none [] b tripped busy = refl
  ask_all-none (now ∷ times) b tripped busy = elim (Bool-cases (leb (at + b.reset) now)) [
    | inl due ↦ simp (tripped, due, busy) (ap (λ l. false ∷ l) (ask_all-none times b tripped busy))
    | inr early ↦ simp (tripped, early) (ap (λ l. false ∷ l) (ask_all-none times b tripped busy))
  ]

  ask_all-first_due :
      (times : List ℕ) (b : CircuitBreaker)
      → b.opened_at ≡ some at
      → b.half_open_in_flight ≡ false
      → ask_all times b ≡ first_due (at + b.reset) times
  unfolding ask_all allow state allow_in state_since
  ask_all-first_due [] b tripped idle = refl
  ask_all-first_due (now ∷ times) b tripped idle = elim (Bool-cases (leb (at + b.reset) now)) [
    | inl due ↦
        simp (tripped, due, idle)
          (ap (λ l. true ∷ l)
            (ask_all-none times (record b { opened_at = some at; half_open_in_flight = true }) refl
              refl))
    | inr early ↦
        simp (tripped, early) (ap (λ l. false ∷ l) (ask_all-first_due times b tripped idle))
  ]

  first_due-admits_one : (due : ℕ) (times : List ℕ) → admitted (first_due due times) ≤ 1
  first_due-admits_one due [] = omega arith
  first_due-admits_one due (now ∷ times) = elim (Bool-cases (leb due now)) [
    | inl reached ↦ simp reached (omega (arith, none_admitted times))
    | inr early ↦ simp early (omega (arith, first_due-admits_one due times))
  ]
    where
      none_admitted : (times : List ℕ) → admitted (map (λ now. false) times) ≡ 0
      none_admitted [] = refl
      none_admitted (now ∷ times) = omega (arith, none_admitted times)

  -- When a tripped circuit has no probe in flight and no result is recorded, it lets through the first
  -- request that comes when the reset time has passed, and no request before or after it.
  pub ask_all-admits_one :
      (times : List ℕ) (b : CircuitBreaker)
      → b.opened_at ≡ some at
      → b.half_open_in_flight ≡ false
      → (ask_all times b ≡ first_due (at + b.reset) times) × (admitted (ask_all times b) ≤ 1)
  ask_all-admits_one times b tripped idle =
      let same = ask_all-first_due times b tripped idle in
      (same, subst (λ l. admitted l ≤ 1) (sym same) (first_due-admits_one (at + b.reset) times))

-- The failures that follow on one another at the times of a list.
pub fail_all : List ℕ → CircuitBreaker → CircuitBreaker
fail_all [] b = b
fail_all (now ∷ times) b = fail_all times (record_failure now b)

fail_all-fields :
    (times : List ℕ) (b : CircuitBreaker)
    → ((fail_all times b).failures ≡ b.failures + length times)
      × ((fail_all times b).threshold ≡ b.threshold)
      × ((fail_all times b).reset ≡ b.reset)
unfolding fail_all record_failure
fail_all-fields [] b = (omega arith, refl, refl)
fail_all-fields (now ∷ times) b =
    let (f, t, r) = fail_all-fields times (record_failure now b) in (omega (arith, f), t, r)

fail_all-closed :
    (times : List ℕ) (b : CircuitBreaker)
    → b.opened_at ≡ none
    → b.failures + length times < b.threshold
    → (fail_all times b).opened_at ≡ none
unfolding fail_all record_failure
fail_all-closed [] b shut few = shut
fail_all-closed (now ∷ times) b shut few =
    let below : leb b.threshold (suc b.failures) ≡ false = ground arith in
    fail_all-closed times (record_failure now b) (simp below shut) (omega arith)

-- When the failures since the start have followed on one another, the last of them at a given time, a
-- request within the reset time of it is let through just when they are fewer than the threshold.
pub fail_all-trips :
    (times : List ℕ) (threshold reset at now : ℕ)
    → now < at + reset
    → (allow now (record_failure at (fail_all times (fresh threshold reset)))).0
      ≡ ltb (suc (length times)) threshold
unfolding allow state allow_in state_since record_failure
fail_all-trips times threshold reset at now soon =
    let b = fail_all times (fresh threshold reset) in
    let (f, t, r) = fail_all-fields times (fresh threshold reset) in
    elim (Bool-cases (leb threshold (suc (length times)))) [
      | inl many ↦
          let tripped : leb b.threshold (suc b.failures) ≡ true = ground (arith, f, t) in
          let early : leb (at + b.reset) now ≡ false = ground (arith, r) in
          simp (tripped, early) (ground arith)
      | inr few ↦
          let below : leb b.threshold (suc b.failures) ≡ false = ground (arith, f, t) in
          let shut : b.opened_at ≡ none =
            fail_all-closed times (fresh threshold reset) refl (ground arith) in
          simp (below, shut) (ground arith)
    ]
