-- ===== src/Circuit.antt =====
-- The circuit breaker of the dashboard's client of the agent:
-- backend/app/clients/circuit_breaker.py. Times are whole seconds of the monotonic clock.
pub mod Reachable
pub mod Probe
mod Examples
use proxsync.Prelude.{
  ℕ, zero, suc, ◌+◌, ◌-◌, Bool, true, false, Option, none, some, leb, if◌then◌else◌,
}

pub data CircuitState : Type 0 where
  closed opened half_open : CircuitState

pub record CircuitBreaker : Type 0 where
  pub threshold : ℕ
  pub reset : ℕ
  pub failures : ℕ
  pub opened_at : Option ℕ
  pub half_open_in_flight : Bool

-- `__init__`
abbrev pub fresh : ℕ → ℕ → CircuitBreaker
fresh failure_threshold reset_seconds = record {
  threshold = failure_threshold;
  reset = reset_seconds;
  failures = 0;
  opened_at = none;
  half_open_in_flight = false;
}

state_since : ℕ → ℕ → Option ℕ → CircuitState
state_since now reset none = closed
state_since now reset (some at) = if leb (at + reset) now then half_open else opened

-- `state`
pub state : ℕ → CircuitBreaker → CircuitState
unfolding state_since
state now b = state_since now b.reset b.opened_at

allow_in : CircuitState → CircuitBreaker → Bool × CircuitBreaker
allow_in closed b = (true, b)
allow_in opened b = (false, b)
allow_in half_open b =
    if b.half_open_in_flight then (false, b) else (true, record b { half_open_in_flight = true })

-- `allow`
pub allow : ℕ → CircuitBreaker → Bool × CircuitBreaker
unfolding state allow_in
allow now b = allow_in (state now b) b

seconds_until : ℕ → ℕ → Option ℕ → ℕ
seconds_until now reset none = 0
seconds_until now reset (some at) = at + reset - now

-- `retry_after_seconds`
pub retry_after_seconds : ℕ → CircuitBreaker → ℕ
unfolding seconds_until
retry_after_seconds now b = seconds_until now b.reset b.opened_at

-- `record_success`
pub record_success : CircuitBreaker → CircuitBreaker
record_success b = record b { failures = 0; opened_at = none; half_open_in_flight = false }

-- `record_failure`; an open circuit is stamped anew by every further failure.
unfoldable pub record_failure : ℕ → CircuitBreaker → CircuitBreaker
record_failure now b = record b {
  failures = suc b.failures;
  half_open_in_flight = false;
  opened_at = if leb b.threshold (suc b.failures) then some now else b.opened_at;
}
