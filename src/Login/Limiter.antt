-- ===== src/Login/Limiter.antt =====
-- The login limiter and the length of a lockout: backend/app/core/rate_limit.py.
pub mod Backoff
use proxsync.Prelude.{
  ℕ, zero, suc, ◌+◌, ◌-◌, ◌*◌, ◌^◌, min, Bool, true, false, Option, none, some, List, [], ◌∷◌, ◌++◌,
  ltb, leb, length, if◌then◌else◌,
}
use proxsync.Prelude.Text.{Text, eq_text}

pub record RateLimitDecision : Type 0 where
  pub allowed : Bool
  pub remaining : ℕ
  pub retry_after_seconds : ℕ

-- The hits of every key, the keys in the order of the `OrderedDict`, the times of a key oldest first.
pub record SlidingWindowLimiter : Type 0 where
  pub max : ℕ
  pub window : ℕ
  pub max_keys : ℕ
  pub hits : List (Text × List ℕ)

-- `while window and window[0] < cutoff: window.popleft()`, where `t < now - window` is
-- `t + window < now`.
pub pop_old : ℕ → ℕ → List ℕ → List ℕ
pop_old window now [] = []
pop_old window now (t ∷ times) =
    let rest = pop_old window now times in if ltb (t + window) now then rest else t ∷ times

-- `_prune`: the times of the key that remain, and the hits, in which the key now stands.
pub prune : ℕ → Text → ℕ → List (Text × List ℕ) → List ℕ × List (Text × List ℕ)
unfolding pop_old
prune window key now [] = ([], (key, []) ∷ [])
prune window key now ((k, times) ∷ hits) =
    let rest = prune window key now hits in
    if eq_text k key
    then (pop_old window now times, (k, pop_old window now times) ∷ hits)
    else (rest.0, (k, times) ∷ rest.1)

at_least_one : ℕ → ℕ
at_least_one zero = 1
at_least_one (suc n) = suc n

-- `none` is the `IndexError` of `window[0]`, which a limit of 0 attempts would raise.
decide : ℕ → ℕ → ℕ → List ℕ → Option RateLimitDecision
unfolding at_least_one
decide max window now [] =
    if ltb 0 max
    then some (record { allowed = true; remaining = max; retry_after_seconds = 0 })
    else none
decide max window now (t ∷ times) = some (
    if ltb (length (t ∷ times)) max
    then record { allowed = true; remaining = max - length (t ∷ times); retry_after_seconds = 0 }
    else record {
      allowed = false;
      remaining = 0;
      retry_after_seconds = at_least_one (t + window - now);
    })

-- `check`
unfoldable pub check :
    Text → ℕ → SlidingWindowLimiter → Option RateLimitDecision × SlidingWindowLimiter
unfolding prune decide
check key now l =
    let (times, hits) = prune l.window key now l.hits in
    (decide l.max l.window now times, record l { hits = hits })

-- `self._hits.pop(key, None)`
pub pop_key : Text → List (Text × List ℕ) → List (Text × List ℕ)
pop_key key [] = []
pop_key key ((k, times) ∷ hits) =
    let rest = pop_key key hits in if eq_text k key then hits else (k, times) ∷ rest

-- `while len(self._hits) > self._max_keys: popitem(last=False)`
pub pop_oldest : ℕ → List (Text × List ℕ) → List (Text × List ℕ)
pop_oldest max_keys [] = []
pop_oldest max_keys (e ∷ hits) =
    let rest = pop_oldest max_keys hits in
    if ltb max_keys (length (e ∷ hits)) then rest else e ∷ hits

-- `record`: the key moves to the end with one more hit.
pub record_hit : Text → ℕ → SlidingWindowLimiter → SlidingWindowLimiter
unfolding prune pop_key pop_oldest
record_hit key now l =
    let (times, hits) = prune l.window key now l.hits in
    record l { hits = pop_oldest l.max_keys (pop_key key hits ++ (key, times ++ now ∷ []) ∷ []) }

-- `reset`
pub reset : Text → SlidingWindowLimiter → SlidingWindowLimiter
unfolding pop_key
reset key l = record l { hits = pop_key key l.hits }

-- `base * (1 << exponent)`, capped.
unfoldable pub lockout_duration_seconds : ℕ → ℕ → ℕ → ℕ
lockout_duration_seconds zero base maximum = 0
lockout_duration_seconds (suc n) base maximum = min (base * 2 ^ min n 16) maximum
