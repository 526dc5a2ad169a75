-- ===== src/Circuit/Examples.antt =====
-- The theorems of the circuit breaker at concrete inputs.
use proxsync.Prelude.{◌≤◌, ◌≡◌, refl, true, some, [], ◌∷◌}
use proxsync.Circuit.{CircuitBreaker, fresh}
use proxsync.Circuit.Reachable.{asked, succeeded, failed, IsConsistent, replay, replay-IsConsistent}
use proxsync.Circuit.Probe.{ask_all, admitted, first_due, ask_all-admits_one, ask_all-admits_none}

abbrev tripped : CircuitBreaker
tripped = record (fresh 1 30) { failures = 1; opened_at = some 5 }

abbrev probing : CircuitBreaker
probing = record tripped { half_open_in_flight = true }

replay-IsConsistent_example :
    IsConsistent 2 30
      (asked 40 ∷ failed 5 ∷ failed 3 ∷ succeeded ∷ failed 1 ∷ [])
      (replay 2 30 (asked 40 ∷ failed 5 ∷ failed 3 ∷ succeeded ∷ failed 1 ∷ []))
replay-IsConsistent_example =
    replay-IsConsistent 2 30 (asked 40 ∷ failed 5 ∷ failed 3 ∷ succeeded ∷ failed 1 ∷ [])

ask_all-admits_one_example :
    (ask_all (10 ∷ 40 ∷ 41 ∷ []) tripped ≡ first_due 35 (10 ∷ 40 ∷ 41 ∷ []))
    × (admitted (ask_all (10 ∷ 40 ∷ 41 ∷ []) tripped) ≤ 1)
ask_all-admits_one_example = ask_all-admits_one 5 (10 ∷ 40 ∷ 41 ∷ []) tripped refl refl

ask_all-admits_none_example : admitted (ask_all (40 ∷ 4000 ∷ []) probing) ≡ 0
ask_all-admits_none_example = ask_all-admits_none 5 (40 ∷ 4000 ∷ []) probing refl refl
