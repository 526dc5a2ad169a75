-- ===== src/Prelude/Backoff.antt =====
-- The delays that both workers with retries draw: between a base and a capped doubling of it.
use Prim.Native.Nat.{ℕ, ◌≤◌}
use mathlib.Core.Path.{◌≡◌, refl}
use mathlib.Core.Logic.{inl, inr}
use native.Mathlib.Omega.{arith}
use proxsync.Prelude.Tests.{ltb, Bool-cases, if◌then◌else◌}

-- `random.uniform` gives a number between its bounds.
abbrev pub IsUniform : (ℕ → ℕ → ℕ) → Type 0
IsUniform uniform = (a b : ℕ) → a ≤ b → (a ≤ uniform a b) × (uniform a b ≤ b)

-- A delay that lies between the base and the upper end, and is the base where there is nothing between.
abbrev pub IsDelay : ℕ → ℕ → ℕ → Type 0
IsDelay base top delay = (base ≤ delay) × (top ≤ base → delay ≡ base) × (base ≤ top → delay ≤ top)

pub uniform-IsDelay :
    (uniform : ℕ → ℕ → ℕ) (base top : ℕ)
    → IsUniform uniform
    → IsDelay base top (if ltb base top then uniform base top else base)
uniform-IsDelay uniform base top fair = elim (Bool-cases (ltb base top)) [
  | inl above ↦
      let within = fair base top (ground (arith, above)) in
      simp above (within.0, λ h. absurd (ground (arith, above, h)), λ h. within.1)
  | inr below ↦ simp below (omega arith, λ h. refl, λ h. h)
]
