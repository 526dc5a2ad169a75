-- ===== src/Login/Limiter/Backoff.antt =====
-- The length of a lockout.
use native.Mathlib.Nat.{min-eq_left, min-eq_right, mul-le-mul_left}
use proxsync.Prelude.{
  ℕ, zero, suc, ◌+◌, ◌*◌, ◌^◌, ◌≤◌, ◌≡◌, refl, sym, ◌∙◌, min, ◌-◌, leb, inl, inr, Bool-cases, arith,
}
use proxsync.Login.Limiter.{lockout_duration_seconds}

pow_large : (k : ℕ) → 65536 ≤ 2 ^ (k + 16)
pow_large zero = omega arith
pow_large (suc k) =
    let shift : suc k + 16 ≡ suc (k + 16) = omega arith in
    let twice : 2 ^ suc (k + 16) ≡ 2 * 2 ^ (k + 16) = omega arith in
    rw shift (omega (arith, twice, pow_large k))

-- The lockout doubles with every further failure, starting at the base, until it reaches the
-- maximum: the bound on the exponent is never seen, provided that the maximum is at most 65536 times
-- the base.
pub lockout_duration_seconds-doubles :
    (n base maximum : ℕ)
    → maximum ≤ base * 65536
    → lockout_duration_seconds (suc n) base maximum ≡ min (base * 2 ^ n) maximum
unfolding lockout_duration_seconds
lockout_duration_seconds-doubles n base maximum cap = elim (Bool-cases (leb n 16)) [
  | inl small ↦ let n_small : n ≤ 16 = ground arith in rw (min-eq_left n_small) refl
  | inr large ↦
      let n_large : 16 ≤ n = ground arith in
      let split : n ≡ (n - 16) + 16 = omega arith in
      let power : 65536 ≤ 2 ^ n = rw split (pow_large (n - 16)) in
      let cap_n : maximum ≤ base * 2 ^ n = omega (arith, cap, mul-le-mul_left base power) in
      rw (min-eq_right n_large) (min-eq_right cap ∙ sym (min-eq_right cap_n))
]
