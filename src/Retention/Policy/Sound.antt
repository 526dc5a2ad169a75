-- ===== src/Retention/Policy/Sound.antt =====
-- What a resolved policy may rest on.
use text.Mathlib.Text.{◌==◌ as str_eq}
use proxsync.Prelude.{ℕ, ◌≢◌, ◌≤◌, ◌≡◌, refl, Bool-cases, Option, none, some, inl, inr, arith}
use proxsync.Prelude.Int.{ℤ, pos}
use proxsync.Retention.Types.{
  Value, null, bool, other, int, str, legacy_job_counts_missing, job_counts_missing, Options,
  RetentionPolicyContext, PolicyResolution, PolicyBlock, RetentionSource,
}
use proxsync.Retention.Policy.{
  get, bounded_int, bounded_count, both, raw_retention_counts, linked_job_counts, from_counts,
  or_counts, resolve_legacy, resolve_source, raw_options, resolve_policy,
}

-- Counts that a retention form accepts.
abbrev pub InRange : ℕ → ℕ → Type 0
InRange l r = (1 ≤ l) × (l ≤ 365) × (r ≤ 365)

abbrev CountsInRange : Option (ℕ × ℕ) → Type 0
CountsInRange none = Unit
CountsInRange (some (l, r)) = InRange l r

bounded_int_range :
    (low : ℕ) (v : Option Value) (n : ℕ) → bounded_int low v ≡ some n → (low ≤ n) × (n ≤ 365)
unfolding bounded_int
bounded_int_range low (some (int (pos k))) n h = ground arith
bounded_int_range low v n h = ground arith

bounded_count_range :
    (low : ℕ) (v : Option ℤ) (n : ℕ) → bounded_count low v ≡ some n → (low ≤ n) × (n ≤ 365)
unfolding bounded_count
bounded_count_range low v n h = ground arith

both_range :
    (a b : Option ℕ)
    → ((n : ℕ) → a ≡ some n → (1 ≤ n) × (n ≤ 365))
    → ((n : ℕ) → b ≡ some n → (0 ≤ n) × (n ≤ 365))
    → CountsInRange (both a b)
unfolding both
both_range none b ha hb = tt
both_range (some a) none ha hb = tt
both_range (some a) (some b) ha hb = ((ha a refl).0, (ha a refl).1, (hb b refl).1)

raw_counts_range : (options : Options) → CountsInRange (raw_retention_counts options)
unfolding raw_retention_counts
raw_counts_range options =
    both_range (bounded_int 1 (get "keep_local" options))
      (bounded_int 0 (get "keep_remote" options)) (bounded_int_range 1 (get "keep_local" options))
      (bounded_int_range 0 (get "keep_remote" options))

linked_counts_range : (c : RetentionPolicyContext) → CountsInRange (linked_job_counts c)
unfolding linked_job_counts
linked_counts_range c =
    both_range (bounded_count 1 c.job_keep_local) (bounded_count 0 c.job_keep_remote)
      (bounded_count_range 1 c.job_keep_local) (bounded_count_range 0 c.job_keep_remote)

or_counts_range :
    (c d : Option (ℕ × ℕ)) → CountsInRange c → CountsInRange d → CountsInRange (or_counts c d)
unfolding or_counts
or_counts_range (some c) d hc hd = hc
or_counts_range none d hc hd = hd

abbrev KeepsRange : PolicyResolution → Type 0
KeepsRange p = InRange p.keep_local p.keep_remote

module _ (gl gr : ℕ) (global : InRange gl gr) where
  from_counts_range :
      (counts : Option (ℕ × ℕ)) (source : RetentionSource) (reason : PolicyBlock)
      (c : RetentionPolicyContext)
      → CountsInRange counts
      → KeepsRange (from_counts counts source reason gl gr c)
  unfolding from_counts
  from_counts_range none source reason c h = global
  from_counts_range (some (l, r)) source reason c h = h

  legacy_range :
      (job : Option ℕ) (raw : Options) (c : RetentionPolicyContext)
      → KeepsRange (resolve_legacy job raw gl gr c)
  unfolding resolve_legacy
  legacy_range none raw c = global
  legacy_range (some j) raw c =
      from_counts_range (or_counts (raw_retention_counts raw) (linked_job_counts c)) _ _ c
        (or_counts_range _ _ (raw_counts_range raw) (linked_counts_range c))

  source_range :
      (v : Option Value) (raw : Options) (c : RetentionPolicyContext)
      → KeepsRange (resolve_source v raw gl gr c)
  unfolding resolve_source
  source_range none raw c = legacy_range c.job_id raw c
  source_range (some (str s)) raw c = elim (Bool-cases (str_eq s "global")) [
    | inl g ↦ rw g global
    | inr g ↦ rw g (elim (Bool-cases (str_eq s "job")) [
      | inl j ↦ rw j (from_counts_range _ _ _ c (raw_counts_range raw))
      | inr j ↦ rw j global
    ])
  ]
  source_range (some _) raw c = global

  -- Whatever a run's stored options and its job hold, the counts that bind it lie in the range of
  -- the settings form, 1 to 365 local and at most 365 remote copies, if the global ones do.
  pub resolve_policy-InRange :
      (context : Option RetentionPolicyContext)
      → InRange (resolve_policy context gl gr).keep_local (resolve_policy context gl gr).keep_remote
  unfolding resolve_policy
  resolve_policy-InRange none = global
  resolve_policy-InRange (some c) =
      source_range (get "retention_source" (raw_options c.options)) _ c

module _ (gl gr gl' gr' : ℕ) where
  from_counts_frozen :
      (counts : Option (ℕ × ℕ)) (source : RetentionSource) (reason : PolicyBlock)
      (c : RetentionPolicyContext)
      → (from_counts counts source reason gl gr c).source ≢ RetentionSource.unresolved
      → from_counts counts source reason gl gr c ≡ from_counts counts source reason gl' gr' c
  unfolding from_counts
  from_counts_frozen none source reason c h = absurd (h refl)
  from_counts_frozen (some p) source reason c h = refl

  legacy_frozen :
      (job : Option ℕ) (raw : Options) (c : RetentionPolicyContext)
      → (resolve_legacy job raw gl gr c).source ≢ RetentionSource.unresolved
      → resolve_legacy job raw gl gr c ≡ resolve_legacy job raw gl' gr' c
  unfolding resolve_legacy
  legacy_frozen none raw c h = absurd (h refl)
  legacy_frozen (some j) raw c h =
      from_counts_frozen (or_counts (raw_retention_counts raw) (linked_job_counts c))
        RetentionSource.legacy_job legacy_job_counts_missing c h

  source_frozen :
      (v : Option Value) (raw : Options) (c : RetentionPolicyContext)
      → (resolve_source v raw gl gr c).source ≢ RetentionSource.unresolved
      → (resolve_source v raw gl gr c).source ≢ RetentionSource.global
      → resolve_source v raw gl gr c ≡ resolve_source v raw gl' gr' c
  unfolding resolve_source
  source_frozen none raw c h g = legacy_frozen c.job_id raw c h
  source_frozen (some (str s)) raw c h g = elim (Bool-cases (str_eq s "global")) [
    | inl e ↦ absurd (g (rw e))
    | inr e ↦ elim (Bool-cases (str_eq s "job")) [
      | inl j ↦
          rw (e, j)
            (from_counts_frozen (raw_retention_counts raw) RetentionSource.job job_counts_missing c
              (rw (e, j) at h))
      | inr j ↦ absurd (h (rw (e, j)))
    ]
  ]
  source_frozen (some null) raw c h g = absurd (h refl)
  source_frozen (some (bool b)) raw c h g = absurd (h refl)
  source_frozen (some (int i)) raw c h g = absurd (h refl)
  source_frozen (some other) raw c h g = absurd (h refl)

  -- A policy that came from the run or from its job, and not from the global settings, is the same
  -- policy under any other global settings.
  pub resolve_policy-frozen :
      (context : Option RetentionPolicyContext)
      → (resolve_policy context gl gr).source ≢ RetentionSource.unresolved
      → (resolve_policy context gl gr).source ≢ RetentionSource.global
      → resolve_policy context gl gr ≡ resolve_policy context gl' gr'
  unfolding resolve_policy
  resolve_policy-frozen none h g = absurd (g refl)
  resolve_policy-frozen (some c) h g =
      source_frozen (get "retention_source" (raw_options c.options)) _ c h g
