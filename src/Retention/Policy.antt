-- ===== src/Retention/Policy.antt =====
-- Which retention counts bind a run: `_resolve_policy` and its helpers in
-- backend/app/services/retention_service.py.
pub mod Sound
use text.Mathlib.Text.{◌==◌ as str_eq}
use proxsync.Prelude.{
  ℕ, String, Bool, true, false, ◌&&◌, Option, none, some, List, [], ◌∷◌, leb, if◌then◌else◌,
}
use proxsync.Prelude.Int.{ℤ, pos, negsuc}
use proxsync.Retention.Types.{
  Value, int, str, Options, RetentionPolicyContext, PolicyResolution, PolicyBlock, RetentionSource,
  job_counts_missing, source_invalid, legacy_job_counts_missing, provenance_unknown,
}

-- `options.get(key)`: `none` is a missing key.
get : String → Options → Option Value
get key [] = none
get key ((k, v) ∷ rest) = if str_eq k key then some v else get key rest

-- `type(v) is int and low <= v <= 365`; a JSON boolean is no `int` here.
bounded_int : ℕ → Option Value → Option ℕ
bounded_int low (some (int (pos n))) = if leb low n && leb n 365 then some n else none
bounded_int low _ = none

both : Option ℕ → Option ℕ → Option (ℕ × ℕ)
both (some a) (some b) = some (a, b)
both _ _ = none

raw_retention_counts : Options → Option (ℕ × ℕ)
unfolding bounded_int both get
raw_retention_counts options =
    both (bounded_int 1 (get "keep_local" options)) (bounded_int 0 (get "keep_remote" options))

-- `v is not None and low <= v <= 365`
bounded_count : ℕ → Option ℤ → Option ℕ
bounded_count low (some (pos n)) = if leb low n && leb n 365 then some n else none
bounded_count low _ = none

linked_job_counts : RetentionPolicyContext → Option (ℕ × ℕ)
unfolding bounded_count both
linked_job_counts context =
    both (bounded_count 1 context.job_keep_local) (bounded_count 0 context.job_keep_remote)

unresolved_policy : ℕ → ℕ → PolicyBlock → RetentionPolicyContext → PolicyResolution
unresolved_policy global_keep_local global_keep_remote reason context = record {
  keep_local = global_keep_local;
  keep_remote = global_keep_remote;
  source = RetentionSource.unresolved;
  resolved = false;
  block_reason = some reason;
  run_id = some context.run_id;
  job_id = context.job_id;
}

resolved_policy : ℕ → ℕ → RetentionSource → RetentionPolicyContext → PolicyResolution
resolved_policy keep_local keep_remote source context = record {
  keep_local = keep_local;
  keep_remote = keep_remote;
  source = source;
  resolved = true;
  block_reason = none;
  run_id = some context.run_id;
  job_id = context.job_id;
}

-- The frozen counts, or the counts given, or a block.
from_counts :
    Option (ℕ × ℕ)
    → RetentionSource
    → PolicyBlock
    → ℕ
    → ℕ
    → RetentionPolicyContext
    → PolicyResolution
unfolding unresolved_policy resolved_policy
from_counts (some (l, r)) source reason gl gr context = resolved_policy l r source context
from_counts none source reason gl gr context = unresolved_policy gl gr reason context

or_counts : Option (ℕ × ℕ) → Option (ℕ × ℕ) → Option (ℕ × ℕ)
or_counts (some c) d = some c
or_counts none d = d

-- No `retention_source` in the options.
resolve_legacy : Option ℕ → Options → ℕ → ℕ → RetentionPolicyContext → PolicyResolution
unfolding from_counts or_counts unresolved_policy
resolve_legacy (some job) raw gl gr context =
    from_counts (or_counts (raw_retention_counts raw) (linked_job_counts context))
      RetentionSource.legacy_job legacy_job_counts_missing gl gr context
resolve_legacy none raw gl gr context = unresolved_policy gl gr provenance_unknown context

resolve_source : Option Value → Options → ℕ → ℕ → RetentionPolicyContext → PolicyResolution
unfolding resolve_legacy from_counts resolved_policy unresolved_policy
resolve_source (some (str s)) raw gl gr context =
    if str_eq s "global"
    then resolved_policy gl gr RetentionSource.global context
    else if str_eq s "job"
    then from_counts (raw_retention_counts raw) RetentionSource.job job_counts_missing gl gr context
    else unresolved_policy gl gr source_invalid context
resolve_source (some _) raw gl gr context = unresolved_policy gl gr source_invalid context
resolve_source none raw gl gr context = resolve_legacy context.job_id raw gl gr context

-- `context.options or {}`
raw_options : Option Options → Options
raw_options none = []
raw_options (some o) = o

unfoldable pub resolve_policy : Option RetentionPolicyContext → ℕ → ℕ → PolicyResolution
unfolding resolve_source raw_options get raw_retention_counts linked_job_counts
resolve_policy none gl gr = record {
  keep_local = gl;
  keep_remote = gr;
  source = RetentionSource.global;
  resolved = true;
  block_reason = none;
  run_id = none;
  job_id = none;
}
resolve_policy (some context) gl gr =
    let raw = raw_options context.options in
    resolve_source (get "retention_source" raw) raw gl gr context
