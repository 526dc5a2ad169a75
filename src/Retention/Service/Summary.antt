-- ===== src/Retention/Service/Summary.antt =====
-- The summary of a pass.
use proxsync.Prelude.{
  ◌+◌, ◌≤◌, ◌≡◌, refl, Bool, List, [], ◌∷◌, length, count, length-filter, not, ◌&&◌, arith,
}
use proxsync.Retention.Types.{RetentionDecision}
use proxsync.Retention.Service.{is_local, is_failed, summarise}

-- The counts of a summary fit together: each candidate and each deletion is counted at exactly one
-- location, and no count passes the number of decisions.
pub record IsConsistent (items : List RetentionDecision) : Type 0 where
  pub candidates :
      (summarise items).local_delete_count + (summarise items).remote_delete_count
      ≡ count (λ i. i.would_delete) items
  pub deletions :
      (summarise items).deleted_local + (summarise items).deleted_remote
      ≡ count (λ i. i.deleted) items
  pub within : count (λ i. i.deleted) items ≤ (summarise items).evaluated
  pub failures : (summarise items).failed ≤ (summarise items).evaluated

split_count :
    (p : RetentionDecision → Bool) (items : List RetentionDecision)
    → count (λ i. is_local i.location && p i) items
        + count (λ i. not (is_local i.location) && p i) items
      ≡ count p items
split_count p [] = refl
split_count p (i ∷ items) = ground (arith, split_count p items)

split_deleted :
    (items : List RetentionDecision)
    → count (λ i. i.deleted && is_local i.location) items
        + count (λ i. i.deleted && not (is_local i.location)) items
      ≡ count (λ i. i.deleted) items
split_deleted [] = refl
split_deleted (i ∷ items) = ground (arith, split_deleted items)

count-le-length :
    (p : RetentionDecision → Bool) (items : List RetentionDecision) → count p items ≤ length items
count-le-length p [] = omega arith
count-le-length p (i ∷ items) = ground (arith, count-le-length p items)

-- Whatever the decisions of a pass, the counts of its summary fit together.
pub summarise-IsConsistent : (items : List RetentionDecision) → IsConsistent items
unfolding summarise
summarise-IsConsistent items = record {
  candidates = omega (
    arith,
    length-filter (λ i. is_local i.location && i.would_delete) items,
    length-filter (λ i. not (is_local i.location) && i.would_delete) items,
    split_count (λ i. i.would_delete) items,
  );
  deletions = split_deleted items;
  within = count-le-length (λ i. i.deleted) items;
  failures = count-le-length (λ i. is_failed i.action) items;
}
