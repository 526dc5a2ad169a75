-- ===== src/Retention/Service/Sound.antt =====
-- What holds of each plan of a pass that is marked for deletion.
use mathlib.Core.Path.{subst}
use proxsync.Prelude.{
  ℕ, ◌≡◌, refl, Bool, true, false, Option, none, some, List, [], ◌∷◌, ◌++◌, All, Bool-cases, inl,
  inr,
}
use proxsync.Effects.{Result, ok, raised, bind_result}
use proxsync.Retention.Types.{
  GuestType, local, remote, policy_unresolved, PlannedDecision, RetentionPolicySnapshot,
}
use proxsync.Retention.Plans.{local_plans, remote_plans}
use proxsync.Retention.Plans.Removable.{
  IsRemovable, local_plans-IsSound, remote_plans-IsSound, blocked_plans-kept,
}
use proxsync.Retention.Repository.{
  Database, local_for_guest, remote_for_guest, guest_for_backup, guest_keys, has_active_restore,
}
use proxsync.Retention.Service.{
  ServiceError, override, or_key_error, guest_plans, plans_of_guests, plans_of_trigger, plans_of,
  policy_of,
}

-- A plan that deletes rests on a resolved policy and on a removable copy.
pub record IsPermitted (db : Database) (policy : RetentionPolicySnapshot) (plan : PlannedDecision)
    : Type 0 where
  pub resolved : policy.policy_resolved ≡ true
  pub removable : IsRemovable (has_active_restore db) policy plan

abbrev IsJustified : Database → RetentionPolicySnapshot → PlannedDecision → Type 0
IsJustified db policy plan = plan.would_delete ≡ true → IsPermitted db policy plan

All-append :
    (P : PlannedDecision → Type 0) (xs ys : List PlannedDecision)
    → All P xs
    → All P ys
    → All P (xs ++ ys)
All-append P [] ys h k = k
All-append P (x ∷ xs) ys h k = (h.0, All-append P xs ys h.1 k)

All-map :
    (P Q : PlannedDecision → Type 0) (f : (p : PlannedDecision) → P p → Q p)
    (xs : List PlannedDecision)
    → All P xs
    → All Q xs
All-map P Q f [] h = tt
All-map P Q f (x ∷ xs) h = (f x h.0, All-map P Q f xs h.1)

abbrev plans_in : Result ServiceError (List PlannedDecision) → List PlannedDecision
plans_in (ok plans) = plans
plans_in (raised e) = []

-- Two successful lists, one behind the other.
both-All :
    (P : PlannedDecision → Type 0) (a b : Result ServiceError (List PlannedDecision))
    (plans : List PlannedDecision)
    → ((xs : List PlannedDecision) → a ≡ ok xs → All P xs)
    → ((ys : List PlannedDecision) → b ≡ ok ys → All P ys)
    → bind_result a (λ xs. bind_result b (λ ys. ok (xs ++ ys))) ≡ ok plans
    → All P plans
both-All P (raised e) b plans ha hb h = cc
both-All P (ok xs) (raised e) plans ha hb h = cc
both-All P (ok xs) (ok ys) plans ha hb h =
    subst (λ r. All P (plans_in r)) h (All-append P xs ys (ha xs refl) (hb ys refl))

or_key_error-ok :
    (o : Option (List PlannedDecision)) (plans : List PlannedDecision)
    → or_key_error o ≡ ok plans
    → o ≡ some plans
or_key_error-ok none plans h = cc
or_key_error-ok (some p) plans h = cc

module _ (db : Database) (policy : RetentionPolicySnapshot) where
  blocked-IsJustified :
      (plans : List PlannedDecision)
      → All (λ p. p.would_delete ≡ false) plans
      → All (IsJustified db policy) plans
  blocked-IsJustified = All-map (λ p. p.would_delete ≡ false) (IsJustified db policy) (λ p f t. cc)

  guest_plans-IsJustified :
      (guest : ℕ × GuestType) (plans : List PlannedDecision)
      → guest_plans db policy guest ≡ ok plans
      → All (IsJustified db policy) plans
  unfolding guest_plans
  guest_plans-IsJustified (vmid, guest_type) plans h = elim (Bool-cases policy.policy_resolved) [
    | inl yes_resolved ↦
        both-All (IsJustified db policy)
          (or_key_error (
            local_plans (has_active_restore db) (local_for_guest db vmid guest_type)
              policy.keep_local))
          (or_key_error
            (remote_plans (has_active_restore db) (remote_for_guest db vmid guest_type) policy))
          plans
          (λ xs e.
            All-map _ (IsJustified db policy)
              (λ p k t. record { resolved = yes_resolved; removable = k t }) xs
              (local_plans-IsSound (has_active_restore db) policy _ _ xs (or_key_error-ok _ xs e)))
          (λ xs e.
            All-map _ (IsJustified db policy)
              (λ p k t. record { resolved = yes_resolved; removable = k t }) xs
              (remote_plans-IsSound (has_active_restore db) policy _ xs (or_key_error-ok _ xs e)))
          (simp yes_resolved at h)
    | inr blocked ↦
        subst (λ r. All (IsJustified db policy) (plans_in r)) (simp blocked at h)
          (All-append _ _ _
            (blocked-IsJustified _ (
              blocked_plans-kept (local_for_guest db vmid guest_type) local
                (override policy.policy_block_reason policy_unresolved)))
            (blocked-IsJustified _ (
              blocked_plans-kept (remote_for_guest db vmid guest_type) remote
                (override policy.policy_block_reason policy_unresolved))))
  ]

  plans_of_guests-IsJustified :
      (guests : List (ℕ × GuestType)) (plans : List PlannedDecision)
      → plans_of_guests db policy guests ≡ ok plans
      → All (IsJustified db policy) plans
  unfolding plans_of_guests
  plans_of_guests-IsJustified [] plans h =
      subst (λ r. All (IsJustified db policy) (plans_in r)) h tt
  plans_of_guests-IsJustified (g ∷ guests) plans h =
      both-All (IsJustified db policy) (guest_plans db policy g) (plans_of_guests db policy guests)
        plans (guest_plans-IsJustified g) (plans_of_guests-IsJustified guests) h

  trigger-IsJustified :
      (guest : Option (ℕ × GuestType)) (plans : List PlannedDecision)
      → plans_of_trigger db policy guest ≡ ok plans
      → All (IsJustified db policy) plans
  unfolding plans_of_trigger
  trigger-IsJustified none plans h = cc
  trigger-IsJustified (some g) plans h = plans_of_guests-IsJustified (g ∷ []) plans h

  pub plans_of-IsJustified :
      (trigger : Option ℕ) (plans : List PlannedDecision)
      → plans_of db policy trigger ≡ ok plans
      → All (λ p. p.would_delete ≡ true → IsPermitted db policy p) plans
  unfolding plans_of
  plans_of-IsJustified none plans h = plans_of_guests-IsJustified (guest_keys db) plans h
  plans_of-IsJustified (some id) plans h = trigger-IsJustified (guest_for_backup db id) plans h

-- The settings decide on a dry run, unless the caller does.
pub policy_of-dry_run :
    (db : Database) (keep_local keep_remote trigger : Option ℕ) (frozen : Bool)
    → (policy_of db keep_local keep_remote none trigger frozen).dry_run ≡ db.retention.dry_run
unfolding policy_of
policy_of-dry_run db keep_local keep_remote trigger frozen = refl
