-- ===== src/Retention/Service/Total.antt =====
-- The classifiers do not fail on a real table.
use mathlib.Core.Option
use proxsync.Prelude.{
  ℕ, ◌≡◌, refl, Bool, Option, none, some, List, [], ◌∷◌, ◌++◌, map, Bool-cases, inl, inr,
}
use proxsync.Effects.{Result, ok, raised, bind_result}
use proxsync.Retention.Types.{
  GuestType, local, remote, policy_unresolved, PlannedDecision, RetentionPolicySnapshot,
}
use proxsync.Retention.Plans.{blocked_plans, local_plans, remote_plans}
use proxsync.Retention.Plans.Local.{local_plans-removable}
use proxsync.Retention.Plans.Remote.{remote_plans-removable}
use proxsync.Retention.Repository.{
  Database, local_for_guest, remote_for_guest, guest_for_backup, guest_keys, has_active_restore,
}
use proxsync.Retention.Repository.Order.{
  RowsDistinct, local_for_guest-IdsDistinct, remote_for_guest-IdsDistinct,
}
use proxsync.Retention.Service.{
  ServiceError, override, not_found, or_key_error, guest_plans, plans_of_guests, plans_of_trigger,
  plans_of,
}

-- The computation gives a list.
abbrev Succeeds : Result ServiceError (List PlannedDecision) → Type 0
Succeeds r = (plans : List PlannedDecision) × (r ≡ ok plans)

or_key_error-Succeeds :
    (o : Option (List PlannedDecision)) {flags : List Bool}
    → Option.map (map (λ p. p.would_delete)) o ≡ some flags
    → Succeeds (or_key_error o)
or_key_error-Succeeds none h = cc
or_key_error-Succeeds (some plans) h = (plans, refl)

both-Succeeds :
    (a b : Result ServiceError (List PlannedDecision))
    → Succeeds a
    → Succeeds b
    → Succeeds (bind_result a (λ xs. bind_result b (λ ys. ok (xs ++ ys))))
both-Succeeds a b (xs, p) (ys, q) = (xs ++ ys, rw (p, q))

module _ (db : Database) (policy : RetentionPolicySnapshot) (d : RowsDistinct db.history) where
  guest_plans-Succeeds : (guest : ℕ × GuestType) → Succeeds (guest_plans db policy guest)
  unfolding guest_plans
  guest_plans-Succeeds (vmid, guest_type) = elim (Bool-cases policy.policy_resolved) [
    | inl t ↦ simp t (
        both-Succeeds
          (or_key_error (
            local_plans (has_active_restore db) (local_for_guest db vmid guest_type)
              policy.keep_local))
          (or_key_error
            (remote_plans (has_active_restore db) (remote_for_guest db vmid guest_type) policy))
          (or_key_error-Succeeds _ (
            local_plans-removable (has_active_restore db) _ policy.keep_local
              (local_for_guest-IdsDistinct db vmid guest_type d)))
          (or_key_error-Succeeds _ (
            remote_plans-removable policy (has_active_restore db) _
              (remote_for_guest-IdsDistinct db vmid guest_type d))))
    | inr f ↦
        let reason = override policy.policy_block_reason policy_unresolved in
        (
          blocked_plans (local_for_guest db vmid guest_type) local reason
              ++ blocked_plans (remote_for_guest db vmid guest_type) remote reason,
          simp f,
        )
  ]

  plans_of_guests-Succeeds :
      (guests : List (ℕ × GuestType)) → Succeeds (plans_of_guests db policy guests)
  unfolding plans_of_guests
  plans_of_guests-Succeeds [] = ([], refl)
  plans_of_guests-Succeeds (g ∷ guests) =
      both-Succeeds (guest_plans db policy g) (plans_of_guests db policy guests)
        (guest_plans-Succeeds g) (plans_of_guests-Succeeds guests)

  trigger_fails :
      (guest : Option (ℕ × GuestType)) (e : ServiceError)
      → plans_of_trigger db policy guest ≡ raised e
      → (e ≡ not_found) × (guest ≡ none)
  unfolding plans_of_trigger
  trigger_fails none e h = (cc, refl)
  trigger_fails (some g) e h = let (plans, p) = plans_of_guests-Succeeds (g ∷ []) in cc

  -- In a table with distinct ids planning a pass fails only for a trigger that names no backup, and
  -- then with `NotFound`.
  pub plans_of-fails :
      (trigger : Option ℕ) (e : ServiceError)
      → plans_of db policy trigger ≡ raised e
      → (e ≡ not_found) × ((id : ℕ) × (trigger ≡ some id) × (guest_for_backup db id ≡ none))
  unfolding plans_of
  plans_of-fails none e h = let (plans, p) = plans_of_guests-Succeeds (guest_keys db) in cc
  plans_of-fails (some id) e h =
      let (error, missing) = trigger_fails (guest_for_backup db id) e h in
      (error, (id, refl, missing))
