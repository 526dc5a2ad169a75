-- ===== src/Retention/Apply/Safety.antt =====
-- What reaches the agent, whatever it answers and whatever other sessions do meanwhile.
use mathlib.Core.Path.{subst}
use proxsync.Prelude.{
  ℕ, ◌≡◌, refl, Bool, true, false, not, ◌||◌, Option, none, some, List, [], ◌∷◌, ◌⊎◌, inl, inr,
  find, Member, here, there, All-Member, arith, Bool-cases, is_some, ap, ◌∙◌,
}
use proxsync.Prelude.Text.{Text}
use proxsync.Effects.{Result, ok, raised, bind_result, resume, return, ◌>>◌}
use proxsync.Retention.Types.{
  RetentionLocation, local, remote, RetentionBackup, PlannedDecision, RetentionPolicySnapshot,
  RetentionDecision,
}
use proxsync.Retention.Plans.{remote_target}
use proxsync.Retention.Repository.{Database}
use proxsync.Retention.Service.{ServiceError, policy_of, plans_of}
use proxsync.Retention.Service.Sound.{IsPermitted, plans_of-IsJustified}
use proxsync.Retention.Apply.{
  AgentCall, AgentReply, delete_backup, delete_remote, World, State, is_copy, revalidated,
  revalidate_candidate, call_agent, mark_deleted, settle, delete_at, delete_named, delete,
  settle_candidate, process_candidate, record_decision, commit, keep_copy, remove_copy,
}

abbrev remote_call : Text → Option (Text × Text) → Option AgentCall
remote_call filename none = none
remote_call filename (some (name, path)) = some (delete_remote filename name path)

abbrev expected : Text → RetentionLocation → Option (Text × Text) → Option AgentCall
expected filename local target = some (delete_backup filename)
expected filename remote target = remote_call filename target

abbrev call_at : RetentionBackup → RetentionLocation → Option Text → Option AgentCall
call_at backup location none = none
call_at backup location (some filename) = expected filename location (remote_target backup)

-- The one call that deletes the copy of a plan.
abbrev pub call_of : PlannedDecision → Option AgentCall
call_of plan = call_at plan.backup plan.location plan.backup.filename

-- The policy in force for a trigger.
abbrev pub policy_now : Database → Option ℕ → RetentionPolicySnapshot
policy_now db trigger = policy_of db none none none trigger (is_some trigger)

-- The call is the one that the database as it stands asks for: the plans made from it hold a
-- permitted plan whose copy the call deletes, and the policy is no dry run.
pub record IsDue (trigger : Option ℕ) (db : Database) (call : AgentCall) : Type 0 where
  pub plans : List PlannedDecision
  pub plan : PlannedDecision
  pub planned : plans_of db (policy_now db trigger) trigger ≡ ok plans
  pub found : Member plan plans
  pub asked : call_of plan ≡ some call
  pub real : (policy_now db trigger).dry_run ≡ false
  pub permitted : IsPermitted db (policy_now db trigger) plan

-- From `before` to `after` no call was made, or one.
abbrev Called : (AgentCall → Type 0) → List AgentCall → List AgentCall → Type 0
Called P before after = (after ≡ before) ⊎ ((call : AgentCall) × (after ≡ call ∷ before) × P call)

Called-eq :
    {P : AgentCall → Type 0} {before after end : List AgentCall}
    → end ≡ after
    → Called P before after
    → Called P before end
Called-eq e (inl h) = inl (e ∙ h)
Called-eq e (inr (call, h, p)) = inr (call, e ∙ h, p)

Called-map :
    {P Q : AgentCall → Type 0} {before after : List AgentCall}
    → ((call : AgentCall) → P call → Q call)
    → Called P before after
    → Called Q before after
Called-map f (inl h) = inl h
Called-map f (inr (call, h, p)) = inr (call, h, f call p)

mark_deleted_calls :
    (w : World) (plan : PlannedDecision) (l : RetentionLocation) (s : State)
    → (mark_deleted w plan l s).1.calls ≡ s.calls
unfolding mark_deleted
mark_deleted_calls w plan local s = refl
mark_deleted_calls w plan remote s = refl

settle_calls :
    (w : World) (plan : PlannedDecision) (r : AgentReply) (s : State)
    → (settle w plan r s).1.calls ≡ s.calls
unfolding settle
settle_calls w plan r s = ground (arith, mark_deleted_calls w plan plan.location s)

module _ (w : World) (plan : PlannedDecision) (s : State) where
  called_and_settled :
      (call : AgentCall)
      → (resume (call_agent w call s).0 (settle w plan) (call_agent w call s).1).1.calls
        ≡ call ∷ s.calls
  unfolding call_agent
  called_and_settled call = settle_calls w plan (w.reply (call ∷ s.calls)) _

  delete_at_calls :
      (filename : Text) (l : RetentionLocation) (target : Option (Text × Text))
      → Called
          (λ call. expected filename l target ≡ some call)
          s.calls
          (delete_at w plan filename l target s).1.calls
  unfolding delete_at
  delete_at_calls filename local target =
      inr (delete_backup filename, called_and_settled (delete_backup filename), refl)
  delete_at_calls filename remote none = inl refl
  delete_at_calls filename remote (some (name, path)) = inr (
    delete_remote filename name path,
    called_and_settled (delete_remote filename name path),
    refl,
  )

  delete_named_calls :
      (filename : Option Text)
      → Called
          (λ call. call_at plan.backup plan.location filename ≡ some call)
          s.calls
          (delete_named w plan filename s).1.calls
  unfolding delete_named
  delete_named_calls none = inl refl
  delete_named_calls (some filename) =
      delete_at_calls filename plan.location (remote_target plan.backup)

  delete_calls : Called (λ call. call_of plan ≡ some call) s.calls (delete w plan s).1.calls
  unfolding delete
  delete_calls = delete_named_calls plan.backup.filename

module _ (w : World) (policy : RetentionPolicySnapshot) (current : PlannedDecision) where
  recorded_calls :
      (r : Result ServiceError RetentionDecision) (s : State)
      → (resume r
          (λ item. record_decision current item policy none >> (commit w >> return item))
          s).1.calls
        ≡ s.calls
  unfolding record_decision commit
  recorded_calls (ok item) s = refl
  recorded_calls (raised e) s = refl

  remove_calls :
      (s : State)
      → Called
          (λ call. call_of current ≡ some call)
          s.calls
          (remove_copy w policy current s).1.calls
  unfolding commit
  remove_calls s =
      let s' : State = (commit w s).1 in
      let after = delete w current s' in
      Called-eq (recorded_calls after.0 after.1) (delete_calls w current s')

  keep_calls : (s : State) → (keep_copy w policy current s).1.calls ≡ s.calls
  unfolding record_decision commit
  keep_calls s = refl

  settle_candidate_calls :
      (s : State)
      → Called
          (λ call.
            (call_of current ≡ some call)
            × (policy.dry_run ≡ false)
            × (current.would_delete ≡ true))
          s.calls
          (settle_candidate w (policy, current) s).1.calls
  unfolding settle_candidate
  settle_candidate_calls s = elim (Bool-cases (not current.would_delete || policy.dry_run)) [
    | inl k ↦ inl (simp k (keep_calls s))
    | inr r ↦ simp r (Called-map (λ c e. (e, ground arith, ground arith)) (remove_calls s))
  ]

find-Member :
    (p : PlannedDecision → Bool) (plans : List PlannedDecision) (plan : PlannedDecision)
    → find p plans ≡ some plan
    → Member plan plans
find-Member p [] plan h = cc
find-Member p (x ∷ plans) plan h = elim (Bool-cases (p x)) [
  | inl t ↦
      let e : some x ≡ some plan = rw t at h in
      let same : x ≡ plan = cc in subst (λ y. Member y (x ∷ plans)) same here
  | inr f ↦ there (find-Member p plans plan (rw f at h))
]

-- A revalidated plan that deletes is one of the plans made from the database as it stands.
revalidated_found :
    (original plan : PlannedDecision) (o : Option PlannedDecision)
    → revalidated original o ≡ plan
    → plan.would_delete ≡ true
    → o ≡ some plan
unfolding revalidated
revalidated_found original plan none e h = ground arith
revalidated_found original plan (some current) e h = cc

abbrev pair_in :
    RetentionPolicySnapshot × PlannedDecision
    → Result ServiceError (RetentionPolicySnapshot × PlannedDecision)
    → RetentionPolicySnapshot × PlannedDecision
pair_in d (ok p) = p
pair_in d (raised e) = d

module _ (trigger : Option ℕ) (original : PlannedDecision) (db : Database) where
  -- What a successful revalidation is made of.
  revalidate_parts :
      (r : Result ServiceError (List PlannedDecision)) (policy : RetentionPolicySnapshot)
      (current : PlannedDecision)
      → bind_result {B = RetentionPolicySnapshot × PlannedDecision} r (λ plans. ok (
        policy_now db trigger,
        revalidated original (find (is_copy original.backup.id original.location) plans),
      ))
        ≡ ok (policy, current)
      → (plans : List PlannedDecision) × (r ≡ ok plans)
        × (policy_now db trigger ≡ policy)
        × (revalidated original (find (is_copy original.backup.id original.location) plans)
            ≡ current)
  revalidate_parts (raised e) policy current h = cc
  revalidate_parts (ok plans) policy current h = (
    plans,
    refl,
    ap (λ r. (pair_in (policy, current) r).0) h,
    ap (λ r. (pair_in (policy, current) r).1) h,
  )

  due :
      (policy : RetentionPolicySnapshot) (current : PlannedDecision) (call : AgentCall)
      → revalidate_candidate trigger original db ≡ ok (policy, current)
      → call_of current ≡ some call
      → policy.dry_run ≡ false
      → current.would_delete ≡ true
      → IsDue trigger db call
  unfolding revalidate_candidate
  due policy current call h asked real would =
      let (plans, planned, same, chosen) =
        revalidate_parts (plans_of db (policy_now db trigger) trigger) policy current h in
      let found : Member current plans =
        find-Member (is_copy original.backup.id original.location) plans current
          (revalidated_found original current _ chosen would) in
      record {
        plans = plans;
        plan = current;
        planned = planned;
        found = found;
        asked = asked;
        real = ap (λ p. p.dry_run) same ∙ real;
        permitted =
            All-Member (λ p. p.would_delete ≡ true → IsPermitted db (policy_now db trigger) p)
              (plans_of-IsJustified db (policy_now db trigger) trigger plans planned) found would;
      }

  candidate_calls :
      (w : World) (s : State) (r : Result ServiceError (RetentionPolicySnapshot × PlannedDecision))
      → revalidate_candidate trigger original db ≡ r
      → Called (IsDue trigger db) s.calls (resume r (settle_candidate w) s).1.calls
  candidate_calls w s (raised e) h = inl refl
  candidate_calls w s (ok (policy, current)) h =
      Called-map (λ call k. due policy current call h k.0 k.1 k.2)
        (settle_candidate_calls w policy current s)

-- For each candidate of a pass, whatever the agent answers and whatever other sessions do, either no
-- call reaches the agent, or exactly one does, and it deletes the copy of a plan made from the
-- database as read just before: one under a resolved policy that is no dry run, of an unlocked,
-- dated copy that no restore holds, and, if it is local, with nothing left to upload.
pub process_candidate-safe :
    (w : World) (trigger : Option ℕ) (original : PlannedDecision) (s : State)
    → ((process_candidate w trigger original s).1.calls ≡ s.calls)
      ⊎ ((call : AgentCall) × ((process_candidate w trigger original s).1.calls ≡ call ∷ s.calls)
          × IsDue trigger s.db call)
unfolding process_candidate
process_candidate-safe w trigger original s = candidate_calls trigger original s.db w s _ refl
