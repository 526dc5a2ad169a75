-- ===== src/Retention/Apply.antt =====
-- `RetentionService.apply` of backend/app/services/retention_service.py. One state holds the
-- database, the calls that reached the agent and the notifications sent. What the program does not
-- decide is a `World`: what the agent answers, the clock, and what other sessions do to the database
-- whenever this session closes its transaction. Failures of the database itself are not modelled.
pub mod Safety
pub mod Audit
pub mod Outcome
use proxsync.Prelude.{
  ℕ, suc, ◌-◌, ◌+◌, Bool, true, false, not, ◌&&◌, ◌||◌, Option, none, some, List, [], ◌∷◌, ◌++◌,
  ◌==◌, ltb, String, filter, find, count, length, sum_of, take, is_some, if◌then◌else◌,
}
use proxsync.Prelude.Int.{ℤ, pos_part}
use proxsync.Prelude.Text.{Text}
use proxsync.Effects.{
  Result, ok, raised, Action, return, raise, lift, reads, resume, bind_result, ◌>>=◌, ◌>>◌,
}
use proxsync.Retention.Types.{
  GuestType, RetentionAction, deleted_local, skipped, failed, RetentionLocation, local, remote,
  Reason, candidate_copy_no_longer_present, reconciled_missing, delete_failed, PolicyBlock,
  policy_unresolved, Instant, RetentionBackup, RetentionSource, PlannedDecision, PolicyResolution,
  RetentionPolicySnapshot, RetentionDecision, RetentionSummary,
}
use proxsync.Retention.Service.{
  ServiceError, assertion_error, index_error, RetentionResponse, policy_of, plans_of, render,
  render_failed, summarise, override,
}
use proxsync.Retention.Policy.{resolve_policy}
use proxsync.Retention.Plans.{blocked_plans, local_plans, remote_plans, remote_target}
use proxsync.Retention.Repository.{
  Database, RetentionEvent, local_for_guest, remote_for_guest, guest_for_backup, guest_keys,
  has_active_restore, retention_policy_context, mark_local_deleted, mark_remote_deleted,
  record_event,
}

pub data AgentCall : Type 0 where
  delete_backup : Text → AgentCall
  delete_remote : Text → Text → Text → AgentCall

-- What a call comes back with: the freed bytes (a remote deletion's answer is not read), an
-- `AgentError` with its status and detail, or any other exception with its detail.
pub data AgentReply : Type 0 where
  freed : ℤ → AgentReply
  agent_error : Option ℕ → Text → AgentReply
  crashed : Text → AgentReply

pub record Notice : Type 0 where
  pub vmid : ℕ
  pub guest_type : GuestType
  pub guest_name : String
  pub deleted_local : ℕ
  pub deleted_remote : ℕ
  pub freed_bytes : ℕ
  pub keep_local : ℕ
  pub keep_remote : ℕ

pub record World : Type 0 where
  -- the answer to the newest call, given all calls so far, newest first
  pub reply : List AgentCall → AgentReply
  -- what other sessions do between the n-th commit and the next read
  pub interfere : ℕ → Database → Database
  pub now : ℕ → Instant
  -- whether the service was given a notification sink
  pub notifications : Bool

pub record State : Type 0 where
  pub db : Database
  pub calls : List AgentCall
  pub commits : ℕ
  pub notices : List Notice

abbrev pub Service : Type 0 → Type 0
Service A = Action ServiceError State A

abbrev effective_keep : RetentionLocation → RetentionPolicySnapshot → ℕ
effective_keep local policy = policy.keep_local
effective_keep remote policy = policy.keep_remote

abbrev event_of :
    PlannedDecision → RetentionDecision → RetentionPolicySnapshot → Option ℕ → RetentionEvent
unfolding override
event_of plan item policy projected = record {
  backup_id = plan.backup.id;
  vmid = plan.backup.vmid;
  guest_type = plan.backup.guest_type;
  action = item.action;
  reason = item.reason;
  policy_snapshot = policy;
  location = plan.location;
  effective_keep = effective_keep plan.location policy;
  freed_bytes = override projected item.freed_bytes;
  dry_run = policy.dry_run;
}

-- `_record`
pub record_decision :
    PlannedDecision → RetentionDecision → RetentionPolicySnapshot → Option ℕ → Service Unit
unfolding event_of record_event
record_decision plan item policy projected s =
    (ok tt, record s { db = record_event (event_of plan item policy projected) s.db })

-- `commit`: from here until the next read other sessions may write.
pub commit : World → Service Unit
commit w s = (ok tt, record s { db = w.interfere s.commits s.db; commits = suc s.commits })

abbrev same_location : RetentionLocation → RetentionLocation → Bool
same_location local local = true
same_location remote remote = true
same_location _ _ = false

abbrev pub is_copy : ℕ → RetentionLocation → PlannedDecision → Bool
is_copy id location plan = plan.backup.id == id && same_location plan.location location

-- The plan of a copy that is gone.
abbrev gone : PlannedDecision → PlannedDecision
gone original = record original {
  action = skipped;
  reason = candidate_copy_no_longer_present;
  would_delete = false;
}

pub revalidated : PlannedDecision → Option PlannedDecision → PlannedDecision
revalidated original (some current) = current
revalidated original none = gone original

-- `_revalidate_candidate`: the policy and the plan of a candidate, decided anew.
pub revalidate_candidate :
    Option ℕ
    → PlannedDecision
    → Database
    → Result ServiceError (RetentionPolicySnapshot × PlannedDecision)
unfolding revalidated
revalidate_candidate trigger original db =
    let policy = policy_of db none none none trigger (is_some trigger) in
    bind_result (plans_of db policy trigger) λ plans.
      ok (policy, revalidated original (find (is_copy original.backup.id original.location) plans))

-- A call of the agent: it is counted before its answer is read.
call_agent : World → AgentCall → Service AgentReply
call_agent w call s = (ok (w.reply (call ∷ s.calls)), record s { calls = call ∷ s.calls })

mark_deleted : World → PlannedDecision → RetentionLocation → Service Unit
mark_deleted w plan local s =
    (ok tt, record s { db = mark_local_deleted plan.backup.id (w.now s.commits) s.db })
mark_deleted w plan remote s =
    (ok tt, record s { db = mark_remote_deleted plan.backup.id (w.now s.commits) s.db })

deleted_item : PlannedDecision → ℕ → RetentionDecision
unfolding render
deleted_item plan freed_bytes = record (render plan) { deleted = true; freed_bytes = freed_bytes }

-- A copy that the agent does not have is marked as deleted all the same.
reconciled_item : PlannedDecision → RetentionDecision
unfolding render
reconciled_item plan = record (render plan) {
  reason = reconciled_missing plan.location;
  deleted = true;
  reconciled = true;
}

abbrev freed_by : PlannedDecision → RetentionLocation → ℤ → ℕ
freed_by plan local bytes = pos_part bytes
freed_by plan remote bytes = plan.size_bytes

abbrev is_missing : Option ℕ → Bool
is_missing none = false
is_missing (some status) = status == 404

settle : World → PlannedDecision → AgentReply → Service RetentionDecision
unfolding mark_deleted deleted_item reconciled_item
settle w plan (freed bytes) = do
  mark_deleted w plan plan.location
  return (deleted_item plan (freed_by plan plan.location bytes))
settle w plan (agent_error status detail) =
    if is_missing status
    then (do mark_deleted w plan plan.location; return (reconciled_item plan))
    else return (render_failed plan detail)
settle w plan (crashed detail) = return (render_failed plan detail)

delete_at :
    World
    → PlannedDecision
    → Text
    → RetentionLocation
    → Option (Text × Text)
    → Service RetentionDecision
unfolding call_agent settle
delete_at w plan filename local target = do
  reply ← call_agent w (delete_backup filename)
  settle w plan reply
delete_at w plan filename remote none = return (render_failed plan [])
delete_at w plan filename remote (some (name, path)) = do
  reply ← call_agent w (delete_remote filename name path)
  settle w plan reply

delete_named : World → PlannedDecision → Option Text → Service RetentionDecision
unfolding delete_at
delete_named w plan none = raise assertion_error
delete_named w plan (some filename) =
    delete_at w plan filename plan.location (remote_target plan.backup)

-- `_delete`; the inner assertion is caught by the handler of `Exception`, the outer one is not.
unfoldable pub delete : World → PlannedDecision → Service RetentionDecision
unfolding delete_named
delete w plan = delete_named w plan plan.backup.filename

-- Keyed by backup and location, the newest entry first.
abbrev pub Completed : Type 0
Completed = List (ℕ × RetentionLocation × RetentionDecision)

abbrev key_is : ℕ → RetentionLocation → ℕ × RetentionLocation × RetentionDecision → Bool
key_is id location (i, l, item) = i == id && same_location l location

abbrev entry : PlannedDecision → RetentionDecision → ℕ × RetentionLocation × RetentionDecision
entry plan item = (plan.backup.id, plan.location, item)

abbrev pub projected_of : RetentionPolicySnapshot → PlannedDecision → Option ℕ
projected_of policy plan =
    if plan.would_delete && policy.dry_run then some plan.size_bytes else none

abbrev static_item :
    PlannedDecision
    → Service (Completed × List PlannedDecision)
    → Service (Completed × List PlannedDecision)
static_item plan pass = do rest ← pass; return (rest.0 ++ entry plan (render plan) ∷ [], rest.1)

abbrev collect :
    PlannedDecision
    → Service (Completed × List PlannedDecision)
    → Service (Completed × List PlannedDecision)
collect plan pass = do rest ← pass; return (rest.0, plan ∷ rest.1)

-- The first loop of `apply`: what is not deleted is recorded at once, the rest is collected.
pub static_pass :
    RetentionPolicySnapshot → List PlannedDecision → Service (Completed × List PlannedDecision)
unfolding record_decision
static_pass policy [] = return ([], [])
static_pass policy (plan ∷ plans) =
    let pass = static_pass policy plans in
    if not plan.would_delete || policy.dry_run
    then record_decision plan (render plan) policy (projected_of policy plan)
      >> static_item plan pass
    else collect plan pass

abbrev keep_copy : World → RetentionPolicySnapshot → PlannedDecision → Service RetentionDecision
keep_copy w policy current = do
  record_decision current (render current) policy (projected_of policy current)
  commit w
  return (render current)

abbrev remove_copy : World → RetentionPolicySnapshot → PlannedDecision → Service RetentionDecision
remove_copy w policy current = do
  commit w
  item ← delete w current
  record_decision current item policy none
  commit w
  return item

-- The rest of the second loop's body: the candidate is still removable, or it is not.
pub settle_candidate : World → RetentionPolicySnapshot × PlannedDecision → Service RetentionDecision
unfolding record_decision commit
settle_candidate w (policy, current) =
    if not current.would_delete || policy.dry_run
    then keep_copy w policy current
    else remove_copy w policy current

-- The body of the second loop.
pub process_candidate : World → Option ℕ → PlannedDecision → Service RetentionDecision
process_candidate w trigger original s =
    resume (revalidate_candidate trigger original s.db) (settle_candidate w) s

pub process_candidates : World → Option ℕ → List PlannedDecision → Service Completed
process_candidates w trigger [] = return []
process_candidates w trigger (original ∷ rest) = do
  item ← process_candidate w trigger original
  later ← process_candidates w trigger rest
  return (later ++ entry original item ∷ [])

find_item : ℕ → RetentionLocation → Completed → Option RetentionDecision
find_item id location [] = none
find_item id location ((i, l, item) ∷ rest) =
    if i == id && same_location l location then some item else find_item id location rest

cons_item : Option RetentionDecision → List RetentionDecision → List RetentionDecision
cons_item none items = items
cons_item (some item) items = item ∷ items

-- The decisions in the order of the plans; a plan with none is left out.
items_of : Completed → List PlannedDecision → List RetentionDecision
unfolding find_item cons_item
items_of completed [] = []
items_of completed (plan ∷ plans) =
    cons_item (find_item plan.backup.id plan.location completed) (items_of completed plans)

notice_of : RetentionResponse → RetentionDecision → List RetentionDecision → Notice
notice_of response first deleted = record {
  vmid = first.vmid;
  guest_type = first.guest_type;
  guest_name = first.guest_name;
  deleted_local = response.summary.deleted_local;
  deleted_remote = response.summary.deleted_remote;
  freed_bytes = sum_of (λ i. i.freed_bytes) deleted;
  keep_local = response.policy.keep_local;
  keep_remote = response.policy.keep_remote;
}

notify_first : RetentionResponse → List RetentionDecision → Service Unit
unfolding notice_of
notify_first response [] s = raise index_error s
notify_first response (first ∷ rest) s =
    (ok tt, record s { notices = s.notices ++ notice_of response first (first ∷ rest) ∷ [] })

-- `_notify_deleted`; whether the notification service then suppresses it is its own matter.
pub notify_deleted : World → RetentionResponse → Service Unit
unfolding notify_first
notify_deleted w response =
    let summary = response.summary in
    if w.notifications && (ltb 0 summary.deleted_local || ltb 0 summary.deleted_remote)
    then notify_first response (filter (λ i. i.deleted) response.items)
    else return tt

pub respond : RetentionPolicySnapshot → List RetentionDecision → RetentionResponse
respond policy items = record { policy = policy; items = items; summary = summarise items }

-- `apply`
pub apply : World → Option ℕ → Service RetentionResponse
unfolding items_of
apply w trigger s =
    let policy = policy_of s.db none none none trigger (is_some trigger) in
    (do
      plans ← lift (plans_of s.db policy trigger)
      first ← static_pass policy plans
      commit w
      later ← process_candidates w trigger first.1
      let response = respond policy (items_of (later ++ first.0) plans)
      notify_deleted w response
      return response)
      s
