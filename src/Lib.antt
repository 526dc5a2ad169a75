-- ===== src/Lib.antt =====
-- ProxSync: backups of Proxmox guests, driven by a dashboard and carried out by an agent on the host.
--
-- The dashboard (backend/app) decides when guests are backed up, uploaded, restored and deleted, keeps
-- the history in a database, and calls the agent (agent/app) over signed requests. After a backup it
-- makes a retention pass: it classifies the copies of each guest, asks the agent to delete what the
-- policy leaves over, marks those rows, and writes an audit row for each decision. Users sign in to the
-- dashboard with a password and hold a family of refresh tokens. A restore is requested, confirmed with
-- a token, and then carried out by a worker that follows the agent's task to its end. Uploads to remote
-- storage wait in a queue of their own, and notifications in an outbox, each with a worker. The dashboard's
-- client of the agent stops calling behind a circuit breaker while the agent is away.
--
-- Files, with the code that each models:
--   Prelude, Effects          shared names, lists over native numbers, exceptions as values.
--   Retention/Types, Policy   the enumerations and rows of backend/app/schemas and the policy
--                             resolution of backend/app/services/retention_service.py
--                             (_resolve_policy, _raw_retention_counts, _linked_job_counts).
--   Retention/Repository      backend/app/repositories/retention_repository.py: the queries of a pass
--                             and the soft-delete markers, on tables that are lists of rows.
--   Retention/Plans           _local_plans, _remote_plans and their helpers.
--   Retention/Service, Apply  _plans, _render, _summarise, preview; apply with _revalidate_candidate,
--                             _delete, _record, commit and _notify_deleted.
--   Retention/Worker          backend/app/workers/retention_worker.py: the triggers it gathers, its retries
--                             and its lane, cut at its awaits; the pass itself is a parameter there.
--   Agent/Auth                agent/app/core/security.py: NonceCache, build_canonical_string,
--                             sign_request, RequestAuthenticator.verify, assert_client_allowed.
--   Agent/Remotes             agent/app/validators/remotes.py.
--   Agent/Tasks               agent/app/tasks/registry.py: the tasks in memory and their journal.
--   Login/Limiter             backend/app/core/rate_limit.py.
--   Login/Tokens, State       backend/app/repositories/refresh_token_repository.py and the user rows.
--   Login/Signin, Sessions    backend/app/services/auth_service.py: login, refresh, logout,
--                             revoke_session, change_password; get_session of backend/app/api/deps.py.
--   Circuit                   backend/app/clients/circuit_breaker.py.
--   Restore/Types, Preflight  the rows and forms of a restore (backend/app/schemas/restore.py and others)
--                             and preflight of backend/app/services/restore_service.py.
--   Restore/Repository        backend/app/repositories/restore_repository.py.
--   Restore/Service           create, confirm, cancel and expire_stale of the restore service.
--   Restore/Steps, Worker     backend/app/workers/restore_worker.py, cut at its awaits: advance runs the
--                             worker to the next one.
--   Restore/System            routes, worker, crashes and restarts (recover) as one step relation.
--   Uploads/Types, Repository backend/app/repositories/sync_task_repository.py and awaiting_upload of
--                             backup_history_repository.py beside it.
--   Uploads/Service           enqueue_upload, enqueue_pending, verify_backup, cancel_task and retry_task of
--                             backend/app/services/sync_service.py.
--   Uploads/Worker            backend/app/workers/sync_worker.py, cut at its awaits as the restore worker.
--   Uploads/System            routes, worker, crashes and restarts (recover) as one step relation, in which
--                             other parts of the dashboard may write the table of backups.
--   Notifications/Types, Repository  backend/app/repositories/notification_repository.py and its rows.
--   Notifications/Service     enqueue, resend and send_test of
--                             backend/app/services/notification_service.py, and emit of its gateway.
--   Notifications/Worker      backend/app/workers/notification_worker.py, cut at its awaits.
--   Notifications/System      callers, operators, worker and restarts as one step relation.
--   Schedules                 translate_day_of_week and build_trigger of backend/app/core/cron.py.
-- Each part has its theorems in child modules named for what they prove, and its tests and concrete
-- instances in Examples.
--
-- Methods that change an object are actions: functions from a state to a result, which may be a raised
-- error, and the state left behind. What the program does not decide is a parameter. In
-- Retention/Apply a World answers the calls of the agent, tells the time and lets other sessions
-- change the database whenever this one has committed. In Agent/Auth a Platform holds Python's hashes,
-- case mapping and float parser, and in Schedules a Python its methods of texts. In Login a World
-- holds password hashing, random values, case folding and primary keys. In Restore a Host is what the
-- agent answers to a preflight, a World the hashes, tokens and keys, and an Input what the worker
-- meets at an await; in Uploads and in Notifications a Settings also holds random.uniform, and a
-- Settings or a Service the keys of new rows and Python's strip.
--
-- Times are natural numbers of seconds; sizes and counts are natural numbers, and a size that a column
-- may hold as negative is an integer that the code cuts off at zero. All loops are structural, so no
-- definition has fuel; the endless loops of the four workers are relations of steps.
--
-- Not modelled: failures of the database itself, and two requests of the dashboard interleaving inside
-- one transaction; the encoding of access tokens and the first administrator; the messages, events and
-- notices of a restore and of an upload, their lists, the comparison of local and remote files, and the
-- forwarding of a cancellation to the agent; the texts, lists and events of notifications; the start, the
-- stop and the direct runs of the retention worker; the backup worker, the firing of schedules, the
-- agent's executors, services and other validators; the user interface and deployment. Web framework
-- wiring, SQLAlchemy, APScheduler and HTTP calls stand behind the parameters above.
pub mod Prelude
pub mod Effects
pub mod Agent
pub mod Circuit
pub mod Login
pub mod Notifications
pub mod Restore
pub mod Retention
pub mod Schedules
pub mod Uploads
