-- ===== src/Retention/Plans/Target.antt =====
-- The remote path that the upload worker stores (backend/app/workers/sync_worker.py) is taken apart
-- again by `_remote_target` of backend/app/services/retention_service.py.
use mathlib.Core.Option
use proxsync.Prelude.{
  ℕ, ◌≤◌, ◌≡◌, refl, ap, ◌∙◌, Bool, true, false, some, List, [], ◌∷◌, ◌++◌, length, any, ◌==◌,
  arith,
}
use proxsync.Prelude.Text.{Text}
use proxsync.Effects.{ok}
use proxsync.Agent.Remotes.{is_colon, validate_remote_name, build_remote_spec}
use proxsync.Agent.Remotes.Safe.{validate_remote_name-IsName}
use proxsync.Retention.Types.{RetentionBackup}
use proxsync.Retention.Plans.{partition_colon, target_of, remote_target_of, remote_target}

partition_colon-append :
    (name path : Text)
    → any is_colon name ≡ false
    → partition_colon (name ++ b':' ∷ path) ≡ (name, true, path)
unfolding partition_colon
partition_colon-append [] path h = refl
partition_colon-append (c ∷ name) path h =
    let rest = partition_colon-append name path (ground arith) in
    let other : (c == b':') ≡ false = ground arith in simp (other, rest) refl

target_of-found :
    (name path : Text) → 1 ≤ length name → target_of (name, true, path) ≡ some (name, path)
unfolding target_of
target_of-found [] path h = absurd (omega arith)
target_of-found (c ∷ name) path h = refl

-- `f"{task.remote_name}:{task.remote_path}"`, what the upload worker writes to the row once an upload
-- has been verified.
unfoldable pub stored_remote_path : Text → Text → Text
stored_remote_path name path = name ++ b':' ∷ path

-- A row that the upload worker has written, with a remote name that passes the agent's check as it
-- stands, is taken apart by retention into that very name and path; so the file that the agent then
-- deletes is the one that it had uploaded.
pub remote_target-stored_remote_path :
    (is_space : ℕ → Bool) (name path filename : Text) (allowed : List Text)
    (backup : RetentionBackup)
    → validate_remote_name is_space name allowed ≡ ok name
    → backup.remote_path ≡ some (stored_remote_path name path)
    → (remote_target backup ≡ some (name, path))
      × (Option.map (λ target. build_remote_spec target.0 target.1 filename) (remote_target backup)
          ≡ some (build_remote_spec name path filename))
unfolding remote_target remote_target_of stored_remote_path
remote_target-stored_remote_path is_space name path filename allowed backup valid stored =
    let is_name = (validate_remote_name-IsName is_space name allowed name valid).0 in
    let found =
      ap remote_target_of stored
      ∙ ap target_of (partition_colon-append name path is_name.no_colon)
      ∙ target_of-found name path is_name.non_empty in
    (found, ap (Option.map (λ target. build_remote_spec target.0 target.1 filename)) found)
