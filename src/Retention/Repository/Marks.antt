-- ===== src/Retention/Repository/Marks.antt =====
-- The soft-delete markers.
pub mod Losses
use proxsync.Prelude.{
  ℕ, ◌≡◌, Bool, false, not, ◌&&◌, ◌||◌, List, [], ◌∷◌, ◌==◌, find, is_some, arith, if◌then◌else◌,
}
use mathlib.Core.Option
use proxsync.Retention.Types.{success, deleted, Instant}
use proxsync.Retention.Repository.{
  BackupHistory, Database, local_exists, remote_exists, update_row, mark_local, mark_remote,
  mark_local_deleted, mark_remote_deleted,
}

-- The status of a row says what is left of it: success with a usable copy, deleted with none.
abbrev pub copies_left : BackupHistory → Bool
copies_left r =
    not (is_some r.local_deleted_at) && is_some r.filename
    || is_some r.remote_path && not (is_some r.remote_deleted_at)

abbrev pub StatusAgrees : BackupHistory → Type 0
StatusAgrees r = r.status ≡ (if copies_left r then success else deleted)

-- What one marker does to a row whose status agrees with its copies.
pub record MarksLocal (at : Instant) (r : BackupHistory) : Type 0 where
  pub local_gone : local_exists (mark_local at r) ≡ false
  pub remote_kept : remote_exists (mark_local at r) ≡ remote_exists r
  pub agrees : StatusAgrees (mark_local at r)
  pub once : (later : Instant) → mark_local later (mark_local at r) ≡ mark_local at r

pub record MarksRemote (at : Instant) (r : BackupHistory) : Type 0 where
  pub remote_gone : remote_exists (mark_remote at r) ≡ false
  pub local_kept : local_exists (mark_remote at r) ≡ local_exists r
  pub agrees : StatusAgrees (mark_remote at r)
  pub once : (later : Instant) → mark_remote later (mark_remote at r) ≡ mark_remote at r

mark_local_lem : (at : Instant) (r : BackupHistory) → StatusAgrees r → MarksLocal at r
unfolding mark_local
mark_local_lem at r h = record {
  local_gone = ground arith;
  remote_kept = ground arith;
  agrees = ground arith;
  once = λ later. ground arith;
}

mark_remote_lem : (at : Instant) (r : BackupHistory) → StatusAgrees r → MarksRemote at r
unfolding mark_remote
mark_remote_lem at r h = record {
  remote_gone = ground arith;
  local_kept = ground arith;
  agrees = ground arith;
  once = λ later. ground arith;
}

update_row-find :
    (id other : ℕ) (f : BackupHistory → BackupHistory) (rows : List BackupHistory)
    → ((r : BackupHistory) → (f r).id ≡ r.id)
    → find (λ r. r.id == other) (update_row id f rows) ≡ (
        if id == other
        then Option.map f (find (λ r. r.id == other) rows)
        else find (λ r. r.id == other) rows)
unfolding update_row
update_row-find id other f [] keeps = ground arith
update_row-find id other f (r ∷ rows) keeps =
    ground (arith, update_row-find id other f rows keeps, keeps r)

keeps_id :
    (at : Instant) (r : BackupHistory)
    → ((mark_local at r).id ≡ r.id) × ((mark_remote at r).id ≡ r.id)
unfolding mark_local mark_remote
keeps_id at r = (ground arith, ground arith)

-- Marking the local copy of one backup as deleted leaves every other row as it was; the backup's
-- own row, if its status agreed with its copies, then has no local copy, still has the remote copy
-- that it had, has a status that agrees again, and a second mark changes nothing.
pub mark_local_deleted-row :
    (db : Database) (id other : ℕ) (at : Instant)
    → (find (λ r. r.id == other) (mark_local_deleted id at db).history ≡ (
        if id == other
        then Option.map (mark_local at) (find (λ r. r.id == other) db.history)
        else find (λ r. r.id == other) db.history))
      × ((r : BackupHistory) → StatusAgrees r → MarksLocal at r)
unfolding mark_local_deleted
mark_local_deleted-row db id other at = (
  update_row-find id other (mark_local at) db.history (λ r. (keeps_id at r).0),
  mark_local_lem at,
)

-- Marking the remote copy of one backup as deleted leaves every other row as it was; the backup's
-- own row, if its status agreed with its copies, then has no remote copy, still has the local copy
-- that it had, has a status that agrees again, and a second mark changes nothing.
pub mark_remote_deleted-row :
    (db : Database) (id other : ℕ) (at : Instant)
    → (find (λ r. r.id == other) (mark_remote_deleted id at db).history ≡ (
        if id == other
        then Option.map (mark_remote at) (find (λ r. r.id == other) db.history)
        else find (λ r. r.id == other) db.history))
      × ((r : BackupHistory) → StatusAgrees r → MarksRemote at r)
unfolding mark_remote_deleted
mark_remote_deleted-row db id other at = (
  update_row-find id other (mark_remote at) db.history (λ r. (keeps_id at r).1),
  mark_remote_lem at,
)
