-- ===== src/Retention/Repository/Marks/Losses.antt =====
-- What `mark_local_deleted` and `mark_remote_deleted` do to the whole database.
use proxsync.Prelude.{ℕ, ◌≡◌, ◌≢◌, true, ◌==◌, Option, some, find, is_some, arith, refl}
use proxsync.Retention.Types.{RetentionLocation, local, remote, Instant}
use proxsync.Retention.Repository.{
  BackupHistory, Database, mark_local, mark_remote, mark_local_deleted, mark_remote_deleted,
}
use proxsync.Retention.Repository.Marks.{mark_local_deleted-row, mark_remote_deleted-row}

-- A row before and after its copy at one location went: that copy is marked, and but for the status
-- nothing else of the row has changed.
abbrev pub LosesCopy : RetentionLocation → BackupHistory → BackupHistory → Type 0
LosesCopy local r r' =
    (is_some r'.local_deleted_at ≡ true)
    × (r' ≡ record r { local_deleted_at = r'.local_deleted_at; status = r'.status })
LosesCopy remote r r' =
    (is_some r'.remote_deleted_at ≡ true)
    × (r' ≡ record r { remote_deleted_at = r'.remote_deleted_at; status = r'.status })

abbrev pub row_of : ℕ → Database → Option BackupHistory
row_of id db = find (λ r. r.id == id) db.history

-- One backup's row has lost one copy; every other row and every other table is as before.
pub record Marked (id : ℕ) (location : RetentionLocation) (before after : Database) : Type 0 where
  pub row :
      (r : BackupHistory)
      → row_of id before ≡ some r
      → (r' : BackupHistory) × (row_of id after ≡ some r') × LosesCopy location r r'
  pub others : (other : ℕ) → other ≢ id → row_of other after ≡ row_of other before
  pub rest : after ≡ record before { history = after.history }

mark_local-LosesCopy : (at : Instant) (r : BackupHistory) → LosesCopy local r (mark_local at r)
unfolding mark_local
mark_local-LosesCopy at r = ground arith

mark_remote-LosesCopy : (at : Instant) (r : BackupHistory) → LosesCopy remote r (mark_remote at r)
unfolding mark_remote
mark_remote-LosesCopy at r = ground arith

pub mark_local-Marked :
    (db : Database) (id : ℕ) (at : Instant) → Marked id local db (mark_local_deleted id at db)
unfolding mark_local_deleted
mark_local-Marked db id at = record {
  row = λ r found. (
    mark_local at r,
    ground (arith, (mark_local_deleted-row db id id at).0, found),
    mark_local-LosesCopy at r,
  );
  others = λ other differs. ground (arith, (mark_local_deleted-row db id other at).0);
  rest = refl;
}

pub mark_remote-Marked :
    (db : Database) (id : ℕ) (at : Instant) → Marked id remote db (mark_remote_deleted id at db)
unfolding mark_remote_deleted
mark_remote-Marked db id at = record {
  row = λ r found. (
    mark_remote at r,
    ground (arith, (mark_remote_deleted-row db id id at).0, found),
    mark_remote-LosesCopy at r,
  );
  others = λ other differs. ground (arith, (mark_remote_deleted-row db id other at).0);
  rest = refl;
}
