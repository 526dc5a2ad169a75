-- ===== src/Retention/Repository/Order/Selection.antt =====
-- Which rows `local_for_guest` and `remote_for_guest` of
-- backend/app/repositories/retention_repository.py select, and the order of `_newest_first`.
use proxsync.Prelude.{
  ℕ, ◌≡◌, ◌≢◌, ◌∙◌, count, refl, Bool, true, false, ◌&&◌, List, [], ◌∷◌, map, filter, All, arith,
  Bool-cases, inl, inr, ◌<◌, ◌≤◌, ◌⊎◌, Option, none, some,
}
use proxsync.Retention.Types.{GuestType, Instant, success, deleted, uploaded}
use proxsync.Retention.Repository.{
  BackupHistory, Database, newest_first, insert_by, order_by, project, of_guest, local_exists,
  remote_exists, local_for_guest, remote_for_guest,
}
use proxsync.Retention.Repository.Order.{All-insert_by}

-- No later row is newer.
abbrev pub IsNewestFirst : List BackupHistory → Type 0
IsNewestFirst [] = Unit
IsNewestFirst (r ∷ rows) = All (λ o. newest_first o r ≡ false) rows × IsNewestFirst rows

newest_first_asym : (a b : BackupHistory) → newest_first a b ≡ true → newest_first b a ≡ false
unfolding newest_first
newest_first_asym a b h = ground arith

newest_first_trans :
    (a b c : BackupHistory)
    → newest_first a b ≡ true
    → newest_first c b ≡ false
    → newest_first c a ≡ false
unfolding newest_first
newest_first_trans a b c h k = ground arith

All-newer :
    (a b : BackupHistory) (rows : List BackupHistory)
    → newest_first a b ≡ true
    → All (λ o. newest_first o b ≡ false) rows
    → All (λ o. newest_first o a ≡ false) rows
All-newer a b [] h k = tt
All-newer a b (o ∷ rows) h k = (newest_first_trans a b o h k.0, All-newer a b rows h k.1)

insert_by-IsNewestFirst :
    (r : BackupHistory) (rows : List BackupHistory)
    → IsNewestFirst rows
    → IsNewestFirst (insert_by newest_first r rows)
unfolding insert_by
insert_by-IsNewestFirst r [] h = (tt, tt)
insert_by-IsNewestFirst r (o ∷ rows) h = elim (Bool-cases (newest_first r o)) [
  | inl t ↦ rw t ((newest_first_asym r o t, All-newer r o rows t h.0), h)
  | inr f ↦ rw f (
    All-insert_by (λ x. newest_first x o ≡ false) newest_first r rows f h.0,
    insert_by-IsNewestFirst r rows h.1,
  )
]

order_by-IsNewestFirst : (rows : List BackupHistory) → IsNewestFirst (order_by newest_first rows)
unfolding order_by
order_by-IsNewestFirst [] = tt
order_by-IsNewestFirst (r ∷ rows) = insert_by-IsNewestFirst r _ (order_by-IsNewestFirst rows)

module _ (p : BackupHistory → Bool) where
  count-insert_by :
      (before : BackupHistory → BackupHistory → Bool) (r : BackupHistory)
      (rows : List BackupHistory)
      → count p (insert_by before r rows) ≡ count p (r ∷ rows)
  unfolding insert_by
  count-insert_by before r [] = refl
  count-insert_by before r (o ∷ rows) = ground (arith, count-insert_by before r rows)

  count-order_by :
      (before : BackupHistory → BackupHistory → Bool) (rows : List BackupHistory)
      → count p (order_by before rows) ≡ count p rows
  unfolding order_by
  count-order_by before [] = refl
  count-order_by before (r ∷ rows) =
      omega (arith, count-insert_by before r (order_by before rows), count-order_by before rows)

  count-filter :
      (q : BackupHistory → Bool) (rows : List BackupHistory)
      → count p (filter q rows) ≡ count (λ r. q r && p r) rows
  count-filter q [] = refl
  count-filter q (r ∷ rows) = ground (arith, count-filter q rows)

-- `older` may stand behind `newer` in a listing: not started later, and of two that started at one
-- instant, or of two undated ones, the one with the smaller id; an undated one behind every dated one.
abbrev pub StandsBehind : (Option Instant × ℕ) → (Option Instant × ℕ) → Type 0
StandsBehind (some s, i) (some t, j) = (s < t) ⊎ ((s ≡ t) × (i ≤ j))
StandsBehind (some s, i) (none, j) = ⊥
StandsBehind (none, i) (some t, j) = Unit
StandsBehind (none, i) (none, j) = i ≤ j

abbrev pub place : BackupHistory → Option Instant × ℕ
place r = (r.started_at, r.id)

abbrev pub IsListedByAge : List BackupHistory → Type 0
IsListedByAge [] = Unit
IsListedByAge (r ∷ rows) = All (λ o. StandsBehind (place o) (place r)) rows × IsListedByAge rows

-- A backup with a local archive that retention may still delete.
abbrev pub HasLocalCopy : ℕ → GuestType → BackupHistory → Type 0
HasLocalCopy vmid guest_type r =
    (r.vmid ≡ vmid)
    × (r.guest_type ≡ guest_type)
    × (r.status ≡ success)
    × (r.local_deleted_at ≡ none)
    × (r.filename ≢ none)

-- A backup with an uploaded archive; it may have been deleted locally.
abbrev pub HasRemoteCopy : ℕ → GuestType → BackupHistory → Type 0
HasRemoteCopy vmid guest_type r =
    (r.vmid ≡ vmid)
    × (r.guest_type ≡ guest_type)
    × ((r.status ≡ success) ⊎ (r.status ≡ deleted))
    × (r.upload_status ≡ uploaded)
    × (r.remote_deleted_at ≡ none)
    × (r.remote_path ≢ none)
    × (r.filename ≢ none)

-- The rows are those of the table that are wanted, each as often as the table holds it, and they
-- stand in the order of their ages.
pub record IsSelection (Wanted : BackupHistory → Type 0) (table rows : List BackupHistory)
    : Type 0 where
  pub wanted : BackupHistory → Bool
  pub meant : (r : BackupHistory) → (wanted r ≡ true → Wanted r) × (Wanted r → wanted r ≡ true)
  pub exact : (p : BackupHistory → Bool) → count p rows ≡ count (λ r. wanted r && p r) table
  pub by_age : IsListedByAge rows

newest_first-StandsBehind :
    (o r : BackupHistory) → newest_first o r ≡ false → StandsBehind (place o) (place r)
unfolding newest_first
newest_first-StandsBehind o r h = ground arith

All-StandsBehind :
    (r : BackupHistory) (rows : List BackupHistory)
    → All (λ o. newest_first o r ≡ false) rows
    → All (λ o. StandsBehind (place o) (place r)) rows
All-StandsBehind r [] h = tt
All-StandsBehind r (o ∷ rows) h = (newest_first-StandsBehind o r h.0, All-StandsBehind r rows h.1)

IsNewestFirst-IsListedByAge : (rows : List BackupHistory) → IsNewestFirst rows → IsListedByAge rows
IsNewestFirst-IsListedByAge [] h = tt
IsNewestFirst-IsListedByAge (r ∷ rows) h =
    (All-StandsBehind r rows h.0, IsNewestFirst-IsListedByAge rows h.1)

local_exists-HasLocalCopy :
    (vmid : ℕ) (guest_type : GuestType) (r : BackupHistory)
    → ((of_guest vmid guest_type r && local_exists r) ≡ true → HasLocalCopy vmid guest_type r)
      × (HasLocalCopy vmid guest_type r → (of_guest vmid guest_type r && local_exists r) ≡ true)
local_exists-HasLocalCopy vmid guest_type r = (λ h. ground arith, λ h. ground arith)

remote_exists-HasRemoteCopy :
    (vmid : ℕ) (guest_type : GuestType) (r : BackupHistory)
    → ((of_guest vmid guest_type r && remote_exists r) ≡ true → HasRemoteCopy vmid guest_type r)
      × (HasRemoteCopy vmid guest_type r → (of_guest vmid guest_type r && remote_exists r) ≡ true)
remote_exists-HasRemoteCopy vmid guest_type r = (λ h. ground arith, λ h. ground arith)

select_newest :
    (Wanted : BackupHistory → Type 0) (test : BackupHistory → Bool) (table : List BackupHistory)
    → ((r : BackupHistory) → (test r ≡ true → Wanted r) × (Wanted r → test r ≡ true))
    → IsSelection Wanted table (order_by newest_first (filter test table))
select_newest Wanted test table meant = record {
  wanted = test;
  meant = meant;
  exact = λ p. count-order_by p newest_first (filter test table) ∙ count-filter p test table;
  by_age = IsNewestFirst-IsListedByAge _ (order_by-IsNewestFirst (filter test table));
}

-- The rows that retention sees of a guest are the projections of exactly the table's rows of that
-- guest with status success, a file name and no local deletion; and, remotely, of those with status
-- success or deleted, an upload that is done, a file name, a remote path and no remote deletion. Both
-- are listed with the later start first, the larger id first at one instant, undated ones last.
pub guest_rows-IsSelection :
    (db : Database) (vmid : ℕ) (guest_type : GuestType)
    → ((rows : List BackupHistory) × (local_for_guest db vmid guest_type ≡ map project rows)
        × IsSelection (HasLocalCopy vmid guest_type) db.history rows)
      × ((rows : List BackupHistory) × (remote_for_guest db vmid guest_type ≡ map project rows)
          × IsSelection (HasRemoteCopy vmid guest_type) db.history rows)
unfolding local_for_guest remote_for_guest
guest_rows-IsSelection db vmid guest_type = (
  (_, refl, select_newest _ _ db.history (local_exists-HasLocalCopy vmid guest_type)),
  (_, refl, select_newest _ _ db.history (remote_exists-HasRemoteCopy vmid guest_type)),
)
