-- ===== src/Retention/Repository/Order.antt =====
-- The rows that the classifiers are given: their ids stay distinct.
pub mod Selection
use proxsync.Prelude.{
  ℕ, ◌≡◌, ◌≢◌, ◌∙◌, count, refl, sym, Bool, true, false, ◌&&◌, List, [], ◌∷◌, map, filter, All,
  arith, Bool-cases, inl, inr,
}
use proxsync.Retention.Types.{GuestType}
use proxsync.Retention.Plans.Rank.{IdsDistinct}
use proxsync.Retention.Repository.{
  BackupHistory, Database, newest_first, insert_by, order_by, project, of_guest, local_exists,
  remote_exists, local_for_guest, remote_for_guest,
}

module _ (P : BackupHistory → Type 0) where
  All-filter :
      (p : BackupHistory → Bool) (rows : List BackupHistory) → All P rows → All P (filter p rows)
  All-filter p [] h = tt
  All-filter p (r ∷ rows) h = elim (Bool-cases (p r)) [
    | inl t ↦ rw t (h.0, All-filter p rows h.1)
    | inr f ↦ rw f (All-filter p rows h.1)
  ]

  All-insert_by :
      (before : BackupHistory → BackupHistory → Bool) (r : BackupHistory)
      (rows : List BackupHistory)
      → P r
      → All P rows
      → All P (insert_by before r rows)
  unfolding insert_by
  All-insert_by before r [] h k = (h, tt)
  All-insert_by before r (o ∷ rows) h k = elim (Bool-cases (before r o)) [
    | inl t ↦ rw t (h, k)
    | inr f ↦ rw f (k.0, All-insert_by before r rows h k.1)
  ]

  All-order_by :
      (before : BackupHistory → BackupHistory → Bool) (rows : List BackupHistory)
      → All P rows
      → All P (order_by before rows)
  unfolding order_by
  All-order_by before [] h = tt
  All-order_by before (r ∷ rows) h = All-insert_by before r _ h.0 (All-order_by before rows h.1)

-- The primary key of the table.
abbrev pub RowsDistinct : List BackupHistory → Type 0
RowsDistinct [] = Unit
RowsDistinct (r ∷ rows) = All (λ o. o.id ≢ r.id) rows × RowsDistinct rows

filter-RowsDistinct :
    (p : BackupHistory → Bool) (rows : List BackupHistory)
    → RowsDistinct rows
    → RowsDistinct (filter p rows)
filter-RowsDistinct p [] h = tt
filter-RowsDistinct p (r ∷ rows) h = elim (Bool-cases (p r)) [
  | inl t ↦ rw t (All-filter (λ o. o.id ≢ r.id) p rows h.0, filter-RowsDistinct p rows h.1)
  | inr f ↦ rw f (filter-RowsDistinct p rows h.1)
]

module _ (before : BackupHistory → BackupHistory → Bool) where
  insert_by-RowsDistinct :
      (r : BackupHistory) (rows : List BackupHistory)
      → All (λ o. o.id ≢ r.id) rows
      → RowsDistinct rows
      → RowsDistinct (insert_by before r rows)
  unfolding insert_by
  insert_by-RowsDistinct r [] h k = (tt, tt)
  insert_by-RowsDistinct r (o ∷ rows) h k = elim (Bool-cases (before r o)) [
    | inl t ↦ rw t (h, k)
    | inr f ↦ rw f (
      All-insert_by (λ x. x.id ≢ o.id) before r rows (λ e. h.0 (sym e)) k.0,
      insert_by-RowsDistinct r rows h.1 k.1,
    )
  ]

  order_by-RowsDistinct :
      (rows : List BackupHistory) → RowsDistinct rows → RowsDistinct (order_by before rows)
  unfolding order_by
  order_by-RowsDistinct [] h = tt
  order_by-RowsDistinct (r ∷ rows) h =
      insert_by-RowsDistinct r _ (All-order_by (λ o. o.id ≢ r.id) before rows h.0)
        (order_by-RowsDistinct rows h.1)

All-project :
    (id : ℕ) (rows : List BackupHistory)
    → All (λ o. o.id ≢ id) rows
    → All (λ o. o.id ≢ id) (map project rows)
All-project id [] h = tt
All-project id (r ∷ rows) h = (h.0, All-project id rows h.1)

project-IdsDistinct :
    (rows : List BackupHistory) → RowsDistinct rows → IdsDistinct (map project rows)
project-IdsDistinct [] h = tt
project-IdsDistinct (r ∷ rows) h = (All-project r.id rows h.0, project-IdsDistinct rows h.1)

pub local_for_guest-IdsDistinct :
    (db : Database) (vmid : ℕ) (guest_type : GuestType)
    → RowsDistinct db.history
    → IdsDistinct (local_for_guest db vmid guest_type)
unfolding local_for_guest
local_for_guest-IdsDistinct db vmid guest_type d = project-IdsDistinct _ (
    order_by-RowsDistinct newest_first _
      (filter-RowsDistinct (λ r. of_guest vmid guest_type r && local_exists r) db.history d))

pub remote_for_guest-IdsDistinct :
    (db : Database) (vmid : ℕ) (guest_type : GuestType)
    → RowsDistinct db.history
    → IdsDistinct (remote_for_guest db vmid guest_type)
unfolding remote_for_guest
remote_for_guest-IdsDistinct db vmid guest_type d = project-IdsDistinct _ (
    order_by-RowsDistinct newest_first _
      (filter-RowsDistinct (λ r. of_guest vmid guest_type r && remote_exists r) db.history d))
