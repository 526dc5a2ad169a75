-- ===== src/Restore/Repository.antt =====
-- backend/app/repositories/restore_repository.py, and the tests on a status of
-- backend/app/schemas/enums.py. The table is the list of its rows, in the order of their ids.
pub mod Updates
use proxsync.Prelude.{
  ℕ, Bool, true, false, not, ◌&&◌, ◌||◌, Option, none, some, List, [], ◌∷◌, ◌++◌, map, leb, ◌==◌,
  filter, find, any, if◌then◌else◌,
}
use proxsync.Prelude.Text.{Text}
use proxsync.Retention.Types.{
  RestoreStatus, pending_confirmation, confirmed, running, success, failed, cancelled, interrupted,
  expired,
}
use proxsync.Restore.Types.{RestoreRow}

abbrev pub is_pending : RestoreStatus → Bool
is_pending pending_confirmation = true
is_pending _ = false

abbrev pub is_confirmed : RestoreStatus → Bool
is_confirmed confirmed = true
is_confirmed _ = false

abbrev pub is_running : RestoreStatus → Bool
is_running running = true
is_running _ = false

abbrev pub is_expired : RestoreStatus → Bool
is_expired expired = true
is_expired _ = false

-- `is_terminal`
abbrev pub is_terminal : RestoreStatus → Bool
is_terminal pending_confirmation = false
is_terminal confirmed = false
is_terminal running = false
is_terminal _ = true

-- `IN_FLIGHT_STATES`
abbrev pub is_in_flight : RestoreStatus → Bool
is_in_flight confirmed = true
is_in_flight running = true
is_in_flight _ = false

-- `get`, by the primary key
abbrev pub get_row : ℕ → List RestoreRow → Option RestoreRow
get_row id rows = find (λ r. r.id == id) rows

-- The row that `get` finds is changed in place.
unfoldable pub update_row : ℕ → (RestoreRow → RestoreRow) → List RestoreRow → List RestoreRow
update_row id f [] = []
update_row id f (r ∷ rows) =
    let rest = update_row id f rows in if r.id == id then f r ∷ rows else r ∷ rest

-- `next_confirmed`
unfoldable pub next_confirmed : List RestoreRow → Option RestoreRow
next_confirmed rows = find (λ r. is_confirmed r.status) rows

-- `in_flight`
unfoldable pub in_flight : List RestoreRow → Option RestoreRow
in_flight rows = find (λ r. is_in_flight r.status) rows

-- `running`
unfoldable pub running_rows : List RestoreRow → List RestoreRow
running_rows rows = filter (λ r. is_running r.status) rows

elapsed : ℕ → Option ℕ → Bool
elapsed now none = false
elapsed now (some expires_at) = leb expires_at now

-- The condition of `expired_pending`.
unfoldable pub is_stale : ℕ → RestoreRow → Bool
unfolding elapsed
is_stale now r = is_pending r.status && elapsed now r.confirmation_expires_at

-- What `expire_pending` makes of a stale row.
abbrev pub expire_row : ℕ → RestoreRow → RestoreRow
expire_row now r = record r {
  status = expired;
  finished_at = some now;
  confirmation_token_hash = none;
}

-- `expire_pending`: the ids that changed, and the rows.
unfoldable pub expire_pending : ℕ → List RestoreRow → List ℕ × List RestoreRow
unfolding is_stale
expire_pending now rows = (
  map (λ r. r.id) (filter (is_stale now) rows),
  map (λ r. if is_stale now r then expire_row now r else r) rows,
)
