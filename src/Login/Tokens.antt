-- ===== src/Login/Tokens.antt =====
-- Refresh tokens: the table of backend/app/db/models/user.py and
-- backend/app/repositories/refresh_token_repository.py. The table is the list of its rows.
pub mod Counts
use proxsync.Prelude.{
  ℕ, ◌+◌, Bool, true, false, not, ◌&&◌, Option, none, some, List, [], ◌∷◌, ◌++◌, map, ltb, leb,
  ◌==◌, take, filter, find, any, count, is_some, if◌then◌else◌,
}
use proxsync.Prelude.Text.{Text, eq_text}

pub data RevokedReason : Type 0 where
  reuse_detected expired user_unavailable rotated logged_out : RevokedReason
  revoked_by_user password_changed : RevokedReason

pub record RefreshToken : Type 0 where
  pub id : ℕ
  pub user_id : ℕ
  pub token_hash : Text
  pub family_id : Text
  pub expires_at : ℕ
  pub created_at : ℕ
  pub revoked_at : Option ℕ
  pub revoked_reason : Option RevokedReason
  pub user_agent : Option Text
  pub ip_address : Option Text

abbrev pub is_revoked : RefreshToken → Bool
is_revoked t = is_some t.revoked_at

abbrev pub has_hash : Text → RefreshToken → Bool
has_hash token_hash t = eq_text t.token_hash token_hash

abbrev pub in_family : Text → RefreshToken → Bool
in_family family_id t = eq_text t.family_id family_id

-- `user_agent[:255] if user_agent else None`
pub clip : Option Text → Option Text
clip none = none
clip (some []) = none
clip (some (c ∷ t)) = some (take 255 (c ∷ t))

-- `create`; `none` is the refusal of a hash that the unique column already holds.
unfoldable pub create : RefreshToken → List RefreshToken → Option (List RefreshToken)
unfolding clip
create token rows =
    if any (has_hash token.token_hash) rows
    then none
    else some (rows ++ record token { user_agent = clip token.user_agent } ∷ [])

-- `get_by_hash`: the column is unique, so the first row is the only one.
unfoldable pub get_by_hash : Text → List RefreshToken → Option RefreshToken
get_by_hash token_hash rows = find (has_hash token_hash) rows

abbrev pub revoke_row : ℕ → RevokedReason → RefreshToken → RefreshToken
revoke_row at reason t =
    if is_revoked t then t else record t { revoked_at = some at; revoked_reason = some reason }

-- Every row that passes the test is revoked, unless it was.
pub revoke_where : (RefreshToken → Bool) → ℕ → RevokedReason → List RefreshToken → List RefreshToken
revoke_where p at reason [] = []
revoke_where p at reason (t ∷ rows) =
    let rest = revoke_where p at reason rows in (if p t then revoke_row at reason t else t) ∷ rest

-- `revoke` of a row that the session holds: the row of its primary key.
unfoldable pub revoke : RefreshToken → ℕ → RevokedReason → List RefreshToken → List RefreshToken
unfolding revoke_where
revoke token at reason rows = revoke_where (λ t. t.id == token.id) at reason rows

-- `revoke_family`: the number of rows changed, and the rows.
unfoldable pub revoke_family : Text → ℕ → RevokedReason → List RefreshToken → ℕ × List RefreshToken
unfolding revoke_where
revoke_family family_id at reason rows = (
  count (λ t. in_family family_id t && not (is_revoked t)) rows,
  revoke_where (in_family family_id) at reason rows,
)

abbrev excepted : Option Text → RefreshToken → Bool
excepted none t = true
excepted (some family_id) t = not (in_family family_id t)

-- `revoke_all_for_user`
unfoldable pub revoke_all_for_user :
    ℕ → ℕ → RevokedReason → Option Text → List RefreshToken → ℕ × List RefreshToken
unfolding revoke_where
revoke_all_for_user user_id at reason except_family rows = (
  count (λ t. t.user_id == user_id && not (is_revoked t) && excepted except_family t) rows,
  revoke_where (λ t. t.user_id == user_id && excepted except_family t) at reason rows,
)

-- `is_usable`
abbrev pub is_usable : ℕ → RefreshToken → Bool
is_usable now t = not (is_revoked t) && ltb now t.expires_at

-- Newest first; of two equal times the row that was read first comes first.
insert_newest : RefreshToken → List RefreshToken → List RefreshToken
insert_newest t [] = t ∷ []
insert_newest t (u ∷ rows) =
    let rest = insert_newest t rows in
    if leb u.created_at t.created_at then t ∷ u ∷ rows else u ∷ rest

sort_newest : List RefreshToken → List RefreshToken
unfolding insert_newest
sort_newest [] = []
sort_newest (t ∷ rows) = insert_newest t (sort_newest rows)

-- `list_active_for_user`
unfoldable pub list_active_for_user : ℕ → ℕ → List RefreshToken → List RefreshToken
unfolding sort_newest
list_active_for_user user_id now rows =
    sort_newest (filter (λ t. t.user_id == user_id && is_usable now t) rows)

-- `purge_expired`: the number of rows deleted, and the rows left.
pub purge_expired : ℕ → List RefreshToken → ℕ × List RefreshToken
purge_expired before rows =
    (count (λ t. ltb t.expires_at before) rows, filter (λ t. leb before t.expires_at) rows)
