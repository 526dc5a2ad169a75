-- ===== src/Login/State.antt =====
-- The state of `AuthService` of backend/app/services/auth_service.py: the tables as one request sees
-- them, with the user rows of backend/app/repositories/user_repository.py, the limiter of the
-- process and how much randomness was drawn. A `World` holds what other libraries compute: hashes,
-- case folding, random values, the access token and the primary keys.
use proxsync.Prelude.{ℕ, Bool, Option, none, some, List, [], ◌∷◌, ◌++◌, ◌==◌, find, if◌then◌else◌}
use proxsync.Prelude.Text.{Text, eq_text}
use proxsync.Effects.{ok, Action}
use proxsync.Login.Limiter.{SlidingWindowLimiter}
use proxsync.Login.Tokens.{RefreshToken}

pub record User : Type 0 where
  pub id : ℕ
  pub username : Text
  pub password_hash : Text
  pub role : Text
  pub is_active : Bool
  pub must_change_password : Bool
  pub failed_login_count : ℕ
  pub locked_until : Option ℕ
  pub last_login_at : Option ℕ
  pub last_login_ip : Option Text

pub data AuditDetail : Type 0 where
  rate_limited unknown_user inactive current_password_incorrect no_detail : AuditDetail
  locked : ℕ → AuditDetail
  bad_password : ℕ → AuditDetail
  lock_set : ℕ → ℕ → AuditDetail
  family_reused : Text → ℕ → AuditDetail
  sessions_revoked : ℕ → AuditDetail

pub data AuditAction : Type 0 where
  login_success login_failure logout_done token_refresh token_reuse_detected : AuditAction
  login_value_changed account_locked : AuditAction

pub record AuditRow : Type 0 where
  pub action : AuditAction
  pub success : Bool
  pub user_id : Option ℕ
  pub username : Option Text
  pub ip_address : Option Text
  pub detail : AuditDetail

pub record Context : Type 0 where
  pub ip_address : Option Text
  pub user_agent : Option Text

pub record World : Type 0 where
  pub casefold_strip : Text → Text
  pub hash_token : Text → Text
  pub verify_password : Text → Text → Bool
  pub needs_rehash : Text → Bool
  -- the n-th hash, token, family, CSRF token and access token drawn
  pub hash_password : ℕ → Text → Text
  pub raw_token : ℕ → Text
  pub new_family_id : ℕ → Text
  pub csrf_token : ℕ → Text
  pub access_token : ℕ → User → ℕ → Text
  -- the primary key that the database gives a new row
  pub next_id : List RefreshToken → ℕ
  pub refresh_ttl : ℕ
  pub access_ttl : ℕ
  pub login_max_attempts : ℕ
  pub login_lockout_base_seconds : ℕ
  pub login_lockout_max_seconds : ℕ

pub record State : Type 0 where
  pub users : List User
  pub tokens : List RefreshToken
  pub audit : List AuditRow
  pub limiter : SlidingWindowLimiter
  pub draws : ℕ

pub record IssuedSession : Type 0 where
  pub access_token : Text
  pub expires_in : ℕ
  pub refresh_token : Text
  pub refresh_expires_at : ℕ
  pub csrf_token : Text
  pub family_id : Text
  pub user_id : ℕ

pub data ServiceError : Type 0 where
  too_many_attempts : ℕ → ServiceError
  account_is_locked : ℕ → ServiceError
  invalid_credentials account_disabled unrecognised_token reused_token session_expired :
      ServiceError
  account_unavailable no_such_session incorrect_password same_password short_password : ServiceError
  -- `IndexError` of the limiter, `IntegrityError` of the unique column
  index_error integrity_error : ServiceError

abbrev pub Service : Type 0 → Type 0
Service A = Action ServiceError State A

unfoldable pub audit_row :
    AuditAction → Bool → Option User → Option Text → Context → AuditDetail → AuditRow
audit_row action success (some user) username context detail = record {
  action = action;
  success = success;
  user_id = some user.id;
  username = some user.username;
  ip_address = context.ip_address;
  detail = detail;
}
audit_row action success none username context detail = record {
  action = action;
  success = success;
  user_id = none;
  username = username;
  ip_address = context.ip_address;
  detail = detail;
}

-- `self._audit.record(…)`
unfoldable pub record_audit : AuditRow → Service Unit
record_audit row s = (ok tt, record s { audit = s.audit ++ row ∷ [] })

-- The row of the user that the session holds, changed in place.
unfoldable pub update_users : ℕ → (User → User) → List User → List User
update_users id f [] = []
update_users id f (u ∷ users) =
    let rest = update_users id f users in (if u.id == id then f u else u) ∷ rest

abbrev pub update_user : ℕ → (User → User) → Service Unit
unfolding update_users
update_user id f s = (ok tt, record s { users = update_users id f s.users })

abbrev pub has_name : Text → User → Bool
has_name username u = eq_text u.username username

-- `get_by_username`, which normalises once more.
unfoldable pub get_by_username : World → Text → List User → Option User
get_by_username w username users = find (has_name (w.casefold_strip username)) users
