-- ===== src/Login/Signin.antt =====
-- `login` of backend/app/services/auth_service.py, with `_register_failure` and `_issue_session`.
pub mod Issue
pub mod Lockout
pub mod Single
use proxsync.Prelude.{
  ℕ, suc, ◌+◌, ◌-◌, Bool, true, false, Option, none, some, List, [], ◌∷◌, ◌++◌, ltb, leb,
  if◌then◌else◌,
}
use proxsync.Prelude.Text.{Text, codes}
use proxsync.Effects.{Result, ok, raised, Action, return, raise, ◌>>=◌, ◌>>◌, resume}
use proxsync.Login.Limiter.{RateLimitDecision, check, record_hit, reset, lockout_duration_seconds}
use proxsync.Login.Tokens.{RefreshToken, create}
use proxsync.Login.State.{
  User, rate_limited, unknown_user, inactive, no_detail, locked, bad_password, lock_set,
  login_success, login_failure, account_locked, AuditRow, Context, World, State, IssuedSession,
  ServiceError, too_many_attempts, account_is_locked, invalid_credentials, account_disabled,
  index_error, integrity_error, Service, audit_row, record_audit, update_users, update_user,
  get_by_username,
}

abbrev pub record_login_success : ℕ → Option Text → User → User
record_login_success at ip u = record u {
  failed_login_count = 0;
  locked_until = none;
  last_login_at = some at;
  last_login_ip = ip;
}

abbrev pub record_login_failure : ℕ → Option ℕ → User → User
record_login_failure failed_count locked_until u = record u {
  failed_login_count = failed_count;
  locked_until = locked_until;
}

-- `_issue_session`
abbrev pub new_token : World → User → Text → Context → ℕ → State → RefreshToken
new_token w user family_id context now s = record {
  id = w.next_id s.tokens;
  user_id = user.id;
  token_hash = w.hash_token (w.raw_token s.draws);
  family_id = family_id;
  expires_at = now + w.refresh_ttl;
  created_at = now;
  revoked_at = none;
  revoked_reason = none;
  user_agent = context.user_agent;
  ip_address = context.ip_address;
}

abbrev pub session_of : World → User → Text → ℕ → State → IssuedSession
session_of w user family_id now s = record {
  access_token = w.access_token s.draws user now;
  expires_in = w.access_ttl;
  refresh_token = w.raw_token s.draws;
  refresh_expires_at = now + w.refresh_ttl;
  csrf_token = w.csrf_token s.draws;
  family_id = family_id;
  user_id = user.id;
}

stored_session : Option (List RefreshToken) → IssuedSession → Service IssuedSession
stored_session none issued s = (raised integrity_error, record s { draws = suc s.draws })
stored_session (some tokens) issued s =
    (ok issued, record s { tokens = tokens; draws = suc s.draws })

unfoldable pub issue_session : World → User → Text → Context → ℕ → Service IssuedSession
unfolding stored_session create
issue_session w user family_id context now s =
    stored_session (create (new_token w user family_id context now s) s.tokens)
      (session_of w user family_id now s) s

-- `_register_failure`
abbrev pub lock_seconds : World → ℕ → ℕ
unfolding lockout_duration_seconds
lock_seconds w failed_count =
    lockout_duration_seconds (suc (failed_count - w.login_max_attempts))
      w.login_lockout_base_seconds w.login_lockout_max_seconds

abbrev pub lock_until : World → ℕ → ℕ → Option ℕ
lock_until w failed_count now =
    if leb w.login_max_attempts failed_count then some (now + lock_seconds w failed_count) else none

audit_lock : World → User → ℕ → Context → Service Unit
unfolding record_audit audit_row
audit_lock w user failed_count context =
    if leb w.login_max_attempts failed_count
    then record_audit (
        audit_row account_locked false (some user) none context
          (lock_set failed_count (lock_seconds w failed_count)))
    else return tt

pub register_failure : World → User → Text → Context → ℕ → ℕ → Service Unit
unfolding audit_lock update_users record_audit audit_row
register_failure w user key context now tick s =
    let failed_count = suc user.failed_login_count in
    (do
      audit_lock w user failed_count context
      update_user user.id (record_login_failure failed_count (lock_until w failed_count now))
      record_audit
          (audit_row login_failure false (some user) none context (bad_password failed_count)))
      (record s { limiter = record_hit key tick s.limiter })

abbrev pub refuse : ServiceError → AuditRow → Service IssuedSession
refuse error row = do record_audit row; raise error

rehash : World → User → Text → Service Unit
unfolding update_users
rehash w user password s =
    if w.needs_rehash user.password_hash
    then (
      ok tt,
      record s {
        users =
            update_users user.id
              (λ u. record u { password_hash = w.hash_password s.draws password }) s.users;
        draws = suc s.draws;
      },
    )
    else (ok tt, s)

-- The end of `login`, once the password is right and the account is active.
admit : World → User → Text → Text → Context → ℕ → Service IssuedSession
unfolding rehash update_users record_audit audit_row issue_session
admit w user key password context now = do
  rehash w user password
  (λ s. (ok tt, record s { limiter = reset key s.limiter }))
  update_user user.id (record_login_success now context.ip_address)
  record_audit (audit_row login_success true (some user) none context no_detail)
  (λ s.
      issue_session w user (w.new_family_id s.draws) context now (record s { draws = suc s.draws }))

abbrev pub is_locked : ℕ → Option ℕ → Bool
is_locked now none = false
is_locked now (some until) = ltb now until

abbrev pub seconds_left : ℕ → Option ℕ → ℕ
seconds_left now none = 0
seconds_left now (some until) = until - now

login_active : World → User → Text → Text → Context → ℕ → Service IssuedSession
unfolding admit record_audit audit_row
login_active w user key password context now =
    if user.is_active
    then admit w user key password context now
    else refuse account_disabled (audit_row login_failure false (some user) none context inactive)

login_unlocked : World → User → Text → Text → Context → ℕ → ℕ → Service IssuedSession
unfolding login_active register_failure
login_unlocked w user key password context now tick =
    if w.verify_password user.password_hash password
    then login_active w user key password context now
    else register_failure w user key context now tick >> raise invalid_credentials

login_user : World → Option User → Text → Text → Text → Context → ℕ → ℕ → Service IssuedSession
unfolding login_unlocked record_audit audit_row
login_user w none normalised key password context now tick s =
    refuse invalid_credentials
      (audit_row login_failure false none (some normalised) context unknown_user)
      (record s { limiter = record_hit key tick s.limiter })
login_user w (some user) normalised key password context now tick s =
    if is_locked now user.locked_until
    then refuse (account_is_locked (seconds_left now user.locked_until))
        (audit_row login_failure false (some user) none context
          (locked (seconds_left now user.locked_until)))
        s
    else login_unlocked w user key password context now tick s

login_checked :
    World → Option RateLimitDecision → Text → Text → Text → Context → ℕ → ℕ → Service IssuedSession
unfolding login_user get_by_username record_audit audit_row
login_checked w none normalised key password context now tick s = raise index_error s
login_checked w (some decision) normalised key password context now tick s =
    if decision.allowed
    then login_user w (get_by_username w normalised s.users) normalised key password context now
        tick s
    else refuse (too_many_attempts decision.retry_after_seconds)
        (audit_row login_failure false none (some normalised) context rate_limited) s

or_unknown : Option Text → Text
or_unknown none = codes "unknown"
or_unknown (some []) = codes "unknown"
or_unknown (some (c ∷ ip)) = c ∷ ip

-- The key of the limiter: the address and the name.
pub limiter_key : Context → Text → Text
unfolding or_unknown
limiter_key context normalised = or_unknown context.ip_address ++ b'|' ∷ normalised

-- `login`; `now` is the wall clock, `tick` the monotonic one.
pub login : World → Text → Text → Context → ℕ → ℕ → Service IssuedSession
unfolding login_checked limiter_key check
login w username password context now tick s =
    let normalised = w.casefold_strip username in
    let key = limiter_key context normalised in
    let (decision, limiter) = check key tick s.limiter in
    login_checked w decision normalised key password context now tick
      (record s { limiter = limiter })
