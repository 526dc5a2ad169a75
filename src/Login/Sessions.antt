-- ===== src/Login/Sessions.antt =====
-- `refresh`, `logout`, `revoke_session` and `change_password` of
-- backend/app/services/auth_service.py, and the transaction that `get_session` of
-- backend/app/api/deps.py puts around a request.
pub mod Rotation
pub mod Reuse
pub mod Password
use proxsync.Prelude.{
  ℕ, suc, Bool, true, false, not, ◌&&◌, ◌||◌, Option, none, some, List, [], ◌∷◌, ◌++◌, ltb, leb,
  ◌==◌, length, find, is_some, if◌then◌else◌,
}
use proxsync.Prelude.Text.{Text, eq_text}
use proxsync.Effects.{Result, ok, raised, Action, return, raise, ◌>>=◌, ◌>>◌, resume}
use proxsync.Login.Tokens.{
  RefreshToken, RevokedReason, reuse_detected, expired, user_unavailable, rotated, logged_out,
  revoked_by_user, password_changed, get_by_hash, revoke, revoke_family, revoke_all_for_user,
  list_active_for_user, is_revoked,
}
use proxsync.Login.State.{
  User, current_password_incorrect, no_detail, family_reused, sessions_revoked, logout_done,
  token_refresh, token_reuse_detected, login_value_changed, Context, World, State, IssuedSession,
  ServiceError, unrecognised_token, reused_token, session_expired, account_unavailable,
  no_such_session, incorrect_password, same_password, short_password, index_error, integrity_error,
  AuditRow, AuditDetail, AuditAction, Service, record_audit, update_users, update_user,
}
use proxsync.Login.Signin.{issue_session}

-- An audit row that names the user by number alone.
abbrev pub numbered_row : AuditAction → Bool → ℕ → Option Text → Context → AuditDetail → AuditRow
numbered_row action success user_id username context detail = record {
  action = action;
  success = success;
  user_id = some user_id;
  username = username;
  ip_address = context.ip_address;
  detail = detail;
}

-- Revokes a family and goes on with the number of tokens that this revoked.
abbrev pub with_family_revoked :
    {A : Type 0} → Text → ℕ → RevokedReason → (ℕ → Service A) → Service A
unfolding revoke_family
with_family_revoked family_id at reason next s =
    let (revoked, tokens) = revoke_family family_id at reason s.tokens in
    next revoked (record s { tokens = tokens })

abbrev pub get_user : ℕ → List User → Option User
get_user id users = find (λ u. u.id == id) users

active_user : Option User → Option User
active_user none = none
active_user (some user) = if user.is_active then some user else none

refresh_for : World → RefreshToken → Option User → Context → ℕ → Service IssuedSession
unfolding record_audit issue_session
refresh_for w stored none context now s =
    with_family_revoked stored.family_id now user_unavailable (λ revoked. raise account_unavailable)
      s
refresh_for w stored (some user) context now s =
    (do
      record_audit (numbered_row token_refresh true user.id (some user.username) context no_detail)
      issue_session w user stored.family_id context now)
      (record s { tokens = revoke stored now rotated s.tokens })

refresh_stored : World → Option RefreshToken → Context → ℕ → Service IssuedSession
unfolding refresh_for active_user record_audit revoke
refresh_stored w none context now s = raise unrecognised_token s
refresh_stored w (some stored) context now s =
    if is_revoked stored
    then with_family_revoked stored.family_id now reuse_detected
        (λ revoked. do
          record_audit (
              numbered_row token_reuse_detected false stored.user_id none context
                (family_reused stored.family_id revoked))
          raise reused_token)
        s
    else if leb stored.expires_at now
    then (raised session_expired, record s { tokens = revoke stored now expired s.tokens })
    else refresh_for w stored (active_user (get_user stored.user_id s.users)) context now s

-- `refresh`
unfoldable pub refresh : World → Text → Context → ℕ → Service IssuedSession
unfolding refresh_stored get_by_hash
refresh w raw context now s =
    refresh_stored w (get_by_hash (w.hash_token raw) s.tokens) context now s

logout_stored : Option RefreshToken → Context → ℕ → Service Unit
unfolding record_audit
logout_stored none context now = return tt
logout_stored (some stored) context now =
    with_family_revoked stored.family_id now logged_out
      λ revoked. record_audit (numbered_row logout_done true stored.user_id none context no_detail)

-- `logout`; an absent cookie and an empty one do nothing.
unfoldable pub logout : World → Option Text → Context → ℕ → Service Unit
unfolding logout_stored get_by_hash
logout w none context now s = return tt s
logout w (some []) context now s = return tt s
logout w (some (c ∷ raw)) context now s =
    logout_stored (get_by_hash (w.hash_token (c ∷ raw)) s.tokens) context now s

revoke_target : Option RefreshToken → ℕ → Service Unit
revoke_target none now = raise no_such_session
revoke_target (some target) now =
    with_family_revoked target.family_id now revoked_by_user λ revoked. return tt

-- `revoke_session`
pub revoke_session : ℕ → ℕ → ℕ → Service Unit
unfolding revoke_target list_active_for_user
revoke_session user_id session_id now s =
    revoke_target (find (λ t. t.id == session_id) (list_active_for_user user_id now s.tokens)) now s

abbrev pub min_password_length : ℕ
min_password_length = 12

set_password : World → User → Text → Context → ℕ → Service Unit
unfolding update_users revoke_all_for_user record_audit
set_password w user new_password context now s =
    let (revoked, tokens) = revoke_all_for_user user.id now password_changed none s.tokens in
    record_audit
      (numbered_row login_value_changed true user.id (some user.username) context
        (sessions_revoked revoked))
      (record s {
        users =
            update_users user.id
              (λ u. record u {
                password_hash = w.hash_password s.draws new_password;
                must_change_password = false;
              })
              s.users;
        tokens = tokens;
        draws = suc s.draws;
      })

-- `change_password`
pub change_password : World → User → Text → Text → Context → ℕ → Service Unit
unfolding set_password record_audit
change_password w user current_password new_password context now =
    if not (w.verify_password user.password_hash current_password)
    then record_audit (
        numbered_row login_value_changed false user.id (some user.username) context
          current_password_incorrect)
      >> raise incorrect_password
    else if eq_text new_password current_password
    then raise same_password
    else if ltb (length new_password) min_password_length
    then raise short_password
    else set_password w user new_password context now

abbrev is_expected : ServiceError → Bool
is_expected index_error = false
is_expected integrity_error = false
is_expected _ = true

-- What a request leaves: an error that the service means is committed with everything before it; any
-- other one takes the tables back, but not the limiter of the process.
closed : {A : Type 0} → Result ServiceError A × State → State → Result ServiceError A × State
closed (ok a, after) before = (ok a, after)
closed (raised e, after) before = if is_expected e then (raised e, after) else (
  raised e,
  record after { users = before.users; tokens = before.tokens; audit = before.audit },
)

-- `get_session`
pub request : {A : Type 0} → Service A → Service A
unfolding closed
request m s = closed (m s) s
