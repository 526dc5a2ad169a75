-- ===== src/Login/Signin/Lockout.antt =====
-- What a wrong password does to the account, and that a locked account stays closed.
use mathlib.Core.Option
use proxsync.Prelude.{
  ℕ, suc, ◌+◌, ◌<◌, ◌≤◌, ◌≡◌, ◌≢◌, refl, ap, ◌∙◌, true, false, inl, inr, Option, none, some, List,
  [], ◌∷◌, leb, ◌==◌, find, arith, Bool-cases, if◌then◌else◌,
}
use proxsync.Prelude.Text.{Text}
use proxsync.Effects.{ok, raised}
use proxsync.Login.Limiter.{RateLimitDecision, check}
use proxsync.Login.State.{
  User, Context, World, State, IssuedSession, invalid_credentials, update_users, has_name,
  get_by_username, record_audit,
}
use proxsync.Login.Signin.{
  record_login_failure, lock_until, lock_seconds, is_locked, register_failure, login_user,
  login_unlocked, login_checked, limiter_key, login,
}

-- The name is looked up in the same way before and after a row is changed that keeps its name.
find-update_users :
    (id : ℕ) (f : User → User) (name : Text) (users : List User)
    → ((u : User) → (f u).username ≡ u.username)
    → find (has_name name) (update_users id f users)
      ≡ Option.map (λ u. if u.id == id then f u else u) (find (has_name name) users)
unfolding update_users
find-update_users id f name [] keeps = refl
find-update_users id f name (u ∷ users) keeps =
    ground (arith, keeps u, find-update_users id f name users keeps)

-- The tables after are the tables before, but for the audit rows.
abbrev pub Unchanged : State → State → Type 0
Unchanged before after = (after.users ≡ before.users) × (after.tokens ≡ before.tokens)

module _ (w : World) (context : Context) (now tick : ℕ) (user : User)
    (session : IssuedSession) where
  login_checked_locked :
      (decision : Option RateLimitDecision) (normalised key password : Text) (s : State)
      → get_by_username w normalised s.users ≡ some user
      → is_locked now user.locked_until ≡ true
      → ((login_checked w decision normalised key password context now tick s).0 ≢ ok session)
        × Unchanged s (login_checked w decision normalised key password context now tick s).1
  unfolding login_checked login_user record_audit
  login_checked_locked none normalised key password s found closed = (λ h. cc h, (refl, refl))
  login_checked_locked (some decision) normalised key password s found closed =
      elim (Bool-cases decision.allowed) [
        | inl admitted ↦ simp (admitted, found, closed) (λ h. cc h, (refl, refl))
        | inr barred ↦ simp barred (λ h. cc h, (refl, refl))
      ]

  -- While an account is locked nobody signs in to it, whatever the password and wherever the request
  -- comes from; and the attempt changes no user and no token.
  pub login-locked :
      (username password : Text) (s : State)
      → get_by_username w (w.casefold_strip username) s.users ≡ some user
      → is_locked now user.locked_until ≡ true
      → ((login w username password context now tick s).0 ≢ ok session)
        × Unchanged s (login w username password context now tick s).1
  unfolding login check
  login-locked username password s found closed =
      login_checked_locked _ (w.casefold_strip username) _ password _ found closed

-- The account as a wrong password leaves it.
abbrev pub failed_once : World → ℕ → User → User
failed_once w now user =
    record_login_failure (suc user.failed_login_count)
      (lock_until w (suc user.failed_login_count) now) user

module _ (w : World) (context : Context) (now tick : ℕ) (user : User) where
  pub register_failure-users :
      (key : Text) (s : State)
      → ((register_failure w user key context now tick s).1.users
          ≡ update_users user.id
              (record_login_failure
                (suc user.failed_login_count)
                (lock_until w (suc user.failed_login_count) now))
              s.users)
        × ((register_failure w user key context now tick s).1.tokens ≡ s.tokens)
        × ((register_failure w user key context now tick s).0 ≡ ok tt)
  unfolding register_failure record_audit
  register_failure-users key s =
      elim (Bool-cases (leb w.login_max_attempts (suc user.failed_login_count))) [
        | inl many ↦ simp many (refl, refl, refl)
        | inr few ↦ simp few (refl, refl, refl)
      ]

  register_failure-user :
      (key normalised : Text) (s : State)
      → get_by_username w normalised s.users ≡ some user
      → get_by_username w normalised (register_failure w user key context now tick s).1.users
        ≡ some (failed_once w now user)
  unfolding get_by_username
  register_failure-user key normalised s found =
      ap (find (has_name (w.casefold_strip normalised))) (register_failure-users key s).0
      ∙ find-update_users user.id _ (w.casefold_strip normalised) s.users (λ u. refl)
      ∙ ap
          (Option.map (λ u.
            if u.id == user.id
            then record_login_failure (suc user.failed_login_count)
                (lock_until w (suc user.failed_login_count) now) u
            else u))
          found
      ∙ ground arith

  login_checked_wrong :
      (decision : RateLimitDecision) (normalised key password : Text) (s : State)
      → decision.allowed ≡ true
      → get_by_username w normalised s.users ≡ some user
      → is_locked now user.locked_until ≡ false
      → w.verify_password user.password_hash password ≡ false
      → login_checked w (some decision) normalised key password context now tick s
        ≡ (raised invalid_credentials, (register_failure w user key context now tick s).1)
  unfolding login_checked login_user login_unlocked
  login_checked_wrong decision normalised key password s admitted found open_account wrong =
      simp (admitted, found, open_account, wrong, (register_failure-users key s).2) refl

module _ (w : World) (context : Context) (now tick : ℕ) (user : User) (username password : Text)
    (s : State) (decision : RateLimitDecision)
    (checked : (check (limiter_key context (w.casefold_strip username)) tick s.limiter).0
      ≡ some decision)
    (admitted : decision.allowed ≡ true)
    (found : get_by_username w (w.casefold_strip username) s.users ≡ some user)
    (open_account : is_locked now user.locked_until ≡ false)
    (wrong : w.verify_password user.password_hash password ≡ false) where
  abbrev key : Text
  key = limiter_key context (w.casefold_strip username)

  -- The state in which the failure is registered.
  abbrev checked_state : State
  checked_state = record s { limiter = (check key tick s.limiter).1 }

  login_wrong :
      login w username password context now tick s
      ≡ (raised invalid_credentials, (register_failure w user key context now tick checked_state).1)
  unfolding login
  login_wrong =
      ap
        (λ d.
          login_checked w d (w.casefold_strip username) key password context now tick checked_state)
        checked
      ∙ login_checked_wrong w context now tick user decision (w.casefold_strip username) key
          password checked_state admitted found open_account wrong

  -- A wrong password is refused like an unknown name, costs the account one more failure, sets its
  -- lock by the new count, and leaves the tokens as they were.
  pub login-wrong_password :
      ((login w username password context now tick s).0 ≡ raised invalid_credentials)
      × (get_by_username w
            (w.casefold_strip username)
            (login w username password context now tick s).1.users
          ≡ some (failed_once w now user))
      × ((login w username password context now tick s).1.tokens ≡ s.tokens)
  login-wrong_password =
      let after = register_failure-users w context now tick user key checked_state in
      (
        ap (λ r. r.0) login_wrong,
        ap (λ r. get_by_username w (w.casefold_strip username) r.1.users) login_wrong
            ∙ register_failure-user w context now tick user key (w.casefold_strip username)
                checked_state found,
        ap (λ r. r.1.tokens) login_wrong ∙ after.1,
      )

  -- The failure that brings the count to the limit locks the account: the next sign-in to it, at any
  -- time before the lock has run out, fails whatever the password and the address, the right password
  -- included.
  pub login-lockout :
      (other : Context) (later later_tick : ℕ) (again : Text) (session : IssuedSession)
      → w.login_max_attempts ≤ suc user.failed_login_count
      → later < now + lock_seconds w (suc user.failed_login_count)
      → (login w username again other later later_tick
          (login w username password context now tick s).1).0
        ≢ ok session
  login-lockout other later later_tick again session many soon =
      (login-locked w other later later_tick (failed_once w now user) session username again
        (login w username password context now tick s).1 login-wrong_password.1
        (ground (arith, many, soon))).0
