-- ===== src/Login/Signin/Single.antt =====
-- Signing in starts a family of its own.
use mathlib.Core.Path.{subst}
use proxsync.Prelude.{
  ℕ, ◌≡◌, sym, ◌∙◌, not, ◌&&◌, inl, inr, Option, none, some, List, [], ◌∷◌, ◌++◌, arith, Bool-cases,
  count-append,
}
use proxsync.Prelude.Text.{Text, eq_text→eq}
use proxsync.Login.Limiter.{RateLimitDecision, check}
use proxsync.Login.Tokens.{RefreshToken, in_family, is_revoked}
use proxsync.Login.Tokens.Counts.{active, IsSingle}
use proxsync.Login.State.{User, Context, World, State, record_audit}
use proxsync.Login.Signin.{
  is_locked, issue_session, rehash, admit, login_active, login_unlocked, login_user, login_checked,
  login,
}
use proxsync.Login.Signin.Issue.{issue_session-cases}
use proxsync.Login.Signin.Lockout.{register_failure-users}

-- A live token of a family that had none.
append-IsSingle :
    (rows : List RefreshToken) (token : RefreshToken) (family_id : Text)
    → token.family_id ≡ family_id
    → active family_id rows ≡ 0
    → IsSingle rows
    → IsSingle (rows ++ token ∷ [])
append-IsSingle rows token family_id same none_live single other =
    let split = count-append (λ t. in_family other t && not (is_revoked t)) rows (token ∷ []) in
    elim (Bool-cases (in_family other token)) [
      | inl belongs ↦
          let dead : active other rows ≡ 0 =
            subst (λ f. active f rows ≡ 0) (sym same ∙ eq_text→eq token.family_id other belongs)
              none_live in
          ground (arith, split, dead)
      | inr foreign ↦ ground (arith, split, foreign, single other)
    ]

module _ (w : World) (context : Context) (now tick : ℕ) where
  issue_session-IsSingle :
      (user : User) (family_id : Text) (s : State)
      → active family_id s.tokens ≡ 0
      → IsSingle s.tokens
      → IsSingle (issue_session w user family_id context now s).1.tokens
  issue_session-IsSingle user family_id s none_live single =
      elim (issue_session-cases w user family_id context now s) [
        | inl (issued, (token, same, live, rows)) ↦
            subst IsSingle (sym rows)
              (append-IsSingle s.tokens token family_id same none_live single)
        | inr (refused, rows) ↦ subst IsSingle (sym rows) single
      ]

  module _ (s : State) (fresh : (n : ℕ) → active (w.new_family_id n) s.tokens ≡ 0)
      (single : IsSingle s.tokens) where
    admit-IsSingle :
        (user : User) (key password : Text)
        → IsSingle (admit w user key password context now s).1.tokens
    unfolding admit rehash record_audit
    admit-IsSingle user key password = elim (Bool-cases (w.needs_rehash user.password_hash)) [
      | inl weak ↦ simp weak (issue_session-IsSingle user _ _ (fresh _) single)
      | inr strong ↦ simp strong (issue_session-IsSingle user _ _ (fresh _) single)
    ]

    login_active-IsSingle :
        (user : User) (key password : Text)
        → IsSingle (login_active w user key password context now s).1.tokens
    unfolding login_active record_audit
    login_active-IsSingle user key password = elim (Bool-cases user.is_active) [
      | inl works ↦ simp works (admit-IsSingle user key password)
      | inr disabled ↦ simp disabled single
    ]

    login_unlocked-IsSingle :
        (user : User) (key password : Text)
        → IsSingle (login_unlocked w user key password context now tick s).1.tokens
    unfolding login_unlocked
    login_unlocked-IsSingle user key password =
        elim (Bool-cases (w.verify_password user.password_hash password)) [
          | inl right ↦ simp right (login_active-IsSingle user key password)
          | inr wrong ↦
              let failed = register_failure-users w context now tick user key s in
              simp (wrong, failed.2) (subst IsSingle (sym failed.1) single)
        ]

    login_user-IsSingle :
        (user : Option User) (normalised key password : Text)
        → IsSingle (login_user w user normalised key password context now tick s).1.tokens
    unfolding login_user record_audit
    login_user-IsSingle none normalised key password = single
    login_user-IsSingle (some user) normalised key password =
        elim (Bool-cases (is_locked now user.locked_until)) [
          | inl shut ↦ simp shut single
          | inr open_account ↦ simp open_account (login_unlocked-IsSingle user key password)
        ]

    login_checked-IsSingle :
        (decision : Option RateLimitDecision) (normalised key password : Text)
        → IsSingle (login_checked w decision normalised key password context now tick s).1.tokens
    unfolding login_checked record_audit
    login_checked-IsSingle none normalised key password = single
    login_checked-IsSingle (some decision) normalised key password =
        elim (Bool-cases decision.allowed) [
          | inl admitted ↦ simp admitted (login_user-IsSingle _ normalised key password)
          | inr barred ↦ simp barred single
        ]

  -- A sign-in, whatever comes of it, leaves no family with two tokens that are not revoked, if none had
  -- two before and the family ids that are drawn have no such token yet.
  pub login-IsSingle :
      (username password : Text) (s : State)
      → ((n : ℕ) → active (w.new_family_id n) s.tokens ≡ 0)
      → IsSingle s.tokens
      → IsSingle (login w username password context now tick s).1.tokens
  unfolding login check
  login-IsSingle username password s fresh single =
      login_checked-IsSingle _ fresh single _ (w.casefold_strip username) _ password
