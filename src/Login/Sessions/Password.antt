-- ===== src/Login/Sessions/Password.antt =====
-- `change_password` of backend/app/services/auth_service.py as a whole: the stored hash, the user's
-- sessions, and the answers that change nothing.
use proxsync.Prelude.{
  ℕ, ◌≡◌, ◌≢◌, ◌==◌, refl, ap, ◌⊎◌, inl, inr, ◌≤◌, ltb, length, arith, Bool-cases, List, [], ◌∷◌,
  true, false, if◌then◌else◌,
}
use mathlib.Core.Option
use proxsync.Prelude.Text.{Text, eq_text, eq_text_refl}
use proxsync.Effects.{ok}
use proxsync.Login.Tokens.{password_changed}
use proxsync.Login.Tokens.Counts.{live_of, revoke_all-live_of}
use proxsync.Login.State.{User, Context, World, State, record_audit, update_users}
use proxsync.Login.Sessions.{get_user, set_password, change_password, min_password_length}

-- The rows by their ids, after one row has changed and kept its id.
get_user-update_users :
    (id other : ℕ) (f : User → User) (users : List User)
    → ((u : User) → (f u).id ≡ u.id)
    → get_user other (update_users id f users)
      ≡ Option.map (λ u. if u.id == id then f u else u) (get_user other users)
unfolding update_users
get_user-update_users id other f [] keeps = refl
get_user-update_users id other f (u ∷ users) keeps =
    ground (arith, keeps u, get_user-update_users id other f users keeps)

-- A change of password either goes through, and then the current password was right, the new one is
-- another one of 12 characters or more, its hash is what the user's row holds, with no further
-- change asked for, every other user is as before, and the user has no live token left, the one of
-- the session that asked for the change included; or it is refused, and then no token and no user
-- has changed.
pub change_password-outcome :
    (w : World) (user : User) (current_password new_password : Text) (context : Context) (now : ℕ)
    (s : State)
    → ((change_password w user current_password new_password context now s).0 ≡ ok tt)
        × (live_of user.id
              (change_password w user current_password new_password context now s).1.tokens
            ≡ 0)
        × (12 ≤ length new_password)
        × (new_password ≢ current_password)
        × (w.verify_password user.password_hash current_password ≡ true)
        × ((id : ℕ)
            → get_user id
                (change_password w user current_password new_password context now s).1.users
              ≡ Option.map
                  (λ u.
                    if u.id == user.id
                    then record u {
                      password_hash = w.hash_password s.draws new_password;
                      must_change_password = false;
                    }
                    else u)
                  (get_user id s.users))
      ⊎ ((change_password w user current_password new_password context now s).0 ≢ ok tt)
        × ((change_password w user current_password new_password context now s).1.tokens ≡ s.tokens)
        × ((change_password w user current_password new_password context now s).1.users ≡ s.users)
unfolding change_password set_password record_audit
change_password-outcome w user current_password new_password context now s =
    elim (Bool-cases (w.verify_password user.password_hash current_password)) [
      | inr wrong ↦ inr (simp wrong (λ h. cc h, refl, refl))
      | inl right ↦ elim (Bool-cases (eq_text new_password current_password)) [
        | inl same ↦ inr (simp (right, same) (λ h. cc h, refl, refl))
        | inr different ↦ elim (Bool-cases (ltb (length new_password) min_password_length)) [
          | inl short ↦ inr (simp (right, different, short) (λ h. cc h, refl, refl))
          | inr long ↦ inl (
              simp (right, different, long)
                (
                  refl,
                  revoke_all-live_of user.id now password_changed s.tokens,
                  ground arith,
                  λ e. cc (
                    different,
                    ap (λ t. eq_text t current_password) e,
                    eq_text_refl current_password,
                  ),
                  refl,
                  λ id. get_user-update_users user.id id _ s.users (λ u. refl),
                ))
        ]
      ]
    ]
