-- ===== src/Login/Signin/Issue.antt =====
-- What a new session adds to the table.
use proxsync.Prelude.{ℕ, ◌≡◌, refl, none, [], ◌∷◌, ◌++◌, ◌⊎◌, inl, inr, any, Bool-cases}
use proxsync.Prelude.Text.{Text}
use proxsync.Effects.{ok, raised}
use proxsync.Login.Tokens.{RefreshToken, has_hash, create}
use proxsync.Login.State.{User, Context, World, State, integrity_error}
use proxsync.Login.Signin.{stored_session, session_of, issue_session}

-- A session is issued and its token, live and of its family, is the last row; or the table is as
-- before and the hash was taken.
pub issue_session-cases :
    (w : World) (user : User) (family_id : Text) (context : Context) (now : ℕ) (s : State)
    → ((issue_session w user family_id context now s).0 ≡ ok (session_of w user family_id now s))
        × ((token : RefreshToken) × (token.family_id ≡ family_id)
            × (token.revoked_at ≡ none)
            × ((issue_session w user family_id context now s).1.tokens ≡ s.tokens ++ token ∷ []))
      ⊎ ((issue_session w user family_id context now s).0 ≡ raised integrity_error)
        × ((issue_session w user family_id context now s).1.tokens ≡ s.tokens)
unfolding issue_session stored_session create
issue_session-cases w user family_id context now s =
    elim (Bool-cases (any (has_hash (w.hash_token (w.raw_token s.draws))) s.tokens)) [
      | inl taken ↦ inr (simp taken (refl, refl))
      | inr free ↦ inl (simp free (refl, (_, refl, refl, refl)))
    ]
